-- ===== src/Transfer/Unread.antt =====
-- A download whose temporary file cannot be read back for its digest.
use action_learning_p2p_vers.Prelude.{ℕ, ◌≡◌, refl, true, false, [], ◌∷◌, some, arith, ◌==◌}
use action_learning_p2p_vers.Prelude.Text.{Text, text_eq, is_empty}
use action_learning_p2p_vers.Disk.Paths.{parent_path}
use action_learning_p2p_vers.Disk.Nodes.{file}
use action_learning_p2p_vers.Disk.Io.{Disk, node_at, ok}
use action_learning_p2p_vers.Disk.Ops
use action_learning_p2p_vers.Crypto.Evp.{Evp}
use action_learning_p2p_vers.Crypto.Sha.{sha256_file, hash_content}
use action_learning_p2p_vers.Transfer.Download.{check_hash, install, set_mode, finish, downloaded}

-- Where a digest is expected of a temporary file that is complete, the stream that would read it
-- back does not open, no later call fails, the directory of the destination is there and nothing
-- but a file is in the way, and no mode is asked for, the file is installed and the download
-- reported complete, whatever the digest and the content are.
pub finish_unread :
    (e : Evp) (tmp dest hash content : Text) (m expected : ℕ) (d : Disk)
    → d.faults ≡ true ∷ []
    → is_empty hash ≡ false
    → node_at tmp d ≡ some (file content m)
    → Ops.is_dir_at (parent_path dest) d ≡ true
    → Ops.lands (node_at dest d) ≡ true
    → text_eq tmp dest ≡ false
    → finish e tmp dest expected hash 0 expected d
      ≡ (ok downloaded, Ops.put dest (file content m) (Ops.unlink tmp (record d { faults = [] })))
unfolding finish check_hash install set_mode sha256_file hash_content Ops.read_file Ops.rename
    Ops.rename_node
finish_unread e tmp dest hash content m expected d faults given there in_dir free apart =
    let counted : (expected == expected) ≡ true = ground arith in
    rw (counted, given, faults, there, in_dir, free, apart) refl
