-- ===== src/Transfer/ChunkPromise.antt =====
-- What a chunk may change, on every schedule of faults.
use action_learning_p2p_vers.Prelude.{
  ◌≡◌, refl, ◌∙◌, ◌≢◌, Bool, if◌then◌else◌, inl, inr, Bool-cases, true, false, [], ◌∷◌, none,
}
use action_learning_p2p_vers.Prelude.Int.{ℤ, pos, negsuc}
use action_learning_p2p_vers.Prelude.Text.{Text, text_eq, is_empty, codes}
use action_learning_p2p_vers.Disk.Paths.{
  parent_path, parent_path-append, path_join, before_last_slash,
}
use action_learning_p2p_vers.Disk.Io.{Disk, node_at, ok, threw, pure}
use action_learning_p2p_vers.Disk.Ops
use action_learning_p2p_vers.Disk.Frame.{file_at}
use action_learning_p2p_vers.Disk.Keeps.{
  Keeps, Keeps-bind, Keeps-if, Keeps-try, Keeps-read_file, Keeps-create_directories,
  Keeps-open_update, Keeps-remove, Keeps-open_truncate, Keeps-append, Keeps-write_at, Keeps-rename,
}
use action_learning_p2p_vers.Crypto.Evp.{Evp}
use action_learning_p2p_vers.Crypto.Sha.{sha256_file, hash_content}
use action_learning_p2p_vers.Transfer.Download.{tmp_of, check_hash, digest_passes}
use action_learning_p2p_vers.Transfer.Atomic.{tmp_of-ne}
use action_learning_p2p_vers.Transfer.Chunked.{
  ChunkOutcome, chunk_mismatch, chunk_exception, file_complete, chk_of, hash_or_empty, write_if,
  hash_chunk, open_chunk, write_chunk, install_file, after_chunk, after_open, store_chunk,
  receive_chunk, handle_chunked_file_download,
}

module _ (e : Evp) (q : Text) where
  Keeps-pure : {A : Type 0} (a : A) → Keeps q (pure a)
  Keeps-pure a d = refl

  Keeps-sha256_file : (p : Text) → Keeps q (sha256_file e p)
  unfolding sha256_file
  Keeps-sha256_file p =
      Keeps-bind q (Ops.read_file p) _ (Keeps-read_file q p) (λ c. Keeps-pure (hash_content e c))

  Keeps-check_hash : (p hash : Text) → Keeps q (check_hash e p hash)
  unfolding check_hash
  Keeps-check_hash p hash = Keeps-if q (is_empty hash) _ _ (Keeps-pure true) (
      Keeps-bind q (sha256_file e p) _ (Keeps-sha256_file p)
        (λ o. Keeps-pure (digest_passes e hash o)))

  Keeps-write_if : (b : Bool) (p bytes : Text) → q ≢ p → Keeps q (write_if b p bytes)
  Keeps-write_if true p bytes ne = Keeps-append q p ne bytes
  Keeps-write_if false p bytes ne = Keeps-pure false

  Keeps-hash_chunk : (chk bytes : Text) → q ≢ chk → Keeps q (hash_chunk e chk bytes)
  unfolding hash_chunk
  Keeps-hash_chunk chk bytes ne =
      Keeps-bind q (Ops.open_truncate chk) _ (Keeps-open_truncate q chk ne) λ b.
        Keeps-bind q (write_if b chk bytes) _ (Keeps-write_if b chk bytes ne) λ _.
          Keeps-bind q (sha256_file e chk) _ (Keeps-sha256_file chk) λ o.
            Keeps-bind q (Ops.remove chk) _ (Keeps-remove q chk ne)
              λ _. Keeps-pure (hash_or_empty o)

  module _ (tmp dest : Text) (not_tmp : q ≢ tmp) where
    Keeps-open_chunk : Keeps q (open_chunk tmp)
    unfolding open_chunk
    Keeps-open_chunk =
        Keeps-bind q (Ops.open_update tmp) _ (Keeps-open_update q tmp)
          λ b. Keeps-if q b _ _ (Keeps-pure true) (Keeps-open_truncate q tmp not_tmp)

    Keeps-write_chunk : (offset : ℤ) (bytes : Text) → Keeps q (write_chunk tmp offset bytes)
    unfolding write_chunk
    Keeps-write_chunk (negsuc k) bytes = Keeps-pure false
    Keeps-write_chunk (pos offset) bytes = Keeps-write_at q tmp not_tmp offset bytes

    module _ (not_dest : q ≢ dest) (apart : tmp ≢ dest) where
      Keeps-install_file : (b : Bool) → Keeps q (install_file tmp dest b)
      unfolding install_file
      Keeps-install_file true =
          Keeps-bind q (Ops.rename tmp dest) _ (Keeps-rename q tmp not_tmp dest not_dest apart)
            (λ _. Keeps-pure file_complete)
      Keeps-install_file false =
          Keeps-bind q (Ops.remove tmp) _ (Keeps-remove q tmp not_tmp)
            (λ _. Keeps-pure ChunkOutcome.file_mismatch)

      Keeps-after_chunk :
          (is_last : Bool) (hash : Text) (b : Bool)
          → Keeps q (after_chunk e tmp dest is_last hash b)
      unfolding after_chunk
      Keeps-after_chunk is_last hash false = Keeps-pure ChunkOutcome.chunk_write_failed
      Keeps-after_chunk is_last hash true =
          Keeps-if q is_last _ _
            (Keeps-bind q (check_hash e tmp hash) _ (Keeps-check_hash tmp hash) Keeps-install_file)
            (Keeps-pure ChunkOutcome.chunk_stored)

      Keeps-after_open :
          (bytes : Text) (offset : ℤ) (is_last : Bool) (hash : Text) (b : Bool)
          → Keeps q (after_open e tmp dest bytes offset is_last hash b)
      unfolding after_open
      Keeps-after_open bytes offset is_last hash false = Keeps-pure ChunkOutcome.chunk_open_failed
      Keeps-after_open bytes offset is_last hash true =
          Keeps-bind q (write_chunk tmp offset bytes) _ (Keeps-write_chunk offset bytes)
            (Keeps-after_chunk is_last hash)

      Keeps-store_chunk :
          (bytes : Text) (offset : ℤ) (is_last : Bool) (hash : Text)
          → Keeps q (store_chunk e tmp dest bytes offset is_last hash)
      unfolding store_chunk
      Keeps-store_chunk bytes offset is_last hash =
          Keeps-try q _ (pure chunk_exception)
            (Keeps-bind q (Ops.create_directories (parent_path dest)) _
              (Keeps-create_directories q (parent_path dest))
              λ _.
                Keeps-bind q (open_chunk tmp) _ Keeps-open_chunk
                  (Keeps-after_open bytes offset is_last hash))
            (Keeps-pure chunk_exception)

  -- Whatever fails, a chunk changes the regular file at no path but the destination, its temporary
  -- file and the file that the chunk is hashed by.
  pub handle_chunked_file_download-others :
      (watch rel chunk_data : Text) (offset : ℤ) (chunk_checksum : Text) (is_last : Bool)
      (expected_hash : Text) (d : Disk)
      → let dest = path_join watch rel in
        q ≢ dest
        → q ≢ tmp_of dest
        → q ≢ chk_of dest
        → file_at q
            (handle_chunked_file_download e watch rel chunk_data offset chunk_checksum is_last
              expected_hash d).1
          ≡ file_at q d
  unfolding handle_chunked_file_download receive_chunk
  handle_chunked_file_download-others watch rel chunk_data offset chunk_checksum is_last
        expected_hash d a b c =
      let dest = path_join watch rel in
      Keeps-bind q (hash_chunk e (chk_of dest) chunk_data) _
        (Keeps-hash_chunk (chk_of dest) chunk_data c)
        (λ actual.
          Keeps-if q (text_eq actual chunk_checksum) _ _
            (Keeps-store_chunk (tmp_of dest) dest b a (tmp_of-ne dest) chunk_data offset is_last
              expected_hash)
            (Keeps-pure chunk_mismatch))
        d

-- The file that hashes a chunk is in the directory of the destination.
pub chk_of-parent : (dest : Text) → parent_path (chk_of dest) ≡ parent_path dest
unfolding before_last_slash
chk_of-parent dest =
    parent_path-append (tmp_of dest) (codes ".chk") refl
    ∙ parent_path-append dest (codes ".tmp") refl

-- Where no call fails, a chunk that comes with a checksum, for a file whose directory is not there,
-- and with nothing at the path of the file that it is hashed by, is never stored, whatever the chunk
-- and the checksum are, and the disk is as it was: that file is opened before the directory would be
-- made. Where the path leads through a regular file an exception leaves the handler, and elsewhere
-- the chunk is refused for its checksum.
pub chunk_without_directory :
    (e : Evp) (watch rel chunk_data : Text) (offset : ℤ) (chunk_checksum : Text) (is_last : Bool)
    (expected_hash : Text) (d : Disk)
    → let dest = path_join watch rel in
      d.faults ≡ []
      → Ops.is_dir_at (parent_path dest) d ≡ false
      → node_at (chk_of dest) d ≡ none
      → is_empty chunk_checksum ≡ false
      → handle_chunked_file_download e watch rel chunk_data offset chunk_checksum is_last
          expected_hash d
        ≡ (if Ops.is_blocked (chk_of dest) d.nodes then (threw, d) else (ok chunk_mismatch, d))
unfolding handle_chunked_file_download receive_chunk hash_chunk Ops.open_truncate Ops.read_file
    sha256_file hash_content Ops.remove text_eq
chunk_without_directory e watch rel chunk_data offset [] is_last expected_hash d calm no_dir absent
      given =
    cc
chunk_without_directory e watch rel chunk_data offset (x ∷ xs) is_last expected_hash d calm no_dir
      absent given =
    let dest = path_join watch rel in
    elim (Bool-cases (Ops.is_blocked (chk_of dest) d.nodes)) [
      | inl t ↦ rw (t, calm, chk_of-parent dest, no_dir, absent, t) refl
      | inr t ↦ rw (t, calm, chk_of-parent dest, no_dir, absent, t) refl
    ]
