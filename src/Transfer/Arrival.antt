-- ===== src/Transfer/Arrival.antt =====
-- A download on a disk and a stream that do their part is completed.
use action_learning_p2p_vers.Prelude.{
  ℕ, ◌+◌, ◌≡◌, refl, sym, ap, ◌∙◌, ◌⊎◌, true, false, [], ◌++◌, none, some, arith, ◌==◌, inl, inr,
  Bool-cases, length, length-append, append_cut,
}
use action_learning_p2p_vers.Prelude.Int.{ℤ}
use action_learning_p2p_vers.Prelude.Text.{
  Text, text_eq, text_eq_iff, text_eq_refl, is_empty, codes,
}
use action_learning_p2p_vers.Disk.Paths.{parent_path, parent_path-append, before_last_slash}
use action_learning_p2p_vers.Disk.Nodes.{file, lookup-insert}
use action_learning_p2p_vers.Disk.Io.{Disk, node_at, Result, ok, threw, Io, pure, after, recover}
use action_learning_p2p_vers.Disk.Ops
use action_learning_p2p_vers.Disk.Frame.{file_at}
use action_learning_p2p_vers.Disk.Runs.{node_at-put, open_truncate_new, read_file_file, rename_file}
use action_learning_p2p_vers.Crypto.Evp.{Evp}
use action_learning_p2p_vers.Crypto.Sha.{sha256_file, hash_content}
use action_learning_p2p_vers.Sockets.{Net, IsStream, Delivers}
use action_learning_p2p_vers.Transfer.Download.{
  Outcome, Progress, downloaded, receive_loop, check_hash, set_mode, install, finish, clean_up,
  tmp_of, prepare, after_prepare, download,
}
use action_learning_p2p_vers.Transfer.Finish.{set_mode-Chmodded}
use action_learning_p2p_vers.Transfer.Atomic.{tmp_of-ne, Atomic, download-Atomic}
use action_learning_p2p_vers.Transfer.Complete.{Taken, receive_loop-Taken}

recover_ok :
    {A : Type 0} (a : A) (r : Result A × Disk) (k : Io A) → r.0 ≡ ok a → (recover r k).0 ≡ ok a
recover_ok a (ok b, d) k h = h
recover_ok a (threw, d) k h = cc

-- A file that has the digest that is expected, if one is, passes.
pub check_hash_passes :
    (e : Evp) (p hash : Text) (d : Disk)
    → d.faults ≡ []
    → (c : Text) (m : ℕ) → node_at p d ≡ some (file c m)
    → (is_empty hash ≡ true) ⊎ (hash_content e (some c) ≡ some hash)
    → check_hash e p hash d ≡ (ok true, d)
unfolding check_hash sha256_file
check_hash_passes e p hash d calm c m there (inl none_given) = rw none_given refl
check_hash_passes e p hash d calm c m there (inr right) = elim (Bool-cases (is_empty hash)) [
  | inl t ↦ rw t refl
  | inr t ↦ rw (t, read_file_file p d calm c m there, right, text_eq_refl hash) refl
]

module _ (e : Evp) (dest : Text) (hash : Text) (mode : ℕ) (d : Disk) (calm : d.faults ≡ [])
    (dirs : Ops.create_directories (parent_path dest) d ≡ (ok tt, d))
    (in_dir : Ops.is_dir_at (parent_path dest) d ≡ true) (fresh : node_at (tmp_of dest) d ≡ none)
    (free : Ops.lands (node_at dest d) ≡ true) where
  abbrev tmp : Text
  tmp = tmp_of dest

  abbrev holding : Text → Disk
  holding c = Ops.put tmp (file c Ops.default_mode) d

  in_dir_still : (c : Text) → Ops.is_dir_at (parent_path dest) (holding c) ≡ true
  in_dir_still c = ground (
    arith,
    in_dir,
    fresh,
    text_eq_iff (parent_path dest) tmp,
    lookup-insert (parent_path dest) tmp (file c Ops.default_mode) d.nodes,
  )

  free_still : (c : Text) → Ops.lands (node_at dest (holding c)) ≡ true
  free_still c = ground (
    arith,
    free,
    text_eq_iff dest tmp,
    tmp_of-ne dest,
    lookup-insert dest tmp (file c Ops.default_mode) d.nodes,
  )

  there : (c : Text) → node_at tmp (holding c) ≡ some (file c Ops.default_mode)
  there c = node_at-put tmp (file c Ops.default_mode) d

  checks :
      (c : Text)
      → (is_empty hash ≡ true) ⊎ (hash_content e (some c) ≡ some hash)
      → check_hash e tmp hash (holding c) ≡ (ok true, holding c)
  checks c = check_hash_passes e tmp hash (holding c) calm c Ops.default_mode (there c)

  apart : text_eq tmp dest ≡ false
  apart = ground (arith, text_eq_iff tmp dest, tmp_of-ne dest)

  modes : (d' : Disk) (o : Outcome) → (after (set_mode dest mode d') (λ _. pure o)).0 ≡ ok o
  modes d' o = kept (set_mode dest mode d') (set_mode-Chmodded dest mode d').0
    where
      kept :
          (r : Result (Unit {0}) × Disk)
          → r.0 ≡ ok tt
          → (after r (λ _. pure {A = Outcome} o)).0 ≡ ok o
      kept (ok _, d'') h = refl
      kept (threw, d'') h = cc

  finishes :
      (expected : ℕ) (c : Text)
      → (is_empty hash ≡ true) ⊎ (hash_content e (some c) ≡ some hash)
      → (finish e tmp dest expected hash mode expected (holding c)).0 ≡ ok downloaded
  unfolding finish install
  finishes expected c why =
      let counted : (expected == expected) ≡ true = ground arith in
      rw
        (
          counted,
          checks c why,
          rename_file tmp (holding c) calm c Ops.default_mode (there c) dest (in_dir_still c)
              (free_still c) apart,
        )
        (modes _ downloaded)

  prepares : prepare dest d ≡ (ok true, holding [])
  unfolding prepare before_last_slash
  prepares =
      let there_too : Ops.is_dir_at (parent_path tmp) d ≡ true =
        ap (λ p. Ops.is_dir_at p d) (parent_path-append dest (codes ".tmp") refl) ∙ in_dir in
      rw (dirs, open_truncate_new tmp d calm there_too fresh) refl

  module _ (n : Net) (s : IsStream n) (fd : ℤ) (c rest : Text) (w : n.World) (del : Delivers n s fd)
      (held : s.incoming fd w ≡ c ++ rest)
      (why : (is_empty hash ≡ true) ⊎ (hash_content e (some c) ≡ some hash)) where
    open s use {incoming}

    abbrev End : Type 0
    End = (Result Outcome × Disk) × n.World

    after_loop :
        (r : Progress n)
        → Taken n s fd tmp Ops.default_mode d calm (length c) [] w r
        → (recover (finish e tmp dest (length c) hash mode r.1 r.2) (clean_up tmp)).0
          ≡ ok downloaded
    after_loop r g =
        let cut : (g.taken ≡ c) × (incoming fd r.3 ≡ rest) =
          append_cut g.taken (incoming fd r.3) c rest (omega (arith, g.whole))
            (sym g.stream ∙ held) in
        recover_ok downloaded _ (clean_up tmp) (
          ap (λ t. (finish e tmp dest (length c) hash mode t r.2).0) g.total
          ∙ ap (λ x. (finish e tmp dest (length c) hash mode (length c) x).0)
              (g.disk ∙ ap holding cut.0)
          ∙ finishes (length c) c why)

    ends_downloaded : (download e n fd dest (length c) hash mode d w).0.0 ≡ ok downloaded
    unfolding download after_prepare
    ends_downloaded = rw prepares (
        after_loop (receive_loop n fd tmp (length c) (length c + 1) 0 (holding []) w) (
          receive_loop-Taken n s fd tmp Ops.default_mode d calm (length c + 1) (length c) [] w del
            (omega arith) (omega arith) (omega (arith, ap length held, length-append c rest))))

    abbrev pub Arrived : End → Type 0
    Arrived r =
        (r.0.0 ≡ ok downloaded)
        × ((k : ℕ) × (file_at dest r.0.1 ≡ some (c, k)))
        × (incoming fd r.1 ≡ rest)

    Arrived-at :
        (r : End)
        → Atomic e n s fd dest (length c) hash mode d w r
        → r.0.0 ≡ ok downloaded
        → Arrived r
    Arrived-at ((ok downloaded, d'), w') (x, len, stream, (placed, _, _), _) fine =
        let (same, left) = append_cut x (incoming fd w') c rest len (sym stream ∙ held) in
        (refl, (placed.0, placed.1 ∙ ap (λ y. some (y, placed.0)) same), left)
    Arrived-at ((ok o, d'), w') h fine = cc
    Arrived-at ((threw, d'), w') h fine = cc

    -- Where no call fails, the directories of the destination are there and the temporary file is
    -- not, nothing but a file is in the way, and the stream delivers the content that has the
    -- digest that is expected, if one is, a download comes to its end: it is reported complete, the
    -- destination holds that content, and the stream is left where the content ends.
    pub download_arrives : Arrived (download e n fd dest (length c) hash mode d w)
    download_arrives =
        Arrived-at _ (download-Atomic e n s fd dest (length c) hash mode d w) ends_downloaded
