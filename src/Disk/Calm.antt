-- ===== src/Disk/Calm.antt =====
-- While the operating system fails no call, none will be failed later, and a file that is there can
-- be read.
use action_learning_p2p_vers.Prelude.{
  ℕ, ◌≡◌, refl, inl, inr, Bool-cases, true, List, [], ◌∷◌, some, arith,
}
use action_learning_p2p_vers.Prelude.Text.{Text}
use action_learning_p2p_vers.Disk.Paths.{prefixes}
use action_learning_p2p_vers.Disk.Io.{Disk, ok}
use action_learning_p2p_vers.Disk.Ops
use action_learning_p2p_vers.Disk.Frame.{file_at}

make_directory-faults : (p : Text) (d : Disk) → (Ops.make_directory p d).1.faults ≡ d.faults
unfolding Ops.make_directory
make_directory-faults p d = ground arith

make_all-faults : (ps : List Text) (d : Disk) → (Ops.make_all ps d).1.faults ≡ d.faults
unfolding Ops.make_all
make_all-faults [] d = refl
make_all-faults (p ∷ ps) d =
    ground (arith, make_directory-faults p d, make_all-faults ps (Ops.make_directory p d).1)

module _ (p : Text) (d : Disk) (calm : d.faults ≡ []) where
  pub create_directories-calm : (Ops.create_directories p d).1.faults ≡ []
  unfolding Ops.create_directories
  create_directories-calm = ground (arith, make_all-faults (prefixes [] p) d)

  pub open_truncate-calm : (Ops.open_truncate p d).1.faults ≡ []
  unfolding Ops.open_truncate
  open_truncate-calm = ground arith

  pub append-calm : (bytes : Text) → (Ops.append p bytes d).1.faults ≡ []
  unfolding Ops.append
  append-calm bytes = ground arith

  pub write_at-calm : (off : ℕ) (bytes : Text) → (Ops.write_at p off bytes d).1.faults ≡ []
  unfolding Ops.write_at
  write_at-calm off bytes = ground arith

  pub read_file-calm :
      (c : Text) (m : ℕ) → file_at p d ≡ some (c, m) → (Ops.read_file p d).0 ≡ ok (some c)
  unfolding Ops.read_file Ops.content_of
  read_file-calm c m h = ground arith

  pub exists-calm : (c : Text) (m : ℕ) → file_at p d ≡ some (c, m) → (Ops.exists p d).0 ≡ ok true
  unfolding Ops.exists
  exists-calm c m h = elim (Bool-cases (Ops.is_slash p)) [
    | inl t ↦ ground arith
    | inr t ↦ ground arith
  ]

  pub exists-faults : (Ops.exists p d).1.faults ≡ []
  unfolding Ops.exists
  exists-faults = ground arith
