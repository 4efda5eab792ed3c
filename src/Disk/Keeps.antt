-- ===== src/Disk/Keeps.antt =====
-- Statements that leave the regular file at a path alone, composed as the statements are.
use action_learning_p2p_vers.Prelude.{
  ℕ, ◌≡◌, refl, ◌∙◌, ◌≢◌, Bool, true, false, if◌then◌else◌, arith,
}
use action_learning_p2p_vers.Prelude.Text.{Text}
use action_learning_p2p_vers.Disk.Io.{Disk, Result, ok, threw, Io, ◌>>=◌, after, recover, try_catch}
use action_learning_p2p_vers.Disk.Ops
use action_learning_p2p_vers.Disk.Frame.{
  file_at, file_at-is_directory, file_at-exists, file_at-read_file, file_at-remove_ne,
  file_at-open_truncate_ne, file_at-append_ne,
}
use action_learning_p2p_vers.Disk.Effects.{create_directories-Same, Renamed, rename-Renamed}
use action_learning_p2p_vers.Disk.Streams.{Wrote, write_at-Wrote}

module _ (q : Text) where
  abbrev pub Keeps : {A : Type 0} → Io A → Type 0
  Keeps m = (d : Disk) → file_at q (m d).1 ≡ file_at q d

  Keeps-after :
      {A B : Type 0} (f : A → Io B)
      → ((a : A) → Keeps (f a))
      → (r : Result A × Disk) → file_at q (after r f).1 ≡ file_at q r.1
  Keeps-after f hf (ok a, d) = hf a d
  Keeps-after f hf (threw, d) = refl

  pub Keeps-bind :
      {A B : Type 0} (m : Io A) (f : A → Io B) → Keeps m → ((a : A) → Keeps (f a)) → Keeps (m >>= f)
  Keeps-bind m f hm hf d = Keeps-after f hf (m d) ∙ hm d

  pub Keeps-if :
      {A : Type 0} (b : Bool) (m k : Io A) → Keeps m → Keeps k → Keeps (if b then m else k)
  Keeps-if true m k hm hk = hm
  Keeps-if false m k hm hk = hk

  Keeps-recover :
      {A : Type 0} (k : Io A) (r : Result A × Disk)
      → Keeps k
      → file_at q (recover r k).1 ≡ file_at q r.1
  Keeps-recover k (ok a, d) hk = refl
  Keeps-recover k (threw, d) hk = hk d

  pub Keeps-try : {A : Type 0} (m k : Io A) → Keeps m → Keeps k → Keeps (try_catch m k)
  Keeps-try m k hm hk d = Keeps-recover k (m d) hk ∙ hm d

  pub Keeps-is_directory : (p : Text) → Keeps (Ops.is_directory p)
  Keeps-is_directory p d = file_at-is_directory q p d

  pub Keeps-exists : (p : Text) → Keeps (Ops.exists p)
  Keeps-exists p d = file_at-exists q p d

  pub Keeps-read_file : (p : Text) → Keeps (Ops.read_file p)
  Keeps-read_file p d = file_at-read_file q p d

  pub Keeps-create_directories : (p : Text) → Keeps (Ops.create_directories p)
  Keeps-create_directories p d = create_directories-Same p d q

  pub Keeps-open_update : (p : Text) → Keeps (Ops.open_update p)
  unfolding Ops.open_update Ops.open_existing
  Keeps-open_update p d = ground arith

  module _ (p : Text) (ne : q ≢ p) where
    pub Keeps-remove : Keeps (Ops.remove p)
    Keeps-remove d = file_at-remove_ne q p d ne

    pub Keeps-open_truncate : Keeps (Ops.open_truncate p)
    Keeps-open_truncate d = file_at-open_truncate_ne q p d ne

    pub Keeps-append : (bytes : Text) → Keeps (Ops.append p bytes)
    Keeps-append bytes d = file_at-append_ne q p d bytes ne

    pub Keeps-write_at : (off : ℕ) (bytes : Text) → Keeps (Ops.write_at p off bytes)
    Keeps-write_at off bytes d = kept (Ops.write_at p off bytes d) (write_at-Wrote p off bytes d)
      where
        kept :
            (r : Result Bool × Disk)
            → Wrote p (λ c. Ops.overwrite c off bytes) d r
            → file_at q r.1 ≡ file_at q d
        kept (ok true, d') (_, others) = others q ne
        kept (ok false, d') same = same q
        kept (threw, d') h = absurd h

    pub Keeps-rename : (b : Text) → q ≢ b → p ≢ b → Keeps (Ops.rename p b)
    Keeps-rename b nb ab d = kept (Ops.rename p b d) (rename-Renamed p b d ab)
      where
        kept : (r : Result (Unit {0}) × Disk) → Renamed p b d r → file_at q r.1 ≡ file_at q d
        kept (ok _, d') (_, _, _, others) = others q ne nb
        kept (threw, d') same = same q
