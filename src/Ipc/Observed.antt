-- ===== src/Ipc/Observed.antt =====
-- What reading and writing keep: an observation of the system that no `read` and `write` changes.
use action_learning_p2p_vers.Prelude.{
  ℕ, zero, suc, ◌-◌, ◌≡◌, refl, ◌∙◌, Bool, true, false, [], ◌∷◌, ltb, length, inl, inr, Bool-cases,
  drop,
}
use action_learning_p2p_vers.Prelude.Int.{ℤ}
use action_learning_p2p_vers.Prelude.Text.{Text}
use action_learning_p2p_vers.Sockets.{Net, ReadResult, got, WriteResult, wrote}
use action_learning_p2p_vers.Ipc.Client.{
  Partial, after_read, read_exact, after_write, write_all, after_header,
}

module _ (n : Net) {A : Type 0} (f : n.World → A) where
  module _ (keeps : (fd : ℤ) (k : ℕ) (w : n.World) → f (n.read fd k w).1 ≡ f w) where
    after_read_keeps :
        (have : Text) (more : Text → n.World → Partial n) (r : ReadResult × n.World)
        → ((t : Text) (w : n.World) → f (more t w).2 ≡ f w)
        → f (after_read n have more r).2 ≡ f r.1
    unfolding after_read
    after_read_keeps have more (got [], w) ih = refl
    after_read_keeps have more (got (b ∷ bytes), w) ih = ih _ w
    after_read_keeps have more (ReadResult.timed_out, w) ih = refl
    after_read_keeps have more (ReadResult.failed, w) ih = refl

    pub read_exact_keeps :
        (fuel : ℕ) (fd : ℤ) (size : ℕ) (have : Text) (w : n.World)
        → f (read_exact n fuel fd size have w).2 ≡ f w
    unfolding read_exact
    read_exact_keeps zero fd size have w = elim (Bool-cases (ltb (length have) size)) [
      | inl t ↦ rw t refl
      | inr t ↦ rw t refl
    ]
    read_exact_keeps (suc fuel) fd size have w = elim (Bool-cases (ltb (length have) size)) [
      | inl t ↦ rw t (
          after_read_keeps have (read_exact n fuel fd size) (n.read fd (size - length have) w)
            (read_exact_keeps fuel fd size)
          ∙ keeps fd (size - length have) w)
      | inr t ↦ rw t refl
    ]

  module _ (keeps : (fd : ℤ) (b : Text) (w : n.World) → f (n.write fd b w).1 ≡ f w) where
    after_write_keeps :
        (more : Text → n.World → Bool × n.World) (pending : Text) (r : WriteResult × n.World)
        → ((t : Text) (w : n.World) → f (more t w).1 ≡ f w)
        → f (after_write n more pending r).1 ≡ f r.1
    unfolding after_write
    after_write_keeps more pending (wrote zero, w) ih = refl
    after_write_keeps more pending (wrote (suc k), w) ih = ih (drop (suc k) pending) w
    after_write_keeps more pending (WriteResult.timed_out, w) ih = refl
    after_write_keeps more pending (WriteResult.failed, w) ih = refl

    pub write_all_keeps :
        (fuel : ℕ) (fd : ℤ) (pending : Text) (w : n.World)
        → f (write_all n fuel fd pending w).1 ≡ f w
    unfolding write_all
    write_all_keeps fuel fd [] w = refl
    write_all_keeps zero fd (b ∷ bytes) w = refl
    write_all_keeps (suc fuel) fd (b ∷ bytes) w =
        after_write_keeps (write_all n fuel fd) (b ∷ bytes) (n.write fd (b ∷ bytes) w)
          (write_all_keeps fuel fd)
        ∙ keeps fd (b ∷ bytes) w

    pub after_header_keeps :
        (fd : ℤ) (payload : Text) (r : Bool × n.World) → f (after_header n fd payload r).1 ≡ f r.1
    unfolding after_header
    after_header_keeps fd payload (false, w) = refl
    after_header_keeps fd payload (true, w) = write_all_keeps (length payload) fd payload w
