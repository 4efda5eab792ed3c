-- ===== src/Transfer/Progress.antt =====
-- The send loops end, and on a connection that fails no write they send all there is to send.
use action_learning_p2p_vers.Prelude.{
  ℕ, zero, suc, ◌-◌, ◌≤◌, ◌<◌, ◌≡◌, refl, ◌≢◌, [], ◌∷◌, arith, ltb, inl, inr, Bool-cases, length,
  take, drop, length-drop, min,
}
use action_learning_p2p_vers.Prelude.Int.{ℤ}
use action_learning_p2p_vers.Prelude.Text.{Text}
use action_learning_p2p_vers.Sockets.{Net, IsReliable, WriteResult, wrote}
use action_learning_p2p_vers.Transfer.Upload.{
  Push, all_sent, stuck, after_write, push, after_push, send_loop,
}

module _ (n : Net) (fd : ℤ) where
  -- POSIX: a write of one byte or more to a socket takes a byte at least, or fails.
  abbrev pub IsProgressing : Type 0
  IsProgressing = (b : ℕ) (bytes : Text) (w : n.World) → (n.write fd (b ∷ bytes) w).0 ≢ wrote 0

  after_write-ne-stuck :
      (fuel b : ℕ) (bytes : Text) (more : Text → n.World → Push × Text × n.World)
      (r : WriteResult × n.World)
      → length bytes ≤ fuel
      → r.0 ≢ wrote 0
      → ((left : Text) (w : n.World) → length left ≤ fuel → (more left w).0 ≢ stuck)
      → (after_write n (b ∷ bytes) more r).0 ≢ stuck
  unfolding after_write
  after_write-ne-stuck fuel b bytes more (wrote zero, w) le some_byte rest = absurd (some_byte refl)
  after_write-ne-stuck fuel b bytes more (wrote (suc k), w) le some_byte rest =
      rest (drop k bytes) w (omega (arith, length-drop k bytes))
  after_write-ne-stuck fuel b bytes more (WriteResult.timed_out, w) le some_byte rest = λ h. cc
  after_write-ne-stuck fuel b bytes more (WriteResult.failed, w) le some_byte rest = λ h. cc

  push-ne-stuck :
      (fuel : ℕ) (pending : Text) (w : n.World)
      → IsProgressing
      → length pending ≤ fuel
      → (push n fuel fd pending w).0 ≢ stuck
  unfolding push
  push-ne-stuck fuel [] w p le = λ h. cc
  push-ne-stuck zero (b ∷ bytes) w p le = absurd (omega arith)
  push-ne-stuck (suc fuel) (b ∷ bytes) w p le =
      after_write-ne-stuck fuel b bytes (push n fuel fd) (n.write fd (b ∷ bytes) w) (omega arith)
        (p b bytes w) (λ left w' h. push-ne-stuck fuel left w' p h)

  after_push-ne-stuck :
      (total : ℕ) (more : n.World → ℕ × Push × n.World) (r : Push × Text × n.World)
      → r.0 ≢ stuck
      → ((w : n.World) → (more w).1 ≢ stuck)
      → (after_push n total more r).1 ≢ stuck
  unfolding after_push
  after_push-ne-stuck total more (p, [], w) h rest = rest w
  after_push-ne-stuck total more (p, b ∷ left, w) h rest = h

  -- With more fuel than there are bytes left to send, and on a connection where a write takes a byte
  -- or fails, the send loops never run out of fuel: they end by their own tests.
  pub send_loop-ne-stuck :
      (block fuel expected total : ℕ) (rest : Text) (w : n.World)
      → IsProgressing
      → expected - total < fuel
      → (send_loop n block fuel fd expected total rest w).1 ≢ stuck
  unfolding send_loop
  send_loop-ne-stuck block zero expected total rest w p lt = absurd (omega arith)
  send_loop-ne-stuck block (suc fuel) expected total rest w p lt =
      elim (Bool-cases (ltb total expected)) [
        | inr done ↦ rw done (λ h. cc)
        | inl more ↦ elim (Bool-cases (ltb 0 (length (take (min block (expected - total)) rest)))) [
          | inr end ↦ rw (more, end) (λ h. cc)
          | inl some_bytes ↦
              rw (more, some_bytes)
                (after_push-ne-stuck total _ _
                  (push-ne-stuck (length (take (min block (expected - total)) rest))
                    (take (min block (expected - total)) rest) w p (omega arith))
                  (λ w'. send_loop-ne-stuck block fuel expected _ _ w' p (ground arith)))
        ]
      ]

  after_write-all_sent :
      (fuel b : ℕ) (bytes : Text) (k : ℕ) (more : Text → n.World → Push × Text × n.World)
      (r : WriteResult × n.World)
      → length bytes ≤ fuel
      → r.0 ≡ wrote (suc k)
      → ((left : Text) (w : n.World) → length left ≤ fuel → (more left w).0 ≡ all_sent)
      → (after_write n (b ∷ bytes) more r).0 ≡ all_sent
  unfolding after_write
  after_write-all_sent fuel b bytes k more (wrote zero, w) le took rest = ground arith
  after_write-all_sent fuel b bytes k more (wrote (suc j), w) le took rest =
      rest (drop j bytes) w (omega (arith, length-drop j bytes))
  after_write-all_sent fuel b bytes k more (WriteResult.timed_out, w) le took rest = cc
  after_write-all_sent fuel b bytes k more (WriteResult.failed, w) le took rest = cc

  push_all_sent :
      (fuel : ℕ) (pending : Text) (w : n.World)
      → IsReliable n fd
      → length pending ≤ fuel
      → (push n fuel fd pending w).0 ≡ all_sent
  unfolding push
  push_all_sent fuel [] w p le = refl
  push_all_sent zero (b ∷ bytes) w p le = absurd (omega arith)
  push_all_sent (suc fuel) (b ∷ bytes) w p le =
      let (k, took) = p b bytes w in
      after_write-all_sent fuel b bytes k (push n fuel fd) (n.write fd (b ∷ bytes) w) (omega arith)
        took (λ left w' h. push_all_sent fuel left w' p h)

  after_push-all_sent :
      (total : ℕ) (more : n.World → ℕ × Push × n.World) (r : Push × Text × n.World)
      → r.0 ≡ all_sent
      → ((w : n.World) → (more w).1 ≡ all_sent)
      → (after_push n total more r).1 ≡ all_sent
  unfolding after_push
  after_push-all_sent total more (p, [], w) h rest = rest w
  after_push-all_sent total more (p, b ∷ left, w) h rest = h

  pub send_loop_all_sent :
      (block fuel expected total : ℕ) (rest : Text) (w : n.World)
      → IsReliable n fd
      → expected - total < fuel
      → (send_loop n block fuel fd expected total rest w).1 ≡ all_sent
  unfolding send_loop
  send_loop_all_sent block zero expected total rest w p lt = absurd (omega arith)
  send_loop_all_sent block (suc fuel) expected total rest w p lt =
      elim (Bool-cases (ltb total expected)) [
        | inr done ↦ rw done refl
        | inl more ↦ elim (Bool-cases (ltb 0 (length (take (min block (expected - total)) rest)))) [
          | inr end ↦ rw (more, end) refl
          | inl some_bytes ↦
              rw (more, some_bytes)
                (after_push-all_sent total _ _
                  (push_all_sent (length (take (min block (expected - total)) rest))
                    (take (min block (expected - total)) rest) w p (omega arith))
                  (λ w'. send_loop_all_sent block fuel expected _ _ w' p (ground arith)))
        ]
      ]
