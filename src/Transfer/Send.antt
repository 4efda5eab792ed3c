-- ===== src/Transfer/Send.antt =====
-- The send loops: what they have written is a front part of the file, in order.
use action_learning_p2p_vers.Prelude.{
  ℕ, zero, suc, ◌+◌, ◌-◌, ◌≤◌, ◌<◌, ◌≡◌, refl, sym, ap, ◌∙◌, ◌≢◌, ◌⊎◌, false, [], ◌∷◌, ◌++◌, arith,
  ltb, inl, inr, Bool-cases, length, take, drop, length-append, length-take, take-append-drop,
  append-nil, append_assoc, min,
}
use action_learning_p2p_vers.Prelude.Int.{ℤ}
use action_learning_p2p_vers.Prelude.Text.{Text}
use action_learning_p2p_vers.Sockets.{Net, IsStream, WriteLaw, WriteResult, wrote}
use action_learning_p2p_vers.Transfer.Upload.{
  Push, all_sent, write_timeout, write_error, stuck, after_write, push, after_push, send_loop,
}

module _ (n : Net) (s : IsStream n) (fd : ℤ) where
  open s use {outgoing, write_law}

  -- The buffer is a part that has gone out and a part that is left.
  pub record Pushed (pending : Text) (w : n.World) (r : Push × Text × n.World) : Type 0 where
    pub sent : Text
    pub split : pending ≡ sent ++ r.1
    pub out : outgoing fd r.2 ≡ outgoing fd w ++ sent
    pub whole : r.1 ≡ [] → r.0 ≡ all_sent
    pub partly : r.0 ≡ all_sent → r.1 ≡ []

  unsent :
      (pending : Text) (p : Push) (w w' : n.World)
      → pending ≢ []
      → p ≢ all_sent
      → outgoing fd w' ≡ outgoing fd w
      → Pushed pending w (p, pending, w')
  unsent pending p w w' some_left early same = record {
    sent = [];
    split = refl;
    out = same ∙ sym (append-nil _);
    whole = λ h. absurd (some_left h);
    partly = λ h. absurd (early h);
  }

  more-Pushed :
      (pending : Text) (k : ℕ) (w w' : n.World) (r : Push × Text × n.World)
      → outgoing fd w' ≡ outgoing fd w ++ take k pending
      → Pushed (drop k pending) w' r
      → Pushed pending w r
  more-Pushed pending k w w' r went g = record {
    sent = take k pending ++ g.sent;
    split =
        sym (take-append-drop k pending)
        ∙ ap (◌++◌ (take k pending)) g.split
        ∙ sym (append_assoc (take k pending) g.sent r.1);
    out = g.out ∙ ap (λ x. x ++ g.sent) went ∙ append_assoc (outgoing fd w) (take k pending) g.sent;
    whole = g.whole;
    partly = g.partly;
  }

  after_write-Pushed :
      (b : ℕ) (bytes : Text) (w : n.World) (more : Text → n.World → Push × Text × n.World)
      (r : WriteResult × n.World)
      → WriteLaw (b ∷ bytes) (outgoing fd w) (outgoing fd r.1) r.0
      → ((left : Text) (w' : n.World) → Pushed left w' (more left w'))
      → Pushed (b ∷ bytes) w (after_write n (b ∷ bytes) more r)
  unfolding after_write
  after_write-Pushed b bytes w more (wrote k, w') law rest =
      more-Pushed (b ∷ bytes) k w w' _ law.1 (rest (drop k (b ∷ bytes)) w')
  after_write-Pushed b bytes w more (WriteResult.timed_out, w') law rest =
      unsent (b ∷ bytes) write_timeout w w' (λ h. cc) (λ h. cc) law
  after_write-Pushed b bytes w more (WriteResult.failed, w') law rest =
      unsent (b ∷ bytes) write_error w w' (λ h. cc) (λ h. cc) law

  pub push-Pushed :
      (fuel : ℕ) (pending : Text) (w : n.World) → Pushed pending w (push n fuel fd pending w)
  unfolding push
  push-Pushed fuel [] w = record {
    sent = [];
    split = refl;
    out = sym (append-nil _);
    whole = λ _. refl;
    partly = λ _. refl;
  }
  push-Pushed zero (b ∷ bytes) w = unsent (b ∷ bytes) stuck w w (λ h. cc) (λ h. cc) refl
  push-Pushed (suc fuel) (b ∷ bytes) w =
      after_write-Pushed b bytes w (push n fuel fd) (n.write fd (b ∷ bytes) w)
        (write_law fd (b ∷ bytes) w) (push-Pushed fuel)

  -- A front part of the file has gone out. All that is counted has gone out, and with no error the
  -- count is exact, and either it has come to the expected size or the file has ended.
  pub record Sent (expected total : ℕ) (rest : Text) (w : n.World) (r : ℕ × Push × n.World)
      : Type 0 where
    pub sent : Text
    pub unsent : Text
    pub split : rest ≡ sent ++ unsent
    pub out : outgoing fd r.2 ≡ outgoing fd w ++ sent
    pub counted : r.0 ≤ total + length sent
    pub within : total + length sent ≤ expected
    pub exact : r.1 ≡ all_sent → r.0 ≡ total + length sent
    pub ended : r.1 ≡ all_sent → (r.0 ≡ expected) ⊎ (unsent ≡ [])

  nothing_more :
      (expected total : ℕ) (rest : Text) (w : n.World) (p : Push)
      → total ≤ expected
      → (p ≡ all_sent → (total ≡ expected) ⊎ (rest ≡ []))
      → Sent expected total rest w (total, p, w)
  nothing_more expected total rest w p le why = record {
    sent = [];
    unsent = rest;
    split = refl;
    out = sym (append-nil _);
    counted = omega arith;
    within = omega arith;
    exact = λ _. omega arith;
    ended = why;
  }

  next_block :
      (expected total : ℕ) (bytes rest later : Text) (w w' : n.World) (r : ℕ × Push × n.World)
      → rest ≡ bytes ++ later
      → outgoing fd w' ≡ outgoing fd w ++ bytes
      → Sent expected (total + length bytes) later w' r
      → Sent expected total rest w r
  next_block expected total bytes rest later w w' r cut went g = record {
    sent = bytes ++ g.sent;
    unsent = g.unsent;
    split = cut ∙ ap (◌++◌ bytes) g.split ∙ sym (append_assoc bytes g.sent g.unsent);
    out = g.out ∙ ap (λ x. x ++ g.sent) went ∙ append_assoc (outgoing fd w) bytes g.sent;
    counted = omega (arith, g.counted, length-append bytes g.sent);
    within = omega (arith, g.within, length-append bytes g.sent);
    exact = λ h. omega (arith, g.exact h, length-append bytes g.sent);
    ended = g.ended;
  }

  after_push-Sent :
      (expected total : ℕ) (bytes rest later : Text) (w : n.World)
      (more : n.World → ℕ × Push × n.World) (r : Push × Text × n.World)
      → rest ≡ bytes ++ later
      → total + length bytes ≤ expected
      → Pushed bytes w r
      → ((w' : n.World)
          → outgoing fd w' ≡ outgoing fd w ++ bytes
          → Sent expected (total + length bytes) later w' (more w'))
      → Sent expected total rest w (after_push n total more r)
  unfolding after_push
  after_push-Sent expected total bytes rest later w more (p, [], w') cut fits g next =
      let all : bytes ≡ g.sent = g.split ∙ append-nil g.sent in
      let went : outgoing fd w' ≡ outgoing fd w ++ bytes =
        g.out ∙ ap (◌++◌ (outgoing fd w)) (sym all) in
      next_block expected total bytes rest later w w' (more w') cut went (next w' went)
  after_push-Sent expected total bytes rest later w more (p, b ∷ left, w') cut fits g next =
      record {
        sent = g.sent;
        unsent = (b ∷ left) ++ later;
        split = cut ∙ ap (λ x. x ++ later) g.split ∙ append_assoc g.sent (b ∷ left) later;
        out = g.out;
        counted = omega arith;
        within = omega (arith, ap length g.split, length-append g.sent (b ∷ left));
        exact = λ h. cc (g.partly h);
        ended = λ h. cc (g.partly h);
      }

  empty_block : (k : ℕ) (rest : Text) → 0 < k → ltb 0 (length (take k rest)) ≡ false → rest ≡ []
  empty_block zero rest h e = absurd (omega arith)
  empty_block (suc k) [] h e = refl
  empty_block (suc k) (b ∷ rest) h e = ground arith

  pub send_loop-Sent :
      (block fuel expected total : ℕ) (rest : Text) (w : n.World)
      → 0 < block
      → total ≤ expected
      → Sent expected total rest w (send_loop n block fuel fd expected total rest w)
  unfolding send_loop
  send_loop-Sent block zero expected total rest w some_block le =
      nothing_more expected total rest w stuck le (λ h. cc)
  send_loop-Sent block (suc fuel) expected total rest w some_block le =
      elim (Bool-cases (ltb total expected)) [
        | inr done ↦
            rw done (nothing_more expected total rest w all_sent le (λ _. inl (ground arith)))
        | inl more ↦ elim (Bool-cases (ltb 0 (length (take (min block (expected - total)) rest)))) [
          | inr end ↦
              rw (more, end)
                (nothing_more expected total rest w all_sent le
                  (λ _. inr (empty_block (min block (expected - total)) rest (ground arith) end)))
          | inl some_bytes ↦
              rw (more, some_bytes)
                (after_push-Sent expected total (take (min block (expected - total)) rest) rest
                  (drop (min block (expected - total)) rest) w _ _
                  (sym (take-append-drop (min block (expected - total)) rest))
                  (ground (arith, length-take (min block (expected - total)) rest))
                  (push-Pushed (length (take (min block (expected - total)) rest))
                    (take (min block (expected - total)) rest) w)
                  (λ w' went.
                    send_loop-Sent block fuel expected _ _ w' some_block
                      (ground (arith, length-take (min block (expected - total)) rest))))
        ]
      ]
