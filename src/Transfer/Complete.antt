-- ===== src/Transfer/Complete.antt =====
-- A download that is given what it asks for comes to its end.
use action_learning_p2p_vers.Prelude.{
  ℕ, zero, suc, ◌+◌, ◌-◌, ◌≤◌, ◌<◌, ◌≡◌, refl, sym, ap, ◌∙◌, true, false, [], ◌∷◌, ◌++◌, arith, ltb,
  leb, inl, inr, Bool-cases, length, min, length-append, append_assoc, append-nil, subst,
}
use action_learning_p2p_vers.Prelude.Int.{ℤ}
use action_learning_p2p_vers.Prelude.Text.{Text}
use action_learning_p2p_vers.Disk.Nodes.{file}
use action_learning_p2p_vers.Disk.Io.{Disk, ok}
use action_learning_p2p_vers.Disk.Ops
use action_learning_p2p_vers.Disk.Runs.{node_at-put, put-put, append_file}
use action_learning_p2p_vers.Crypto.Sha.{buffer_size}
use action_learning_p2p_vers.Sockets.{Net, IsStream, Delivers, ReadLaw, ReadResult, got}
use action_learning_p2p_vers.Transfer.Download.{Progress, receive_loop, after_read, after_append}

module _ (n : Net) (s : IsStream n) (fd : ℤ) (tmp : Text) (m : ℕ) (d : Disk)
    (calm : d.faults ≡ []) where
  open s use {incoming, read_law}

  abbrev holding : Text → Disk
  holding have = Ops.put tmp (file have m) d

  -- The loop has taken a front part of the stream into the temporary file, up to the size.
  pub record Taken (expected : ℕ) (have : Text) (w : n.World) (r : Progress n) : Type 0 where
    pub taken : Text
    pub total : r.1 ≡ expected
    pub disk : r.2 ≡ holding (have ++ taken)
    pub stream : incoming fd w ≡ taken ++ incoming fd r.3
    pub whole : length have + length taken ≡ expected

  more-Taken :
      (expected : ℕ) (have bytes : Text) (w w' : n.World) (r : Progress n)
      → incoming fd w ≡ bytes ++ incoming fd w'
      → Taken expected (have ++ bytes) w' r
      → Taken expected have w r
  more-Taken expected have bytes w w' r before g = record {
    taken = bytes ++ g.taken;
    total = g.total;
    disk = g.disk ∙ ap holding (append_assoc have bytes g.taken);
    stream = before ∙ ap (◌++◌ bytes) g.stream ∙ sym (append_assoc bytes g.taken _);
    whole = omega (arith, g.whole, length-append have bytes, length-append bytes g.taken);
  }

  appends :
      (have bytes : Text) → Ops.append tmp bytes (holding have) ≡ (ok true, holding (have ++ bytes))
  appends have bytes =
      append_file tmp (holding have) calm have m (node_at-put tmp (file have m) d) bytes
      ∙ ap (λ x. (ok true, x)) (put-put tmp (file have m) (file (have ++ bytes) m) d)

  after_read-Taken :
      (expected most : ℕ) (have : Text) (w : n.World) (more : Text → Disk → n.World → Progress n)
      (r : ReadResult × n.World) (b : ℕ) (bytes : Text)
      → r.0 ≡ got (b ∷ bytes)
      → ReadLaw most (incoming fd w) (incoming fd r.1) r.0
      → ((x : ℕ) (xs : Text) (w' : n.World)
          → length (x ∷ xs) ≤ most
          → incoming fd w ≡ (x ∷ xs) ++ incoming fd w'
          → Taken expected (have ++ (x ∷ xs)) w' (more (x ∷ xs) (holding (have ++ (x ∷ xs))) w'))
      → Taken expected have w (after_read n tmp (length have) (holding have) more r)
  unfolding after_read after_append
  after_read-Taken expected most have w more (got [], w') b bytes e law rest = cc
  after_read-Taken expected most have w more (ReadResult.timed_out, w') b bytes e law rest = cc
  after_read-Taken expected most have w more (ReadResult.failed, w') b bytes e law rest = cc
  after_read-Taken expected most have w more (got (x ∷ xs), w') b bytes e law rest =
      rw (appends have (x ∷ xs))
        (more-Taken expected have (x ∷ xs) w w' _ law.1 (rest x xs w' law.0 law.1))

  pub receive_loop-Taken :
      (fuel expected : ℕ) (have : Text) (w : n.World)
      → Delivers n s fd
      → length have ≤ expected
      → expected - length have < fuel
      → expected - length have ≤ length (incoming fd w)
      → Taken expected have w (receive_loop n fd tmp expected fuel (length have) (holding have) w)
  unfolding receive_loop
  receive_loop-Taken zero expected have w del le lt held = absurd (omega arith)
  receive_loop-Taken (suc fuel) expected have w del le lt held =
      elim (Bool-cases (ltb (length have) expected)) [
        | inr done ↦ rw done (record {
          taken = [];
          total = ground arith;
          disk = ap holding (sym (append-nil have));
          stream = refl;
          whole = ground arith;
        })
        | inl more ↦
            let most = min buffer_size (expected - length have) in
            let some_room : leb most 0 ≡ false = ground arith in
            let (b, bytes, e) = del most w (ground arith) (ground arith) in
            rw (more, some_room)
              (after_read-Taken expected most have w
                (λ bytes. receive_loop n fd tmp expected fuel (length have + length bytes))
                (n.read fd most w) b bytes e (read_law fd most w)
                (λ x xs w' small before.
                  subst
                    (λ t.
                      Taken expected (have ++ (x ∷ xs)) w'
                        (receive_loop n fd tmp expected fuel t (holding (have ++ (x ∷ xs))) w'))
                    (length-append have (x ∷ xs))
                    (receive_loop-Taken fuel expected (have ++ (x ∷ xs)) w' del
                      (omega (arith, length-append have (x ∷ xs)))
                      (omega (arith, length-append have (x ∷ xs)))
                      (omega (
                        arith,
                        length-append have (x ∷ xs),
                        ap length before,
                        length-append (x ∷ xs) (incoming fd w'),
                      )))))
      ]
