-- ===== src/Ipc/Wire.antt =====
-- What `send` puts on the stream and what `receive` takes off it.
use action_learning_p2p_vers.Prelude.{
  ℕ, zero, suc, ◌-◌, ◌≤◌, ◌<◌, ◌≡◌, refl, sym, ap, ◌∙◌, ◌≢◌, Bool, true, false, [], ◌∷◌, ◌++◌,
  arith, ltb, inl, inr, Bool-cases, length, take, drop, length-append, take-append-drop, append-nil,
  append_assoc,
}
use action_learning_p2p_vers.Prelude.Int.{ℤ}
use action_learning_p2p_vers.Prelude.Text.{Text}
use action_learning_p2p_vers.Sockets.{
  Net, IsStream, ReadLaw, WriteLaw, ReadResult, got, WriteResult, wrote,
}
use action_learning_p2p_vers.Ipc.Client.{
  Reading, full, read_timeout, read_error, end_of_file, out_of_fuel, Partial, after_write,
  write_all, after_header, after_read, read_exact,
}

module _ (n : Net) (s : IsStream n) (fd : ℤ) where
  open s use {incoming, outgoing, read_law, write_law}

  -- A front part has gone out, and all of it where the result is true.
  pub record Written (pending : Text) (w : n.World) (r : Bool × n.World) : Type 0 where
    pub sent : Text
    pub left : Text
    pub split : pending ≡ sent ++ left
    pub out : outgoing fd r.1 ≡ outgoing fd w ++ sent
    pub whole : r.0 ≡ true → left ≡ []

  nothing_out :
      (pending : Text) (w w' : n.World)
      → outgoing fd w' ≡ outgoing fd w
      → Written pending w (false, w')
  nothing_out pending w w' same = record {
    sent = [];
    left = pending;
    split = refl;
    out = same ∙ sym (append-nil _);
    whole = λ h. cc;
  }

  some_out :
      (pending : Text) (k : ℕ) (w w' : n.World) (r : Bool × n.World)
      → outgoing fd w' ≡ outgoing fd w ++ take k pending
      → Written (drop k pending) w' r
      → Written pending w r
  some_out pending k w w' r went g = record {
    sent = take k pending ++ g.sent;
    left = g.left;
    split =
        sym (take-append-drop k pending)
        ∙ ap (◌++◌ (take k pending)) g.split
        ∙ sym (append_assoc (take k pending) g.sent g.left);
    out = g.out ∙ ap (λ x. x ++ g.sent) went ∙ append_assoc (outgoing fd w) (take k pending) g.sent;
    whole = g.whole;
  }

  after_write-Written :
      (b : ℕ) (bytes : Text) (w : n.World) (more : Text → n.World → Bool × n.World)
      (r : WriteResult × n.World)
      → WriteLaw (b ∷ bytes) (outgoing fd w) (outgoing fd r.1) r.0
      → ((left : Text) (w' : n.World) → Written left w' (more left w'))
      → Written (b ∷ bytes) w (after_write n more (b ∷ bytes) r)
  unfolding after_write
  after_write-Written b bytes w more (wrote zero, w') law rest =
      nothing_out (b ∷ bytes) w w' (law.1 ∙ append-nil _)
  after_write-Written b bytes w more (wrote (suc k), w') law rest =
      some_out (b ∷ bytes) (suc k) w w' _ law.1 (rest (drop (suc k) (b ∷ bytes)) w')
  after_write-Written b bytes w more (WriteResult.timed_out, w') law rest =
      nothing_out (b ∷ bytes) w w' law
  after_write-Written b bytes w more (WriteResult.failed, w') law rest =
      nothing_out (b ∷ bytes) w w' law

  pub write_all-Written :
      (fuel : ℕ) (pending : Text) (w : n.World) → Written pending w (write_all n fuel fd pending w)
  unfolding write_all
  write_all-Written fuel [] w = record {
    sent = [];
    left = [];
    split = refl;
    out = sym (append-nil _);
    whole = λ _. refl;
  }
  write_all-Written zero (b ∷ bytes) w = nothing_out (b ∷ bytes) w w refl
  write_all-Written (suc fuel) (b ∷ bytes) w =
      after_write-Written b bytes w (write_all n fuel fd) (n.write fd (b ∷ bytes) w)
        (write_law fd (b ∷ bytes) w) (write_all-Written fuel)

  pub header-Written :
      (header payload : Text) (w : n.World) (r : Bool × n.World)
      → Written header w r
      → Written (header ++ payload) w (after_header n fd payload r)
  unfolding after_header
  header-Written header payload w (false, w') g = record {
    sent = g.sent;
    left = g.left ++ payload;
    split = ap (λ x. x ++ payload) g.split ∙ append_assoc g.sent g.left payload;
    out = g.out;
    whole = λ h. cc;
  }
  header-Written header payload w (true, w') g =
      let h = write_all-Written (length payload) payload w' in
      let all : header ≡ g.sent = g.split ∙ ap (◌++◌ g.sent) (g.whole refl) ∙ append-nil g.sent in
      record {
        sent = header ++ h.sent;
        left = h.left;
        split = ap (◌++◌ header) h.split ∙ sym (append_assoc header h.sent h.left);
        out =
            h.out
            ∙ ap (λ x. x ++ h.sent) (g.out ∙ ap (◌++◌ (outgoing fd w)) (sym all))
            ∙ append_assoc (outgoing fd w) header h.sent;
        whole = h.whole;
      }

  -- The bytes that are there have grown by what has come off the stream.
  pub record Gathered (size : ℕ) (have : Text) (w : n.World) (r : Partial n) : Type 0 where
    pub taken : Text
    pub grown : r.1 ≡ have ++ taken
    pub stream : incoming fd w ≡ taken ++ incoming fd r.2
    pub within : length r.1 ≤ size
    pub exact : r.0 ≡ full → length r.1 ≡ size
    pub short : r.0 ≢ full → length r.1 < size
    pub ends : r.0 ≢ out_of_fuel

  stops :
      (size : ℕ) (have : Text) (w w' : n.World) (why : Reading)
      → length have < size
      → incoming fd w' ≡ incoming fd w
      → why ≢ full
      → why ≢ out_of_fuel
      → Gathered size have w (why, have, w')
  stops size have w w' why lt same early fuelled = record {
    taken = [];
    grown = sym (append-nil have);
    stream = sym same;
    within = omega arith;
    exact = λ h. absurd (early h);
    short = λ _. lt;
    ends = fuelled;
  }

  grows :
      (size : ℕ) (have bytes : Text) (w w' : n.World) (r : Partial n)
      → incoming fd w ≡ bytes ++ incoming fd w'
      → Gathered size (have ++ bytes) w' r
      → Gathered size have w r
  grows size have bytes w w' r before g = record {
    taken = bytes ++ g.taken;
    grown = g.grown ∙ append_assoc have bytes g.taken;
    stream = before ∙ ap (◌++◌ bytes) g.stream ∙ sym (append_assoc bytes g.taken _);
    within = g.within;
    exact = g.exact;
    short = g.short;
    ends = g.ends;
  }

  after_read-Gathered :
      (size fuel : ℕ) (have : Text) (w : n.World) (more : Text → n.World → Partial n)
      (r : ReadResult × n.World)
      → length have < size
      → size - length have ≤ suc fuel
      → ReadLaw (size - length have) (incoming fd w) (incoming fd r.1) r.0
      → ((have' : Text) (w' : n.World)
          → length have' ≤ size
          → size - length have' ≤ fuel
          → Gathered size have' w' (more have' w'))
      → Gathered size have w (after_read n have more r)
  unfolding after_read
  after_read-Gathered size fuel have w more (got [], w') lt enough law rest =
      stops size have w w' end_of_file lt (sym law.1) (λ h. cc) (λ h. cc)
  after_read-Gathered size fuel have w more (got (b ∷ bytes), w') lt enough law rest =
      grows size have (b ∷ bytes) w w' _ law.1 (
        rest (have ++ (b ∷ bytes)) w' (omega (arith, length-append have (b ∷ bytes)))
          (omega (arith, length-append have (b ∷ bytes))))
  after_read-Gathered size fuel have w more (ReadResult.timed_out, w') lt enough law rest =
      stops size have w w' read_timeout lt law (λ h. cc) (λ h. cc)
  after_read-Gathered size fuel have w more (ReadResult.failed, w') lt enough law rest =
      stops size have w w' read_error lt law (λ h. cc) (λ h. cc)

  has_all :
      (size : ℕ) (have : Text) (w : n.World)
      → length have ≤ size
      → ltb (length have) size ≡ false
      → Gathered size have w (full, have, w)
  has_all size have w le done = record {
    taken = [];
    grown = sym (append-nil have);
    stream = refl;
    within = le;
    exact = λ _. ground arith;
    short = λ h. absurd (h refl);
    ends = λ h. cc;
  }

  pub read_exact-Gathered :
      (fuel size : ℕ) (have : Text) (w : n.World)
      → length have ≤ size
      → size - length have ≤ fuel
      → Gathered size have w (read_exact n fuel fd size have w)
  unfolding read_exact
  read_exact-Gathered zero size have w le enough =
      let done : ltb (length have) size ≡ false = ground arith in
      rw done (has_all size have w le done)
  read_exact-Gathered (suc fuel) size have w le enough =
      elim (Bool-cases (ltb (length have) size)) [
        | inl more ↦ rw more (
            after_read-Gathered size fuel have w (read_exact n fuel fd size)
              (n.read fd (size - length have) w) (ground arith) enough
              (read_law fd (size - length have) w) (read_exact-Gathered fuel size))
        | inr done ↦ rw done (has_all size have w le done)
      ]
