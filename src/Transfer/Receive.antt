-- ===== src/Transfer/Receive.antt =====
-- The receive loop of the download: what it has written is what the peer has sent.
use action_learning_p2p_vers.Prelude.{
  ℕ, zero, suc, ◌+◌, ◌-◌, ◌≤◌, ◌<◌, ◌≡◌, refl, sym, ap, ◌∙◌, ◌≢◌, Bool, true, false, [], ◌∷◌, ◌++◌,
  some, arith, ltb, leb, ltb→lt, inl, inr, Bool-cases, length, length-append, append-nil,
  append_assoc, min,
}
use action_learning_p2p_vers.Prelude.Int.{ℤ}
use action_learning_p2p_vers.Prelude.Text.{Text}
use action_learning_p2p_vers.Disk.Io.{Disk, Result, ok, threw}
use action_learning_p2p_vers.Disk.Ops.{append}
use action_learning_p2p_vers.Disk.Frame.{file_at}
use action_learning_p2p_vers.Disk.Effects.{Same, SameBut}
use action_learning_p2p_vers.Disk.Streams.{Wrote, append-Wrote}
use action_learning_p2p_vers.Disk.Calm.{append-calm}
use action_learning_p2p_vers.Crypto.Sha.{buffer_size}
use action_learning_p2p_vers.Sockets.{Net, IsStream, ReadLaw, ReadResult, got}
use action_learning_p2p_vers.Transfer.Download.{
  Stop, finished, read_timeout, read_error, peer_closed, write_failed, out_of_fuel, Progress,
  receive_loop, after_read, after_append,
}

module _ (n : Net) (s : IsStream n) (fd : ℤ) (tmp : Text) (expected : ℕ) where
  open s use {incoming, read_law}

  -- The temporary file has grown by `received`, which came off the front of the stream.
  pub record Grew (total : ℕ) (c : Text) (m : ℕ) (d : Disk) (w : n.World) (r : Progress n)
      : Type 0 where
    pub received : Text
    pub content : file_at tmp r.2 ≡ some (c ++ received, m)
    pub stream : r.0 ≢ write_failed → incoming fd w ≡ received ++ incoming fd r.3
    pub count : r.1 ≡ total + length received
    pub within : r.1 ≤ expected
    pub others : SameBut tmp d r.2
    pub ends : r.0 ≢ out_of_fuel
    pub full : r.1 ≡ expected → r.0 ≡ finished
    pub finishes : r.0 ≡ finished → r.1 ≡ expected
    pub calm : d.faults ≡ [] → r.2.faults ≡ []

  -- The loop stops in the middle, and nothing has changed but what the stream holds.
  stays :
      {total : ℕ} {c : Text} {m : ℕ} {d d' : Disk} {w w' : n.World} (stop : Stop)
      → file_at tmp d ≡ some (c, m)
      → total < expected
      → Same d d'
      → (d.faults ≡ [] → d'.faults ≡ [])
      → (stop ≢ write_failed → incoming fd w' ≡ incoming fd w)
      → stop ≢ out_of_fuel
      → stop ≢ finished
      → Grew total c m d w (stop, total, d', w')
  stays {c = c} {m = m} stop at_tmp lt same quiet still fuelled early = record {
    received = [];
    content = same tmp ∙ at_tmp ∙ ap (λ x. some (x, m)) (sym (append-nil c));
    stream = λ h. sym (still h);
    count = omega arith;
    within = omega arith;
    others = λ q _. same q;
    ends = fuelled;
    full = λ h. absurd (omega arith);
    finishes = λ h. absurd (early h);
    calm = quiet;
  }

  -- One round, and the rest of the loop.
  extend :
      {total : ℕ} {c : Text} {m : ℕ} {d d' : Disk} {w w' : n.World} {r : Progress n} (bytes : Text)
      → incoming fd w ≡ bytes ++ incoming fd w'
      → SameBut tmp d d'
      → (d.faults ≡ [] → d'.faults ≡ [])
      → Grew (total + length bytes) (c ++ bytes) m d' w' r
      → Grew total c m d w r
  extend {c = c} {m = m} bytes before same quiet g = record {
    received = bytes ++ g.received;
    content = g.content ∙ ap (λ x. some (x, m)) (append_assoc c bytes g.received);
    stream = λ h. before ∙ ap (◌++◌ bytes) (g.stream h) ∙ sym (append_assoc bytes g.received _);
    count = omega (arith, g.count, length-append bytes g.received);
    within = g.within;
    others = λ q h. g.others q h ∙ same q h;
    ends = g.ends;
    full = g.full;
    finishes = g.finishes;
    calm = λ h. g.calm (quiet h);
  }

  module _ (total : ℕ) (c : Text) (m : ℕ) (d : Disk) (w : n.World)
      (at_tmp : file_at tmp d ≡ some (c, m)) (lt : total < expected) where
    -- What a round hands to the rest of the loop.
    abbrev Handed : (Text → Disk → n.World → Progress n) → Type 0
    Handed more =
        (bytes : Text) (d' : Disk) (w' : n.World)
        → 0 < length bytes
        → length bytes ≤ expected - total
        → incoming fd w ≡ bytes ++ incoming fd w'
        → file_at tmp d' ≡ some (c ++ bytes, m)
        → SameBut tmp d d'
        → (d.faults ≡ [] → d'.faults ≡ [])
        → Grew total c m d w (more bytes d' w')

    content_at :
        (c' : Text) (m' : ℕ) (d' : Disk) (bytes : Text)
        → file_at tmp d ≡ some (c', m')
        → file_at tmp d' ≡ some (c' ++ bytes, m')
        → file_at tmp d' ≡ some (c ++ bytes, m)
    content_at c' m' d' bytes old new = cc

    after_append-Grew :
        (b : ℕ) (bytes : Text) (w' : n.World) (more : Text → Disk → n.World → Progress n)
        (r : Result Bool × Disk)
        → length (b ∷ bytes) ≤ expected - total
        → incoming fd w ≡ (b ∷ bytes) ++ incoming fd w'
        → Wrote tmp (λ x. x ++ (b ∷ bytes)) d r
        → (d.faults ≡ [] → r.1.faults ≡ [])
        → Handed more
        → Grew total c m d w (after_append n total w' (λ d'. more (b ∷ bytes) d' w') r)
    unfolding after_append
    after_append-Grew b bytes w' more (ok true, d') le before ((c', m', old, new), others) quiet
          rest =
        rest (b ∷ bytes) d' w' (omega arith) le before (content_at c' m' d' (b ∷ bytes) old new)
          others quiet
    after_append-Grew b bytes w' more (ok false, d') le before same quiet rest =
        stays write_failed at_tmp lt same quiet (λ h. absurd (h refl)) (λ e. cc) (λ e. cc)
    after_append-Grew b bytes w' more (threw, d') le before h quiet rest = absurd h

    after_read-Grew :
        (more : Text → Disk → n.World → Progress n) (r : ReadResult × n.World)
        → ReadLaw (min buffer_size (expected - total)) (incoming fd w) (incoming fd r.1) r.0
        → Handed more
        → Grew total c m d w (after_read n tmp total d more r)
    unfolding after_read
    after_read-Grew more (got [], w') law rest =
        stays peer_closed at_tmp lt (λ q. refl) (λ h. h) (λ _. sym law.1) (λ e. cc) (λ e. cc)
    after_read-Grew more (got (b ∷ bytes), w') law rest =
        after_append-Grew b bytes w' more (append tmp (b ∷ bytes) d) (omega arith) law.1
          (append-Wrote tmp (b ∷ bytes) d) (λ h. append-calm tmp d h (b ∷ bytes)) rest
    after_read-Grew more (ReadResult.timed_out, w') law rest =
        stays read_timeout at_tmp lt (λ q. refl) (λ h. h) (λ _. law) (λ e. cc) (λ e. cc)
    after_read-Grew more (ReadResult.failed, w') law rest =
        stays read_error at_tmp lt (λ q. refl) (λ h. h) (λ _. law) (λ e. cc) (λ e. cc)

  complete :
      {total : ℕ} (c : Text) (m : ℕ) (d : Disk) (w : n.World)
      → file_at tmp d ≡ some (c, m)
      → total ≡ expected
      → Grew total c m d w (finished, total, d, w)
  complete c m d w at_tmp full = record {
    received = [];
    content = at_tmp ∙ ap (λ x. some (x, m)) (sym (append-nil c));
    stream = λ _. refl;
    count = omega arith;
    within = omega arith;
    others = λ q _. refl;
    ends = λ e. cc;
    full = λ _. refl;
    finishes = λ _. full;
    calm = λ h. h;
  }

  -- There is something to read while the file is not complete.
  wants_more : (total : ℕ) → total < expected → leb (min buffer_size (expected - total)) 0 ≡ false
  wants_more total lt = ground arith

  pub receive_loop-Grew :
      (fuel total : ℕ) (c : Text) (m : ℕ) (d : Disk) (w : n.World)
      → file_at tmp d ≡ some (c, m)
      → total ≤ expected
      → expected - total < fuel
      → Grew total c m d w (receive_loop n fd tmp expected fuel total d w)
  unfolding receive_loop
  receive_loop-Grew zero total c m d w at_tmp le lt = absurd (omega arith)
  receive_loop-Grew (suc fuel) total c m d w at_tmp le lt = elim (Bool-cases (ltb total expected)) [
    | inl more ↦
        rw (more, wants_more total (ltb→lt total expected more))
          (after_read-Grew total c m d w at_tmp (ltb→lt total expected more)
            (λ bytes. receive_loop n fd tmp expected fuel (total + length bytes))
            (n.read fd (min buffer_size (expected - total)) w)
            (read_law fd (min buffer_size (expected - total)) w)
            (λ bytes d' w' pos_len fits before at' others quiet. extend bytes before others quiet (
              receive_loop-Grew fuel (total + length bytes) (c ++ bytes) m d' w' at' (omega arith)
                (omega arith))))
    | inr done ↦ rw done (complete c m d w at_tmp (ground arith))
  ]
