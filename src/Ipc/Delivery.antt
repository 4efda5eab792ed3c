-- ===== src/Ipc/Delivery.antt =====
-- `receive` on a stream that delivers: a framed message comes out as it went in, and one that is too
-- long is left on the stream.
use action_learning_p2p_vers.Prelude.{
  ℕ, zero, suc, ◌-◌, ◌≤◌, ◌<◌, ◌^◌, ◌≡◌, refl, sym, ap, subst, ◌∙◌, true, false, ◌||◌, [], ◌∷◌,
  ◌++◌, none, some, arith, ltb, ◌==◌, inl, inr, Bool-cases, length, length-append, append_assoc,
  append_cut,
}
use action_learning_p2p_vers.Prelude.Int.{is_negative}
use action_learning_p2p_vers.Prelude.Text.{Text}
use action_learning_p2p_vers.Sockets.{Net, IsStream, Delivers, ReadLaw, ReadResult, got}
use action_learning_p2p_vers.Ipc.Frame.{htonl, ntohl-htonl, frame, frame_exact}
use action_learning_p2p_vers.Ipc.Client.{
  Client, full, read_timeout, Partial, max_message, after_read, read_exact, after_body, read_body,
  after_length, receive,
}
use action_learning_p2p_vers.Ipc.Wire.{Gathered, read_exact-Gathered}

module _ (n : Net) (s : IsStream n) (c : Client) where
  open s use {incoming, read_law}
  open c use {socket_fd}

  after_read_full :
      (size fuel : ℕ) (have : Text) (w : n.World) (more : Text → n.World → Partial n)
      (r : ReadResult × n.World) (b : ℕ) (bytes : Text)
      → r.0 ≡ got (b ∷ bytes)
      → length have < size
      → size - length have ≤ suc fuel
      → size - length have ≤ length (incoming socket_fd w)
      → ReadLaw (size - length have) (incoming socket_fd w) (incoming socket_fd r.1) r.0
      → ((have' : Text) (w' : n.World)
          → length have' ≤ size
          → size - length have' ≤ fuel
          → size - length have' ≤ length (incoming socket_fd w')
          → (more have' w').0 ≡ full)
      → (after_read n have more r).0 ≡ full
  unfolding after_read
  after_read_full size fuel have w more (got [], w') b bytes e lt enough held law rest = cc
  after_read_full size fuel have w more (ReadResult.timed_out, w') b bytes e lt enough held law
        rest =
      cc
  after_read_full size fuel have w more (ReadResult.failed, w') b bytes e lt enough held law rest =
      cc
  after_read_full size fuel have w more (got (x ∷ xs), w') b bytes e lt enough held law rest =
      let grown = length-append have (x ∷ xs) in
      let before = ap length law.1 ∙ length-append (x ∷ xs) (incoming socket_fd w') in
      rest (have ++ (x ∷ xs)) w' (omega (arith, grown)) (omega (arith, grown))
        (omega (arith, grown, before))

  read_exact_full :
      (fuel size : ℕ) (have : Text) (w : n.World)
      → Delivers n s socket_fd
      → length have ≤ size
      → size - length have ≤ fuel
      → size - length have ≤ length (incoming socket_fd w)
      → (read_exact n fuel socket_fd size have w).0 ≡ full
  unfolding read_exact
  read_exact_full zero size have w d le enough held =
      let done : ltb (length have) size ≡ false = ground arith in rw done
  read_exact_full (suc fuel) size have w d le enough held =
      elim (Bool-cases (ltb (length have) size)) [
        | inr done ↦ rw done
        | inl more ↦
            let (b, bytes, e) = d (size - length have) w (ground arith) (ground arith) in
            rw more (
              after_read_full size fuel have w (read_exact n fuel socket_fd size)
                (n.read socket_fd (size - length have) w) b bytes e (ground arith) enough held
                (read_law socket_fd (size - length have) w)
                (λ have' w' le' enough' held'.
                  read_exact_full fuel size have' w' d le' enough' held'))
      ]

  front_of :
      (front back : Text) (w : n.World) (r : Partial n)
      → incoming socket_fd w ≡ front ++ back
      → r.0 ≡ full
      → Gathered n s socket_fd (length front) [] w r
      → (w' : n.World) × (r ≡ (full, front, w')) × (incoming socket_fd w' ≡ back)
  front_of front back w r e all g =
      let cut : (r.1 ≡ front) × (incoming socket_fd r.2 ≡ back) =
        append_cut r.1 (incoming socket_fd r.2) front back (g.exact all)
          (ap (λ x. x ++ incoming socket_fd r.2) g.grown ∙ sym g.stream ∙ e) in
      (r.2, (λ i. (all i, cut.0 i, r.2)), cut.1)

  -- Reading as many bytes as a front part of the stream has gives that part.
  pub read_front :
      (front back : Text) (w : n.World)
      → Delivers n s socket_fd
      → incoming socket_fd w ≡ front ++ back
      → (w' : n.World) × (read_exact n (length front) socket_fd (length front) [] w
          ≡ (full, front, w'))
        × (incoming socket_fd w' ≡ back)
  read_front front back w d e =
      front_of front back w (read_exact n (length front) socket_fd (length front) [] w) e
        (read_exact_full (length front) (length front) [] w d (omega arith) (omega arith)
          (omega (arith, ap length e, length-append front back)))
        (read_exact-Gathered n s socket_fd (length front) (length front) [] w (omega arith)
          (omega arith))

  -- The four bytes of the length come first.
  read_length :
      (message rest : Text) (w : n.World)
      → Delivers n s socket_fd
      → length message < 2 ^ 32
      → incoming socket_fd w ≡ frame message ++ rest
      → (w' : n.World) × (read_exact n 4 socket_fd 4 [] w ≡ (full, htonl (length message), w'))
        × (incoming socket_fd w' ≡ message ++ rest)
  unfolding htonl
  read_length message rest w d lt e = read_front (htonl (length message)) (message ++ rest) w d (
      e
      ∙ ap (λ x. x ++ rest) (frame_exact message lt)
      ∙ append_assoc (htonl (length message)) message rest)

  received :
      (message rest : Text) (w w1 : n.World)
      → Delivers n s socket_fd
      → 0 < length message
      → length message ≤ max_message
      → incoming socket_fd w1 ≡ message ++ rest
      → (w' : n.World) × (after_length n c (full, htonl (length message), w1)
          ≡ (some message, c, w'))
        × (incoming socket_fd w' ≡ rest)
  unfolding after_length read_body after_body
  received message rest w w1 d lt le held =
      let (w', body, left) = read_front message rest w1 d held in
      let fits : (length message == 0 || ltb max_message (length message)) ≡ false = ground arith in
      (w', rw (ntohl-htonl (length message) (omega arith), fits, body) refl, left)

  -- On a connected client and a stream that delivers, the frame of a message of 1 to 1048576 bytes
  -- is received as that message, and what follows the frame stays on the stream.
  pub receive_framed :
      (message rest : Text) (w : n.World)
      → Delivers n s socket_fd
      → is_negative socket_fd ≡ false
      → 0 < length message
      → length message ≤ max_message
      → incoming socket_fd w ≡ frame message ++ rest
      → (w' : n.World) × (receive n c w ≡ (some message, c, w')) × (incoming socket_fd w' ≡ rest)
  unfolding receive
  receive_framed message rest w d open_fd lt le e =
      let (w1, header, held) = read_length message rest w d (omega arith) e in
      rw (open_fd, header) (received message rest w w1 d lt le held)

  -- On a connected client and a stream that delivers, the frame of a longer message, that `send`
  -- does not refuse, is not received, and its header is consumed: the message itself stays on the
  -- stream, of a client that is still connected.
  pub receive_oversized :
      (message rest : Text) (w : n.World)
      → Delivers n s socket_fd
      → is_negative socket_fd ≡ false
      → max_message < length message
      → length message < 2 ^ 32
      → incoming socket_fd w ≡ frame message ++ rest
      → (w' : n.World) × (receive n c w ≡ (none, c, w')) × (incoming socket_fd w' ≡ message ++ rest)
  unfolding receive after_length read_body
  receive_oversized message rest w d open_fd gt lt e =
      let (w1, header, held) = read_length message rest w d lt e in
      let long : (length message == 0 || ltb max_message (length message)) ≡ true = ground arith in
      (w1, rw (open_fd, header, ntohl-htonl (length message) lt, long) refl, held)

  -- Where the time for the header is up, `receive` fails with the connection as it was, and the
  -- bytes of the header that had come, 3 at most, are off the stream and nowhere else.
  pub receive_timeout :
      (header : Text) (w w1 : n.World)
      → is_negative socket_fd ≡ false
      → read_exact n 4 socket_fd 4 [] w ≡ (read_timeout, header, w1)
      → (receive n c w ≡ (none, c, w1))
        × (incoming socket_fd w ≡ header ++ incoming socket_fd w1)
        × (length header < 4)
  unfolding receive after_length
  receive_timeout header w w1 open_fd e =
      let g =
        subst (Gathered n s socket_fd 4 [] w) e
          (read_exact-Gathered n s socket_fd 4 4 [] w (omega arith) (omega arith)) in
      (
        rw (open_fd, e) refl,
        g.stream ∙ ap (λ x. x ++ incoming socket_fd w1) (sym g.grown),
        g.short (λ h. cc),
      )
