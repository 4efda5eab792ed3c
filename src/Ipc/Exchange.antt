-- ===== src/Ipc/Exchange.antt =====
-- `send` and `receive` against the frame of a message.
use action_learning_p2p_vers.Prelude.{
  ◌≤◌, ◌<◌, ◌≡◌, refl, sym, ap, subst, ◌∙◌, ◌⊎◌, Bool, true, false, ◌||◌, List, [], ◌∷◌, ◌++◌, none,
  some, arith, ltb, ◌==◌, inl, inr, Bool-cases, length, take, append-nil, append_assoc, All,
}
use action_learning_p2p_vers.Prelude.Int.{is_negative}
use action_learning_p2p_vers.Prelude.Text.{Text}
use action_learning_p2p_vers.Crypto.Evp.{IsByte}
use action_learning_p2p_vers.Sockets.{Net, IsStream}
use action_learning_p2p_vers.Ipc.Frame.{u32_size, htonl, ntohl, frame, htonl-ntohl, frame_exact}
use action_learning_p2p_vers.Ipc.Client.{
  Client, full, read_timeout, read_error, end_of_file, out_of_fuel, Partial, Received, max_message,
  send, read_exact, after_body, read_body, after_length, receive, fail_with,
}
use action_learning_p2p_vers.Ipc.Wire.{
  Written, write_all-Written, header-Written, Gathered, read_exact-Gathered,
}

-- Four bytes that are read as a length are the header of that length.
header_of : (h : Text) → length h ≡ 4 → All IsByte h → htonl (ntohl h) ≡ h
header_of (a ∷ b ∷ c ∷ d ∷ []) e (ha, (hb, (hc, (hd, _)))) = htonl-ntohl a b c d ha hb hc hd
header_of [] e bytes = absurd (omega arith)
header_of (a ∷ []) e bytes = absurd (omega arith)
header_of (a ∷ b ∷ []) e bytes = absurd (omega arith)
header_of (a ∷ b ∷ c ∷ []) e bytes = absurd (omega arith)
header_of (a ∷ b ∷ c ∷ d ∷ x ∷ xs) e bytes = absurd (omega arith)

All-front {ℓ κ} : {A : Type ℓ} (P : A → Type κ) (xs ys : List A) → All P (xs ++ ys) → All P xs
All-front P [] ys h = tt
All-front P (x ∷ xs) ys (hx, hxs) = (hx, All-front P xs ys hxs)

module _ (n : Net) (s : IsStream n) (c : Client) where
  open s use {incoming, outgoing}
  open c use {socket_fd}

  -- What a call of `send` has put on the stream.
  abbrev pub SentFrame : Text → n.World → Bool × n.World → Type 0
  SentFrame message w r =
      (sent : Text) × (left : Text) × (frame message ≡ sent ++ left)
      × (outgoing socket_fd r.1 ≡ outgoing socket_fd w ++ sent)
      × ((r.0 ≡ false) ⊎ (left ≡ []))

  sent_frame :
      (message : Text) (w : n.World) (r : Bool × n.World)
      → Written n s socket_fd (frame message) w r
      → SentFrame message w r
  sent_frame message w (true, w') g = (g.sent, g.left, g.split, g.out, inr (g.whole refl))
  sent_frame message w (false, w') g = (g.sent, g.left, g.split, g.out, inl refl)

  -- `send` puts the frame of the message on the stream and nothing more, or returns false after a
  -- front part of it.
  pub send_frame : (message : Text) (w : n.World) → SentFrame message w (send n c message w)
  unfolding send frame
  send_frame message w = elim (Bool-cases (is_negative socket_fd)) [
    | inl t ↦ rw t ([], frame message, refl, sym (append-nil _), inl refl)
    | inr t ↦ rw t (
        sent_frame message w _ (
          header-Written n s socket_fd (htonl (u32_size message)) (take (u32_size message) message)
            w _ (write_all-Written n s socket_fd 4 (htonl (u32_size message)) w)))
  ]

  -- What a call of `receive` has taken off the stream, where it has a message.
  abbrev pub GotFrame : n.World → Received n → Type 0
  GotFrame w (none, c', w') = Unit
  GotFrame w (some message, c', w') =
      (incoming socket_fd w ≡ frame message ++ incoming socket_fd w')
      × (0 < length message)
      × (length message ≤ max_message)
      × (c' ≡ c)

  body_frame :
      (w w1 : n.World) (header : Text) (r : Partial n)
      → All IsByte (incoming socket_fd w)
      → length header ≡ 4
      → incoming socket_fd w ≡ header ++ incoming socket_fd w1
      → 0 < ntohl header
      → ntohl header ≤ max_message
      → Gathered n s socket_fd (ntohl header) [] w1 r
      → GotFrame w (after_body n c r)
  unfolding after_body fail_with
  body_frame w w1 header (full, body, w2) bytes four before lt le g = (
    before
        ∙ ap (◌++◌ header) g.stream
        ∙ sym (append_assoc header g.taken (incoming socket_fd w2))
        ∙ ap (λ x. x ++ incoming socket_fd w2) (sym framed),
    omega (arith, g.exact refl),
    omega (arith, g.exact refl),
    refl,
  )
    where
      real : All IsByte header
      real = All-front IsByte header (incoming socket_fd w1) (subst (All IsByte) before bytes)

      framed : frame body ≡ header ++ g.taken
      framed =
          frame_exact body (omega (arith, g.exact refl))
          ∙ ap (λ k. htonl k ++ body) (g.exact refl)
          ∙ ap (λ h. h ++ body) (header_of header four real)
          ∙ ap (◌++◌ header) g.grown
  body_frame w w1 header (read_timeout, body, w2) bytes four before lt le g = tt
  body_frame w w1 header (read_error, body, w2) bytes four before lt le g = tt
  body_frame w w1 header (end_of_file, body, w2) bytes four before lt le g = tt
  body_frame w w1 header (out_of_fuel, body, w2) bytes four before lt le g = tt

  length_frame :
      (w : n.World) (r : Partial n)
      → All IsByte (incoming socket_fd w)
      → Gathered n s socket_fd 4 [] w r
      → GotFrame w (after_length n c r)
  unfolding after_length read_body fail_with
  length_frame w (full, header, w1) bytes g =
      elim (Bool-cases (ntohl header == 0 || ltb max_message (ntohl header))) [
        | inl t ↦ rw t tt
        | inr t ↦ rw t (
            body_frame w w1 header (read_exact n (ntohl header) socket_fd (ntohl header) [] w1)
              bytes (g.exact refl) (g.stream ∙ ap (λ x. x ++ incoming socket_fd w1) (sym g.grown))
              (ground arith) (ground arith)
              (read_exact-Gathered n s socket_fd (ntohl header) (ntohl header) [] w1 (omega arith)
                (omega arith)))
      ]
  length_frame w (read_timeout, header, w1) bytes g = tt
  length_frame w (read_error, header, w1) bytes g = tt
  length_frame w (end_of_file, header, w1) bytes g = tt
  length_frame w (out_of_fuel, header, w1) bytes g = tt

  receive-GotFrame : (w : n.World) → All IsByte (incoming socket_fd w) → GotFrame w (receive n c w)
  unfolding receive
  receive-GotFrame w bytes = elim (Bool-cases (is_negative socket_fd)) [
    | inl t ↦ rw t tt
    | inr t ↦ rw t (
        length_frame w (read_exact n 4 socket_fd 4 [] w) bytes
          (read_exact-Gathered n s socket_fd 4 4 [] w (omega arith) (omega arith)))
  ]

  -- Where what the stream holds are bytes, a message that `receive` returns came off the stream as
  -- its frame and nothing more, is of 1 to 1048576 bytes, and leaves the connection as it was.
  pub receive-frame :
      (message : Text) (c' : Client) (w w' : n.World)
      → All IsByte (incoming socket_fd w)
      → receive n c w ≡ (some message, c', w')
      → (incoming socket_fd w ≡ frame message ++ incoming socket_fd w')
        × (0 < length message)
        × (length message ≤ max_message)
        × (c' ≡ c)
  receive-frame message c' w w' bytes e = subst (GotFrame w) e (receive-GotFrame w bytes)
