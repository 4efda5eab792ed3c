-- ===== src/Ipc/Winsock.antt =====
-- The Windows client against the Unix one, and the errors of Winsock.
use action_learning_p2p_vers.Prelude.{
  ℕ, suc, ◌-◌, ◌≡◌, ◌⊎◌, refl, true, false, ◌||◌, [], ◌∷◌, none, arith, ltb, ◌==◌, inl, inr,
  Bool-cases, if◌then◌else◌, length,
}
use action_learning_p2p_vers.Prelude.Int.{ℤ, pos, negsuc}
use action_learning_p2p_vers.Prelude.Text.{Text}
use action_learning_p2p_vers.Sockets.{Net, ReadResult, got}
use action_learning_p2p_vers.Ipc.Frame.{ntohl}
use action_learning_p2p_vers.Ipc.Client.{
  Client, disconnected, max_message, full, read_timeout, read_error, end_of_file, out_of_fuel,
  Partial, Received, after_read, read_exact,
}
use action_learning_p2p_vers.Ipc.Client as Unix
use action_learning_p2p_vers.Ipc.Windows.{Winsock}
use action_learning_p2p_vers.Ipc.Windows as Windows

module _ (n : Net) (ws : Winsock n) where
  open ws use {cleanup, error_is_timeout}

  -- What Winsock promises of `WSAGetLastError` after a `recv`: where it returned -1, the error is the
  -- reason. At the end of the stream, and after bytes, the error may be that of any earlier call.
  abbrev pub ErrorLaw : ReadResult × n.World → Type 0
  ErrorLaw (got bytes, w) = Unit
  ErrorLaw (ReadResult.timed_out, w) = error_is_timeout w ≡ true
  ErrorLaw (ReadResult.failed, w) = error_is_timeout w ≡ false

  abbrev pub IsCurrent : Type 0
  IsCurrent = (fd : ℤ) (k : ℕ) (w : n.World) → ErrorLaw (n.read fd k w)

  -- How a loop of reads ended is what the error says.
  abbrev EndLaw : Partial n → Type 0
  EndLaw (full, have, w) = Unit
  EndLaw (out_of_fuel, have, w) = Unit
  EndLaw (read_timeout, have, w) = error_is_timeout w ≡ true
  EndLaw (read_error, have, w) = error_is_timeout w ≡ false
  EndLaw (end_of_file, have, w) = Unit

  after_read-EndLaw :
      (have : Text) (more : Text → n.World → Partial n) (r : ReadResult × n.World)
      → ErrorLaw r
      → ((t : Text) (w : n.World) → EndLaw (more t w))
      → EndLaw (after_read n have more r)
  unfolding after_read
  after_read-EndLaw have more (got [], w) law ih = law
  after_read-EndLaw have more (got (b ∷ bytes), w) law ih = ih _ w
  after_read-EndLaw have more (ReadResult.timed_out, w) law ih = law
  after_read-EndLaw have more (ReadResult.failed, w) law ih = law

  read_exact-EndLaw :
      IsCurrent
      → (fuel : ℕ) (fd : ℤ) (size : ℕ) (have : Text) (w : n.World)
      → EndLaw (read_exact n fuel fd size have w)
  unfolding read_exact
  read_exact-EndLaw law ℕ.zero fd size have w = elim (Bool-cases (ltb (length have) size)) [
    | inl t ↦ rw t tt
    | inr t ↦ rw t tt
  ]
  read_exact-EndLaw law (suc fuel) fd size have w = elim (Bool-cases (ltb (length have) size)) [
    | inl t ↦ rw t (
        after_read-EndLaw have (read_exact n fuel fd size) (n.read fd (size - length have) w)
          (law fd (size - length have) w) (read_exact-EndLaw law fuel fd size))
    | inr t ↦ rw t tt
  ]

  -- What Windows does where Unix does `r`.
  abbrev pub released : Received n → Received n
  released (m, c, w) = (m, c, if Windows.is_connected n ws c then w else cleanup w)

  module _ (k : ℕ) where
    abbrev here : Client
    here = record { socket_fd = pos k }

    after_body_agrees :
        (r : Partial n) → Windows.after_body n ws here r ≡ released (Unix.after_body n here r)
    unfolding Windows.after_body Unix.after_body Windows.fail_with Unix.fail_with Windows.disconnect
        Unix.disconnect Windows.is_connected Windows.is_invalid
    after_body_agrees (full, body, w) = refl
    after_body_agrees (read_timeout, body, w) = refl
    after_body_agrees (read_error, body, w) = refl
    after_body_agrees (end_of_file, body, w) = refl
    after_body_agrees (out_of_fuel, body, w) = refl

    read_body_agrees :
        (len : ℕ) (w : n.World)
        → Windows.read_body n ws here len w ≡ released (Unix.read_body n here len w)
    unfolding Windows.read_body Unix.read_body Windows.is_connected Windows.is_invalid
    read_body_agrees len w = elim (Bool-cases (len == 0 || ltb max_message len)) [
      | inl t ↦ rw t refl
      | inr t ↦ rw t (after_body_agrees _)
    ]

    -- The stream ends where the error of an earlier call was a timeout: Unix closes its end, and
    -- Windows keeps the connection as it is.
    abbrev pub IsStale : Partial n → Received n → Received n → Type 0
    IsStale (why, have, w) on_windows on_unix =
        (why ≡ end_of_file)
        × (error_is_timeout w ≡ true)
        × (on_windows ≡ (none, here, w))
        × (on_unix ≡ (none, disconnected, n.close (pos k) w))

    after_length_agrees :
        (r : Partial n)
        → EndLaw r
        → let on_windows = Windows.after_length n ws here r in
          let on_unix = Unix.after_length n here r in
          (on_windows ≡ released on_unix) ⊎ IsStale r on_windows on_unix
    unfolding Windows.after_length Unix.after_length Windows.after_failure Windows.fail_with
        Unix.fail_with Windows.disconnect Unix.disconnect Windows.is_connected Windows.is_invalid
    after_length_agrees (full, header, w) law = inl (read_body_agrees (ntohl header) w)
    after_length_agrees (read_timeout, header, w) law = inl (rw law refl)
    after_length_agrees (read_error, header, w) law = inl (rw law refl)
    after_length_agrees (end_of_file, header, w) law = elim (Bool-cases (error_is_timeout w)) [
      | inl t ↦ inr (refl, t, rw t refl, refl)
      | inr f ↦ inl (rw f refl)
    ]
    after_length_agrees (out_of_fuel, header, w) law = inl refl

  -- Where the error after a `recv` that returned -1 is the reason for it: on a client with a socket
  -- `receive` of Windows does what `receive` of Unix does, with one `WSACleanup` where it closes the
  -- connection (timeouts, errors, bad lengths, messages and the ends of streams alike), but in one
  -- case: the stream ends before the length is read, and the error that is left from an earlier call
  -- is a timeout. There Unix closes its end, and Windows keeps the connection as it is.
  pub receive_agrees :
      IsCurrent
      → (k : ℕ) (w : n.World)
      → let c : Client = record { socket_fd = pos k } in
        (Windows.receive n ws c w ≡ released (Unix.receive n c w))
        ⊎ IsStale k (read_exact n 4 (pos k) 4 [] w) (Windows.receive n ws c w) (Unix.receive n c w)
  unfolding Windows.receive Unix.receive Windows.is_invalid
  receive_agrees law k w =
      after_length_agrees k (read_exact n 4 (pos k) 4 [] w) (read_exact-EndLaw law 4 (pos k) 4 [] w)

  -- Where the peer has closed the connection and the error of an earlier call was a timeout, Unix
  -- closes its end, and Windows keeps the connection as it is.
  pub receive-stale :
      (k : ℕ) (w w1 : n.World)
      → n.read (pos k) 4 w ≡ (got [], w1)
      → error_is_timeout w1 ≡ true
      → (Windows.receive n ws (record { socket_fd = pos k }) w
          ≡ (none, record { socket_fd = pos k }, w1))
        × (Unix.receive n (record { socket_fd = pos k }) w
            ≡ (none, disconnected, n.close (pos k) w1))
  unfolding Windows.receive Unix.receive Windows.after_length Unix.after_length
      Windows.after_failure Unix.fail_with Unix.disconnect Windows.is_invalid read_exact after_read
  receive-stale k w w1 closed stale = (rw (closed, stale) refl, rw closed refl)

  -- On a socket that is valid or -1, `send` of Windows is `send` of Unix.
  pub send_agrees :
      (c : Client) (message : Text) (w : n.World)
      → Windows.is_connected n ws c ≡ Unix.is_connected n c
      → Windows.send n ws c message w ≡ Unix.send n c message w
  unfolding Windows.send Unix.send Windows.is_connected Unix.is_connected Windows.is_invalid
  send_agrees c message w h = at c.socket_fd h
    where
      at :
          (fd : ℤ)
          → Windows.is_connected n ws (record { socket_fd = fd })
            ≡ Unix.is_connected n (record { socket_fd = fd })
          → Windows.send n ws (record { socket_fd = fd }) message w
            ≡ Unix.send n (record { socket_fd = fd }) message w
      at (pos k) h = refl
      at (negsuc ℕ.zero) h = refl
      at (negsuc (suc k)) h = ground arith
