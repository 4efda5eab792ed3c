-- ===== src/Ipc/Leaks.antt =====
-- What a Unix client leaves the process holding, whatever calls it is given.
use action_learning_p2p_vers.Prelude.{
  ℕ, ◌≡◌, sym, Bool, true, false, not, ◌&&◌, ◌||◌, List, [], Option, none, arith, inl, inr,
  Bool-cases, if◌then◌else◌, ltb, ◌==◌, take,
}
use action_learning_p2p_vers.Prelude.Int.{ℤ, is_negative}
use action_learning_p2p_vers.Prelude.Text.{Text}
use action_learning_p2p_vers.Sockets.{Net, IsHolding, int_eq}
use action_learning_p2p_vers.Ipc.Frame.{u32_size, htonl, ntohl}
use action_learning_p2p_vers.Ipc.Client.{
  Client, full, read_timeout, read_error, end_of_file, out_of_fuel, Partial, Received, max_message,
  connect, send, write_all, disconnect, fail_with, after_body, read_body, after_length, receive,
  read_exact,
}
use action_learning_p2p_vers.Ipc.Observed.{read_exact_keeps, write_all_keeps, after_header_keeps}
use action_learning_p2p_vers.Ipc.Ownership.{connect-holds, disconnect-holds}
use action_learning_p2p_vers.Ipc.Interface.{
  unix_ipc_client, Call, connects, sends, receives, disconnects, call, run, run-keeps,
}

module _ (n : Net) (hs : IsHolding n) (g : ℤ) where
  open hs use {holds, holds-read, holds-write}

  -- Whether `g` is the client's descriptor, and whether it is held and not the client's.
  abbrev pub owns : Client → Bool
  owns c = not (is_negative c.socket_fd) && int_eq g c.socket_fd

  abbrev pub holds_apart : Client → n.World → Bool
  holds_apart c w = holds w g && not (owns c)

  -- From `s` on, the process has come to hold nothing but what the client owns.
  abbrev NoMore : Bool → Client → n.World → Type 0
  NoMore before c w = holds_apart c w ≡ true → before ≡ true

  disconnect-NoMore :
      (c : Client) (w : n.World)
      → NoMore (holds_apart c w) (disconnect n c w).0 (disconnect n c w).1
  disconnect-NoMore c w h = ground (arith, disconnect-holds n hs g c w)

  connect-NoMore :
      (env : Option Text) (c : Client) (path : Text) (w : n.World)
      → let (b, c', w') = connect n env c path w in NoMore (holds_apart c w) c' w'
  connect-NoMore env c path w h = ground (arith, connect-holds n hs g env c path w)

  send-NoMore :
      (c : Client) (message : Text) (w : n.World)
      → NoMore (holds_apart c w) c (send n c message w).1
  unfolding send
  send-NoMore c message w = elim (Bool-cases (is_negative c.socket_fd)) [
    | inl t ↦ rw t (λ h. h)
    | inr t ↦
        rw
          (
            t,
            after_header_keeps n (λ w. holds w g) (λ fd b w. holds-write fd b w g) c.socket_fd
                (take (u32_size message) message)
                (write_all n 4 c.socket_fd (htonl (u32_size message)) w),
            write_all_keeps n (λ w. holds w g) (λ fd b w. holds-write fd b w g) 4 c.socket_fd
                (htonl (u32_size message)) w,
          )
          (λ h. h)
  ]

  -- `receive` has a client that it leaves or disconnects.
  abbrev Kept : Client → n.World → Received n → Type 0
  Kept c w (m, c', w') = NoMore (holds_apart c w) c' w'

  after_body-Kept : (c : Client) (r : Partial n) → Kept c r.2 (after_body n c r)
  unfolding after_body fail_with
  after_body-Kept c (full, body, w) h = h
  after_body-Kept c (read_timeout, body, w) h = disconnect-NoMore c w h
  after_body-Kept c (read_error, body, w) h = disconnect-NoMore c w h
  after_body-Kept c (end_of_file, body, w) h = disconnect-NoMore c w h
  after_body-Kept c (out_of_fuel, body, w) h = h

  reads_keep :
      (fuel : ℕ) (fd : ℤ) (size : ℕ) (w : n.World)
      → holds (read_exact n fuel fd size [] w).2 g ≡ holds w g
  reads_keep fuel fd size w =
      read_exact_keeps n (λ w. holds w g) (λ fd k w. holds-read fd k w g) fuel fd size [] w

  read_body-Kept : (c : Client) (len : ℕ) (w : n.World) → Kept c w (read_body n c len w)
  unfolding read_body
  read_body-Kept c len w = elim (Bool-cases (len == 0 || ltb max_message len)) [
    | inl t ↦ rw t (λ h. h)
    | inr t ↦ rw (t, sym (reads_keep len c.socket_fd len w)) (after_body-Kept c _)
  ]

  after_length-Kept : (c : Client) (r : Partial n) → Kept c r.2 (after_length n c r)
  unfolding after_length fail_with
  after_length-Kept c (full, header, w) h = read_body-Kept c (ntohl header) w h
  after_length-Kept c (read_timeout, header, w) h = h
  after_length-Kept c (read_error, header, w) h = disconnect-NoMore c w h
  after_length-Kept c (end_of_file, header, w) h = disconnect-NoMore c w h
  after_length-Kept c (out_of_fuel, header, w) h = h

  Kept-if :
      (c : Client) (w : n.World) (b : Bool) (x y : Received n)
      → Kept c w x
      → Kept c w y
      → Kept c w (if b then x else y)
  Kept-if c w true x y hx hy = hx
  Kept-if c w false x y hx hy = hy

  receive-Kept : (c : Client) (w : n.World) → Kept c w (receive n c w)
  unfolding receive
  receive-Kept c w =
      Kept-if c w (is_negative c.socket_fd) (none, c, w) _ (λ h. h)
        (rw (sym (reads_keep 4 c.socket_fd 4 w))
          (after_length-Kept c (read_exact n 4 c.socket_fd 4 [] w)))

  call-NoMore :
      (env : Option Text) (x : Call) (c : Client) (w : n.World)
      → let (c', w') = call (unix_ipc_client n env) x (c, w) in NoMore (holds_apart c w) c' w'
  unfolding call
  call-NoMore env (connects path) c w = connect-NoMore env c path w
  call-NoMore env (sends message) c w = send-NoMore c message w
  call-NoMore env receives c w = receive-Kept c w
  call-NoMore env disconnects c w = disconnect-NoMore c w

  -- Whatever calls of `connect`, `send`, `receive` and `disconnect` a Unix client is given, and
  -- however they end, each descriptor that the process then holds and that is not the client's own
  -- is one that it held before and that was not the client's own then: no call leaks a socket.
  pub run_no_leak :
      (env : Option Text) (calls : List Call) (c : Client) (w : n.World)
      → let (c', w') = run (unix_ipc_client n env) calls (c, w) in
        holds_apart c' w' && not (holds_apart c w) ≡ false
  run_no_leak env calls c w =
      let no_more =
        run-keeps (unix_ipc_client n env) (λ (c', w'). NoMore (holds_apart c w) c' w')
          (λ x (c1, w1) kept h. kept (call-NoMore env x c1 w1 h)) calls (c, w) (λ h. h) in
      ground (arith, no_more)
