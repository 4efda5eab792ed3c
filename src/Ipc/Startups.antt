-- ===== src/Ipc/Startups.antt =====
-- `WSAStartup` and `WSACleanup` over the life of a Windows client.
use action_learning_p2p_vers.Prelude.{
  ℕ, suc, ◌+◌, ◌-◌, ◌≡◌, refl, ◌∙◌, Bool, true, false, ◌||◌, List, [], Option, none, arith, inl,
  inr, Bool-cases, if◌then◌else◌, ltb, ◌==◌, take,
}
use action_learning_p2p_vers.Prelude.Int.{ℤ}
use action_learning_p2p_vers.Prelude.Text.{Text}
use action_learning_p2p_vers.Sockets.{Net, Domain, Address, inet, loopback}
use action_learning_p2p_vers.Ipc.Port.{get_ipc_tcp_port}
use action_learning_p2p_vers.Ipc.Frame.{u32_size, htonl, ntohl}
use action_learning_p2p_vers.Ipc.Client.{
  Client, full, read_timeout, read_error, end_of_file, out_of_fuel, Partial, Received, max_message,
  read_exact,
}
use action_learning_p2p_vers.Ipc.Windows.{
  Winsock, is_invalid, connect, port_of, after_connect, after_socket, after_startup, send,
  disconnect, fail_with, after_failure, after_body, read_body, after_length, receive, is_connected,
}
use action_learning_p2p_vers.Ipc.Observed.{read_exact_keeps, write_all_keeps, after_header_keeps}
use action_learning_p2p_vers.Ipc.Interface.{
  windows_ipc_client, Call, connects, sends, receives, disconnects, call, run, run-keeps,
}

-- Winsock as documented: it counts the startups that have not been cleaned up.
pub record IsCounting (n : Net) (ws : Winsock n) : Type 0 where
  pub started : n.World → ℕ
  pub started-startup :
      (w : n.World)
      → started (ws.startup w).1 ≡ (if (ws.startup w).0 then suc (started w) else started w)
  pub started-cleanup : (w : n.World) → started (ws.cleanup w) ≡ started w - 1
  pub started-socket : (m : Domain) (w : n.World) → started (n.socket m w).1 ≡ started w
  pub started-connect :
      (fd : ℤ) (a : Address) (w : n.World) → started (n.connect fd a w).1 ≡ started w
  pub started-set_timeouts :
      (fd : ℤ) (k : ℕ) (b : Bool) (w : n.World) → started (n.set_timeouts fd k b w) ≡ started w
  pub started-close : (fd : ℤ) (w : n.World) → started (n.close fd w) ≡ started w
  pub started-read : (fd : ℤ) (k : ℕ) (w : n.World) → started (n.read fd k w).1 ≡ started w
  pub started-write : (fd : ℤ) (b : Text) (w : n.World) → started (n.write fd b w).1 ≡ started w

module _ (n : Net) (ws : Winsock n) (counting : IsCounting n ws) (base : ℕ) where
  open counting use {
    started, started-startup, started-cleanup, started-socket, started-connect,
    started-set_timeouts, started-close, started-read, started-write,
  }

  -- A connected client stands for one startup.
  abbrev pub weight : Client → ℕ
  weight c = if is_invalid c.socket_fd then 0 else 1

  abbrev Balanced : Client → n.World → Type 0
  Balanced c w = started w ≡ base + weight c

  disconnect-Balanced :
      (c : Client) (w : n.World)
      → Balanced c w
      → let (c', w') = disconnect n ws c w in (started w' ≡ base) × (is_invalid c'.socket_fd ≡ true)
  unfolding disconnect is_invalid
  disconnect-Balanced c w h = elim (Bool-cases (is_invalid c.socket_fd)) [
    | inl t ↦ rw t (ground arith, t)
    | inr t ↦
        rw t (
          ground (arith, started-cleanup (n.close c.socket_fd w), started-close c.socket_fd w),
          refl,
        )
  ]

  disconnect-keeps :
      (c : Client) (w : n.World)
      → Balanced c w
      → let (c', w') = disconnect n ws c w in Balanced c' w'
  disconnect-keeps c w h =
      let (closed, invalid) = disconnect-Balanced c w h in rw invalid (ground arith)

  -- After a startup, whether the connection comes about or not.
  after_connect-Balanced :
      (fd : ℤ) (r : Bool × n.World)
      → started r.1 ≡ suc base
      → is_invalid fd ≡ false
      → let (b, c', w') = after_connect n ws fd r in Balanced c' w'
  unfolding after_connect is_invalid
  after_connect-Balanced fd (false, w) h valid =
      ground (arith, started-cleanup (n.close fd w), started-close fd w)
  after_connect-Balanced fd (true, w) h valid =
      rw valid (ground (arith, started-set_timeouts fd 3 false w))

  after_socket-Balanced :
      (env : Option Text) (path : Text) (r : ℤ × n.World)
      → started r.1 ≡ suc base
      → let (b, c', w') = after_socket n ws env path r in Balanced c' w'
  unfolding after_socket
  after_socket-Balanced env path (fd, w) h = elim (Bool-cases (is_invalid fd)) [
    | inl t ↦ rw (t, t) (ground (arith, started-cleanup w))
    | inr t ↦ rw t (
        after_connect-Balanced fd _
          (started-connect fd (loopback (port_of n ws (get_ipc_tcp_port env) path)) w ∙ h) t)
  ]

  after_startup-Balanced :
      (env : Option Text) (path : Text) (c : Client) (w : n.World) (r : Bool × n.World)
      → started w ≡ base
      → is_invalid c.socket_fd ≡ true
      → started r.1 ≡ (if r.0 then suc (started w) else started w)
      → let (b, c', w') = after_startup n ws env path c r in Balanced c' w'
  unfolding after_startup
  after_startup-Balanced env path c w (false, w1) h invalid e = rw invalid (ground arith)
  after_startup-Balanced env path c w (true, w1) h invalid e =
      after_socket-Balanced env path (n.socket inet w1) (ground (arith, started-socket inet w1))

  connect-Balanced :
      (env : Option Text) (c : Client) (path : Text) (w : n.World)
      → Balanced c w
      → let (b, c', w') = connect n ws env c path w in Balanced c' w'
  unfolding connect
  connect-Balanced env c path w h =
      let (closed, invalid) = disconnect-Balanced c w h in
      let (c1, w1) = disconnect n ws c w in
      after_startup-Balanced env path c1 w1 (ws.startup w1) closed invalid (started-startup w1)

  send-started :
      (c : Client) (message : Text) (w : n.World) → started (send n ws c message w).1 ≡ started w
  unfolding send
  send-started c message w = elim (Bool-cases (is_invalid c.socket_fd)) [
    | inl t ↦ rw t refl
    | inr t ↦ rw t (
        after_header_keeps n started started-write c.socket_fd (take (u32_size message) message) _
        ∙ write_all_keeps n started started-write 4 c.socket_fd (htonl (u32_size message)) w)
  ]

  abbrev Kept : Received n → Type 0
  Kept (m, c, w) = Balanced c w

  Kept-if : (b : Bool) (x y : Received n) → Kept x → Kept y → Kept (if b then x else y)
  Kept-if true x y hx hy = hx
  Kept-if false x y hx hy = hy

  fail_with-Kept : (c : Client) (w : n.World) → Balanced c w → Kept (fail_with n ws c w)
  unfolding fail_with
  fail_with-Kept c w h = disconnect-keeps c w h

  after_body-Kept : (c : Client) (r : Partial n) → Balanced c r.2 → Kept (after_body n ws c r)
  unfolding after_body
  after_body-Kept c (full, body, w) h = h
  after_body-Kept c (read_timeout, body, w) h = fail_with-Kept c w h
  after_body-Kept c (read_error, body, w) h = fail_with-Kept c w h
  after_body-Kept c (end_of_file, body, w) h = fail_with-Kept c w h
  after_body-Kept c (out_of_fuel, body, w) h = h

  reads_keep :
      (fuel : ℕ) (fd : ℤ) (size : ℕ) (w : n.World)
      → started (read_exact n fuel fd size [] w).2 ≡ started w
  reads_keep fuel fd size w = read_exact_keeps n started started-read fuel fd size [] w

  read_body-Kept :
      (c : Client) (len : ℕ) (w : n.World) → Balanced c w → Kept (read_body n ws c len w)
  unfolding read_body
  read_body-Kept c len w h =
      Kept-if (len == 0 || ltb max_message len) (none, c, w) _ h
        (after_body-Kept c (read_exact n len c.socket_fd len [] w)
          (reads_keep len c.socket_fd len w ∙ h))

  after_failure-Kept : (c : Client) (w : n.World) → Balanced c w → Kept (after_failure n ws c w)
  unfolding after_failure
  after_failure-Kept c w h =
      Kept-if (ws.error_is_timeout w) (none, c, w) (fail_with n ws c w) h (fail_with-Kept c w h)

  after_length-Kept : (c : Client) (r : Partial n) → Balanced c r.2 → Kept (after_length n ws c r)
  unfolding after_length
  after_length-Kept c (full, header, w) h = read_body-Kept c (ntohl header) w h
  after_length-Kept c (read_timeout, header, w) h = after_failure-Kept c w h
  after_length-Kept c (read_error, header, w) h = after_failure-Kept c w h
  after_length-Kept c (end_of_file, header, w) h = after_failure-Kept c w h
  after_length-Kept c (out_of_fuel, header, w) h = h

  receive-Kept : (c : Client) (w : n.World) → Balanced c w → Kept (receive n ws c w)
  unfolding receive
  receive-Kept c w h =
      Kept-if (is_invalid c.socket_fd) (none, c, w) _ h
        (after_length-Kept c (read_exact n 4 c.socket_fd 4 [] w) (reads_keep 4 c.socket_fd 4 w ∙ h))

  call-Balanced :
      (env : Option Text) (x : Call) (c : Client) (w : n.World)
      → Balanced c w
      → let (c', w') = call (windows_ipc_client n env ws) x (c, w) in Balanced c' w'
  unfolding call
  call-Balanced env (connects path) c w h = connect-Balanced env c path w h
  call-Balanced env (sends message) c w h = send-started c message w ∙ h
  call-Balanced env receives c w h = receive-Kept c w h
  call-Balanced env disconnects c w h = disconnect-keeps c w h

  -- Where a Windows client begins with one startup if it is connected and with none if it is not,
  -- beside `base` startups of others, it is so after any calls of `connect`, `send`, `receive` and
  -- `disconnect`, however they end: every `WSAStartup` that succeeded has had its `WSACleanup`, or
  -- is that of the open connection.
  pub run-started :
      (env : Option Text) (calls : List Call) (c : Client) (w : n.World)
      → started w ≡ base + (if is_connected n ws c then 1 else 0)
      → let (c', w') = run (windows_ipc_client n env ws) calls (c, w) in
        started w' ≡ base + (if is_connected n ws c' then 1 else 0)
  unfolding is_connected
  run-started env calls c w h =
      let balanced =
        run-keeps (windows_ipc_client n env ws) (λ (c', w'). Balanced c' w')
          (λ x (c1, w1) h1. call-Balanced env x c1 w1 h1) calls (c, w) (ground arith) in
      ground arith
