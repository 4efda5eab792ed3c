-- ===== src/Ipc/Windows.antt =====
-- `WindowsIpcClient`: the client of Unix over Winsock, whose errors are read after the call.
use action_learning_p2p_vers.Prelude.{
  ℕ, Bool, true, false, ◌||◌, [], Option, none, some, ◌==◌, ltb, if◌then◌else◌, take,
}
use action_learning_p2p_vers.Prelude.Int.{ℤ, pos, negsuc}
use action_learning_p2p_vers.Prelude.Text.{Text}
use action_learning_p2p_vers.Sockets.{Net, loopback, inet, to_u16}
use action_learning_p2p_vers.Ipc.Port.{get_ipc_tcp_port, derive_port}
use action_learning_p2p_vers.Ipc.Frame.{u32_size, htonl, ntohl}
use action_learning_p2p_vers.Ipc.Client.{
  Client, disconnected, max_message, full, read_timeout, read_error, end_of_file, out_of_fuel,
  Partial, Received, write_all, after_header, read_exact,
}

-- `startup` is `WSAStartup`, true where it returns 0; `cleanup` is `WSACleanup`; `error_is_timeout`
-- is `WSAGetLastError() == WSAETIMEDOUT`.
pub record Winsock (n : Net) : Type 0 where
  pub startup : n.World → Bool × n.World
  pub cleanup : n.World → n.World
  pub error_is_timeout : n.World → Bool

-- INVALID_SOCKET, which is -1 as a SOCKET.
unfoldable pub is_invalid : ℤ → Bool
is_invalid (pos k) = false
is_invalid (negsuc k) = k == 0

module _ (n : Net) (ws : Winsock n) where
  open ws use {startup, cleanup, error_is_timeout}

  -- `disconnectLocked`, the body of `disconnect` and of `disconnectOnError`.
  unfoldable pub disconnect : Client → n.World → Client × n.World
  unfolding is_invalid
  disconnect c w =
      if is_invalid c.socket_fd then (c, w) else (disconnected, cleanup (n.close c.socket_fd w))

  unfoldable pub after_connect : ℤ → Bool × n.World → Bool × Client × n.World
  after_connect fd (false, w) = (false, disconnected, cleanup (n.close fd w))
  after_connect fd (true, w) = (true, record { socket_fd = fd }, n.set_timeouts fd 3 false w)

  -- `htons` of the port that is set, or of the one that the path stands for.
  unfoldable pub port_of : ℤ → Text → ℕ
  unfolding derive_port
  port_of (negsuc k) path = to_u16 (pos (derive_port path))
  port_of (pos p) path = to_u16 (pos p)

  unfoldable pub after_socket : Option Text → Text → ℤ × n.World → Bool × Client × n.World
  unfolding after_connect port_of is_invalid get_ipc_tcp_port
  after_socket env path (fd, w) =
      if is_invalid fd
      then (false, record { socket_fd = fd }, cleanup w)
      else after_connect fd (n.connect fd (loopback (port_of (get_ipc_tcp_port env) path)) w)

  unfoldable pub after_startup :
      Option Text → Text → Client → Bool × n.World → Bool × Client × n.World
  unfolding after_socket
  after_startup env path c (false, w) = (false, c, w)
  after_startup env path c (true, w) = after_socket env path (n.socket inet w)

  -- `connect`; the first argument is the environment variable IPC_TCP_PORT.
  unfoldable pub connect : Option Text → Client → Text → n.World → Bool × Client × n.World
  unfolding disconnect after_startup
  connect env c path w = let (c', w') = disconnect c w in after_startup env path c' (startup w')

  unfoldable pub send : Client → Text → n.World → Bool × n.World
  unfolding is_invalid write_all after_header
  send c message w =
      if is_invalid c.socket_fd
      then (false, w)
      else after_header n c.socket_fd (take (u32_size message) message)
          (write_all n 4 c.socket_fd (htonl (u32_size message)) w)

  unfoldable pub fail_with : Client → n.World → Received n
  unfolding disconnect
  fail_with c w = let (c', w') = disconnect c w in (none, c', w')

  -- `n <= 0`: the end of the stream as well as an error.
  unfoldable pub after_failure : Client → n.World → Received n
  unfolding fail_with
  after_failure c w = if error_is_timeout w then (none, c, w) else fail_with c w

  unfoldable pub after_body : Client → Partial n → Received n
  unfolding fail_with
  after_body c (full, body, w) = (some body, c, w)
  after_body c (read_timeout, body, w) = fail_with c w
  after_body c (read_error, body, w) = fail_with c w
  after_body c (end_of_file, body, w) = fail_with c w
  after_body c (out_of_fuel, body, w) = (none, c, w)

  unfoldable pub read_body : Client → ℕ → n.World → Received n
  unfolding after_body read_exact
  read_body c len w =
      if len == 0 || ltb max_message len
      then (none, c, w)
      else after_body c (read_exact n len c.socket_fd len [] w)

  unfoldable pub after_length : Client → Partial n → Received n
  unfolding read_body after_failure
  after_length c (full, header, w) = read_body c (ntohl header) w
  after_length c (read_timeout, header, w) = after_failure c w
  after_length c (read_error, header, w) = after_failure c w
  after_length c (end_of_file, header, w) = after_failure c w
  after_length c (out_of_fuel, header, w) = (none, c, w)

  -- `receive`; the loops are those of Unix, over `recv`.
  unfoldable pub receive : Client → n.World → Received n
  unfolding after_length read_exact is_invalid
  receive c w =
      if is_invalid c.socket_fd
      then (none, c, w)
      else after_length c (read_exact n 4 c.socket_fd 4 [] w)

  unfoldable pub is_connected : Client → Bool
  unfolding is_invalid
  is_connected c = if is_invalid c.socket_fd then false else true
