-- ===== src/Ipc/Client.antt =====
-- `UnixIpcClient`. The mutexes make each operation one step; they are in Ipc.Locks.
use action_learning_p2p_vers.Prelude.{
  ℕ, zero, suc, ◌-◌, ◌*◌, Bool, true, false, ◌||◌, [], ◌∷◌, ◌++◌, Option, none, some, ◌==◌, ltb,
  if◌then◌else◌, length, take, drop,
}
use action_learning_p2p_vers.Prelude.Int.{ℤ, pos, negsuc, minus_one, is_negative}
use action_learning_p2p_vers.Prelude.Text.{Text}
use action_learning_p2p_vers.Sockets.{
  Net, inet, unix, Address, loopback, local, ReadResult, got, WriteResult, wrote,
}
use action_learning_p2p_vers.Ipc.Port.{get_ipc_tcp_port}
use action_learning_p2p_vers.Ipc.Frame.{u32_size, htonl, ntohl}

-- `socketFd_`; -1 where there is no connection.
pub record Client : Type 0 where
  pub socket_fd : ℤ

abbrev pub disconnected : Client
disconnected = record { socket_fd = minus_one }

abbrev pub max_message : ℕ
max_message = 1 * 1024 * 1024

-- How the reading of a fixed number of bytes ends. Fuel is the model's own.
pub data Reading : Type 0 where
  full read_timeout read_error end_of_file out_of_fuel : Reading

module _ (n : Net) where
  unfoldable pub after_write :
      (Text → n.World → Bool × n.World) → Text → WriteResult × n.World → Bool × n.World
  after_write more pending (wrote zero, w) = (false, w)
  after_write more pending (wrote (suc k), w) = more (drop (suc k) pending) w
  after_write more pending (WriteResult.timed_out, w) = (false, w)
  after_write more pending (WriteResult.failed, w) = (false, w)

  -- `while (totalWritten < size)`, over what is left of the buffer.
  unfoldable pub write_all : ℕ → ℤ → Text → n.World → Bool × n.World
  unfolding after_write
  write_all fuel fd [] w = (true, w)
  write_all zero fd (b ∷ bytes) w = (false, w)
  write_all (suc fuel) fd (b ∷ bytes) w =
      after_write (write_all fuel fd) (b ∷ bytes) (n.write fd (b ∷ bytes) w)

  unfoldable pub after_header : ℤ → Text → Bool × n.World → Bool × n.World
  unfolding write_all
  after_header fd payload (false, w) = (false, w)
  after_header fd payload (true, w) = write_all (length payload) fd payload w

  unfoldable pub send : Client → Text → n.World → Bool × n.World
  unfolding after_header
  send c message w =
      if is_negative c.socket_fd
      then (false, w)
      else after_header c.socket_fd (take (u32_size message) message)
          (write_all 4 c.socket_fd (htonl (u32_size message)) w)

  -- `disconnectLocked`
  unfoldable pub disconnect : Client → n.World → Client × n.World
  disconnect c w = if is_negative c.socket_fd then (c, w) else (disconnected, n.close c.socket_fd w)

  abbrev pub Partial : Type 0
  Partial = Reading × Text × n.World

  unfoldable pub after_read : Text → (Text → n.World → Partial) → ReadResult × n.World → Partial
  after_read have more (got [], w) = (end_of_file, have, w)
  after_read have more (got (b ∷ bytes), w) = more (have ++ (b ∷ bytes)) w
  after_read have more (ReadResult.timed_out, w) = (read_timeout, have, w)
  after_read have more (ReadResult.failed, w) = (read_error, have, w)

  -- `while (totalRead < size)`, with the bytes that are there.
  unfoldable pub read_exact : ℕ → ℤ → ℕ → Text → n.World → Partial
  unfolding after_read
  read_exact zero fd size have w =
      if ltb (length have) size then (out_of_fuel, have, w) else (full, have, w)
  read_exact (suc fuel) fd size have w =
      let round = after_read have (read_exact fuel fd size) (n.read fd (size - length have) w) in
      if ltb (length have) size then round else (full, have, w)

  abbrev pub Received : Type 0
  Received = Option Text × Client × n.World

  -- `disconnectOnError` and `return false`
  unfoldable pub fail_with : Client → n.World → Received
  unfolding disconnect
  fail_with c w = let (c', w') = disconnect c w in (none, c', w')

  unfoldable pub after_body : Client → Partial → Received
  unfolding fail_with
  after_body c (full, body, w) = (some body, c, w)
  after_body c (read_timeout, body, w) = fail_with c w
  after_body c (read_error, body, w) = fail_with c w
  after_body c (end_of_file, body, w) = fail_with c w
  after_body c (out_of_fuel, body, w) = (none, c, w)

  unfoldable pub read_body : Client → ℕ → n.World → Received
  unfolding after_body read_exact
  read_body c len w =
      if len == 0 || ltb max_message len
      then (none, c, w)
      else after_body c (read_exact len c.socket_fd len [] w)

  unfoldable pub after_length : Client → Partial → Received
  unfolding read_body fail_with
  after_length c (full, header, w) = read_body c (ntohl header) w
  after_length c (read_timeout, header, w) = (none, c, w)
  after_length c (read_error, header, w) = fail_with c w
  after_length c (end_of_file, header, w) = fail_with c w
  after_length c (out_of_fuel, header, w) = (none, c, w)

  -- `receive`: `none` is the result false.
  unfoldable pub receive : Client → n.World → Received
  unfolding after_length read_exact
  receive c w =
      if is_negative c.socket_fd
      then (none, c, w)
      else after_length c (read_exact 4 c.socket_fd 4 [] w)

  unfoldable pub after_connect : ℤ → Bool × n.World → Bool × Client × n.World
  after_connect fd (false, w) = (false, disconnected, n.close fd w)
  after_connect fd (true, w) = (true, record { socket_fd = fd }, n.set_timeouts fd 3 false w)

  unfoldable pub after_socket : Address → ℤ × n.World → Bool × Client × n.World
  unfolding after_connect
  after_socket address (negsuc k, w) = (false, record { socket_fd = negsuc k }, w)
  after_socket address (pos k, w) = after_connect (pos k) (n.connect (pos k) address w)

  -- `sun_path` holds 107 bytes and a zero.
  abbrev pub sun_path : Text → Text
  sun_path path = take 107 path

  unfoldable pub open_at : ℤ → Text → n.World → Bool × Client × n.World
  unfolding after_socket
  open_at (negsuc k) path w = after_socket (local (sun_path path)) (n.socket unix w)
  open_at (pos zero) path w = after_socket (local (sun_path path)) (n.socket unix w)
  open_at (pos (suc p)) path w = after_socket (loopback (suc p)) (n.socket inet w)

  -- `connect`; the first argument is the environment variable IPC_TCP_PORT.
  unfoldable pub connect : Option Text → Client → Text → n.World → Bool × Client × n.World
  unfolding open_at disconnect
  connect env c path w = let (c', w') = disconnect c w in open_at (get_ipc_tcp_port env) path w'

  unfoldable pub is_connected : Client → Bool
  is_connected c = if is_negative c.socket_fd then false else true
