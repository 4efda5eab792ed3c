-- ===== src/Ipc/Ownership.antt =====
-- Which descriptors `connect` leaves the process with.
use action_learning_p2p_vers.Prelude.{
  ℕ, zero, suc, ◌≡◌, refl, ◌∙◌, Bool, true, false, not, ◌&&◌, Option, arith, inl, inr, Bool-cases,
  if◌then◌else◌,
}
use action_learning_p2p_vers.Prelude.Int.{ℤ, pos, negsuc, is_negative}
use action_learning_p2p_vers.Prelude.Text.{Text}
use action_learning_p2p_vers.Sockets.{
  Net, IsHolding, int_eq, int_eq→eq, Address, Domain, inet, unix, loopback, local,
}
use action_learning_p2p_vers.Ipc.Port.{get_ipc_tcp_port}
use action_learning_p2p_vers.Ipc.Client.{
  Client, disconnect, after_connect, after_socket, sun_path, open_at, connect, is_connected,
}

module _ (n : Net) (hs : IsHolding n) (g : ℤ) where
  open hs use {holds, socket_fresh, holds-socket, holds-close, holds-connect, holds-set_timeouts}

  -- The client is connected where the call says so, and the process holds what it held before and
  -- the descriptor of a connected client.
  abbrev Opened : n.World → Bool × Client × n.World → Type 0
  Opened w (b, c, w') =
      (b ≡ is_connected n c)
      × (holds w' g
          ≡ (if not (is_negative c.socket_fd) && int_eq g c.socket_fd then true else holds w g))

  after_connect-Opened :
      (k : ℕ) (w w1 : n.World) (r : Bool × n.World)
      → holds w (pos k) ≡ false
      → holds w1 g ≡ (if int_eq g (pos k) then true else holds w g)
      → holds r.1 g ≡ holds w1 g
      → Opened w (after_connect n (pos k) r)
  unfolding after_connect is_connected
  after_connect-Opened k w w1 (true, w2) fresh opened same =
      (refl, holds-set_timeouts (pos k) 3 false w2 g ∙ same ∙ opened)
  after_connect-Opened k w w1 (false, w2) fresh opened same = (
    refl,
    elim (Bool-cases (int_eq g (pos k))) [
      | inl t ↦ ground (arith, holds-close (pos k) w2 g, int_eq→eq g (pos k) t)
      | inr t ↦ ground (arith, holds-close (pos k) w2 g)
    ],
  )

  after_socket-Opened :
      (address : Address) (w : n.World) (r : ℤ × n.World)
      → (is_negative r.0 ≡ false → holds w r.0 ≡ false)
      → (holds r.1 g ≡ (if not (is_negative r.0) && int_eq g r.0 then true else holds w g))
      → Opened w (after_socket n address r)
  unfolding after_socket is_connected
  after_socket-Opened address w (negsuc k, w1) fresh opened = (refl, opened)
  after_socket-Opened address w (pos k, w1) fresh opened =
      after_connect-Opened k w w1 (n.connect (pos k) address w1) (fresh refl) opened
        (holds-connect (pos k) address w1 g)

  socket-Opened :
      (m : Domain) (address : Address) (w : n.World)
      → Opened w (after_socket n address (n.socket m w))
  socket-Opened m address w =
      after_socket-Opened address w (n.socket m w) (socket_fresh m w) (holds-socket m w g)

  open_at-Opened : (port : ℤ) (path : Text) (w : n.World) → Opened w (open_at n port path w)
  unfolding open_at
  open_at-Opened (negsuc k) path w = socket-Opened unix (local (sun_path n path)) w
  open_at-Opened (pos zero) path w = socket-Opened unix (local (sun_path n path)) w
  open_at-Opened (pos (suc p)) path w = socket-Opened inet (loopback (suc p)) w

  pub disconnect-holds :
      (c : Client) (w : n.World)
      → holds (disconnect n c w).1 g
        ≡ (if not (is_negative c.socket_fd) && int_eq g c.socket_fd then false else holds w g)
  unfolding disconnect
  disconnect-holds c w = elim (Bool-cases (is_negative c.socket_fd)) [
    | inl t ↦ rw t refl
    | inr t ↦ rw t (holds-close c.socket_fd w g)
  ]

  -- Whether `connect` succeeds or fails at any of its calls, its result is whether the client is
  -- connected, and of the descriptors the process has lost the one that the client had before, has
  -- gained the one of a client that is connected, and has kept every other.
  pub connect-holds :
      (env : Option Text) (c : Client) (path : Text) (w : n.World)
      → let (b, c', w') = connect n env c path w in
        (b ≡ is_connected n c')
        × (holds w' g ≡ (
            if not (is_negative c'.socket_fd) && int_eq g c'.socket_fd
            then true
            else if not (is_negative c.socket_fd) && int_eq g c.socket_fd
            then false
            else holds w g))
  unfolding connect
  connect-holds env c path w =
      let w1 = (disconnect n c w).1 in
      let (result, held) = open_at-Opened (get_ipc_tcp_port env) path w1 in
      (result, held ∙ ground (arith, disconnect-holds c w))
