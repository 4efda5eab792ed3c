-- ===== src/Daemon/Main.antt =====
-- The threads of `main`: the one that serves the coordinator, and the main thread to its end.
use action_learning_p2p_vers.Prelude.{
  ℕ, zero, suc, Bool, true, false, Option, none, some, if◌then◌else◌,
}
use action_learning_p2p_vers.Prelude.Text.{Text}
use action_learning_p2p_vers.Disk.Io.{Disk}
use action_learning_p2p_vers.Ipc.Interface.{IpcClient}
use action_learning_p2p_vers.Daemon.Requests.{Json, handle_raw}

-- `g_shutdown`, which a signal may have set since it was last read, and `sleep_for` in milliseconds.
pub record Control (World : Type 0) : Type 0 where
  pub shut_down : World → Bool × World
  pub set_shut_down : World → World
  pub sleep : ℕ → World → World

-- A thread goes round its loop once more, or leaves it.
pub data Next (S : Type 0) : Type 0 where
  again leaves : S → Next S

-- `signal_handler`, without its message.
unfoldable pub signal_handler : {World : Type 0} → Control World → World → World
signal_handler control w = control.set_shut_down w

module _ (j : Json) {World : Type 0} (client : IpcClient World) (control : Control World)
    (my_repo_id watch_path ipc_socket : Text) where
  open client use {State, connect, receive, disconnect, is_connected}
  open control use {shut_down, set_shut_down, sleep}

  -- What the thread has in its hands: the client, the disk and the rest of the system.
  abbrev pub Thread : Type 0
  Thread = State × Disk × World

  abbrev pub if_down : Thread → Bool × World → Next Thread
  if_down (c, d, w) (true, w') = leaves (c, d, w')
  if_down (c, d, w) (false, w') = again (c, d, sleep 100 w')

  -- A message is parsed and handled; without one the thread pauses, or breaks where it is to end.
  unfoldable pub after_receive : Disk → Option Text × State × World → Next Thread
  unfolding handle_raw
  after_receive d (none, c, w) = if_down (c, d, w) (shut_down w)
  after_receive d (some raw, c, w) =
      let (served, d') = handle_raw j raw my_repo_id watch_path d in again (c, d', w)

  -- The body of `while (isConnected() && !g_shutdown)` with its test.
  unfoldable pub after_test : Thread → Bool × World → Next Thread
  unfolding after_receive
  after_test (c, d, w) (true, w') = leaves (c, d, w')
  after_test (c, d, w) (false, w') = after_receive d (receive c w')

  unfoldable pub receive_round : Thread → Next Thread
  unfolding after_test
  receive_round (c, d, w) =
      let next = after_test (c, d, w) (shut_down w) in
      if is_connected c then next else leaves (c, d, w)

  unfoldable pub follow : (Thread → Thread) → Next Thread → Thread
  follow more (again s) = more s
  follow more (leaves s) = s

  -- The inner loop, for as many rounds as it is given.
  unfoldable pub receive_loop : ℕ → Thread → Thread
  unfolding follow receive_round
  receive_loop zero s = s
  receive_loop (suc rounds) s = follow (receive_loop rounds) (receive_round s)

  unfoldable pub after_connect : ℕ → Disk → Bool × State × World → Thread
  unfolding receive_loop
  after_connect rounds d (false, c, w) = (c, d, sleep 2000 w)
  after_connect rounds d (true, c, w) = receive_loop rounds (c, d, w)

  -- The body of `while (!g_shutdown)`.
  unfoldable pub serve_round : ℕ → Thread → Thread
  unfolding after_connect
  serve_round rounds (c, d, w) =
      let stay = receive_loop rounds (c, d, w) in
      let join = after_connect rounds d (connect c ipc_socket w) in
      if is_connected c then stay else join

  abbrev pub unless_down : (Thread → Thread) → Thread → Bool × World → Thread
  unless_down more (c, d, w) (true, w') = (c, d, w')
  unless_down more (c, d, w) (false, w') = more (c, d, w')

  -- `ipc_thread`, for a number of rounds of each of its loops.
  unfoldable pub ipc_thread : ℕ → ℕ → Thread → Thread
  unfolding serve_round
  ipc_thread zero rounds s = s
  ipc_thread (suc n) rounds (c, d, w) =
      unless_down (λ s. ipc_thread n rounds (serve_round rounds s)) (c, d, w) (shut_down w)

  -- `while (!g_shutdown)` of the main thread.
  unfoldable pub wait_loop : ℕ → World → World
  wait_loop zero w = w
  wait_loop (suc n) w =
      let (down, w') = shut_down w in
      let later = wait_loop n (sleep 200 w') in if down then w' else later

  -- The end of `main`, with the watcher's `start` and `stop`, and with what the thread leaves where
  -- it is joined; 0 is its result.
  unfoldable pub main_end :
      ℕ → (World → Bool × World) → (World → World) → (World → Thread) → World → ℕ × Thread
  unfolding wait_loop
  main_end rounds start stop join w =
      let (ok, w1) = start w in
      let w2 = if ok then w1 else set_shut_down w1 in
      let (c, d, w3) = join (stop (wait_loop rounds w2)) in
      let (c', w4) = disconnect c w3 in (0, (c', d, w4))
