-- ===== src/Daemon/Thread.antt =====
-- What the thread that serves the coordinator does to the disk.
use action_learning_p2p_vers.Prelude.{
  ℕ, zero, suc, ◌≡◌, refl, ◌∙◌, Bool, true, false, Option, none, some, if◌then◌else◌,
}
use action_learning_p2p_vers.Prelude.Text.{Text}
use action_learning_p2p_vers.Disk.Io.{Disk}
use action_learning_p2p_vers.Disk.Frame.{file_at}
use action_learning_p2p_vers.Ipc.Interface.{IpcClient}
use action_learning_p2p_vers.Daemon.Requests.{Json, handle_raw, after_parse}
use action_learning_p2p_vers.Daemon.Serve.{Spares, handle_ipc_message-others}
use action_learning_p2p_vers.Daemon.Main.{
  Control, if_down, unless_down, Next, again, leaves, Thread, after_receive, after_test,
  receive_round, follow, receive_loop, after_connect, serve_round, ipc_thread,
}

-- What comes in holds no message that asks this repository to delete `q`: `Quiet` says so of the state
-- of the system, which no call of the threads makes otherwise, and of a message that `receive` returns
-- in such a state it is known.
pub record IsQuiet (j : Json) {World : Type 0} (client : IpcClient World) (control : Control World)
    (my_repo_id watch_path q : Text) : Type 1 where
  pub Quiet : World → Type 0
  pub Quiet-receive : (c : client.State) (w : World) → Quiet w → Quiet (client.receive c w).2
  pub Spares-receive :
      (c : client.State) (w : World) (raw : Text) (msg : j.Value)
      → Quiet w
      → (client.receive c w).0 ≡ some raw
      → j.parse raw ≡ some msg
      → Spares j my_repo_id watch_path q msg
  pub Quiet-connect :
      (c : client.State) (path : Text) (w : World) → Quiet w → Quiet (client.connect c path w).2
  pub Quiet-shut_down : (w : World) → Quiet w → Quiet (control.shut_down w).1
  pub Quiet-set_shut_down : (w : World) → Quiet w → Quiet (control.set_shut_down w)
  pub Quiet-sleep : (ms : ℕ) (w : World) → Quiet w → Quiet (control.sleep ms w)

module _ (j : Json) {World : Type 0} (client : IpcClient World) (control : Control World)
    (my_repo_id watch_path ipc_socket q : Text)
    (calm : IsQuiet j client control my_repo_id watch_path q) (d0 : Disk) where
  open calm use {Quiet, Quiet-receive, Spares-receive, Quiet-connect, Quiet-shut_down, Quiet-sleep}

  abbrev State : Type 0
  State = client.State

  abbrev Here : Type 0
  Here = Thread j client control my_repo_id watch_path ipc_socket

  -- The file at `q` is as it was, and nothing has come that asks to delete it.
  abbrev Same : Disk → Type 0
  Same d = file_at q d ≡ file_at q d0

  abbrev Fine : Here → Type 0
  Fine (c, d, w) = Same d × Quiet w

  abbrev After : Next Here → Type 0
  After (again s) = Fine s
  After (leaves s) = Fine s

  after_parse-Same :
      (o : Option j.Value) (d : Disk)
      → ((msg : j.Value) → o ≡ some msg → Spares j my_repo_id watch_path q msg)
      → Same d
      → Same (after_parse j my_repo_id watch_path o d).1
  unfolding after_parse
  after_parse-Same none d spares h = h
  after_parse-Same (some msg) d spares h =
      handle_ipc_message-others j my_repo_id watch_path q msg d (spares msg refl) ∙ h

  handle_raw-Same :
      (raw : Text) (d : Disk)
      → ((msg : j.Value) → j.parse raw ≡ some msg → Spares j my_repo_id watch_path q msg)
      → Same d
      → Same (handle_raw j raw my_repo_id watch_path d).1
  unfolding handle_raw
  handle_raw-Same raw d spares h = after_parse-Same (j.parse raw) d spares h

  if_down-After :
      (d : Disk) (c : State) (w : World) (r : Bool × World)
      → Same d
      → Quiet r.1
      → After (if_down j client control my_repo_id watch_path ipc_socket (c, d, w) r)
  if_down-After d c w (true, w') h quiet = (h, quiet)
  if_down-After d c w (false, w') h quiet = (h, Quiet-sleep 100 w' quiet)

  after_receive-After :
      (d : Disk) (r : Option Text × State × World)
      → ((raw : Text) (msg : j.Value)
          → r.0 ≡ some raw
          → j.parse raw ≡ some msg
          → Spares j my_repo_id watch_path q msg)
      → Same d
      → Quiet r.2
      → After (after_receive j client control my_repo_id watch_path ipc_socket d r)
  unfolding after_receive
  after_receive-After d (none, c, w) spares h quiet =
      if_down-After d c w (control.shut_down w) h (Quiet-shut_down w quiet)
  after_receive-After d (some raw, c, w) spares h quiet =
      (handle_raw-Same raw d (λ msg. spares raw msg refl) h, quiet)

  after_test-After :
      (c : State) (d : Disk) (w : World) (r : Bool × World)
      → Same d
      → Quiet r.1
      → After (after_test j client control my_repo_id watch_path ipc_socket (c, d, w) r)
  unfolding after_test
  after_test-After c d w (true, w') h quiet = (h, quiet)
  after_test-After c d w (false, w') h quiet =
      after_receive-After d (client.receive c w') (λ raw msg. Spares-receive c w' raw msg quiet) h
        (Quiet-receive c w' quiet)

  After-if : (b : Bool) (x y : Next Here) → After x → After y → After (if b then x else y)
  After-if true x y hx hy = hx
  After-if false x y hx hy = hy

  Fine-if : (b : Bool) (x y : Here) → Fine x → Fine y → Fine (if b then x else y)
  Fine-if true x y hx hy = hx
  Fine-if false x y hx hy = hy

  follow-Fine :
      (more : Here → Here) (n : Next Here)
      → ((s : Here) → Fine s → Fine (more s))
      → After n
      → Fine (follow j client control my_repo_id watch_path ipc_socket more n)
  unfolding follow
  follow-Fine more (again s) keep h = keep s h
  follow-Fine more (leaves s) keep h = h

  receive_loop-Fine :
      (rounds : ℕ) (s : Here)
      → Fine s
      → Fine (receive_loop j client control my_repo_id watch_path ipc_socket rounds s)
  unfolding receive_loop receive_round
  receive_loop-Fine zero s h = h
  receive_loop-Fine (suc rounds) (c, d, w) (h, quiet) = follow-Fine _ _ (receive_loop-Fine rounds) (
      After-if (client.is_connected c) _ (leaves (c, d, w))
        (after_test-After c d w (control.shut_down w) h (Quiet-shut_down w quiet)) (h, quiet))

  after_connect-Fine :
      (rounds : ℕ) (d : Disk) (r : Bool × State × World)
      → Same d
      → Quiet r.2
      → Fine (after_connect j client control my_repo_id watch_path ipc_socket rounds d r)
  unfolding after_connect
  after_connect-Fine rounds d (false, c, w) h quiet = (h, Quiet-sleep 2000 w quiet)
  after_connect-Fine rounds d (true, c, w) h quiet = receive_loop-Fine rounds (c, d, w) (h, quiet)

  serve_round-Fine :
      (rounds : ℕ) (s : Here)
      → Fine s
      → Fine (serve_round j client control my_repo_id watch_path ipc_socket rounds s)
  unfolding serve_round
  serve_round-Fine rounds (c, d, w) (h, quiet) =
      Fine-if (client.is_connected c) _ _ (receive_loop-Fine rounds (c, d, w) (h, quiet)) (
        after_connect-Fine rounds d (client.connect c ipc_socket w) h
          (Quiet-connect c ipc_socket w quiet))

  unless_down-Fine :
      (more : Here → Here) (c : State) (d : Disk) (w : World) (r : Bool × World)
      → ((s : Here) → Fine s → Fine (more s))
      → Same d
      → Quiet r.1
      → Fine (unless_down j client control my_repo_id watch_path ipc_socket more (c, d, w) r)
  unless_down-Fine more c d w (true, w') keep h quiet = (h, quiet)
  unless_down-Fine more c d w (false, w') keep h quiet = keep (c, d, w') (h, quiet)

  thread_Fine :
      (n rounds : ℕ) (s : Here)
      → Fine s
      → Fine (ipc_thread j client control my_repo_id watch_path ipc_socket n rounds s)
  unfolding ipc_thread
  thread_Fine zero rounds s h = h
  thread_Fine (suc n) rounds (c, d, w) (h, quiet) =
      let round : Here → Here =
        serve_round j client control my_repo_id watch_path ipc_socket rounds in
      unless_down-Fine
        (λ s. ipc_thread j client control my_repo_id watch_path ipc_socket n rounds (round s)) c d w
        (control.shut_down w)
        (λ s fine. thread_Fine n rounds (round s) (serve_round-Fine rounds s fine)) h
        (Quiet-shut_down w quiet)

-- The thread that serves the coordinator, over either client, for as many rounds as it runs, whatever
-- messages come and whatever calls fail or time out, leaves the regular file at a path as it is, where
-- no message that it receives asks this repository to delete it.
pub ipc_thread-others :
    {World : Type 0} (j : Json) (client : IpcClient World) (control : Control World)
    (my_repo_id watch_path ipc_socket q : Text)
    (calm : IsQuiet j client control my_repo_id watch_path q) (n rounds : ℕ) (c : client.State)
    (d : Disk) (w : World)
    → calm.Quiet w
    → file_at q (ipc_thread j client control my_repo_id watch_path ipc_socket n rounds (c, d, w)).1
      ≡ file_at q d
ipc_thread-others j client control my_repo_id watch_path ipc_socket q calm n rounds c d w quiet =
    (thread_Fine j client control my_repo_id watch_path ipc_socket q calm d n rounds (c, d, w)
      (refl, quiet)).0
