-- ===== src/Daemon/Start.antt =====
-- `main` from its arguments to its result.
use action_learning_p2p_vers.Prelude.{
  ℕ, zero, suc, true, false, if◌then◌else◌, ◌≡◌, refl, ◌∙◌, Bool, List, [], ◌∷◌, ◌++◌, Option, none,
  some,
}
use action_learning_p2p_vers.Prelude.Text.{Text, codes}
use action_learning_p2p_vers.Disk.Io.{Disk, Result, ok, threw}
use action_learning_p2p_vers.Disk.Ops.{exists, is_directory}
use action_learning_p2p_vers.Disk.Keeps.{
  Keeps, Keeps-bind, Keeps-if, Keeps-exists, Keeps-is_directory,
}
use action_learning_p2p_vers.Ipc.Interface.{IpcClient, Target, win32, posix}
use action_learning_p2p_vers.Daemon.Options.{Options, read_options, check_directory, start_options}
use action_learning_p2p_vers.Daemon.Requests.{Json}
use action_learning_p2p_vers.Disk.Frame.{file_at}
use action_learning_p2p_vers.Daemon.Thread.{IsQuiet, ipc_thread-others}
use action_learning_p2p_vers.Daemon.Main.{Control, ipc_thread, wait_loop, main_end}

abbrev newline : Text
newline = 10 ∷ []

-- `print_usage`
unfoldable pub usage : Text → Text
usage program_name =
    codes "Usage: "
    ++ program_name
    ++ codes " <repo_id> <watch_path> [ipc_socket_path] [--poll-interval <ms>]"
    ++ newline
    ++ codes "Example: "
    ++ program_name
    ++ codes " project-alpha /path/to/watch /tmp/p2p_sync.sock --poll-interval 500"
    ++ newline

pub data Signal : Type 0 where
  sigint sigterm sigpipe : Signal

-- What a signal does: it runs `signal_handler`, or nothing, or what the system does by itself.
pub data Disposition : Type 0 where
  handled ignored by_default : Disposition

-- The calls of `std::signal`.
unfoldable pub disposition : Target → Signal → Disposition
disposition target sigint = handled
disposition target sigterm = handled
disposition posix sigpipe = ignored
disposition win32 sigpipe = by_default

-- How the process ends: with a result, or by an exception that nobody catches.
pub data Exit (S : Type 0) : Type 0 where
  exits : ℕ → S → Exit S
  terminates : S → Exit S

module _ (j : Json) {World : Type 0} (client : IpcClient World) (control : Control World)
    (start : Options → World → Bool × World) (stop : Options → World → World)
    (waits turns rounds : ℕ) where
  -- What the process has in its hands where it ends.
  abbrev pub Process : Type 0
  Process = client.State × Disk × World

  -- From `create` on. The thread that serves the coordinator is taken to run where it is joined;
  -- `start` and `stop` are those of the watcher that `createWatcher` makes of the options.
  unfoldable pub run_daemon : Options → Disk → World → ℕ × Process
  unfolding ipc_thread main_end
  run_daemon o d w =
      main_end j client control o.repo_id o.watch_path o.ipc_socket waits (start o) (stop o)
        (λ w'.
          ipc_thread j client control o.repo_id o.watch_path o.ipc_socket turns rounds
            (client.initial, d, w'))
        w

  abbrev with_result : ℕ × Process → Exit Process
  with_result (result, p) = exits result p

  unfoldable pub after_options : World → Result (Option Options) × Disk → Exit Process
  unfolding run_daemon
  after_options w (threw, d) = terminates (client.initial, d, w)
  after_options w (ok none, d) = exits 1 (client.initial, d, w)
  after_options w (ok (some o), d) = with_result (run_daemon o d w)

  -- `main`; the first argument is the environment variable IPC_SOCKET.
  unfoldable pub main : Option Text → List Text → Disk → World → Exit Process
  unfolding after_options start_options
  main env args d w = after_options w (start_options env args d)

abbrev pub disk_of : {S W : Type 0} → Exit (S × Disk × W) → Disk
disk_of (exits k (c, d, w)) = d
disk_of (terminates (c, d, w)) = d

module _ (j : Json) {World : Type 0} (client : IpcClient World) (control : Control World)
    (start : Options → World → Bool × World) (stop : Options → World → World) (q : Text) where
  -- No message that comes in asks this repository to delete `q`, and the watcher does not change that.
  pub record IsSpared (o : Options) (w : World) : Type 1 where
    pub calm : IsQuiet j client control o.repo_id o.watch_path q
    pub Quiet-start : (w : World) → calm.Quiet w → calm.Quiet (start o w).1
    pub Quiet-stop : (w : World) → calm.Quiet w → calm.Quiet (stop o w)
    pub Quiet-here : calm.Quiet w

  module _ (waits turns rounds : ℕ) where
    wait_loop-Quiet :
        (o : Options) (calm : IsQuiet j client control o.repo_id o.watch_path q) (n : ℕ) (w : World)
        → calm.Quiet w
        → calm.Quiet (wait_loop j client control o.repo_id o.watch_path o.ipc_socket n w)
    unfolding wait_loop
    wait_loop-Quiet o calm zero w quiet = quiet
    wait_loop-Quiet o calm (suc n) w quiet =
        let (down, w') = control.shut_down w in
        let quiet' = calm.Quiet-shut_down w quiet in
        Quiet-if down w' _ quiet'
          (wait_loop-Quiet o calm n (control.sleep 200 w') (calm.Quiet-sleep 200 w' quiet'))
      where
        Quiet-if :
            (b : Bool) (x y : World) → calm.Quiet x → calm.Quiet y → calm.Quiet (if b then x else y)
        Quiet-if true x y hx hy = hx
        Quiet-if false x y hx hy = hy

    run_daemon-others :
        (o : Options) (d : Disk) (w : World)
        → IsSpared o w
        → file_at q (run_daemon j client control start stop waits turns rounds o d w).1.1
          ≡ file_at q d
    unfolding run_daemon main_end
    run_daemon-others o d w spared =
        ipc_thread-others j client control o.repo_id o.watch_path o.ipc_socket q spared.calm turns
          rounds client.initial d _
          (spared.Quiet-stop _ (
            wait_loop-Quiet o spared.calm waits _
              (started (start o w) (spared.Quiet-start w spared.Quiet-here))))
      where
        started :
            (r : Bool × World)
            → spared.calm.Quiet r.1
            → spared.calm.Quiet (if r.0 then r.1 else control.set_shut_down r.1)
        started (true, w1) quiet = quiet
        started (false, w1) quiet = spared.calm.Quiet-set_shut_down w1 quiet

    after_options-others :
        (d : Disk) (w : World) (r : Result (Option Options) × Disk)
        → ((o : Options) → r.0 ≡ ok (some o) → IsSpared o w)
        → file_at q r.1 ≡ file_at q d
        → file_at q (disk_of (after_options j client control start stop waits turns rounds w r))
          ≡ file_at q d
    unfolding after_options
    after_options-others d w (threw, d1) spared same = same
    after_options-others d w (ok none, d1) spared same = same
    after_options-others d w (ok (some o), d1) spared same =
        run_daemon-others o d1 w (spared o refl) ∙ same

check_directory-Keeps : (q : Text) (r : Option Options) → Keeps q (check_directory r)
unfolding check_directory
check_directory-Keeps q none = λ d. refl
check_directory-Keeps q (some o) =
    Keeps-bind q (exists o.watch_path) _ (Keeps-exists q o.watch_path) λ there.
      Keeps-if q there _ _
        (Keeps-bind q (is_directory o.watch_path) _ (Keeps-is_directory q o.watch_path)
          (λ folder d. refl))
        (λ d. refl)

-- From its arguments to its end, whatever the arguments are, over either client and whatever watcher,
-- and whatever messages come and whatever calls fail: `main` leaves the regular file at a path as it
-- is, where no message that it receives asks the repository of the arguments to delete it. This is of
-- the threads of `main` itself, not of the transfers that a message starts.
pub main-others :
    {World : Type 0} (j : Json) (client : IpcClient World) (control : Control World)
    (start : Options → World → Bool × World) (stop : Options → World → World)
    (waits turns rounds : ℕ) (q : Text) (env : Option Text) (args : List Text) (d : Disk)
    (w : World)
    → ((o : Options)
        → (start_options env args d).0 ≡ ok (some o)
        → IsSpared j client control start stop q o w)
    → file_at q (disk_of (main j client control start stop waits turns rounds env args d w))
      ≡ file_at q d
unfolding main start_options
main-others j client control start stop waits turns rounds q env args d w spared =
    after_options-others j client control start stop q waits turns rounds d w
      (start_options env args d) spared (check_directory-Keeps q (read_options env args) d)
