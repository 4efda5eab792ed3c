-- ===== src/Daemon/Options.antt =====
-- The command line of `main`, and its checks before the daemon starts.
use action_learning_p2p_vers.Prelude.{
  ℕ, zero, suc, ◌≡◌, refl, ap, ◌<◌, Bool, true, false, List, [], ◌∷◌, Option, none, some, arith,
  if◌then◌else◌, inl, inr, Bool-cases, All,
}
use action_learning_p2p_vers.Prelude.Int.{ℤ, pos, negsuc}
use action_learning_p2p_vers.Prelude.Text.{Text, text_eq, text_eq_refl, codes}
use action_learning_p2p_vers.Disk.Io.{Io, pure, ◌>>=◌}
use action_learning_p2p_vers.Disk.Ops.{exists, is_directory}
use action_learning_p2p_vers.Ipc.Port.{atoi, IsDigit, decimal, number, atoi-decimal}

pub record Options : Type 0 where
  pub repo_id : Text
  pub watch_path : Text
  pub ipc_socket : Text
  pub poll_interval_ms : ℕ

abbrev default_interval : ℕ
default_interval = 1000

-- `std::atoi`, and the default in place of what is not positive.
unfoldable pub poll_interval : ℤ → ℕ
poll_interval (negsuc k) = default_interval
poll_interval (pos zero) = default_interval
poll_interval (pos (suc k)) = suc k

abbrev poll_flag : Text
poll_flag = codes "--poll-interval"

-- `while (i < argc)`, on the arguments that are left. The flag without a value is taken for a socket.
unfoldable pub parse_rest : List Text → Text → ℕ → Text × ℕ
unfolding poll_interval
parse_rest [] socket interval = (socket, interval)
parse_rest (a ∷ []) socket interval = (a, interval)
parse_rest (a ∷ b ∷ rest) socket interval =
    let flagged = parse_rest rest socket (poll_interval (atoi b)) in
    let plain = parse_rest (b ∷ rest) a interval in if text_eq a poll_flag then flagged else plain

-- IPC_SOCKET, where it is set, goes before the command line.
abbrev or_env : Option Text → Text → Text
or_env none socket = socket
or_env (some s) socket = s

unfoldable pub options : Option Text → Text → Text → List Text → Options
unfolding parse_rest
options env repo watch rest =
    let (socket, interval) = parse_rest rest (codes "/tmp/p2p_sync.sock") default_interval in
    record {
      repo_id = repo;
      watch_path = watch;
      ipc_socket = or_env env socket;
      poll_interval_ms = interval;
    }

-- The arguments after the name of the program; `none` is the message on usage.
unfoldable pub read_options : Option Text → List Text → Option Options
unfolding options
read_options env [] = none
read_options env (repo ∷ []) = some (options env repo [] [])
read_options env (repo ∷ watch ∷ rest) = some (options env repo watch rest)

abbrev pub if_directory : Options → Bool → Option Options
if_directory o true = some o
if_directory o false = none

-- The checks of the directory that is to be watched.
unfoldable pub check_directory : Option Options → Io (Option Options)
check_directory none = pure none
check_directory (some o) = exists o.watch_path >>= λ there.
    if there then (is_directory o.watch_path >>= λ yes. pure (if_directory o yes)) else pure none

-- The daemon starts, or `main` returns 1.
unfoldable pub start_options : Option Text → List Text → Io (Option Options)
unfolding read_options check_directory
start_options env args = check_directory (read_options env args)

poll_interval_pos : (i : ℤ) → 0 < poll_interval i
unfolding poll_interval
poll_interval_pos (negsuc k) = omega arith
poll_interval_pos (pos zero) = omega arith
poll_interval_pos (pos (suc k)) = omega arith

parse_rest_pos :
    (args : List Text) (socket : Text) (interval : ℕ)
    → 0 < interval
    → 0 < (parse_rest args socket interval).1
unfolding parse_rest
parse_rest_pos [] socket interval lt = lt
parse_rest_pos (a ∷ []) socket interval lt = lt
parse_rest_pos (a ∷ b ∷ rest) socket interval lt = elim (Bool-cases (text_eq a poll_flag)) [
  | inl t ↦ rw t (parse_rest_pos rest socket (poll_interval (atoi b)) (poll_interval_pos (atoi b)))
  | inr t ↦ rw t (parse_rest_pos (b ∷ rest) a interval lt)
]

-- The interval is positive whatever the command line says.
pub read_options_interval :
    (env : Option Text) (args : List Text) (o : Options)
    → read_options env args ≡ some o
    → 0 < o.poll_interval_ms
unfolding read_options options
read_options_interval env [] o h = cc
read_options_interval env (repo ∷ []) o h =
    ground (arith, parse_rest_pos [] (codes "/tmp/p2p_sync.sock") default_interval (omega arith))
read_options_interval env (repo ∷ watch ∷ rest) o h =
    ground (arith, parse_rest_pos rest (codes "/tmp/p2p_sync.sock") default_interval (omega arith))

positive : (k : ℕ) → 0 < k → poll_interval (pos k) ≡ k
unfolding poll_interval
positive zero lt = absurd (omega arith)
positive (suc k) lt = refl

-- The command line that the usage message shows, with a socket that is not the flag and a positive
-- interval in decimal, is read as it says, where IPC_SOCKET is not set.
pub read_options-usage :
    (repo watch socket : Text) (x : ℕ) (ds : List ℕ)
    → text_eq socket poll_flag ≡ false
    → IsDigit x
    → All IsDigit ds
    → 0 < number 0 (x ∷ ds)
    → read_options none (repo ∷ watch ∷ socket ∷ poll_flag ∷ decimal (x ∷ ds) ∷ [])
      ≡ some (record {
        repo_id = repo;
        watch_path = watch;
        ipc_socket = socket;
        poll_interval_ms = number 0 (x ∷ ds);
      })
unfolding read_options options parse_rest
read_options-usage repo watch socket x ds other hx hds lt =
    rw (other, text_eq_refl poll_flag, atoi-decimal x ds hx hds)
      (ap
        (λ i. some (record {
          repo_id = repo;
          watch_path = watch;
          ipc_socket = socket;
          poll_interval_ms = i;
        }))
        (positive (number 0 (x ∷ ds)) lt))
