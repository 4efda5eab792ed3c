-- ===== src/Watch/Rounds.antt =====
-- `FileSystemWatcher`, the base of the watchers, and the loop of `PollingWatcher` over its rounds.
use action_learning_p2p_vers.Prelude.{ℕ, Bool, true, false, List, [], ◌∷◌, ◌++◌, if◌then◌else◌}
use action_learning_p2p_vers.Prelude.Text.{Text}
use action_learning_p2p_vers.Watch.Events.{WatchEvent}
use action_learning_p2p_vers.Watch.Polling.{Step, Known, scan, poll}

-- `watchPath_` and `running_`. The callback is the list of the events that a watcher makes; the
-- daemon always gives one.
pub record FileSystemWatcher : Type 0 where
  pub watch_path : Text
  pub running : Bool

-- The constructor of the base class.
unfoldable pub new : Text → FileSystemWatcher
new path = record { watch_path = path; running = false }

-- `stop` of the base class, which `PollingWatcher` keeps.
unfoldable pub stop : FileSystemWatcher → FileSystemWatcher
stop v = record v { running = false }

unfoldable pub is_running : FileSystemWatcher → Bool
is_running v = v.running

pub record PollingWatcher : Type 0 where
  pub base : FileSystemWatcher
  pub poll_interval : ℕ

-- `createWatcher` where the system has no watcher of its own.
unfoldable pub create_watcher : Text → ℕ → PollingWatcher
unfolding new
create_watcher path interval = record { base = new path; poll_interval = interval }

-- `start`, up to the thread that it makes; whether it made one.
unfoldable pub start : PollingWatcher → Bool × PollingWatcher
start v =
    if v.base.running
    then (false, v)
    else (true, record v { base = record v.base { running = true } })

-- What a round finds: no directory; an exception of `fs::exists`, which is outside the `try` and ends
-- the process; a directory that it goes through to the end or a failure; or
-- one in which it comes upon `running_` false after some entries, and returns.
pub data Round : Type 0 where
  absent exists_throws : Round
  scanned : List Step → Round
  interrupted : List Step → Round

-- `while (running_)`, over the rounds up to the one that finds `running_` false.
unfoldable pub watch_loop : List Round → Known → Known × List WatchEvent
unfolding poll scan
watch_loop [] known = (known, [])
watch_loop (absent ∷ rounds) known = watch_loop rounds known
watch_loop (exists_throws ∷ rounds) known = (known, [])
watch_loop (scanned steps ∷ rounds) known =
    let (known', events) = poll steps known in
    let (known'', later) = watch_loop rounds known' in (known'', events ++ later)
watch_loop (interrupted steps ∷ rounds) known =
    let (known', seen, events) = scan steps known [] in (known', events)
