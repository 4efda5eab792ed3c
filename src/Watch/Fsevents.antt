-- ===== src/Watch/Fsevents.antt =====
-- `FSEventsWatcher` of fsevents_watcher.cpp: the callback, and the thread beside `start` and `stop`.
use action_learning_p2p_vers.Prelude.{
  ℕ, suc, ◌/◌, ◌%◌, Bool, true, false, ◌||◌, List, [], ◌∷◌, ◌++◌, Option, none, some, ◌==◌,
  if◌then◌else◌,
}
use action_learning_p2p_vers.Prelude.Text.{Text}
use action_learning_p2p_vers.Watch.Events.{
  WatchEvent, WatchEventType, created, modified, deleted, moved,
}
use action_learning_p2p_vers.Watch.Inotify.{strip}

abbrev pub item_created : ℕ
item_created = 0x100

abbrev pub item_removed : ℕ
item_removed = 0x200

abbrev pub item_renamed : ℕ
item_renamed = 0x800

abbrev pub item_modified : ℕ
item_modified = 0x1000

abbrev pub has_flag : ℕ → ℕ → Bool
has_flag flags flag = flags / flag % 2 == 1

-- What stands behind the watched path and one more character.
abbrev pub behind : Text → Option Text → Text
behind path none = path
behind path (some []) = []
behind path (some (c ∷ [])) = []
behind path (some (c ∷ d ∷ rel)) = d ∷ rel

unfoldable pub trimmed : Text → Text → Text
unfolding strip
trimmed watch_path path = behind path (strip watch_path path)

abbrev pub event : WatchEventType → Text → WatchEvent
event t p = record { type = t; path = p; new_path = [] }

abbrev pub report : Bool → WatchEventType → Text → List WatchEvent
report b t p = if b then event t p ∷ [] else []

-- `callback`, on the paths and flags of a batch of events.
unfoldable pub callback : Text → List (Text × ℕ) → List WatchEvent
unfolding trimmed
callback watch_path [] = []
callback watch_path ((path, flags) ∷ events) =
    let p = trimmed watch_path path in
    report (has_flag flags item_created) created p
    ++ report (has_flag flags item_modified) modified p
    ++ report (has_flag flags item_removed) deleted p
    ++ report (has_flag flags item_renamed) moved p
    ++ callback watch_path events

-- Where the thread is: before `FSEventStreamCreate`; before it takes the mutex, with a stream or
-- without; before it sets the queue and starts the stream; before it makes the semaphore; in
-- `dispatch_semaphore_wait`; at its end.
pub data Pc : Type 0 where
  creating starting making_sem waiting finished : Pc
  publishing : Bool → Pc

-- Where `stop` is: not called; before it takes the mutex; before it looks at `sem_`; in `join`; at its
-- end.
pub data StopPc : Type 0 where
  not_called closing signalling joining returned : StopPc

-- `running_`, whether `stream_` is set, the count of `sem_`, and the streams that have been released,
-- and used after that.
pub record State : Type 0 where
  pub running : Bool
  pub stream : Bool
  pub sem : Option ℕ
  pub released : Bool
  pub misused : Bool
  pub thread : Pc
  pub stopper : StopPc

-- `createWatcher` on macOS: no thread has run.
unfoldable pub create_watcher : State
create_watcher = record {
  running = false;
  stream = false;
  sem = none;
  released = false;
  misused = false;
  thread = finished;
  stopper = not_called;
}

-- `start` of a watcher that runs does nothing; the other sets the flag and makes the thread. `sem_`
-- stays as an earlier run has left it.
unfoldable pub start : State → Bool × State
start s = if s.running then (false, s) else (
  true,
  record s { running = true; released = false; thread = creating; stopper = not_called },
)

-- A watcher that has just been started.
unfoldable pub started : State
unfolding start create_watcher
started = (start create_watcher).1

abbrev pub after_publish : Bool → State → State
after_publish true s =
    if s.running
    then record s { stream = true; thread = starting }
    else record s { released = true; thread = finished }
after_publish false s = record s { thread = finished }

abbrev pub after_wait : Option ℕ → State → State
after_wait (some (suc k)) s = record s { sem = some k; thread = finished }
after_wait _ s = s

-- The thread goes on by a step of `run`. The flag is whether `FSEventStreamCreate` makes a stream.
unfoldable pub run_at : Pc → Bool → State → State
run_at creating made s = record s { thread = publishing made }
run_at (publishing made) _ s = after_publish made s
run_at starting _ s = record s { misused = s.misused || s.released; thread = making_sem }
run_at making_sem _ s = record s { sem = some 0; thread = waiting }
run_at waiting _ s = after_wait s.sem s
run_at finished _ s = s

abbrev pub signalled : Option ℕ → Option ℕ
signalled none = none
signalled (some k) = some (suc k)

abbrev pub join_at : Pc → State → State
join_at finished s = record s { stopper = returned }
join_at _ s = s

-- `stop` goes on by a step.
unfoldable pub stop_at : StopPc → State → State
stop_at not_called s = record s {
  running = false;
  stopper = if s.running then closing else returned;
}
stop_at closing s = record s {
  released = s.released || s.stream;
  stream = false;
  stopper = signalling;
}
stop_at signalling s = record s { sem = signalled s.sem; stopper = joining }
stop_at joining s = join_at s.thread s
stop_at returned s = s

pub data Move : Type 0 where
  runs : Bool → Move
  stops : Move

unfoldable pub move : State → Move → State
unfolding run_at stop_at
move s (runs made) = run_at s.thread made s
move s stops = stop_at s.stopper s

unfoldable pub moves : State → List Move → State
unfolding move
moves s [] = s
moves s (m ∷ ms) = moves (move s m) ms

-- `stop` before it waits for the thread.
unfoldable pub stop : State → State
unfolding moves
stop s = moves (record s { stopper = not_called }) (stops ∷ stops ∷ stops ∷ [])
