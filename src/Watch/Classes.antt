-- ===== src/Watch/Classes.antt =====
-- `FileSystemWatcher` as filesystem_watcher.h declares it, the four classes that implement it, and
-- `createWatcher` on each system.
use action_learning_p2p_vers.Prelude.{ℕ, Bool}
use action_learning_p2p_vers.Prelude.Text.{Text}
use action_learning_p2p_vers.Watch.Inotify.{Inotify}
use action_learning_p2p_vers.Watch.Inotify as Ino
use action_learning_p2p_vers.Watch.InotifyLoop as InotifyLoop
use action_learning_p2p_vers.Watch.Changes.{WideChar}
use action_learning_p2p_vers.Watch.ChangesLoop.{System}
use action_learning_p2p_vers.Watch.ChangesLoop as ChangesLoop
use action_learning_p2p_vers.Watch.Fsevents as Fsevents
use action_learning_p2p_vers.Watch.Rounds as Rounds

-- What `createWatcher` makes of a path and an interval, and the operations, over what the object
-- holds and the state of the system. `start` goes up to the thread that it makes, and `stop` up to
-- the wait for that thread.
pub record WatcherClass : Type 1 where
  pub World : Type 0
  pub State : Type 0
  pub create_watcher : Text → ℕ → State
  pub start : State → World → Bool × State × World
  pub stop : State → World → State × World
  pub is_running : State → World → Bool

-- `InotifyWatcher`, for trees of a depth.
unfoldable pub inotify_watcher : Inotify → ℕ → WatcherClass
inotify_watcher sys depth = record {
  World = sys.World;
  State = Ino.Watcher;
  create_watcher = λ path interval. InotifyLoop.create_watcher path;
  start = InotifyLoop.start sys depth;
  stop = InotifyLoop.stop sys depth;
  is_running = λ v w. v.running;
}

abbrev with_watcher : {W : Type 0} → ChangesLoop.Watcher → Bool × W → Bool × ChangesLoop.Watcher × W
with_watcher v (ok, w) = (ok, v, w)

-- `ReadDirectoryChangesWatcher`, whose `running_` is in the state of the system.
unfoldable pub changes_watcher : System → WideChar → WatcherClass
changes_watcher sys wide = record {
  World = sys.World;
  State = ChangesLoop.Watcher;
  create_watcher = λ path interval. ChangesLoop.create_watcher path;
  start = λ v w. with_watcher v (ChangesLoop.start sys wide w);
  stop = λ v w. let (went_on, v', w') = ChangesLoop.stop sys wide v w in (v', w');
  is_running = λ v w. (sys.load w).0;
}

-- `FSEventsWatcher`
unfoldable pub fsevents_watcher : WatcherClass
fsevents_watcher = record {
  World = Unit {0};
  State = Fsevents.State;
  create_watcher = λ path interval. Fsevents.create_watcher;
  start = λ s w. let (ok, s') = Fsevents.start s in (ok, s', w);
  stop = λ s w. (Fsevents.stop s, w);
  is_running = λ s w. s.running;
}

-- `PollingWatcher`
unfoldable pub polling_watcher : WatcherClass
polling_watcher = record {
  World = Unit {0};
  State = Rounds.PollingWatcher;
  create_watcher = Rounds.create_watcher;
  start = λ v w. let (ok, v') = Rounds.start v in (ok, v', w);
  stop = λ v w. (record v { base = Rounds.stop v.base }, w);
  is_running = λ v w. Rounds.is_running v.base;
}

-- The system that the program is built for.
pub data Platform : Type 0 where
  linux apple windows other : Platform

-- Which class `createWatcher` makes an object of: the file of each system has its own, and the polling
-- one is left where there is none.
unfoldable pub watcher_for : Inotify → ℕ → System → WideChar → Platform → WatcherClass
unfolding inotify_watcher changes_watcher fsevents_watcher polling_watcher
watcher_for ino depth sys wide linux = inotify_watcher ino depth
watcher_for ino depth sys wide apple = fsevents_watcher
watcher_for ino depth sys wide windows = changes_watcher sys wide
watcher_for ino depth sys wide other = polling_watcher
