-- ===== src/Watch/InotifyLoop.antt =====
-- The thread of `InotifyWatcher`, `start`, `stop` and `createWatcher` on Linux.
use action_learning_p2p_vers.Prelude.{
  ℕ, zero, suc, Bool, true, false, List, [], ◌++◌, Option, none, some, if◌then◌else◌, length,
}
use action_learning_p2p_vers.Prelude.Int.{ℤ, minus_one, is_negative}
use action_learning_p2p_vers.Prelude.Text.{Text}
use action_learning_p2p_vers.Watch.Events.{WatchEvent}
use action_learning_p2p_vers.Watch.Inotify.{
  PollResult, poll_error, poll_timeout, ready, Inotify, Watcher, Watched, add_watch_recursive,
  buffer_events, handle_buffer,
}

abbrev pub buf_len : ℕ
buf_len = 4096

-- The constructor; the base class keeps the path and the callback.
unfoldable pub create_watcher : Text → Watcher
create_watcher path = record {
  watch_path = path;
  running = false;
  inotify_fd = minus_one;
  wd_to_path = [];
}

module _ (sys : Inotify) (depth : ℕ) where
  open sys use {World, init, close, poll, read}

  unfoldable pub after_init : Watcher → ℤ × World → Bool × Watcher × World
  unfolding add_watch_recursive
  after_init v (fd, w) =
      if is_negative fd
      then (false, record v { inotify_fd = fd; running = false }, w)
      else (let (table, w') =
            add_watch_recursive sys depth fd v.watch_path v.watch_path (v.wd_to_path, w) in
          (true, record v { inotify_fd = fd; running = true; wd_to_path = table }, w'))

  -- `start`, up to the thread that it makes.
  unfoldable pub start : Watcher → World → Bool × Watcher × World
  unfolding after_init
  start v w = if v.running then (false, v, w) else after_init v (init w)

  -- `stop`, before it waits for the thread.
  unfoldable pub stop : Watcher → World → Watcher × World
  stop v w =
      if v.running
      then (if is_negative v.inotify_fd
          then (record v { running = false }, w)
          else (record v { running = false; inotify_fd = minus_one }, close v.inotify_fd w))
      else (v, w)

  module _ (fd : ℤ) (watch_path : Text) where
    -- `len <= 0` goes on to the next round.
    unfoldable pub after_read : Watched sys → Option Text → Watched sys × List WatchEvent
    unfolding buffer_events handle_buffer
    after_read s none = (s, [])
    after_read s (some bytes) =
        handle_buffer sys depth fd watch_path (buffer_events (length bytes) bytes) s

    -- A round of `while (running_)`; `none` is `break`.
    unfoldable pub after_poll :
        Watched sys → PollResult × World → Option (Watched sys × List WatchEvent)
    unfolding after_read
    after_poll (table, w) (poll_error, w1) = none
    after_poll (table, w) (poll_timeout, w1) = some ((table, w1), [])
    after_poll (table, w) (ready, w1) =
        let (bytes, w2) = read fd buf_len w1 in some (after_read (table, w2) bytes)

    unfoldable pub after_round :
        (Watched sys → Watched sys × List WatchEvent)
        → Watched sys
        → Option (Watched sys × List WatchEvent)
        → Watched sys × List WatchEvent
    after_round more s none = (s, [])
    after_round more s (some (s', reported)) =
        let (s'', later) = more s' in (s'', reported ++ later)

    -- `handleEvents`; the number is how often the loop finds `running_` true.
    unfoldable pub handle_events : ℕ → Watched sys → Watched sys × List WatchEvent
    unfolding after_round after_poll
    handle_events zero s = (s, [])
    handle_events (suc rounds) (table, w) =
        after_round (handle_events rounds) (table, w) (after_poll (table, w) (poll fd w))
