-- ===== src/Watch/ChangesLoop.antt =====
-- `ReadDirectoryChangesWatcher`: its thread, `start` and `stop`, and `createWatcher` on Windows.
use action_learning_p2p_vers.Prelude.{
  ℕ, zero, suc, ◌+◌, Bool, true, false, not, List, [], ◌∷◌, ◌++◌, Option, none, some, ltb,
  if◌then◌else◌, map, length,
}
use action_learning_p2p_vers.Prelude.Int.{ℤ, minus_one}
use action_learning_p2p_vers.Prelude.Text.{Text}
use action_learning_p2p_vers.Sockets.{int_eq}
use action_learning_p2p_vers.Watch.Events.{WatchEvent}
use action_learning_p2p_vers.Watch.Changes.{WideChar, notifies, report}

-- `WaitForSingleObject`
pub data WaitResult : Type 0 where
  signalled wait_timeout wait_failed : WaitResult

-- The calls of the system, and the atomic `running_`, which another thread may have changed since it
-- was last read. INVALID_HANDLE_VALUE is -1; a null event is `none`; `overlapped_result` is `none`
-- where it fails, or the bytes that are in the buffer.
pub record System : Type 1 where
  pub World : Type 0
  pub load : World → Bool × World
  pub store_false : World → World
  pub exchange : Bool → World → Bool × World
  pub create_file : List ℕ → World → ℤ × World
  pub create_event : World → Option ℤ × World
  pub read_changes : ℤ → ℤ → World → Bool × World
  pub wait : ℤ → World → WaitResult × World
  pub cancel : ℤ → World → World
  pub overlapped_result : ℤ → World → Option Text × World
  pub set_event : ℤ → World → World
  pub reset_event : ℤ → World → World
  pub close_handle : ℤ → World → World

-- The members `watchPath_`, `hDir_` and `overlapped_.hEvent`.
pub record Watcher : Type 0 where
  pub watch_path : Text
  pub h_dir : ℤ
  pub h_event : Option ℤ

unfoldable pub create_watcher : Text → Watcher
create_watcher path = record { watch_path = path; h_dir = minus_one; h_event = none }

-- A `char`, which is signed, as a `wchar_t`.
abbrev wide_char : ℕ → ℕ
wide_char c = if ltb c 128 then c else 65280 + c

-- `std::wstring(watchPath_.begin(), watchPath_.end())`
unfoldable pub widened : Text → List ℕ
widened = map wide_char

-- How a round of the loop ends.
pub data Round (World : Type 0) : Type 0 where
  breaks : World → Round World
  goes_on : List WatchEvent → World → Round World

module _ (sys : System) (wide : WideChar) where
  open sys use {
    World, load, store_false, exchange, create_file, create_event, read_changes, wait, cancel,
    overlapped_result, set_event, reset_event, close_handle,
  }

  unfoldable pub start : World → Bool × World
  start w = let (was, w') = exchange true w in (not was, w')

  -- The handle of the directory, under the mutex.
  unfoldable pub close_dir : Watcher → World → Watcher × World
  close_dir v w =
      if int_eq v.h_dir minus_one
      then (v, w)
      else (record v { h_dir = minus_one }, close_handle v.h_dir (cancel v.h_dir w))

  abbrev pub with_event : (ℤ → World → World) → Option ℤ → World → World
  with_event f none w = w
  with_event f (some event) w = f event w

  -- `stop` before it waits for the thread, and after.
  unfoldable pub stop : Watcher → World → Bool × Watcher × World
  unfolding close_dir
  stop v w =
      let (was, w1) = exchange false w in
      let (v', w2) = close_dir v w1 in
      if was then (true, v', with_event set_event v'.h_event w2) else (false, v, w1)

  unfoldable pub stopped : Watcher → World → Watcher × World
  stopped v w = (record v { h_event = none }, with_event close_handle v.h_event w)

  -- The directory: `none` where the thread returns.
  unfoldable pub open_dir : Watcher → World → Option ℤ × Watcher × World
  unfolding widened
  open_dir v w =
      let (h, w1) = create_file (widened v.watch_path) w in
      let (runs, w2) = load w1 in
      if int_eq h minus_one
      then (none, v, store_false w1)
      else if runs
      then (some h, record v { h_dir = h }, w2)
      else (none, v, close_handle h w2)

  -- The buffer of a read that is done.
  unfoldable pub after_result : ℤ → Option Text × World → Round World
  unfolding notifies report
  after_result event (none, w) = goes_on [] (reset_event event w)
  after_result event (some [], w) = goes_on [] (reset_event event w)
  after_result event (some (b ∷ bytes), w) =
      goes_on (report wide (notifies (length (b ∷ bytes)) (b ∷ bytes))) (reset_event event w)

  unfoldable pub after_wait : ℤ → ℤ → Bool → WaitResult → World → Round World
  unfolding after_result
  after_wait h event false r w = breaks w
  after_wait h event true wait_timeout w = goes_on [] (cancel h w)
  after_wait h event true wait_failed w = breaks w
  after_wait h event true signalled w = after_result event (overlapped_result h w)

  -- The body of `while (running_)`.
  unfoldable pub round : ℤ → ℤ → World → Round World
  unfolding after_wait
  round h event w =
      let (success, w1) = read_changes h event w in
      let (r, w2) = wait event w1 in
      let (runs, w3) = load w2 in if success then after_wait h event runs r w3 else breaks w1

  unfoldable pub after_round :
      (World → List WatchEvent × World) → Round World → List WatchEvent × World
  after_round more (breaks w) = ([], w)
  after_round more (goes_on events w) = let (later, w') = more w in (events ++ later, w')

  -- The loop, for as many rounds as it is given.
  unfoldable pub loop : ℕ → ℤ → ℤ → World → List WatchEvent × World
  unfolding after_round round
  loop zero h event w = ([], w)
  loop (suc rounds) h event w =
      let (runs, w1) = load w in
      let (events, w2) = after_round (loop rounds h event) (round h event w1) in
      if runs then (events, w2) else ([], w1)

  -- What comes after the loop.
  unfoldable pub close_all : ℤ → ℤ → Watcher → World → Watcher × World
  close_all h event v w = (record v { h_dir = minus_one }, close_handle h (close_handle event w))

  unfoldable pub after_event :
      ℕ → ℤ → Watcher → Option ℤ × World → List WatchEvent × Watcher × World
  unfolding loop close_all
  after_event rounds h v (none, w) =
      ([], record v { h_dir = minus_one }, store_false (close_handle h w))
  after_event rounds h v (some event, w) =
      let (events, w1) = loop rounds h event w in
      let (v', w2) = close_all h event v w1 in (events, v', w2)

  unfoldable pub after_open : ℕ → Option ℤ × Watcher × World → List WatchEvent × Watcher × World
  unfolding after_event
  after_open rounds (none, v, w) = ([], v, w)
  after_open rounds (some h, v, w) = after_event rounds h v (create_event w)

  unfoldable pub watch_loop : ℕ → Watcher → World → List WatchEvent × Watcher × World
  unfolding after_open open_dir
  watch_loop rounds v w = after_open rounds (open_dir v w)
