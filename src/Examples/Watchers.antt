-- ===== src/Examples/Watchers.antt =====
-- The watchers of Linux, Windows and macOS on small inputs.
use action_learning_p2p_vers.Prelude.{
  ◌≡◌, refl, ◌<◌, ◌⊎◌, Bool, true, false, List, [], ◌∷◌, none, some, arith, length, if◌then◌else◌,
  Bool-cases, inl, inr,
}
use action_learning_p2p_vers.Prelude.Int.{ℤ, pos, minus_one}
use action_learning_p2p_vers.Sockets.{int_eq}
use action_learning_p2p_vers.Prelude.Text.{Text, text_eq, text_eq_iff, codes}
use action_learning_p2p_vers.Watch.Inotify.{
  DirEntry, Inotify, in_create, buffer_events, poll_timeout,
}
use action_learning_p2p_vers.Watch.InotifyTree.{IsStill}
use action_learning_p2p_vers.Watch.InotifyBuffer.{Notice, decoded, buffer_of, buffer_events-notices}
use action_learning_p2p_vers.Watch.Changes.{WideChar, notifies, report}
use action_learning_p2p_vers.Watch.ChangesBuffer
use action_learning_p2p_vers.Watch.ChangesBuffer.{Change, told, report-buffer}
use action_learning_p2p_vers.Watch.ChangesLoop.{System, create_watcher, signalled, watch_loop}
use action_learning_p2p_vers.Watch.ChangesStop.{IsOpening, watch_loop-handles}
use action_learning_p2p_vers.Watch.Classes.{windows, watcher_for}
use action_learning_p2p_vers.Watch.Lifecycle.{IsLifecycle, IsAtomic, watcher_for-IsLifecycle}
use action_learning_p2p_vers.Watch.Fsevents.{
  Move, started, joining, returned, runs, stops, move, moves,
}
use action_learning_p2p_vers.Watch.FseventsStop.{stop_hangs}
use action_learning_p2p_vers.Watch.FseventsReturn.{settled, distance, stop_progress}

-- The directory `w` with a directory `w/s` in it.
abbrev entries : Text → List DirEntry
entries p =
    if text_eq p (codes "w") then record { path = codes "w/s"; is_directory = true } ∷ [] else []

abbrev wd : Text → ℤ
wd p = if text_eq (codes "w/s") p then pos 1 else pos 2

abbrev still_system : Inotify
still_system = record {
  World = Unit {0};
  init = λ w. (pos 3, w);
  add_watch = λ _ p w. (wd p, w);
  close = λ _ w. w;
  poll = λ _ w. (poll_timeout, w);
  read = λ _ _ w. (none, w);
  entries = λ p w. (entries p, w);
  is_dir = λ _ w. (false, w);
}

wd-own : (p : Text) → wd (codes "w/s") ≡ wd p → codes "w/s" ≡ p
unfolding text_eq
wd-own p h = elim (Bool-cases (text_eq (codes "w/s") p)) [
  | inl t ↦ (text_eq_iff (codes "w/s") p).0 t
  | inr f ↦ absurd (ground arith)
]

abbrev still : IsStill still_system (codes "w") (codes "w/s")
still = record {
  tree = entries;
  wd_of = wd;
  wd_nonnegative = λ p _. ground arith;
  wd_own = λ p _. wd-own p;
  entries_tree = λ _ _ _. refl;
  add_watch-wd = λ _ _ _ _. refl;
}

abbrev notice : Notice
notice = record { wd = pos 1; mask = in_create; cookie = 0; name = codes "f"; padding = 0 ∷ 0 ∷ [] }

buffer_events-notices_example :
    buffer_events (length (buffer_of (notice ∷ notice ∷ []))) (buffer_of (notice ∷ notice ∷ []))
    ≡ decoded notice ∷ decoded notice ∷ []
buffer_events-notices_example =
    buffer_events-notices (notice ∷ notice ∷ [])
      ((omega arith, (omega arith, tt)), ((omega arith, (omega arith, tt)), tt))

-- Of ASCII the units are the bytes.
abbrev ascii : WideChar
ascii = record { size_of = λ us. pos (length us); bytes_of = λ us _. us }

abbrev change : Change
change = record { action = 1; file_name = codes "a"; padding = 0 ∷ 0 ∷ [] }

abbrev changes : Text
changes = ChangesBuffer.buffer_of (change ∷ change ∷ [])

report-buffer_example :
    report ascii (notifies (length changes) changes) ≡ told ascii (change ∷ change ∷ [])
report-buffer_example = report-buffer ascii change (change ∷ [])

-- A system of which only the open handles are kept, and whose reads fail. The directory is handle 7
-- and the event handle 8, where they are free.
abbrev Handles : Type 0
Handles = ℤ → Bool

abbrev opened : ℤ → Handles → Handles
opened h w g = if int_eq g h then true else w g

abbrev handles_system : System
handles_system = record {
  World = Handles;
  load = λ w. (true, w);
  store_false = λ w. w;
  exchange = λ _ w. (true, w);
  create_file = λ _ w. if w (pos 7) then (minus_one, w) else (pos 7, opened (pos 7) w);
  create_event = λ w. if w (pos 8) then (none, w) else (some (pos 8), opened (pos 8) w);
  read_changes = λ _ _ w. (true, w);
  wait = λ _ w. (signalled, w);
  cancel = λ _ w. w;
  overlapped_result = λ _ w. (none, w);
  set_event = λ _ w. w;
  reset_event = λ _ w. w;
  close_handle = λ h w g. if int_eq g h then false else w g;
}

made_free :
    (b : Bool) (w : Handles) (e : ℤ)
    → (if b then none else some (pos 8)) ≡ some e
    → w (pos 8) ≡ b
    → w e ≡ false
made_free true w e made held = absurd cc
made_free false w e made held = cc

abbrev handles_system-IsOpening : IsOpening handles_system
handles_system-IsOpening = record {
  is_open = λ w g. w g;
  create_file_fresh = λ _ w valid. ground arith;
  open-create_file = λ _ w g. ground arith;
  create_event_fresh = λ w e made. made_free (w (pos 8)) w e (ground arith) refl;
  open-create_event = λ w g. ground arith;
  open-close_handle = λ _ _ _. refl;
  open-load = λ _ _. refl;
  open-store_false = λ _ _. refl;
  open-read_changes = λ _ _ _ _. refl;
  open-wait = λ _ _ _. refl;
  open-cancel = λ _ _ _. refl;
  open-overlapped_result = λ _ _ _. refl;
  open-reset_event = λ _ _ _. refl;
}

-- The file 9 is open.
abbrev other_open : Handles
other_open g = int_eq g (pos 9)

watch_loop-handles_example :
    (watch_loop handles_system ascii 3 (create_watcher (codes "w")) other_open).2 (pos 8) ≡ false
watch_loop-handles_example =
    watch_loop-handles handles_system ascii handles_system-IsOpening (pos 8) 3
      (create_watcher (codes "w")) other_open

-- `stop` is called when the thread has set `stream_`, and comes to look at `sem_`.
abbrev early : List Move
early = runs true ∷ runs true ∷ stops ∷ stops ∷ []

stop_hangs_example :
    (moves (moves started early) (stops ∷ runs true ∷ stops ∷ [])).stopper ≡ joining
unfolding moves started
stop_hangs_example = stop_hangs (moves started early) refl refl tt (runs true ∷ stops ∷ [])

stop_progress_example :
    let s = moves (moves started settled) (stops ∷ []) in
    (s.stopper ≡ returned)
    ⊎ ((distance (move s (runs true)) < distance s) ⊎ (distance (move s stops) < distance s))
stop_progress_example = stop_progress (stops ∷ [])

-- A system of which only `running_` is kept.
abbrev flag_system : System
flag_system = record {
  World = Bool;
  load = λ w. (w, w);
  store_false = λ w. false;
  exchange = λ b w. (w, b);
  create_file = λ _ w. (pos 7, w);
  create_event = λ w. (some (pos 8), w);
  read_changes = λ _ _ w. (true, w);
  wait = λ _ w. (signalled, w);
  cancel = λ _ w. w;
  overlapped_result = λ _ w. (none, w);
  set_event = λ _ w. w;
  reset_event = λ _ w. w;
  close_handle = λ _ w. w;
}

abbrev flag_system-IsAtomic : IsAtomic flag_system
flag_system-IsAtomic = record {
  value = λ w. w;
  load-value = λ _. refl;
  exchange-old = λ _ _. refl;
  exchange-new = λ _ _. refl;
  value-cancel = λ _ _. refl;
  value-close_handle = λ _ _. refl;
  value-set_event = λ _ _. refl;
}

watcher_for-IsLifecycle_example : IsLifecycle (watcher_for still_system 2 flag_system ascii windows)
watcher_for-IsLifecycle_example =
    watcher_for-IsLifecycle still_system 2 flag_system ascii windows flag_system-IsAtomic
