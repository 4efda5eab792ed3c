-- ===== src/Watch/Lifecycle.antt =====
-- `start` and `stop` of the watchers, of whichever class.
use action_learning_p2p_vers.Prelude.{
  ℕ, ◌≡◌, refl, ◌∙◌, Bool, true, false, ◌&&◌, ◌||◌, Option, none, some, arith, inl, inr, Bool-cases,
}
use action_learning_p2p_vers.Prelude.Int.{ℤ, minus_one, is_negative}
use action_learning_p2p_vers.Sockets.{int_eq}
use action_learning_p2p_vers.Watch.Inotify.{Inotify}
use action_learning_p2p_vers.Watch.Inotify as Ino
use action_learning_p2p_vers.Watch.InotifyLoop as InotifyLoop
use action_learning_p2p_vers.Watch.Changes.{WideChar}
use action_learning_p2p_vers.Watch.ChangesLoop.{System}
use action_learning_p2p_vers.Watch.ChangesLoop as ChangesLoop
use action_learning_p2p_vers.Watch.Fsevents.{
  StopPc, not_called, closing, signalling, joining, returned,
}
use action_learning_p2p_vers.Watch.Fsevents as Fsevents
use action_learning_p2p_vers.Watch.Rounds as Rounds
use action_learning_p2p_vers.Watch.Classes.{
  Platform, linux, apple, windows, other, watcher_for, WatcherClass, inotify_watcher,
  changes_watcher, fsevents_watcher, polling_watcher,
}

-- A watcher runs where it ran before or `start` has succeeded, `start` of one that runs fails, and
-- none runs after `stop`.
pub record IsLifecycle (c : WatcherClass) : Type 0 where
  pub start_running :
      (s : c.State) (w : c.World)
      → let (ok, s', w') = c.start s w in c.is_running s' w' ≡ c.is_running s w || ok
  pub start_again : (s : c.State) (w : c.World) → c.is_running s w && (c.start s w).0 ≡ false
  pub stop_running :
      (s : c.State) (w : c.World) → let (s', w') = c.stop s w in c.is_running s' w' ≡ false

-- The atomic `running_`, which no call of `start` and `stop` but its own changes.
pub record IsAtomic (sys : System) : Type 0 where
  pub value : sys.World → Bool
  pub load-value : (w : sys.World) → (sys.load w).0 ≡ value w
  pub exchange-old : (b : Bool) (w : sys.World) → (sys.exchange b w).0 ≡ value w
  pub exchange-new : (b : Bool) (w : sys.World) → value (sys.exchange b w).1 ≡ b
  pub value-cancel : (h : ℤ) (w : sys.World) → value (sys.cancel h w) ≡ value w
  pub value-close_handle : (h : ℤ) (w : sys.World) → value (sys.close_handle h w) ≡ value w
  pub value-set_event : (e : ℤ) (w : sys.World) → value (sys.set_event e w) ≡ value w

module _ (sys : Inotify) (depth : ℕ) where
  inotify_start :
      (v : Ino.Watcher) (w : sys.World)
      → let (ok, v', w') = InotifyLoop.start sys depth v w in v'.running ≡ v.running || ok
  unfolding InotifyLoop.start InotifyLoop.after_init
  inotify_start v w = elim (Bool-cases v.running) [
    | inl t ↦ rw t refl
    | inr f ↦ elim (Bool-cases (is_negative (sys.init w).0)) [
      | inl t ↦ rw (f, t) refl
      | inr g ↦ rw (f, g) refl
    ]
  ]

  inotify_again :
      (v : Ino.Watcher) (w : sys.World) → v.running && (InotifyLoop.start sys depth v w).0 ≡ false
  unfolding InotifyLoop.start
  inotify_again v w = elim (Bool-cases v.running) [ inl t ↦ rw t refl | inr f ↦ rw f refl ]

  inotify_stop :
      (v : Ino.Watcher) (w : sys.World) → (InotifyLoop.stop sys depth v w).0.running ≡ false
  unfolding InotifyLoop.stop
  inotify_stop v w = elim (Bool-cases v.running) [
    | inr f ↦ rw f refl
    | inl t ↦ elim (Bool-cases (is_negative v.inotify_fd)) [
      | inl g ↦ rw (t, g) refl
      | inr g ↦ rw (t, g) refl
    ]
  ]

fsevents_stop : (s : Fsevents.State) → (Fsevents.stop s).running ≡ false
unfolding Fsevents.stop Fsevents.moves Fsevents.move Fsevents.stop_at
fsevents_stop s = elim (Bool-cases s.running) [ inl t ↦ rw t refl | inr f ↦ rw f refl ]

fsevents_start :
    (s : Fsevents.State) → let (ok, s') = Fsevents.start s in s'.running ≡ s.running || ok
unfolding Fsevents.start
fsevents_start s = elim (Bool-cases s.running) [ inl t ↦ rw t refl | inr f ↦ rw f refl ]

fsevents_again : (s : Fsevents.State) → s.running && (Fsevents.start s).0 ≡ false
unfolding Fsevents.start
fsevents_again s = elim (Bool-cases s.running) [ inl t ↦ rw t refl | inr f ↦ rw f refl ]

polling_again : (v : Rounds.PollingWatcher) → v.base.running && (Rounds.start v).0 ≡ false
unfolding Rounds.start
polling_again v = elim (Bool-cases v.base.running) [ inl t ↦ rw t refl | inr f ↦ rw f refl ]

polling_start :
    (v : Rounds.PollingWatcher)
    → let (ok, v') = Rounds.start v in v'.base.running ≡ v.base.running || ok
unfolding Rounds.start
polling_start v = elim (Bool-cases v.base.running) [ inl t ↦ rw t refl | inr f ↦ rw f refl ]

module _ (sys : System) (wide : WideChar) (atomic : IsAtomic sys) where
  open atomic use {
    value, load-value, exchange-old, exchange-new, value-cancel, value-close_handle,
    value-set_event,
  }

  close_dir-value :
      (v : ChangesLoop.Watcher) (w : sys.World)
      → value (ChangesLoop.close_dir sys wide v w).1 ≡ value w
  unfolding ChangesLoop.close_dir
  close_dir-value v w = elim (Bool-cases (int_eq v.h_dir minus_one)) [
    | inl t ↦ rw t refl
    | inr f ↦ rw f (value-close_handle v.h_dir (sys.cancel v.h_dir w) ∙ value-cancel v.h_dir w)
  ]

  event-value :
      (o : Option ℤ) (w : sys.World)
      → value (ChangesLoop.with_event sys wide sys.set_event o w) ≡ value w
  event-value none w = refl
  event-value (some e) w = value-set_event e w

  changes_start :
      (w : sys.World)
      → let (ok, w') = ChangesLoop.start sys wide w in (sys.load w').0 ≡ (sys.load w).0 || ok
  unfolding ChangesLoop.start
  changes_start w = ground (
    arith,
    load-value w,
    load-value (sys.exchange true w).1,
    exchange-old true w,
    exchange-new true w,
  )

  changes_again : (w : sys.World) → (sys.load w).0 && (ChangesLoop.start sys wide w).0 ≡ false
  unfolding ChangesLoop.start
  changes_again w = ground (arith, load-value w, exchange-old true w)

  changes_stop :
      (v : ChangesLoop.Watcher) (w : sys.World)
      → (sys.load (ChangesLoop.stop sys wide v w).2).0 ≡ false
  unfolding ChangesLoop.stop
  changes_stop v w =
      let w1 = (sys.exchange false w).1 in
      let (v', w2) = ChangesLoop.close_dir sys wide v w1 in
      load-value _ ∙ elim (Bool-cases (sys.exchange false w).0) [
        | inl t ↦ rw t (event-value v'.h_event w2 ∙ close_dir-value v w1 ∙ exchange-new false w)
        | inr f ↦ rw f (exchange-new false w)
      ]

-- On every system, that of Windows where its atomic flag is as documented: after `start` a watcher
-- runs if and only if it ran before or `start` has succeeded; `start` fails on one that runs; and
-- after `stop` none runs, whatever its state was.
pub watcher_for-IsLifecycle :
    (ino : Inotify) (depth : ℕ) (sys : System) (wide : WideChar) (platform : Platform)
    → IsAtomic sys
    → IsLifecycle (watcher_for ino depth sys wide platform)
unfolding watcher_for inotify_watcher changes_watcher fsevents_watcher polling_watcher
    Fsevents.start Rounds.start Rounds.stop Rounds.is_running
watcher_for-IsLifecycle ino depth sys wide linux atomic = record {
  start_running = inotify_start ino depth;
  start_again = inotify_again ino depth;
  stop_running = inotify_stop ino depth;
}
watcher_for-IsLifecycle ino depth sys wide windows atomic = record {
  start_running = λ v w. changes_start sys wide atomic w;
  start_again = λ v w. changes_again sys wide atomic w;
  stop_running = changes_stop sys wide atomic;
}
watcher_for-IsLifecycle ino depth sys wide apple atomic = record {
  start_running = λ s w. fsevents_start s;
  start_again = λ s w. fsevents_again s;
  stop_running = λ s w. fsevents_stop s;
}
watcher_for-IsLifecycle ino depth sys wide other atomic = record {
  start_running = λ v w. polling_start v;
  start_again = λ v w. polling_again v;
  stop_running = λ v w. refl;
}
