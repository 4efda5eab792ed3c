-- ===== src/Watch/FseventsReturn.antt =====
-- `stop` of `FSEventsWatcher` where the thread waits on its semaphore.
use action_learning_p2p_vers.Prelude.{
  ℕ, zero, suc, ◌+◌, ◌<◌, ◌≡◌, refl, sym, subst, ◌⊎◌, Bool, true, false, List, [], ◌∷◌, Option,
  none, some, arith, inl, inr, Bool-cases, if◌then◌else◌,
}
use action_learning_p2p_vers.Watch.Fsevents.{
  start, create_watcher, Pc, creating, publishing, starting, making_sem, waiting, finished, StopPc,
  not_called, closing, signalling, joining, returned, State, started, run_at, stop_at, after_wait,
  join_at, signalled, Move, runs, stops, move, moves,
}

-- The thread waits, and is or will be signalled.
abbrev Ready : StopPc → Bool → Option ℕ → Type 0
Ready p r none = ⊥
Ready not_called r (some k) = r ≡ true
Ready closing r (some k) = Unit
Ready signalling r (some k) = Unit
Ready joining r (some k) = 0 < k
Ready returned r (some k) = ⊥

abbrev Awake : Pc → State → Type 0
Awake creating s = ⊥
Awake (publishing b) s = ⊥
Awake starting s = ⊥
Awake making_sem s = ⊥
Awake waiting s = Ready s.stopper s.running s.sem
Awake finished s = Unit

abbrev IsAwake : State → Type 0
IsAwake s = Awake s.thread s

after_wait-IsAwake :
    (o : Option ℕ) (s : State)
    → s.thread ≡ waiting
    → s.sem ≡ o
    → IsAwake s
    → IsAwake (after_wait o s)
after_wait-IsAwake none s e o h = h
after_wait-IsAwake (some zero) s e o h = h
after_wait-IsAwake (some (suc k)) s e o h = tt

run_at-IsAwake : (t : Pc) (b : Bool) (s : State) → s.thread ≡ t → IsAwake s → IsAwake (run_at t b s)
unfolding run_at
run_at-IsAwake creating b s e h = absurd (subst (λ t. Awake t s) e h)
run_at-IsAwake (publishing x) b s e h = absurd (subst (λ t. Awake t s) e h)
run_at-IsAwake starting b s e h = absurd (subst (λ t. Awake t s) e h)
run_at-IsAwake making_sem b s e h = absurd (subst (λ t. Awake t s) e h)
run_at-IsAwake waiting b s e h = after_wait-IsAwake s.sem s e refl h
run_at-IsAwake finished b s e h = h

IsAwake-finished : (s : State) → s.thread ≡ finished → IsAwake s
IsAwake-finished s e = subst (λ t. Awake t s) (sym e) tt

IsAwake-waiting : (s : State) → s.thread ≡ waiting → Ready s.stopper s.running s.sem → IsAwake s
IsAwake-waiting s e h = subst (λ t. Awake t s) (sym e) h

Ready-not_called :
    (r : Bool) (o : Option ℕ)
    → Ready not_called r o
    → Ready (if r then closing else returned) false o
Ready-not_called r none h = absurd h
Ready-not_called r (some k) h = rw h tt

Ready-closing : (r : Bool) (o : Option ℕ) → Ready closing r o → Ready signalling r o
Ready-closing r none h = absurd h
Ready-closing r (some k) h = tt

Ready-signalling : (r : Bool) (o : Option ℕ) → Ready signalling r o → Ready joining r (signalled o)
Ready-signalling r none h = absurd h
Ready-signalling r (some k) h = omega arith

not_returned : (r : Bool) (o : Option ℕ) → Ready returned r o → ⊥
not_returned r none h = absurd h
not_returned r (some k) h = absurd h

-- `stop` while the thread waits.
stop_waiting :
    (p : StopPc) (s : State)
    → s.thread ≡ waiting
    → Ready p s.running s.sem
    → s.stopper ≡ p
    → IsAwake (stop_at p s)
unfolding stop_at
stop_waiting not_called s e h e' = IsAwake-waiting _ e (Ready-not_called s.running s.sem h)
stop_waiting closing s e h e' = IsAwake-waiting _ e (Ready-closing s.running s.sem h)
stop_waiting signalling s e h e' = IsAwake-waiting _ e (Ready-signalling s.running s.sem h)
stop_waiting joining s e h e' =
    subst (λ t. IsAwake (join_at t s)) (sym e)
      (IsAwake-waiting s e (subst (λ p. Ready p s.running s.sem) (sym e') h))
stop_waiting returned s e h e' = absurd (not_returned s.running s.sem h)

stop_finished : (p : StopPc) (s : State) → s.thread ≡ finished → IsAwake (stop_at p s)
unfolding stop_at
stop_finished not_called s e = IsAwake-finished _ e
stop_finished closing s e = IsAwake-finished _ e
stop_finished signalling s e = IsAwake-finished _ e
stop_finished joining s e = subst (λ t. IsAwake (join_at t s)) (sym e) (IsAwake-finished _ e)
stop_finished returned s e = IsAwake-finished _ e

stop_at-IsAwake : (t : Pc) (s : State) → s.thread ≡ t → Awake t s → IsAwake (stop_at s.stopper s)
stop_at-IsAwake creating s e h = absurd h
stop_at-IsAwake (publishing x) s e h = absurd h
stop_at-IsAwake starting s e h = absurd h
stop_at-IsAwake making_sem s e h = absurd h
stop_at-IsAwake waiting s e h = stop_waiting s.stopper s e h refl
stop_at-IsAwake finished s e h = stop_finished s.stopper s e

moves-IsAwake : (s : State) (ms : List Move) → IsAwake s → IsAwake (moves s ms)
unfolding moves move
moves-IsAwake s [] h = h
moves-IsAwake s (runs b ∷ ms) h =
    moves-IsAwake (run_at s.thread b s) ms (run_at-IsAwake s.thread b s refl h)
moves-IsAwake s (stops ∷ ms) h =
    moves-IsAwake (stop_at s.stopper s) ms (stop_at-IsAwake s.thread s refl h)

abbrev thread_rank : Pc → ℕ
thread_rank creating = 5
thread_rank (publishing b) = 4
thread_rank starting = 3
thread_rank making_sem = 2
thread_rank waiting = 1
thread_rank finished = 0

abbrev stop_rank : StopPc → ℕ
stop_rank not_called = 4
stop_rank closing = 3
stop_rank signalling = 2
stop_rank joining = 1
stop_rank returned = 0

-- How many steps the thread and `stop` have still to take.
abbrev pub distance : State → ℕ
distance s = thread_rank s.thread + stop_rank s.stopper

-- `stop` has returned, or one of the two can take a step towards that.
abbrev Progress : State → Type 0
Progress s =
    (s.stopper ≡ returned)
    ⊎ ((distance (run_at s.thread true s) < distance s)
        ⊎ (distance (stop_at s.stopper s) < distance s))

progress_waiting :
    (p : StopPc) (o : Option ℕ) (s : State)
    → s.thread ≡ waiting
    → s.stopper ≡ p
    → s.sem ≡ o
    → Ready p s.running o
    → Progress s
unfolding run_at stop_at
progress_waiting p none s e e' e'' h = absurd h
progress_waiting not_called (some k) s e e' e'' h = inr (inr (rw (e', h) (omega arith)))
progress_waiting closing (some k) s e e' e'' h = inr (inr (rw e' (omega arith)))
progress_waiting signalling (some k) s e e' e'' h = inr (inr (rw e' (omega arith)))
progress_waiting joining (some zero) s e e' e'' h = absurd (omega arith)
progress_waiting joining (some (suc k)) s e e' e'' h = inr (inl (rw (e, e'') (omega arith)))
progress_waiting returned (some k) s e e' e'' h = absurd h

progress_finished : (p : StopPc) (s : State) → s.thread ≡ finished → s.stopper ≡ p → Progress s
unfolding stop_at
progress_finished not_called s e e' = inr (
    inr (elim (Bool-cases s.running) [
      | inl t ↦ rw (e', t) (omega arith)
      | inr f ↦ rw (e', f) (omega arith)
    ]))
progress_finished closing s e e' = inr (inr (rw e' (omega arith)))
progress_finished signalling s e e' = inr (inr (rw e' (omega arith)))
progress_finished joining s e e' = inr (inr (rw (e', e) (omega arith)))
progress_finished returned s e e' = inl e'

awake_progress : (t : Pc) (s : State) → s.thread ≡ t → Awake t s → Progress s
awake_progress creating s e h = absurd h
awake_progress (publishing x) s e h = absurd h
awake_progress starting s e h = absurd h
awake_progress making_sem s e h = absurd h
awake_progress waiting s e h = progress_waiting s.stopper s.sem s e refl refl h
awake_progress finished s e h = progress_finished s.stopper s e refl

-- The thread comes to wait on its semaphore.
abbrev pub settled : List Move
settled = runs true ∷ runs true ∷ runs true ∷ runs true ∷ []

-- Where the thread has come to wait on its semaphore before `stop` is called, then after any steps
-- of the two, whatever the scheduler did, `stop` has returned, or a step of the thread or of `stop`
-- lowers the number of steps that they have still to take.
pub stop_progress :
    (ms : List Move)
    → let s = moves (moves started settled) ms in
      (s.stopper ≡ returned)
      ⊎ ((distance (move s (runs true)) < distance s) ⊎ (distance (move s stops) < distance s))
unfolding moves move run_at started start create_watcher
stop_progress ms =
    let awake = moves-IsAwake (moves started settled) ms refl in
    awake_progress _ (moves (moves started settled) ms) refl awake
