-- ===== src/Watch/FseventsStop.antt =====
-- When `stop` of `FSEventsWatcher` returns.
use action_learning_p2p_vers.Prelude.{
  ℕ, zero, suc, ◌≡◌, refl, subst, Bool, List, [], ◌∷◌, Option, none, some, arith,
}
use action_learning_p2p_vers.Watch.Fsevents.{
  Pc, creating, publishing, starting, making_sem, waiting, finished, StopPc, not_called, closing,
  signalling, joining, returned, State, run_at, stop_at, after_wait, join_at, Move, runs, stops,
  move, moves,
}

-- The thread comes to wait on a semaphore that nobody signals.
abbrev AtRisk : Pc → Option ℕ → Type 0
AtRisk creating sem = ⊥
AtRisk (publishing b) sem = ⊥
AtRisk starting sem = Unit
AtRisk making_sem sem = Unit
AtRisk waiting sem = sem ≡ some 0
AtRisk finished sem = ⊥

-- `stop` has passed its look at `sem_`.
abbrev IsJoining : StopPc → Type 0
IsJoining joining = Unit
IsJoining not_called = ⊥
IsJoining closing = ⊥
IsJoining signalling = ⊥
IsJoining returned = ⊥

abbrev IsLost : State → Type 0
IsLost s = AtRisk s.thread s.sem × IsJoining s.stopper

after_wait-IsLost : (o : Option ℕ) (s : State) → o ≡ some 0 → IsLost s → IsLost (after_wait o s)
after_wait-IsLost none s e lost = absurd cc
after_wait-IsLost (some zero) s e lost = lost
after_wait-IsLost (some (suc k)) s e lost = absurd (ground arith)

run_at-IsLost : (t : Pc) (b : Bool) (s : State) → s.thread ≡ t → IsLost s → IsLost (run_at t b s)
unfolding run_at
run_at-IsLost creating b s e lost = absurd (subst (λ t. AtRisk t s.sem) e lost.0)
run_at-IsLost (publishing x) b s e lost = absurd (subst (λ t. AtRisk t s.sem) e lost.0)
run_at-IsLost starting b s e lost = (tt, lost.1)
run_at-IsLost making_sem b s e lost = (refl, lost.1)
run_at-IsLost waiting b s e lost =
    after_wait-IsLost s.sem s (subst (λ t. AtRisk t s.sem) e lost.0) lost
run_at-IsLost finished b s e lost = absurd (subst (λ t. AtRisk t s.sem) e lost.0)

join_at-IsLost : (t : Pc) (s : State) → AtRisk t s.sem → IsLost s → IsLost (join_at t s)
join_at-IsLost creating s h lost = absurd h
join_at-IsLost (publishing x) s h lost = absurd h
join_at-IsLost starting s h lost = lost
join_at-IsLost making_sem s h lost = lost
join_at-IsLost waiting s h lost = lost
join_at-IsLost finished s h lost = absurd h

stop_at-IsLost :
    (p : StopPc) (s : State) → s.stopper ≡ p → IsLost s → IsJoining p → IsLost (stop_at p s)
unfolding stop_at
stop_at-IsLost not_called s e lost j = absurd j
stop_at-IsLost closing s e lost j = absurd j
stop_at-IsLost signalling s e lost j = absurd j
stop_at-IsLost joining s e lost j = join_at-IsLost s.thread s lost.0 lost
stop_at-IsLost returned s e lost j = absurd j

moves-IsLost : (s : State) (ms : List Move) → IsLost s → IsLost (moves s ms)
unfolding moves move
moves-IsLost s [] lost = lost
moves-IsLost s (runs b ∷ ms) lost =
    moves-IsLost (run_at s.thread b s) ms (run_at-IsLost s.thread b s refl lost)
moves-IsLost s (stops ∷ ms) lost =
    moves-IsLost (stop_at s.stopper s) ms (stop_at-IsLost s.stopper s refl lost lost.1)

joining_of : (p : StopPc) → IsJoining p → p ≡ joining
joining_of joining j = refl
joining_of not_called j = absurd j
joining_of closing j = absurd j
joining_of signalling j = absurd j
joining_of returned j = absurd j

-- The thread has set `stream_`, and has not made `sem_` since.
abbrev pub IsEarly : Pc → Type 0
IsEarly creating = ⊥
IsEarly (publishing b) = ⊥
IsEarly starting = Unit
IsEarly making_sem = Unit
IsEarly waiting = ⊥
IsEarly finished = ⊥

early-AtRisk : (t : Pc) (sem : Option ℕ) → IsEarly t → AtRisk t sem
early-AtRisk creating sem h = h
early-AtRisk (publishing b) sem h = h
early-AtRisk starting sem h = h
early-AtRisk making_sem sem h = h
early-AtRisk waiting sem h = absurd h
early-AtRisk finished sem h = h

-- In any state in which `stop` is about to look at `sem_`, the thread has set `stream_` and not yet
-- made the semaphore, and none is left from an earlier run: once `stop` has looked it waits in `join`,
-- and, however the two go on, it never gets past `join`.
pub stop_hangs :
    (s : State)
    → s.stopper ≡ signalling
    → s.sem ≡ none
    → IsEarly s.thread
    → (ms : List Move) → (moves s (stops ∷ ms)).stopper ≡ joining
unfolding moves move stop_at
stop_hangs s looks unmade early ms =
    let s' = stop_at signalling s in
    let lost : IsLost s' = (early-AtRisk s.thread _ early, tt) in
    rw looks (joining_of _ (moves-IsLost s' ms lost).1)
