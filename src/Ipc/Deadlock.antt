-- ===== src/Ipc/Deadlock.antt =====
-- Which calls can wait for each other for ever.
use action_learning_p2p_vers.Prelude.{
  ℕ, zero, suc, ◌+◌, ◌≤◌, ◌<◌, ◌≡◌, refl, ap, ◌∙◌, Bool, true, false, not, ◌&&◌, List, [], ◌∷◌,
  ◌++◌, some, arith, ◌==◌, inl, inr, Bool-cases, All, if◌then◌else◌,
}
use action_learning_p2p_vers.Ipc.Locks.{
  Mutex, send_mutex, recv_mutex, state_mutex, Action, lock, unlock, peek, talk, listen, close,
  Operation, connecting, disconnecting, receiving, actions_of, program, Held, has, assign, Thread,
  holders, advance_with, advance, get, moved, step, steps, threads, connect_actions,
  disconnect_actions, receive_actions, error_actions,
}
use action_learning_p2p_vers.Ipc.Guards.{All-get}
use action_learning_p2p_vers.Ipc.Order.{
  rank, is_above, is_ordered, IsCalm, IsOrdered, threads-IsOrdered, steps-IsOrdered,
}

holder_of :
    (m : Mutex) (ts : List Thread)
    → (holders m ts == 0) ≡ false
    → (j : ℕ) × (u : Thread) × (get j ts ≡ some u) × (has m u.held ≡ true)
unfolding holders
holder_of m [] e = absurd (ground arith)
holder_of m (t ∷ ts) e = elim (Bool-cases (has m t.held)) [
  | inl t' ↦ (0, t, refl, t')
  | inr f ↦ let (j, u, here, held) = holder_of m ts (ground arith) in (suc j, u, here, held)
]

-- Some thread can go on.
abbrev pub GoesOn : List Thread → Type 0
GoesOn ts = (i : ℕ) × (t : Thread) × (u : Thread) × (get i ts ≡ some t) × (advance ts t ≡ some u)

rank_below : (m m' : Mutex) (h : Held) → has m h ≡ true → is_above m' h ≡ true → rank m < rank m'
rank_below send_mutex send_mutex h held above = ground arith
rank_below send_mutex recv_mutex h held above = ground arith
rank_below send_mutex state_mutex h held above = ground arith
rank_below recv_mutex send_mutex h held above = ground arith
rank_below recv_mutex recv_mutex h held above = ground arith
rank_below recv_mutex state_mutex h held above = ground arith
rank_below state_mutex send_mutex h held above = ground arith
rank_below state_mutex recv_mutex h held above = ground arith
rank_below state_mutex state_mutex h held above = ground arith

rank_small : (m : Mutex) → rank m < 3
rank_small send_mutex = omega arith
rank_small recv_mutex = omega arith
rank_small state_mutex = omega arith

not_empty :
    (m : Mutex) (h : Held)
    → has m h ≡ true
    → not h.sending && not h.receiving && not h.state ≡ true
    → ⊥
not_empty send_mutex h held e = ground arith
not_empty recv_mutex h held e = ground arith
not_empty state_mutex h held e = ground arith

-- A thread that is not at its end, and can wait for few mutexes only.
abbrev Reaches : ℕ → List Action → Type 0
Reaches k [] = ⊥
Reaches k (lock m ∷ r) = 3 ≤ rank m + k
Reaches k _ = Unit

holder-Reaches :
    (m : Mutex) (k : ℕ) (h : Held) (r : List Action)
    → has m h ≡ true
    → is_ordered h r ≡ true
    → 3 ≤ rank m + suc k
    → Reaches k r
unfolding is_ordered
holder-Reaches m k h [] held o le = absurd (not_empty m h held o)
holder-Reaches m k h (lock m' ∷ r) held o le = omega (arith, rank_below m m' h held (ground arith))
holder-Reaches m k h (unlock m' ∷ r) held o le = tt
holder-Reaches m k h (peek ∷ r) held o le = tt
holder-Reaches m k h (talk ∷ r) held o le = tt
holder-Reaches m k h (listen ∷ r) held o le = tt
holder-Reaches m k h (close ∷ r) held o le = tt

module _ (ts : List Thread) (ordered : All IsOrdered ts) where
  -- A thread that waits leads to one that holds what it waits for, which comes to a later mutex.
  goes_on :
      (k i : ℕ) (h : Held) (r : List Action)
      → get i ts ≡ some (record { held = h; rest = r })
      → Reaches k r
      → GoesOn ts
  unfolding advance advance_with
  goes_on k i h [] e reach = absurd reach
  goes_on zero i h (lock m ∷ r) e reach = absurd (omega (arith, rank_small m))
  goes_on (suc k) i h (lock m ∷ r) e reach = elim (Bool-cases (holders m ts == 0)) [
    | inl t ↦ (i, _, record { held = assign m true h; rest = r }, e, rw t refl)
    | inr f ↦
        let (j, u, here, held) = holder_of m ts f in
        goes_on k j u.held u.rest here
          (holder-Reaches m k u.held u.rest held (All-get IsOrdered j ts u ordered here) reach)
  ]
  goes_on k i h (unlock m ∷ r) e reach = (i, _, _, e, refl)
  goes_on k i h (peek ∷ r) e reach = (i, _, _, e, refl)
  goes_on k i h (talk ∷ r) e reach = (i, _, _, e, refl)
  goes_on k i h (listen ∷ r) e reach = (i, _, _, e, refl)
  goes_on k i h (close ∷ r) e reach = (i, _, _, e, refl)

first-Reaches : (a : Action) (r : List Action) → Reaches 3 (a ∷ r)
first-Reaches (lock m) r = omega arith
first-Reaches (unlock m) r = tt
first-Reaches peek r = tt
first-Reaches talk r = tt
first-Reaches listen r = tt
first-Reaches close r = tt

-- However many threads share a client and whatever calls each makes, as long as no `receive` goes on
-- to `disconnectOnError`: at every point of every schedule at which some thread has still something
-- to do, some thread can go on.
pub steps-GoesOn :
    (oss : List (List Operation)) (is : List ℕ) (i : ℕ) (h : Held) (a : Action) (r : List Action)
    → All IsCalm oss
    → get i (steps (threads oss) is) ≡ some (record { held = h; rest = a ∷ r })
    → GoesOn (steps (threads oss) is)
steps-GoesOn oss is i h a r calm e =
    goes_on (steps (threads oss) is) (steps-IsOrdered is (threads oss) (threads-IsOrdered oss calm))
      3 i h (a ∷ r) e (first-Reaches a r)

-- `connect` or `disconnect`
abbrev pub closing : Bool → Operation
closing b = if b then disconnecting else connecting

-- The schedule that lets `receive` come to `disconnectOnError`, and then the other thread begin.
abbrev pub fatal : List ℕ
fatal = 0 ∷ 0 ∷ 0 ∷ 0 ∷ 0 ∷ 1 ∷ []

stays : (ts : List Thread) → ((i : ℕ) → step ts i ≡ ts) → (is : List ℕ) → steps ts is ≡ ts
unfolding steps
stays ts still [] = refl
stays ts still (i ∷ is) = ap (λ x. steps x is) (still i) ∙ stays ts still is

-- Two threads that each wait for what the other holds.
abbrev crossed : List Action → List Action → List Thread
crossed r s =
    record {
      held = record { sending = false; receiving = true; state = false };
      rest = lock send_mutex ∷ r;
    }
    ∷ record {
      held = record { sending = true; receiving = false; state = false };
      rest = lock recv_mutex ∷ s;
    }
    ∷ []

step-crossed : (r s : List Action) (i : ℕ) → step (crossed r s) i ≡ crossed r s
unfolding step moved advance advance_with holders
step-crossed r s zero = refl
step-crossed r s (suc zero) = refl
step-crossed r s (suc (suc i)) = refl

-- A thread whose `receive` fails, and then calls `p`, and a thread that calls `connect` or
-- `disconnect`, and then calls `q`, can come to a point from which, however the scheduler goes on,
-- neither moves again, and the first has not given the socket up.
pub receive_deadlock :
    (p q : List Operation) (b : Bool) (is : List ℕ)
    → let stuck = steps (threads ((receiving true ∷ p) ∷ (closing b ∷ q) ∷ [])) fatal in
      (steps stuck is ≡ stuck)
      × (get 0 stuck
          ≡ some (record {
            held = record { sending = false; receiving = true; state = false };
            rest = error_actions ++ unlock recv_mutex ∷ program p;
          }))
unfolding steps step moved advance advance_with holders threads program actions_of receive_actions
    connect_actions disconnect_actions error_actions
receive_deadlock p q true is = (stays _ (step-crossed _ _) is, refl)
receive_deadlock p q false is = (stays _ (step-crossed _ _) is, refl)
