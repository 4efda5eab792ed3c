-- ===== src/Ipc/Guards.antt =====
-- Each thread does each action under its mutexes, and each mutex has one holder.
use action_learning_p2p_vers.Prelude.{
  ℕ, zero, suc, ◌+◌, ◌≤◌, ◌≡◌, refl, subst, ◌⊎◌, Bool, true, false, not, ◌&&◌, List, [], ◌∷◌,
  Option, none, some, arith, ◌==◌, inl, inr, Bool-cases, All,
}
use action_learning_p2p_vers.Ipc.Locks.{
  Mutex, send_mutex, recv_mutex, state_mutex, Action, lock, unlock, peek, talk, listen, close,
  Operation, connecting, sending, disconnecting, asking, receiving, actions_of, program, Held,
  nothing, has, assign, Thread, weight, holders, advance_with, advance, get, put, moved, step,
  steps, threads, connect_actions, send_actions, disconnect_actions, is_connected_actions,
  receive_actions, error_actions,
}

-- The mutexes under which each action is done.
unfoldable pub is_guarded : Held → List Action → Bool
is_guarded h [] = not h.sending && not h.receiving && not h.state
is_guarded h (lock m ∷ r) = not (has m h) && is_guarded (assign m true h) r
is_guarded h (unlock m ∷ r) = has m h && is_guarded (assign m false h) r
is_guarded h (peek ∷ r) = h.state && is_guarded h r
is_guarded h (talk ∷ r) = h.sending && is_guarded h r
is_guarded h (listen ∷ r) = h.receiving && is_guarded h r
is_guarded h (close ∷ r) = h.sending && h.receiving && h.state && is_guarded h r

program-guarded : (os : List Operation) → is_guarded nothing (program os) ≡ true
unfolding program actions_of connect_actions send_actions disconnect_actions is_connected_actions
    receive_actions error_actions is_guarded
program-guarded [] = refl
program-guarded (connecting ∷ os) = program-guarded os
program-guarded (sending ∷ os) = program-guarded os
program-guarded (disconnecting ∷ os) = program-guarded os
program-guarded (asking ∷ os) = program-guarded os
program-guarded (receiving true ∷ os) = program-guarded os
program-guarded (receiving false ∷ os) = program-guarded os

abbrev pub IsGuarded : Thread → Type 0
IsGuarded t = is_guarded t.held t.rest ≡ true

abbrev pub Within : List Thread → Type 0
Within ts = (m : Mutex) → holders m ts ≤ 1

-- What a step of one thread does, from what the others and it hold.
abbrev Advanced : (Mutex → ℕ) → Held → List Action → Option Thread → Type 0
Advanced count h r none = Unit
Advanced count h r (some u) =
    IsGuarded u
    × ((m : Mutex)
        → (weight m u ≤ weight m (record { held = h; rest = r }))
          ⊎ ((count m ≡ 0) × (weight m u ≤ 1)))

has-assign :
    (m m' : Mutex) (c : Bool) (h : Held)
    → (has m' (assign m c h) ≡ has m' h) ⊎ ((m' ≡ m) × (has m' (assign m c h) ≡ c))
has-assign send_mutex send_mutex c h = inr (refl, refl)
has-assign send_mutex recv_mutex c h = inl refl
has-assign send_mutex state_mutex c h = inl refl
has-assign recv_mutex send_mutex c h = inl refl
has-assign recv_mutex recv_mutex c h = inr (refl, refl)
has-assign recv_mutex state_mutex c h = inl refl
has-assign state_mutex send_mutex c h = inl refl
has-assign state_mutex recv_mutex c h = inl refl
has-assign state_mutex state_mutex c h = inr (refl, refl)

lock-Advanced :
    (count : Mutex → ℕ) (h : Held) (m : Mutex) (r : List Action)
    → is_guarded (assign m true h) r ≡ true
    → Advanced count h (lock m ∷ r) (advance_with count h (lock m ∷ r))
unfolding advance_with
lock-Advanced count h m r g = elim (Bool-cases (count m == 0)) [
  | inr f ↦ rw f tt
  | inl t ↦ rw t (
    g,
    λ m'. elim (has-assign m m' true h) [
      | inl same ↦ inl (rw same (omega arith))
      | inr (e, _) ↦ inr (rw e (ground arith), ground arith)
    ],
  )
]

advance-Advanced :
    (count : Mutex → ℕ) (h : Held) (r : List Action)
    → is_guarded h r ≡ true
    → Advanced count h r (advance_with count h r)
unfolding advance_with is_guarded
advance-Advanced count h [] g = tt
advance-Advanced count h (lock m ∷ r) g = lock-Advanced count h m r (ground arith)
advance-Advanced count h (unlock m ∷ r) g = (
  ground arith,
  λ m'. elim (has-assign m m' false h) [
    | inl same ↦ inl (rw same (omega arith))
    | inr (_, f) ↦ inl (rw f (omega arith))
  ],
)
advance-Advanced count h (peek ∷ r) g = (ground arith, λ m. inl (omega arith))
advance-Advanced count h (talk ∷ r) g = (ground arith, λ m. inl (omega arith))
advance-Advanced count h (listen ∷ r) g = (ground arith, λ m. inl (omega arith))
advance-Advanced count h (close ∷ r) g = (ground arith, λ m. inl (omega arith))

-- One thread of the list is another now.
module _ (P : Thread → Type 0) where
  pub All-get : (i : ℕ) (ts : List Thread) (t : Thread) → All P ts → get i ts ≡ some t → P t
  All-get i [] t h e = absurd cc
  All-get zero (u ∷ ts) t (hu, hts) e = let same : u ≡ t = cc in subst P same hu
  All-get (suc i) (u ∷ ts) t (hu, hts) e = All-get i ts t hts e

  pub All-put : (i : ℕ) (u : Thread) (ts : List Thread) → All P ts → P u → All P (put i u ts)
  All-put i u [] h hu = tt
  All-put zero u (t ∷ ts) (ht, hts) hu = (hu, hts)
  All-put (suc i) u (t ∷ ts) (ht, hts) hu = (ht, All-put i u ts hts hu)

holders-put :
    (m : Mutex) (i : ℕ) (t u : Thread) (ts : List Thread)
    → get i ts ≡ some t
    → holders m (put i u ts) + weight m t ≡ holders m ts + weight m u
unfolding holders
holders-put m i t u [] e = absurd cc
holders-put m zero t u (t' ∷ ts) e = let same : t' ≡ t = cc in rw same (omega arith)
holders-put m (suc i) t u (t' ∷ ts) e = omega (arith, holders-put m i t u ts e)

abbrev pub IsSafe : List Thread → Type 0
IsSafe ts = All IsGuarded ts × Within ts

moved-IsSafe :
    (i : ℕ) (ts : List Thread) (o : Option Thread)
    → IsSafe ts
    → get i ts ≡ o
    → IsSafe (moved i ts o)
unfolding moved advance
moved-IsSafe i ts none safe e = safe
moved-IsSafe i ts (some t) (guarded, within) e =
    put_in (advance_with (λ m. holders m ts) t.held t.rest)
      (advance-Advanced (λ m. holders m ts) t.held t.rest (All-get IsGuarded i ts t guarded e))
  where
    put_in :
        (o : Option Thread)
        → Advanced (λ m. holders m ts) t.held t.rest o
        → IsSafe (elim o [ none ↦ ts | some u ↦ put i u ts ])
    put_in none a = (guarded, within)
    put_in (some u) (g, change) = (
      All-put IsGuarded i u ts guarded g,
      λ m. elim (change m) [
        | inl less ↦ omega (arith, holders-put m i t u ts e, within m)
        | inr (free, one) ↦ omega (arith, holders-put m i t u ts e)
      ],
    )

pub steps-IsSafe : (is : List ℕ) (ts : List Thread) → IsSafe ts → IsSafe (steps ts is)
unfolding steps step
steps-IsSafe [] ts safe = safe
steps-IsSafe (i ∷ is) ts safe = steps-IsSafe is (step ts i) (moved-IsSafe i ts (get i ts) safe refl)

has-nothing : (m : Mutex) → has m nothing ≡ false
has-nothing send_mutex = refl
has-nothing recv_mutex = refl
has-nothing state_mutex = refl

pub threads-IsSafe : (oss : List (List Operation)) → IsSafe (threads oss)
unfolding threads holders
threads-IsSafe [] = (tt, λ m. omega arith)
threads-IsSafe (os ∷ oss) =
    let (guarded, within) = threads-IsSafe oss in
    ((program-guarded os, guarded), λ m. rw (has-nothing m) (omega (arith, within m)))
