-- ===== src/Ipc/Exclusion.antt =====
-- No two threads at odds over the socket.
use action_learning_p2p_vers.Prelude.{
  ℕ, zero, suc, ◌+◌, ◌≤◌, ◌≡◌, ◌≢◌, refl, ap, ◌||◌, Bool, true, false, ◌&&◌, List, [], ◌∷◌, some,
  arith,
}
use action_learning_p2p_vers.Ipc.Locks.{
  Mutex, send_mutex, recv_mutex, state_mutex, Action, lock, unlock, peek, talk, listen, close,
  Operation, Held, has, Thread, weight, holders, get, steps, threads,
}
use action_learning_p2p_vers.Ipc.Guards.{
  is_guarded, IsGuarded, All-get, steps-IsSafe, threads-IsSafe,
}

weight-holders :
    (m : Mutex) (i : ℕ) (t : Thread) (ts : List Thread)
    → get i ts ≡ some t
    → weight m t ≤ holders m ts
unfolding holders
weight-holders m i t [] e = absurd cc
weight-holders m zero t (t' ∷ ts) e = let same : t' ≡ t = cc in rw same (omega arith)
weight-holders m (suc i) t (t' ∷ ts) e = omega (arith, weight-holders m i t ts e)

weights-holders :
    (m : Mutex) (i j : ℕ) (t u : Thread) (ts : List Thread)
    → i ≢ j
    → get i ts ≡ some t
    → get j ts ≡ some u
    → weight m t + weight m u ≤ holders m ts
unfolding holders
weights-holders m i j t u [] ne e e' = absurd cc
weights-holders m zero zero t u (t' ∷ ts) ne e e' = absurd (ne refl)
weights-holders m zero (suc j) t u (t' ∷ ts) ne e e' =
    let same : t' ≡ t = cc in rw same (omega (arith, weight-holders m j u ts e'))
weights-holders m (suc i) zero t u (t' ∷ ts) ne e e' =
    let same : t' ≡ u = cc in rw same (omega (arith, weight-holders m i t ts e))
weights-holders m (suc i) (suc j) t u (t' ∷ ts) ne e e' =
    omega (arith, weights-holders m i j t u ts (λ x. ne (ap suc x)) e e')

abbrev pub closes : Action → Bool
closes close = true
closes _ = false

abbrev pub talks : Action → Bool
talks talk = true
talks _ = false

abbrev pub listens : Action → Bool
listens listen = true
listens _ = false

abbrev pub uses : Action → Bool
uses (lock m) = false
uses (unlock m) = false
uses _ = true

-- Closing is at odds with every use of the socket, and two messages that are written or read at a
-- time are mixed up.
abbrev pub at_odds : Action → Action → Bool
at_odds a b =
    (closes a && uses b) || (uses a && closes b) || (talks a && talks b) || (listens a && listens b)

-- What a thread holds where it comes to an action.
abbrev Needs : Action → Held → Type 0
Needs a h =
    (closes a ≡ true → (h.sending ≡ true) × (h.receiving ≡ true) × (h.state ≡ true))
    × (talks a ≡ true → h.sending ≡ true)
    × (listens a ≡ true → h.receiving ≡ true)
    × (uses a ≡ true → h.sending || h.receiving || h.state ≡ true)

guarded-Needs : (a : Action) (r : List Action) (h : Held) → is_guarded h (a ∷ r) ≡ true → Needs a h
unfolding is_guarded
guarded-Needs (lock m) r h g = (λ e. absurd cc, λ e. absurd cc, λ e. absurd cc, λ e. absurd cc)
guarded-Needs (unlock m) r h g = (λ e. absurd cc, λ e. absurd cc, λ e. absurd cc, λ e. absurd cc)
guarded-Needs peek r h g = (λ e. absurd cc, λ e. absurd cc, λ e. absurd cc, λ e. ground arith)
guarded-Needs talk r h g = (λ e. absurd cc, λ e. ground arith, λ e. absurd cc, λ e. ground arith)
guarded-Needs listen r h g = (λ e. absurd cc, λ e. absurd cc, λ e. ground arith, λ e. ground arith)
guarded-Needs close r h g = (
  λ e. (ground arith, ground arith, ground arith),
  λ e. absurd cc,
  λ e. absurd cc,
  λ e. ground arith,
)

-- Two threads that share no mutex are at no odds.
apart :
    (a b : Action) (h k : Held)
    → Needs a h
    → Needs b k
    → ((m : Mutex) → has m h && has m k ≡ false)
    → at_odds a b ≡ false
apart a b h k (ca, ta, la, ua) (cb, tb, lb, ub) disjoint = ground (
  arith,
  disjoint send_mutex,
  disjoint recv_mutex,
  disjoint state_mutex,
  ca,
  ta,
  la,
  ua,
  cb,
  tb,
  lb,
  ub,
)

-- However many threads share a client, whatever calls each makes, failing calls of `receive`
-- included, and however the scheduler lets them go on: two different threads are never both about to
-- do actions on the socket that are at odds. So the socket is not closed under a thread that reads
-- its descriptor or is in `write` or `read`, and no two messages are written or read at a time.
pub steps-no_conflict :
    (oss : List (List Operation)) (is : List ℕ) (i j : ℕ) (h k : Held) (a b : Action)
    (r s : List Action)
    → i ≢ j
    → get i (steps (threads oss) is) ≡ some (record { held = h; rest = a ∷ r })
    → get j (steps (threads oss) is) ≡ some (record { held = k; rest = b ∷ s })
    → at_odds a b ≡ false
steps-no_conflict oss is i j h k a b r s ne e e' =
    let (guarded, within) = steps-IsSafe is (threads oss) (threads-IsSafe oss) in
    apart a b h k (guarded-Needs a r h (All-get IsGuarded i _ _ guarded e))
      (guarded-Needs b s k (All-get IsGuarded j _ _ guarded e'))
      (λ m. ground (arith, within m, weights-holders m i j _ _ _ ne e e'))
