-- ===== src/Ipc/Order.antt =====
-- Calls that take the mutexes in their order.
use action_learning_p2p_vers.Prelude.{
  ℕ, ◌≡◌, refl, Bool, true, false, not, ◌&&◌, List, [], ◌∷◌, Option, none, some, arith, ◌==◌, All,
  if◌then◌else◌,
}
use action_learning_p2p_vers.Ipc.Locks.{
  Mutex, send_mutex, recv_mutex, state_mutex, Action, lock, unlock, peek, talk, listen, close,
  Operation, connecting, sending, disconnecting, asking, receiving, actions_of, program, Held,
  nothing, assign, Thread, holders, advance_with, advance, get, put, moved, step, steps, threads,
  connect_actions, send_actions, disconnect_actions, is_connected_actions, receive_actions,
  error_actions,
}
use action_learning_p2p_vers.Ipc.Guards.{All-get, All-put}

abbrev pub rank : Mutex → ℕ
rank send_mutex = 0
rank recv_mutex = 1
rank state_mutex = 2

-- Nothing is held that comes after the mutex, nor the mutex itself.
abbrev pub is_above : Mutex → Held → Bool
is_above send_mutex h = not h.sending && not h.receiving && not h.state
is_above recv_mutex h = not h.receiving && not h.state
is_above state_mutex h = not h.state

-- The mutexes are taken in their order, and all of them are given back.
unfoldable pub is_ordered : Held → List Action → Bool
is_ordered h [] = not h.sending && not h.receiving && not h.state
is_ordered h (lock m ∷ r) = is_above m h && is_ordered (assign m true h) r
is_ordered h (unlock m ∷ r) = is_ordered (assign m false h) r
is_ordered h (peek ∷ r) = is_ordered h r
is_ordered h (talk ∷ r) = is_ordered h r
is_ordered h (listen ∷ r) = is_ordered h r
is_ordered h (close ∷ r) = is_ordered h r

-- A call of `receive` that does not go on to `disconnectOnError`, or any other call.
abbrev pub is_calm : Operation → Bool
is_calm (receiving fails) = not fails
is_calm _ = true

abbrev pub IsCalm : List Operation → Type 0
IsCalm = All λ o. is_calm o ≡ true

program-ordered : (os : List Operation) → IsCalm os → is_ordered nothing (program os) ≡ true
unfolding program actions_of connect_actions send_actions disconnect_actions is_connected_actions
    receive_actions error_actions is_ordered
program-ordered [] c = refl
program-ordered (connecting ∷ os) (c, cs) = program-ordered os cs
program-ordered (sending ∷ os) (c, cs) = program-ordered os cs
program-ordered (disconnecting ∷ os) (c, cs) = program-ordered os cs
program-ordered (asking ∷ os) (c, cs) = program-ordered os cs
program-ordered (receiving true ∷ os) (c, cs) = absurd cc
program-ordered (receiving false ∷ os) (c, cs) = program-ordered os cs

abbrev pub IsOrdered : Thread → Type 0
IsOrdered t = is_ordered t.held t.rest ≡ true

pub threads-IsOrdered : (oss : List (List Operation)) → All IsCalm oss → All IsOrdered (threads oss)
unfolding threads
threads-IsOrdered [] c = tt
threads-IsOrdered (os ∷ oss) (c, cs) = (program-ordered os c, threads-IsOrdered oss cs)

abbrev Then : Option Thread → Type 0
Then none = Unit
Then (some u) = IsOrdered u

Then-if : (b : Bool) (u : Thread) → IsOrdered u → Then (if b then some u else none)
Then-if true u h = h
Then-if false u h = tt

advance-Then :
    (count : Mutex → ℕ) (h : Held) (r : List Action)
    → is_ordered h r ≡ true
    → Then (advance_with count h r)
unfolding advance_with is_ordered
advance-Then count h [] o = tt
advance-Then count h (lock m ∷ r) o = Then-if (count m == 0) _ (ground arith)
advance-Then count h (unlock m ∷ r) o = o
advance-Then count h (peek ∷ r) o = o
advance-Then count h (talk ∷ r) o = o
advance-Then count h (listen ∷ r) o = o
advance-Then count h (close ∷ r) o = o

moved-IsOrdered :
    (i : ℕ) (ts : List Thread) (o : Option Thread)
    → All IsOrdered ts
    → get i ts ≡ o
    → All IsOrdered (moved i ts o)
unfolding moved advance
moved-IsOrdered i ts none h e = h
moved-IsOrdered i ts (some t) h e =
    put_in (advance_with (λ m. holders m ts) t.held t.rest)
      (advance-Then (λ m. holders m ts) t.held t.rest (All-get IsOrdered i ts t h e))
  where
    put_in :
        (o : Option Thread) → Then o → All IsOrdered (elim o [ none ↦ ts | some u ↦ put i u ts ])
    put_in none a = h
    put_in (some u) a = All-put IsOrdered i u ts h a

pub steps-IsOrdered :
    (is : List ℕ) (ts : List Thread) → All IsOrdered ts → All IsOrdered (steps ts is)
unfolding steps step
steps-IsOrdered [] ts h = h
steps-IsOrdered (i ∷ is) ts h =
    steps-IsOrdered is (step ts i) (moved-IsOrdered i ts (get i ts) h refl)
