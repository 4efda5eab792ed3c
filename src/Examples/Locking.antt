-- ===== src/Examples/Locking.antt =====
-- Threads that share a client.
use action_learning_p2p_vers.Prelude.{◌≡◌, refl, true, false, List, [], ◌∷◌, ◌++◌, some, ℕ, arith}
use action_learning_p2p_vers.Ipc.Locks.{
  send_mutex, recv_mutex, state_mutex, lock, unlock, talk, listen, close, Operation, connecting,
  sending, receiving, nothing, threads, steps, step, moved, advance, advance_with, holders, get,
  program, actions_of, connect_actions, send_actions, receive_actions, error_actions,
}
use action_learning_p2p_vers.Ipc.Exclusion.{at_odds, steps-no_conflict}
use action_learning_p2p_vers.Ipc.Deadlock.{GoesOn, steps-GoesOn, closing, fatal, receive_deadlock}

-- One thread sends while another receives, and comes upon an error.
abbrev two : List (List Operation)
two = (sending ∷ []) ∷ (receiving true ∷ []) ∷ []

abbrev busy : List ℕ
busy = 0 ∷ 0 ∷ 0 ∷ 0 ∷ 1 ∷ 1 ∷ 1 ∷ 1 ∷ []

steps-no_conflict_example : at_odds talk listen ≡ false
unfolding steps step moved advance advance_with holders threads program actions_of send_actions
    receive_actions error_actions
steps-no_conflict_example =
    steps-no_conflict two busy 0 1 (record { sending = true; receiving = false; state = false })
      (record { sending = false; receiving = true; state = false }) talk listen
      (unlock send_mutex ∷ []) (error_actions ++ unlock recv_mutex ∷ []) (λ e. omega (arith, e))
      refl refl

-- One thread waits for the other.
abbrev waiting : List (List Operation)
waiting = (sending ∷ []) ∷ (connecting ∷ []) ∷ []

steps-GoesOn_example : GoesOn (steps (threads waiting) (0 ∷ 1 ∷ []))
unfolding steps step moved advance advance_with holders threads program actions_of send_actions
    connect_actions
steps-GoesOn_example =
    steps-GoesOn waiting (0 ∷ 1 ∷ []) 1 nothing (lock send_mutex)
      (lock recv_mutex
        ∷ lock state_mutex
        ∷ close
        ∷ unlock state_mutex
        ∷ unlock recv_mutex
        ∷ unlock send_mutex
        ∷ [])
      ((refl, tt), ((refl, tt), tt)) refl

receive_deadlock_example :
    let stuck =
      steps (threads ((receiving true ∷ sending ∷ []) ∷ (closing true ∷ []) ∷ [])) fatal in
    (steps stuck (0 ∷ 1 ∷ 0 ∷ []) ≡ stuck)
    × (get 0 stuck
        ≡ some (record {
          held = record { sending = false; receiving = true; state = false };
          rest = error_actions ++ unlock recv_mutex ∷ program (sending ∷ []);
        }))
receive_deadlock_example = receive_deadlock (sending ∷ []) [] true (0 ∷ 1 ∷ 0 ∷ [])
