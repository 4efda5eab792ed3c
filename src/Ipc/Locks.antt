-- ===== src/Ipc/Locks.antt =====
-- The mutexes of a client: in which order each operation takes them, and threads that share them.
use action_learning_p2p_vers.Prelude.{
  ℕ, zero, suc, ◌+◌, Bool, true, false, List, [], ◌∷◌, ◌++◌, Option, none, some, ◌==◌,
  if◌then◌else◌,
}

-- `sendMutex_`, `recvMutex_` and `stateMutex_`
pub data Mutex : Type 0 where
  send_mutex recv_mutex state_mutex : Mutex

-- What a thread does with the mutexes, and with the socket: reading `socketFd_`, calls of `write`
-- and of `read`, and what closes the socket or assigns to `socketFd_`.
pub data Action : Type 0 where
  lock unlock : Mutex → Action
  peek talk listen close : Action

-- `disconnectOnError`
unfoldable pub error_actions : List Action
error_actions =
    lock send_mutex ∷ lock state_mutex ∷ close ∷ unlock state_mutex ∷ unlock send_mutex ∷ []

unfoldable pub connect_actions : List Action
connect_actions =
    lock send_mutex
    ∷ lock recv_mutex
    ∷ lock state_mutex
    ∷ close
    ∷ unlock state_mutex
    ∷ unlock recv_mutex
    ∷ unlock send_mutex
    ∷ []

unfoldable pub disconnect_actions : List Action
disconnect_actions =
    lock send_mutex
    ∷ lock recv_mutex
    ∷ lock state_mutex
    ∷ close
    ∷ unlock state_mutex
    ∷ unlock recv_mutex
    ∷ unlock send_mutex
    ∷ []

unfoldable pub send_actions : List Action
send_actions =
    lock send_mutex ∷ lock state_mutex ∷ peek ∷ unlock state_mutex ∷ talk ∷ unlock send_mutex ∷ []

-- The flag is whether the call ends in `disconnectOnError`.
unfoldable pub receive_actions : Bool → List Action
unfolding error_actions
receive_actions fails =
    lock recv_mutex
    ∷ lock state_mutex
    ∷ peek
    ∷ unlock state_mutex
    ∷ listen
    ∷ ((if fails then error_actions else []) ++ (unlock recv_mutex ∷ []))

unfoldable pub is_connected_actions : List Action
is_connected_actions = lock state_mutex ∷ peek ∷ unlock state_mutex ∷ []

pub data Operation : Type 0 where
  connecting sending disconnecting asking : Operation
  receiving : Bool → Operation

unfoldable pub actions_of : Operation → List Action
unfolding connect_actions send_actions disconnect_actions is_connected_actions receive_actions
actions_of connecting = connect_actions
actions_of sending = send_actions
actions_of disconnecting = disconnect_actions
actions_of asking = is_connected_actions
actions_of (receiving fails) = receive_actions fails

-- The calls that one thread makes, one after the other.
unfoldable pub program : List Operation → List Action
unfolding actions_of
program [] = []
program (o ∷ os) = actions_of o ++ program os

pub record Held : Type 0 where
  pub sending : Bool
  pub receiving : Bool
  pub state : Bool

abbrev pub nothing : Held
nothing = record { sending = false; receiving = false; state = false }

abbrev pub has : Mutex → Held → Bool
has send_mutex h = h.sending
has recv_mutex h = h.receiving
has state_mutex h = h.state

abbrev pub assign : Mutex → Bool → Held → Held
assign send_mutex b h = record h { sending = b }
assign recv_mutex b h = record h { receiving = b }
assign state_mutex b h = record h { state = b }

-- What a thread holds, and what it has still to do.
pub record Thread : Type 0 where
  pub held : Held
  pub rest : List Action

abbrev pub weight : Mutex → Thread → ℕ
weight m t = if has m t.held then 1 else 0

-- How many threads hold a mutex.
unfoldable pub holders : Mutex → List Thread → ℕ
holders m [] = 0
holders m (t ∷ ts) = weight m t + holders m ts

-- A thread's next step beside the others, `none` where there is none or it has to wait.
unfoldable pub advance_with : (Mutex → ℕ) → Held → List Action → Option Thread
advance_with count h [] = none
advance_with count h (lock m ∷ r) =
    if count m == 0 then some (record { held = assign m true h; rest = r }) else none
advance_with count h (unlock m ∷ r) = some (record { held = assign m false h; rest = r })
advance_with count h (peek ∷ r) = some (record { held = h; rest = r })
advance_with count h (talk ∷ r) = some (record { held = h; rest = r })
advance_with count h (listen ∷ r) = some (record { held = h; rest = r })
advance_with count h (close ∷ r) = some (record { held = h; rest = r })

unfoldable pub advance : List Thread → Thread → Option Thread
unfolding advance_with holders
advance all t = advance_with (λ m. holders m all) t.held t.rest

abbrev pub get : ℕ → List Thread → Option Thread
get i [] = none
get zero (t ∷ ts) = some t
get (suc i) (t ∷ ts) = get i ts

abbrev pub put : ℕ → Thread → List Thread → List Thread
put i u [] = []
put zero u (t ∷ ts) = u ∷ ts
put (suc i) u (t ∷ ts) = t ∷ put i u ts

unfoldable pub moved : ℕ → List Thread → Option Thread → List Thread
unfolding advance
moved i ts none = ts
moved i ts (some t) = elim (advance ts t) [ none ↦ ts | some u ↦ put i u ts ]

-- The scheduler lets thread `i` go on, which does nothing where the thread has to wait.
unfoldable pub step : List Thread → ℕ → List Thread
unfolding moved
step ts i = moved i ts (get i ts)

unfoldable pub steps : List Thread → List ℕ → List Thread
unfolding step
steps ts [] = ts
steps ts (i ∷ is) = steps (step ts i) is

-- One thread for each list of calls.
unfoldable pub threads : List (List Operation) → List Thread
unfolding program
threads [] = []
threads (os ∷ oss) = record { held = nothing; rest = program os } ∷ threads oss
