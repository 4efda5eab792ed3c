-- ===== src/Ipc/Interface.antt =====
-- `IpcClient`, the interface of ipc_client.h, with the two classes that implement it and `create`.
use action_learning_p2p_vers.Prelude.{Bool, List, [], ◌∷◌, Option}
use action_learning_p2p_vers.Prelude.Text.{Text}
use action_learning_p2p_vers.Sockets.{Net}
use action_learning_p2p_vers.Ipc.Client.{Client, disconnected}
use action_learning_p2p_vers.Ipc.Client as Unix
use action_learning_p2p_vers.Ipc.Windows.{Winsock}
use action_learning_p2p_vers.Ipc.Windows as Windows

-- The operations over what a client object holds and the state of the system.
pub record IpcClient (World : Type 0) : Type 1 where
  pub State : Type 0
  pub initial : State
  pub connect : State → Text → World → Bool × State × World
  pub send : State → Text → World → Bool × World
  pub receive : State → World → Option Text × State × World
  pub disconnect : State → World → State × World
  pub is_connected : State → Bool

module _ (n : Net) (env : Option Text) where
  -- `UnixIpcClient`
  abbrev pub unix_ipc_client : IpcClient n.World
  unix_ipc_client = record {
    State = Client;
    initial = disconnected;
    connect = Unix.connect n env;
    send = Unix.send n;
    receive = Unix.receive n;
    disconnect = Unix.disconnect n;
    is_connected = Unix.is_connected n;
  }

  -- `WindowsIpcClient`
  abbrev pub windows_ipc_client : Winsock n → IpcClient n.World
  windows_ipc_client ws = record {
    State = Client;
    initial = disconnected;
    connect = Windows.connect n ws env;
    send = Windows.send n ws;
    receive = Windows.receive n ws;
    disconnect = Windows.disconnect n ws;
    is_connected = Windows.is_connected n ws;
  }

-- Whether `_WIN32` is defined.
pub data Target : Type 0 where
  win32 posix : Target

unfoldable pub create : (n : Net) → Winsock n → Option Text → Target → IpcClient n.World
create n ws env win32 = windows_ipc_client n env ws
create n ws env posix = unix_ipc_client n env

-- The calls that a client object is given, one after the other.
pub data Call : Type 0 where
  connects sends : Text → Call
  receives disconnects : Call

module _ {World : Type 0} (client : IpcClient World) where
  open client use {State, connect, send, receive, disconnect}

  unfoldable pub call : Call → State × World → State × World
  call (connects path) (c, w) = let (_, c', w') = connect c path w in (c', w')
  call (sends message) (c, w) = (c, (send c message w).1)
  call receives (c, w) = let (_, c', w') = receive c w in (c', w')
  call disconnects (c, w) = disconnect c w

  unfoldable pub run : List Call → State × World → State × World
  unfolding call
  run [] s = s
  run (x ∷ xs) s = run xs (call x s)

  -- What every call keeps, every run keeps.
  pub run-keeps :
      (P : State × World → Type 0)
      → ((x : Call) (s : State × World) → P s → P (call x s))
      → (xs : List Call) (s : State × World) → P s
      → P (run xs s)
  unfolding run
  run-keeps P keeps [] s p = p
  run-keeps P keeps (x ∷ xs) s p = run-keeps P keeps xs (call x s) (keeps x s p)
