-- ===== src/Transfer/Socket.antt =====
-- `closeSocket`, `writeSocket` and `readSocket` of file_transfer.cpp, over the calls of the system.
use action_learning_p2p_vers.Prelude.{ℕ}
use action_learning_p2p_vers.Prelude.Int.{ℤ}
use action_learning_p2p_vers.Prelude.Text.{Text}
use action_learning_p2p_vers.Sockets.{Net, ReadResult, WriteResult}

abbrev pub close_socket : (n : Net) → ℤ → n.World → n.World
close_socket n fd w = n.close fd w

abbrev pub write_socket : (n : Net) → ℤ → Text → n.World → WriteResult × n.World
write_socket n fd buf w = n.write fd buf w

abbrev pub read_socket : (n : Net) → ℤ → ℕ → n.World → ReadResult × n.World
read_socket n fd count w = n.read fd count w
