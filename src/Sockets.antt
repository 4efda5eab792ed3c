-- ===== src/Sockets.antt =====
-- The socket calls of file_transfer.cpp and ipc_client.cpp, which the operating system implements.
use action_learning_p2p_vers.Prelude.{
  ℕ, suc, ◌-◌, ◌%◌, ◌≤◌, ◌<◌, ◌∷◌, ◌≡◌, Bool, true, false, not, ◌&&◌, ◌++◌, ◌==◌, arith,
  if◌then◌else◌, length, take,
}
use action_learning_p2p_vers.Prelude.Int.{ℤ, pos, negsuc, is_negative}
use action_learning_p2p_vers.Prelude.Text.{Text}

pub data Domain : Type 0 where
  inet unix : Domain

-- 127.0.0.1 with a port in host byte order, or the path of a Unix domain socket.
pub data Address : Type 0 where
  loopback : ℕ → Address
  local : Text → Address

-- `read`: what it put into the buffer, where nothing is the end of the stream; or -1, with `errno`
-- EAGAIN or EWOULDBLOCK, or another.
pub data ReadResult : Type 0 where
  got : Text → ReadResult
  timed_out failed : ReadResult

-- `write`: how many bytes it took; or -1.
pub data WriteResult : Type 0 where
  wrote : ℕ → WriteResult
  timed_out failed : WriteResult

-- `connect` is true where the call returns no error. `set_timeouts` is `setsockopt` with
-- SO_RCVTIMEO, and with SO_SNDTIMEO where the flag is set, in seconds.
pub record Net : Type 1 where
  pub World : Type 0
  pub socket : Domain → World → ℤ × World
  pub connect : ℤ → Address → World → Bool × World
  pub set_timeouts : ℤ → ℕ → Bool → World → World
  pub close : ℤ → World → World
  pub read : ℤ → ℕ → World → ReadResult × World
  pub write : ℤ → Text → World → WriteResult × World

abbrev pub int_eq : ℤ → ℤ → Bool
int_eq (pos a) (pos b) = a == b
int_eq (pos a) (negsuc b) = false
int_eq (negsuc a) (pos b) = false
int_eq (negsuc a) (negsuc b) = a == b

pub int_eq→eq : (a b : ℤ) → int_eq a b ≡ true → a ≡ b
int_eq→eq (pos a) (pos b) h = ground arith
int_eq→eq (pos a) (negsuc b) h = cc
int_eq→eq (negsuc a) (pos b) h = cc
int_eq→eq (negsuc a) (negsuc b) h = ground arith

-- `htons` takes an int to its low 16 bits.
abbrev pub to_u16 : ℤ → ℕ
to_u16 (pos n) = n % 65536
to_u16 (negsuc n) = 65535 - n % 65536

-- A read takes at most `n` bytes from the front of what is to come, and an error takes none.
abbrev pub ReadLaw : ℕ → Text → Text → ReadResult → Type 0
ReadLaw n before later (got bytes) = (length bytes ≤ n) × (before ≡ bytes ++ later)
ReadLaw n before later ReadResult.timed_out = later ≡ before
ReadLaw n before later ReadResult.failed = later ≡ before

-- A write takes a front part of the buffer, and an error takes none.
abbrev pub WriteLaw : Text → Text → Text → WriteResult → Type 0
WriteLaw buffer before later (wrote k) = (k ≤ length buffer) × (later ≡ before ++ take k buffer)
WriteLaw buffer before later WriteResult.timed_out = later ≡ before
WriteLaw buffer before later WriteResult.failed = later ≡ before

-- Stream sockets as documented: `incoming` is what the peer's side of the stream still holds,
-- `outgoing` is what this side has handed over.
pub record IsStream (n : Net) : Type 1 where
  pub incoming : ℤ → n.World → Text
  pub outgoing : ℤ → n.World → Text
  pub read_law :
      (fd : ℤ) (k : ℕ) (w : n.World)
      → ReadLaw k (incoming fd w) (incoming fd (n.read fd k w).1) (n.read fd k w).0
  pub write_law :
      (fd : ℤ) (b : Text) (w : n.World)
      → WriteLaw b (outgoing fd w) (outgoing fd (n.write fd b w).1) (n.write fd b w).0

-- What the stream holds is delivered: no read fails or times out while there is something to read.
abbrev pub Delivers : (n : Net) → IsStream n → ℤ → Type 0
Delivers n s fd =
    (k : ℕ) (w : n.World)
    → 0 < k
    → 0 < length (s.incoming fd w)
    → (b : ℕ) × (bytes : Text) × ((n.read fd k w).0 ≡ got (b ∷ bytes))

-- The peer takes what it is given.
abbrev pub IsReliable : (n : Net) → ℤ → Type 0
IsReliable n fd =
    (b : ℕ) (bytes : Text) (w : n.World) → (k : ℕ) × ((n.write fd (b ∷ bytes) w).0 ≡ wrote (suc k))

-- Which descriptors the process holds.
pub record IsHolding (n : Net) : Type 1 where
  pub holds : n.World → ℤ → Bool
  pub socket_fresh :
      (m : Domain) (w : n.World)
      → is_negative (n.socket m w).0 ≡ false
      → holds w (n.socket m w).0 ≡ false
  pub holds-socket :
      (m : Domain) (w : n.World) (g : ℤ)
      → holds (n.socket m w).1 g ≡ (
          if not (is_negative (n.socket m w).0) && int_eq g (n.socket m w).0
          then true
          else holds w g)
  pub holds-close :
      (fd : ℤ) (w : n.World) (g : ℤ)
      → holds (n.close fd w) g ≡ (if int_eq g fd then false else holds w g)
  pub holds-connect :
      (fd : ℤ) (a : Address) (w : n.World) (g : ℤ) → holds (n.connect fd a w).1 g ≡ holds w g
  pub holds-set_timeouts :
      (fd : ℤ) (s : ℕ) (b : Bool) (w : n.World) (g : ℤ)
      → holds (n.set_timeouts fd s b w) g ≡ holds w g
  pub holds-read : (fd : ℤ) (k : ℕ) (w : n.World) (g : ℤ) → holds (n.read fd k w).1 g ≡ holds w g
  pub holds-write :
      (fd : ℤ) (b : Text) (w : n.World) (g : ℤ) → holds (n.write fd b w).1 g ≡ holds w g
