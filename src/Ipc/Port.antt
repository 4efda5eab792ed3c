-- ===== src/Ipc/Port.antt =====
-- `getIpcTcpPort`, and the port that Windows derives from the socket path.
use Prim.Native.Nat.{bit_xor}
use action_learning_p2p_vers.Prelude.{
  ℕ, ◌+◌, ◌-◌, ◌*◌, ◌%◌, ◌^◌, ◌≤◌, ◌<◌, ◌≡◌, refl, ap, ◌⊎◌, inl, inr, Bool, true, false, ◌&&◌, ◌||◌,
  List, [], ◌∷◌, Option, none, some, arith, ltb, leb, ◌==◌, if◌then◌else◌, Bool-cases, All, map,
}
use action_learning_p2p_vers.Prelude.Int.{ℤ, pos, negsuc, minus_one}
use action_learning_p2p_vers.Prelude.Text.{Text}

abbrev is_space : ℕ → Bool
is_space c = (leb 9 c && leb c 13) || c == b' '

abbrev is_digit : ℕ → Bool
is_digit c = leb b'0' c && leb c b'9'

skip_spaces : Text → Text
skip_spaces [] = []
skip_spaces (c ∷ cs) = let rest = skip_spaces cs in if is_space c then rest else c ∷ cs

-- The value of the digits that come first, after those that `acc` stands for.
unfoldable pub digits_value : ℕ → Text → ℕ
digits_value acc [] = acc
digits_value acc (c ∷ cs) =
    let rest = digits_value (10 * acc + (c - b'0')) cs in if is_digit c then rest else acc

-- `std::stoi` after the sign: `none` is an exception, for want of a digit or out of the range of int.
unfoldable pub unsigned_value : ℕ → (ℕ → ℤ) → Text → Option ℤ
unsigned_value limit sign [] = none
unsigned_value limit sign (c ∷ cs) =
    if is_digit c
    then (let v = digits_value 0 (c ∷ cs) in if leb v limit then some (sign v) else none)
    else none

abbrev negate : ℕ → ℤ
negate n = elim n [ ℕ.zero ↦ pos 0 | ℕ.suc k ↦ negsuc k ]

signed_value : Text → Option ℤ
signed_value [] = none
signed_value (c ∷ cs) =
    if c == b'-'
    then unsigned_value 2147483648 negate cs
    else if c == b'+'
    then unsigned_value 2147483647 pos cs
    else unsigned_value 2147483647 pos (c ∷ cs)

unfoldable pub stoi : Text → Option ℤ
unfolding signed_value skip_spaces
stoi t = signed_value (skip_spaces t)

abbrev in_range : Option ℤ → ℤ
in_range none = minus_one
in_range (some (negsuc n)) = minus_one
in_range (some (pos n)) = if ltb 0 n && leb n 65535 then pos n else minus_one

unsigned_atoi : (ℕ → ℤ) → Text → ℤ
unsigned_atoi sign [] = pos 0
unsigned_atoi sign (c ∷ cs) =
    if is_digit c then (let v = digits_value 0 (c ∷ cs) in sign v) else pos 0

signed_atoi : Text → ℤ
unfolding unsigned_atoi
signed_atoi [] = pos 0
signed_atoi (c ∷ cs) =
    if c == b'-'
    then unsigned_atoi negate cs
    else if c == b'+'
    then unsigned_atoi pos cs
    else unsigned_atoi pos (c ∷ cs)

-- `std::atoi`: 0 where there is no number. Out of the range of int it is undefined in C, and here
-- the value itself.
unfoldable pub atoi : Text → ℤ
unfolding signed_atoi skip_spaces
atoi t = signed_atoi (skip_spaces t)

-- The argument is the value of the environment variable IPC_TCP_PORT.
unfoldable pub get_ipc_tcp_port : Option Text → ℤ
get_ipc_tcp_port none = minus_one
get_ipc_tcp_port (some []) = minus_one
get_ipc_tcp_port (some (c ∷ cs)) = in_range (stoi (c ∷ cs))

-- `h = (h ^ static_cast<unsigned char>(c)) * 16777619` on a 32-bit unsigned int.
fnv_loop : ℕ → Text → ℕ
fnv_loop h [] = h
fnv_loop h (c ∷ cs) = fnv_loop (bit_xor h c * 16777619 % 2 ^ 32) cs

unfoldable pub derive_port : Text → ℕ
unfolding fnv_loop
derive_port path = 10000 + fnv_loop 2166136261 path % 20000

-- Whatever IPC_TCP_PORT is, the port is from 1 to 65535, or -1.
pub get_ipc_tcp_port_range :
    (env : Option Text)
    → (get_ipc_tcp_port env ≡ minus_one)
      ⊎ ((p : ℕ) × (get_ipc_tcp_port env ≡ pos p) × (0 < p) × (p ≤ 65535))
unfolding get_ipc_tcp_port
get_ipc_tcp_port_range none = inl refl
get_ipc_tcp_port_range (some []) = inl refl
get_ipc_tcp_port_range (some (c ∷ cs)) = range (stoi (c ∷ cs))
  where
    range :
        (o : Option ℤ)
        → (in_range o ≡ minus_one) ⊎ ((p : ℕ) × (in_range o ≡ pos p) × (0 < p) × (p ≤ 65535))
    range none = inl refl
    range (some (negsuc n)) = inl refl
    range (some (pos n)) = elim (Bool-cases (ltb 0 n && leb n 65535)) [
      | inl t ↦ inr (n, rw t, ground arith, ground arith)
      | inr t ↦ inl (rw t)
    ]

-- A decimal digit as a character.
abbrev pub IsDigit : ℕ → Type 0
IsDigit d = d < 10

abbrev pub decimal : List ℕ → Text
decimal = map λ d. b'0' + d

-- The number that a list of digits stands for, the highest first.
unfoldable pub number : ℕ → List ℕ → ℕ
number acc [] = acc
number acc (d ∷ ds) = number (10 * acc + d) ds

digits_value-decimal :
    (acc : ℕ) (ds : List ℕ) → All IsDigit ds → digits_value acc (decimal ds) ≡ number acc ds
unfolding digits_value number
digits_value-decimal acc [] h = refl
digits_value-decimal acc (d ∷ ds) (hd, hds) =
    let same : b'0' + d - b'0' ≡ d = omega arith in
    let digit : is_digit (b'0' + d) ≡ true = ground arith in
    rw (same, digit) (digits_value-decimal (10 * acc + d) ds hds)

unsigned_value-decimal :
    (d : ℕ) (ds : List ℕ)
    → IsDigit d
    → All IsDigit ds
    → number 0 (d ∷ ds) ≤ 65535
    → unsigned_value 2147483647 pos (decimal (d ∷ ds)) ≡ some (pos (number 0 (d ∷ ds)))
unfolding unsigned_value
unsigned_value-decimal d ds hd hds le = ground (arith, digits_value-decimal 0 (d ∷ ds) (hd, hds))

-- A number begins with no space and no sign.
stoi-decimal :
    (d : ℕ) (ds : List ℕ)
    → IsDigit d
    → All IsDigit ds
    → number 0 (d ∷ ds) ≤ 65535
    → stoi (decimal (d ∷ ds)) ≡ some (pos (number 0 (d ∷ ds)))
unfolding stoi
stoi-decimal d ds hd hds le =
    let space : is_space (b'0' + d) ≡ false = ground arith in
    let minus : (b'0' + d == b'-') ≡ false = ground arith in
    let plus : (b'0' + d == b'+') ≡ false = ground arith in
    rw (space, minus, plus) (unsigned_value-decimal d ds hd hds le)

pub atoi-decimal :
    (d : ℕ) (ds : List ℕ)
    → IsDigit d
    → All IsDigit ds
    → atoi (decimal (d ∷ ds)) ≡ pos (number 0 (d ∷ ds))
unfolding atoi unsigned_atoi
atoi-decimal d ds hd hds =
    let space : is_space (b'0' + d) ≡ false = ground arith in
    let minus : (b'0' + d == b'-') ≡ false = ground arith in
    let plus : (b'0' + d == b'+') ≡ false = ground arith in
    let digit : is_digit (b'0' + d) ≡ true = ground arith in
    rw (space, minus, plus, digit) (ap pos (digits_value-decimal 0 (d ∷ ds) (hd, hds)))

-- A port from 1 to 65535 that is written in decimal, leading zeros or not, is the port that is read.
pub get_ipc_tcp_port-decimal :
    (d : ℕ) (ds : List ℕ)
    → IsDigit d
    → All IsDigit ds
    → 0 < number 0 (d ∷ ds)
    → number 0 (d ∷ ds) ≤ 65535
    → get_ipc_tcp_port (some (decimal (d ∷ ds))) ≡ pos (number 0 (d ∷ ds))
unfolding get_ipc_tcp_port
get_ipc_tcp_port-decimal d ds hd hds lt le = rw (stoi-decimal d ds hd hds le) (ground arith)
