-- ===== src/Watch/Bytes.antt =====
-- The words of the records that the operating systems fill in, on a little-endian machine.
use action_learning_p2p_vers.Prelude.{
  ℕ, ◌+◌, ◌-◌, ◌*◌, ◌/◌, ◌%◌, ◌<◌, ◌≡◌, refl, [], ◌∷◌, ◌++◌, arith, ◌==◌, ltb, if◌then◌else◌, All,
}
use action_learning_p2p_vers.Prelude.Int.{ℤ, pos, negsuc}
use action_learning_p2p_vers.Prelude.Text.{Text}

-- A `uint32_t` of four bytes.
unfoldable pub u32_of : ℕ → ℕ → ℕ → ℕ → ℕ
u32_of a b c d = a + 256 * b + 65536 * c + 16777216 * d

-- The 32 bits as an `int`.
unfoldable pub i32_of : ℕ → ℤ
i32_of n = if ltb n 2147483648 then pos n else negsuc (4294967295 - n)

-- The four bytes of a `uint32_t`, and the 32 bits of an `int`.
unfoldable pub u32_bytes : ℕ → Text
u32_bytes n = n % 256 ∷ n / 256 % 256 ∷ n / 65536 % 256 ∷ n / 16777216 ∷ []

unfoldable pub i32_bits : ℤ → ℕ
i32_bits (pos n) = n
i32_bits (negsuc n) = 4294967295 - n

pub u32_of-bytes : (n : ℕ) → u32_of (n % 256) (n / 256 % 256) (n / 65536 % 256) (n / 16777216) ≡ n
unfolding u32_of
u32_of-bytes n = omega arith

-- An `int` is from -2147483648 to 2147483647.
abbrev pub IsI32 : ℤ → Type 0
IsI32 (pos n) = n < 2147483648
IsI32 (negsuc n) = n < 2147483648

pub i32_of-bits : (i : ℤ) → IsI32 i → i32_of (i32_bits i) ≡ i
unfolding i32_of i32_bits
i32_of-bits (pos n) h = ground arith
i32_of-bits (negsuc n) h = ground arith

-- The bytes up to the first zero: what `std::string` reads at a `const char*`.
unfoldable pub c_string : Text → Text
c_string [] = []
c_string (b ∷ bytes) = let rest = c_string bytes in if b == 0 then [] else b ∷ rest

pub c_string-padded :
    (name padding : Text) → All (λ b. 0 < b) name → c_string (name ++ 0 ∷ padding) ≡ name
unfolding c_string
c_string-padded [] padding h = refl
c_string-padded (b ∷ bytes) padding (hb, hbs) = ground (arith, c_string-padded bytes padding hbs)
