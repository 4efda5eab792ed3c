-- ===== src/Crypto/Hex.antt =====
-- `ss << std::hex << std::setw(2) << std::setfill('0') << (int)hash[i]` for each byte.
use action_learning_p2p_vers.Prelude.{
  ℕ, ◌+◌, ◌-◌, ◌*◌, ◌/◌, ◌%◌, ◌<◌, ◌≡◌, refl, [], ◌∷◌, ◌++◌, arith, ltb, if◌then◌else◌, length,
  replicate, All, inl, inr, Bool-cases, ltb→lt,
}
use mathlib.Core.Path.{ap₂}
use action_learning_p2p_vers.Prelude.Text.{Text}
use action_learning_p2p_vers.Crypto.Evp.{IsByte}

unfoldable pub hex_digit : ℕ → ℕ
hex_digit d = if ltb d 10 then b'0' + d else b'a' + (d - 10)

-- `std::hex` on an int below 256: no leading zeros.
print_hex : ℕ → Text
print_hex n =
    if ltb n 16 then hex_digit n ∷ [] else hex_digit (n / 16 % 16) ∷ hex_digit (n % 16) ∷ []

-- `std::setw(width)` with a fill character.
set_width : ℕ → ℕ → Text → Text
set_width width fill t = replicate (width - length t) fill ++ t

hex_byte : ℕ → Text
unfolding print_hex set_width
hex_byte b = set_width 2 b'0' (print_hex b)

unfoldable pub to_hex : Text → Text
unfolding hex_byte
to_hex [] = []
to_hex (b ∷ bs) = hex_byte b ++ to_hex bs

small : (b : ℕ) → b < 16 → b / 16 ≡ 0
small b h = omega arith

same_low : (b : ℕ) → b < 16 → b % 16 ≡ b
same_low b h = omega arith

hex_digit_zero : hex_digit 0 ≡ b'0'
unfolding hex_digit
hex_digit_zero = refl

half : (b : ℕ) → b < 256 → b / 16 % 16 ≡ b / 16
half b h = omega arith

-- Every byte is printed as two digits, the high half first.
hex_byte_digits : (b : ℕ) → b < 256 → hex_byte b ≡ hex_digit (b / 16) ∷ hex_digit (b % 16) ∷ []
unfolding hex_byte
hex_byte_digits b h = elim (Bool-cases (ltb b 16)) [
  | inl t ↦ rw t (rw (small b (ltb→lt b 16 t), same_low b (ltb→lt b 16 t), hex_digit_zero) refl)
  | inr t ↦ rw t (rw (half b h) refl)
]

pub hex_digit_injective : (a b : ℕ) → a < 16 → b < 16 → hex_digit a ≡ hex_digit b → a ≡ b
unfolding hex_digit
hex_digit_injective a b ha hb e = ground arith

pub length-to_hex : (t : Text) → All IsByte t → length (to_hex t) ≡ 2 * length t
unfolding to_hex
length-to_hex [] h = omega arith
length-to_hex (b ∷ bs) (hb, hbs) = rw (hex_byte_digits b hb) (omega (arith, length-to_hex bs hbs))

hd_eq : {x y : ℕ} {xs ys : Text} → x ∷ xs ≡ y ∷ ys → x ≡ y
hd_eq e = cc

tl_eq : {x y : ℕ} {xs ys : Text} → x ∷ xs ≡ y ∷ ys → xs ≡ ys
tl_eq e = cc

same_byte :
    (a b : ℕ)
    → a < 256
    → b < 256
    → hex_digit (a / 16) ≡ hex_digit (b / 16)
    → hex_digit (a % 16) ≡ hex_digit (b % 16)
    → a ≡ b
same_byte a b ha hb hi lo = omega (
  arith,
  hex_digit_injective (a / 16) (b / 16) (omega arith) (omega arith) hi,
  hex_digit_injective (a % 16) (b % 16) (omega arith) (omega arith) lo,
)

-- Different bytes are printed differently.
pub to_hex-injective : (s t : Text) → All IsByte s → All IsByte t → to_hex s ≡ to_hex t → s ≡ t
unfolding to_hex
to_hex-injective [] [] hs ht e = refl
to_hex-injective [] (b ∷ bs) hs (hb, hbs) e = cc (hex_byte_digits b hb)
to_hex-injective (b ∷ bs) [] (hb, hbs) ht e = cc (hex_byte_digits b hb)
to_hex-injective (a ∷ more) (b ∷ bs) (ha, has) (hb, hbs) e =
    ap₂ ◌∷◌ (same_byte a b ha hb (hd_eq pairs) (hd_eq (tl_eq pairs)))
      (to_hex-injective more bs has hbs (tl_eq (tl_eq pairs)))
  where
    pairs :
        hex_digit (a / 16) ∷ hex_digit (a % 16) ∷ to_hex more
        ≡ hex_digit (b / 16) ∷ hex_digit (b % 16) ∷ to_hex bs
    pairs = rw (hex_byte_digits a ha, hex_byte_digits b hb) at e
