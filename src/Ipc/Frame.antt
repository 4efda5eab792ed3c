-- ===== src/Ipc/Frame.antt =====
-- The frame of a message: `htonl` of its length, and the message.
use action_learning_p2p_vers.Prelude.{
  ℕ, ◌+◌, ◌*◌, ◌/◌, ◌%◌, ◌^◌, ◌<◌, ◌≡◌, ap, [], ◌∷◌, ◌++◌, arith, length, take, take_all,
}
use action_learning_p2p_vers.Prelude.Text.{Text}

-- `static_cast<uint32_t>(message.size())`
abbrev pub u32_size : Text → ℕ
u32_size message = length message % 2 ^ 32

-- The bytes of `htonl(len)` in memory, and `ntohl` of four bytes.
unfoldable pub htonl : ℕ → Text
htonl len = len / 2 ^ 24 % 256 ∷ len / 2 ^ 16 % 256 ∷ len / 2 ^ 8 % 256 ∷ len % 256 ∷ []

unfoldable pub ntohl : Text → ℕ
ntohl (a ∷ b ∷ c ∷ d ∷ []) = a * 2 ^ 24 + b * 2 ^ 16 + c * 2 ^ 8 + d
ntohl t = 0

-- What `send` puts on the wire.
unfoldable pub frame : Text → Text
frame message = htonl (u32_size message) ++ take (u32_size message) message

pub ntohl-htonl : (len : ℕ) → len < 2 ^ 32 → ntohl (htonl len) ≡ len
unfolding ntohl htonl
ntohl-htonl len h = omega arith

-- The bytes of a header that is read back are those that were written.
pub htonl-ntohl :
    (a b c d : ℕ)
    → a < 256
    → b < 256
    → c < 256
    → d < 256
    → htonl (ntohl (a ∷ b ∷ c ∷ d ∷ [])) ≡ a ∷ b ∷ c ∷ d ∷ []
unfolding ntohl htonl
htonl-ntohl a b c d ha hb hc hd = ground arith

-- Below four gigabytes the length is exact and the whole message is sent.
pub frame_exact :
    (message : Text) → length message < 2 ^ 32 → frame message ≡ htonl (length message) ++ message
unfolding frame
frame_exact message h =
    let exact : u32_size message ≡ length message = omega arith in
    rw exact (ap (◌++◌ (htonl (length message))) (take_all (length message) message (omega arith)))
