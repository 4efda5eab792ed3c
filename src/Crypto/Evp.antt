-- ===== src/Crypto/Evp.antt =====
-- OpenSSL's EVP digest, which the daemon calls and does not implement.
use action_learning_p2p_vers.Prelude.{ℕ, ◌≡◌, ◌<◌, [], ◌++◌, Option, length, All}
use action_learning_p2p_vers.Prelude.Text.{Text}

-- `new` is `EVP_MD_CTX_new`, `none` where it returns a null pointer; `init` is `EVP_DigestInit_ex`
-- with `EVP_sha256()`, `update` is `EVP_DigestUpdate` and `final` is `EVP_DigestFinal_ex`, whose
-- result is `hash` up to `hashLen`.
pub record Evp : Type 1 where
  pub Ctx : Type 0
  pub new : Option Ctx
  pub init : Ctx → Ctx
  pub update : Ctx → Text → Ctx
  pub final : Ctx → Text

abbrev pub IsByte : ℕ → Type 0
IsByte b = b < 256

-- The documented behaviour: the digest depends on the concatenation of the updates alone, and is a
-- sequence of bytes of one length.
pub record IsDigest (e : Evp) : Type 1 where
  pub digest : Text → Text
  pub size : ℕ
  pub absorbed : e.Ctx → Text
  pub absorbed-init : (c : e.Ctx) → absorbed (e.init c) ≡ []
  pub absorbed-update : (c : e.Ctx) (t : Text) → absorbed (e.update c t) ≡ absorbed c ++ t
  pub final-digest : (c : e.Ctx) → e.final c ≡ digest (absorbed c)
  pub digest-IsByte : (t : Text) → All IsByte (digest t)
  pub length-digest : (t : Text) → length (digest t) ≡ size
