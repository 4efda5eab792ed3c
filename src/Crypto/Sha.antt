-- ===== src/Crypto/Sha.antt =====
-- `crypto::sha256` and `crypto::sha256_file`.
use action_learning_p2p_vers.Prelude.{
  ℕ, zero, suc, ◌+◌, [], Option, none, some, leb, if◌then◌else◌, length, take, drop,
}
use action_learning_p2p_vers.Prelude.Text.{Text}
use action_learning_p2p_vers.Disk.Io.{Io, pure, ◌>>=◌}
use action_learning_p2p_vers.Disk.Ops.{read_file}
use action_learning_p2p_vers.Crypto.Evp.{Evp}
use action_learning_p2p_vers.Crypto.Hex.{to_hex}

abbrev pub buffer_size : ℕ
buffer_size = 4096

module _ (e : Evp) where
  open e use {Ctx, new, init, update, final}

  -- The result is empty where no context can be had.
  unfoldable pub sha256 : Text → Text
  sha256 input = elim new [ none ↦ [] | some c ↦ to_hex (final (update (init c) input)) ]

  -- `while (file.read(buffer, 4096)) update(buffer)`, and the update with what the last `read` got,
  -- on what is left of the file. `read` succeeds when it fills the buffer. Each round takes 4096
  -- bytes; out of fuel, the rest would be lost.
  unfoldable pub update_all : ℕ → Ctx → Text → Ctx
  update_all zero c rest = c
  update_all (suc fuel) c rest =
      let more = update_all fuel (update c (take buffer_size rest)) (drop buffer_size rest) in
      if leb buffer_size (length rest) then more else update c rest

  -- What `hash_out` becomes; `none` is the result false, and leaves it as it was.
  unfoldable pub hash_content : Option Text → Option Text
  hash_content none = none
  hash_content (some content) = elim new [
    | none ↦ none
    | some c ↦ some (to_hex (final (update_all (length content + 1) (init c) content)))
  ]

  unfoldable pub sha256_file : Text → Io (Option Text)
  sha256_file path = read_file path >>= λ content. pure (hash_content content)
