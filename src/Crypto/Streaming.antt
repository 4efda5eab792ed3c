-- ===== src/Crypto/Streaming.antt =====
-- The file is hashed block by block, and the result is that of hashing it at once.
use action_learning_p2p_vers.Prelude.{
  ℕ, zero, suc, ◌+◌, ◌*◌, ◌<◌, ◌≡◌, sym, ap, ◌∙◌, true, ◌++◌, some, arith, leb, inl, inr,
  Bool-cases, leb→le, length, take, drop, append_assoc, take-append-drop, length-drop,
}
use action_learning_p2p_vers.Prelude.Text.{Text}
use action_learning_p2p_vers.Crypto.Evp.{Evp, IsDigest}
use action_learning_p2p_vers.Crypto.Hex.{to_hex, length-to_hex, to_hex-injective}
use action_learning_p2p_vers.Crypto.Sha.{buffer_size, sha256, update_all, hash_content}

shorter :
    (rest : Text) (fuel : ℕ)
    → length rest < suc fuel
    → leb buffer_size (length rest) ≡ true
    → length (drop buffer_size rest) < fuel
shorter rest fuel lt t =
    omega (arith, leb→le buffer_size (length rest) t, length-drop buffer_size rest)

module _ (e : Evp) (h : IsDigest e) where
  open h use {digest, size, absorbed, absorbed-init, absorbed-update, final-digest}

  -- With fuel beyond the length the loop feeds the context all of the content.
  absorbed-update_all :
      (fuel : ℕ) (c : e.Ctx) (rest : Text)
      → length rest < fuel
      → absorbed (update_all e fuel c rest) ≡ absorbed c ++ rest
  unfolding update_all
  absorbed-update_all zero c rest lt = absurd (omega arith)
  absorbed-update_all (suc fuel) c rest lt = elim (Bool-cases (leb buffer_size (length rest))) [
    | inl t ↦ rw t (
        absorbed-update_all fuel (e.update c (take buffer_size rest)) (drop buffer_size rest)
          (shorter rest fuel lt t)
        ∙ ap (λ x. x ++ drop buffer_size rest) (absorbed-update c (take buffer_size rest))
        ∙ append_assoc (absorbed c) (take buffer_size rest) (drop buffer_size rest)
        ∙ ap (◌++◌ (absorbed c)) (take-append-drop buffer_size rest))
    | inr t ↦ rw t (absorbed-update c rest)
  ]

  -- Where a digest context can be had, hashing a file block by block gives what `sha256` gives on
  -- its whole content: the digest of that content, printed.
  pub hash_content-sha256 :
      (content : Text) {c : e.Ctx}
      → e.new ≡ some c
      → (hash_content e (some content) ≡ some (sha256 e content))
        × (sha256 e content ≡ to_hex (digest content))
  unfolding hash_content sha256
  hash_content-sha256 content {c} made = ground (arith, whole, once)
    where
      whole : e.final (update_all e (length content + 1) (e.init c) content) ≡ digest content
      whole =
          final-digest _
          ∙ ap digest (
              absorbed-update_all (length content + 1) (e.init c) content (omega arith)
              ∙ ap (λ x. x ++ content) (absorbed-init c))

      once : e.final (e.update (e.init c) content) ≡ digest content
      once =
          final-digest _
          ∙ ap digest
              (absorbed-update (e.init c) content ∙ ap (λ x. x ++ content) (absorbed-init c))

  -- Where a digest context can be had, the printed digest is twice as long as a digest, and two texts
  -- with one printed digest have one digest.
  pub sha256_text :
      (s t : Text) {c : e.Ctx}
      → e.new ≡ some c
      → (length (sha256 e s) ≡ 2 * size) × ((sha256 e s ≡ sha256 e t) → digest s ≡ digest t)
  sha256_text s t {c} made =
      let at_s = (hash_content-sha256 s made).1 in
      let at_t = (hash_content-sha256 t made).1 in
      (
        ap length at_s
            ∙ length-to_hex (digest s) (h.digest-IsByte s)
            ∙ ap (λ n. 2 * n) (h.length-digest s),
        λ same.
            to_hex-injective (digest s) (digest t) (h.digest-IsByte s) (h.digest-IsByte t)
              (sym at_s ∙ same ∙ at_t),
      )
