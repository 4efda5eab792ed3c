-- ===== src/Transfer/Finish.antt =====
-- The end of a download: the temporary file is dropped or takes the destination's place.
use action_learning_p2p_vers.Prelude.{
  ℕ, ◌≡◌, refl, ap, subst, ◌∙◌, ◌≢◌, ◌⊎◌, Bool, true, false, [], Option, none, some, arith, ltb,
  ◌==◌, inl, inr, Bool-cases,
}
use action_learning_p2p_vers.Prelude.Text.{Text, text_eq, text_eq_iff, is_empty}
use action_learning_p2p_vers.Disk.Io.{Disk, Result, ok, threw, pure, after, ◌>>=◌, recover}
use action_learning_p2p_vers.Disk.Ops.{remove, rename, permissions, read_file}
use action_learning_p2p_vers.Disk.Frame.{file_at}
use action_learning_p2p_vers.Disk.Effects.{
  Same, SameBut, Removed, remove-Removed, Renamed, rename-Renamed,
}
use action_learning_p2p_vers.Disk.Streams.{Read, read_file-Read, Chmodded, permissions-Chmodded}
use action_learning_p2p_vers.Disk.Calm.{read_file-calm}
use action_learning_p2p_vers.Crypto.Evp.{Evp}
use action_learning_p2p_vers.Crypto.Sha.{hash_content, sha256_file}
use action_learning_p2p_vers.Transfer.Download.{
  Outcome, downloaded, hash_mismatch, size_mismatch, digest_passes, check_hash, set_mode, install,
  finish,
}

-- `permissions` may fail, which is only logged.
pub set_mode-Chmodded :
    (dest : Text) (mode : ℕ) (d : Disk)
    → ((set_mode dest mode d).0 ≡ ok tt) × Chmodded dest d (set_mode dest mode d)
unfolding set_mode
set_mode-Chmodded dest mode d = elim (Bool-cases (ltb 0 mode)) [
  | inl t ↦ rw t (logged (permissions dest mode d) (permissions-Chmodded dest mode d))
  | inr t ↦ rw t (refl, (λ c m h. (m, h), λ q h. refl))
]
  where
    logged :
        (r : Result (Unit {0}) × Disk)
        → Chmodded dest d r
        → ((recover r (pure tt)).0 ≡ ok tt) × Chmodded dest d (recover r (pure tt))
    logged (ok _, d') h = (refl, h)
    logged (threw, d') h = (refl, h)

-- The temporary file is gone, unless the removal threw; nothing else has changed.
abbrev pub Dropped : Text → Disk → Result Outcome × Disk → Type 0
Dropped tmp d (ok o, d') = (file_at tmp d' ≡ none) × SameBut tmp d d'
Dropped tmp d (threw, d') = SameBut tmp d d'

pub Removed-Dropped :
    (tmp : Text) (o : Outcome) (d d₀ : Disk) (r : Result Bool × Disk)
    → Same d₀ d
    → Removed tmp d r
    → Dropped tmp d₀ (after r (λ _. pure o))
Removed-Dropped tmp o d d₀ (ok b, d') same (gone, others) = (gone, λ q h. others q h ∙ same q)
Removed-Dropped tmp o d d₀ (threw, d') same kept = λ q h. kept q ∙ same q

module _ (e : Evp) (tmp dest : Text) (ne : tmp ≢ dest) where
  -- The destination holds what the temporary file held.
  abbrev pub Replaced : Text → Disk → Disk → Type 0
  Replaced c d d' =
      ((m : ℕ) × (file_at dest d' ≡ some (c, m)))
      × (file_at tmp d' ≡ none)
      × ((q : Text) → q ≢ tmp → q ≢ dest → file_at q d' ≡ file_at q d)

  -- The content has the expected digest, where one was given and could be computed.
  abbrev pub Passed : Text → Text → Disk → Type 0
  Passed hash c d =
      (is_empty hash ≡ true)
      ⊎ (hash_content e (some c) ≡ some hash)
      ⊎ (e.new ≡ none)
      ⊎ (d.faults ≢ [])

  abbrev pub Done : Text → Text → Disk → Result Outcome × Disk → Type 0
  Done hash c d (ok downloaded, d') = Replaced c d d' × Passed hash c d
  Done hash c d (ok o, d') = Dropped tmp d (ok o, d')
  Done hash c d (threw, d') = Dropped tmp d (threw, d')

  abbrev Checked : Text → Text → Disk → Result Bool × Disk → Type 0
  Checked hash c d (threw, d') = ⊥
  Checked hash c d (ok false, d') = Same d d'
  Checked hash c d (ok true, d') = Passed hash c d × Same d d'

  unmade : (c : Text) → hash_content e (some c) ≡ none → e.new ≡ none
  unfolding hash_content
  unmade c h = ground arith

  passes-Checked :
      (hash c : Text) (d d' : Disk) (o : Option Text)
      → hash_content e (some c) ≡ o
      → Same d d'
      → Checked hash c d (ok (digest_passes e hash o), d')
  passes-Checked hash c d d' none h same = (inr (inr (inl (unmade c h))), same)
  passes-Checked hash c d d' (some a) h same = elim (Bool-cases (text_eq a hash)) [
    | inl t ↦ rw t (inr (inl (h ∙ ap some ((text_eq_iff a hash).0 t))), same)
    | inr t ↦ rw t same
  ]

  Read-Checked :
      (hash c : Text) (m : ℕ) (d : Disk) (r : Result (Option Text) × Disk)
      → file_at tmp d ≡ some (c, m)
      → (d.faults ≡ [] → r.0 ≡ ok (some c))
      → Read tmp d r
      → Checked hash c d (
          after
            (after r (λ content. pure (hash_content e content)))
            (λ actual. pure (digest_passes e hash actual)))
  unfolding hash_content
  Read-Checked hash c m d (ok none, d') at_tmp calm read =
      (inr (inr (inr (λ h. cc (calm h)))), read)
  Read-Checked hash c m d (ok (some x), d') at_tmp calm (inl (k, found), same) =
      let eq : c ≡ x = cc in
      subst (λ y. Checked hash c d (ok (digest_passes e hash (hash_content e (some y))), d')) eq
        (passes-Checked hash c d d' (hash_content e (some c)) refl same)
  Read-Checked hash c m d (ok (some x), d') at_tmp calm (inr (_, gone), same) = absurd cc
  Read-Checked hash c m d (threw, d') at_tmp calm read = absurd read

  check_hash-Checked :
      (hash c : Text) (m : ℕ) (d : Disk)
      → file_at tmp d ≡ some (c, m)
      → Checked hash c d (check_hash e tmp hash d)
  unfolding check_hash sha256_file
  check_hash-Checked hash c m d at_tmp = elim (Bool-cases (is_empty hash)) [
    | inl t ↦ rw t (inl t, λ q. refl)
    | inr t ↦ rw t (
        Read-Checked hash c m d (read_file tmp d) at_tmp
          (λ calm. read_file-calm tmp d calm c m at_tmp) (read_file-Read tmp d))
  ]

  Removed-Done :
      (hash c : Text) (o : Outcome) (d d₀ : Disk) (r : Result Bool × Disk)
      → ((d1 : Disk) → Dropped tmp d₀ (ok o, d1) → Done hash c d₀ (ok o, d1))
      → Same d₀ d
      → Removed tmp d r
      → Done hash c d₀ (after r (λ _. pure o))
  Removed-Done hash c o d d₀ (ok b, d') refusal same removed =
      refusal d' (Removed-Dropped tmp o d d₀ (ok b, d') same removed)
  Removed-Done hash c o d d₀ (threw, d') refusal same removed =
      Removed-Dropped tmp o d d₀ (threw, d') same removed

  -- The mode is set after the move.
  placed-Done :
      (hash c : Text) (d d1 : Disk) (m : ℕ) (r : Result (Unit {0}) × Disk)
      → Passed hash c d
      → file_at dest d1 ≡ some (c, m)
      → file_at tmp d1 ≡ none
      → ((q : Text) → q ≢ tmp → q ≢ dest → file_at q d1 ≡ file_at q d)
      → r.0 ≡ ok tt
      → Chmodded dest d1 r
      → Done hash c d (after r (λ _. pure downloaded))
  placed-Done hash c d d1 m (ok _, d2) passed at_dest gone others fine (keeps, rest) =
      ((keeps c m at_dest, rest tmp ne ∙ gone, λ q a b. rest q b ∙ others q a b), passed)
  placed-Done hash c d d1 m (threw, d2) passed at_dest gone others fine chmod = cc

  Renamed-Done :
      (hash c : Text) (m mode : ℕ) (d d' : Disk) (r : Result (Unit {0}) × Disk)
      → file_at tmp d' ≡ some (c, m)
      → Passed hash c d
      → Same d d'
      → Renamed tmp dest d' r
      → Done hash c d (after r (λ _. set_mode dest mode >>= λ _. pure downloaded))
  Renamed-Done hash c m mode d d' (threw, d1) at_tmp passed same kept = λ q h. kept q ∙ same q
  Renamed-Done hash c m mode d d' (ok _, d1) at_tmp passed same (moved, _, gone, others) =
      let (fine, chmod) = set_mode-Chmodded dest mode d1 in
      placed-Done hash c d d1 m (set_mode dest mode d1) passed (moved ∙ at_tmp) gone
        (λ q a b. others q a b ∙ same q) fine chmod

  Checked-Done :
      (hash c : Text) (m mode : ℕ) (d : Disk) (r : Result Bool × Disk)
      → file_at tmp d ≡ some (c, m)
      → Checked hash c d r
      → Done hash c d (after r (install e tmp dest mode))
  unfolding install
  Checked-Done hash c m mode d (ok true, d') at_tmp (passed, same) =
      Renamed-Done hash c m mode d d' (rename tmp dest d') (same tmp ∙ at_tmp) passed same
        (rename-Renamed tmp dest d' ne)
  Checked-Done hash c m mode d (ok false, d') at_tmp same =
      Removed-Done hash c hash_mismatch d' d (remove tmp d') (λ d1 h. h) same
        (remove-Removed tmp d')
  Checked-Done hash c m mode d (threw, d') at_tmp h = absurd h

  -- A complete file is installed or dropped, and an incomplete one is dropped.
  pub finish-Done :
      (hash c : Text) (m mode expected total : ℕ) (d : Disk)
      → file_at tmp d ≡ some (c, m)
      → Done hash c d (finish e tmp dest expected hash mode total d)
  unfolding finish
  finish-Done hash c m mode expected total d at_tmp = elim (Bool-cases (total == expected)) [
    | inl t ↦ rw t (
        Checked-Done hash c m mode d (check_hash e tmp hash d) at_tmp
          (check_hash-Checked hash c m d at_tmp))
    | inr t ↦ rw t (
        Removed-Done hash c size_mismatch d d (remove tmp d) (λ d1 h. h) (λ q. refl)
          (remove-Removed tmp d))
  ]

  pub finish_total :
      (hash : Text) (mode expected total : ℕ) (d : Disk)
      → (finish e tmp dest expected hash mode total d).0 ≡ ok downloaded
      → total ≡ expected
  unfolding finish
  finish_total hash mode expected total d h = ground arith
