-- ===== src/Transfer/UploadPromise.antt =====
-- What an upload promises.
use action_learning_p2p_vers.Prelude.{
  ℕ, ◌+◌, ◌≤◌, ◌≡◌, refl, sym, ap, subst, ◌∙◌, ◌⊎◌, Bool, true, false, [], ◌++◌, Option, none, some,
  arith, inl, inr, length, take, take-append, length-append, append-nil, ◌∷◌,
}
use mathlib.Core.Path.{ap₂}
use action_learning_p2p_vers.Prelude.Int.{ℤ}
use action_learning_p2p_vers.Prelude.Text.{Text}
use action_learning_p2p_vers.Disk.Io.{Disk, Result, ok, threw}
use action_learning_p2p_vers.Disk.Ops.{exists, read_file}
use action_learning_p2p_vers.Disk.Frame.{file_at, file_at-exists}
use action_learning_p2p_vers.Disk.Effects.{Same, Seen, exists-Seen}
use action_learning_p2p_vers.Disk.Streams.{Read, read_file-Read}
use action_learning_p2p_vers.Disk.Calm.{exists-calm, exists-faults, read_file-calm}
use action_learning_p2p_vers.Crypto.Sha.{buffer_size}
use action_learning_p2p_vers.Sockets.{Net, IsStream, IsReliable}
use action_learning_p2p_vers.Transfer.Download.{Outcome, uploaded}
use action_learning_p2p_vers.Transfer.Upload.{send_loop, after_open, after_exists, upload}
use action_learning_p2p_vers.Transfer.Send.{send_loop-Sent}
use action_learning_p2p_vers.Transfer.Progress.{send_loop_all_sent}

front_of_nothing : (xs ys : Text) → [] ≡ xs ++ ys → xs ≡ []
front_of_nothing [] ys h = refl
front_of_nothing (x ∷ xs) ys h = cc

module _ (n : Net) (s : IsStream n) (fd : ℤ) (dest : Text) (expected : ℕ) (d : Disk)
    (w : n.World) where
  open s use {outgoing}

  abbrev End : Type 0
  End = (Result Outcome × Disk) × n.World

  -- Nothing has gone out, or a front part of the file, no longer than was asked for.
  abbrev pub Front : End → Type 0
  Front r =
      (outgoing fd r.1 ≡ outgoing fd w)
      ⊎ ((sent : Text) × (later : Text) × (m : ℕ) × (file_at dest d ≡ some (sent ++ later, m))
          × (outgoing fd r.1 ≡ outgoing fd w ++ sent)
          × (length sent ≤ expected))

  opened_Front :
      (d' : Disk) (r : Result (Option Text) × Disk)
      → Same d d'
      → Read dest d' r
      → Front (after_open n fd expected w r)
  unfolding after_open
  opened_Front d' (ok none, d1) same read = inl refl
  opened_Front d' (ok (some c), d1) same (inr (empty, _), _) =
      let g =
        send_loop-Sent n s fd buffer_size (expected + 1) expected 0 c w (omega arith)
          (omega arith) in
      let none_sent : g.sent ≡ [] = front_of_nothing g.sent g.unsent (sym empty ∙ g.split) in
      inl (g.out ∙ ap (◌++◌ (outgoing fd w)) none_sent ∙ append-nil (outgoing fd w))
  opened_Front d' (ok (some c), d1) same (inl (m, found), _) =
      let g =
        send_loop-Sent n s fd buffer_size (expected + 1) expected 0 c w (omega arith)
          (omega arith) in
      inr (
        g.sent,
        g.unsent,
        m,
        sym (same dest) ∙ found ∙ ap (λ x. some (x, m)) g.split,
        g.out,
        omega (arith, g.within),
      )
  opened_Front d' (threw, d1) same h = absurd h

  Seen-Front :
      (r : Result Bool × Disk) → Seen dest d r → Front (after_exists n fd dest expected w r)
  unfolding after_exists
  Seen-Front (ok true, d') same = opened_Front d' (read_file dest d') same (read_file-Read dest d')
  Seen-Front (ok false, d') seen = inl refl
  Seen-Front (threw, d') same = inl refl

  -- Whatever fails, an upload hands over nothing, or a front part of the file, in order and no
  -- longer than was asked for.
  pub upload-Front : Front (upload n fd dest expected d w)
  unfolding upload
  upload-Front = Seen-Front (exists dest d) (exists-Seen dest d)

  module _ (c : Text) (m : ℕ) (at_dest : file_at dest d ≡ some (c, m)) (calm : d.faults ≡ [])
      (reliable : IsReliable n fd) (enough : expected ≤ length c) where
    abbrev pub Complete : End → Type 0
    Complete r =
        (r.0.0 ≡ ok (uploaded expected)) × (outgoing fd r.1 ≡ outgoing fd w ++ take expected c)

    sent_all :
        (total : ℕ) (sent unsent : Text)
        → c ≡ sent ++ unsent
        → total ≡ length sent
        → length sent ≤ expected
        → (total ≡ expected) ⊎ (unsent ≡ [])
        → (total ≡ expected) × (take expected c ≡ sent)
    sent_all total sent unsent split exact le why =
        (counted, ap₂ take expected_length split ∙ take-append sent unsent)
      where
        whole : length c ≡ length sent + length unsent
        whole = ap length split ∙ length-append sent unsent

        no_rest : unsent ≡ [] → length unsent ≡ 0
        no_rest h = ap length h

        counted : total ≡ expected
        counted = ground (arith, whole, no_rest)

        expected_length : expected ≡ length sent
        expected_length = omega (arith, counted)

    -- What the loop has sent of the whole content.
    sent_Complete :
        let r = send_loop n buffer_size (expected + 1) fd expected 0 c w in
        (◌≡◌ {A = Result Outcome} (ok (uploaded r.0)) (ok (uploaded expected)))
        × (outgoing fd r.2 ≡ outgoing fd w ++ take expected c)
    sent_Complete =
        let g =
          send_loop-Sent n s fd buffer_size (expected + 1) expected 0 c w (omega arith)
            (omega arith) in
        let all =
          send_loop_all_sent n fd buffer_size (expected + 1) expected 0 c w reliable
            (omega arith) in
        let (counted, front) =
          sent_all (send_loop n buffer_size (expected + 1) fd expected 0 c w).0 g.sent g.unsent
            g.split (omega (arith, g.exact all)) (omega (arith, g.within)) (g.ended all) in
        (ap (λ t. ok (uploaded t)) counted, g.out ∙ ap (◌++◌ (outgoing fd w)) (sym front))

    opened_Complete :
        (r : Result (Option Text) × Disk)
        → r.0 ≡ ok (some c)
        → Complete (after_open n fd expected w r)
    unfolding after_open
    opened_Complete (ok none, d1) h = cc
    opened_Complete (threw, d1) h = cc
    opened_Complete (ok (some x), d1) h =
        let eq : c ≡ x = cc in
        subst (λ y. Complete (after_open n fd expected w (ok (some y), d1))) eq sent_Complete

    seen_Complete :
        (r : Result Bool × Disk)
        → r.0 ≡ ok true
        → r.1.faults ≡ []
        → file_at dest r.1 ≡ some (c, m)
        → Complete (after_exists n fd dest expected w r)
    unfolding after_exists
    seen_Complete (ok true, d') h quiet found =
        opened_Complete (read_file dest d') (read_file-calm dest d' quiet c m found)
    seen_Complete (ok false, d') h quiet found = cc
    seen_Complete (threw, d') h quiet found = cc

    -- Where no call fails, the peer takes what it is given and the file is as long as was asked for,
    -- an upload sends exactly the first `expected` bytes of the file, and reports that many.
    pub upload-Complete : Complete (upload n fd dest expected d w)
    unfolding upload
    upload-Complete =
        seen_Complete (exists dest d) (exists-calm dest d calm c m at_dest)
          (exists-faults dest d calm) (file_at-exists dest dest d ∙ at_dest)
