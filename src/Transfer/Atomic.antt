-- ===== src/Transfer/Atomic.antt =====
-- `download` as a whole: the destination changes in one step or not at all.
use action_learning_p2p_vers.Prelude.{
  ℕ, ◌+◌, ◌≡◌, refl, ap, ◌∙◌, ◌≢◌, ◌⊎◌, Bool, true, false, [], ◌++◌, none, some, arith, inl, inr,
  length, length-append, if◌then◌else◌,
}
use action_learning_p2p_vers.Prelude.Int.{ℤ}
use action_learning_p2p_vers.Prelude.Text.{Text, codes}
use action_learning_p2p_vers.Disk.Paths.{parent_path}
use action_learning_p2p_vers.Disk.Io.{Disk, Result, ok, threw, pure, after, ◌>>=◌, recover}
use action_learning_p2p_vers.Disk.Ops.{exists, remove, create_directories, open_truncate}
use action_learning_p2p_vers.Disk.Frame.{file_at}
use action_learning_p2p_vers.Disk.Effects.{
  Same, SameBut, Seen, exists-Seen, Removed, remove-Removed, create_directories-Same,
}
use action_learning_p2p_vers.Disk.Streams.{Opened, open_truncate-Opened}
use action_learning_p2p_vers.Disk.Calm.{create_directories-calm, open_truncate-calm}
use action_learning_p2p_vers.Crypto.Evp.{Evp}
use action_learning_p2p_vers.Sockets.{Net, IsStream}
use action_learning_p2p_vers.Transfer.Download.{
  Outcome, downloaded, download_exception, Progress, receive_loop, finish, clean_up, tmp_of,
  prepare, after_prepare, download,
}
use action_learning_p2p_vers.Transfer.Receive.{Grew, receive_loop-Grew}
use action_learning_p2p_vers.Transfer.Finish.{Replaced, Passed, Done, finish-Done, finish_total}

pub tmp_of-ne : (dest : Text) → tmp_of dest ≢ dest
tmp_of-ne dest h = absurd (omega (arith, ap {B = ℕ} length h, length-append dest (codes ".tmp")))

module _ (tmp : Text) where
  -- How the handler of an exception ends.
  abbrev Caught : Disk → Result Outcome × Disk → Type 0
  Caught d (ok download_exception, d') = (file_at tmp d' ≡ none) × SameBut tmp d d'
  Caught d (ok o, d') = ⊥
  Caught d (threw, d') = SameBut tmp d d'

  Removed-Caught :
      (d d₀ : Disk) (r : Result Bool × Disk)
      → Same d₀ d
      → Removed tmp d r
      → Caught d₀ (after r (λ _. pure download_exception))
  Removed-Caught d d₀ (ok b, d') same (gone, others) = (gone, λ q h. others q h ∙ same q)
  Removed-Caught d d₀ (threw, d') same kept = λ q h. kept q ∙ same q

  Seen-Caught :
      (d : Disk) (r : Result Bool × Disk)
      → Seen tmp d r
      → Caught d (
          after r (λ there.
            if there
            then (remove tmp >>= λ _. pure download_exception)
            else pure download_exception))
  Seen-Caught d (ok true, d') same =
      Removed-Caught d' d (remove tmp d') same (remove-Removed tmp d')
  Seen-Caught d (ok false, d') (gone, same) = (same tmp ∙ gone, λ q _. same q)
  Seen-Caught d (threw, d') same = λ q h. same q

  clean_up-Caught : (d : Disk) → Caught d (clean_up tmp d)
  unfolding clean_up
  clean_up-Caught d = Seen-Caught d (exists tmp d) (exists-Seen tmp d)

  -- The start of the download.
  abbrev Prepared : Disk → Result Bool × Disk → Type 0
  Prepared d (ok true, d') = ((m : ℕ) × (file_at tmp d' ≡ some ([], m))) × SameBut tmp d d'
  Prepared d (ok false, d') = Same d d'
  Prepared d (threw, d') = Same d d'

  Opened-Prepared :
      (d d' : Disk) (r : Result Bool × Disk) → Same d d' → Opened tmp d' r → Prepared d r
  Opened-Prepared d d' (ok true, d1) same (empty, others) = (empty, λ q h. others q h ∙ same q)
  Opened-Prepared d d' (ok false, d1) same kept = λ q. kept q ∙ same q
  Opened-Prepared d d' (threw, d1) same h = absurd h

  made-Prepared :
      (d : Disk) (r : Result (Unit {0}) × Disk)
      → Same d r.1
      → Prepared d (after r (λ _. open_truncate tmp))
  made-Prepared d (ok _, d') same =
      Opened-Prepared d d' (open_truncate tmp d') same (open_truncate-Opened tmp d')
  made-Prepared d (threw, d') same = same

prepare-Prepared : (dest : Text) (d : Disk) → Prepared (tmp_of dest) d (prepare dest d)
unfolding prepare
prepare-Prepared dest d =
    made-Prepared (tmp_of dest) d (create_directories (parent_path dest) d)
      (create_directories-Same (parent_path dest) d)

prepare-calm : (dest : Text) (d : Disk) → d.faults ≡ [] → (prepare dest d).1.faults ≡ []
unfolding prepare
prepare-calm dest d calm =
    go (create_directories (parent_path dest) d) (create_directories-calm (parent_path dest) d calm)
  where
    go :
        (r : Result (Unit {0}) × Disk)
        → r.1.faults ≡ []
        → (after r (λ _. open_truncate (tmp_of dest))).1.faults ≡ []
    go (ok _, d') h = open_truncate-calm (tmp_of dest) d' h
    go (threw, d') h = h

module _ (e : Evp) (n : Net) (s : IsStream n) (fd : ℤ) (dest : Text) (expected : ℕ) (hash : Text)
    (mode : ℕ) where
  open s use {incoming}

  -- How a download ends.
  abbrev pub Atomic : Disk → n.World → (Result Outcome × Disk) × n.World → Type 0
  Atomic d w ((ok downloaded, d'), w') =
      (c : Text) × (length c ≡ expected)
      × (incoming fd w ≡ c ++ incoming fd w')
      × Replaced e (tmp_of dest) dest (tmp_of-ne dest) c d d'
      × Passed e (tmp_of dest) dest (tmp_of-ne dest) hash c d
  Atomic d w ((ok o, d'), w') =
      ((file_at (tmp_of dest) d' ≡ none) ⊎ (file_at (tmp_of dest) d' ≡ file_at (tmp_of dest) d))
      × SameBut (tmp_of dest) d d'
  Atomic d w ((threw, d'), w') = SameBut (tmp_of dest) d d'

  Caught-Atomic :
      (d d3 : Disk) (w w2 : n.World) (r : Result Outcome × Disk)
      → SameBut (tmp_of dest) d d3
      → Caught (tmp_of dest) d3 r
      → Atomic d w (r, w2)
  Caught-Atomic d d3 w w2 (ok download_exception, d') before (gone, others) =
      (inl gone, λ q h. others q h ∙ before q h)
  Caught-Atomic d d3 w w2 (ok o, d') before h = absurd h
  Caught-Atomic d d3 w w2 (threw, d') before others = λ q h. others q h ∙ before q h

  sooner :
      (d d2 : Disk) (c : Text)
      → (d.faults ≡ [] → d2.faults ≡ [])
      → Passed e (tmp_of dest) dest (tmp_of-ne dest) hash c d2
      → Passed e (tmp_of dest) dest (tmp_of-ne dest) hash c d
  sooner d d2 c calm (inl a) = inl a
  sooner d d2 c calm (inr (inl a)) = inr (inl a)
  sooner d d2 c calm (inr (inr (inl a))) = inr (inr (inl a))
  sooner d d2 c calm (inr (inr (inr a))) = inr (inr (inr (λ h. a (calm h))))

  finished-Atomic :
      (d d2 : Disk) (w w2 : n.World) (c : Text) (total : ℕ) (r : Result Outcome × Disk)
      → SameBut (tmp_of dest) d d2
      → (d.faults ≡ [] → d2.faults ≡ [])
      → length c ≡ total
      → (total ≡ expected → incoming fd w ≡ c ++ incoming fd w2)
      → (r.0 ≡ ok downloaded → total ≡ expected)
      → Done e (tmp_of dest) dest (tmp_of-ne dest) hash c d2 r
      → Atomic d w (recover r (clean_up (tmp_of dest)), w2)
  finished-Atomic d d2 w w2 c total (ok downloaded, d3) before calm len stream full done =
      let ((placed, gone, others), passed) = done in
      (
        c,
        len ∙ full refl,
        stream (full refl),
        (placed, gone, λ q a b. others q a b ∙ before q a),
        sooner d d2 c calm passed,
      )
  finished-Atomic d d2 w w2 c total (ok o, d3) before calm len stream full (gone, others) =
      (inl gone, λ q h. others q h ∙ before q h)
  finished-Atomic d d2 w w2 c total (threw, d3) before calm len stream full others =
      Caught-Atomic d d3 w w2 (clean_up (tmp_of dest) d3) (λ q h. others q h ∙ before q h)
        (clean_up-Caught (tmp_of dest) d3)

  received-Atomic :
      (d d1 : Disk) (w : n.World) (m : ℕ) (r : Progress n)
      → SameBut (tmp_of dest) d d1
      → (d.faults ≡ [] → d1.faults ≡ [])
      → Grew n s fd (tmp_of dest) expected 0 [] m d1 w r
      → Atomic d w (
        recover (finish e (tmp_of dest) dest expected hash mode r.1 r.2) (clean_up (tmp_of dest)),
        r.3,
      )
  received-Atomic d d1 w m r before calm g =
      finished-Atomic d r.2 w r.3 g.received r.1
        (finish e (tmp_of dest) dest expected hash mode r.1 r.2) (λ q h. g.others q h ∙ before q h)
        (λ h. g.calm (calm h)) (omega (arith, g.count))
        (λ full. g.stream (λ lost. cc (g.full full)))
        (finish_total e (tmp_of dest) dest (tmp_of-ne dest) hash mode expected r.1 r.2)
        (finish-Done e (tmp_of dest) dest (tmp_of-ne dest) hash g.received m mode expected r.1 r.2
          g.content)

  Prepared-Atomic :
      (d : Disk) (w : n.World) (r : Result Bool × Disk)
      → Prepared (tmp_of dest) d r
      → (d.faults ≡ [] → r.1.faults ≡ [])
      → Atomic d w (after_prepare e n fd dest expected hash mode w r)
  unfolding after_prepare
  Prepared-Atomic d w (ok true, d1) ((m, empty), others) calm =
      received-Atomic d d1 w m (receive_loop n fd (tmp_of dest) expected (expected + 1) 0 d1 w)
        others calm
        (receive_loop-Grew n s fd (tmp_of dest) expected (expected + 1) 0 [] m d1 w empty
          (omega arith) (omega arith))
  Prepared-Atomic d w (ok false, d1) same calm = (inr (same (tmp_of dest)), λ q _. same q)
  Prepared-Atomic d w (threw, d1) same calm =
      Caught-Atomic d d1 w w (clean_up (tmp_of dest) d1) (λ q _. same q)
        (clean_up-Caught (tmp_of dest) d1)

  pub download-Atomic :
      (d : Disk) (w : n.World) → Atomic d w (download e n fd dest expected hash mode d w)
  unfolding download
  download-Atomic d w =
      Prepared-Atomic d w (prepare dest d) (prepare-Prepared dest d) (prepare-calm dest d)
