-- ===== src/Transfer/Promise.antt =====
-- What a download promises, on every schedule of faults and every behaviour of the peer.
use action_learning_p2p_vers.Prelude.{
  ℕ, ◌≡◌, refl, sym, ◌≢◌, ◌⊎◌, false, [], ◌++◌, none, some, inl, inr, length,
}
use action_learning_p2p_vers.Prelude.Int.{ℤ}
use action_learning_p2p_vers.Prelude.Text.{Text, is_empty}
use action_learning_p2p_vers.Disk.Io.{Disk, Result, ok, threw}
use action_learning_p2p_vers.Disk.Frame.{file_at}
use action_learning_p2p_vers.Crypto.Evp.{Evp, IsDigest}
use action_learning_p2p_vers.Crypto.Sha.{sha256}
use action_learning_p2p_vers.Crypto.Streaming.{hash_content-sha256}
use action_learning_p2p_vers.Sockets.{Net, IsStream}
use action_learning_p2p_vers.Transfer.Download.{Outcome, downloaded, tmp_of, download}
use action_learning_p2p_vers.Transfer.Finish.{Passed}
use action_learning_p2p_vers.Transfer.Atomic.{Atomic, download-Atomic, tmp_of-ne}

module _ (e : Evp) (n : Net) (s : IsStream n) (fd : ℤ) (dest : Text) (expected : ℕ) (hash : Text)
    (mode : ℕ) (d : Disk) (w : n.World) where
  open s use {incoming}

  abbrev End : Type 0
  End = (Result Outcome × Disk) × n.World

  -- The destination is as it was, or the download says that it is complete and the destination holds
  -- the next `expected` bytes of the stream.
  abbrev pub Whole : End → Type 0
  Whole r =
      (file_at dest r.0.1 ≡ file_at dest d)
      ⊎ ((r.0.0 ≡ ok downloaded)
          × (c : Text) × (m : ℕ) × (file_at dest r.0.1 ≡ some (c, m))
          × (length c ≡ expected)
          × (incoming fd w ≡ c ++ incoming fd r.1))

  Whole-at : (r : End) → Atomic e n s fd dest expected hash mode d w r → Whole r
  Whole-at ((ok downloaded, d'), w') h =
      let (c, len, stream, (placed, _, _), _) = h in inr (refl, c, placed.0, placed.1, len, stream)
  Whole-at ((ok o, d'), w') (_, others) = inl (others dest (λ h. tmp_of-ne dest (sym h)))
  Whole-at ((threw, d'), w') others = inl (others dest (λ h. tmp_of-ne dest (sym h)))

  -- Whatever call fails, where a write that is accepted reaches the file, and whatever the peer does,
  -- the destination is as it was before the download, or the download is reported complete and the
  -- destination holds the next `expected` bytes of the stream, all of them and in order.
  pub download-Whole : Whole (download e n fd dest expected hash mode d w)
  download-Whole = Whole-at _ (download-Atomic e n s fd dest expected hash mode d w)

  -- A completed download left out of its way every other file; so did any other.
  others_at :
      (q : Text)
      → q ≢ dest
      → q ≢ tmp_of dest
      → (r : End) → Atomic e n s fd dest expected hash mode d w r
      → file_at q r.0.1 ≡ file_at q d
  others_at q a b ((ok downloaded, d'), w') h = let (_, _, _, (_, _, others), _) = h in others q b a
  others_at q a b ((ok o, d'), w') (_, others) = others q b
  others_at q a b ((threw, d'), w') others = others q b

  -- Whatever fails and whatever the peer does, a download changes the regular file at no path but
  -- the destination and its temporary file.
  pub download_others :
      (q : Text)
      → q ≢ dest
      → q ≢ tmp_of dest
      → file_at q (download e n fd dest expected hash mode d w).0.1 ≡ file_at q d
  download_others q a b = others_at q a b _ (download-Atomic e n s fd dest expected hash mode d w)

  abbrev pub NoLeftover : End → Type 0
  NoLeftover r =
      (file_at (tmp_of dest) r.0.1 ≡ none)
      ⊎ (file_at (tmp_of dest) r.0.1 ≡ file_at (tmp_of dest) d)
      ⊎ (r.0.0 ≡ threw)

  leftover_at : (r : End) → Atomic e n s fd dest expected hash mode d w r → NoLeftover r
  leftover_at ((ok downloaded, d'), w') h = let (_, _, _, (_, gone, _), _) = h in inl gone
  leftover_at ((ok o, d'), w') (inl gone, others) = inl gone
  leftover_at ((ok o, d'), w') (inr same, others) = inr (inl same)
  leftover_at ((threw, d'), w') others = inr (inr refl)

  -- After a download there is no temporary file, or it is as it was before, or an exception has
  -- left the handler of exceptions itself.
  pub download-NoLeftover : NoLeftover (download e n fd dest expected hash mode d w)
  download-NoLeftover = leftover_at _ (download-Atomic e n s fd dest expected hash mode d w)

  module _ (dig : IsDigest e) {c : e.Ctx} (made : e.new ≡ some c) where
    abbrev pub Verified : End → Type 0
    Verified r =
        (content : Text) × (m : ℕ) × (file_at dest r.0.1 ≡ some (content, m))
        × (sha256 e content ≡ hash)

    matches :
        (content : Text)
        → Passed e (tmp_of dest) dest (tmp_of-ne dest) hash content d
        → d.faults ≡ []
        → is_empty hash ≡ false
        → sha256 e content ≡ hash
    matches content (inl a) calm given = cc
    matches content (inr (inl a)) calm given = cc (hash_content-sha256 e dig content made).0
    matches content (inr (inr (inl a))) calm given = cc
    matches content (inr (inr (inr a))) calm given = absurd (a calm)

    Verified-at :
        (r : End)
        → Atomic e n s fd dest expected hash mode d w r
        → d.faults ≡ []
        → is_empty hash ≡ false
        → r.0.0 ≡ ok downloaded
        → Verified r
    Verified-at ((ok downloaded, d'), w') h calm given fine =
        let (content, _, _, (placed, _, _), passed) = h in
        (content, placed.0, placed.1, matches content passed calm given)
    Verified-at ((ok o, d'), w') h calm given fine = cc
    Verified-at ((threw, d'), w') h calm given fine = cc

    -- Where a digest is expected, a digest context can be had and no call fails, a download that is
    -- reported complete has left at the destination a file whose content has that digest.
    pub download-Verified :
        d.faults ≡ []
        → is_empty hash ≡ false
        → (download e n fd dest expected hash mode d w).0.0 ≡ ok downloaded
        → Verified (download e n fd dest expected hash mode d w)
    download-Verified calm given fine =
        Verified-at _ (download-Atomic e n s fd dest expected hash mode d w) calm given fine
