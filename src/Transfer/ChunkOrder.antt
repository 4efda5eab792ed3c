-- ===== src/Transfer/ChunkOrder.antt =====
-- The chunks of one file in order, as a caller of `handle_chunked_file_download` would hand them
-- over: nothing in the daemon calls it yet.
use action_learning_p2p_vers.Prelude.{
  ℕ, ◌+◌, ◌≡◌, ◌≢◌, Bool, refl, ap, true, false, List, [], ◌∷◌, ◌++◌, none, some, arith, length,
  length-append, append-nil, take-append, drop_all, replicate, ◌-◌,
}
use action_learning_p2p_vers.Prelude.Int.{pos}
use action_learning_p2p_vers.Prelude.Text.{Text, text_eq, text_eq_iff, text_eq_refl, codes}
use action_learning_p2p_vers.Disk.Paths.{parent_path, path_join}
use action_learning_p2p_vers.Disk.Nodes.{file}
use action_learning_p2p_vers.Disk.Io.{Disk, node_at, ok, Io, pure, ◌>>=◌, try_catch}
use action_learning_p2p_vers.Disk.Ops
use action_learning_p2p_vers.Disk.Runs.{node_at-put, put-put, write_at_file}
use action_learning_p2p_vers.Crypto.Evp.{Evp}
use action_learning_p2p_vers.Crypto.Sha.{hash_content}
use action_learning_p2p_vers.Transfer.Download.{tmp_of}
use action_learning_p2p_vers.Transfer.Chunked.{
  ChunkOutcome, chunk_exception, chk_of, open_chunk, write_chunk, after_chunk, after_open,
  store_chunk, receive_chunk, handle_chunked_file_download,
}
use action_learning_p2p_vers.Transfer.ChunkPromise.{chk_of-parent}
use action_learning_p2p_vers.Transfer.ChunkStore.{hash_chunk_calm}

-- A chunk and the checksum that it is sent with.
abbrev pub Chunk : Type 0
Chunk = Text × Text

unfoldable pub contents : List Chunk → Text
contents [] = []
contents (c ∷ cs) = c.0 ++ contents cs

-- What is written at the end of a file is appended to it.
overwrite_end : (c bytes : Text) → Ops.overwrite c (length c) bytes ≡ c ++ bytes
unfolding Ops.overwrite
overwrite_end c bytes =
    rw
      (
        take-append c (replicate (length c - length c) 0),
        drop_all (length c + length bytes) c (omega arith),
        append-nil bytes,
      )
      refl

chk_of-ne : (dest : Text) → chk_of dest ≢ tmp_of dest
chk_of-ne dest h = absurd (omega (arith, ap length h, length-append (tmp_of dest) (codes ".chk")))

pub chk_of-apart : (dest : Text) → text_eq (chk_of dest) (tmp_of dest) ≡ false
chk_of-apart dest = ground (arith, text_eq_iff (chk_of dest) (tmp_of dest), chk_of-ne dest)

module _ (e : Evp) (watch rel expected_hash : Text) where
  -- The chunks of a file one after the other, from an offset on, and the last of them.
  unfoldable pub receive_file : ℕ → List Chunk → Chunk → Io (List ChunkOutcome)
  receive_file offset [] k = do
    o ← handle_chunked_file_download e watch rel k.0 (pos offset) k.1 true expected_hash
    pure (o ∷ [])
  receive_file offset (c ∷ cs) k = do
    o ← handle_chunked_file_download e watch rel c.0 (pos offset) c.1 false expected_hash
    os ← receive_file (offset + length c.0) cs k
    pure (o ∷ os)

  abbrev dest : Text
  dest = path_join watch rel

  abbrev tmp : Text
  tmp = tmp_of dest

  -- What a chunk finds: its directories, and a temporary file that opens with the content `c`.
  pub record Ready (d s : Disk) (c : Text) (m : ℕ) : Type 0 where
    pub calm : s.faults ≡ []
    pub dirs : Ops.create_directories (parent_path dest) s ≡ (ok tt, s)
    pub in_dir : Ops.is_dir_at (parent_path dest) s ≡ true
    pub absent : node_at (chk_of dest) s ≡ none
    pub opens : open_chunk tmp s ≡ (ok true, Ops.put tmp (file c m) d)

  module _ (d : Disk) (calm : d.faults ≡ []) where
    -- A chunk at the end of what the temporary file holds is appended to it.
    pub chunk_appended :
        (s : Disk) (c : Text) (m : ℕ)
        → Ready d s c m
        → (k : Chunk) → hash_content e (some k.0) ≡ some k.1
        → (is_last : Bool)
        → handle_chunked_file_download e watch rel k.0 (pos (length c)) k.1 is_last expected_hash s
          ≡ try_catch
              (after_chunk e tmp dest is_last expected_hash true)
              (pure chunk_exception)
              (Ops.put tmp (file (c ++ k.0) m) d)
    unfolding handle_chunked_file_download receive_chunk store_chunk after_open write_chunk
    chunk_appended s c m r k digest is_last =
        let d1 = Ops.put tmp (file c m) d in
        rw
          (
            hash_chunk_calm e s r.calm (chk_of dest) k.0 (rw (chk_of-parent dest) r.in_dir)
                r.absent,
            digest,
            text_eq_refl k.1,
            r.dirs,
            r.opens,
            write_at_file tmp d1 calm c m (node_at-put tmp (file c m) d) (length c) k.0,
            put-put tmp (file c m) (file (Ops.overwrite c (length c) k.0) m) d,
            overwrite_end c k.0,
          )
          refl
