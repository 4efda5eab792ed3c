-- ===== src/Transfer/ChunkStore.antt =====
-- A chunk that arrives as it was sent is stored where it belongs.
use action_learning_p2p_vers.Prelude.{ℕ, ◌≡◌, refl, ap, ◌∙◌, true, false, [], none, some}
use action_learning_p2p_vers.Prelude.Int.{pos}
use action_learning_p2p_vers.Prelude.Text.{Text, text_eq_refl}
use action_learning_p2p_vers.Disk.Paths.{parent_path, path_join}
use action_learning_p2p_vers.Disk.Nodes.{file}
use action_learning_p2p_vers.Disk.Io.{Disk, node_at, ok}
use action_learning_p2p_vers.Disk.Ops
use action_learning_p2p_vers.Disk.Runs.{
  node_at-put, put-put, unlink-put, open_truncate_new, open_update_file, append_file, write_at_file,
  read_file_file, remove_file,
}
use action_learning_p2p_vers.Crypto.Evp.{Evp}
use action_learning_p2p_vers.Crypto.Sha.{sha256_file, hash_content}
use action_learning_p2p_vers.Transfer.Download.{tmp_of}
use action_learning_p2p_vers.Transfer.Chunked.{
  chunk_stored, chk_of, hash_or_empty, hash_chunk, open_chunk, write_chunk, after_chunk, after_open,
  store_chunk, receive_chunk, handle_chunked_file_download,
}
use action_learning_p2p_vers.Transfer.ChunkPromise.{chk_of-parent}

module _ (e : Evp) (d : Disk) (calm : d.faults ≡ []) where
  -- Hashing a chunk gives its digest and leaves the disk as it was.
  pub hash_chunk_calm :
      (chk chunk_data : Text)
      → Ops.is_dir_at (parent_path chk) d ≡ true
      → node_at chk d ≡ none
      → hash_chunk e chk chunk_data d ≡ (ok (hash_or_empty (hash_content e (some chunk_data))), d)
  unfolding hash_chunk sha256_file
  hash_chunk_calm chk chunk_data in_dir absent =
      let d1 = Ops.put chk (file [] Ops.default_mode) d in
      let d2 = Ops.put chk (file chunk_data Ops.default_mode) d1 in
      let there1 = node_at-put chk (file [] Ops.default_mode) d in
      let there2 = node_at-put chk (file chunk_data Ops.default_mode) d1 in
      let gone : Ops.unlink chk d2 ≡ d =
        ap (Ops.unlink chk) (put-put chk _ _ d)
        ∙ unlink-put chk (file chunk_data Ops.default_mode) d absent in
      rw
        (
          open_truncate_new chk d calm in_dir absent,
          append_file chk d1 calm [] Ops.default_mode there1 chunk_data,
          read_file_file chk d2 calm chunk_data Ops.default_mode there2,
          remove_file chk d2 calm chunk_data Ops.default_mode there2,
          gone,
        )
        refl

  store_chunk_calm :
      (tmp dest chunk_data : Text) (offset : ℕ) (expected_hash : Text) (c : Text) (m : ℕ)
      → Ops.create_directories (parent_path dest) d ≡ (ok tt, d)
      → node_at tmp d ≡ some (file c m)
      → store_chunk e tmp dest chunk_data (pos offset) false expected_hash d
        ≡ (ok chunk_stored, Ops.put tmp (file (Ops.overwrite c offset chunk_data) m) d)
  unfolding store_chunk open_chunk after_open write_chunk after_chunk
  store_chunk_calm tmp dest chunk_data offset expected_hash c m dirs there =
      rw
        (
          dirs,
          open_update_file tmp d calm c m there,
          write_at_file tmp d calm c m there offset chunk_data,
        )
        refl

  -- Where no call fails, the directories of the destination are there and the temporary file is
  -- begun, a chunk that is not the last and has the digest that it is sent with is stored at its
  -- offset in the temporary file, and nothing else is changed.
  pub handle_chunked_file_download-stores :
      (watch rel chunk_data : Text) (offset : ℕ) (chunk_checksum expected_hash c : Text) (m : ℕ)
      → let dest = path_join watch rel in
        Ops.create_directories (parent_path dest) d ≡ (ok tt, d)
        → Ops.is_dir_at (parent_path dest) d ≡ true
        → node_at (chk_of dest) d ≡ none
        → node_at (tmp_of dest) d ≡ some (file c m)
        → hash_content e (some chunk_data) ≡ some chunk_checksum
        → handle_chunked_file_download e watch rel chunk_data
            (pos offset)
            chunk_checksum
            false
            expected_hash
            d
          ≡ (ok chunk_stored, Ops.put (tmp_of dest) (file (Ops.overwrite c offset chunk_data) m) d)
  unfolding handle_chunked_file_download receive_chunk
  handle_chunked_file_download-stores watch rel chunk_data offset chunk_checksum expected_hash c m
        dirs in_dir absent there digest =
      let dest = path_join watch rel in
      rw
        (
          hash_chunk_calm (chk_of dest) chunk_data (rw (chk_of-parent dest) in_dir) absent,
          digest,
          text_eq_refl chunk_checksum,
        )
        (store_chunk_calm (tmp_of dest) dest chunk_data offset expected_hash c m dirs there)
