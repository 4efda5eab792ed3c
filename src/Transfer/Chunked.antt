-- ===== src/Transfer/Chunked.antt =====
-- `handle_chunked_file_download` and `handle_chunked_file_upload`.
use action_learning_p2p_vers.Prelude.{
  ℕ, ◌+◌, ◌*◌, Bool, true, false, [], ◌++◌, Option, none, some, if◌then◌else◌, drop,
}
use action_learning_p2p_vers.Prelude.Int.{ℤ, pos, negsuc}
use action_learning_p2p_vers.Prelude.Text.{Text, text_eq, codes}
use action_learning_p2p_vers.Disk.Paths.{parent_path, path_join}
use action_learning_p2p_vers.Disk.Io.{Disk, Result, ok, threw, Io, pure, ◌>>=◌, ◌>>◌, try_catch}
use action_learning_p2p_vers.Disk.Ops.{
  remove, rename, create_directories, open_truncate, open_update, append, write_at, read_file,
}
use action_learning_p2p_vers.Crypto.Evp.{Evp}
use action_learning_p2p_vers.Crypto.Sha.{sha256_file}
use action_learning_p2p_vers.Sockets.{Net}
use action_learning_p2p_vers.Transfer.Download.{tmp_of, check_hash}
use action_learning_p2p_vers.Transfer.Upload.{
  Push, all_sent, write_timeout, write_error, stuck, send_loop,
}

-- Which message the chunk handler ends with; `chunk_stored` is the silent end of a chunk that is
-- not the last.
pub data ChunkOutcome : Type 0 where
  chunk_mismatch chunk_open_failed chunk_write_failed chunk_exception : ChunkOutcome
  file_mismatch chunk_stored file_complete : ChunkOutcome

abbrev pub chk_of : Text → Text
chk_of dest = tmp_of dest ++ codes ".chk"

abbrev pub hash_or_empty : Option Text → Text
hash_or_empty none = []
hash_or_empty (some h) = h

-- A write on a stream that did not open does nothing.
abbrev pub write_if : Bool → Text → Text → Io Bool
write_if true path bytes = append path bytes
write_if false path bytes = pure false

-- The first stream wants the file to be there; the second makes it.
unfoldable pub open_chunk : Text → Io Bool
open_chunk tmp = open_update tmp >>= λ there. if there then pure true else open_truncate tmp

-- `seekp` to a negative offset sets the state of failure.
unfoldable pub write_chunk : Text → ℤ → Text → Io Bool
write_chunk tmp (negsuc k) chunk_data = pure false
write_chunk tmp (pos offset) chunk_data = write_at tmp offset chunk_data

unfoldable pub install_file : Text → Text → Bool → Io ChunkOutcome
install_file tmp dest false = remove tmp >>= λ _. pure file_mismatch
install_file tmp dest true = rename tmp dest >>= λ _. pure file_complete

module _ (e : Evp) where
  -- The digest of the chunk, by way of a file that is removed again.
  unfoldable pub hash_chunk : Text → Text → Io Text
  hash_chunk chk chunk_data = do
    opened ← open_truncate chk
    written ← write_if opened chk chunk_data
    actual ← sha256_file e chk
    gone ← remove chk
    pure (hash_or_empty actual)

  unfoldable pub after_chunk : Text → Text → Bool → Text → Bool → Io ChunkOutcome
  unfolding install_file
  after_chunk tmp dest is_last expected_hash false = pure chunk_write_failed
  after_chunk tmp dest is_last expected_hash true =
      if is_last
      then (check_hash e tmp expected_hash >>= install_file tmp dest)
      else pure chunk_stored

  unfoldable pub after_open : Text → Text → Text → ℤ → Bool → Text → Bool → Io ChunkOutcome
  unfolding after_chunk write_chunk
  after_open tmp dest chunk_data offset is_last expected_hash false = pure chunk_open_failed
  after_open tmp dest chunk_data offset is_last expected_hash true =
      write_chunk tmp offset chunk_data >>= after_chunk tmp dest is_last expected_hash

  -- The `try` block and its handler, which leaves the temporary file.
  unfoldable pub store_chunk : Text → Text → Text → ℤ → Bool → Text → Io ChunkOutcome
  unfolding open_chunk after_open
  store_chunk tmp dest chunk_data offset is_last expected_hash =
      try_catch
        (create_directories (parent_path dest)
          >> (open_chunk tmp >>= after_open tmp dest chunk_data offset is_last expected_hash))
        (pure chunk_exception)

  unfoldable pub receive_chunk : Text → Text → ℤ → Text → Bool → Text → Io ChunkOutcome
  unfolding hash_chunk store_chunk
  receive_chunk dest chunk_data offset chunk_checksum is_last expected_hash =
      hash_chunk (chk_of dest) chunk_data >>= λ actual.
      if text_eq actual chunk_checksum
      then store_chunk (tmp_of dest) dest chunk_data offset is_last expected_hash
      else pure chunk_mismatch

  unfoldable pub handle_chunked_file_download :
      Text → Text → Text → ℤ → Text → Bool → Text → Io ChunkOutcome
  unfolding receive_chunk
  handle_chunked_file_download watch rel chunk_data offset chunk_checksum is_last expected_hash =
      receive_chunk (path_join watch rel) chunk_data offset chunk_checksum is_last expected_hash

-- How the chunked upload ends: `chunks_stuck` is the model's own.
pub data ChunkUpload : Type 0 where
  source_open_failed chunks_write_failed chunks_stuck : ChunkUpload
  chunks_sent : ℤ → ChunkUpload

abbrev pub chunk_size : ℕ
chunk_size = 16 * 1024 * 1024

abbrev pub upload_end : ℕ → Push → ChunkUpload
upload_end total all_sent = chunks_sent (pos total)
upload_end total write_timeout = chunks_write_failed
upload_end total write_error = chunks_write_failed
upload_end total stuck = chunks_stuck

module _ (n : Net) where
  -- `seekg` to a negative offset sets the state of failure, and the first `read` gets nothing.
  unfoldable pub send_chunks : ℤ → ℤ → ℤ → Text → n.World → ChunkUpload × n.World
  send_chunks fd file_size (negsuc k) content w = (chunks_sent (negsuc k), w)
  send_chunks fd (negsuc k) (pos start) content w = (chunks_sent (pos start), w)
  send_chunks fd (pos size) (pos start) content w =
      let (total, how, w') =
        send_loop n chunk_size (size + 1) fd size start (drop start content) w in
      (upload_end total how, w')

  unfoldable pub upload_opened :
      ℤ → ℤ → ℤ → n.World → Result (Option Text) × Disk → (Result ChunkUpload × Disk) × n.World
  unfolding send_chunks
  upload_opened fd file_size start w (ok none, d) = ((ok source_open_failed, d), w)
  upload_opened fd file_size start w (ok (some content), d) =
      let (how, w') = send_chunks fd file_size start content w in ((ok how, d), w')
  upload_opened fd file_size start w (threw, d) = ((threw, d), w)

  unfoldable pub handle_chunked_file_upload :
      Text → Text → ℤ → ℤ → ℤ → Disk → n.World → (Result ChunkUpload × Disk) × n.World
  unfolding upload_opened
  handle_chunked_file_upload watch rel fd file_size start d w =
      upload_opened fd file_size start w (read_file (path_join watch rel) d)
