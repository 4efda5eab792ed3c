-- ===== src/Transfer/Upload.antt =====
-- The upload branch of `handle_file_transfer`, the handler itself, and the chunked upload.
use action_learning_p2p_vers.Transfer.Socket.{write_socket, close_socket}
use action_learning_p2p_vers.Prelude.{
  ℕ, zero, suc, ◌+◌, ◌-◌, Bool, true, false, [], ◌∷◌, Option, none, some, ltb, if◌then◌else◌,
  length, take, drop, min,
}
use action_learning_p2p_vers.Prelude.Int.{ℤ, pos, negsuc}
use action_learning_p2p_vers.Prelude.Text.{Text, text_eq, codes}
use action_learning_p2p_vers.Disk.Paths.{path_join}
use action_learning_p2p_vers.Disk.Io.{Disk, Result, ok, threw}
use action_learning_p2p_vers.Disk.Ops.{exists, read_file}
use action_learning_p2p_vers.Crypto.Evp.{Evp}
use action_learning_p2p_vers.Crypto.Sha.{buffer_size}
use action_learning_p2p_vers.Sockets.{Net, WriteResult, wrote, inet, loopback, to_u16}
use action_learning_p2p_vers.Transfer.Download.{
  Outcome, no_socket, no_connection, bad_size, unknown_direction, upload_not_found,
  upload_open_failed, upload_exception, uploaded, download, open_failed, size_mismatch,
  hash_mismatch,
}

-- Why a buffer was left: `stuck` is the model's own, a loop that has run out of fuel.
pub data Push : Type 0 where
  all_sent write_timeout write_error stuck : Push

module _ (n : Net) where
  unfoldable pub after_write :
      Text
      → (Text → n.World → Push × Text × n.World)
      → WriteResult × n.World
      → Push × Text × n.World
  after_write pending more (wrote k, w) = more (drop k pending) w
  after_write pending more (WriteResult.timed_out, w) = (write_timeout, pending, w)
  after_write pending more (WriteResult.failed, w) = (write_error, pending, w)

  -- `while (written < bytes)`, over `buffer + written`: what is left of the buffer.
  unfoldable pub push : ℕ → ℤ → Text → n.World → Push × Text × n.World
  unfolding after_write
  push fuel fd [] w = (all_sent, [], w)
  push zero fd (b ∷ bytes) w = (stuck, b ∷ bytes, w)
  push (suc fuel) fd (b ∷ bytes) w =
      after_write (b ∷ bytes) (push fuel fd) (write_socket n fd (b ∷ bytes) w)

  -- A round of the outer loop goes on only when the whole buffer is written.
  unfoldable pub after_push :
      ℕ → (n.World → ℕ × Push × n.World) → Push × Text × n.World → ℕ × Push × n.World
  after_push total more (p, [], w) = more w
  after_push total more (p, b ∷ left, w) = (total, p, w)

  -- `while (total_sent < expected_size)`, on what is left of the file. A write may take one byte at
  -- a time, so that a buffer wants as much fuel as it is long.
  unfoldable pub send_loop : ℕ → ℕ → ℤ → ℕ → ℕ → Text → n.World → ℕ × Push × n.World
  unfolding push after_push
  send_loop block zero fd expected total rest w = (total, stuck, w)
  send_loop block (suc fuel) fd expected total rest w =
      let to_read = min block (expected - total) in
      let bytes = take to_read rest in
      let round =
        after_push total
          (send_loop block fuel fd expected (total + length bytes) (drop to_read rest))
          (push (length bytes) fd bytes w) in
      if ltb total expected
      then (if ltb 0 (length bytes) then round else (total, all_sent, w))
      else (total, all_sent, w)

  unfoldable pub after_open :
      ℤ → ℕ → n.World → Result (Option Text) × Disk → (Result Outcome × Disk) × n.World
  after_open fd expected w (ok none, d) = ((ok upload_open_failed, d), w)
  after_open fd expected w (ok (some content), d) =
      let (total, _, w') = send_loop buffer_size (expected + 1) fd expected 0 content w in
      ((ok (uploaded total), d), w')
  after_open fd expected w (threw, d) = ((ok upload_exception, d), w)

  unfoldable pub after_exists :
      ℤ → Text → ℕ → n.World → Result Bool × Disk → (Result Outcome × Disk) × n.World
  unfolding after_open
  after_exists fd dest expected w (ok true, d) = after_open fd expected w (read_file dest d)
  after_exists fd dest expected w (ok false, d) = ((ok upload_not_found, d), w)
  after_exists fd dest expected w (threw, d) = ((ok upload_exception, d), w)

  unfoldable pub upload : ℤ → Text → ℕ → Disk → n.World → (Result Outcome × Disk) × n.World
  unfolding after_exists
  upload fd dest expected d w = after_exists fd dest expected w (exists dest d)

  -- The returns from within the branch of a download, each with its `closeSocket`. The flag says
  -- that the handler has returned; the other outcomes go on to its end.
  unfoldable pub leave_download : ℤ → Outcome → n.World → Bool × n.World
  leave_download fd open_failed w = (true, close_socket n fd w)
  leave_download fd size_mismatch w = (true, close_socket n fd w)
  leave_download fd hash_mismatch w = (true, close_socket n fd w)
  leave_download fd o w = (false, w)

  -- The same of an upload.
  unfoldable pub leave_upload : ℤ → Outcome → n.World → Bool × n.World
  leave_upload fd upload_not_found w = (true, close_socket n fd w)
  leave_upload fd upload_open_failed w = (true, close_socket n fd w)
  leave_upload fd o w = (false, w)

  -- The `closeSocket` at the end of the handler.
  unfoldable pub close_last : ℤ → Bool × n.World → n.World
  close_last fd (true, w) = w
  close_last fd (false, w) = close_socket n fd w

  -- An exception that leaves the handler ends the process.
  unfoldable pub after_branch :
      ℤ
      → (Outcome → n.World → Bool × n.World)
      → (Result Outcome × Disk) × n.World
      → (Result Outcome × Disk) × n.World
  unfolding close_last
  after_branch fd leave ((ok o, d), w) = ((ok o, d), close_last fd (leave o w))
  after_branch fd leave ((threw, d), w) = ((threw, d), w)

-- The function that file_transfer.h declares: the watched directory, the path in it, the port, the
-- direction, the size and the digest that are expected, and the mode.
abbrev pub FileTransfer : Net → Type 0
FileTransfer n =
    Text → Text → ℤ → Text → ℤ → Text → ℕ → Disk → n.World → (Result Outcome × Disk) × n.World

module _ (e : Evp) (n : Net) where
  unfoldable pub run_direction :
      ℤ → Text → Text → ℕ → Text → ℕ → Disk → n.World → (Result Outcome × Disk) × n.World
  unfolding after_branch leave_download leave_upload
  run_direction fd dest direction expected hash mode d w =
      if text_eq direction (codes "download")
      then after_branch n fd (leave_download n fd) (download e n fd dest expected hash mode d w)
      else if text_eq direction (codes "upload")
      then after_branch n fd (leave_upload n fd) (upload n fd dest expected d w)
      else ((ok unknown_direction, d), close_socket n fd w)

  unfoldable pub after_connect :
      ℤ → Text → Text → ℤ → Text → ℕ → Disk → Bool × n.World → (Result Outcome × Disk) × n.World
  unfolding run_direction
  after_connect fd dest direction size hash mode d (false, w) =
      ((ok no_connection, d), close_socket n fd w)
  after_connect fd dest direction (negsuc _) hash mode d (true, w) =
      ((ok bad_size, d), close_socket n fd (n.set_timeouts fd 30 true w))
  after_connect fd dest direction (pos expected) hash mode d (true, w) =
      run_direction fd dest direction expected hash mode d (n.set_timeouts fd 30 true w)

  unfoldable pub after_socket :
      Text → Text → ℤ → Text → ℤ → Text → ℕ → Disk → ℤ × n.World → (Result Outcome × Disk) × n.World
  unfolding after_connect
  after_socket watch rel port direction size hash mode d (negsuc k, w) = ((ok no_socket, d), w)
  after_socket watch rel port direction size hash mode d (pos k, w) =
      after_connect (pos k) (path_join watch rel) direction size hash mode d
        (n.connect (pos k) (loopback (to_u16 port)) w)

  -- `inet_pton` is applied to the literal 127.0.0.1 and cannot fail.
  unfoldable pub handle_file_transfer : FileTransfer n
  unfolding after_socket
  handle_file_transfer watch rel port direction size hash mode d w =
      after_socket watch rel port direction size hash mode d (n.socket inet w)
