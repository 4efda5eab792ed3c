-- ===== src/Transfer/Download.antt =====
-- The download branch of `handle_file_transfer`: into a temporary file, which replaces the
-- destination only when it is complete.
use action_learning_p2p_vers.Transfer.Socket.{read_socket}
use action_learning_p2p_vers.Prelude.{
  ℕ, zero, suc, ◌+◌, ◌-◌, Bool, true, false, [], ◌∷◌, ◌++◌, Option, none, some, ◌==◌, ltb, leb,
  if◌then◌else◌, length, min,
}
use action_learning_p2p_vers.Prelude.Int.{ℤ}
use action_learning_p2p_vers.Prelude.Text.{Text, text_eq, is_empty, codes}
use action_learning_p2p_vers.Disk.Paths.{parent_path}
use action_learning_p2p_vers.Disk.Io.{Disk, Result, ok, threw, Io, pure, ◌>>=◌, ◌>>◌, try_catch}
use action_learning_p2p_vers.Disk.Ops.{
  exists, remove, rename, permissions, create_directories, open_truncate, append,
}
use action_learning_p2p_vers.Crypto.Evp.{Evp}
use action_learning_p2p_vers.Crypto.Sha.{buffer_size, sha256_file}
use action_learning_p2p_vers.Sockets.{Net, ReadResult, got}

-- Why the receive loop ended. Fuel is the model's own.
pub data Stop : Type 0 where
  finished nothing_to_read read_timeout read_error peer_closed write_failed out_of_fuel : Stop

-- Which message the handler ends with.
pub data Outcome : Type 0 where
  no_socket no_connection bad_size unknown_direction : Outcome
  open_failed size_mismatch hash_mismatch downloaded download_exception : Outcome
  upload_not_found upload_open_failed upload_exception : Outcome
  uploaded : ℕ → Outcome

module _ (n : Net) where
  abbrev pub Progress : Type 0
  Progress = Stop × ℕ × Disk × n.World

  unfoldable pub after_append : ℕ → n.World → (Disk → Progress) → Result Bool × Disk → Progress
  after_append total w more (ok true, d) = more d
  after_append total w more (ok false, d) = (write_failed, total, d, w)
  after_append total w more (threw, d) = (write_failed, total, d, w)

  unfoldable pub after_read :
      Text → ℕ → Disk → (Text → Disk → n.World → Progress) → ReadResult × n.World → Progress
  unfolding after_append
  after_read tmp total d more (ReadResult.timed_out, w) = (read_timeout, total, d, w)
  after_read tmp total d more (ReadResult.failed, w) = (read_error, total, d, w)
  after_read tmp total d more (got [], w) = (peer_closed, total, d, w)
  after_read tmp total d more (got (b ∷ bytes), w) =
      after_append total w (λ d'. more (b ∷ bytes) d' w) (append tmp (b ∷ bytes) d)

  -- `while (total_received < expected_size)`
  unfoldable pub receive_loop : ℤ → Text → ℕ → ℕ → ℕ → Disk → n.World → Progress
  unfolding after_read
  receive_loop fd tmp expected zero total d w = (out_of_fuel, total, d, w)
  receive_loop fd tmp expected (suc fuel) total d w =
      let to_read = min buffer_size (expected - total) in
      let round =
        after_read tmp total d (λ bytes. receive_loop fd tmp expected fuel (total + length bytes))
          (read_socket n fd to_read w) in
      if ltb total expected
      then (if leb to_read 0 then (nothing_to_read, total, d, w) else round)
      else (finished, total, d, w)

-- The mode is set outside Windows, and a failure is only logged.
unfoldable pub set_mode : Text → ℕ → Io (Unit {0})
set_mode dest mode = if ltb 0 mode then try_catch (permissions dest mode) (pure tt) else pure tt

module _ (e : Evp) where
  -- A file that cannot be read for its digest passes.
  abbrev pub digest_passes : Text → Option Text → Bool
  digest_passes expected_hash none = true
  digest_passes expected_hash (some actual) = text_eq actual expected_hash

  unfoldable pub check_hash : Text → Text → Io Bool
  check_hash tmp expected_hash =
      if is_empty expected_hash
      then pure true
      else (sha256_file e tmp >>= λ actual. pure (digest_passes expected_hash actual))

  unfoldable pub install : Text → Text → ℕ → Bool → Io Outcome
  unfolding set_mode
  install tmp dest mode false = remove tmp >>= λ _. pure hash_mismatch
  install tmp dest mode true = do rename tmp dest; set_mode dest mode; pure downloaded

  -- What follows the loop inside the `try`.
  unfoldable pub finish : Text → Text → ℕ → Text → ℕ → ℕ → Io Outcome
  unfolding check_hash install
  finish tmp dest expected expected_hash mode total =
      if total == expected
      then (check_hash tmp expected_hash >>= install tmp dest mode)
      else (remove tmp >>= λ _. pure size_mismatch)

-- `catch (const std::exception& e)`. What this throws ends the process.
unfoldable pub clean_up : Text → Io Outcome
clean_up tmp = exists tmp >>= λ there.
    if there then (remove tmp >>= λ _. pure download_exception) else pure download_exception

abbrev pub tmp_of : Text → Text
tmp_of dest = dest ++ codes ".tmp"

-- `create_directories(dest_path.parent_path())` and `std::ofstream outfile(tmp_path)`
unfoldable pub prepare : Text → Io Bool
prepare dest = create_directories (parent_path dest) >> open_truncate (tmp_of dest)

module _ (e : Evp) (n : Net) where
  unfoldable pub after_prepare :
      ℤ → Text → ℕ → Text → ℕ → n.World → Result Bool × Disk → (Result Outcome × Disk) × n.World
  after_prepare fd dest expected expected_hash mode w (threw, d) = (clean_up (tmp_of dest) d, w)
  after_prepare fd dest expected expected_hash mode w (ok false, d) = ((ok open_failed, d), w)
  after_prepare fd dest expected expected_hash mode w (ok true, d) =
      let (stop, total, d', w') = receive_loop n fd (tmp_of dest) expected (expected + 1) 0 d w in
      (
        try_catch (finish e (tmp_of dest) dest expected expected_hash mode total)
            (clean_up (tmp_of dest)) d',
        w',
      )

  -- Each round of the loop receives a byte at least, so `expected + 1` rounds are enough.
  unfoldable pub download :
      ℤ → Text → ℕ → Text → ℕ → Disk → n.World → (Result Outcome × Disk) × n.World
  unfolding after_prepare
  download fd dest expected expected_hash mode d w =
      after_prepare fd dest expected expected_hash mode w (prepare dest d)
