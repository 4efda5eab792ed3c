-- ===== src/Transfer/Descriptors.antt =====
-- The handler gives back the descriptor that it takes.
use action_learning_p2p_vers.Prelude.{
  ℕ, zero, suc, ◌+◌, ◌-◌, ◌≡◌, refl, ◌∙◌, ◌≢◌, Bool, true, false, not, ◌&&◌, [], ◌∷◌, Option, none,
  some, arith, inl, inr, Bool-cases, length, take, drop, min, if◌then◌else◌,
}
use action_learning_p2p_vers.Prelude.Int.{ℤ, pos, negsuc, is_negative}
use action_learning_p2p_vers.Prelude.Text.{Text, text_eq, codes}
use action_learning_p2p_vers.Disk.Paths.{path_join}
use action_learning_p2p_vers.Disk.Io.{Disk, Result, ok, threw}
use action_learning_p2p_vers.Disk.Ops.{append, exists, read_file}
use action_learning_p2p_vers.Crypto.Evp.{Evp}
use action_learning_p2p_vers.Crypto.Sha.{buffer_size}
use action_learning_p2p_vers.Sockets.{
  Net, IsHolding, int_eq, int_eq→eq, ReadResult, got, WriteResult, wrote, inet, loopback, to_u16,
}
use action_learning_p2p_vers.Transfer.Socket.{close_socket}
use action_learning_p2p_vers.Transfer.Download.{
  Outcome, no_socket, no_connection, bad_size, unknown_direction, open_failed, size_mismatch,
  hash_mismatch, downloaded, download_exception, upload_not_found, upload_open_failed,
  upload_exception, uploaded, Progress, receive_loop, after_read, after_append, prepare,
  after_prepare, download, tmp_of,
}
use action_learning_p2p_vers.Transfer.Upload.{
  Push, push, after_write, after_push, send_loop, after_open, after_exists, upload, leave_download,
  leave_upload, close_last, after_branch, run_direction, after_connect, after_socket,
  handle_file_transfer,
}

module _ (n : Net) (hs : IsHolding n) (g : ℤ) where
  open hs use {
    holds, socket_fresh, holds-socket, holds-close, holds-connect, holds-set_timeouts, holds-read,
    holds-write,
  }

  abbrev HoldsAlike : n.World → n.World → Type 0
  HoldsAlike w w' = holds w' g ≡ holds w g

  append-holds :
      (total : ℕ) (w w' : n.World) (more : Disk → Progress n) (r : Result Bool × Disk)
      → HoldsAlike w w'
      → ((d : Disk) → HoldsAlike w (more d).3)
      → HoldsAlike w (after_append n total w' more r).3
  unfolding after_append
  append-holds total w w' more (ok true, d) same rest = rest d
  append-holds total w w' more (ok false, d) same rest = same
  append-holds total w w' more (threw, d) same rest = same

  read-holds :
      (tmp : Text) (total : ℕ) (d : Disk) (w : n.World) (more : Text → Disk → n.World → Progress n)
      (r : ReadResult × n.World)
      → HoldsAlike w r.1
      → ((bytes : Text) (d' : Disk) → HoldsAlike w (more bytes d' r.1).3)
      → HoldsAlike w (after_read n tmp total d more r).3
  unfolding after_read
  read-holds tmp total d w more (got [], w') same rest = same
  read-holds tmp total d w more (got (b ∷ bytes), w') same rest =
      append-holds total w w' (λ d'. more (b ∷ bytes) d' w') (append tmp (b ∷ bytes) d) same
        (rest (b ∷ bytes))
  read-holds tmp total d w more (ReadResult.timed_out, w') same rest = same
  read-holds tmp total d w more (ReadResult.failed, w') same rest = same

  receive_loop-holds :
      (fd : ℤ) (tmp : Text) (expected fuel total : ℕ) (d : Disk) (w : n.World)
      → HoldsAlike w (receive_loop n fd tmp expected fuel total d w).3
  unfolding receive_loop
  receive_loop-holds fd tmp expected zero total d w = refl
  receive_loop-holds fd tmp expected (suc fuel) total d w = ground (
    arith,
    read-holds tmp total d w (λ bytes. receive_loop n fd tmp expected fuel (total + length bytes))
        (n.read fd (min buffer_size (expected - total)) w)
        (holds-read fd (min buffer_size (expected - total)) w g)
        (λ bytes d'.
          receive_loop-holds fd tmp expected fuel (total + length bytes) d'
            (n.read fd (min buffer_size (expected - total)) w).1
          ∙ holds-read fd (min buffer_size (expected - total)) w g),
  )

  write-holds :
      (pending : Text) (w : n.World) (more : Text → n.World → Push × Text × n.World)
      (r : WriteResult × n.World)
      → HoldsAlike w r.1
      → ((left : Text) → HoldsAlike w (more left r.1).2)
      → HoldsAlike w (after_write n pending more r).2
  unfolding after_write
  write-holds pending w more (wrote k, w') same rest = rest (drop k pending)
  write-holds pending w more (WriteResult.timed_out, w') same rest = same
  write-holds pending w more (WriteResult.failed, w') same rest = same

  push-holds :
      (fuel : ℕ) (fd : ℤ) (pending : Text) (w : n.World) → HoldsAlike w (push n fuel fd pending w).2
  unfolding push
  push-holds fuel fd [] w = refl
  push-holds zero fd (b ∷ bytes) w = refl
  push-holds (suc fuel) fd (b ∷ bytes) w =
      write-holds (b ∷ bytes) w (push n fuel fd) (n.write fd (b ∷ bytes) w)
        (holds-write fd (b ∷ bytes) w g)
        (λ left.
          push-holds fuel fd left (n.write fd (b ∷ bytes) w).1 ∙ holds-write fd (b ∷ bytes) w g)

  after_push-holds :
      (total : ℕ) (w : n.World) (more : n.World → ℕ × Push × n.World) (r : Push × Text × n.World)
      → HoldsAlike w r.2
      → HoldsAlike w (more r.2).2
      → HoldsAlike w (after_push n total more r).2
  unfolding after_push
  after_push-holds total w more (p, [], w') same rest = rest
  after_push-holds total w more (p, b ∷ left, w') same rest = same

  send_loop-holds :
      (block fuel : ℕ) (fd : ℤ) (expected total : ℕ) (rest : Text) (w : n.World)
      → HoldsAlike w (send_loop n block fuel fd expected total rest w).2
  unfolding send_loop
  send_loop-holds block zero fd expected total rest w = refl
  send_loop-holds block (suc fuel) fd expected total rest w =
      let k = min block (expected - total) in
      let bytes = take k rest in
      let sent = push-holds (length bytes) fd bytes w in
      ground (
        arith,
        after_push-holds total w
            (send_loop n block fuel fd expected (total + length bytes) (drop k rest))
            (push n (length bytes) fd bytes w) sent
            (send_loop-holds block fuel fd expected (total + length bytes) (drop k rest)
                (push n (length bytes) fd bytes w).2
              ∙ sent),
      )

  module _ (e : Evp) where
    prepared-holds :
        (fd : ℤ) (dest : Text) (expected : ℕ) (hash : Text) (mode : ℕ) (w : n.World)
        (r : Result Bool × Disk)
        → HoldsAlike w (after_prepare e n fd dest expected hash mode w r).1
    unfolding after_prepare
    prepared-holds fd dest expected hash mode w (ok true, d) =
        receive_loop-holds fd (tmp_of dest) expected (expected + 1) 0 d w
    prepared-holds fd dest expected hash mode w (ok false, d) = refl
    prepared-holds fd dest expected hash mode w (threw, d) = refl

    opened-holds :
        (fd : ℤ) (expected : ℕ) (w : n.World) (r : Result (Option Text) × Disk)
        → HoldsAlike w (after_open n fd expected w r).1
    unfolding after_open
    opened-holds fd expected w (ok none, d) = refl
    opened-holds fd expected w (ok (some c), d) =
        send_loop-holds buffer_size (expected + 1) fd expected 0 c w
    opened-holds fd expected w (threw, d) = refl

    seen-holds :
        (fd : ℤ) (dest : Text) (expected : ℕ) (w : n.World) (r : Result Bool × Disk)
        → HoldsAlike w (after_exists n fd dest expected w r).1
    unfolding after_exists
    seen-holds fd dest expected w (ok true, d) = opened-holds fd expected w (read_file dest d)
    seen-holds fd dest expected w (ok false, d) = refl
    seen-holds fd dest expected w (threw, d) = refl

    -- What is left of the descriptors when that one is given back.
    abbrev Closed : ℤ → n.World → n.World → Type 0
    Closed fd w w' = holds w' g ≡ (if int_eq g fd then false else holds w g)

    closes : (fd : ℤ) (w w' : n.World) → HoldsAlike w w' → Closed fd w (close_socket n fd w')
    closes fd w w' same = ground (arith, holds-close fd w' g, same)

    download-Closed :
        (fd : ℤ) (w w' : n.World)
        → HoldsAlike w w'
        → (o : Outcome) → Closed fd w (close_last n fd (leave_download n fd o w'))
    unfolding leave_download close_last
    download-Closed fd w w' same no_socket = closes fd w w' same
    download-Closed fd w w' same no_connection = closes fd w w' same
    download-Closed fd w w' same bad_size = closes fd w w' same
    download-Closed fd w w' same unknown_direction = closes fd w w' same
    download-Closed fd w w' same open_failed = closes fd w w' same
    download-Closed fd w w' same size_mismatch = closes fd w w' same
    download-Closed fd w w' same hash_mismatch = closes fd w w' same
    download-Closed fd w w' same downloaded = closes fd w w' same
    download-Closed fd w w' same download_exception = closes fd w w' same
    download-Closed fd w w' same upload_not_found = closes fd w w' same
    download-Closed fd w w' same upload_open_failed = closes fd w w' same
    download-Closed fd w w' same upload_exception = closes fd w w' same
    download-Closed fd w w' same (uploaded k) = closes fd w w' same

    upload-Closed :
        (fd : ℤ) (w w' : n.World)
        → HoldsAlike w w'
        → (o : Outcome) → Closed fd w (close_last n fd (leave_upload n fd o w'))
    unfolding leave_upload close_last
    upload-Closed fd w w' same no_socket = closes fd w w' same
    upload-Closed fd w w' same no_connection = closes fd w w' same
    upload-Closed fd w w' same bad_size = closes fd w w' same
    upload-Closed fd w w' same unknown_direction = closes fd w w' same
    upload-Closed fd w w' same open_failed = closes fd w w' same
    upload-Closed fd w w' same size_mismatch = closes fd w w' same
    upload-Closed fd w w' same hash_mismatch = closes fd w w' same
    upload-Closed fd w w' same downloaded = closes fd w w' same
    upload-Closed fd w w' same download_exception = closes fd w w' same
    upload-Closed fd w w' same upload_not_found = closes fd w w' same
    upload-Closed fd w w' same upload_open_failed = closes fd w w' same
    upload-Closed fd w w' same upload_exception = closes fd w w' same
    upload-Closed fd w w' same (uploaded k) = closes fd w w' same

    -- The handler has closed its socket, unless an exception has left it.
    abbrev Ends : ℤ → n.World → (Result Outcome × Disk) × n.World → Type 0
    Ends fd w ((ok o, d), w') = Closed fd w w'
    Ends fd w ((threw, d), w') = Unit

    branch-Ends :
        (fd : ℤ) (w : n.World) (leave : Outcome → n.World → Bool × n.World)
        (r : (Result Outcome × Disk) × n.World)
        → ((w' : n.World)
            → HoldsAlike w w'
            → (o : Outcome) → Closed fd w (close_last n fd (leave o w')))
        → HoldsAlike w r.1
        → Ends fd w (after_branch n fd leave r)
    unfolding after_branch
    branch-Ends fd w leave ((ok o, d), w') closed same = closed w' same o
    branch-Ends fd w leave ((threw, d), w') closed same = tt

    direction-Ends :
        (fd : ℤ) (dest direction : Text) (expected : ℕ) (hash : Text) (mode : ℕ) (d : Disk)
        (w : n.World)
        → Ends fd w (run_direction e n fd dest direction expected hash mode d w)
    unfolding run_direction download upload
    direction-Ends fd dest direction expected hash mode d w =
        elim (Bool-cases (text_eq direction (codes "download"))) [
          | inl t ↦ rw t (
              branch-Ends fd w (leave_download n fd) _ (download-Closed fd w)
                (prepared-holds fd dest expected hash mode w (prepare dest d)))
          | inr t ↦ elim (Bool-cases (text_eq direction (codes "upload"))) [
            | inl u ↦
                rw (t, u)
                  (branch-Ends fd w (leave_upload n fd) _ (upload-Closed fd w)
                    (seen-holds fd dest expected w (exists dest d)))
            | inr u ↦ rw (t, u) (closes fd w w refl)
          ]
        ]

    Ends-from :
        (fd : ℤ) (w w' : n.World) (r : (Result Outcome × Disk) × n.World)
        → HoldsAlike w w'
        → Ends fd w' r
        → Ends fd w r
    Ends-from fd w w' ((ok o, d), w2) same ends = rw⁻¹ same ends
    Ends-from fd w w' ((threw, d), w2) same ends = tt

    connected-Ends :
        (fd : ℤ) (dest direction : Text) (size : ℤ) (hash : Text) (mode : ℕ) (d : Disk)
        (w : n.World) (r : Bool × n.World)
        → HoldsAlike w r.1
        → Ends fd w (after_connect e n fd dest direction size hash mode d r)
    unfolding after_connect
    connected-Ends fd dest direction size hash mode d w (false, w') same = closes fd w w' same
    connected-Ends fd dest direction (negsuc k) hash mode d w (true, w') same =
        closes fd w (n.set_timeouts fd 30 true w') (holds-set_timeouts fd 30 true w' g ∙ same)
    connected-Ends fd dest direction (pos expected) hash mode d w (true, w') same =
        Ends-from fd w (n.set_timeouts fd 30 true w') _ (holds-set_timeouts fd 30 true w' g ∙ same)
          (direction-Ends fd dest direction expected hash mode d (n.set_timeouts fd 30 true w'))

    given_back :
        (k : ℕ) (w w1 : n.World) (r : (Result Outcome × Disk) × n.World)
        → holds w (pos k) ≡ false
        → holds w1 g ≡ (if int_eq g (pos k) then true else holds w g)
        → Ends (pos k) w1 r
        → r.0.0 ≢ threw
        → HoldsAlike w r.1
    given_back k w w1 ((ok o, d), w2) fresh opened ends lives =
        elim (Bool-cases (int_eq g (pos k))) [
          | inl t ↦ ground (arith, ends, int_eq→eq g (pos k) t)
          | inr t ↦ ground (arith, ends)
        ]
    given_back k w w1 ((threw, d), w2) fresh opened ends lives = absurd (lives refl)

    socket-holds :
        (watch rel : Text) (port : ℤ) (direction : Text) (size : ℤ) (hash : Text) (mode : ℕ)
        (d : Disk) (w : n.World) (r : ℤ × n.World)
        → (is_negative r.0 ≡ false → holds w r.0 ≡ false)
        → (holds r.1 g ≡ (if not (is_negative r.0) && int_eq g r.0 then true else holds w g))
        → (after_socket e n watch rel port direction size hash mode d r).0.0 ≢ threw
        → HoldsAlike w (after_socket e n watch rel port direction size hash mode d r).1
    unfolding after_socket
    socket-holds watch rel port direction size hash mode d w (negsuc k, w1) fresh opened lives =
        opened
    socket-holds watch rel port direction size hash mode d w (pos k, w1) fresh opened lives =
        given_back k w w1 _ (fresh refl) opened
          (connected-Ends (pos k) (path_join watch rel) direction size hash mode d w1
            (n.connect (pos k) (loopback (to_u16 port)) w1)
            (holds-connect (pos k) (loopback (to_u16 port)) w1 g))
          lives

    -- Unless an exception ends the process, the handler leaves the process with the descriptors that
    -- it had: on every path out it closes the socket that it opened, and no other.
    pub handle_file_transfer-holds :
        (watch rel : Text) (port : ℤ) (direction : Text) (size : ℤ) (hash : Text) (mode : ℕ)
        (d : Disk) (w : n.World)
        → (handle_file_transfer e n watch rel port direction size hash mode d w).0.0 ≢ threw
        → holds (handle_file_transfer e n watch rel port direction size hash mode d w).1 g
          ≡ holds w g
    unfolding handle_file_transfer
    handle_file_transfer-holds watch rel port direction size hash mode d w lives =
        socket-holds watch rel port direction size hash mode d w (n.socket inet w)
          (socket_fresh inet w) (holds-socket inet w g) lives
