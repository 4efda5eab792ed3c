-- ===== src/Ipc/Sending.antt =====
-- `send` to a peer that takes what it is given.
use action_learning_p2p_vers.Prelude.{
  ℕ, zero, suc, ◌≤◌, ◌≡◌, refl, sym, ap, ◌∙◌, Bool, true, false, [], ◌∷◌, ◌++◌, arith, inl, inr,
  length, take, drop, length-drop, append-nil,
}
use action_learning_p2p_vers.Prelude.Int.{ℤ, is_negative}
use action_learning_p2p_vers.Prelude.Text.{Text}
use action_learning_p2p_vers.Sockets.{Net, IsStream, IsReliable, WriteResult, wrote}
use action_learning_p2p_vers.Ipc.Frame.{u32_size, htonl, frame}
use action_learning_p2p_vers.Ipc.Client.{Client, after_write, write_all, after_header, send}
use action_learning_p2p_vers.Ipc.Exchange.{SentFrame, send_frame}

module _ (n : Net) (fd : ℤ) (reliable : IsReliable n fd) where
  after_write-true :
      (fuel b k : ℕ) (bytes : Text) (more : Text → n.World → Bool × n.World)
      (r : WriteResult × n.World)
      → length bytes ≤ fuel
      → r.0 ≡ wrote (suc k)
      → ((left : Text) (w : n.World) → length left ≤ fuel → (more left w).0 ≡ true)
      → (after_write n more (b ∷ bytes) r).0 ≡ true
  unfolding after_write
  after_write-true fuel b k bytes more (wrote zero, w) le took rest = ground arith
  after_write-true fuel b k bytes more (wrote (suc i), w) le took rest =
      rest (drop i bytes) w (omega (arith, length-drop i bytes))
  after_write-true fuel b k bytes more (WriteResult.timed_out, w) le took rest = cc
  after_write-true fuel b k bytes more (WriteResult.failed, w) le took rest = cc

  write_all-true :
      (fuel : ℕ) (pending : Text) (w : n.World)
      → length pending ≤ fuel
      → (write_all n fuel fd pending w).0 ≡ true
  unfolding write_all
  write_all-true fuel [] w le = refl
  write_all-true zero (b ∷ bytes) w le = absurd (omega arith)
  write_all-true (suc fuel) (b ∷ bytes) w le =
      let (k, took) = reliable b bytes w in
      after_write-true fuel b k bytes (write_all n fuel fd) (n.write fd (b ∷ bytes) w) (omega arith)
        took (write_all-true fuel)

  after_header-true :
      (payload : Text) (r : Bool × n.World) → r.0 ≡ true → (after_header n fd payload r).0 ≡ true
  unfolding after_header
  after_header-true payload (true, w) h = write_all-true (length payload) payload w (omega arith)
  after_header-true payload (false, w) h = cc

module _ (n : Net) (s : IsStream n) (c : Client) where
  open s use {outgoing}
  open c use {socket_fd}

  sends_true :
      (message : Text) (w : n.World)
      → IsReliable n socket_fd
      → is_negative socket_fd ≡ false
      → (send n c message w).0 ≡ true
  unfolding send htonl
  sends_true message w reliable open_fd = rw open_fd (
      after_header-true n socket_fd reliable (take (u32_size message) message)
        (write_all n 4 socket_fd (htonl (u32_size message)) w)
        (write_all-true n socket_fd reliable 4 (htonl (u32_size message)) w (omega arith)))

  all_out :
      (message : Text) (w : n.World) (r : Bool × n.World)
      → SentFrame n s c message w r
      → r.0 ≡ true
      → outgoing socket_fd r.1 ≡ outgoing socket_fd w ++ frame message
  all_out message w r (sent, left, split, out, inl h) fine = cc
  all_out message w r (sent, left, split, out, inr none_left) fine =
      out
      ∙ ap (◌++◌ (outgoing socket_fd w)) (sym (split ∙ ap (◌++◌ sent) none_left ∙ append-nil sent))

  -- On a connected client whose peer takes what it is given, `send` returns true and has put the
  -- frame of the message on the stream, whole.
  pub send_complete :
      (message : Text) (w : n.World)
      → IsReliable n socket_fd
      → is_negative socket_fd ≡ false
      → ((send n c message w).0 ≡ true)
        × (outgoing socket_fd (send n c message w).1 ≡ outgoing socket_fd w ++ frame message)
  send_complete message w reliable open_fd =
      let fine = sends_true message w reliable open_fd in
      (fine, all_out message w (send n c message w) (send_frame n s c message w) fine)
