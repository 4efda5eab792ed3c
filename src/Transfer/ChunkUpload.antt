-- ===== src/Transfer/ChunkUpload.antt =====
-- What a chunked upload promises: the part of the file from the offset on.
use action_learning_p2p_vers.Prelude.{
  ℕ, ◌+◌, ◌-◌, ◌≤◌, ◌≡◌, sym, ap, ◌∙◌, ◌⊎◌, [], ◌++◌, some, arith, length, take, drop, take-append,
  length-append, length-drop,
}
use mathlib.Core.Path.{ap₂}
use action_learning_p2p_vers.Prelude.Int.{ℤ, pos}
use action_learning_p2p_vers.Prelude.Text.{Text}
use action_learning_p2p_vers.Disk.Paths.{path_join}
use action_learning_p2p_vers.Disk.Nodes.{file}
use action_learning_p2p_vers.Disk.Io.{Disk, node_at, ok}
use action_learning_p2p_vers.Disk.Runs.{read_file_file}
use action_learning_p2p_vers.Sockets.{Net, IsStream, IsReliable}
use action_learning_p2p_vers.Transfer.Upload.{Push, send_loop, all_sent}
use action_learning_p2p_vers.Transfer.Send.{Sent, send_loop-Sent}
use action_learning_p2p_vers.Transfer.Progress.{send_loop_all_sent}
use action_learning_p2p_vers.Transfer.Chunked.{
  chunks_sent, chunk_size, upload_end, send_chunks, upload_opened, handle_chunked_file_upload,
}

-- A front part that ends where the whole ends, or where enough of it has been taken.
front_taken :
    (rest sent unsent : Text) (want : ℕ)
    → rest ≡ sent ++ unsent
    → want ≤ length rest
    → length sent ≤ want
    → (length sent ≡ want) ⊎ (unsent ≡ [])
    → (length sent ≡ want) × (take want rest ≡ sent)
front_taken rest sent unsent want split enough le why =
    (counted, ap₂ take (sym counted) split ∙ take-append sent unsent)
  where
    whole : length rest ≡ length sent + length unsent
    whole = ap length split ∙ length-append sent unsent

    no_rest : unsent ≡ [] → length unsent ≡ 0
    no_rest h = ap length h

    counted : length sent ≡ want
    counted = ground (arith, whole, no_rest)

module _ (n : Net) (s : IsStream n) (fd : ℤ) (size start : ℕ) (c : Text) (w : n.World)
    (reliable : IsReliable n fd) (begun : start ≤ size) (enough : size ≤ length c) where
  open s use {outgoing}

  Sent-part :
      (r : ℕ × Push × n.World)
      → Sent n s fd size start (drop start c) w r
      → r.1 ≡ all_sent
      → (r.0 ≡ size) × (outgoing fd r.2 ≡ outgoing fd w ++ take (size - start) (drop start c))
  Sent-part r g all =
      let long : length (drop start c) ≡ length c - start = length-drop start c in
      let total : r.0 ≡ start + length g.sent = g.exact all in
      let (counted, front) =
        front_taken (drop start c) g.sent g.unsent (size - start) g.split (omega (arith, long))
          (omega (arith, g.within)) (ground (arith, g.ended all, total)) in
      (omega (arith, total, counted), g.out ∙ ap (◌++◌ (outgoing fd w)) (sym front))

  -- Where no call fails and the peer takes what it is given, a chunked upload sends exactly the
  -- bytes of the file from the offset up to the size asked for, which the file has, and reports
  -- that size.
  pub handle_chunked_file_upload_complete :
      (watch rel : Text) (m : ℕ) (d : Disk)
      → d.faults ≡ []
      → node_at (path_join watch rel) d ≡ some (file c m)
      → let r = handle_chunked_file_upload n watch rel fd (pos size) (pos start) d w in
        (r.0 ≡ (ok (chunks_sent (pos size)), d))
        × (outgoing fd r.1 ≡ outgoing fd w ++ take (size - start) (drop start c))
  unfolding handle_chunked_file_upload upload_opened send_chunks
  handle_chunked_file_upload_complete watch rel m d calm there =
      let r = send_loop n chunk_size (size + 1) fd size start (drop start c) w in
      let all =
        send_loop_all_sent n fd chunk_size (size + 1) size start (drop start c) w reliable
          (omega arith) in
      let (total, out) =
        Sent-part r
          (send_loop-Sent n s fd chunk_size (size + 1) size start (drop start c) w (omega arith)
            begun)
          all in
      rw (read_file_file (path_join watch rel) d calm c m there)
        (λ i. (ok (upload_end (total i) (all i)), d), out)
