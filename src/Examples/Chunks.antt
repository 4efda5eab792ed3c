-- ===== src/Examples/Chunks.antt =====
-- Runs of the chunk handlers.
use action_learning_p2p_vers.Prelude.{
  ◌-◌, ◌≡◌, refl, if◌then◌else◌, ap, false, true, [], ◌∷◌, arith, inr, length, take, drop,
}
use action_learning_p2p_vers.Prelude.Int.{pos}
use action_learning_p2p_vers.Prelude.Text.{Text, codes, text_eq}
use action_learning_p2p_vers.Disk.Nodes
use action_learning_p2p_vers.Disk.Nodes.{file, dir}
use action_learning_p2p_vers.Disk.Ops
use action_learning_p2p_vers.Disk.Paths
use action_learning_p2p_vers.Disk.Io.{Disk, ok, threw}
use action_learning_p2p_vers.Disk.Frame.{file_at}
use action_learning_p2p_vers.Crypto.Sha
use action_learning_p2p_vers.Crypto.Hex
use action_learning_p2p_vers.Transfer.Chunked.{
  chunk_mismatch, chunk_stored, file_complete, chunks_sent, handle_chunked_file_download,
  handle_chunked_file_upload,
}
use action_learning_p2p_vers.Transfer.ChunkPromise.{
  handle_chunked_file_download-others, chunk_without_directory,
}
use action_learning_p2p_vers.Transfer.ChunkOrder.{contents, receive_file}
use action_learning_p2p_vers.Transfer.ChunkSequence.{receive_file_installs}
use action_learning_p2p_vers.Transfer.ChunkUpload.{handle_chunked_file_upload_complete}
use action_learning_p2p_vers.Examples.Instances.{
  byte_evp, peer, peer-IsStream, empty_disk, one_file, sending,
}

-- The temporary file of `w/b` is begun.
abbrev begun : Disk
begun = record {
  nodes = (codes "w", dir) ∷ (codes "w/b.tmp", file (codes "hello") 0o644) ∷ [];
  faults = [];
}

-- 209 is 0xd1, the sum of the bytes.
abbrev checksum : Text
checksum = codes "d1"

handle_chunked_file_download-others_example :
    file_at
      (codes "w/a")
      (handle_chunked_file_download byte_evp
        (codes "w")
        (codes "bb")
        (codes "hi")
        (pos 5)
        checksum
        true
        []
        one_file).1
    ≡ file_at (codes "w/a") one_file
unfolding Paths.path_join
handle_chunked_file_download-others_example =
    handle_chunked_file_download-others byte_evp (codes "w/a") (codes "w") (codes "bb") (codes "hi")
      (pos 5) checksum true [] one_file (λ h. omega (arith, ap length h))
      (λ h. omega (arith, ap length h)) (λ h. omega (arith, ap length h))

chunk_without_directory_example :
    handle_chunked_file_download byte_evp
      (codes "w")
      (codes "x/b")
      (codes "hi")
      (pos 0)
      checksum
      false
      []
      empty_disk
    ≡ (if Ops.is_blocked (codes "x/b.tmp.chk") empty_disk.nodes
        then (threw, empty_disk)
        else (ok chunk_mismatch, empty_disk))
unfolding Paths.path_join Paths.parent_path Nodes.lookup text_eq Ops.is_blocked
chunk_without_directory_example =
    chunk_without_directory byte_evp (codes "w") (codes "x/b") (codes "hi") (pos 0) checksum false
      [] empty_disk refl refl refl refl

-- 20, 209 and 229 are the sums of the bytes of "hello", of "hi" and of both.
receive_file_installs_example :
    receive_file byte_evp
      (codes "w")
      (codes "b")
      (codes "e5")
      0
      ((codes "hello", codes "14") ∷ [])
      (codes "hi", checksum)
      empty_disk
    ≡ (
      ok (chunk_stored ∷ file_complete ∷ []),
      Ops.put (codes "w/b") (file (codes "hellohi") Ops.default_mode) empty_disk,
    )
unfolding Paths.path_join Paths.parent_path Paths.prefixes Nodes.lookup text_eq Sha.hash_content
    Sha.update_all Hex.to_hex Hex.hex_digit contents
receive_file_installs_example =
    receive_file_installs byte_evp (codes "w") (codes "b") (codes "e5") empty_disk refl refl
      (refl, tt) refl refl refl ((codes "hello", codes "14") ∷ []) (codes "hi", checksum) (refl, tt)
      refl (inr refl)

handle_chunked_file_upload_complete_example :
    let r =
      handle_chunked_file_upload peer
        (codes "w")
        (codes "a")
        (pos 5)
        (pos 4)
        (pos 1)
        one_file
        (sending []) in
    (r.0 ≡ (ok (chunks_sent (pos 4)), one_file))
    × (r.1.outbox ≡ take (4 - 1) (drop 1 (codes "hello")))
unfolding Paths.path_join Nodes.lookup text_eq
handle_chunked_file_upload_complete_example =
    handle_chunked_file_upload_complete peer peer-IsStream (pos 5) 4 1 (codes "hello") (sending [])
      (λ b bytes w. (length bytes, refl)) (omega arith) (omega arith) (codes "w") (codes "a") 0o644
      one_file refl refl

-- The next call of the operating system fails.
abbrev unreadable : Disk
unreadable = record begun { faults = true ∷ [] }
