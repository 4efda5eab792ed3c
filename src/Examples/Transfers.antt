-- ===== src/Examples/Transfers.antt =====
-- Runs of the transfer handler: a download of five bytes and an upload of three.
use action_learning_p2p_vers.Prelude.{ℕ}
use action_learning_p2p_vers.Prelude.{
  ◌≡◌, refl, inr, ◌≢◌, false, [], ◌∷◌, some, arith, length, take,
}
use action_learning_p2p_vers.Prelude.Int.{pos}
use action_learning_p2p_vers.Prelude.Text.{Text, codes, text_eq}
use action_learning_p2p_vers.Disk.Io.{Disk, Result, ok}
use action_learning_p2p_vers.Disk.Frame.{file_at}
use action_learning_p2p_vers.Disk.Nodes
use action_learning_p2p_vers.Disk.Ops
use action_learning_p2p_vers.Disk.Paths
use action_learning_p2p_vers.Crypto.Hex
use action_learning_p2p_vers.Crypto.Sha
use action_learning_p2p_vers.Transfer.Download
use action_learning_p2p_vers.Crypto.Sha.{buffer_size, sha256, hash_content}
use action_learning_p2p_vers.Crypto.Streaming.{hash_content-sha256}
use action_learning_p2p_vers.Transfer.Download.{Outcome, downloaded, uploaded, tmp_of, download}
use action_learning_p2p_vers.Transfer.Upload.{
  stuck, close_last, after_branch, leave_download, send_loop, upload, handle_file_transfer,
}
use action_learning_p2p_vers.Transfer.Promise.{
  Whole, download-Whole, NoLeftover, download-NoLeftover, Verified, download-Verified,
}
use action_learning_p2p_vers.Transfer.Arrival.{download_arrives}
use action_learning_p2p_vers.Transfer.Progress.{send_loop-ne-stuck}
use action_learning_p2p_vers.Transfer.UploadPromise.{Front, upload-Front, upload-Complete}
use action_learning_p2p_vers.Transfer.Descriptors.{handle_file_transfer-holds}
use action_learning_p2p_vers.Examples.Messages.{delivering}
use action_learning_p2p_vers.Examples.Instances.{
  Peer, byte_evp, byte_evp-IsDigest, peer, peer-IsStream, peer-IsHolding, empty_disk, one_file,
  sending,
}

abbrev dest : Text
dest = codes "w/a"

-- 532 % 256 is 0x14.
abbrev hash : Text
hash = codes "14"

abbrev after_download : (Result Outcome × Disk) × Peer
after_download =
    download byte_evp peer (pos 5) dest 5 hash 0o600 empty_disk (sending (codes "hello!"))

downloads : after_download.0.0 ≡ ok downloaded
unfolding Download.download Download.prepare Download.receive_loop Download.finish
    Ops.create_directories Ops.open_truncate Ops.append Ops.read_file Ops.rename Ops.permissions
    Paths.parent_path Paths.prefixes Nodes.lookup Nodes.insert Nodes.erase text_eq Sha.sha256_file
    Sha.hash_content Sha.update_all Hex.to_hex Hex.hex_digit
downloads = refl

download-Whole_example :
    Whole byte_evp peer peer-IsStream
      (pos 5)
      dest
      5
      hash
      0o600
      empty_disk
      (sending (codes "hello!"))
      after_download
download-Whole_example =
    download-Whole byte_evp peer peer-IsStream (pos 5) dest 5 hash 0o600 empty_disk
      (sending (codes "hello!"))

download-Verified_example :
    Verified byte_evp peer peer-IsStream
      (pos 5)
      dest
      5
      hash
      0o600
      empty_disk
      (sending (codes "hello!"))
      byte_evp-IsDigest
      refl
      after_download
download-Verified_example =
    download-Verified byte_evp peer peer-IsStream (pos 5) dest 5 hash 0o600 empty_disk
      (sending (codes "hello!")) byte_evp-IsDigest refl refl refl downloads

download-NoLeftover_example :
    NoLeftover byte_evp peer peer-IsStream
      (pos 5)
      dest
      5
      hash
      0o600
      empty_disk
      (sending (codes "hello!"))
      after_download
download-NoLeftover_example =
    download-NoLeftover byte_evp peer peer-IsStream (pos 5) dest 5 hash 0o600 empty_disk
      (sending (codes "hello!"))

upload-Front_example :
    Front peer peer-IsStream
      (pos 5)
      dest
      3
      one_file
      (sending [])
      (upload peer (pos 5) dest 3 one_file (sending []))
upload-Front_example = upload-Front peer peer-IsStream (pos 5) dest 3 one_file (sending [])

one_file_holds : file_at dest one_file ≡ some (codes "hello", 0o644)
unfolding Nodes.lookup text_eq
one_file_holds = refl

upload-Complete_example :
    ((upload peer (pos 5) dest 3 one_file (sending [])).0.0 ≡ ok (uploaded 3))
    × ((upload peer (pos 5) dest 3 one_file (sending [])).1.outbox ≡ take 3 (codes "hello"))
upload-Complete_example =
    upload-Complete peer peer-IsStream (pos 5) dest 3 one_file (sending []) (codes "hello") 0o644
      one_file_holds refl (λ b bytes w. (length bytes, refl)) (omega arith)

send_loop-ne-stuck_example :
    (send_loop peer buffer_size 6 (pos 5) 5 0 (codes "hello") (sending [])).1 ≢ stuck
send_loop-ne-stuck_example =
    send_loop-ne-stuck peer (pos 5) buffer_size 6 5 0 (codes "hello") (sending [])
      (λ b bytes w h. cc) (omega arith)

hash_content-sha256_example :
    (hash_content byte_evp (some (codes "hello")) ≡ some (sha256 byte_evp (codes "hello")))
    × (sha256 byte_evp (codes "hello") ≡ Hex.to_hex (0x14 ∷ []))
hash_content-sha256_example = hash_content-sha256 byte_evp byte_evp-IsDigest (codes "hello") refl

abbrev idle : Peer
idle = record { inbox = codes "hello!"; outbox = []; held = false }

abbrev after_handling : (Result Outcome × Disk) × Peer
after_handling =
    handle_file_transfer byte_evp peer (codes "w") (codes "a") (pos 9000) (codes "download") (pos 5)
      hash 0o600 empty_disk idle

handled : after_handling.0.0 ≡ ok downloaded
unfolding handle_file_transfer close_last after_branch leave_download Download.download
    Download.prepare Download.receive_loop Download.finish Ops.create_directories Ops.open_truncate
    Ops.append Ops.read_file Ops.rename Ops.permissions Paths.parent_path Paths.path_join
    Paths.prefixes Nodes.lookup Nodes.insert Nodes.erase text_eq Sha.sha256_file Sha.hash_content
    Sha.update_all Hex.to_hex Hex.hex_digit
handled = refl

handle_file_transfer-holds_example :
    peer-IsHolding.holds after_handling.1 (pos 5) ≡ peer-IsHolding.holds idle (pos 5)
handle_file_transfer-holds_example =
    handle_file_transfer-holds peer peer-IsHolding (pos 5) byte_evp (codes "w") (codes "a")
      (pos 9000) (codes "download") (pos 5) hash 0o600 empty_disk idle (λ h. cc handled)

download_arrives_example :
    (after_download.0.0 ≡ ok downloaded)
    × ((k : ℕ) × (file_at dest after_download.0.1 ≡ some (codes "hello", k)))
    × (after_download.1.inbox ≡ codes "!")
unfolding Paths.parent_path Paths.prefixes Nodes.lookup text_eq Ops.create_directories
    Sha.hash_content Sha.update_all Hex.to_hex Hex.hex_digit
download_arrives_example =
    download_arrives byte_evp dest hash 0o600 empty_disk refl refl refl refl refl peer peer-IsStream
      (pos 5) (codes "hello") (codes "!") (sending (codes "hello!")) delivering refl (inr refl)
