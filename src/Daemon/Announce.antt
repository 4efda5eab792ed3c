-- ===== src/Daemon/Announce.antt =====
-- What the watch callback reports of a file, and what it keeps to itself.
use action_learning_p2p_vers.Prelude.{ℕ, ◌≡◌, refl, ap, ◌≢◌, true, false, [], some, length}
use action_learning_p2p_vers.Prelude.Int.{ℤ}
use action_learning_p2p_vers.Prelude.Text.{Text}
use action_learning_p2p_vers.Disk.Paths.{path_join}
use action_learning_p2p_vers.Disk.Nodes.{file}
use action_learning_p2p_vers.Disk.Io.{Disk, node_at, ok, Io}
use action_learning_p2p_vers.Disk.Ops.{exists, is_slash}
use action_learning_p2p_vers.Disk.Runs.{read_file_file}
use action_learning_p2p_vers.Crypto.Evp.{Evp, IsDigest}
use action_learning_p2p_vers.Crypto.Sha.{sha256, sha256_file}
use action_learning_p2p_vers.Crypto.Streaming.{hash_content-sha256}
use action_learning_p2p_vers.Sockets.{Net}
use action_learning_p2p_vers.Ipc.Client.{Client}
use action_learning_p2p_vers.Transfer.Download.{tmp_of}
use action_learning_p2p_vers.Watch.Events.{
  WatchEvent, WatchEventType, created, modified, deleted, moved,
}
use action_learning_p2p_vers.Daemon.Paths.{normalize_path, is_ignored, tmp_of-ignored}
use action_learning_p2p_vers.Daemon.Report.{
  Change, Metadata, action_of, exists_quiet, is_directory_quiet, file_size, permissions_of, measure,
  measure_there, metadata, is_directory_there, describe_path, describe, on_event,
}

module _ (e : Evp) (last_write_time : Text → Io ℤ) (now : ℤ) (repo_id watch_path : Text) where
  -- Nothing is sent and nothing is asked of the disk on an event of any type for the temporary file
  -- of a transfer.
  pub on_event-tmp :
      (n : Net) (dump : Change → Text) (c : Client) (type : WatchEventType) (path new_path : Text)
      (d : Disk) (w : n.World)
      → on_event e last_write_time now repo_id watch_path n dump c
          (record { type = type; path = tmp_of path; new_path = new_path })
          d
          w
        ≡ ((ok tt, d), w)
  unfolding on_event describe
  on_event-tmp n dump c type path new_path d w = rw (tmp_of-ignored path) refl

  module _ (d : Disk) (calm : d.faults ≡ []) (abs_path content : Text) (mode : ℕ)
      (there : node_at abs_path d ≡ some (file content mode))
      (other : is_slash abs_path ≡ false) where
    exists_quiet_file : exists_quiet abs_path d ≡ (ok true, d)
    unfolding exists_quiet
    exists_quiet_file = rw (calm, other, there) refl

    is_directory_quiet_file : is_directory_quiet abs_path d ≡ (ok false, d)
    unfolding is_directory_quiet
    is_directory_quiet_file = rw (calm, other, there) refl

    exists_file : exists abs_path d ≡ (ok true, d)
    unfolding exists
    exists_file = rw (calm, other, there) refl

    file_size_file : file_size abs_path d ≡ (ok (length content), d)
    unfolding file_size
    file_size_file = rw (calm, there) refl

    permissions_of_file : permissions_of abs_path d ≡ (ok mode, d)
    unfolding permissions_of
    permissions_of_file = rw (calm, there) refl

    not_directory :
        is_directory_there e last_write_time now repo_id watch_path abs_path d ≡ (ok false, d)
    unfolding is_directory_there
    not_directory = rw (exists_quiet_file, is_directory_quiet_file) refl

    module _ (dig : IsDigest e) {ctx : e.Ctx} (made : e.new ≡ some ctx) (time : ℤ)
        (dated : last_write_time abs_path d ≡ (ok time, d)) where
      abbrev pub measured : Metadata
      measured = record {
        size = length content;
        hash = sha256 e content;
        modified_time = time;
        mode = mode;
      }

      hashed : sha256_file e abs_path d ≡ (ok (some (sha256 e content)), d)
      unfolding sha256_file
      hashed =
          rw (read_file_file abs_path d calm content mode there)
            (ap (λ h. (ok h, d)) (hash_content-sha256 e dig content made).0)

      measure_there_file : measure_there e last_write_time now abs_path d ≡ (ok (some measured), d)
      unfolding measure_there measure
      measure_there_file = rw (exists_file, file_size_file, hashed, dated, permissions_of_file) refl

      metadata_file :
          (type : WatchEventType)
          → type ≢ deleted
          → metadata e last_write_time now type abs_path d ≡ (ok (some measured), d)
      unfolding metadata
      metadata_file created live = measure_there_file
      metadata_file modified live = measure_there_file
      metadata_file deleted live = absurd (live refl)
      metadata_file moved live = measure_there_file

  -- Where no call fails and a digest context can be had, an event that is not a deletion, for a
  -- regular file at a path that is not passed over, is described by the size, the mode and the time
  -- of the file, and by the digest of its content, the same by which a download is verified.
  pub describe_file :
      (d : Disk) (event : WatchEvent) (content : Text) (mode : ℕ) (time : ℤ) {ctx : e.Ctx}
      → let norm_path = normalize_path event.path in
        let abs_path = path_join watch_path norm_path in
        IsDigest e
        → e.new ≡ some ctx
        → d.faults ≡ []
        → is_ignored norm_path ≡ false
        → is_slash abs_path ≡ false
        → node_at abs_path d ≡ some (file content mode)
        → last_write_time abs_path d ≡ (ok time, d)
        → event.type ≢ deleted
        → describe e last_write_time now repo_id watch_path event d ≡ (
          ok (
              some (record {
                repo_id = repo_id;
                action = action_of event.type;
                path = norm_path;
                hash = sha256 e content;
                size = length content;
                modified_time = time;
                mode = mode;
              })),
          d,
        )
  unfolding describe describe_path
  describe_file d event content mode time dig made calm heard other there dated live =
      let abs_path = path_join watch_path (normalize_path event.path) in
      rw
        (
          heard,
          not_directory d calm abs_path content mode there other,
          metadata_file d calm abs_path content mode there other dig made time dated event.type
              live,
        )
        refl
