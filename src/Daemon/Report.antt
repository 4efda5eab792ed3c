-- ===== src/Daemon/Report.antt =====
-- The watch callback: what it finds out about a changed file, and the message that it sends.
use action_learning_p2p_vers.Prelude.{
  ℕ, Bool, false, ◌||◌, [], Option, none, some, if◌then◌else◌, length,
}
use action_learning_p2p_vers.Prelude.Int.{ℤ}
use action_learning_p2p_vers.Prelude.Text.{Text, codes}
use action_learning_p2p_vers.Disk.Paths.{path_join}
use action_learning_p2p_vers.Disk.Nodes.{Node, file, dir}
use action_learning_p2p_vers.Disk.Io.{
  Disk, node_at, Result, ok, threw, Io, pure, throw, ◌>>=◌, try_catch,
}
use action_learning_p2p_vers.Disk.Ops.{exists, is_slash, is_some, is_dir_node, may_fail, may_throw}
use action_learning_p2p_vers.Crypto.Evp.{Evp}
use action_learning_p2p_vers.Crypto.Sha.{sha256_file}
use action_learning_p2p_vers.Sockets.{Net}
use action_learning_p2p_vers.Ipc.Client.{Client, is_connected, send}
use action_learning_p2p_vers.Watch.Events.{
  WatchEvent, WatchEventType, created, modified, deleted, moved,
}
use action_learning_p2p_vers.Daemon.Paths.{normalize_path, is_ignored}

-- `payload` of the message.
pub record Change : Type 0 where
  pub repo_id : Text
  pub action : Text
  pub path : Text
  pub hash : Text
  pub size : ℕ
  pub modified_time : ℤ
  pub mode : ℕ

-- `size`, `hash`, `modified_time` and `mode` of the callback.
pub record Metadata : Type 0 where
  pub size : ℕ
  pub hash : Text
  pub modified_time : ℤ
  pub mode : ℕ

abbrev pub action_of : WatchEventType → Text
action_of created = codes "created"
action_of modified = codes "modified"
action_of deleted = codes "deleted"
action_of moved = codes "moved"

-- The calls with an `error_code`: false where they fail.
unfoldable pub exists_quiet : Text → Io Bool
exists_quiet p = may_fail λ d. (ok (is_slash p || is_some (node_at p d)), d)

unfoldable pub is_directory_quiet : Text → Io Bool
is_directory_quiet p = may_fail λ d. (ok (is_slash p || is_dir_node (node_at p d)), d)

size_of : Option Node → Io ℕ
size_of none = throw
size_of (some (file c m)) = pure (length c)
size_of (some dir) = throw

-- `fs::file_size(p)` of a regular file.
unfoldable pub file_size : Text → Io ℕ
unfolding size_of
file_size p = may_throw λ d. size_of (node_at p d) d

-- `perms::unknown` where there is no file; the mode of a directory is not kept.
abbrev mode_of : Option Node → ℕ
mode_of none = 0xffff
mode_of (some (file c m)) = m
mode_of (some dir) = 0xffff

-- `fs::status(p).permissions()`
unfoldable pub permissions_of : Text → Io ℕ
permissions_of p = may_throw λ d. (ok (mode_of (node_at p d)), d)

abbrev hash_or_empty : Option Text → Text
hash_or_empty none = []
hash_or_empty (some h) = h

-- `last_write_time` is `fs::last_write_time` in seconds since 1970, and `now` the system
-- clock; both may be negative.
module _ (e : Evp) (last_write_time : Text → Io ℤ) (now : ℤ) where
  abbrev blank : Metadata
  blank = record { size = 0; hash = []; modified_time = now; mode = 0 }

  unfoldable pub measure : Text → Io Metadata
  measure abs_path = do
    size ← file_size abs_path
    hash ← sha256_file e abs_path
    modified_time ← last_write_time abs_path
    mode ← permissions_of abs_path
    pure (record {
      size = size;
      hash = hash_or_empty hash;
      modified_time = modified_time;
      mode = mode;
    })

  -- `none` is the return on an exception. The test outside the `try` may throw.
  unfoldable pub measure_there : Text → Io (Option Metadata)
  unfolding measure
  measure_there abs_path = exists abs_path >>= λ there.
      if there
      then try_catch (measure abs_path >>= λ m. pure (some m)) (pure none)
      else pure (some blank)

  unfoldable pub metadata : WatchEventType → Text → Io (Option Metadata)
  unfolding measure_there
  metadata created abs_path = measure_there abs_path
  metadata modified abs_path = measure_there abs_path
  metadata deleted abs_path = pure (some blank)
  metadata moved abs_path = measure_there abs_path

  module _ (repo_id watch_path : Text) where
    abbrev change_of : WatchEventType → Text → Option Metadata → Option Change
    change_of type norm_path none = none
    change_of type norm_path (some m) = some (record {
      repo_id = repo_id;
      action = action_of type;
      path = norm_path;
      hash = m.hash;
      size = m.size;
      modified_time = m.modified_time;
      mode = m.mode;
    })

    -- `fs::exists(abs_path, ec) && fs::is_directory(abs_path, ec)`
    unfoldable pub is_directory_there : Text → Io Bool
    is_directory_there abs_path =
        exists_quiet abs_path >>= λ there. if there then is_directory_quiet abs_path else pure false

    unfoldable pub describe_path : WatchEventType → Text → Io (Option Change)
    unfolding is_directory_there metadata
    describe_path type norm_path =
        let abs_path = path_join watch_path norm_path in
        is_directory_there abs_path >>= λ yes.
        if yes
        then pure none
        else (metadata type abs_path >>= λ m. pure (change_of type norm_path m))

    -- The change that an event stands for, or `none` where the callback returns early.
    unfoldable pub describe : WatchEvent → Io (Option Change)
    unfolding describe_path
    describe event =
        let norm_path = normalize_path event.path in
        if is_ignored norm_path then pure none else describe_path event.type norm_path

    -- `dump` prints the message that holds the change.
    module _ (n : Net) (dump : Change → Text) where
      unfoldable pub report : Client → Option Change → n.World → n.World
      report c none w = w
      report c (some change) w = if is_connected n c then (send n c (dump change) w).1 else w

      unfoldable pub after_describe :
          Client → n.World → Result (Option Change) × Disk → (Result (Unit {0}) × Disk) × n.World
      unfolding report
      after_describe c w (ok change, d) = ((ok tt, d), report c change w)
      after_describe c w (threw, d) = ((threw, d), w)

      unfoldable pub on_event :
          Client → WatchEvent → Disk → n.World → (Result (Unit {0}) × Disk) × n.World
      unfolding after_describe describe
      on_event c event d w = after_describe c w (describe event d)
