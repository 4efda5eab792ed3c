-- ===== src/Daemon/Requests.antt =====
-- `handle_ipc_message`, and the loop of the thread that serves the coordinator.
use action_learning_p2p_vers.Prelude.{
  ℕ, ◌-◌, ◌%◌, ◌^◌, Bool, true, false, not, ◌&&◌, [], Option, none, some, if◌then◌else◌,
}
use action_learning_p2p_vers.Prelude.Int.{ℤ, pos, negsuc}
use action_learning_p2p_vers.Prelude.Text.{Text, text_eq, is_empty, codes}
use action_learning_p2p_vers.Disk.Paths.{path_join}
use action_learning_p2p_vers.Disk.Io.{Disk, Result, Io, pure, throw, ◌>>=◌, try_catch}
use action_learning_p2p_vers.Disk.Ops.{exists, remove}
use action_learning_p2p_vers.Sockets.{Net}
use action_learning_p2p_vers.Ipc.Client.{Client, Received, receive}
use action_learning_p2p_vers.Daemon.Paths.{normalize_path}

-- nlohmann::json: `parse`, `at` and `value` with a default, each `none` where it throws. `int` and
-- `long` are `value` at the types int and long long.
pub record Json : Type 1 where
  pub Value : Type 0
  pub parse : Text → Option Value
  pub at : Value → Text → Option Value
  pub text : Value → Text → Text → Option Text
  pub int : Value → Text → ℤ → Option ℤ
  pub long : Value → Text → ℤ → Option ℤ
  pub flag : Value → Text → Bool → Option Bool

-- What `handle_file_transfer` is called with, in a thread of its own.
pub record Transfer : Type 0 where
  pub path : Text
  pub transfer_port : ℤ
  pub direction : Text
  pub expected_size : ℤ
  pub expected_hash : Text
  pub mode : ℕ

-- What a message leads to: `failed` is the message of the outer `catch`.
pub data Served : Type 0 where
  started : Transfer → Served
  synced foreign unknown failed : Served

-- An int as a uint32_t.
abbrev to_u32 : ℤ → ℕ
to_u32 (pos n) = n % 2 ^ 32
to_u32 (negsuc n) = 2 ^ 32 - 1 - n % 2 ^ 32

abbrev pub or_throw : {A : Type 0} → Option A → Io A
or_throw none = throw
or_throw (some a) = pure a

-- `!msg_repo_id.empty() && msg_repo_id != my_repo_id`
abbrev pub is_foreign : Text → Text → Bool
is_foreign msg_repo_id my_repo_id =
    not (is_empty msg_repo_id) && not (text_eq msg_repo_id my_repo_id)

unfoldable pub remove_if : Text → Bool → Io (Unit {0})
remove_if path true = remove path >>= λ _. pure tt
remove_if path false = pure tt

-- The inner `try`, which only logs.
unfoldable pub delete_file : Text → Io (Unit {0})
unfolding remove_if
delete_file target_path =
    try_catch (exists target_path >>= λ there. remove_if target_path there) (pure tt)

module _ (j : Json) where
  open j use {Value, at, text, int, long, flag}

  unfoldable pub prepare_transfer : Value → Io Served
  prepare_transfer payload = do
    transfer_id ← or_throw (text payload (codes "transfer_id") [])
    path ← or_throw (text payload (codes "path") [])
    peer_id ← or_throw (text payload (codes "peer_id") [])
    transfer_port ← or_throw (int payload (codes "transfer_port") (pos 0))
    expected_hash ← or_throw (text payload (codes "expected_hash") [])
    expected_size ← or_throw (long payload (codes "expected_size") (pos 0))
    direction ← or_throw (text payload (codes "direction") (codes "download"))
    mode ← or_throw (int payload (codes "mode") (pos 0))
    pure (
        started (record {
          path = normalize_path path;
          transfer_port = transfer_port;
          direction = direction;
          expected_size = expected_size;
          expected_hash = expected_hash;
          mode = to_u32 mode;
        }))

  unfoldable pub sync_from_peer : Text → Value → Io Served
  unfolding delete_file
  sync_from_peer watch_path payload = do
    path ← or_throw (text payload (codes "path") [])
    is_delete ← or_throw (flag payload (codes "is_delete") false)
    done ← if is_delete then delete_file (path_join watch_path (normalize_path path)) else pure tt
    pure synced

  -- Both branches begin with the payload and its repository.
  unfoldable pub for_repo : Text → (Value → Io Served) → Value → Io Served
  for_repo my_repo_id serve msg = or_throw (at msg (codes "payload")) >>= λ payload.
      or_throw (text payload (codes "repo_id") []) >>= λ msg_repo_id.
      if is_foreign msg_repo_id my_repo_id then pure foreign else serve payload

  unfoldable pub dispatch : Text → Text → Value → Text → Io Served
  unfolding for_repo prepare_transfer sync_from_peer
  dispatch my_repo_id watch_path msg msg_type =
      if text_eq msg_type (codes "prepare_file_transfer")
      then for_repo my_repo_id prepare_transfer msg
      else if text_eq msg_type (codes "sync_from_peer")
      then for_repo my_repo_id (sync_from_peer watch_path) msg
      else pure unknown

  unfoldable pub handle_ipc_message : Value → Text → Text → Io Served
  unfolding dispatch
  handle_ipc_message msg my_repo_id watch_path =
      try_catch (or_throw (text msg (codes "type") []) >>= dispatch my_repo_id watch_path msg)
        (pure failed)

  unfoldable pub after_parse : Text → Text → Option Value → Io Served
  unfolding handle_ipc_message
  after_parse my_repo_id watch_path none = pure failed
  after_parse my_repo_id watch_path (some msg) = handle_ipc_message msg my_repo_id watch_path

  -- `parse` may throw, which is passed over in silence.
  unfoldable pub handle_raw : Text → Text → Text → Io Served
  unfolding after_parse
  handle_raw raw my_repo_id watch_path = after_parse my_repo_id watch_path (j.parse raw)

  module _ (n : Net) where
    unfoldable pub after_receive :
        Text → Text → Disk → Received n → Option (Result Served) × Client × Disk × n.World
    unfolding handle_raw
    after_receive my_repo_id watch_path d (none, c, w) = (none, c, d, w)
    after_receive my_repo_id watch_path d (some raw, c, w) =
        let (served, d') = handle_raw raw my_repo_id watch_path d in (some served, c, d', w)

    -- A round of the inner loop of the thread; `none` is the pause where nothing was received.
    unfoldable pub serve_one :
        Text → Text → Client → Disk → n.World → Option (Result Served) × Client × Disk × n.World
    unfolding after_receive receive
    serve_one my_repo_id watch_path c d w = after_receive my_repo_id watch_path d (receive n c w)
