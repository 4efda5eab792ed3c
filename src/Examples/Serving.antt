-- ===== src/Examples/Serving.antt =====
-- The daemon at work: a command line, a change that is reported and a message that deletes a file.
use action_learning_p2p_vers.Prelude.{
  All, List, subst, ◌≡◌, refl, Bool, true, false, [], ◌∷◌, ◌++◌, Option, none, some, arith,
  if◌then◌else◌,
}
use action_learning_p2p_vers.Prelude.Int.{ℤ, pos}
use action_learning_p2p_vers.Prelude.Text.{Text, codes, text_eq}
use action_learning_p2p_vers.Disk.Nodes
use action_learning_p2p_vers.Disk.Ops
use action_learning_p2p_vers.Disk.Paths
use action_learning_p2p_vers.Disk.Io.{Io, ok}
use action_learning_p2p_vers.Disk.Frame.{file_at}
use action_learning_p2p_vers.Crypto.Sha.{sha256}
use action_learning_p2p_vers.Ipc.Frame.{frame}
use action_learning_p2p_vers.Transfer.Download.{tmp_of}
use action_learning_p2p_vers.Watch.Events.{WatchEvent, created, modified}
use action_learning_p2p_vers.Daemon.Options.{start_options, Options}
use action_learning_p2p_vers.Daemon.Paths.{is_ignored}
use action_learning_p2p_vers.Daemon.Report.{Change, describe, on_event}
use action_learning_p2p_vers.Daemon.Announce.{on_event-tmp, describe_file}
use action_learning_p2p_vers.Daemon.Requests.{Json, synced, handle_ipc_message, serve_one}
use action_learning_p2p_vers.Daemon.Serve.{
  Spares, Passed, handle_ipc_message-foreign, serve_one-deletes,
}
use action_learning_p2p_vers.Ipc.Interface.{IpcClient}
use action_learning_p2p_vers.Daemon.Main.{Control}
use action_learning_p2p_vers.Daemon.Start.{main, disk_of, IsSpared, main-others}
use action_learning_p2p_vers.Examples.Instances.{
  Peer, byte_evp, byte_evp-IsDigest, peer, peer-IsStream, one_file, sending,
}
use action_learning_p2p_vers.Examples.Messages.{client, delivering}

abbrev usage : Options
usage = record {
  repo_id = codes "r";
  watch_path = codes "w";
  ipc_socket = codes "s";
  poll_interval_ms = 500;
}

-- Every file was written at the second 7.
abbrev seventh : Text → Io ℤ
seventh p d = (ok (pos 7), d)

abbrev print : Change → Text
print c = c.path

on_event-tmp_example :
    on_event byte_evp seventh
      (pos 9)
      (codes "r")
      (codes "w")
      peer
      print
      client
      (record { type = created; path = tmp_of (codes "a"); new_path = [] })
      one_file
      (sending [])
    ≡ ((ok tt, one_file), sending [])
on_event-tmp_example =
    on_event-tmp byte_evp seventh (pos 9) (codes "r") (codes "w") peer print client created
      (codes "a") [] one_file (sending [])

abbrev event : WatchEvent
event = record { type = modified; path = codes "a"; new_path = [] }

describe_file_example : describe byte_evp seventh (pos 9) (codes "r") (codes "w") event one_file ≡ (
  ok (
      some (record {
        repo_id = codes "r";
        action = codes "modified";
        path = codes "a";
        hash = sha256 byte_evp (codes "hello");
        size = 5;
        modified_time = pos 7;
        mode = 0o644;
      })),
  one_file,
)
unfolding is_ignored Paths.path_join Nodes.lookup text_eq
describe_file_example =
    describe_file byte_evp seventh (pos 9) (codes "r") (codes "w") one_file event (codes "hello")
      0o644 (pos 7) byte_evp-IsDigest refl refl refl refl refl refl (λ h. cc)

-- The message is `true`, its payload `false`.
abbrev text_value : Bool → Text → Text → Option Text
text_value true key default =
    some (if text_eq key (codes "type") then codes "sync_from_peer" else default)
text_value false key default = some (
    if text_eq key (codes "path")
    then codes "a"
    else if text_eq key (codes "repo_id")
    then codes "r"
    else default)

abbrev at_value : Bool → Text → Option Bool
at_value true key = if text_eq key (codes "payload") then some false else none
at_value false key = none

abbrev json : Json
json = record {
  Value = Bool;
  parse = λ raw.
      if text_eq raw (codes "delete a")
      then some true
      else if text_eq raw (codes "hello")
      then some false
      else none;
  at = at_value;
  text = text_value;
  int = λ v key default. some default;
  long = λ v key default. some default;
  flag = λ v key default. some (text_eq key (codes "is_delete"));
}

handle_ipc_message-foreign_example :
    Passed json
      (codes "other")
      (codes "w")
      (codes "w/a")
      one_file
      (handle_ipc_message json true (codes "other") (codes "w") one_file)
unfolding text_eq
handle_ipc_message-foreign_example =
    handle_ipc_message-foreign json (codes "other") (codes "w") (codes "w/a") true false (codes "r")
      one_file refl refl refl

serve_one-deletes_example :
    (w' : Peer) × (serve_one json peer
        (codes "r")
        (codes "w")
        client
        one_file
        (sending (frame (codes "delete a") ++ 7 ∷ []))
      ≡ (some (ok synced), client, Ops.unlink (codes "w/a") one_file, w'))
    × (w'.inbox ≡ 7 ∷ [])
unfolding Paths.path_join Nodes.lookup text_eq
serve_one-deletes_example =
    serve_one-deletes json (codes "r") (codes "w") true false (codes "r") (codes "a")
      (codes "hello") 0o644 one_file refl refl refl refl refl refl refl refl refl peer peer-IsStream
      client (codes "delete a") (7 ∷ []) (sending (frame (codes "delete a") ++ 7 ∷ [])) delivering
      refl (omega arith) (omega arith) refl refl

-- A client of whose world the messages to come are kept, and which is connected once it has tried.
abbrev next_message : Bool → List Text → Option Text × Bool × List Text
next_message c [] = (none, c, [])
next_message c (m ∷ ms) = (some m, c, ms)

abbrev mailbox : IpcClient (List Text)
mailbox = record {
  State = Bool;
  initial = false;
  connect = λ c path w. (true, true, w);
  send = λ c m w. (true, w);
  receive = next_message;
  disconnect = λ c w. (false, w);
  is_connected = λ c. c;
}

-- The daemon is never told to end.
abbrev control : Control (List Text)
control = record { shut_down = λ w. (false, w); set_shut_down = λ w. w; sleep = λ _ w. w }

-- No message asks to delete `a`.
abbrev Quiet : List Text → Type 0
Quiet = All (λ m. text_eq m (codes "delete a") ≡ false)

Quiet-next : (c : Bool) (w : List Text) → Quiet w → Quiet (next_message c w).2
Quiet-next c [] h = h
Quiet-next c (m ∷ ms) h = h.1

other_message :
    (raw : Text) (msg : Bool)
    → text_eq raw (codes "delete a") ≡ false
    → json.parse raw ≡ some msg
    → (repo watch : Text) → Spares json repo watch (codes "w/a") msg
unfolding text_eq
other_message raw true other parsed repo watch = absurd (ground (arith, other, parsed))
other_message raw false other parsed repo watch = λ payload r path typed _ _ _ _ _. absurd cc

Spares-next :
    (c : Bool) (w : List Text) (raw : Text) (msg : Bool)
    → Quiet w
    → (next_message c w).0 ≡ some raw
    → json.parse raw ≡ some msg
    → (repo watch : Text) → Spares json repo watch (codes "w/a") msg
Spares-next c [] raw msg h e parsed repo watch = absurd cc
Spares-next c (m ∷ ms) raw msg h e parsed repo watch =
    let same : m ≡ raw = cc in
    other_message raw msg (subst (λ x. text_eq x (codes "delete a") ≡ false) same h.0) parsed repo
      watch

abbrev args : List Text
args = codes "r" ∷ codes "w" ∷ codes "s" ∷ []

-- `hello` is a message of another type, and `{` none.
abbrev letters : List Text
letters = codes "hello" ∷ codes "{" ∷ []

a-IsSpared :
    (o : Options)
    → (start_options none args one_file).0 ≡ ok (some o)
    → IsSpared json mailbox control (λ o w. (true, w)) (λ o w. w) (codes "w/a") o letters
unfolding text_eq
a-IsSpared o e = record {
  calm = record {
    Quiet = Quiet;
    Quiet-receive = Quiet-next;
    Spares-receive = λ c w raw msg h e p. Spares-next c w raw msg h e p o.repo_id o.watch_path;
    Quiet-connect = λ _ _ _ h. h;
    Quiet-shut_down = λ _ h. h;
    Quiet-set_shut_down = λ _ h. h;
    Quiet-sleep = λ _ _ h. h;
  };
  Quiet-start = λ _ h. h;
  Quiet-stop = λ _ h. h;
  Quiet-here = (refl, (refl, tt));
}

main-others_example :
    file_at (codes "w/a") (
      disk_of
        (main json mailbox control (λ o w. (true, w)) (λ o w. w) 1 2 3 none args one_file letters))
    ≡ file_at (codes "w/a") one_file
main-others_example =
    main-others json mailbox control (λ o w. (true, w)) (λ o w. w) 1 2 3 (codes "w/a") none args
      one_file letters a-IsSpared
