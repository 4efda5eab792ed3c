-- ===== src/Examples/Messages.antt =====
-- Runs of the client of the coordinator, and of the port that it reads.
use action_learning_p2p_vers.Prelude.{true}
use action_learning_p2p_vers.Prelude.{
  ℕ, ◌+◌, ◌≤◌, ◌<◌, ◌≡◌, refl, [], ◌∷◌, ◌++◌, none, some, arith, suc, replicate, take, zero, ap,
  length, All,
}
use action_learning_p2p_vers.Prelude.Int.{pos}
use action_learning_p2p_vers.Prelude.Text.{Text, codes}
use action_learning_p2p_vers.Crypto.Evp.{IsByte}
use action_learning_p2p_vers.Sockets.{Delivers, got}
use action_learning_p2p_vers.Ipc.Frame.{frame, htonl, ntohl}
use action_learning_p2p_vers.Ipc.Client.{Client, max_message, send, receive, read_exact}
use action_learning_p2p_vers.Ipc.Exchange.{SentFrame, send_frame, receive-frame}
use action_learning_p2p_vers.Ipc.Sending.{send_complete}
use action_learning_p2p_vers.Ipc.Delivery.{receive_framed, receive_oversized, receive_timeout}
use action_learning_p2p_vers.Examples.Instances.{
  Peer, peer, peer-IsStream, sending, slow_peer, slow_peer-IsStream,
}

abbrev pub client : Client
client = record { socket_fd = pos 5 }

send_frame_example :
    SentFrame peer peer-IsStream client
      (codes "ping")
      (sending [])
      (send peer client (codes "ping") (sending []))
send_frame_example = send_frame peer peer-IsStream client (codes "ping") (sending [])

pub delivering : Delivers peer peer-IsStream (pos 5)
delivering k w some_room some_bytes = first k w.inbox some_room some_bytes
  where
    first :
        (k : ℕ) (t : Text)
        → 0 < k
        → 0 < length t
        → (b : ℕ) × (bytes : Text) × (got (take k t) ≡ got (b ∷ bytes))
    first zero t h g = absurd (omega arith)
    first (suc k) [] h g = absurd (omega arith)
    first (suc k) (b ∷ t) h g = (b, take k t, refl)

-- A framed "hi" and a byte more.
abbrev stream : Text
stream = 0 ∷ 0 ∷ 0 ∷ 2 ∷ b'h' ∷ b'i' ∷ 7 ∷ []

stream_bytes : All IsByte stream
stream_bytes = (
  omega arith,
  (omega arith, (omega arith, (omega arith, (omega arith, (omega arith, (omega arith, tt)))))),
)

receive_framed_example :
    (w' : Peer) × (receive peer client (sending stream) ≡ (some (codes "hi"), client, w'))
    × (w'.inbox ≡ 7 ∷ [])
unfolding frame htonl
receive_framed_example =
    receive_framed peer peer-IsStream client (codes "hi") (7 ∷ []) (sending stream) delivering refl
      (omega arith) (omega arith) refl

receive-frame_example :
    (stream ≡ frame (codes "hi") ++ 7 ∷ [])
    × (0 < length (codes "hi"))
    × (length (codes "hi") ≤ max_message)
    × (client ≡ client)
unfolding receive ntohl
receive-frame_example =
    receive-frame peer peer-IsStream client (codes "hi") client (sending stream) (sending (7 ∷ []))
      stream_bytes refl

zeros : (k : ℕ) → (t : Text) × (length t ≡ k)
zeros k = (replicate k 0, go k)
  where
    go : (k : ℕ) → length {A = ℕ} (replicate k 0) ≡ k
    go zero = refl
    go (suc k) = ap suc (go k)

-- One byte more than the client takes.
too_long : Text
too_long = (zeros (max_message + 1)).0

length-too_long : length too_long ≡ max_message + 1
unfolding too_long
length-too_long = (zeros (max_message + 1)).1

receive_oversized_example :
    (w' : Peer) × (receive peer client (sending (frame too_long ++ [])) ≡ (none, client, w'))
    × (w'.inbox ≡ too_long ++ [])
receive_oversized_example =
    receive_oversized peer peer-IsStream client too_long [] (sending (frame too_long ++ []))
      delivering refl (omega (arith, length-too_long)) (omega (arith, length-too_long)) refl

abbrev half_header : Text
half_header = 0 ∷ 0 ∷ []

receive_timeout_example :
    (receive slow_peer client (sending half_header) ≡ (none, client, sending []))
    × (half_header ≡ half_header ++ [])
    × (length half_header < 4)
unfolding read_exact
receive_timeout_example =
    receive_timeout slow_peer slow_peer-IsStream client half_header (sending half_header)
      (sending []) refl refl

send_complete_example :
    ((send peer client (codes "ping") (sending [])).0 ≡ true)
    × ((send peer client (codes "ping") (sending [])).1.outbox ≡ [] ++ frame (codes "ping"))
send_complete_example =
    send_complete peer peer-IsStream client (codes "ping") (sending [])
      (λ b bytes w. (length bytes, refl)) refl
