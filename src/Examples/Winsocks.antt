-- ===== src/Examples/Winsocks.antt =====
-- Clients over Winsock, and calls of a client one after the other.
use action_learning_p2p_vers.Prelude.{
  ℕ, suc, ◌+◌, ◌-◌, ◌≡◌, ◌⊎◌, refl, Bool, true, false, not, ◌&&◌, List, [], ◌∷◌, none,
  if◌then◌else◌, take, drop, length,
}
use action_learning_p2p_vers.Prelude.Int.{pos}
use action_learning_p2p_vers.Prelude.Text.{Text, codes}
use action_learning_p2p_vers.Sockets.{Net, ReadResult, got, wrote}
use action_learning_p2p_vers.Ipc.Client.{Client, disconnected, read_exact}
use action_learning_p2p_vers.Ipc.Client as Unix
use action_learning_p2p_vers.Ipc.Windows.{Winsock, is_connected, is_invalid}
use action_learning_p2p_vers.Ipc.Windows as Windows
use action_learning_p2p_vers.Ipc.Winsock.{IsCurrent, IsStale, released, receive_agrees}
use action_learning_p2p_vers.Ipc.Interface.{
  unix_ipc_client, windows_ipc_client, Call, connects, sends, receives, run,
}
use action_learning_p2p_vers.Ipc.Startups.{IsCounting, run-started}
use action_learning_p2p_vers.Ipc.Leaks.{holds_apart, run_no_leak}
use action_learning_p2p_vers.Examples.Instances.{peer, peer-IsHolding, sending}

-- A network where the first `recv` gives the bytes that are there and each later one times out. What is
-- kept is those bytes and whether the last error is a timeout.
abbrev slow : Net
slow = record {
  World = Text × Bool;
  socket = λ _ w. (pos 5, w);
  connect = λ _ _ w. (true, w);
  set_timeouts = λ _ _ _ w. w;
  close = λ _ w. w;
  read = λ _ k w. elim w.0 [
    | [] ↦ (ReadResult.timed_out, ([], true))
    | b ∷ bytes ↦ (got (take k (b ∷ bytes)), (drop k (b ∷ bytes), w.1))
  ];
  write = λ _ t w. (wrote (length t), w);
}

abbrev slow_winsock : Winsock slow
slow_winsock = record { startup = λ w. (true, w); cleanup = λ w. w; error_is_timeout = λ w. w.1 }

slow_winsock-IsCurrent : IsCurrent slow slow_winsock
slow_winsock-IsCurrent fd k ([], late) = refl
slow_winsock-IsCurrent fd k (b ∷ bytes, late) = tt

-- Two bytes of the length come, and then a timeout.
receive_agrees_example :
    let c : Client = record { socket_fd = pos 5 } in
    let w : Text × Bool = (0 ∷ 0 ∷ [], false) in
    (Windows.receive slow slow_winsock c w ≡ released slow slow_winsock (Unix.receive slow c w))
    ⊎ IsStale slow slow_winsock 5
        (read_exact slow 4 (pos 5) 4 [] w)
        (Windows.receive slow slow_winsock c w)
        (Unix.receive slow c w)
receive_agrees_example =
    receive_agrees slow slow_winsock slow_winsock-IsCurrent 5 (0 ∷ 0 ∷ [], false)

-- A network of which only the startups are kept, where each call works and every stream is at its end.
abbrev counted : Net
counted = record {
  World = ℕ;
  socket = λ _ w. (pos 5, w);
  connect = λ _ _ w. (true, w);
  set_timeouts = λ _ _ _ w. w;
  close = λ _ w. w;
  read = λ _ _ w. (got [], w);
  write = λ _ t w. (wrote (length t), w);
}

abbrev counted_winsock : Winsock counted
counted_winsock = record {
  startup = λ w. (true, suc w);
  cleanup = λ w. w - 1;
  error_is_timeout = λ _. false;
}

abbrev counted-IsCounting : IsCounting counted counted_winsock
counted-IsCounting = record {
  started = λ w. w;
  started-startup = λ _. refl;
  started-cleanup = λ _. refl;
  started-socket = λ _ _. refl;
  started-connect = λ _ _ _. refl;
  started-set_timeouts = λ _ _ _ _. refl;
  started-close = λ _ _. refl;
  started-read = λ _ _ _. refl;
  started-write = λ _ _ _. refl;
}

-- A connection that the peer closes, and another.
abbrev calls : List Call
calls = connects (codes "s") ∷ sends (codes "x") ∷ receives ∷ connects (codes "s") ∷ []

run-started_example :
    let (c', w') = run (windows_ipc_client counted none counted_winsock) calls (disconnected, 3) in
    w' ≡ 3 + (if is_connected counted counted_winsock c' then 1 else 0)
unfolding is_connected is_invalid
run-started_example =
    run-started counted counted_winsock counted-IsCounting 3 none calls disconnected 3 refl

run_no_leak_example :
    let (c', w') = run (unix_ipc_client peer none) calls (disconnected, sending []) in
    holds_apart peer peer-IsHolding (pos 7) c' w'
      && not (holds_apart peer peer-IsHolding (pos 7) disconnected (sending []))
    ≡ false
run_no_leak_example = run_no_leak peer peer-IsHolding (pos 7) none calls disconnected (sending [])
