-- ===== src/Examples/Instances.antt =====
-- A digest of one byte, a peer that delivers and takes everything, and a disk with one directory.
use action_learning_p2p_vers.Prelude.{
  ℕ, ◌+◌, ◌%◌, ◌≡◌, zero, suc, refl, sym, Bool, true, false, not, ◌&&◌, [], ◌∷◌, ◌++◌, some, arith,
  if◌then◌else◌, length, take, drop, take_all, take-append-drop, length-take,
}
use action_learning_p2p_vers.Prelude.Int.{ℤ, pos, negsuc, minus_one, is_negative}
use action_learning_p2p_vers.Prelude.Text.{Text, codes}
use action_learning_p2p_vers.Disk.Nodes.{file, dir}
use action_learning_p2p_vers.Disk.Io.{Disk}
use action_learning_p2p_vers.Crypto.Evp.{Evp, IsDigest}
use action_learning_p2p_vers.Sockets.{
  Domain, Net, got, wrote, int_eq, ReadLaw, ReadResult, IsStream, IsHolding,
}

abbrev sum : Text → ℕ
sum [] = 0
sum (b ∷ bytes) = b + sum bytes

abbrev checksum : Text → Text
checksum t = sum t % 256 ∷ []

abbrev pub byte_evp : Evp
byte_evp = record {
  Ctx = Text;
  new = some [];
  init = λ _. [];
  update = λ c t. c ++ t;
  final = checksum;
}

abbrev pub byte_evp-IsDigest : IsDigest byte_evp
byte_evp-IsDigest = record {
  digest = checksum;
  size = 1;
  absorbed = λ c. c;
  absorbed-init = λ _. refl;
  absorbed-update = λ _ _. refl;
  final-digest = λ _. refl;
  digest-IsByte = λ t. (omega arith, tt);
  length-digest = λ _. refl;
}

-- One descriptor, 5, can be had at a time.
pub record Peer : Type 0 where
  pub inbox : Text
  pub outbox : Text
  pub held : Bool

abbrev the_fd : ℤ
the_fd = pos 5

abbrev peer_socket : Domain → Peer → ℤ × Peer
peer_socket m w = if w.held then (minus_one, w) else (the_fd, record w { held = true })

abbrev peer_close : ℤ → Peer → Peer
peer_close fd w = if int_eq fd the_fd then record w { held = false } else w

abbrev pub peer : Net
peer = record {
  World = Peer;
  socket = peer_socket;
  connect = λ _ _ w. (true, w);
  set_timeouts = λ _ _ _ w. w;
  close = peer_close;
  read = λ _ k w. (got (take k w.inbox), record w { inbox = drop k w.inbox });
  write = λ _ t w. (wrote (length t), record w { outbox = w.outbox ++ t });
}

abbrev pub peer-IsStream : IsStream peer
peer-IsStream = record {
  incoming = λ _ w. w.inbox;
  outgoing = λ _ w. w.outbox;
  read_law = λ _ k w. (omega (arith, length-take k w.inbox), sym (take-append-drop k w.inbox));
  write_law = λ _ t w. (omega arith, rw (take_all (length t) t (omega arith)) refl);
}

abbrev holds : Peer → ℤ → Bool
holds w g = w.held && int_eq g the_fd

pub holds-close :
    (fd : ℤ) (w : Peer) (g : ℤ)
    → holds (peer_close fd w) g ≡ (if int_eq g fd then false else holds w g)
holds-close (pos a) w (pos b) = ground arith
holds-close (pos a) w (negsuc b) = ground arith
holds-close (negsuc a) w (pos b) = ground arith
holds-close (negsuc a) w (negsuc b) = ground arith

pub holds-socket :
    (m : Domain) (w : Peer) (g : ℤ)
    → holds (peer_socket m w).1 g ≡ (
        if not (is_negative (peer_socket m w).0) && int_eq g (peer_socket m w).0
        then true
        else holds w g)
holds-socket m w (pos b) = ground arith
holds-socket m w (negsuc b) = ground arith

pub peer_socket-fresh :
    (m : Domain) (w : Peer)
    → is_negative (peer_socket m w).0 ≡ false
    → holds w (peer_socket m w).0 ≡ false
peer_socket-fresh m w h = ground arith

abbrev pub peer-IsHolding : IsHolding peer
peer-IsHolding = record {
  holds = holds;
  socket_fresh = peer_socket-fresh;
  holds-socket = holds-socket;
  holds-close = holds-close;
  holds-connect = λ _ _ _ _. refl;
  holds-set_timeouts = λ _ _ _ _ _. refl;
  holds-read = λ _ _ _ _. refl;
  holds-write = λ _ _ _ _. refl;
}

abbrev slow_read : ℕ → Text → ReadResult
slow_read k [] = ReadResult.timed_out
slow_read k (b ∷ bytes) = got (take k (b ∷ bytes))

-- The same peer, which keeps the stream open after what it has sent.
abbrev pub slow_peer : Net
slow_peer = record peer {
  read = λ _ k w. (slow_read k w.inbox, record w { inbox = drop k w.inbox });
}

pub slow-ReadLaw : (k : ℕ) (t : Text) → ReadLaw k t (drop k t) (slow_read k t)
slow-ReadLaw k [] = drop_nil k
  where
    drop_nil : (k : ℕ) → drop {A = ℕ} k [] ≡ []
    drop_nil zero = refl
    drop_nil (suc k) = refl
slow-ReadLaw k (b ∷ t) = (omega (arith, length-take k (b ∷ t)), sym (take-append-drop k (b ∷ t)))

abbrev pub slow_peer-IsStream : IsStream slow_peer
slow_peer-IsStream = record {
  incoming = λ _ w. w.inbox;
  outgoing = λ _ w. w.outbox;
  read_law = λ _ k w. slow-ReadLaw k w.inbox;
  write_law = λ _ t w. (omega arith, rw (take_all (length t) t (omega arith)) refl);
}

-- The directory `w`, empty or with one file.
abbrev pub empty_disk : Disk
empty_disk = record { nodes = (codes "w", dir) ∷ []; faults = [] }

abbrev pub one_file : Disk
one_file = record {
  nodes = (codes "w", dir) ∷ (codes "w/a", file (codes "hello") 0o644) ∷ [];
  faults = [];
}

abbrev pub sending : Text → Peer
sending t = record { inbox = t; outbox = []; held = true }
