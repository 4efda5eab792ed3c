-- ===== src/Daemon/Serve.antt =====
-- What a message of the coordinator may lead to.
use action_learning_p2p_vers.Prelude.{
  ℕ, ◌≡◌, refl, ap, ◌∙◌, ◌≢◌, ◌≤◌, ◌<◌, ◌⊎◌, Option-cases, Bool, true, false, [], ◌++◌, Option,
  none, some, inl, inr, Bool-cases, length, if◌then◌else◌,
}
use action_learning_p2p_vers.Prelude.Int.{pos, is_negative}
use action_learning_p2p_vers.Prelude.Text.{Text, text_eq, text_eq_iff, codes}
use action_learning_p2p_vers.Disk.Paths.{path_join}
use action_learning_p2p_vers.Disk.Nodes.{file}
use action_learning_p2p_vers.Disk.Io.{Disk, node_at, Result, ok, Io, pure, ◌>>=◌}
use action_learning_p2p_vers.Disk.Ops.{exists, is_slash, remove, unlink}
use action_learning_p2p_vers.Disk.Frame.{file_at}
use action_learning_p2p_vers.Disk.Runs.{remove_file, exists_file}
use action_learning_p2p_vers.Disk.Keeps.{
  Keeps, Keeps-bind, Keeps-if, Keeps-try, Keeps-exists, Keeps-remove,
}
use action_learning_p2p_vers.Sockets.{Net, IsStream, Delivers}
use action_learning_p2p_vers.Ipc.Frame.{frame}
use action_learning_p2p_vers.Ipc.Client.{Client, max_message}
use action_learning_p2p_vers.Ipc.Delivery.{receive_framed}
use action_learning_p2p_vers.Daemon.Paths.{normalize_path}
use action_learning_p2p_vers.Daemon.Requests.{
  Json, Served, synced, foreign, unknown, failed, or_throw, is_foreign, remove_if, delete_file,
  prepare_transfer, sync_from_peer, for_repo, dispatch, handle_ipc_message, handle_raw,
  after_receive, after_parse, serve_one,
}

module _ (q : Text) where
  Keeps-pure : {A : Type 0} (a : A) → Keeps q (pure a)
  Keeps-pure a d = refl

  Keeps-or_throw :
      {A B : Type 0} (o : Option A) (f : A → Io B)
      → ((a : A) → o ≡ some a → Keeps q (f a))
      → Keeps q (or_throw o >>= f)
  Keeps-or_throw none f h d = refl
  Keeps-or_throw (some a) f h d = h a refl d

  Keeps-remove_if : (path : Text) (there : Bool) → q ≢ path → Keeps q (remove_if path there)
  unfolding remove_if
  Keeps-remove_if path true ne =
      Keeps-bind q (remove path) _ (Keeps-remove q path ne) (λ _. Keeps-pure tt)
  Keeps-remove_if path false ne = Keeps-pure tt

  Keeps-delete_file : (path : Text) → q ≢ path → Keeps q (delete_file path)
  unfolding delete_file
  Keeps-delete_file path ne =
      Keeps-try q _ (pure tt)
        (Keeps-bind q (exists path) _ (Keeps-exists q path) (λ b. Keeps-remove_if path b ne))
        (Keeps-pure tt)

module _ (j : Json) (my_repo_id watch_path : Text) (q : Text) where
  Keeps-prepare : (payload : j.Value) → Keeps q (prepare_transfer j payload)
  unfolding prepare_transfer
  Keeps-prepare payload = Keeps-or_throw q (j.text payload (codes "transfer_id") []) _ λ _ _.
      Keeps-or_throw q (j.text payload (codes "path") []) _ λ _ _.
        Keeps-or_throw q (j.text payload (codes "peer_id") []) _ λ _ _.
          Keeps-or_throw q (j.int payload (codes "transfer_port") (pos 0)) _ λ _ _.
            Keeps-or_throw q (j.text payload (codes "expected_hash") []) _ λ _ _.
              Keeps-or_throw q (j.long payload (codes "expected_size") (pos 0)) _ λ _ _.
                Keeps-or_throw q (j.text payload (codes "direction") (codes "download")) _
                  λ _ _. Keeps-or_throw q (j.int payload (codes "mode") (pos 0)) _ λ _ _. λ _. refl

  -- The message does not ask this repository to delete `q`.
  abbrev pub Spares : j.Value → Type 0
  Spares msg =
      (payload : j.Value) (r path : Text)
      → j.text msg (codes "type") [] ≡ some (codes "sync_from_peer")
      → j.at msg (codes "payload") ≡ some payload
      → j.text payload (codes "repo_id") [] ≡ some r
      → is_foreign r my_repo_id ≡ false
      → j.text payload (codes "path") [] ≡ some path
      → j.flag payload (codes "is_delete") false ≡ some true
      → q ≢ path_join watch_path (normalize_path path)

  Keeps-when :
      {A : Type 0} (b : Bool) (x y : Io A)
      → (b ≡ true → Keeps q x)
      → (b ≡ false → Keeps q y)
      → Keeps q (if b then x else y)
  Keeps-when true x y hx hy = hx refl
  Keeps-when false x y hx hy = hy refl

  Keeps-sync :
      (payload : j.Value)
      → ((path : Text)
          → j.text payload (codes "path") [] ≡ some path
          → j.flag payload (codes "is_delete") false ≡ some true
          → q ≢ path_join watch_path (normalize_path path))
      → Keeps q (sync_from_peer j watch_path payload)
  unfolding sync_from_peer
  Keeps-sync payload ne = Keeps-or_throw q (j.text payload (codes "path") []) _ λ path named.
      Keeps-or_throw q (j.flag payload (codes "is_delete") false) _ λ is_delete flagged.
        Keeps-bind q
          (if is_delete then delete_file (path_join watch_path (normalize_path path)) else pure tt)
          _
          (Keeps-when is_delete _ _
            (λ yes. Keeps-delete_file q _ (ne path named (flagged ∙ ap some yes)))
            (λ no. Keeps-pure q tt))
          (λ _. Keeps-pure q synced)

  Keeps-for_repo :
      (serve : j.Value → Io Served) (msg : j.Value)
      → ((payload : j.Value) (r : Text)
          → j.at msg (codes "payload") ≡ some payload
          → j.text payload (codes "repo_id") [] ≡ some r
          → is_foreign r my_repo_id ≡ false
          → Keeps q (serve payload))
      → Keeps q (for_repo j my_repo_id serve msg)
  unfolding for_repo
  Keeps-for_repo serve msg h = Keeps-or_throw q (j.at msg (codes "payload")) _ λ payload e.
      Keeps-or_throw q (j.text payload (codes "repo_id") []) _ λ r of.
        Keeps-when (is_foreign r my_repo_id) _ _ (λ _. Keeps-pure q foreign) (h payload r e of)

  Keeps-dispatch :
      (msg : j.Value) (msg_type : Text)
      → j.text msg (codes "type") [] ≡ some msg_type
      → Spares msg
      → Keeps q (dispatch j my_repo_id watch_path msg msg_type)
  unfolding dispatch
  Keeps-dispatch msg msg_type typed spares =
      Keeps-if q (text_eq msg_type (codes "prepare_file_transfer")) _ _
        (Keeps-for_repo (prepare_transfer j) msg (λ payload _ _ _ _. Keeps-prepare payload))
        (Keeps-when (text_eq msg_type (codes "sync_from_peer")) _ _
          (λ t. Keeps-for_repo (sync_from_peer j watch_path) msg (λ payload r e of ours.
            Keeps-sync payload (λ path named.
              spares payload r path
                (typed ∙ ap some ((text_eq_iff msg_type (codes "sync_from_peer")).0 t)) e of ours
                named)))
          (λ _. Keeps-pure q unknown))

  -- Whatever else the message holds and whatever fails, the handler leaves the regular file at `q` as
  -- it is, unless the message asks this repository to delete it.
  pub handle_ipc_message-others :
      (msg : j.Value) (d : Disk)
      → Spares msg
      → file_at q (handle_ipc_message j msg my_repo_id watch_path d).1 ≡ file_at q d
  unfolding handle_ipc_message
  handle_ipc_message-others msg d spares =
      Keeps-try q (or_throw (j.text msg (codes "type") []) >>= dispatch j my_repo_id watch_path msg)
        (pure failed)
        (Keeps-or_throw q (j.text msg (codes "type") []) (dispatch j my_repo_id watch_path msg)
          (λ t typed. Keeps-dispatch msg t typed spares))
        (Keeps-pure q failed) d

  foreign_for_repo :
      (serve : j.Value → Io Served) (msg payload : j.Value) (r : Text) (d : Disk)
      → j.at msg (codes "payload") ≡ some payload
      → j.text payload (codes "repo_id") [] ≡ some r
      → is_foreign r my_repo_id ≡ true
      → for_repo j my_repo_id serve msg d ≡ (ok foreign, d)
  unfolding for_repo
  foreign_for_repo serve msg payload r d at_msg named other = rw (at_msg, named, other) refl

  -- Nothing is done for the message: no transfer is begun and the disk is as it was.
  abbrev pub Passed : Disk → Result Served × Disk → Type 0
  Passed d r = (r.1 ≡ d) × ((r.0 ≡ ok foreign) ⊎ (r.0 ≡ ok unknown) ⊎ (r.0 ≡ ok failed))

  -- A message whose payload names another repository starts no transfer and changes nothing on
  -- disk, whatever its type.
  pub handle_ipc_message-foreign :
      (msg payload : j.Value) (r : Text) (d : Disk)
      → j.at msg (codes "payload") ≡ some payload
      → j.text payload (codes "repo_id") [] ≡ some r
      → is_foreign r my_repo_id ≡ true
      → Passed d (handle_ipc_message j msg my_repo_id watch_path d)
  unfolding handle_ipc_message dispatch
  handle_ipc_message-foreign msg payload r d at_msg named other =
      elim (Option-cases (j.text msg (codes "type") [])) [
        | inl h ↦ rw h (refl, inr (inr refl))
        | inr (t, h) ↦ rw h (elim (Bool-cases (text_eq t (codes "prepare_file_transfer"))) [
          | inl a ↦
              rw (a, foreign_for_repo (prepare_transfer j) msg payload r d at_msg named other)
                (refl, inl refl)
          | inr a ↦ elim (Bool-cases (text_eq t (codes "sync_from_peer"))) [
            | inl b ↦
                rw
                  (
                    a,
                    b,
                    foreign_for_repo (sync_from_peer j watch_path) msg payload r d at_msg named
                        other,
                  )
                  (refl, inl refl)
            | inr b ↦ rw (a, b) (refl, inr (inl refl))
          ]
        ])
      ]

module _ (j : Json) (my_repo_id watch_path : Text) (msg payload : j.Value) (r path content : Text)
    (mode : ℕ) (d : Disk) (of_type : j.text msg (codes "type") [] ≡ some (codes "sync_from_peer"))
    (at_msg : j.at msg (codes "payload") ≡ some payload)
    (of_repo : j.text payload (codes "repo_id") [] ≡ some r)
    (ours : is_foreign r my_repo_id ≡ false) (named : j.text payload (codes "path") [] ≡ some path)
    (deletes : j.flag payload (codes "is_delete") false ≡ some true) (calm : d.faults ≡ [])
    (there : node_at (path_join watch_path (normalize_path path)) d ≡ some (file content mode))
    (other : is_slash (path_join watch_path (normalize_path path)) ≡ false) where
  abbrev pub target : Text
  target = path_join watch_path (normalize_path path)

  delete_file_file : delete_file target d ≡ (ok tt, unlink target d)
  unfolding delete_file remove_if
  delete_file_file =
      rw
        (
          exists_file target d calm content mode there other,
          remove_file target d calm content mode there,
        )
        refl

  handles_deletion : handle_ipc_message j msg my_repo_id watch_path d ≡ (ok synced, unlink target d)
  unfolding handle_ipc_message dispatch for_repo sync_from_peer text_eq
  handles_deletion = rw (of_type, at_msg, of_repo, ours, named, deletes, delete_file_file) refl

  -- The frame of a message of this repository to delete a file, on a connected client whose stream
  -- delivers: where no call fails and a file is at the path of the payload joined to the watched
  -- directory, wherever that leads, a round of the serving loop takes the frame off the stream,
  -- deletes that file and nothing else, and keeps the connection.
  pub serve_one-deletes :
      (n : Net) (s : IsStream n) (c : Client) (raw rest : Text) (w : n.World)
      → Delivers n s c.socket_fd
      → is_negative c.socket_fd ≡ false
      → 0 < length raw
      → length raw ≤ max_message
      → s.incoming c.socket_fd w ≡ frame raw ++ rest
      → j.parse raw ≡ some msg
      → (w' : n.World) × (serve_one j n my_repo_id watch_path c d w
          ≡ (some (ok synced), c, unlink target d, w'))
        × (s.incoming c.socket_fd w' ≡ rest)
  unfolding serve_one after_receive handle_raw after_parse
  serve_one-deletes n s c raw rest w delivering open_fd lt le held parsed =
      let (w', received, left) = receive_framed n s c raw rest w delivering open_fd lt le held in
      (w', rw (received, parsed, handles_deletion) refl, left)
