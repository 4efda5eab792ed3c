-- ===== src/Examples/Watching.antt =====
-- Rounds of the polling watcher: one file is new, one is as it was, one is gone, and a scan fails.
use action_learning_p2p_vers.Prelude.{◌≡◌, refl, true, false, not, ◌&&◌, List, [], ◌∷◌}
use action_learning_p2p_vers.Prelude.Text.{Text, text_eq, codes}
use action_learning_p2p_vers.Watch.Events.{created, deleted}
use action_learning_p2p_vers.Watch.Polling.{
  FileInfo, Entry, Step, meets, fails, Known, find, scan, sweep, poll,
}
use action_learning_p2p_vers.Watch.Scan.{is_some, latest, poll-find}
use action_learning_p2p_vers.Watch.Rounds.{Round, absent, scanned, interrupted, watch_loop}
use action_learning_p2p_vers.Watch.Mirror.{replay, watch_loop-replay}
use action_learning_p2p_vers.Watch.Announced.{announces, poll-deleted}

abbrev info : FileInfo
info = record { last_write_time = 100; size = 5 }

abbrev entry : Text → Entry
entry p = record { rel_path = p; is_symlink = false; is_regular_file = true; info = info }

abbrev known : Known
known = (codes "a", info) ∷ (codes "b", info) ∷ []

abbrev steps : List Step
steps = meets (entry (codes "a")) ∷ meets (entry (codes "c")) ∷ []

poll-find_example : find (codes "c") (poll steps known).0 ≡ latest (codes "c") steps
poll-find_example = poll-find (codes "c") steps known

c_created : announces created (codes "c") (poll steps known).1 ≡ true
unfolding announces poll scan sweep find text_eq
c_created = refl

poll-deleted_example :
    announces deleted (codes "a") (poll (fails ∷ steps) known).1
    ≡ is_some (find (codes "a") known) && not (is_some (latest (codes "a") (fails ∷ steps)))
poll-deleted_example = poll-deleted (codes "a") (fails ∷ steps) known

-- The file is there, but the scan failed before it.
a_deleted : announces deleted (codes "a") (poll (fails ∷ steps) known).1 ≡ true
unfolding announces poll scan sweep find text_eq
a_deleted = refl

-- A round without the directory, and one that is broken off.
abbrev rounds : List Round
rounds = scanned steps ∷ absent ∷ interrupted (meets (entry (codes "b")) ∷ []) ∷ []

watch_loop-replay_example :
    replay (codes "b") (watch_loop rounds known).1 (is_some (find (codes "b") known))
    ≡ is_some (find (codes "b") (watch_loop rounds known).0)
watch_loop-replay_example = watch_loop-replay (codes "b") rounds known
