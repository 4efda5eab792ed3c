-- ===== src/Watch/Announced.antt =====
-- The events of a round of the polling watcher: what is new is created, what is gone is deleted.
use action_learning_p2p_vers.Prelude.{
  ℕ, ◌≡◌, refl, Bool, false, not, ◌||◌, ◌&&◌, List, [], ◌∷◌, ◌++◌, Option, none, some, arith, ◌==◌,
  inl, inr, Bool-cases,
}
use action_learning_p2p_vers.Prelude.Text.{Text, text_eq, text_eq_iff}
use action_learning_p2p_vers.Watch.Events.{
  WatchEvent, WatchEventType, created, modified, deleted, moved,
}
use action_learning_p2p_vers.Watch.Polling.{
  FileInfo, Entry, Step, meets, fails, Known, find, is_tracked, notice, visit, is_seen, see, scan,
  sweep, poll,
}
use action_learning_p2p_vers.Watch.Scan.{
  is_some, latest, is_at, visit-find, scan-find, scan-seen, is_seen_eq,
}

abbrev kind : WatchEventType → ℕ
kind created = 0
kind modified = 1
kind deleted = 2
kind moved = 3

-- Whether an event of the type is announced for the path.
unfoldable pub announces : WatchEventType → Text → List WatchEvent → Bool
announces t q [] = false
announces t q (e ∷ es) = (kind e.type == kind t && text_eq q e.path) || announces t q es

announces-append :
    (t : WatchEventType) (q : Text) (xs ys : List WatchEvent)
    → announces t q (xs ++ ys) ≡ announces t q xs || announces t q ys
unfolding announces
announces-append t q [] ys = refl
announces-append t q (e ∷ xs) ys = ground (arith, announces-append t q xs ys)

notice-created :
    (q p : Text) (i : FileInfo) (known : Known) (o : Option FileInfo)
    → announces created q (notice p i known o).1 ≡ text_eq q p && not (is_some o)
unfolding notice announces
notice-created q p i known none = ground arith
notice-created q p i known (some j) = ground arith

notice-deleted :
    (q p : Text) (i : FileInfo) (known : Known) (o : Option FileInfo)
    → announces deleted q (notice p i known o).1 ≡ false
unfolding notice announces
notice-deleted q p i known none = ground arith
notice-deleted q p i known (some j) = ground arith

visit-created :
    (q : Text) (e : Entry) (known : Known)
    → announces created q (visit e known).1 ≡ is_at q e && not (is_some (find q known))
unfolding visit announces
visit-created q e known = elim (Bool-cases (is_tracked e)) [
  | inr t ↦ rw t refl
  | inl t ↦ rw t (
      ground (
        arith,
        notice-created q e.rel_path e.info known (find e.rel_path known),
        text_eq_iff q e.rel_path,
      ))
]

visit-deleted :
    (q : Text) (e : Entry) (known : Known) → announces deleted q (visit e known).1 ≡ false
unfolding visit announces
visit-deleted q e known = elim (Bool-cases (is_tracked e)) [
  | inr t ↦ rw t refl
  | inl t ↦ rw t (notice-deleted q e.rel_path e.info known (find e.rel_path known))
]

scan-created :
    (q : Text) (steps : List Step) (known : Known) (seen : List Text)
    → announces created q (scan steps known seen).2
      ≡ is_some (latest q steps) && not (is_some (find q known))
unfolding scan latest announces
scan-created q [] known seen = refl
scan-created q (fails ∷ steps) known seen = refl
scan-created q (meets e ∷ steps) known seen =
    let (known', events) = visit e known in
    ground (
      arith,
      announces-append created q events (scan steps known' (see e seen)).2,
      scan-created q steps known' (see e seen),
      visit-created q e known,
      visit-find q e known,
    )

scan-deleted :
    (q : Text) (steps : List Step) (known : Known) (seen : List Text)
    → announces deleted q (scan steps known seen).2 ≡ false
unfolding scan announces
scan-deleted q [] known seen = refl
scan-deleted q (fails ∷ steps) known seen = refl
scan-deleted q (meets e ∷ steps) known seen =
    let (known', events) = visit e known in
    ground (
      arith,
      announces-append deleted q events (scan steps known' (see e seen)).2,
      scan-deleted q steps known' (see e seen),
      visit-deleted q e known,
    )

sweep-created :
    (q : Text) (seen : List Text) (ks : Known) → announces created q (sweep seen ks).1 ≡ false
unfolding sweep announces
sweep-created q seen [] = refl
sweep-created q seen ((p, i) ∷ ks) = ground (arith, sweep-created q seen ks)

sweep-deleted :
    (q : Text) (seen : List Text) (ks : Known)
    → announces deleted q (sweep seen ks).1 ≡ is_some (find q ks) && not (is_seen q seen)
unfolding sweep announces find
sweep-deleted q seen [] = refl
sweep-deleted q seen ((p, i) ∷ ks) =
    ground (arith, sweep-deleted q seen ks, text_eq_iff q p, is_seen_eq q p seen)

-- A round announces a path as created exactly where the scan has met it and it was not known.
pub poll-created :
    (q : Text) (steps : List Step) (known : Known)
    → announces created q (poll steps known).1
      ≡ is_some (latest q steps) && not (is_some (find q known))
unfolding poll
poll-created q steps known =
    let (known', seen, events) = scan steps known [] in
    ground (
      arith,
      announces-append created q events (sweep seen known').1,
      scan-created q steps known [],
      sweep-created q seen known',
    )

-- A round announces a path as deleted exactly where it was known and the scan has not met it,
-- whether the scan has come to its end or has failed before it could.
pub poll-deleted :
    (q : Text) (steps : List Step) (known : Known)
    → announces deleted q (poll steps known).1
      ≡ is_some (find q known) && not (is_some (latest q steps))
unfolding poll is_seen
poll-deleted q steps known =
    let (known', seen, events) = scan steps known [] in
    ground (
      arith,
      announces-append deleted q events (sweep seen known').1,
      scan-deleted q steps known [],
      sweep-deleted q seen known',
      scan-find q steps known [],
      scan-seen q steps known [],
    )
