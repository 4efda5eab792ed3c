-- ===== src/Watch/Mirror.antt =====
-- The files that the polling watcher knows, from its events alone.
use action_learning_p2p_vers.Prelude.{
  ◌≡◌, refl, ap, ◌∙◌, Bool, true, false, List, [], ◌∷◌, ◌++◌, Option, none, some, arith, inl, inr,
  Bool-cases, if◌then◌else◌,
}
use action_learning_p2p_vers.Prelude.Text.{Text, text_eq, text_eq_iff}
use action_learning_p2p_vers.Watch.Events.{
  WatchEvent, WatchEventType, created, modified, deleted, moved,
}
use action_learning_p2p_vers.Watch.Polling.{
  FileInfo, Entry, Step, meets, fails, Known, find, is_tracked, same_info, notice, visit, is_seen,
  see, scan, sweep, poll,
}
use action_learning_p2p_vers.Watch.Scan.{is_some, find-set, is_seen_eq, sweep-find}
use action_learning_p2p_vers.Watch.Rounds.{
  Round, absent, exists_throws, scanned, interrupted, watch_loop,
}

abbrev pub told : WatchEventType → Bool → Bool
told created b = true
told modified b = b
told deleted b = false
told moved b = b

-- Whether a file is there, by the events and by whether it was there before them.
unfoldable pub replay : Text → List WatchEvent → Bool → Bool
replay q [] b = b
replay q (e ∷ es) b = replay q es (if text_eq q e.path then told e.type b else b)

replay-append :
    (q : Text) (xs ys : List WatchEvent) (b : Bool)
    → replay q (xs ++ ys) b ≡ replay q ys (replay q xs b)
unfolding replay
replay-append q [] ys b = refl
replay-append q (x ∷ xs) ys b = replay-append q xs ys _

notice-replay :
    (q p : Text) (i : FileInfo) (known : Known) (o : Option FileInfo)
    → find p known ≡ o
    → replay q (notice p i known o).1 (is_some (find q known))
      ≡ is_some (find q (notice p i known o).0)
unfolding notice replay
notice-replay q p i known none h = ground (arith, find-set q p i known)
notice-replay q p i known (some j) h = elim (Bool-cases (same_info j i)) [
  | inl t ↦ rw t refl
  | inr f ↦ rw f (ground (arith, find-set q p i known, text_eq_iff q p, h))
]

visit-replay :
    (q : Text) (e : Entry) (known : Known)
    → replay q (visit e known).1 (is_some (find q known)) ≡ is_some (find q (visit e known).0)
unfolding visit replay
visit-replay q e known = elim (Bool-cases (is_tracked e)) [
  | inl t ↦ rw t (notice-replay q e.rel_path e.info known (find e.rel_path known) refl)
  | inr f ↦ rw f refl
]

scan-replay :
    (q : Text) (steps : List Step) (known : Known) (seen : List Text)
    → replay q (scan steps known seen).2 (is_some (find q known))
      ≡ is_some (find q (scan steps known seen).0)
unfolding scan replay
scan-replay q [] known seen = refl
scan-replay q (fails ∷ steps) known seen = refl
scan-replay q (meets e ∷ steps) known seen =
    replay-append q (visit e known).1 _ _
    ∙ ap (replay q (scan steps (visit e known).0 (see e seen)).2) (visit-replay q e known)
    ∙ scan-replay q steps (visit e known).0 (see e seen)

-- What is not seen is told to be gone, if it is known.
sweep-replay :
    (q : Text) (seen : List Text) (ks : Known) (b : Bool)
    → replay q (sweep seen ks).1 b
      ≡ (if is_seen q seen then b else if is_some (find q ks) then false else b)
unfolding sweep replay find
sweep-replay q seen [] b = ground arith
sweep-replay q seen ((p, i) ∷ ks) b = elim (Bool-cases (is_seen p seen)) [
  | inl t ↦ rw t (ground (arith, sweep-replay q seen ks b, text_eq_iff q p, is_seen_eq q p seen))
  | inr f ↦ rw f (
      ground (
        arith,
        sweep-replay q seen ks b,
        sweep-replay q seen ks false,
        text_eq_iff q p,
        is_seen_eq q p seen,
      ))
]

poll-replay :
    (q : Text) (steps : List Step) (known : Known)
    → replay q (poll steps known).1 (is_some (find q known)) ≡ is_some (find q (poll steps known).0)
unfolding poll
poll-replay q steps known =
    let (known', seen, events) = scan steps known [] in
    replay-append q events _ _
    ∙ ground (
      arith,
      scan-replay q steps known [],
      sweep-replay q seen known' (is_some (find q known')),
      sweep-find q seen known',
    )

-- Over any rounds, whether the directory was there, the look for it threw, a scan failed or `stop`
-- came in the midst of one: a file that was known at first, or not, is known at the end if and only if the events say so,
-- each `created` telling that the file is there, and each `deleted` that it is gone.
pub watch_loop-replay :
    (q : Text) (rounds : List Round) (known : Known)
    → replay q (watch_loop rounds known).1 (is_some (find q known))
      ≡ is_some (find q (watch_loop rounds known).0)
unfolding watch_loop replay
watch_loop-replay q [] known = refl
watch_loop-replay q (absent ∷ rounds) known = watch_loop-replay q rounds known
watch_loop-replay q (exists_throws ∷ rounds) known = refl
watch_loop-replay q (scanned steps ∷ rounds) known =
    replay-append q (poll steps known).1 _ _
    ∙ ap (replay q (watch_loop rounds (poll steps known).0).1) (poll-replay q steps known)
    ∙ watch_loop-replay q rounds (poll steps known).0
watch_loop-replay q (interrupted steps ∷ rounds) known = scan-replay q steps known []
