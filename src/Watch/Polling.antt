-- ===== src/Watch/Polling.antt =====
-- `PollingWatcher::watchLoop`: one round of it, on what the directory iterator meets.
use action_learning_p2p_vers.Prelude.{
  ℕ, Bool, true, false, not, ◌||◌, ◌&&◌, List, [], ◌∷◌, ◌++◌, Option, none, some, ◌==◌,
  if◌then◌else◌,
}
use action_learning_p2p_vers.Prelude.Text.{Text, text_eq}
use action_learning_p2p_vers.Watch.Events.{WatchEvent, WatchEventType, created, modified, deleted}

pub record FileInfo : Type 0 where
  pub last_write_time : ℕ
  pub size : ℕ

-- An entry of the recursive iterator, with its path relative to the directory.
pub record Entry : Type 0 where
  pub rel_path : Text
  pub is_symlink : Bool
  pub is_regular_file : Bool
  pub info : FileInfo

-- `fails` is a step of the iterator, or a call on an entry, that throws: it ends the scan.
pub data Step : Type 0 where
  meets : Entry → Step
  fails : Step

abbrev pub Known : Type 0
Known = List (Text × FileInfo)

unfoldable pub find : Text → Known → Option FileInfo
find p [] = none
find p ((q, i) ∷ ks) = let rest = find p ks in if text_eq p q then some i else rest

-- `knownFiles[p] = i`. The map keeps its keys in order, which only the order of the deletions shows.
unfoldable pub set : Text → FileInfo → Known → Known
set p i [] = (p, i) ∷ []
set p i ((q, j) ∷ ks) = let rest = set p i ks in if text_eq p q then (p, i) ∷ ks else (q, j) ∷ rest

abbrev pub is_hidden : Text → Bool
is_hidden [] = true
is_hidden (c ∷ cs) = c == b'.'

-- The entries that the loop does not pass over with `continue`.
abbrev pub is_tracked : Entry → Bool
is_tracked e = not (e.is_symlink || not e.is_regular_file) && not (is_hidden e.rel_path)

abbrev pub same_info : FileInfo → FileInfo → Bool
same_info i j = i.last_write_time == j.last_write_time && i.size == j.size

abbrev pub event : WatchEventType → Text → WatchEvent
event t p = record { type = t; path = p; new_path = [] }

-- What one file of the scan does to the map, and the event of it.
unfoldable pub notice : Text → FileInfo → Known → Option FileInfo → Known × List WatchEvent
notice p i known none = (set p i known, event created p ∷ [])
notice p i known (some j) =
    if same_info j i then (known, []) else (set p i known, event modified p ∷ [])

unfoldable pub visit : Entry → Known → Known × List WatchEvent
unfolding notice
visit e known =
    if is_tracked e then notice e.rel_path e.info known (find e.rel_path known) else (known, [])

unfoldable pub is_seen : Text → List Text → Bool
is_seen p [] = false
is_seen p (q ∷ qs) = text_eq p q || is_seen p qs

abbrev pub see : Entry → List Text → List Text
see e seen = if is_tracked e then e.rel_path ∷ seen else seen

-- The `try` block: the map, the paths seen and the events, up to the first failure.
unfoldable pub scan : List Step → Known → List Text → Known × List Text × List WatchEvent
unfolding visit
scan [] known seen = (known, seen, [])
scan (fails ∷ steps) known seen = (known, seen, [])
scan (meets e ∷ steps) known seen =
    let (known', events) = visit e known in
    let (known'', seen', more) = scan steps known' (see e seen) in (known'', seen', events ++ more)

-- The loop after it, over the whole map.
unfoldable pub sweep : List Text → Known → Known × List WatchEvent
unfolding is_seen
sweep seen [] = ([], [])
sweep seen ((p, i) ∷ ks) =
    let (kept, events) = sweep seen ks in
    if is_seen p seen then ((p, i) ∷ kept, events) else (kept, event deleted p ∷ events)

-- A round of `while (running_)`, where the directory exists.
unfoldable pub poll : List Step → Known → Known × List WatchEvent
unfolding scan sweep
poll steps known =
    let (known', seen, events) = scan steps known [] in
    let (known'', deletions) = sweep seen known' in (known'', events ++ deletions)
