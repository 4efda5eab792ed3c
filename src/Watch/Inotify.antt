-- ===== src/Watch/Inotify.antt =====
-- `InotifyWatcher` of inotify_watcher.cpp.
use action_learning_p2p_vers.Prelude.{
  ℕ, zero, suc, ◌/◌, ◌%◌, Bool, List, [], ◌∷◌, ◌++◌, Option, none, some, ◌==◌, ltb, if◌then◌else◌,
  take, drop,
}
use action_learning_p2p_vers.Prelude.Int.{ℤ, is_negative}
use action_learning_p2p_vers.Prelude.Text.{Text, text_eq, is_empty}
use action_learning_p2p_vers.Sockets.{int_eq}
use action_learning_p2p_vers.Watch.Bytes.{u32_of, i32_of, c_string}
use action_learning_p2p_vers.Watch.Events.{WatchEvent, WatchEventType, created, modified, deleted}

-- An entry of `fs::directory_iterator`, with its path and `is_directory()`.
pub record DirEntry : Type 0 where
  pub path : Text
  pub is_directory : Bool

-- How `poll` ends: -1, 0, or the descriptor can be read.
pub data PollResult : Type 0 where
  poll_error poll_timeout ready : PollResult

-- The calls of the system. `entries` is what the iterator meets, up to a failure; `read` is `none`
-- where it returns no bytes; `is_dir` is `stat` with `S_ISDIR`.
pub record Inotify : Type 1 where
  pub World : Type 0
  pub init : World → ℤ × World
  pub add_watch : ℤ → Text → World → ℤ × World
  pub close : ℤ → World → World
  pub poll : ℤ → World → PollResult × World
  pub read : ℤ → ℕ → World → Option Text × World
  pub entries : Text → World → List DirEntry × World
  pub is_dir : Text → World → Bool × World

-- `wdToPath_`
abbrev pub Table : Type 0
Table = List (ℤ × Text)

unfoldable pub find : ℤ → Table → Option Text
find wd [] = none
find wd ((k, p) ∷ t) = let rest = find wd t in if int_eq wd k then some p else rest

unfoldable pub set : ℤ → Text → Table → Table
set wd p [] = (wd, p) ∷ []
set wd p ((k, q) ∷ t) = let rest = set wd p t in if int_eq wd k then (wd, p) ∷ t else (k, q) ∷ rest

-- What follows a text that another begins with.
unfoldable pub strip : Text → Text → Option Text
strip [] t = some t
strip (c ∷ cs) [] = none
strip (c ∷ cs) (d ∷ ds) = let rest = strip cs ds in if c == d then rest else none

abbrev pub after_separator : Option Text → Text
after_separator none = []
after_separator (some []) = []
after_separator (some (c ∷ rel)) = if c == b'/' then rel else []

-- `relativeDir`; the first argument is `watchPath_`.
unfoldable pub relative_dir : Text → Text → Text
unfolding strip
relative_dir watch_path path =
    if text_eq path watch_path then [] else after_separator (strip watch_path path)

-- An event of the buffer: 16 bytes, and `len` bytes of the name.
pub record Event : Type 0 where
  pub wd : ℤ
  pub mask : ℕ
  pub len : ℕ
  pub name : Text

abbrev event_of : ℕ → ℕ → ℕ → Text → Event × Text
event_of wd mask len bytes = (
  record { wd = i32_of wd; mask = mask; len = len; name = c_string (take len bytes) },
  drop len bytes,
)

-- The event at `ptr` and what follows it. The system puts whole events into the buffer: `none` is
-- the end of it.
unfoldable pub next_event : Text → Option (Event × Text)
unfolding u32_of i32_of c_string
next_event (a ∷ b ∷ c ∷ d ∷ e ∷ f ∷ g ∷ h ∷ i ∷ j ∷ k ∷ l ∷ m ∷ n ∷ o ∷ p ∷ bytes) =
    some (event_of (u32_of a b c d) (u32_of e f g h) (u32_of m n o p) bytes)
next_event _ = none

unfoldable pub events_after : (Text → List Event) → Option (Event × Text) → List Event
events_after more none = []
events_after more (some (event, rest)) = event ∷ more rest

-- `for (char* ptr = buf; ptr < buf + len; )`; each event takes 16 bytes at least.
unfoldable pub buffer_events : ℕ → Text → List Event
unfolding events_after next_event
buffer_events zero bytes = []
buffer_events (suc fuel) bytes = events_after (buffer_events fuel) (next_event bytes)

abbrev pub in_modify : ℕ
in_modify = 0x2

abbrev pub in_moved_from : ℕ
in_moved_from = 0x40

abbrev pub in_moved_to : ℕ
in_moved_to = 0x80

abbrev pub in_create : ℕ
in_create = 0x100

abbrev pub in_delete : ℕ
in_delete = 0x200

-- `mask & flag`, for a flag of one bit.
abbrev pub has_flag : ℕ → ℕ → Bool
has_flag mask flag = mask / flag % 2 == 1

abbrev pub event : WatchEventType → Text → WatchEvent
event t p = record { type = t; path = p; new_path = [] }

abbrev below : Option Text → Text → Text
below none name = name
below (some dir) name = if is_empty dir then name else dir ++ b'/' ∷ name

-- `relPath` of an event.
unfoldable pub rel_path : Table → ℤ → Text → Text
unfolding find
rel_path table wd name = below (find wd table) name

-- The members of the class.
pub record Watcher : Type 0 where
  pub watch_path : Text
  pub running : Bool
  pub inotify_fd : ℤ
  pub wd_to_path : Table

module _ (sys : Inotify) where
  open sys use {World, init, add_watch, close, poll, read, entries, is_dir}

  abbrev pub Watched : Type 0
  Watched = Table × World

  -- The loop over the entries of a directory.
  unfoldable pub add_entries : (Text → Watched → Watched) → List DirEntry → Watched → Watched
  add_entries more [] s = s
  add_entries more (e ∷ es) s =
      let s' = more e.path s in add_entries more es (if e.is_directory then s' else s)

  unfoldable pub after_add : (Text → Watched → Watched) → Text → Text → Table → ℤ × World → Watched
  unfolding add_entries relative_dir set
  after_add more watch_path path table (wd, w) =
      if is_negative wd
      then (table, w)
      else (let (es, w') = entries path w in
          add_entries more es (set wd (relative_dir watch_path path) table, w'))

  -- `addWatchRecursive`; the fuel is the depth to which it goes.
  unfoldable pub add_watch_recursive : ℕ → ℤ → Text → Text → Watched → Watched
  unfolding after_add
  add_watch_recursive zero fd watch_path path s = s
  add_watch_recursive (suc depth) fd watch_path path (table, w) =
      after_add (add_watch_recursive depth fd watch_path) watch_path path table
        (add_watch fd path w)

  module _ (depth : ℕ) (fd : ℤ) (watch_path : Text) where
    -- The watches for what has come into the tree, where it is a directory.
    unfoldable pub watch_new : Text → Watched → Watched
    unfolding add_watch_recursive
    watch_new rel (table, w) =
        let full_path = watch_path ++ b'/' ∷ rel in
        let (there, w') = is_dir full_path w in
        let s = add_watch_recursive depth fd watch_path full_path (table, w') in
        if there then s else (table, w')

    -- The calls of the callback for one flag.
    abbrev report : Bool → WatchEventType → Text → List WatchEvent
    report b t p = if b then event t p ∷ [] else []

    -- The five tests of an event that has a name.
    unfoldable pub handle_named : Event → Watched → Watched × List WatchEvent
    unfolding rel_path watch_new
    handle_named e (table, w) =
        let rel = rel_path table e.wd e.name in
        let s1 = if has_flag e.mask in_create then watch_new rel (table, w) else (table, w) in
        let s2 = if has_flag e.mask in_moved_to then watch_new rel s1 else s1 in
        (
          s2,
          report (has_flag e.mask in_create) created rel
              ++ report (has_flag e.mask in_modify) modified rel
              ++ report (has_flag e.mask in_delete) deleted rel
              ++ report (has_flag e.mask in_moved_from) deleted rel
              ++ report (has_flag e.mask in_moved_to) created rel,
        )

    unfoldable pub handle_event : Event → Watched → Watched × List WatchEvent
    unfolding handle_named
    handle_event e s = if ltb 0 e.len then handle_named e s else (s, [])

    unfoldable pub handle_buffer : List Event → Watched → Watched × List WatchEvent
    unfolding handle_event
    handle_buffer [] s = (s, [])
    handle_buffer (e ∷ es) s =
        let (s', reported) = handle_event e s in
        let (s'', more) = handle_buffer es s' in (s'', reported ++ more)
