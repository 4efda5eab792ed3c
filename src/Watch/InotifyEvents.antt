-- ===== src/Watch/InotifyEvents.antt =====
-- The paths by which events are reported.
use action_learning_p2p_vers.Prelude.{ℕ, suc, ◌≡◌, ◌+◌, Bool, true, false, [], ◌∷◌, ◌++◌}
use action_learning_p2p_vers.Prelude.Int.{ℤ}
use action_learning_p2p_vers.Prelude.Text.{Text}
use action_learning_p2p_vers.Watch.Events.{created, modified, deleted}
use action_learning_p2p_vers.Watch.Inotify.{
  Inotify, Event, Watched, event, handle_event, in_create, in_modify, in_delete, in_moved_from,
  in_moved_to,
}

-- The watched directory, or one below it.
abbrev pub dir_at : Text → Text → Text
dir_at watch_path [] = watch_path
dir_at watch_path (c ∷ cs) = watch_path ++ b'/' ∷ c ∷ cs

-- The path, relative to the watched directory, of a name in such a directory.
abbrev pub path_in : Text → Text → Text
path_in [] name = name
path_in (c ∷ cs) name = (c ∷ cs) ++ b'/' ∷ name

-- The flag that inotify(7) adds to an event about a directory.
abbrev pub in_isdir : ℕ
in_isdir = 0x40000000

abbrev pub mask_of : Bool → ℕ → ℕ
mask_of true flag = flag + in_isdir
mask_of false flag = flag

module _ (sys : Inotify) (depth : ℕ) (fd : ℤ) (watch_path : Text) where
  -- An event with one flag, about a directory or not, where its path is known.
  abbrev Reports : ℤ → Text → Watched sys → Text → Bool → Type 0
  Reports wd name s path is_dir =
      (len : ℕ)
      → let notice : ℕ → Event =
          λ flag. record { wd = wd; mask = mask_of is_dir flag; len = suc len; name = name } in
        ((handle_event sys depth fd watch_path (notice in_create) s).1 ≡ event created path ∷ [])
        × (handle_event sys depth fd watch_path (notice in_modify) s
            ≡ (s, event modified path ∷ []))
        × (handle_event sys depth fd watch_path (notice in_delete) s ≡ (s, event deleted path ∷ []))
        × (handle_event sys depth fd watch_path (notice in_moved_from) s
            ≡ (s, event deleted path ∷ []))
        × ((handle_event sys depth fd watch_path (notice in_moved_to) s).1
            ≡ event created path ∷ [])
