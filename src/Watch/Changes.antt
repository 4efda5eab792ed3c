-- ===== src/Watch/Changes.antt =====
-- The buffer of `ReadDirectoryChangesW`, and what readdirectorychanges_watcher.cpp makes of it.
use action_learning_p2p_vers.Prelude.{
  ℕ, zero, suc, ◌+◌, ◌*◌, ◌/◌, List, [], ◌∷◌, ◌++◌, Option, none, some, ◌==◌, if◌then◌else◌, take,
  drop, map, replicate,
}
use action_learning_p2p_vers.Prelude.Int.{ℤ, pos, negsuc}
use action_learning_p2p_vers.Prelude.Text.{Text}
use action_learning_p2p_vers.Watch.Bytes.{u32_of}
use action_learning_p2p_vers.Watch.Events.{WatchEvent, WatchEventType, created, modified, deleted}

-- `WideCharToMultiByte` with CP_UTF8: the size that it returns without a buffer, and what it writes
-- into a buffer of that size.
pub record WideChar : Type 0 where
  pub size_of : List ℕ → ℤ
  pub bytes_of : List ℕ → ℕ → Text

-- The 16-bit units of a `std::wstring` of `n` units that stands in the buffer.
unfoldable pub wide_units : ℕ → Text → List ℕ
wide_units zero bytes = []
wide_units (suc n) (a ∷ b ∷ bytes) = (a + 256 * b) ∷ wide_units n bytes
wide_units (suc n) _ = []

abbrev pub slash : ℕ → ℕ
slash ch = if ch == b'\\' then b'/' else ch

-- FILE_NOTIFY_INFORMATION
pub record Notify : Type 0 where
  pub next_entry_offset : ℕ
  pub action : ℕ
  pub file_name : List ℕ

abbrev notify_of : ℕ → ℕ → ℕ → Text → Notify
notify_of next action name_length bytes = record {
  next_entry_offset = next;
  action = action;
  file_name = wide_units (name_length / 2) bytes;
}

-- The entry at `notify`. The system puts whole entries into the buffer.
unfoldable pub notify_at : Text → Option Notify
unfolding u32_of wide_units
notify_at (a ∷ b ∷ c ∷ d ∷ e ∷ f ∷ g ∷ h ∷ i ∷ j ∷ k ∷ l ∷ bytes) =
    some (notify_of (u32_of a b c d) (u32_of e f g h) (u32_of i j k l) bytes)
notify_at _ = none

unfoldable pub notifies_after : (Text → List Notify) → Text → Option Notify → List Notify
notifies_after more bytes none = []
notifies_after more bytes (some n) =
    let rest = more (drop n.next_entry_offset bytes) in
    if n.next_entry_offset == 0 then n ∷ [] else n ∷ rest

-- `while (notify)`; every step but the last goes forward by an offset that is not 0.
unfoldable pub notifies : ℕ → Text → List Notify
unfolding notifies_after notify_at
notifies zero bytes = []
notifies (suc fuel) bytes = notifies_after (notifies fuel) bytes (notify_at bytes)

abbrev pub event : WatchEventType → Text → WatchEvent
event t p = record { type = t; path = p; new_path = [] }

module _ (wide : WideChar) where
  -- The buffer of zeros that the second call fills.
  abbrev filled : List ℕ → ℤ → Text
  filled w (negsuc k) = []
  filled w (pos n) = take n (wide.bytes_of w n ++ replicate n 0)

  -- `wideToUtf8`
  unfoldable pub wide_to_utf8 : List ℕ → Text
  wide_to_utf8 [] = []
  wide_to_utf8 (u ∷ us) = filled (u ∷ us) (wide.size_of (u ∷ us))

  unfoldable pub name_of : Notify → Text
  unfolding wide_to_utf8
  name_of n = map slash (wide_to_utf8 n.file_name)

  -- The `switch` over FILE_ACTION_ADDED 1, REMOVED 2, MODIFIED 3, RENAMED_OLD_NAME 4 and
  -- RENAMED_NEW_NAME 5.
  unfoldable pub events_of : ℕ → Text → List WatchEvent
  events_of action name =
      if action == 1
      then event created name ∷ []
      else if action == 3
      then event modified name ∷ []
      else if action == 2
      then event deleted name ∷ []
      else if action == 4
      then event deleted name ∷ []
      else if action == 5
      then event created name ∷ []
      else []

  unfoldable pub report : List Notify → List WatchEvent
  unfolding events_of name_of
  report [] = []
  report (n ∷ ns) = events_of n.action (name_of n) ++ report ns
