-- ===== src/Watch/ChangesBuffer.antt =====
-- A buffer that the system has filled with notifications.
use action_learning_p2p_vers.Prelude.{
  drop-append, ℕ, zero, suc, ◌+◌, ◌*◌, ◌/◌, ◌%◌, ◌≤◌, ◌≡◌, refl, sym, ap, ◌∙◌, false, List, [], ◌∷◌,
  ◌++◌, some, arith, length, drop, length-append, append_assoc, ◌==◌,
}
use action_learning_p2p_vers.Prelude.Text.{Text}
use action_learning_p2p_vers.Watch.Bytes.{u32_bytes, u32_of-bytes}
use action_learning_p2p_vers.Watch.Events.{WatchEvent}
use action_learning_p2p_vers.Watch.Changes.{
  Notify, WideChar, wide_units, notify_at, notifies_after, notifies, report, events_of, name_of,
}

-- What the system has to tell: an action, a name in 16-bit units, and the bytes up to the next entry.
pub record Change : Type 0 where
  pub action : ℕ
  pub file_name : List ℕ
  pub padding : Text

abbrev pub unit_bytes : List ℕ → Text
unit_bytes [] = []
unit_bytes (u ∷ us) = u % 256 ∷ u / 256 ∷ unit_bytes us

abbrev name_bytes : Change → Text
name_bytes c = unit_bytes c.file_name ++ c.padding

abbrev entry_size : Change → ℕ
entry_size c = 12 + length (name_bytes c)

-- The offset is 0 in the last entry.
abbrev offset_of : Change → List Change → ℕ
offset_of c [] = 0
offset_of c (d ∷ ds) = entry_size c

abbrev pub entry_bytes : ℕ → Change → Text
entry_bytes offset c =
    u32_bytes offset ++ u32_bytes c.action ++ u32_bytes (2 * length c.file_name) ++ name_bytes c

abbrev pub buffer_of : List Change → Text
buffer_of [] = []
buffer_of (c ∷ cs) = entry_bytes (offset_of c cs) c ++ buffer_of cs

wide_units-bytes : (us : List ℕ) (rest : Text) → wide_units (length us) (unit_bytes us ++ rest) ≡ us
unfolding wide_units
wide_units-bytes [] rest = refl
wide_units-bytes (u ∷ us) rest =
    let same : (u % 256) + 256 * (u / 256) ≡ u = omega arith in
    rw (same, wide_units-bytes us rest) refl

abbrev decoded : Change → ℕ → Notify
decoded c offset = record { next_entry_offset = offset; action = c.action; file_name = c.file_name }

notify_at-entry :
    (c : Change) (offset : ℕ) (rest : Text)
    → notify_at (entry_bytes offset c ++ rest) ≡ some (decoded c offset)
unfolding notify_at u32_bytes
notify_at-entry c offset rest =
    let half : 2 * length c.file_name / 2 ≡ length c.file_name = omega arith in
    rw
      (
        u32_of-bytes offset,
        u32_of-bytes c.action,
        u32_of-bytes (2 * length c.file_name),
        half,
        append_assoc (unit_bytes c.file_name) c.padding rest,
        wide_units-bytes c.file_name (c.padding ++ rest),
      )
      refl

length-entry : (c : Change) (offset : ℕ) → length (entry_bytes offset c) ≡ entry_size c
unfolding u32_bytes
length-entry c offset = omega arith

drop-entry :
    (c : Change) (offset : ℕ) (rest : Text)
    → drop (entry_size c) (entry_bytes offset c ++ rest) ≡ rest
drop-entry c offset rest =
    ap (λ k. drop k (entry_bytes offset c ++ rest)) (sym (length-entry c offset))
    ∙ drop-append (entry_bytes offset c) rest

module _ (wide : WideChar) where
  -- The events of the changes, each under its name.
  abbrev pub told : List Change → List WatchEvent
  told [] = []
  told (c ∷ cs) = events_of wide c.action (name_of wide (decoded c 0)) ++ told cs

  report-fuel :
      (fuel : ℕ) (c : Change) (cs : List Change)
      → length (buffer_of (c ∷ cs)) ≤ fuel
      → report wide (notifies fuel (buffer_of (c ∷ cs))) ≡ told (c ∷ cs)
  unfolding notifies notifies_after report name_of
  report-fuel zero c cs le = absurd (
      omega (
        arith,
        length-append (entry_bytes (offset_of c cs) c) (buffer_of cs),
        length-entry c (offset_of c cs),
      ))
  report-fuel (suc fuel) c [] le = rw (notify_at-entry c 0 []) refl
  report-fuel (suc fuel) c (d ∷ ds) le =
      let nonzero : (entry_size c == 0) ≡ false = ground arith in
      let rest = buffer_of (d ∷ ds) in
      rw (notify_at-entry c (entry_size c) rest, nonzero, drop-entry c (entry_size c) rest)
        (ap (◌++◌ (events_of wide c.action (name_of wide (decoded c 0)))) (
          report-fuel fuel d ds (
            omega (
              arith,
              length-append (entry_bytes (entry_size c) c) rest,
              length-entry c (entry_size c),
            ))))

  -- Of a buffer with any changes in it, at least one, whatever the padding, the loop reports every
  -- change once, in order, by its action and its name.
  pub report-buffer :
      (c : Change) (cs : List Change)
      → report wide (notifies (length (buffer_of (c ∷ cs))) (buffer_of (c ∷ cs))) ≡ told (c ∷ cs)
  report-buffer c cs = report-fuel (length (buffer_of (c ∷ cs))) c cs (omega arith)
