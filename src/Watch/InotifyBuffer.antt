-- ===== src/Watch/InotifyBuffer.antt =====
-- A buffer that the system has filled with events.
use action_learning_p2p_vers.Prelude.{
  drop-append, ℕ, zero, suc, ◌≤◌, ◌<◌, ◌≡◌, refl, ap, List, [], ◌∷◌, ◌++◌, some, arith, length,
  length-append, take-append, All, map,
}
use action_learning_p2p_vers.Prelude.Int.{ℤ}
use action_learning_p2p_vers.Prelude.Text.{Text}
use action_learning_p2p_vers.Watch.Bytes.{
  u32_bytes, u32_of-bytes, i32_bits, IsI32, i32_of-bits, c_string-padded,
}
use action_learning_p2p_vers.Watch.Inotify.{Event, next_event, events_after, buffer_events}

-- What inotify(7) says of an event: a descriptor, a mask, a cookie, a name with a zero behind it, and
-- padding.
pub record Notice : Type 0 where
  pub wd : ℤ
  pub mask : ℕ
  pub cookie : ℕ
  pub name : Text
  pub padding : Text

abbrev pub name_field : Notice → Text
name_field e = e.name ++ 0 ∷ e.padding

abbrev pub event_bytes : Notice → Text
event_bytes e =
    u32_bytes (i32_bits e.wd)
    ++ u32_bytes e.mask
    ++ u32_bytes e.cookie
    ++ u32_bytes (length (name_field e))
    ++ name_field e

abbrev pub IsNotice : Notice → Type 0
IsNotice e = IsI32 e.wd × All (λ b. 0 < b) e.name

abbrev pub decoded : Notice → Event
decoded e = record { wd = e.wd; mask = e.mask; len = length (name_field e); name = e.name }

next_event-bytes :
    (e : Notice) (rest : Text)
    → IsNotice e
    → next_event (event_bytes e ++ rest) ≡ some (decoded e, rest)
unfolding next_event u32_bytes
next_event-bytes e rest (fits, name) =
    rw
      (
        u32_of-bytes (i32_bits e.wd),
        u32_of-bytes e.mask,
        u32_of-bytes (length (name_field e)),
        i32_of-bits e.wd fits,
        take-append (name_field e) rest,
        drop-append (name_field e) rest,
        c_string-padded e.name e.padding name,
      )
      refl

abbrev pub buffer_of : List Notice → Text
buffer_of [] = []
buffer_of (e ∷ es) = event_bytes e ++ buffer_of es

buffer-longer : (e : Notice) (rest : Text) → suc (length rest) ≤ length (event_bytes e ++ rest)
unfolding u32_bytes
buffer-longer e rest = omega (arith, length-append (name_field e) rest)

buffer_events-fuel :
    (fuel : ℕ) (es : List Notice)
    → All IsNotice es
    → length (buffer_of es) ≤ fuel
    → buffer_events fuel (buffer_of es) ≡ map decoded es
unfolding buffer_events events_after
buffer_events-fuel zero [] h le = refl
buffer_events-fuel (suc fuel) [] h le = refl
buffer_events-fuel zero (e ∷ es) h le = absurd (omega (arith, buffer-longer e (buffer_of es)))
buffer_events-fuel (suc fuel) (e ∷ es) (h, hs) le = rw (next_event-bytes e (buffer_of es) h) (
    ap (◌∷◌ (decoded e))
      (buffer_events-fuel fuel es hs (omega (arith, buffer-longer e (buffer_of es)))))

-- Of the bytes of any list of events, each with a descriptor that is an int and a name that holds no
-- zero, whatever the padding, the loop over the buffer makes those events, each with its name.
pub buffer_events-notices :
    (es : List Notice)
    → All IsNotice es
    → buffer_events (length (buffer_of es)) (buffer_of es) ≡ map decoded es
buffer_events-notices es h = buffer_events-fuel (length (buffer_of es)) es h (omega arith)
