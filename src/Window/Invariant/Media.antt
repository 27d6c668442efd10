-- ===== src/Window/Invariant/Media.antt =====
-- Recorded media states keep the registry well formed.
use portus_window.Base.{
  if◌then◌else◌, ◌≡◌, true, some, arith, Text, Bool-cases, Option-cases, inl, inr,
}
use portus_window.Base.OrdMap.{text_key, get}
use portus_window.Window.Registry.{WindowRegistry, WindowRecord, change_window, update_window}
use portus_window.Protocol.Windows.{ActiveWindow, MediaState}
use portus_window.Window.Registry.Pages.{is_web_source}
use portus_window.Window.Invariant.{Inv}
use portus_window.Window.Invariant.Changes.{Keeps, change_window-Inv}
use portus_window.Window.Registry.Console.{record_media_state, media_recorded, is_playable}
use portus_window.Base.OrdMap.Entries.{modify_same}

abbrev with_media : MediaState → ActiveWindow → ActiveWindow
with_media state w = if is_playable w then record w { media_state = some state } else w

media_state-Keeps : (state : MediaState) → Keeps (with_media state)
unfolding is_playable is_web_source
media_state-Keeps state = record {
  sound = λ w h. ground arith;
  same_id = λ w. ground arith;
  same_focus = λ w. ground arith;
}

-- At a window that is there and plays media, the test changes nothing.
change_window-playable :
    (r : WindowRegistry) (id : Text) (state : MediaState) (rec : WindowRecord)
    → Inv r
    → get id r.windows ≡ some rec
    → is_playable rec.window ≡ true
    → change_window r id (with_media state)
      ≡ change_window r id (λ w. record w { media_state = some state })
unfolding change_window update_window
change_window-playable r id state rec v found plays =
    rw (found, change_window)
      (rw (
        plays,
        modify_same id (λ rec. record rec { window = with_media state rec.window })
            (λ rec. record rec { window = record (rec.window) { media_state = some state } })
            r.windows v.ordered found (ground arith),
      ))

pub record_media_state-Inv :
    (r : WindowRegistry) (id : Text) (state : MediaState)
    → Inv r
    → Inv (record_media_state r id state).1
unfolding record_media_state media_recorded
record_media_state-Inv r id state v = elim (Option-cases (get id r.windows)) [
  | inl e ↦ rw (e, record_media_state) v
  | inr (rec, e) ↦ elim (Bool-cases (is_playable rec.window)) [
    | inl plays ↦
        rw (e, record_media_state, plays, ← change_window-playable r id state rec v e plays)
          (change_window-Inv r id (with_media state) (media_state-Keeps state) v)
    | inr mute ↦ rw (e, record_media_state, mute) v
  ]
]
