-- ===== src/Window/Invariant/Opening.antt =====
-- Windows that come and go keep the registry well formed.
use portus_window.Base.{◌≡◌, refl, false, Option, arith, Text}
use portus_window.Base.OrdMap.{text_key}
use portus_window.Base.OrdMap.Entries.{
  insert-All, insert-IsOrdered, insert-Pairwise, remove-All, remove-Pairwise,
}
use portus_window.Window.Registry.{
  WindowRegistry, empty, insert_window, remove_window, web_window, web_video_window, media_window,
  has_media_state,
}
use portus_window.Protocol.Windows.{ActiveWindow, ContentKind}
use portus_window.Window.Registry.Pages.{is_web_source, is_failed}
use portus_window.Window.Invariant.{IsSound, IsFiled, IsTimely, IsApart, Inv}

pub empty-Inv : Inv empty
empty-Inv = record { ordered = tt; filed = tt; timely = tt; apart = tt }

pub insert_window-Inv :
    (r : WindowRegistry) (w : ActiveWindow)
    → IsSound w
    → w.is_focused ≡ false
    → Inv r
    → Inv (insert_window r w).1
unfolding insert_window
insert_window-Inv r w sound quiet v = record {
  ordered = insert-IsOrdered _ _ r.windows v.ordered;
  filed = insert-All IsFiled _ _ r.windows (refl, sound) v.filed;
  timely =
      insert-All (IsTimely r.focus_counter) _ _ r.windows (omega arith, λ p. absurd (ground arith))
        v.timely;
  apart = insert-Pairwise IsApart _ _ r.windows (λ b p. refl) (λ b p. p) v.apart;
}

pub remove_window-Inv : (r : WindowRegistry) (id : Text) → Inv r → Inv (remove_window r id).1
unfolding remove_window
remove_window-Inv r id v = record {
  ordered = remove-Pairwise _ id r.windows v.ordered;
  filed = remove-All IsFiled id r.windows v.filed;
  timely = remove-All (IsTimely r.focus_counter) id r.windows v.timely;
  apart = remove-Pairwise IsApart id r.windows v.apart;
}

pub web_window-IsSound :
    (id url : Text) (description profile : Option Text)
    → IsSound (web_window id url description profile)
unfolding web_window is_web_source is_failed has_media_state
web_window-IsSound id url description profile = ground arith

pub web_video_window-IsSound :
    (id url rendered : Text) (description profile : Option Text)
    → IsSound (web_video_window id url rendered description profile)
unfolding web_video_window is_web_source is_failed has_media_state
web_video_window-IsSound id url rendered description profile = ground arith

pub media_window-IsSound :
    (id source : Text) (content : ContentKind) (title : Text) (description profile : Option Text)
    → IsSound (media_window id source content title description profile)
unfolding media_window is_web_source is_failed
media_window-IsSound id source content title description profile = ground arith
