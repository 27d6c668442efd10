-- ===== src/Window/Invariant/Pages.antt =====
-- What the registry records of pages, and where it puts windows, keeps each window sound.
use portus_window.Base.{
  ℕ, ◌-◌, ◌≤◌, refl, Bool, true, false, Option, none, some, List, [], ◌∷◌, ◌++◌, arith, Text,
  length, length-append, length-drop, drop,
}
use portus_window.Protocol.Limits.{max_title_chars, max_load_error_chars, max_console_entries}
use portus_window.Protocol.Windows.{ActiveWindow, ConsoleEntry}
use portus_window.Window.Bounded.Laws.{length-truncate_chars}
use portus_window.Window.Registry.Pages.{
  observed_url, page_started, page_finished, page_failed, titled, authenticated_as, is_web_source,
  is_failed,
}
use portus_window.Window.Registry.Console.{console_extended}
use portus_window.Window.Registry.Place.{place, visit_workspace, resized}
use portus_window.Window.Validate.{ResizeSpec}
use portus_window.Window.Registry.Place.Trail.{visit_workspace-IsTrail}
use portus_window.Window.Invariant.{IsSound, IsPlace}
use portus_window.Window.Invariant.Changes.{Keeps}

pub observed_url-Keeps : (url : Text) → Keeps (observed_url url)
unfolding observed_url
observed_url-Keeps url = record {
  sound = λ w h. ground arith;
  same_id = λ w. ground arith;
  same_focus = λ w. ground arith;
}

pub page_started-Keeps : (url : Text) → Keeps (page_started url)
unfolding page_started
page_started-Keeps url = record {
  sound = λ w h. ground arith;
  same_id = λ w. ground arith;
  same_focus = λ w. ground arith;
}

pub page_failed-Keeps : (url error : Text) → Keeps (page_failed url error)
unfolding page_failed is_failed is_web_source
page_failed-Keeps url error = record {
  sound = λ w h. ground (arith, length-truncate_chars error max_load_error_chars);
  same_id = λ w. ground arith;
  same_focus = λ w. ground arith;
}

pub titled-Keeps : (title : Text) → Keeps (titled title)
unfolding titled is_web_source
titled-Keeps title = record {
  sound = λ w h. ground (arith, length-truncate_chars title max_title_chars);
  same_id = λ w. ground arith;
  same_focus = λ w. ground arith;
}

pub authenticated_as-Keeps : (a : Option Bool) → Keeps (authenticated_as a)
unfolding authenticated_as
authenticated_as-Keeps a = record {
  sound = λ w h. ground (arith);
  same_id = λ w. ground arith;
  same_focus = λ w. ground arith;
}

pub resized-Keeps : (spec : ResizeSpec) → Keeps (resized spec)
unfolding resized is_web_source
resized-Keeps spec = record {
  sound = λ w h. ground (arith);
  same_id = λ w. ground arith;
  same_focus = λ w. ground arith;
}

pub console_extended-Keeps : (es : List ConsoleEntry) (t : Bool) → Keeps (console_extended es t)
unfolding console_extended
console_extended-Keeps es t = record {
  sound = λ w h. ground (
    arith,
    length-drop (length (w.console_errors ++ es) - max_console_entries) (w.console_errors ++ es),
  );
  same_id = λ w. ground arith;
  same_focus = λ w. ground arith;
}

pub page_finished-Keeps : (url : Text) → Keeps (page_finished url)
unfolding page_finished is_failed is_web_source
page_finished-Keeps url = record {
  sound = λ w h. ground arith;
  same_id = λ w. ground arith;
  same_focus = λ w. ground arith;
}

-- A window that has been put on a workspace, and visits it.
visited-IsSound :
    (i : ℕ) (w : ActiveWindow)
    → i ≤ 255
    → IsSound w
    → IsSound (visit_workspace i (record w { workspace = some i; is_on_all_workspaces = false }))
unfolding visit_workspace is_web_source
visited-IsSound i w small h =
    let v = record w { workspace = some i; is_on_all_workspaces = false } in
    let (place, trail, arrived) = visit_workspace-IsTrail i v h.trail in
    ground (
      arith,
      trail,
      arrived,
      length-append (drop 1 w.workspace_history) (i ∷ []),
      length-append (w.workspace_history) (i ∷ []),
      length-drop 1 w.workspace_history,
    )

pub place-Keeps : (index : Option ℕ) (all : Bool) → IsPlace index → Keeps (place index all)
unfolding place is_web_source visit_workspace
place-Keeps index true good = record {
  sound = λ w h. ground arith;
  same_id = λ w. refl;
  same_focus = λ w p. p;
}
place-Keeps none false good = record {
  sound = λ w h. ground arith;
  same_id = λ w. refl;
  same_focus = λ w p. p;
}
place-Keeps (some i) false good = record {
  sound = λ w h. visited-IsSound i w good h;
  same_id = λ w. ground arith;
  same_focus = λ w. ground arith;
}
