-- ===== src/Window/Registry/Console/Newest.antt =====
-- Which console entries a window keeps (portus-window/src/window_core.rs).
use Prim.Native.Nat.{min}
use portus_window.Base.{
  ℕ, ◌-◌, ◌≡◌, refl, inl, inr, Bool, true, false, ◌||◌, List, ◌++◌, arith, ltb, length, drop,
  length-drop, Bool-cases,
}
use portus_window.Protocol.Limits.{max_console_entries}
use portus_window.Protocol.Windows.{ConsoleEntry, ActiveWindow}
use portus_window.Window.Registry.Pages.{is_web_source}
use portus_window.Window.Registry.Console.{console_extended}

-- A web window keeps its newest entries, at most 50 and as many as there are; it counts as cut
-- exactly if this call dropped some or the page's script had: what earlier calls dropped is
-- forgotten.
pub console_extended-newest :
    (entries : List ConsoleEntry) (source_truncated : Bool) (w : ActiveWindow)
    → is_web_source w ≡ true
    → let after = console_extended entries source_truncated w in
      (k : ℕ) × (after.console_errors ≡ drop k (w.console_errors ++ entries))
      × (length after.console_errors
          ≡ min max_console_entries (length (w.console_errors ++ entries)))
      × (after.console_errors_truncated ≡ (ltb 0 k || source_truncated))
unfolding console_extended
console_extended-newest entries source_truncated w web =
    let current = w.console_errors ++ entries in
    elim (Bool-cases (ltb max_console_entries (length current))) [
      | inl long ↦ (
        length current - max_console_entries,
        rw (web, long) refl,
        rw (web, long) (size_cut current long),
        rw (web, long) (flagged current long),
      )
      | inr short ↦
          (0, rw (web, short) refl, rw (web, short) (size_kept current short), rw (web, short) refl)
    ]
  where
    size_cut :
        (es : List ConsoleEntry)
        → ltb max_console_entries (length es) ≡ true
        → length (drop (length es - max_console_entries) es) ≡ min max_console_entries (length es)
    size_cut es long = ground (arith, length-drop (length es - max_console_entries) es)

    size_kept :
        (es : List ConsoleEntry)
        → ltb max_console_entries (length es) ≡ false
        → length es ≡ min max_console_entries (length es)
    size_kept es short = ground arith

    flagged :
        (es : List ConsoleEntry)
        → ltb max_console_entries (length es) ≡ true
        → true ≡ (ltb 0 (length es - max_console_entries) || source_truncated)
    flagged es long = ground arith
