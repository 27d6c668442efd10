-- ===== src/Window/Registry/Focus.antt =====
-- `record_focus` (portus-window/src/window_core.rs).
use portus_window.Base.{ℕ, ◌+◌, ◌%◌, ◌^◌, Bool, true, false, not, map, if◌then◌else◌, Text}
use portus_window.Base.OrdMap.{text_key, contains_key, modify}
use portus_window.Window.Registry.{WindowRecord, WindowRegistry, update_window}

-- `self.focus_counter += 1` on a `u64`, as a release build computes it.
unfoldable pub next_focus : ℕ → ℕ
next_focus n = (n + 1) % 2 ^ 64

abbrev pub set_focused : Bool → WindowRecord → WindowRecord
set_focused b rec = record rec { window = record (rec.window) { is_focused = b } }

-- Every window loses the focus, and then one gains it.
unfoldable pub focus_window : WindowRegistry → Text → WindowRegistry
unfolding next_focus
focus_window r id =
    let order = next_focus r.focus_counter in
    record {
      windows =
          modify id
            (λ rec. record {
              window = record (rec.window) { is_focused = true };
              focus_order = order;
            })
            (map (λ e. (e.0, set_focused false e.1)) r.windows);
      focus_counter = order;
    }

unfoldable pub record_focus : WindowRegistry → Text → Bool → WindowRegistry
unfolding focus_window
record_focus r id focused =
    if not (contains_key id r.windows)
    then r
    else if focused
    then focus_window r id
    else update_window r id (λ w. record w { is_focused = false })
