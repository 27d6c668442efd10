-- ===== src/Window/Bounded.antt =====
-- Bounded texts and lists: `truncate_chars`, `trim_url_history` and `sanitize_console_result`
-- (portus-window/src/window_core.rs; `trim_url_history` stands in portus-window/src/database.rs too).
pub mod Laws
use portus_window.Base.{
  ℕ, ◌+◌, Bool, ◌||◌, none, some, List, [], ◌∷◌, map, if◌then◌else◌, leb, ltb, length, take, Text,
  len,
}
use portus_window.Protocol.Limits.{
  max_url_history_entries, max_url_history_bytes, max_console_entries, max_console_message_chars,
  max_console_source_chars,
}
use portus_window.Protocol.Windows.{ConsoleEntry}

unfoldable pub truncate_chars : Text → ℕ → Text
truncate_chars value max = if leb (length value) max then value else take max value

unfoldable pub total_len : List Text → ℕ
total_len [] = 0
total_len (u ∷ urls) = len u + total_len urls

unfoldable pub is_over : List Text → Bool
is_over history =
    ltb max_url_history_entries (length history) || ltb max_url_history_bytes (total_len history)

-- The loop, on the entries. An empty history ends it, and each round drops the oldest entry.
unfoldable pub trim_url_history : {A : Type 0} → A → List Text → A → List Text × A
trim_url_history set [] truncated = ([], truncated)
trim_url_history set (u ∷ history) truncated =
    let shorter = trim_url_history set history set in
    if is_over (u ∷ history) then shorter else (u ∷ history, truncated)

-- A text that is cut if it is too long.
shorten : ℕ → Text → Text
shorten max t = if ltb max (length t) then take max t else t

sanitize_entry : ConsoleEntry → ConsoleEntry
unfolding shorten
sanitize_entry e = record e {
  message = shorten max_console_message_chars e.message;
  source = elim e.source [ none ↦ none | some s ↦ some (shorten max_console_source_chars s) ];
}

unfoldable pub sanitize_console_result : List ConsoleEntry → List ConsoleEntry × Bool
unfolding sanitize_entry
sanitize_console_result entries =
    let truncated = ltb max_console_entries (length entries) in
    (
      map sanitize_entry (if truncated then take max_console_entries entries else entries),
      truncated,
    )
