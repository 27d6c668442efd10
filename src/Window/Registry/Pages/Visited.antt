-- ===== src/Window/Registry/Pages/Visited.antt =====
-- The URL history of a page (portus-window/src/window_core.rs).
use portus_window.Base.{
  ℕ, ◌≤◌, ◌<◌, ◌≡◌, refl, ap, ◌⊎◌, inl, inr, Bool, true, false, Option, none, some, List, [], ◌∷◌,
  ◌++◌, last, arith, Text, text_eq-eq, length, len-le-length, Bool-cases, drop, last-drop,
  drop-length,
}
use portus_window.Protocol.Limits.{max_url_chars}
use portus_window.Protocol.Windows.{ActiveWindow, LoadState}
use portus_window.Window.Bounded.{truncate_chars, trim_url_history, is_over, total_len}
use portus_window.Window.Bounded.Laws.{trim_url_history-drops, length-truncate_chars}
use portus_window.Window.Registry.Pages.{
  is_web_page, is_failed, is_text, is_none, page_finished, extend_history, history_of,
}

-- One URL, cut to its bound, is never over the limits of a history.
is_over-one : (u : Text) → length u ≤ max_url_chars → is_over (u ∷ []) ≡ false
unfolding is_over total_len
is_over-one u h = ground (arith, len-le-length u)

last-is_text : (o : Option Text) (u : Text) → is_text o u ≡ true → o ≡ some u
unfolding is_text
last-is_text none u h = cc
last-is_text (some t) u h = ap some (text_eq-eq t u h)

-- A history that grows keeps its newest URL.
last-trimmed :
    (u : Text) (h : List Text) (flag : Option Bool)
    → length u ≤ max_url_chars
    → last (trim_url_history (some true) (h ++ u ∷ []) flag).0 ≡ some u
last-trimmed u h flag short =
    let (k, shape, fits, least) = trim_url_history-drops (some true) (h ++ u ∷ []) flag in
    rw shape (last-drop h u k (few k least))
  where
    nat_cases : (m n : ℕ) → (m ≤ n) ⊎ (n < m)
    nat_cases m n = ground arith

    few : (k : ℕ) → ((j : ℕ) → j < k → is_over (drop j (h ++ u ∷ [])) ≡ true) → k ≤ length h
    few k least = elim (nat_cases k (length h)) [
      | inl le ↦ le
      | inr more ↦
          let over = least (length h) more in
          absurd (ground (arith, is_over-one u short, rw (drop-length h (u ∷ [])) at over))
    ]

last-extend_history :
    (u : Text) (h : List Text) (flag : Option Bool)
    → length u ≤ max_url_chars
    → last (extend_history u h flag).0 ≡ some u
unfolding extend_history
last-extend_history u h flag short = elim (Bool-cases (is_text (last h) u)) [
  | inl same ↦ rw same (last-is_text _ u same)
  | inr other ↦ rw other (last-trimmed u h flag short)
]

-- When a page that has not failed finishes a load, it counts as loaded at the URL, cut to 4096
-- characters, which is also the last of its history, whatever had to be dropped to make room.
pub page_finished-last :
    (url : Text) (w : ActiveWindow)
    → is_web_page w ≡ true
    → is_failed w.load_state ≡ false
    → w.load_error ≡ none
    → let after = page_finished url w in
      (after.load_state ≡ LoadState.loaded)
      × (after.current_url ≡ some (truncate_chars url max_url_chars))
      × (last (history_of after.url_history) ≡ after.current_url)
unfolding page_finished is_none
page_finished-last url w page up clean =
    rw (page, up, clean)
      (
        refl,
        refl,
        last-extend_history _ _ w.url_history_truncated (length-truncate_chars url max_url_chars),
      )
