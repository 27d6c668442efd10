-- ===== src/Window/Bounded/Laws.antt =====
-- What the bounds promise.
use Prim.Native.Nat.{min}
use portus_window.Base.{
  ℕ, zero, suc, ◌≤◌, ◌<◌, ◌≡◌, refl, ◌∙◌, Option, none, true, false, ◌⊎◌, inl, inr, List, [], ◌∷◌,
  arith, if◌then◌else◌, length, length-take, take, drop, Text, Bool-cases, All, some, map, ltb,
  length-map,
}
use portus_window.Protocol.Limits.{
  max_console_entries, max_console_message_chars, max_console_source_chars,
}
use portus_window.Protocol.Windows.{ConsoleEntry}
use portus_window.Window.Bounded.{
  truncate_chars, total_len, is_over, trim_url_history, shorten, sanitize_entry,
  sanitize_console_result,
}

pub length-truncate_chars : (t : Text) (n : ℕ) → length (truncate_chars t n) ≤ n
unfolding truncate_chars
length-truncate_chars t n = ground (arith, length-take n t)

module _ {A : Type 0} (set : A) where
  trim_step :
      (u : Text) (history : List Text) (flag : A)
      → ((is_over (u ∷ history) ≡ true)
          × (trim_url_history set (u ∷ history) flag ≡ trim_url_history set history set))
        ⊎ ((is_over (u ∷ history) ≡ false)
            × (trim_url_history set (u ∷ history) flag ≡ (u ∷ history, flag)))
  unfolding trim_url_history
  trim_step u history flag = elim (Bool-cases (is_over (u ∷ history))) [
    | inl e ↦ inl (e, rw e)
    | inr e ↦ inr (e, rw e)
  ]

  -- What is left fits.
  pub is_over-trim_url_history :
      (history : List Text) (flag : A) → is_over (trim_url_history set history flag).0 ≡ false
  is_over-trim_url_history [] flag = unfold trim_url_history is_over total_len in refl
  is_over-trim_url_history (u ∷ history) flag = elim (trim_step u history flag) [
    | inl (_, e) ↦ rw e (is_over-trim_url_history history set)
    | inr (fits, e) ↦ rw e fits
  ]

  -- The flag behind `k` dropped entries.
  abbrev pub flag_after : ℕ → A → A
  flag_after zero flag = flag
  flag_after (suc k) flag = set

  flag_after-set : (k : ℕ) → flag_after k set ≡ set
  flag_after-set zero = refl
  flag_after-set (suc k) = refl

  one_more :
      (u : Text) (history : List Text) (k : ℕ)
      → is_over (u ∷ history) ≡ true
      → ((j : ℕ) → j < k → is_over (drop j history) ≡ true)
      → (j : ℕ) → j < suc k
      → is_over (drop j (u ∷ history)) ≡ true
  one_more u history k over least zero h = over
  one_more u history k over least (suc j) h = least j (omega arith)

  -- The loop drops the oldest entries, as few as make the rest fit, and sets the flag exactly when it
  -- drops any.
  pub trim_url_history-drops :
      (history : List Text) (flag : A)
      → (k : ℕ) × (trim_url_history set history flag ≡ (drop k history, flag_after k flag))
        × (is_over (drop k history) ≡ false)
        × ((j : ℕ) → j < k → is_over (drop j history) ≡ true)
  trim_url_history-drops [] flag =
      unfold trim_url_history is_over total_len in (0, refl, refl, λ j h. absurd (omega arith))
  trim_url_history-drops (u ∷ history) flag = elim (trim_step u history flag) [
    | inl (over, e) ↦
        let (k, shape, fits, least) = trim_url_history-drops history set in
        (suc k, rw (e, shape, flag_after-set k), fits, one_more u history k over least)
    | inr (fits, e) ↦ (0, e, fits, λ j h. absurd (omega arith))
  ]

abbrev pub IsShort : ConsoleEntry → Type 0
IsShort e =
    (length e.message ≤ max_console_message_chars)
    × ((s : Text) → e.source ≡ some s → length s ≤ max_console_source_chars)

length-shorten : (n : ℕ) (t : Text) → length (shorten n t) ≤ n
unfolding shorten
length-shorten n t = ground (arith, length-take n t)

source_is_short :
    (o : Option Text) (s : Text)
    → elim o [ none ↦ none | some t ↦ some (shorten max_console_source_chars t) ] ≡ some s
    → length s ≤ max_console_source_chars
source_is_short none s h = absurd (ground arith)
source_is_short (some t) s h =
    let e : shorten max_console_source_chars t ≡ s = cc in
    rw (← e) (length-shorten max_console_source_chars t)

sanitize_entry-IsShort : (e : ConsoleEntry) → IsShort (sanitize_entry e)
sanitize_entry-IsShort e = (
  unfold sanitize_entry in length-shorten max_console_message_chars e.message,
  unfold sanitize_entry in source_is_short e.source,
)

map-IsShort : (es : List ConsoleEntry) → All IsShort (map sanitize_entry es)
map-IsShort [] = tt
map-IsShort (e ∷ es) = (sanitize_entry-IsShort e, map-IsShort es)

length-cut :
    (n : ℕ) (es : List ConsoleEntry)
    → length (if ltb n (length es) then take n es else es) ≡ min n (length es)
length-cut n es = ground (arith, length-take n es)

-- A snapshot is cut to its first 50 entries, with short texts, and the flag says exactly whether it
-- was longer.
pub sanitize_console_result_bounds :
    (entries : List ConsoleEntry)
    → let r = sanitize_console_result entries in
      (length r.0 ≡ min max_console_entries (length entries))
      × All IsShort r.0
      × (r.1 ≡ ltb max_console_entries (length entries))
unfolding sanitize_console_result
sanitize_console_result_bounds entries =
    (length-map sanitize_entry _ ∙ length-cut max_console_entries entries, map-IsShort _, refl)
