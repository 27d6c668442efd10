-- ===== src/Tests/Registry.antt =====
-- The window registry and its validation (portus-window/src/window_core.rs).
use Prim.Native.Nat.{min}
use portus_window.Base.{
  is_whitespace, text_lt, retain, contains, sort_desc, ℕ, zero, suc, ◌≤◌, ◌<◌, ◌≡◌, ◌≢◌, ◌↔◌, ◌⊎◌,
  refl, ap, true, false, ◌||◌, none, some, List, [], ◌∷◌, ◌++◌, arith, Text, text, text_eq,
  text_eq_refl, utf8_len, starts_with, length, len, ltb, drop, trim, is_empty, All, Result, ok, err,
}
use portus_window.Base.OrdMap.{modify, insert, text_key, contains_key}
use portus_window.Protocol.Limits.{max_url_chars, max_console_entries}
use portus_window.Protocol.Windows.{ActiveWindow, ConsoleEntry, ConsoleLevel, maximize}
use portus_window.Window.Errors.{target_not_found}
use portus_window.Window.Validate.{ResizeSpec, validate_description, Url, validate_url}
use portus_window.Window.Validate.Accepted.{validate_url-accepted}
use portus_window.Window.Bounded.{is_over, trim_url_history}
use portus_window.Window.Bounded.Laws.{flag_after, trim_url_history-drops}
use portus_window.Window.Registry.{update_window, change_window, WindowRegistry, empty, web_window}
use portus_window.Window.Registry.Focus.{record_focus}
use portus_window.Window.Registry.Pages.{is_web_page, is_failed}
use portus_window.Window.Registry.Console.{console_extended}
use portus_window.Window.Registry.Console.Newest.{console_extended-newest}
use portus_window.Window.Registry.Place.{apply_resize}
use portus_window.Window.Registry.Place.Trail.{IsAnswered, apply_resize-IsAnswered}
use portus_window.Window.Calls.{Call, step, run, opens_web, focuses, starts, finishes, tags}
use portus_window.Window.Target.{pick, is_match, resolve_target}
use portus_window.Window.Target.Resolved.{IsResolved, resolve_target-IsResolved}
use portus_window.Window.Target.Focused.{record_focus-focused}
use portus_window.Window.Untouched.{IsUntouched, step-IsUntouched}
use portus_window.Window.Invariant.{Inv, HasShortUrls}
use portus_window.Window.Invariant.Reach.{run-empty-Inv}
use portus_window.Window.Invariant.Urls.Reach.{IsAdmissible, run-empty-HasShortUrls}

abbrev id_a : Text
id_a = text "wsess_a"

abbrev id_b : Text
id_b = text "wsess_b"

-- Two windows are opened, each is described, one loads its page, and both get the focus in turn.
abbrev calls : List (Text × Call)
calls =
    (id_a, opens_web (text "https://a.example") none none)
    ∷ (id_b, opens_web (text "https://b.example") none none)
    ∷ (id_a, tags (text " news "))
    ∷ (id_a, starts (text "https://a.example/1"))
    ∷ (id_a, finishes (text "https://a.example/1"))
    ∷ (id_b, focuses true)
    ∷ (id_a, focuses true)
    ∷ []

abbrev two : WindowRegistry
two = run empty calls

calls-IsAdmissible : All IsAdmissible calls
unfolding len utf8_len
calls-IsAdmissible = (omega arith, (omega arith, (tt, (tt, (tt, (tt, (tt, tt)))))))

run-empty-Inv_example : Inv (run empty calls)
run-empty-Inv_example = run-empty-Inv calls (omega arith)

run-empty-HasShortUrls_example : All (λ e. HasShortUrls e.1.window) (run empty calls).windows
run-empty-HasShortUrls_example = run-empty-HasShortUrls calls calls-IsAdmissible

two-Inv : Inv two
two-Inv = run-empty-Inv calls (omega arith)

-- A lowercase mapping that changes nothing.
abbrev same : Text → Text
same t = t

resolve_target-IsResolved_example :
    let answer = resolve_target same two (text "example") in
    ((contains_key (text "example") two.windows ≡ true) × (answer ≡ ok (text "example")))
    ⊎ (((contains_key (text "example") two.windows ≡ false)
          × (starts_with (text "example") (text "wsess_") ≡ true)
          × (answer ≡ err (target_not_found (text "example"))))
        ⊎ ((contains_key (text "example") two.windows ≡ false)
            × (starts_with (text "example") (text "wsess_") ≡ false)
            × IsResolved (is_match same (text "example")) two (text "example") answer))
resolve_target-IsResolved_example = resolve_target-IsResolved same two (text "example") two-Inv

-- Both windows match, and the one that had the focus last is named.
resolve_target_newest : resolve_target same two (text "example") ≡ ok id_a
unfolding resolve_target run step contains_key update_window modify validate_description trim
    is_whitespace change_window insert text_eq text_lt starts_with pick retain contains sort_desc
resolve_target_newest = refl

resolve_target_news : resolve_target same two (text "news") ≡ ok id_a
unfolding resolve_target run step contains_key update_window modify validate_description trim
    is_whitespace change_window insert text_eq text_lt starts_with pick retain contains
resolve_target_news = refl

record_focus-focused_example :
    resolve_target same (record_focus two id_b true) (text "focused") ≡ ok id_b
unfolding run step contains_key update_window modify validate_description trim is_whitespace
    change_window insert text_eq text_lt
record_focus-focused_example =
    record_focus-focused same two id_b refl two-Inv (omega arith) refl refl

other : id_a ≢ id_b
unfolding text_eq
other e = ground (arith, text_eq_refl id_a, ap (text_eq id_a) e)

step-IsUntouched_example : IsUntouched id_b two (step two id_a (focuses true))
step-IsUntouched_example = step-IsUntouched two id_a id_b (focuses true) (λ e. absurd (other e))

abbrev wide : ResizeSpec
wide = record {
  width = some 800;
  height = none;
  x = none;
  y = none;
  state = some maximize;
  always_on_top = none;
  workspace = none;
}

apply_resize-IsAnswered_example : IsAnswered two id_a wide (apply_resize two id_a wide)
apply_resize-IsAnswered_example = apply_resize-IsAnswered two id_a wide

abbrev page : ActiveWindow
page = web_window id_a (text "https://a.example") none none

-- A text of a given length.
abbrev letters : ℕ → Text
letters zero = []
letters (suc n) = b'a' ∷ letters n

length-letters : (n : ℕ) → length (letters n) ≡ n
length-letters zero = refl
length-letters (suc n) = ap suc (length-letters n)

abbrev entry : ConsoleEntry
entry = record { level = ConsoleLevel.error; message = text "failed"; source = none; line = none }

console_extended-newest_example :
    let after = console_extended (entry ∷ []) false page in
    (k : ℕ) × (after.console_errors ≡ drop k (page.console_errors ++ entry ∷ []))
    × (length after.console_errors
        ≡ min max_console_entries (length (page.console_errors ++ entry ∷ [])))
    × (after.console_errors_truncated ≡ (ltb 0 k || false))
unfolding web_window is_web_page is_failed
console_extended-newest_example = console_extended-newest (entry ∷ []) false page refl

trim_url_history-drops_example :
    (k : ℕ) × (trim_url_history (some true) (text "a" ∷ text "b" ∷ []) none
      ≡ (drop k (text "a" ∷ text "b" ∷ []), flag_after (some true) k none))
    × (is_over (drop k (text "a" ∷ text "b" ∷ [])) ≡ false)
    × ((j : ℕ) → j < k → is_over (drop j (text "a" ∷ text "b" ∷ [])) ≡ true)
trim_url_history-drops_example = trim_url_history-drops (some true) (text "a" ∷ text "b" ∷ []) none

-- A parser of URLs that takes every text for an https one.
abbrev parse : Text → Result Text Url
parse t = ok (record { scheme = text "https"; href = t })

validate_url-accepted_example :
    (validate_url parse (text " https://a.example ")
      ≡ ok (record { scheme = text "https"; href = text "https://a.example" }))
    ↔ ((is_empty (trim (text " https://a.example ")) ≡ false)
        × (len (trim (text " https://a.example ")) ≤ max_url_chars)
        × (parse (trim (text " https://a.example "))
            ≡ ok (record { scheme = text "https"; href = text "https://a.example" }))
        × ((text "https" ≡ text "http") ⊎ (text "https" ≡ text "https")))
validate_url-accepted_example =
    validate_url-accepted parse (text " https://a.example ")
      (record { scheme = text "https"; href = text "https://a.example" })
