-- ===== src/Base/Strings.antt =====
-- Rust's `String` and `&str` as lists of Unicode scalar values, with the methods that the program
-- calls. `len` counts UTF-8 bytes and `length` characters. Byte order and code point order agree.
mod Trim
mod Decimal
mod Numbers
unfoldable pub use Trim.*
unfoldable pub use Decimal.*
unfoldable pub use Numbers.*
use Prim.Native.Nat.{ℕ, ◌+◌, ◌≤◌, ◌*◌}
use Prim.Native.Char.{code}
use Prim.Native.String.{String}
use mathlib.Core.Path.{◌≡◌, refl, sym, ap}
use mathlib.Core.Logic.{inl, inr, ◌↔◌, ◌≢◌}
use mathlib.Core.Bool.{Bool, true, false, ◌&&◌, ◌||◌}
use mathlib.Core.List.{List, [], ◌∷◌}
use mathlib.Core.Option.{Option, none, some}
use native.Mathlib.Omega.{arith}
use portus_window.Base.Tests.{◌==◌, Bool-cases, ltb, leb, if◌then◌else◌, ==_iff}
use portus_window.Base.Lists.{length}

abbrev pub Text : Type 0
Text = List ℕ

-- A literal.
abbrev pub text : String → Text
text String.[] = []
text (String.◌∷◌ c s) = code c ∷ text s

unfoldable pub text_eq : Text → Text → Bool
text_eq [] [] = true
text_eq [] (d ∷ t) = false
text_eq (c ∷ s) [] = false
text_eq (c ∷ s) (d ∷ t) = c == d && text_eq s t

pub text_eq_refl : (s : Text) → text_eq s s ≡ true
unfolding text_eq
text_eq_refl [] = refl
text_eq_refl (c ∷ s) = ground (arith, text_eq_refl s)

pub text_eq-eq : (s t : Text) → text_eq s t ≡ true → s ≡ t
unfolding text_eq
text_eq-eq [] [] h = refl
text_eq-eq [] (d ∷ t) h = cc
text_eq-eq (c ∷ s) [] h = cc
text_eq-eq (c ∷ s) (d ∷ t) h = ground (arith, text_eq-eq s t)

pub text_eq-false : (s t : Text) → s ≢ t → text_eq s t ≡ false
text_eq-false s t ne = elim (Bool-cases (text_eq s t)) [
  | inl same ↦ absurd (ne (text_eq-eq s t same))
  | inr other ↦ other
]

-- `<` on strings.
unfoldable pub text_lt : Text → Text → Bool
text_lt [] [] = false
text_lt [] (d ∷ t) = true
text_lt (c ∷ s) [] = false
text_lt (c ∷ s) (d ∷ t) = ltb c d || (c == d && text_lt s t)

pub text_lt_irrefl : (s : Text) → text_lt s s ≡ false
unfolding text_lt
text_lt_irrefl [] = refl
text_lt_irrefl (c ∷ s) = ground (arith, text_lt_irrefl s)

pub text_lt_trans : (r s t : Text) → text_lt r s ≡ true → text_lt s t ≡ true → text_lt r t ≡ true
unfolding text_lt
text_lt_trans [] [] t h k = cc
text_lt_trans [] (d ∷ s) [] h k = cc
text_lt_trans [] (d ∷ s) (e ∷ t) h k = refl
text_lt_trans (c ∷ r) [] t h k = cc
text_lt_trans (c ∷ r) (d ∷ s) [] h k = cc
text_lt_trans (c ∷ r) (d ∷ s) (e ∷ t) h k = ground (arith, text_lt_trans r s t)

pub text_lt_total : (s t : Text) → text_eq s t ≡ false → text_lt s t ≡ false → text_lt t s ≡ true
unfolding text_eq text_lt
text_lt_total [] [] h k = cc
text_lt_total [] (d ∷ t) h k = cc
text_lt_total (c ∷ s) [] h k = refl
text_lt_total (c ∷ s) (d ∷ t) h k = ground (arith, text_lt_total s t)

unfoldable pub starts_with : Text → Text → Bool
starts_with s [] = true
starts_with [] (d ∷ t) = false
starts_with (c ∷ s) (d ∷ t) = c == d && starts_with s t

-- `contains` with a string for its pattern.
unfoldable pub contains : Text → Text → Bool
unfolding starts_with
contains [] t = starts_with [] t
contains (c ∷ s) t = starts_with (c ∷ s) t || contains s t

unfoldable pub strip_prefix : Text → Text → Option Text
strip_prefix s [] = some s
strip_prefix [] (d ∷ t) = none
strip_prefix (c ∷ s) (d ∷ t) = let rest = strip_prefix s t in if c == d then rest else none

-- `strip_suffix` and `ends_with` with one character.
unfoldable pub strip_suffix_char : Text → ℕ → Option Text
strip_suffix_char [] d = none
strip_suffix_char (c ∷ []) d = if c == d then some [] else none
strip_suffix_char (c ∷ b ∷ s) d = elim (strip_suffix_char (b ∷ s) d) [
  | none ↦ none
  | some r ↦ some (c ∷ r)
]

unfoldable pub ends_with_char : Text → ℕ → Bool
ends_with_char [] d = false
ends_with_char (c ∷ []) d = c == d
ends_with_char (c ∷ b ∷ s) d = ends_with_char (b ∷ s) d

unfoldable pub utf8_len : ℕ → ℕ
utf8_len c = if ltb c 0x80 then 1 else if ltb c 0x800 then 2 else if ltb c 0x10000 then 3 else 4

-- `len`: the bytes of the UTF-8 form.
unfoldable pub len : Text → ℕ
len [] = 0
len (c ∷ s) = utf8_len c + len s

pub length-le-len : (s : Text) → length s ≤ len s
unfolding len utf8_len
length-le-len [] = omega arith
length-le-len (c ∷ s) = ground (arith, length-le-len s)

pub len-le-length : (s : Text) → len s ≤ 4 * length s
unfolding len utf8_len
len-le-length [] = omega arith
len-le-length (c ∷ s) = ground (arith, len-le-length s)

unfoldable pub to_ascii_lower : Text → Text
to_ascii_lower [] = []
to_ascii_lower (c ∷ s) = (if leb b'A' c && leb c b'Z' then c + 32 else c) ∷ to_ascii_lower s
