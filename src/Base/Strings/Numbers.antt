-- ===== src/Base/Strings/Numbers.antt =====
-- Numbers and parts of a text: `str::parse` at unsigned types, and `split_once`.
use Prim.Native.Nat.{ℕ, zero, suc, ◌+◌, ◌-◌, ◌*◌, ◌^◌, ◌≤◌, ◌<◌, ◌/◌, ◌%◌}
use mathlib.Core.Path.{◌≡◌, refl, ◌∙◌}
use mathlib.Core.Bool.{true, ◌&&◌}
use mathlib.Core.List.{List, [], ◌∷◌}
use mathlib.Core.Option.{Option, none, some}
use mathlib.Core.Logic.{inl, inr}
use native.Mathlib.Omega.{arith}
use portus_window.Base.Tests.{◌==◌, Bool-cases, ltb, leb, if◌then◌else◌, ltb→lt, ltb→le, lt→ltb}
use portus_window.Base.Strings.Decimal.{decimal, decimal_loop}

-- `split_once` with one character.
unfoldable pub split_once : ℕ → List ℕ → Option (List ℕ × List ℕ)
split_once d [] = none
split_once d (c ∷ t) =
    let rest = split_once d t in
    if c == d then some ([], t) else elim rest [ none ↦ none | some p ↦ some (c ∷ p.0, p.1) ]

-- The digits behind those read so far.
unfoldable pub read_digits : ℕ → List ℕ → Option ℕ
read_digits n [] = some n
read_digits n (c ∷ t) =
    let rest = read_digits (n * 10 + (c - b'0')) t in
    if leb b'0' c && leb c b'9' then rest else none

-- A number that is too large for the type is an error.
unfoldable pub in_range : ℕ → Option ℕ → Option ℕ
in_range limit none = none
in_range limit (some n) = if ltb n limit then some n else none

-- Digits, at least one, behind a plus sign or none.
unfoldable pub parse_below : ℕ → List ℕ → Option ℕ
unfolding read_digits in_range
parse_below limit [] = none
parse_below limit (c ∷ []) = if c == b'+' then none else in_range limit (read_digits 0 (c ∷ []))
parse_below limit (c ∷ d ∷ t) =
    in_range limit (read_digits 0 (if c == b'+' then d ∷ t else c ∷ d ∷ t))

-- `str::parse::<u64>`
unfoldable pub parse_u64 : List ℕ → Option ℕ
unfolding parse_below
parse_u64 = parse_below (2 ^ 64)

-- `str::parse::<u32>`
unfoldable pub parse_u32 : List ℕ → Option ℕ
unfolding parse_below
parse_u32 = parse_below (2 ^ 32)

-- Reading what `decimal` writes.
one_digit :
    (n d : ℕ) (written : List ℕ)
    → d < 10
    → read_digits n ((b'0' + d) ∷ written) ≡ read_digits (n * 10 + d) written
unfolding read_digits
one_digit n d written h =
    let e : b'0' + d - b'0' ≡ d = omega arith in
    let low : leb b'0' (b'0' + d) ≡ true = ground arith in
    let high : leb (b'0' + d) b'9' ≡ true = ground arith in rw (low, high, e) refl

read_digits-decimal_loop :
    (fuel n : ℕ) (written : List ℕ)
    → n < fuel
    → read_digits 0 (decimal_loop fuel n written) ≡ read_digits n written
unfolding decimal_loop
read_digits-decimal_loop zero n written h = absurd (omega arith)
read_digits-decimal_loop (suc fuel) n written h = elim (Bool-cases (ltb n 10)) [
  | inl small ↦ rw small (one_digit 0 n written (ltb→lt n 10 small) ∙ rw (zero n) refl)
  | inr large ↦
      let le = ltb→le n 10 large in
      rw large (
        read_digits-decimal_loop fuel (n / 10) ((b'0' + n % 10) ∷ written) (omega arith)
        ∙ one_digit (n / 10) (n % 10) written (omega arith)
        ∙ rw (back n) refl)
]
  where
    back : (n : ℕ) → n / 10 * 10 + n % 10 ≡ n
    back n = omega arith

    zero : (n : ℕ) → 0 * 10 + n ≡ n
    zero n = omega arith

-- What is written starts with a digit.
IsNumeral : List ℕ → Type 0
IsNumeral t = (c : ℕ) × (s : List ℕ) × (t ≡ c ∷ s) × (b'0' ≤ c)

decimal_loop-IsNumeral :
    (fuel n : ℕ) (written : List ℕ) → n < fuel → IsNumeral (decimal_loop fuel n written)
unfolding decimal_loop IsNumeral
decimal_loop-IsNumeral zero n written h = absurd (omega arith)
decimal_loop-IsNumeral (suc fuel) n written h = elim (Bool-cases (ltb n 10)) [
  | inl small ↦ rw small (b'0' + n, written, refl, omega arith)
  | inr large ↦
      let le = ltb→le n 10 large in
      rw large (decimal_loop-IsNumeral fuel (n / 10) ((b'0' + n % 10) ∷ written) (omega arith))
]

parse_below-digits :
    (limit c : ℕ) (s : List ℕ)
    → b'0' ≤ c
    → parse_below limit (c ∷ s) ≡ in_range limit (read_digits 0 (c ∷ s))
unfolding parse_below
parse_below-digits limit c [] h = ground arith
parse_below-digits limit c (d ∷ s) h = ground arith

pub parse_below-decimal : (limit n : ℕ) → n < limit → parse_below limit (decimal n) ≡ some n
unfolding decimal IsNumeral in_range
parse_below-decimal limit n h =
    let (c, s, e, digit) = decimal_loop-IsNumeral (suc n) n [] (omega arith) in
    let value = read_digits-decimal_loop (suc n) n [] (omega arith) in
    rw e (parse_below-digits limit c s digit ∙ rw (rw e at value) (found))
  where
    found : in_range limit (read_digits n []) ≡ some n
    found = unfold read_digits in rw (lt→ltb n limit h) refl

-- `to_string` and `parse` at `u32`.
pub parse_u32-decimal : (n : ℕ) → n < 2 ^ 32 → parse_u32 (decimal n) ≡ some n
unfolding parse_u32
parse_u32-decimal n h = parse_below-decimal (2 ^ 32) n h
