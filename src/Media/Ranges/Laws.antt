-- ===== src/Media/Ranges/Laws.antt =====
-- Which ranges are served (portus-window/src/media.rs).
use Prim.Native.Nat.{min}
use portus_window.Base.{
  split_once, parse_u64, true, ◌⊎◌, Option-cases, ℕ, ◌+◌, ◌-◌, ◌≤◌, ◌<◌, ◌^◌, ◌≡◌, refl, ap, sym,
  ◌∙◌, inl, inr, false, ◌||◌, Option, none, some, arith, Text, text, is_empty, contains,
  strip_prefix, Bool-cases, ◌==◌, leb, ltb, if◌then◌else◌,
}
use portus_window.Media.Ranges.{
  max_media_response_bytes, suffix_range, range_end, check_order, start_range, split_range,
  checked_range, parse_range, saturating_add, cap_range,
}

-- Inside the file.
abbrev pub IsWithin : ℕ → ℕ × ℕ → Type 0
IsWithin total (start, end) = (start ≤ end) × (end < total)

suffix_range-IsWithin :
    (total : ℕ) (o : Option ℕ) (r : ℕ × ℕ)
    → 0 < total
    → suffix_range total o ≡ some r
    → IsWithin total r
unfolding suffix_range
suffix_range-IsWithin total none r h e = absurd cc
suffix_range-IsWithin total (some n) r h e = ground arith

range_end-below :
    (total : ℕ) (t : Text) (n : ℕ) → 0 < total → range_end total t ≡ some n → n < total
unfolding range_end
range_end-below total t n h e = ground arith

check_order-IsWithin :
    (total start : ℕ) (o : Option ℕ) (r : ℕ × ℕ)
    → ((n : ℕ) → o ≡ some n → n < total)
    → check_order start o ≡ some r
    → IsWithin total r
unfolding check_order
check_order-IsWithin total start none r h e = absurd cc
check_order-IsWithin total start (some n) r h e = let k = h n refl in ground arith

start_range-IsWithin :
    (total : ℕ) (o : Option ℕ) (t : Text) (r : ℕ × ℕ)
    → 0 < total
    → start_range total o t ≡ some r
    → IsWithin total r
unfolding start_range
start_range-IsWithin total none t r h e = absurd cc
start_range-IsWithin total (some s) t r h e = elim (Bool-cases (leb total s)) [
  | inl far ↦ absurd (no_range (rw far at e))
  | inr near ↦
      check_order-IsWithin total s (range_end total t) r (λ n q. range_end-below total t n h q)
        (rw near at e)
]
  where
    no_range : ◌≡◌ {A = Option (ℕ × ℕ)} none (some r) → ⊥
    no_range q = cc

split_range-IsWithin :
    (total : ℕ) (o : Option (Text × Text)) (r : ℕ × ℕ)
    → 0 < total
    → split_range total o ≡ some r
    → IsWithin total r
unfolding split_range
split_range-IsWithin total none r h e = absurd cc
split_range-IsWithin total (some (s, t)) r h e = elim (Bool-cases (is_empty s)) [
  | inl nothing ↦ suffix_range-IsWithin total (parse_u64 t) r h (rw nothing at e)
  | inr given ↦ start_range-IsWithin total (parse_u64 s) t r h (rw given at e)
]

checked_range-IsWithin :
    (total : ℕ) (o : Option Text) (r : ℕ × ℕ) → checked_range total o ≡ some r → IsWithin total r
unfolding checked_range
checked_range-IsWithin total none r e = absurd cc
checked_range-IsWithin total (some v) r e =
    elim (Bool-cases (contains v (text ",") || total == 0)) [
      | inl bad ↦ absurd (no_range (rw bad at e))
      | inr good ↦ split_range-IsWithin total (split_once b'-' v) r (some_bytes good) (rw good at e)
    ]
  where
    no_range : ◌≡◌ {A = Option (ℕ × ℕ)} none (some r) → ⊥
    no_range q = cc

    some_bytes : contains v (text ",") || total == 0 ≡ false → 0 < total
    some_bytes q = ground arith

-- A range that is accepted lies within the file and is not empty.
pub parse_range-IsWithin :
    (value : Text) (total : ℕ) (r : ℕ × ℕ) → parse_range value total ≡ some r → IsWithin total r
unfolding parse_range
parse_range-IsWithin value total r h =
    checked_range-IsWithin total (strip_prefix value (text "bytes=")) r h

-- The last bytes, a positive number of them.
abbrev IsSuffix : ℕ → Text → ℕ × ℕ → Type 0
IsSuffix total count (start, end) =
    (n : ℕ) × (parse_u64 count ≡ some n) × (0 < n) × (start ≡ total - n) × (end ≡ total - 1)

-- From a byte of the file to one that is given, or to the last.
abbrev IsSpan : ℕ → Text → Text → ℕ × ℕ → Type 0
IsSpan total from to (start, end) =
    (parse_u64 from ≡ some start)
    × (start < total)
    × (((is_empty to ≡ true) × (end ≡ total - 1))
        ⊎ ((n : ℕ) × (is_empty to ≡ false) × (parse_u64 to ≡ some n) × (end ≡ min n (total - 1))))

-- The bytes that a header asks for: `bytes=-count` or `bytes=from-to`, and no list of ranges.
abbrev pub IsAsked : Text → ℕ → ℕ × ℕ → Type 0
IsAsked value total r =
    (spec : Text) × (from : Text) × (to : Text) × (strip_prefix value (text "bytes=") ≡ some spec)
    × (contains spec (text ",") ≡ false)
    × (split_once b'-' spec ≡ some (from, to))
    × (((is_empty from ≡ true) × IsSuffix total to r)
        ⊎ ((is_empty from ≡ false) × IsSpan total from to r))

suffix_range-IsSuffix :
    (total : ℕ) (count : Text) (r : ℕ × ℕ)
    → suffix_range total (parse_u64 count) ≡ some r
    → IsSuffix total count r
unfolding suffix_range
suffix_range-IsSuffix total count r e = elim (Option-cases (parse_u64 count)) [
  | inl none_read ↦ absurd (no_range (rw none_read at e))
  | inr (n, q) ↦ let h = rw q at e in (n, q, ground arith, ground arith, ground arith)
]
  where
    no_range : ◌≡◌ {A = Option (ℕ × ℕ)} none (some r) → ⊥
    no_range q = cc

range_end-cases :
    (total : ℕ) (to : Text) (end : ℕ)
    → range_end total to ≡ some end
    → ((is_empty to ≡ true) × (end ≡ total - 1))
      ⊎ ((n : ℕ) × (is_empty to ≡ false) × (parse_u64 to ≡ some n) × (end ≡ min n (total - 1)))
unfolding range_end
range_end-cases total to end e = ground arith

start_range-IsSpan :
    (total : ℕ) (from to : Text) (r : ℕ × ℕ)
    → start_range total (parse_u64 from) to ≡ some r
    → IsSpan total from to r
unfolding start_range check_order
start_range-IsSpan total from to r e = elim (Option-cases (parse_u64 from)) [
  | inl q ↦ absurd (no_range (rw q at e))
  | inr (s, q) ↦ elim (Option-cases (range_end total to)) [
    | inl q' ↦ let h = rw (q, q') at e in ground arith
    | inr (n, q') ↦
        let shape = range_end-cases total to n q' in
        let h = rw (q, q') at e in
        let (start, end, near) = in_order s n h in (q ∙ ap some (sym start), near, rw end shape)
  ]
]
  where
    no_range : ◌≡◌ {A = Option (ℕ × ℕ)} none (some r) → ⊥
    no_range q = cc

    in_order :
        (s n : ℕ)
        → (if leb total s then none else if ltb n s then none else some (s, n)) ≡ some r
        → (r.0 ≡ s) × (r.1 ≡ n) × (r.0 < total)
    in_order s n h = ground arith

split_range-asked :
    (total : ℕ) (from to : Text) (r : ℕ × ℕ)
    → split_range total (some (from, to)) ≡ some r
    → ((is_empty from ≡ true) × IsSuffix total to r)
      ⊎ ((is_empty from ≡ false) × IsSpan total from to r)
unfolding split_range
split_range-asked total from to r e = elim (Bool-cases (is_empty from)) [
  | inl nothing ↦ inl (nothing, suffix_range-IsSuffix total to r (rw nothing at e))
  | inr given ↦ inr (given, start_range-IsSpan total from to r (rw given at e))
]

-- A range is accepted as the header asks for it.
pub parse_range-IsAsked :
    (value : Text) (total : ℕ) (r : ℕ × ℕ)
    → parse_range value total ≡ some r
    → IsAsked value total r
unfolding parse_range checked_range split_range
parse_range-IsAsked value total r h = elim (Option-cases (strip_prefix value (text "bytes="))) [
  | inl q ↦ absurd (no_range (rw q at h))
  | inr (spec, q) ↦ elim (Bool-cases (contains spec (text ",") || total == 0)) [
    | inl bad ↦ absurd (no_range (rw (q, bad) at h))
    | inr good ↦ elim (Option-cases (split_once b'-' spec)) [
      | inl none_found ↦ absurd (no_range (rw (q, good, none_found) at h))
      | inr ((from, to), found) ↦ (
        spec,
        from,
        to,
        q,
        ground arith,
        found,
        split_range-asked total from to r (rw (q, good, found) at h),
      )
    ]
  ]
]
  where
    no_range : ◌≡◌ {A = Option (ℕ × ℕ)} none (some r) → ⊥
    no_range q = cc

-- What is served of it: from the same start, at most 8 MiB, and still within the file.
pub cap_range-IsWithin :
    (total start end : ℕ)
    → total < 2 ^ 64
    → IsWithin total (start, end)
    → let (s, e) = cap_range start end in
      (s ≡ start) × IsWithin total (s, e) × (e ≤ end) × (e - s + 1 ≤ max_media_response_bytes)
unfolding cap_range saturating_add
cap_range-IsWithin total start end small h =
    (refl, (omega arith, omega arith), omega arith, omega arith)
