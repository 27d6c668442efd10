-- ===== src/Media/Ranges.antt =====
-- The ranges of bytes of a request (`parse_range` and `cap_range`, portus-window/src/media.rs).
pub mod Laws
use portus_window.Base.{
  ℕ, ◌+◌, ◌-◌, ◌*◌, ◌^◌, Bool, true, false, ◌&&◌, ◌||◌, Option, none, some, List, [], ◌∷◌,
  if◌then◌else◌, ◌==◌, ltb, leb, Text, text, is_empty, contains, strip_prefix, split_once,
  parse_u64, read_digits,
}
use Prim.Native.Nat.{min}

abbrev pub max_media_response_bytes : ℕ
max_media_response_bytes = 8 * 1024 * 1024

-- The last bytes of the file.
unfoldable pub suffix_range : ℕ → Option ℕ → Option (ℕ × ℕ)
suffix_range total none = none
suffix_range total (some suffix) =
    if suffix == 0 then none else some (total - min suffix total, total - 1)

-- The end of a range, which is the file's unless it is given.
unfoldable pub range_end : ℕ → Text → Option ℕ
unfolding parse_u64
range_end total end =
    if is_empty end
    then some (total - 1)
    else elim (parse_u64 end) [ none ↦ none | some n ↦ some (min n (total - 1)) ]

unfoldable pub check_order : ℕ → Option ℕ → Option (ℕ × ℕ)
check_order start none = none
check_order start (some end) = if ltb end start then none else some (start, end)

unfoldable pub start_range : ℕ → Option ℕ → Text → Option (ℕ × ℕ)
unfolding range_end check_order
start_range total none end = none
start_range total (some start) end =
    if leb total start then none else check_order start (range_end total end)

unfoldable pub split_range : ℕ → Option (Text × Text) → Option (ℕ × ℕ)
unfolding suffix_range start_range
split_range total none = none
split_range total (some (start, end)) =
    if is_empty start
    then suffix_range total (parse_u64 end)
    else start_range total (parse_u64 start) end

unfoldable pub checked_range : ℕ → Option Text → Option (ℕ × ℕ)
unfolding split_range split_once
checked_range total none = none
checked_range total (some value) =
    if contains value (text ",") || total == 0
    then none
    else split_range total (split_once b'-' value)

-- The error of `parse_range` carries nothing. Where it subtracts, the total is not 0.
unfoldable pub parse_range : Text → ℕ → Option (ℕ × ℕ)
unfolding checked_range
parse_range value total = checked_range total (strip_prefix value (text "bytes="))

-- `saturating_add` on u64.
unfoldable pub saturating_add : ℕ → ℕ → ℕ
saturating_add a b = min (a + b) (2 ^ 64 - 1)

unfoldable pub cap_range : ℕ → ℕ → ℕ × ℕ
unfolding saturating_add
cap_range start requested_end =
    (start, min requested_end (saturating_add start (max_media_response_bytes - 1)))
