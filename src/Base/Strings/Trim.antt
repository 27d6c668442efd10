-- ===== src/Base/Strings/Trim.antt =====
-- `str::trim`, over Unicode's White_Space.
use Prim.Native.Nat.{ℕ, ◌≤◌}
use mathlib.Core.Path.{◌≡◌, refl}
use mathlib.Core.Bool.{Bool, true, false, ◌&&◌, ◌||◌}
use mathlib.Core.List.{List, [], ◌∷◌}
use native.Mathlib.Omega.{arith}
use native.Mathlib.Nat.{le_trans}
use portus_window.Base.Tests.{◌==◌, leb, if◌then◌else◌, Bool-cases}
use portus_window.Base.Lists.{length}
use mathlib.Core.Logic.{◌⊎◌, inl, inr}

unfoldable pub is_whitespace : ℕ → Bool
is_whitespace c =
    (leb 9 c && leb c 13)
    || c == 0x20
    || c == 0x85
    || c == 0xa0
    || c == 0x1680
    || (leb 0x2000 c && leb c 0x200a)
    || c == 0x2028
    || c == 0x2029
    || c == 0x202f
    || c == 0x205f
    || c == 0x3000

abbrev pub is_empty {ℓ} : {A : Type ℓ} → List A → Bool
is_empty [] = true
is_empty (c ∷ s) = false

unfoldable pub trim_start : List ℕ → List ℕ
trim_start [] = []
trim_start (c ∷ s) = let rest = trim_start s in if is_whitespace c then rest else c ∷ s

unfoldable pub trim_end : List ℕ → List ℕ
trim_end [] = []
trim_end (c ∷ s) =
    let rest = trim_end s in if is_whitespace c && is_empty rest then [] else c ∷ rest

unfoldable pub trim : List ℕ → List ℕ
unfolding trim_start trim_end
trim s = trim_end (trim_start s)

trim_end_idem : (s : List ℕ) → trim_end (trim_end s) ≡ trim_end s
unfolding trim_end
trim_end_idem [] = refl
trim_end_idem (c ∷ s) = ground (arith, trim_end_idem s)

-- What `trim_start` leaves is empty or starts with a character that is no space.
trim_start-cases :
    (s : List ℕ)
    → (trim_start s ≡ [])
      ⊎ ((c : ℕ) × (r : List ℕ) × (trim_start s ≡ c ∷ r) × (is_whitespace c ≡ false))
unfolding trim_start
trim_start-cases [] = inl refl
trim_start-cases (c ∷ s) = elim (Bool-cases (is_whitespace c)) [
  | inl e ↦ rw e (trim_start-cases s)
  | inr e ↦ inr (c, s, rw e, e)
]

-- Trimming twice is trimming once.
pub trim_idem : (s : List ℕ) → trim (trim s) ≡ trim s
unfolding trim
trim_idem s = elim (trim_start-cases s) [
  | inl e ↦ rw e
  | inr (c, r, e, w) ↦ rw e (ground (arith, trim_end_idem r))
]

length-trim_start : (s : List ℕ) → length (trim_start s) ≤ length s
unfolding trim_start
length-trim_start [] = omega arith
length-trim_start (c ∷ s) = ground (arith, length-trim_start s)

length-trim_end : (s : List ℕ) → length (trim_end s) ≤ length s
unfolding trim_end
length-trim_end [] = omega arith
length-trim_end (c ∷ s) = ground (arith, length-trim_end s)

pub length-trim : (s : List ℕ) → length (trim s) ≤ length s
length-trim s = unfold trim in le_trans (length-trim_end (trim_start s)) (length-trim_start s)
