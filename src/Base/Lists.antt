-- ===== src/Base/Lists.antt =====
-- Lists measured by native numbers, predicates on them by recursion, and stable descending sorts.
mod Sort
mod Retain
unfoldable pub use Sort.*
unfoldable pub use Retain.*
use Prim.Native.Nat.{ℕ, zero, suc, ◌+◌, ◌-◌, ◌≤◌, ◌<◌, min}
use mathlib.Core.Path.{◌≡◌, refl, ap}
use mathlib.Core.Bool.{Bool, true, false}
use mathlib.Core.List.{List, [], ◌∷◌, ◌++◌, map}
use mathlib.Core.Option.{Option, none, some}
use native.Mathlib.Omega.{arith}

module _ {ℓ} {A : Type ℓ} where
  abbrev pub length : List A → ℕ
  length [] = 0
  length (x ∷ xs) = suc (length xs)

  abbrev pub take : ℕ → List A → List A
  take zero xs = []
  take (suc n) [] = []
  take (suc n) (x ∷ xs) = x ∷ take n xs

  abbrev pub get_elem? : ℕ → List A → Option A
  get_elem? n [] = none
  get_elem? zero (x ∷ xs) = some x
  get_elem? (suc n) (x ∷ xs) = get_elem? n xs

  abbrev pub drop : ℕ → List A → List A
  drop zero xs = xs
  drop (suc n) [] = []
  drop (suc n) (x ∷ xs) = drop n xs

  abbrev pub last : List A → Option A
  last [] = none
  last (x ∷ []) = some x
  last (x ∷ y ∷ ys) = last (y ∷ ys)

  pub length-append : (xs ys : List A) → length (xs ++ ys) ≡ length xs + length ys
  length-append [] ys = omega arith
  length-append (x ∷ xs) ys = omega (arith, length-append xs ys)

  pub length-take : (n : ℕ) (xs : List A) → length (take n xs) ≡ min n (length xs)
  length-take zero xs = omega arith
  length-take (suc n) [] = omega arith
  length-take (suc n) (x ∷ xs) = omega (arith, length-take n xs)

  pub length-drop : (n : ℕ) (xs : List A) → length (drop n xs) ≡ length xs - n
  length-drop zero xs = omega arith
  length-drop (suc n) [] = omega arith
  length-drop (suc n) (x ∷ xs) = omega (arith, length-drop n xs)

  pub take_all : (n : ℕ) (xs : List A) → length xs ≤ n → take n xs ≡ xs
  take_all zero [] h = refl
  take_all zero (x ∷ xs) h = absurd (omega arith)
  take_all (suc n) [] h = refl
  take_all (suc n) (x ∷ xs) h = ap (◌∷◌ x) (take_all n xs (omega arith))

  pub take-take : (n m : ℕ) (xs : List A) → n ≤ m → take n (take m xs) ≡ take n xs
  take-take zero m xs h = refl
  take-take (suc n) zero xs h = absurd (omega arith)
  take-take (suc n) (suc m) [] h = refl
  take-take (suc n) (suc m) (x ∷ xs) h = ap (◌∷◌ x) (take-take n m xs (omega arith))

  -- A prefix that is not full is all there is.
  pub length-take-le : (n m : ℕ) (xs : List A) → length (take m xs) ≤ n → n < m → length xs ≤ n
  length-take-le n zero xs h lt = absurd (omega arith)
  length-take-le n (suc m) [] h lt = h
  length-take-le zero (suc m) (x ∷ xs) h lt = absurd (omega arith)
  length-take-le (suc n) (suc m) (x ∷ xs) h lt =
      omega (arith, length-take-le n m xs (omega arith) (omega arith))

  pub get_elem?-take :
      (n m : ℕ) (xs : List A) (x : A) → get_elem? n (take m xs) ≡ some x → get_elem? n xs ≡ some x
  get_elem?-take n zero xs x h = absurd cc
  get_elem?-take n (suc m) [] x h = h
  get_elem?-take zero (suc m) (y ∷ xs) x h = h
  get_elem?-take (suc n) (suc m) (y ∷ xs) x h = get_elem?-take n m xs x h

  pub last-append : (xs : List A) (x : A) → last (xs ++ x ∷ []) ≡ some x
  last-append [] x = refl
  last-append (y ∷ []) x = refl
  last-append (y ∷ z ∷ xs) x = last-append (z ∷ xs) x

  -- The last item stays where at most the others are dropped.
  pub last-drop :
      (xs : List A) (x : A) (k : ℕ) → k ≤ length xs → last (drop k (xs ++ x ∷ [])) ≡ some x
  last-drop xs x zero h = last-append xs x
  last-drop [] x (suc k) h = absurd (omega arith)
  last-drop (y ∷ xs) x (suc k) h = last-drop xs x k (omega arith)

  pub drop-length : (xs ys : List A) → drop (length xs) (xs ++ ys) ≡ ys
  drop-length [] ys = refl
  drop-length (x ∷ xs) ys = drop-length xs ys

module _ {ℓ κ} {A : Type ℓ} {B : Type κ} (f : A → B) where
  pub length-map : (xs : List A) → length (map f xs) ≡ length xs
  length-map [] = refl
  length-map (x ∷ xs) = ap suc (length-map xs)
