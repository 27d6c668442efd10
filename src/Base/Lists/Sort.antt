-- ===== src/Base/Lists/Sort.antt =====
-- Predicates by recursion on a list, and a stable sort by a key, largest first, as Rust's
-- `sort_by_key(|x| Reverse(key(x)))` makes it.
use Prim.Native.Nat.{ℕ, ◌≤◌, compare, Ordering}
use mathlib.Core.Path.{◌≡◌, refl, sym, subst}
use mathlib.Core.Logic.{◌⊎◌, inl, inr}
use mathlib.Core.List.{List, [], ◌∷◌, map, Memᴰ, Perm}
use mathlib.Core.List.Perm
use native.Mathlib.Nat.{le_trans}
use native.Mathlib.Omega.{arith}

module _ {ℓ} {A : Type ℓ} where
  abbrev pub All {κ} : (A → Type κ) → List A → Type κ
  All P [] = Unit
  All P (x ∷ xs) = P x × All P xs

  abbrev pub Pairwise {κ} : (A → A → Type κ) → List A → Type κ
  Pairwise R [] = Unit
  Pairwise R (x ∷ xs) = All (R x) xs × Pairwise R xs

module _ {ℓ κ μ} {A : Type ℓ} {P : A → Type κ} {Q : A → Type μ} (f : (x : A) → P x → Q x) where
  pub All-map : (xs : List A) → All P xs → All Q xs
  All-map [] h = tt
  All-map (x ∷ xs) h = (f x h.0, All-map xs h.1)

module _ {ℓ κ} {A : Type ℓ} {B : Type κ} (f : A → B) where
  pub map-All {μ ν} :
      (P : A → Type μ) (Q : B → Type ν)
      → ((a : A) → P a → Q (f a))
      → (xs : List A) → All P xs
      → All Q (map f xs)
  map-All P Q step [] h = tt
  map-All P Q step (x ∷ xs) h = (step x h.0, map-All P Q step xs h.1)

  pub map-Pairwise {μ ν} :
      (R : A → A → Type μ) (S : B → B → Type ν)
      → ((a b : A) → R a b → S (f a) (f b))
      → (xs : List A) → Pairwise R xs
      → Pairwise S (map f xs)
  map-Pairwise R S step [] h = tt
  map-Pairwise R S step (x ∷ xs) h =
      (map-All (R x) (S (f x)) (step x) xs h.0, map-Pairwise R S step xs h.1)

module _ {ℓ} {A : Type ℓ} where
  pub All-Mem : (xs : List A) → All (λ x. Memᴰ x xs) xs
  All-Mem [] = tt
  All-Mem (x ∷ xs) = (Memᴰ.head refl, All-map (λ y h. Memᴰ.tail h) xs (All-Mem xs))

  pub All-at {κ} : (P : A → Type κ) {a : A} {xs : List A} → Memᴰ a xs → All P xs → P a
  All-at P (Memᴰ.head e) h = subst P (sym e) h.0
  All-at P (Memᴰ.tail m) h = All-at P m h.1

  -- Before the first item whose key is not larger.
  insert_desc : (A → ℕ) → A → List A → List A
  insert_desc key x [] = x ∷ []
  insert_desc key x (y ∷ ys) = elim (compare (key y) (key x)) [
    | Ordering.gt ↦ y ∷ insert_desc key x ys
    | _ ↦ x ∷ y ∷ ys
  ]

  unfoldable pub sort_desc : (A → ℕ) → List A → List A
  unfolding insert_desc
  sort_desc key [] = []
  sort_desc key (x ∷ xs) = insert_desc key x (sort_desc key xs)

  -- What the walk of `insert_desc` makes of its list, one step.
  insert_desc-cases :
      (key : A → ℕ) (x y : A) (ys : List A)
      → ((insert_desc key x (y ∷ ys) ≡ y ∷ insert_desc key x ys) × (key x ≤ key y))
        ⊎ ((insert_desc key x (y ∷ ys) ≡ x ∷ y ∷ ys) × (key y ≤ key x))
  unfolding insert_desc
  insert_desc-cases key x y ys = ground arith

  module _ (key : A → ℕ) where
    insert_desc-All {κ} :
        (P : A → Type κ) (x : A) (ys : List A) → P x → All P ys → All P (insert_desc key x ys)
    insert_desc-All P x [] px h = unfold insert_desc in (px, tt)
    insert_desc-All P x (y ∷ ys) px h = elim (insert_desc-cases key x y ys) [
      | inl (e, _) ↦ rw e (h.0, insert_desc-All P x ys px h.1)
      | inr (e, _) ↦ rw e (px, h)
    ]

    pub sort_desc-All {κ} : (P : A → Type κ) (xs : List A) → All P xs → All P (sort_desc key xs)
    unfolding sort_desc
    sort_desc-All P [] h = tt
    sort_desc-All P (x ∷ xs) h = insert_desc-All P x (sort_desc key xs) h.0 (sort_desc-All P xs h.1)

    All-insert_desc {κ} :
        (P : A → Type κ) (x : A) (ys : List A) → All P (insert_desc key x ys) → P x × All P ys
    All-insert_desc P x [] h = unfold insert_desc in h
    All-insert_desc P x (y ∷ ys) h = elim (insert_desc-cases key x y ys) [
      | inl (e, _) ↦ let k = (rw e at h) in let r = All-insert_desc P x ys k.1 in (r.0, (k.0, r.1))
      | inr (e, _) ↦ rw e at h
    ]

    pub All-sort_desc {κ} : (P : A → Type κ) (xs : List A) → All P (sort_desc key xs) → All P xs
    All-sort_desc P [] h = tt
    All-sort_desc P (x ∷ xs) h =
        let r = All-insert_desc P x (sort_desc key xs) (unfold sort_desc in h) in
        (r.0, All-sort_desc P xs r.1)

    -- A symmetric relation on the places of a list does not see its order.
    insert_desc-Pairwise {κ} :
        (R : A → A → Type κ)
        → ((a b : A) → R a b → R b a)
        → (x : A) (ys : List A) → All (R x) ys
        → Pairwise R ys
        → Pairwise R (insert_desc key x ys)
    insert_desc-Pairwise R symm x [] h p = unfold insert_desc in (tt, tt)
    insert_desc-Pairwise R symm x (y ∷ ys) h p = elim (insert_desc-cases key x y ys) [
      | inl (e, _) ↦
          rw e (
            insert_desc-All (R y) x ys (symm x y h.0) p.0,
            insert_desc-Pairwise R symm x ys h.1 p.1,
          )
      | inr (e, _) ↦ rw e (h, p)
    ]

    pub sort_desc-Pairwise {κ} :
        (R : A → A → Type κ)
        → ((a b : A) → R a b → R b a)
        → (xs : List A) → Pairwise R xs
        → Pairwise R (sort_desc key xs)
    unfolding sort_desc
    sort_desc-Pairwise R symm [] p = tt
    sort_desc-Pairwise R symm (x ∷ xs) p =
        insert_desc-Pairwise R symm x (sort_desc key xs) (sort_desc-All (R x) xs p.0)
          (sort_desc-Pairwise R symm xs p.1)

    abbrev pub IsDesc : List A → Type 0
    IsDesc = Pairwise λ a b. key b ≤ key a

    insert_desc-IsDesc : (x : A) (ys : List A) → IsDesc ys → IsDesc (insert_desc key x ys)
    insert_desc-IsDesc x [] p = unfold insert_desc in (tt, tt)
    insert_desc-IsDesc x (y ∷ ys) p = elim (insert_desc-cases key x y ys) [
      | inl (e, le) ↦
          rw e (insert_desc-All (λ b. key b ≤ key y) x ys le p.0, insert_desc-IsDesc x ys p.1)
      | inr (e, le) ↦ rw e ((le, All-map (λ b h. le_trans h le) ys p.0), p)
    ]

    pub sort_desc-IsDesc : (xs : List A) → IsDesc (sort_desc key xs)
    unfolding sort_desc
    sort_desc-IsDesc [] = tt
    sort_desc-IsDesc (x ∷ xs) = insert_desc-IsDesc x (sort_desc key xs) (sort_desc-IsDesc xs)

    insert_desc-perm : (x : A) (ys : List A) → Perm (insert_desc key x ys) (x ∷ ys)
    insert_desc-perm x [] = unfold insert_desc in Perm.rfl
    insert_desc-perm x (y ∷ ys) = elim (insert_desc-cases key x y ys) [
      | inl (e, _) ↦ rw e (Perm.trans (Perm.cons y (insert_desc-perm x ys)) (Perm.swap x y ys))
      | inr (e, _) ↦ rw e Perm.rfl
    ]

    pub sort_desc-perm : (xs : List A) → Perm (sort_desc key xs) xs
    unfolding sort_desc
    sort_desc-perm [] = Perm.rfl
    sort_desc-perm (x ∷ xs) =
        Perm.trans (insert_desc-perm x (sort_desc key xs)) (Perm.cons x (sort_desc-perm xs))
