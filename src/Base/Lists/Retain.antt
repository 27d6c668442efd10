-- ===== src/Base/Lists/Retain.antt =====
-- What `retain` keeps.
use mathlib.Core.Path.{◌≡◌, refl}
use mathlib.Core.Bool.{Bool, true, false}
use mathlib.Core.Logic.{◌⊎◌, inl, inr}
use mathlib.Core.List.{List, [], ◌∷◌, Memᴰ}
use portus_window.Base.Tests.{Bool-cases}
use portus_window.Base.Lists.Sort.{All, Pairwise, All-map}

-- A list after `retain`, or the items that a filtered iterator yields.
unfoldable pub retain {ℓ} : {A : Type ℓ} → (A → Bool) → List A → List A
retain p [] = []
retain p (x ∷ xs) = let rest = retain p xs in elim (p x) [ true ↦ x ∷ rest | false ↦ rest ]

module _ {ℓ} {A : Type ℓ} (p : A → Bool) where
  retain-cases :
      (x : A) (xs : List A)
      → ((p x ≡ true) × (retain p (x ∷ xs) ≡ x ∷ retain p xs))
        ⊎ ((p x ≡ false) × (retain p (x ∷ xs) ≡ retain p xs))
  unfolding retain
  retain-cases x xs = elim (Bool-cases (p x)) [
    | inl e ↦ inl (e, rw (e, retain))
    | inr e ↦ inr (e, rw (e, retain))
  ]

  pub retain_nil : retain p [] ≡ []
  unfolding retain
  retain_nil = refl

  pub retain_taken : (x : A) (xs : List A) → p x ≡ true → retain p (x ∷ xs) ≡ x ∷ retain p xs
  unfolding retain
  retain_taken x xs e = rw (e, retain)

  pub retain_dropped : (x : A) (xs : List A) → p x ≡ false → retain p (x ∷ xs) ≡ retain p xs
  unfolding retain
  retain_dropped x xs e = rw (e, retain)

  pub retain-All {κ} : (P : A → Type κ) (xs : List A) → All P xs → All P (retain p xs)
  retain-All P [] h = unfold retain in tt
  retain-All P (x ∷ xs) h = elim (retain-cases x xs) [
    | inl (_, e) ↦ rw e (h.0, retain-All P xs h.1)
    | inr (_, e) ↦ rw e (retain-All P xs h.1)
  ]

  pub retain-Pairwise {κ} :
      (R : A → A → Type κ) (xs : List A) → Pairwise R xs → Pairwise R (retain p xs)
  retain-Pairwise R [] h = unfold retain in tt
  retain-Pairwise R (x ∷ xs) h = elim (retain-cases x xs) [
    | inl (_, e) ↦ rw e (retain-All (R x) xs h.0, retain-Pairwise R xs h.1)
    | inr (_, e) ↦ rw e (retain-Pairwise R xs h.1)
  ]

  -- A predicate of what is kept, as one of all items.
  pub All-retain {κ} :
      (P : A → Type κ) (xs : List A) → All P (retain p xs) → All (λ x. p x ≡ true → P x) xs
  All-retain P [] h = tt
  All-retain P (x ∷ xs) h = elim (retain-cases x xs) [
    | inl (_, e) ↦ let k = (rw e at h) in (λ _. k.0, All-retain P xs k.1)
    | inr (no_match, e) ↦ (λ t. absurd (ground_false x no_match t), All-retain P xs (rw e at h))
  ]
    where
      ground_false : (y : A) → p y ≡ false → p y ≡ true → ⊥
      ground_false y f t = cc

  -- Each item that is kept is one of the list, and passes the test.
  pub retain-Mem : (xs : List A) → All (λ x. Memᴰ x xs × (p x ≡ true)) (retain p xs)
  retain-Mem [] = unfold retain in tt
  retain-Mem (y ∷ ys) =
      let rest = All-map (λ x h. (Memᴰ.tail h.0, h.1)) (retain p ys) (retain-Mem ys) in
      elim (retain-cases y ys) [
        | inl (t, e) ↦ rw e ((Memᴰ.head refl, t), rest)
        | inr (_, e) ↦ rw e rest
      ]
