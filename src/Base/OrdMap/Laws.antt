-- ===== src/Base/OrdMap/Laws.antt =====
-- What `get` returns after a change of the map.
use mathlib.Core.Option
use portus_window.Base.{
  Option, ◌∙◌, sym, ◌⊎◌, inl, inr, false, Bool-cases, ◌≡◌, refl, none, some, [], ◌∷◌, map, arith,
  if◌then◌else◌,
}
use portus_window.Base.OrdMap.{Key, OrdMap, get, insert, remove, modify}

module _ {ℓ κ} {K : Type ℓ} {V : Type κ} ⦃o : Key K⦄ where
  pub get-insert :
      (k j : K) (v : V) (m : OrdMap K V)
      → get j (insert k v m) ≡ (if o.eq k j then some v else get j m)
  unfolding get insert
  get-insert k j v [] = refl
  get-insert k j v ((i, w) ∷ m) =
      ground
        (arith, get-insert k j v m, o.eq-eq i k, o.eq-eq k j, o.eq-eq i j, o.eq_refl k, o.eq_refl i)

  pub get-modify :
      (k j : K) (f : V → V) (m : OrdMap K V)
      → get j (modify k f m) ≡ (if o.eq k j then Option.map f (get j m) else get j m)
  unfolding get modify
  get-modify k j f [] = ground arith
  get-modify k j f ((i, w) ∷ m) =
      ground
        (arith, get-modify k j f m, o.eq-eq i k, o.eq-eq k j, o.eq-eq i j, o.eq_refl k, o.eq_refl i)

  pub get-remove :
      (k j : K) (m : OrdMap K V) → get j (remove k m) ≡ (if o.eq k j then none else get j m)
  unfolding get remove
  get-remove k j [] = ground arith
  get-remove k j ((i, w) ∷ m) =
      ground
        (arith, get-remove k j m, o.eq-eq i k, o.eq-eq k j, o.eq-eq i j, o.eq_refl k, o.eq_refl i)

  -- A change of all values.
  pub get-map :
      (f : V → V) (k : K) (m : OrdMap K V)
      → get k (map (λ e. (e.0, f e.1)) m) ≡ Option.map f (get k m)
  unfolding get
  get-map f k [] = refl
  get-map f k ((j, w) ∷ m) = ground (arith, get-map f k m)

  pub get-insert_same : (k : K) (v : V) (m : OrdMap K V) → get k (insert k v m) ≡ some v
  get-insert_same k v m = get-insert k k v m ∙ rw (o.eq_refl k) refl

  pub get-insert_other :
      (k j : K) (v : V) (m : OrdMap K V) → o.eq k j ≡ false → get j (insert k v m) ≡ get j m
  get-insert_other k j v m other = get-insert k j v m ∙ rw other refl

  -- Where an entry of a changed map comes from.
  pub get-insert-some :
      (k j : K) (v x : V) (m : OrdMap K V)
      → get j (insert k v m) ≡ some x
      → ((k ≡ j) × (v ≡ x)) ⊎ ((o.eq k j ≡ false) × (get j m ≡ some x))
  get-insert-some k j v x m h = elim (Bool-cases (o.eq k j)) [
    | inl same ↦
        let q : some v ≡ some x = (rw same at (sym (get-insert k j v m) ∙ h)) in
        inl (o.eq-eq k j same, cc)
    | inr other ↦ inr (other, rw other at (sym (get-insert k j v m) ∙ h))
  ]

  pub get-remove-some :
      (k j : K) (x : V) (m : OrdMap K V)
      → get j (remove k m) ≡ some x
      → (o.eq k j ≡ false) × (get j m ≡ some x)
  get-remove-some k j x m h = elim (Bool-cases (o.eq k j)) [
    | inl same ↦ let q : none ≡ some x = (rw same at (sym (get-remove k j m) ∙ h)) in absurd cc
    | inr other ↦ (other, rw other at (sym (get-remove k j m) ∙ h))
  ]

  pub get-remove_other :
      (k j : K) (m : OrdMap K V) → o.eq k j ≡ false → get j (remove k m) ≡ get j m
  get-remove_other k j m other = get-remove k j m ∙ rw other refl

  -- Where a value of a changed map comes from, and where one goes.
  pub get-modify-some :
      (k j : K) (f : V → V) (m : OrdMap K V) (x : V)
      → get j (modify k f m) ≡ some x
      → (v : V) × (get j m ≡ some v) × (((k ≡ j) × (x ≡ f v)) ⊎ ((o.eq k j ≡ false) × (x ≡ v)))
  get-modify-some k j f m x h = elim (Bool-cases (o.eq k j)) [
    | inl same ↦
        mapped (get j m) refl (o.eq-eq k j same) (rw same at (sym (get-modify k j f m) ∙ h))
    | inr other ↦ (x, rw other at (sym (get-modify k j f m) ∙ h), inr (other, refl))
  ]
    where
      mapped :
          (found : Option V)
          → get j m ≡ found
          → k ≡ j
          → Option.map f found ≡ some x
          → (v : V) × (get j m ≡ some v) × (((k ≡ j) × (x ≡ f v)) ⊎ ((o.eq k j ≡ false) × (x ≡ v)))
      mapped none e q p = absurd cc
      mapped (some v) e q p = (v, e, inl (q, cc))

  pub get-modify_there :
      (k j : K) (f : V → V) (m : OrdMap K V) (v : V)
      → get j m ≡ some v
      → (x : V) × (get j (modify k f m) ≡ some x)
        × (((k ≡ j) × (x ≡ f v)) ⊎ ((o.eq k j ≡ false) × (x ≡ v)))
  get-modify_there k j f m v e = elim (Bool-cases (o.eq k j)) [
    | inl same ↦ (f v, get-modify k j f m ∙ rw (same, e) refl, inl (o.eq-eq k j same, refl))
    | inr other ↦ (v, get-modify k j f m ∙ rw (other, e) refl, inr (other, refl))
  ]
