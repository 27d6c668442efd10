-- ===== src/Base/OrdMap/Entries.antt =====
-- Predicates that hold of every entry of a map, and the order of the keys.
use mathlib.Core.Path.{subst}
use portus_window.Base.{
  ◌≡◌, refl, ap, ◌⊎◌, inl, inr, true, some, [], ◌∷◌, arith, Bool-cases, All, Pairwise, All-map,
}
use portus_window.Base.OrdMap.{Key, OrdMap, get, insert, remove, modify}

module _ {ℓ κ} {K : Type ℓ} {V : Type κ} ⦃o : Key K⦄ where
  -- One step of each walk.
  pub insert-cases :
      (k : K) (v : V) (e : K × V) (m : OrdMap K V)
      → ((insert k v (e ∷ m) ≡ (k, v) ∷ m) × (e.0 ≡ k))
        ⊎ (((insert k v (e ∷ m) ≡ (k, v) ∷ e ∷ m) × (o.lt k e.0 ≡ true))
            ⊎ ((insert k v (e ∷ m) ≡ e ∷ insert k v m) × (o.lt e.0 k ≡ true)))
  unfolding insert
  insert-cases k v e m = elim (Bool-cases (o.eq e.0 k)) [
    | inl same ↦ inl (rw same, o.eq-eq e.0 k same)
    | inr other ↦ elim (Bool-cases (o.lt k e.0)) [
      | inl below ↦ inr (inl (rw (other, below), below))
      | inr above ↦
          inr
            (inr (rw (other, above), ground (arith, o.lt_total k e.0, o.eq-eq k e.0, o.eq_refl k)))
    ]
  ]

  pub remove-cases :
      (k : K) (e : K × V) (m : OrdMap K V)
      → (remove k (e ∷ m) ≡ remove k m) ⊎ (remove k (e ∷ m) ≡ e ∷ remove k m)
  unfolding remove
  remove-cases k e m = elim (Bool-cases (o.eq e.0 k)) [
    | inl same ↦ inl (rw same)
    | inr other ↦ inr (rw other)
  ]

  pub modify-cases :
      (k : K) (f : V → V) (e : K × V) (m : OrdMap K V)
      → ((modify k f (e ∷ m) ≡ (k, f e.1) ∷ modify k f m) × (e.0 ≡ k))
        ⊎ (modify k f (e ∷ m) ≡ e ∷ modify k f m)
  unfolding modify
  modify-cases k f e m = elim (Bool-cases (o.eq e.0 k)) [
    | inl same ↦ inl (ground (arith, o.eq-eq e.0 k same), o.eq-eq e.0 k same)
    | inr other ↦ inr (rw other)
  ]

  module _ {μ} (P : K × V → Type μ) where
    pub All-get : (k : K) (m : OrdMap K V) {v : V} → All P m → get k m ≡ some v → P (k, v)
    unfolding get
    All-get k [] h e = cc
    All-get k ((j, w) ∷ m) {v} h e = elim (Bool-cases (o.eq j k)) [
      | inl same ↦ let q : (j, w) ≡ (k, v) = ground (arith, o.eq-eq j k same) in subst P q h.0
      | inr other ↦ All-get k m h.1 (rw other at e)
    ]

    pub insert-All : (k : K) (v : V) (m : OrdMap K V) → P (k, v) → All P m → All P (insert k v m)
    insert-All k v [] p h = unfold insert in (p, tt)
    insert-All k v (e ∷ m) p h = elim (insert-cases k v e m) [
      | inl (q, _) ↦ rw q (p, h.1)
      | inr (inl (q, _)) ↦ rw q (p, h)
      | inr (inr (q, _)) ↦ rw q (h.0, insert-All k v m p h.1)
    ]

    pub remove-All : (k : K) (m : OrdMap K V) → All P m → All P (remove k m)
    remove-All k [] h = unfold remove in tt
    remove-All k (e ∷ m) h = elim (remove-cases k e m) [
      | inl q ↦ rw q (remove-All k m h.1)
      | inr q ↦ rw q (h.0, remove-All k m h.1)
    ]

    pub modify-All :
        (k : K) (f : V → V) (m : OrdMap K V)
        → ((v : V) → P (k, v) → P (k, f v))
        → All P m
        → All P (modify k f m)
    modify-All k f [] keep h = unfold modify in tt
    modify-All k f (e ∷ m) keep h = elim (modify-cases k f e m) [
      | inl (q, same) ↦ rw q (keep e.1 (rw same at h.0), modify-All k f m keep h.1)
      | inr q ↦ rw q (h.0, modify-All k f m keep h.1)
    ]

  abbrev pub IsOrdered : OrdMap K V → Type 0
  IsOrdered = Pairwise λ a b. o.lt a.0 b.0 ≡ true

  pub insert-IsOrdered : (k : K) (v : V) (m : OrdMap K V) → IsOrdered m → IsOrdered (insert k v m)
  insert-IsOrdered k v [] h = unfold insert in (tt, tt)
  insert-IsOrdered k v (e ∷ m) h = elim (insert-cases k v e m) [
    | inl (q, same) ↦ rw q (rw same at h.0, h.1)
    | inr (inl (q, below)) ↦
        rw q ((below, All-map (λ b lt. o.lt_trans k e.0 b.0 below lt) m h.0), h)
    | inr (inr (q, above)) ↦
        rw q (insert-All (λ b. o.lt e.0 b.0 ≡ true) k v m above h.0, insert-IsOrdered k v m h.1)
  ]

  pub remove-Pairwise {μ} :
      (R : K × V → K × V → Type μ) (k : K) (m : OrdMap K V) → Pairwise R m → Pairwise R (remove k m)
  remove-Pairwise R k [] h = unfold remove in tt
  remove-Pairwise R k (e ∷ m) h = elim (remove-cases k e m) [
    | inl q ↦ rw q (remove-Pairwise R k m h.1)
    | inr q ↦ rw q (remove-All (R e) k m h.0, remove-Pairwise R k m h.1)
  ]

  -- An entry that stands in a relation to any other may come in anywhere.
  pub insert-Pairwise {μ} :
      (R : K × V → K × V → Type μ) (k : K) (v : V) (m : OrdMap K V)
      → ((b : K × V) → R (k, v) b)
      → ((b : K × V) → R b (k, v))
      → Pairwise R m
      → Pairwise R (insert k v m)
  insert-Pairwise R k v [] before behind h = unfold insert in (tt, tt)
  insert-Pairwise R k v (e ∷ m) before behind h = elim (insert-cases k v e m) [
    | inl (q, _) ↦ rw q (All-map (λ b _. before b) m h.0, h.1)
    | inr (inl (q, _)) ↦ rw q ((before e, All-map (λ b _. before b) m h.0), h)
    | inr (inr (q, _)) ↦
        rw q (insert-All (R e) k v m (behind e) h.0, insert-Pairwise R k v m before behind h.1)
  ]

  pub modify-IsOrdered :
      (k : K) (f : V → V) (m : OrdMap K V) → IsOrdered m → IsOrdered (modify k f m)
  modify-IsOrdered k f [] h = unfold modify in tt
  modify-IsOrdered k f (e ∷ m) h = elim (modify-cases k f e m) [
    | inl (q, same) ↦ rw q (
      modify-All (λ b. o.lt k b.0 ≡ true) k f m (λ v lt. lt) (rw same at h.0),
      modify-IsOrdered k f m h.1,
    )
    | inr q ↦
        rw q
          (modify-All (λ b. o.lt e.0 b.0 ≡ true) k f m (λ v lt. lt) h.0, modify-IsOrdered k f m h.1)
  ]

  -- A key below all keys is not there to be changed.
  pub modify_below :
      (k : K) (f : V → V) (m : OrdMap K V) → All (λ e. o.lt k e.0 ≡ true) m → modify k f m ≡ m
  unfolding modify
  modify_below k f [] h = refl
  modify_below k f (e ∷ m) h = ground (arith, modify_below k f m h.1, o.eq-eq e.0 k, o.lt_irrefl k)

  -- Only the value that is there matters to a change.
  pub modify_same :
      (k : K) (f g : V → V) (m : OrdMap K V) {v : V}
      → IsOrdered m
      → get k m ≡ some v
      → f v ≡ g v
      → modify k f m ≡ modify k g m
  unfolding get modify
  modify_same k f g [] sorted h e = refl
  modify_same k f g (d ∷ m) {v} sorted h e = elim (Bool-cases (o.eq d.0 k)) [
    | inl same ↦
        let p = o.eq-eq d.0 k same in
        let below = (rw p at sorted.0) in
        ground (arith, modify_below k f m below, modify_below k g m below)
    | inr other ↦ rw other (ap (◌∷◌ d) (modify_same k f g m sorted.1 (rw other at h) e))
  ]
