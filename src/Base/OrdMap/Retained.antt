-- ===== src/Base/OrdMap/Retained.antt =====
-- What `get` returns after a `retain` on the entries.
use portus_window.Base.{
  ◌≡◌, refl, Bool, true, Option, none, some, [], ◌∷◌, arith, if◌then◌else◌, All, retain,
  retain-Pairwise,
}
use portus_window.Base.OrdMap.{Key, OrdMap, get}
use portus_window.Base.OrdMap.Entries.{IsOrdered}

module _ {ℓ κ} {K : Type ℓ} {V : Type κ} ⦃o : Key K⦄ where
  pub get_above : (k : K) (m : OrdMap K V) → All (λ e. o.lt k e.0 ≡ true) m → get k m ≡ none
  unfolding get
  get_above k [] h = refl
  get_above k ((j, v) ∷ m) h = ground (arith, get_above k m h.1, o.eq-eq j k, o.lt_irrefl k)

  -- A value that is kept if it passes the test.
  abbrev pub if_kept : (K × V → Bool) → K → Option V → Option V
  if_kept p k none = none
  if_kept p k (some v) = if p (k, v) then some v else none

  pub retain-IsOrdered : (p : K × V → Bool) (m : OrdMap K V) → IsOrdered m → IsOrdered (retain p m)
  retain-IsOrdered p m h = retain-Pairwise p _ m h

  pub get-retain :
      (p : K × V → Bool) (k : K) (m : OrdMap K V)
      → IsOrdered m
      → get k (retain p m) ≡ if_kept p k (get k m)
  unfolding get retain
  get-retain p k [] h = refl
  get-retain p k ((j, v) ∷ m) h =
      ground (arith, get-retain p k m h.1, o.eq-eq j k, above k j m h.0, o.eq_refl k)
    where
      above :
          (k j : K) (m : OrdMap K V)
          → All (λ e. o.lt j e.0 ≡ true) m
          → o.eq j k ≡ true
          → get k m ≡ none
      above k j m a e = let q = o.eq-eq j k e in get_above k m (rw q at a)
