-- ===== src/Base/OrdMap.antt =====
-- Rust's `BTreeMap`, as the list of its entries in the order of their keys.
pub mod Laws
pub mod Entries
pub mod Retained
use portus_window.Base.{
  ◌≡◌, Bool, true, false, Option, none, some, List, [], ◌∷◌, map, if◌then◌else◌, is_some, Text,
  text_eq, text_eq_refl, text_eq-eq, text_lt, text_lt_irrefl, text_lt_trans, text_lt_total,
}

-- A type of keys with its `Eq` and `Ord`.
pub record Key {ℓ} (K : Type ℓ) : Type ℓ where
  pub eq : K → K → Bool
  pub lt : K → K → Bool
  pub eq_refl : (a : K) → eq a a ≡ true
  pub eq-eq : (a b : K) → eq a b ≡ true → a ≡ b
  pub lt_irrefl : (a : K) → lt a a ≡ false
  pub lt_trans : (a b c : K) → lt a b ≡ true → lt b c ≡ true → lt a c ≡ true
  pub lt_total : (a b : K) → eq a b ≡ false → lt a b ≡ false → lt b a ≡ true

instance abbrev pub text_key : Key Text
text_key = record {
  eq = text_eq;
  lt = text_lt;
  eq_refl = text_eq_refl;
  eq-eq = text_eq-eq;
  lt_irrefl = text_lt_irrefl;
  lt_trans = text_lt_trans;
  lt_total = text_lt_total;
}

abbrev pub OrdMap {ℓ κ} : Type ℓ → Type κ → Type (ℓ ⊔ κ)
OrdMap K V = List (K × V)

module _ {ℓ κ} {K : Type ℓ} {V : Type κ} ⦃o : Key K⦄ where
  unfoldable pub get : K → OrdMap K V → Option V
  get k [] = none
  get k ((j, v) ∷ m) = if o.eq j k then some v else get k m

  unfoldable pub contains_key : K → OrdMap K V → Bool
  unfolding get
  contains_key k m = is_some (get k m)

  unfoldable pub insert : K → V → OrdMap K V → OrdMap K V
  insert k v [] = (k, v) ∷ []
  insert k v ((j, w) ∷ m) =
      if o.eq j k
      then (k, v) ∷ m
      else if o.lt k j
      then (k, v) ∷ (j, w) ∷ m
      else (j, w) ∷ insert k v m

  unfoldable pub remove : K → OrdMap K V → OrdMap K V
  remove k [] = []
  remove k ((j, w) ∷ m) = let rest = remove k m in if o.eq j k then rest else (j, w) ∷ rest

  -- A change through `get_mut`.
  unfoldable pub modify : K → (V → V) → OrdMap K V → OrdMap K V
  modify k f [] = []
  modify k f ((j, w) ∷ m) =
      let rest = modify k f m in if o.eq j k then (j, f w) ∷ rest else (j, w) ∷ rest

unfoldable pub values {ℓ κ} : {K : Type ℓ} {V : Type κ} → OrdMap K V → List V
values m = map (λ e. e.1) m
