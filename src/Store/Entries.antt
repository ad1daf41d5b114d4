-- ===== src/Store/Entries.antt =====
-- A JavaScript `Map` with string keys: its entries in insertion order. `set` on a key that is
-- there replaces the value in place.
use kyc.Common.{
  String, ◌≡◌, refl, Option, none, some, List, [], ◌∷◌, arith, ◌==◌, eq_iff, if◌then◌else◌,
}

abbrev pub Map : Type 0 → Type 0
Map V = List (String × V)

module _ {V : Type 0} where
  unfoldable pub lookup : String → Map V → Option V
  lookup key [] = none
  lookup key ((k, v) ∷ m) = if k == key then some v else lookup key m

  unfoldable pub insert : String → V → Map V → Map V
  insert key v [] = (key, v) ∷ []
  insert key v ((k, w) ∷ m) = if k == key then (k, v) ∷ m else (k, w) ∷ insert key v m

  -- `[...m.values()]`
  unfoldable pub values : Map V → List V
  values [] = []
  values ((k, v) ∷ m) = v ∷ values m

  pub lookup-insert :
      (key k : String) (v : V) (m : Map V)
      → lookup k (insert key v m) ≡ (if key == k then some v else lookup k m)
  unfolding lookup insert
  lookup-insert key k v [] = refl
  lookup-insert key k v ((j, w) ∷ m) =
      ground (arith, eq_iff key k, eq_iff j key, eq_iff j k, lookup-insert key k v m)
