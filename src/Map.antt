-- ===== src/Map.antt =====
-- `std::unordered_map` and `std::unordered_set` with string keys (the aliases `string_map`,
-- `list_map`, `set_map`, `hash_map`, `expiry_map` of socketley/runtime/cache/cache_store.h). A map is
-- the list of its entries in iteration order; a set is a map to the one-element type. The standard
-- leaves the iteration order open: a new entry is put in front here.
pub mod Laws
pub mod Footprint
use socketley.Prelude.{
  ℕ, ◌+◌, ◌≡◌, Bool, true, false, Option, none, some, List, [], ◌∷◌, Bytes, beq, length, is_some,
  if◌then◌else◌,
}

abbrev pub Map {ℓ} : Type ℓ → Type ℓ
Map V = List (Bytes × V)

module _ {ℓ} {V : Type ℓ} where
  -- `m.find(key)`
  unfoldable pub find : Bytes → Map V → Option V
  find key [] = none
  find key ((k, v) ∷ m) = if beq k key then some v else find key m

  -- `m.erase(key)`
  unfoldable pub erase : Bytes → Map V → Map V
  erase key [] = []
  erase key ((k, v) ∷ m) = let rest = erase key m in if beq k key then rest else (k, v) ∷ rest

  -- `it->second = value` at an entry that is there
  unfoldable pub assign : Bytes → V → Map V → Map V
  assign key value [] = []
  assign key value ((k, v) ∷ m) = if beq k key then (k, value) ∷ m else (k, v) ∷ assign key value m

  -- `m.emplace(key, value)` of a key that is not there
  abbrev pub emplace : Bytes → V → Map V → Map V
  emplace key value m = (key, value) ∷ m

  -- `m.count(key)`
  abbrev pub contains : Bytes → Map V → Bool
  contains key m = is_some (find key m)

  -- `m[key] = value`
  unfoldable pub insert_or_assign : Bytes → V → Map V → Map V
  insert_or_assign key value m = if contains key m then assign key value m else emplace key value m

  -- `m.empty()`
  abbrev pub is_empty : Map V → Bool
  is_empty [] = true
  is_empty (e ∷ m) = false

  -- No key occurs twice, which the containers of the standard library guarantee.
  abbrev pub Distinct : Map V → Type ℓ
  Distinct [] = Unit
  Distinct ((k, v) ∷ m) = (find k m ≡ none) × Distinct m

  -- The sum of a measure over the entries: the accumulating loops over a container.
  unfoldable pub total : (Bytes → V → ℕ) → Map V → ℕ
  total f [] = 0
  total f ((k, v) ∷ m) = f k v + total f m
