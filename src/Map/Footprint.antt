-- ===== src/Map/Footprint.antt =====
-- How the sum of a measure over the entries changes with each operation.
use socketley.Prelude.{ℕ, ◌+◌, ◌≡◌, refl, none, some, [], ◌∷◌, arith, Bytes, beq_iff}
use socketley.Map.{Map, find, erase, assign, Distinct, total}

module _ {ℓ} {V : Type ℓ} (f : Bytes → V → ℕ) where
  pub total-erase_absent :
      (k : Bytes) (m : Map V) → find k m ≡ none → total f (erase k m) ≡ total f m
  unfolding find erase total
  total-erase_absent k [] h = refl
  total-erase_absent k ((i, v) ∷ m) h = ground (arith, total-erase_absent k m)

  pub total-erase :
      (k : Bytes) (v : V) (m : Map V)
      → Distinct m
      → find k m ≡ some v
      → total f (erase k m) + f k v ≡ total f m
  unfolding find erase total
  total-erase k v [] d h = ground arith
  total-erase k v ((i, w) ∷ m) d h =
      ground (arith, total-erase k v m d.1, total-erase_absent k m, beq_iff i k)

  pub total-assign :
      (k : Bytes) (v w : V) (m : Map V)
      → find k m ≡ some w
      → total f (assign k v m) + f k w ≡ total f m + f k v
  unfolding find assign total
  total-assign k v w [] h = ground arith
  total-assign k v w ((i, u) ∷ m) h = ground (arith, total-assign k v w m, beq_iff i k)
