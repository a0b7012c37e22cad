-- ===== src/Map/Laws.antt =====
-- What is found after each operation of a map, and that the operations keep the keys distinct.
use socketley.Prelude.{
  ◌≡◌, refl, true, ◌&&◌, none, some, [], ◌∷◌, arith, Bytes, beq, beq_iff, if◌then◌else◌,
}
use socketley.Map.{
  Map, find, erase, assign, emplace, contains, insert_or_assign, is_empty, Distinct,
}

module _ {ℓ} {V : Type ℓ} where
  pub find-erase :
      (k j : Bytes) (m : Map V) → find j (erase k m) ≡ (if beq k j then none else find j m)
  unfolding find erase
  find-erase k j [] = ground arith
  find-erase k j ((i, v) ∷ m) =
      ground (arith, find-erase k j m, beq_iff i k, beq_iff i j, beq_iff k j)

  pub find-assign :
      (k j : Bytes) (v : V) (m : Map V)
      → find j (assign k v m) ≡ (if beq k j && contains k m then some v else find j m)
  unfolding find assign
  find-assign k j v [] = ground arith
  find-assign k j v ((i, w) ∷ m) =
      ground (arith, find-assign k j v m, beq_iff i k, beq_iff i j, beq_iff k j)

  pub find-emplace :
      (k j : Bytes) (v : V) (m : Map V)
      → find j (emplace k v m) ≡ (if beq k j then some v else find j m)
  unfolding find
  find-emplace k j v m = refl

  pub find-insert_or_assign :
      (k j : Bytes) (v : V) (m : Map V)
      → find j (insert_or_assign k v m) ≡ (if beq k j then some v else find j m)
  unfolding insert_or_assign
  find-insert_or_assign k j v m = ground (arith, find-assign k j v m, find-emplace k j v m)

  pub erase-Distinct : (k : Bytes) (m : Map V) → Distinct m → Distinct (erase k m)
  unfolding erase
  erase-Distinct k [] d = d
  erase-Distinct k ((i, v) ∷ m) d = ground (arith, erase-Distinct k m d.1, find-erase k i m)

  pub assign-Distinct : (k : Bytes) (v : V) (m : Map V) → Distinct m → Distinct (assign k v m)
  unfolding assign
  assign-Distinct k v [] d = d
  assign-Distinct k v ((i, w) ∷ m) d =
      ground (arith, assign-Distinct k v m d.1, find-assign k i v m, beq_iff i k, beq_iff k i)

  pub emplace-Distinct :
      (k : Bytes) (v : V) (m : Map V) → find k m ≡ none → Distinct m → Distinct (emplace k v m)
  emplace-Distinct k v m h d = (h, d)

  pub insert_or_assign-Distinct :
      (k : Bytes) (v : V) (m : Map V) → Distinct m → Distinct (insert_or_assign k v m)
  unfolding insert_or_assign
  insert_or_assign-Distinct k v m d = ground (arith, assign-Distinct k v m d)

  -- A map whose `empty()` holds finds nothing.
  pub find_of_is_empty : (k : Bytes) (m : Map V) → is_empty m ≡ true → find k m ≡ none
  unfolding find
  find_of_is_empty k [] h = refl
  find_of_is_empty k (e ∷ m) h = ground arith
