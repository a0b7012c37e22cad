-- ===== src/Cache/Sets/Soundness.antt =====
-- The set operations keep every key sound.
use socketley.Prelude.{
  ℕ, ◌+◌, ◌≡◌, inl, inr, arith, true, false, some, [], Bytes, beq_iff, length, Option-cases,
  Bool-cases, is_some,
}
use socketley.Prelude.Int.{ℤ}
use socketley.Map.{find, emplace, erase}
use socketley.Cache.State.{Store, SetInner, has_type_conflict_for_set, track_sub}
use socketley.Cache.Slots.{slot, set-slot}
use socketley.Cache.Writes.{slot-track_sub, slot-keep_set}
use socketley.Cache.Eviction.{Rng, check_memory}
use socketley.Cache.Consistent.{
  IsSound, IsConsistent, Spared-check_memory, check_memory-IsConsistent,
}
use socketley.Cache.Soundness.{
  SetOnly-of_check, SetOnly-of_sound, write_set-IsSound, track_sub-IsConsistent,
}
use socketley.Cache.Sets.{sadd_into, sadd_existing, sadd, srem, write_set, keep_set}

module _ (key member : Bytes) (s : Store) (h : IsConsistent s) (j : Bytes) where
  sadd_into-IsSound :
      (members : SetInner)
      → find key s.m_sets ≡ some members
      → IsSound (slot j (sadd_into key member members s).1)
  unfolding sadd_into
  sadd_into-IsSound members found = ground (
    arith,
    h.at j,
    write_set-IsSound j key (length member) s (h.at j) (emplace member tt members)
        (λ e. ground arith) (SetOnly-of_sound (slot key s) (h.at key) (rw (set-slot, found))),
  )

  keep_set-IsSound :
      (rest : SetInner) → is_some (slot key s).set ≡ true → IsSound (slot j (keep_set key rest s))
  keep_set-IsSound rest there =
      rw (slot-keep_set, there)
        (ground
          (arith, h.at j, h.at key, beq_iff key j, SetOnly-of_sound (slot key s) (h.at key) there))

module _ (r : Rng) (key member : Bytes) (s : Store) (h : IsConsistent s) (j : Bytes) where
  sadd_existing-IsSound :
      (n : ℤ) (u : Store) → sadd_existing r key member s ≡ some (n, u) → IsSound (slot j u)
  unfolding sadd_existing
  sadd_existing-IsSound n u run =
      let t = (check_memory r (length member) s).1 in
      let ht = check_memory-IsConsistent r (length member) s h in
      elim (Option-cases (find key t.m_sets)) [
        | inl gone ↦ ground (arith, ht.at j)
        | inr (members, found) ↦
            ground (arith, ht.at j, sadd_into-IsSound key member t ht j members found)
      ]

  create_set-IsSound :
      has_type_conflict_for_set key s ≡ false
      → (n needed : ℕ)
      → IsSound (slot j (write_set key (emplace member tt []) n (check_memory r needed s).1))
  create_set-IsSound c n needed =
      write_set-IsSound j key n _ ((check_memory-IsConsistent r needed s h).at j)
        (emplace member tt []) (λ e. ground arith)
        (ground (arith, Spared-check_memory key r needed s (h.at key), SetOnly-of_check key s c))

  pub sadd-IsSound : (n : ℤ) (u : Store) → sadd r key member s ≡ some (n, u) → IsSound (slot j u)
  unfolding sadd
  sadd-IsSound n u run = elim (Option-cases (find key s.m_sets)) [
    | inr (members, found) ↦ ground (arith, sadd_existing-IsSound n u)
    | inl free ↦
        let needed = length key + length member in
        elim (Bool-cases (has_type_conflict_for_set key s)) [
          | inl c ↦ ground (arith, h.at j)
          | inr c ↦ ground (
            arith,
            (check_memory-IsConsistent r needed s h).at j,
            create_set-IsSound c needed needed,
          )
        ]
  ]

module _ (key member : Bytes) (s : Store) (h : IsConsistent s) (j : Bytes) where
  pub srem-IsSound : IsSound (slot j (srem key member s).1)
  unfolding srem
  srem-IsSound = elim (Option-cases (find key s.m_sets)) [
    | inl free ↦ ground (arith, h.at j)
    | inr (members, found) ↦
        let t = track_sub (length member) s in
        ground (
          arith,
          h.at j,
          keep_set-IsSound key member t (track_sub-IsConsistent (length member) s h) j
              (erase member members) (rw (slot-track_sub, set-slot, found)),
        )
  ]
