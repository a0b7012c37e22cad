-- ===== src/Cache/Hashes/Soundness.antt =====
-- The hash operations keep every key sound.
use socketley.Prelude.{
  ℕ, ◌+◌, ◌≡◌, ◌≢◌, Bool, inl, inr, arith, true, false, some, [], ◌∷◌, Bytes, beq_iff, length,
  Option-cases, Bool-cases, is_some,
}
use socketley.Map.{find, emplace, erase, assign}
use socketley.Cache.State.{Store, HashInner, has_type_conflict_for_hash, track_sub}
use socketley.Cache.Slots.{slot, hash-slot}
use socketley.Cache.Writes.{slot-track_sub, slot-keep_hash}
use socketley.Cache.Eviction.{Rng, check_memory}
use socketley.Cache.Consistent.{
  IsSound, IsConsistent, Spared-check_memory, check_memory-IsConsistent,
}
use socketley.Cache.Soundness.{
  HashOnly-of_check, HashOnly-of_sound, write_hash-IsSound, track_sub-IsConsistent,
}
use socketley.Cache.Hashes.{hset_overwrite, hset_field, hset, hdel, write_hash, keep_hash}

assign-ne-nil :
    (field val old : Bytes) (fields : HashInner)
    → find field fields ≡ some old
    → assign field val fields ≢ []
unfolding assign find
assign-ne-nil field val old [] e = ground arith
assign-ne-nil field val old ((f, v) ∷ fields) e = ground arith

module _ (key : Bytes) (s : Store) (h : IsConsistent s) (j : Bytes) where
  rewrite_hash-IsSound :
      (fields fields' : HashInner) (n : ℕ)
      → find key s.m_hashes ≡ some fields
      → fields' ≢ []
      → IsSound (slot j (write_hash key fields' n s))
  rewrite_hash-IsSound fields fields' n found filled =
      write_hash-IsSound j key n s (h.at j) fields' filled
        (HashOnly-of_sound (slot key s) (h.at key) (rw (hash-slot, found)))

  keep_hash-IsSound :
      (rest : HashInner)
      → is_some (slot key s).hash ≡ true
      → IsSound (slot j (keep_hash key rest s))
  keep_hash-IsSound rest there =
      rw (slot-keep_hash, there)
        (ground
          (arith, h.at j, h.at key, beq_iff key j, HashOnly-of_sound (slot key s) (h.at key) there))

module _ (key field : Bytes) (s : Store) (h : IsConsistent s) (j : Bytes) where
  hset_overwrite-IsSound :
      (old val : Bytes) (fields : HashInner)
      → find key s.m_hashes ≡ some fields
      → find field fields ≡ some old
      → IsSound (slot j (hset_overwrite key field old val fields s))
  unfolding hset_overwrite
  hset_overwrite-IsSound old val fields found there =
      rewrite_hash-IsSound key (track_sub (length old) s) (track_sub-IsConsistent (length old) s h)
        j fields (assign field val fields) (length val)
        (rw (← hash-slot, slot-track_sub, hash-slot) found)
        (assign-ne-nil field val old fields there)

  pub hdel-IsSound : IsSound (slot j (hdel key field s).1)
  unfolding hdel
  hdel-IsSound = elim (Option-cases (find key s.m_hashes)) [
    | inl free ↦ ground (arith, h.at j)
    | inr (fields, found) ↦ elim (Option-cases (find field fields)) [
      | inl absent ↦ ground (arith, h.at j)
      | inr (val, there) ↦
          let n = length field + length val in
          ground (
            arith,
            keep_hash-IsSound key (track_sub n s) (track_sub-IsConsistent n s h) j
                (erase field fields) (rw (slot-track_sub, hash-slot, found)),
          )
    ]
  ]

module _ (r : Rng) (key field val : Bytes) (s : Store) (h : IsConsistent s) (j : Bytes) where
  hset_field-IsSound :
      (b : Bool) (u : Store) → hset_field r key field val s ≡ some (b, u) → IsSound (slot j u)
  unfolding hset_field
  hset_field-IsSound b u run =
      let n = length field + length val in
      let t = (check_memory r n s).1 in
      let ht = check_memory-IsConsistent r n s h in
      elim (Option-cases (find key t.m_hashes)) [
        | inl gone ↦ ground (arith, ht.at j)
        | inr (fields, found) ↦ ground (
          arith,
          ht.at j,
          rewrite_hash-IsSound key t ht j fields (emplace field val fields) n found
              (λ e. ground arith),
        )
      ]

  create_hash-IsSound :
      has_type_conflict_for_hash key s ≡ false
      → (n needed : ℕ)
      → IsSound (slot j (write_hash key (emplace field val []) n (check_memory r needed s).1))
  create_hash-IsSound c n needed =
      write_hash-IsSound j key n _ ((check_memory-IsConsistent r needed s h).at j)
        (emplace field val []) (λ e. ground arith)
        (ground (arith, Spared-check_memory key r needed s (h.at key), HashOnly-of_check key s c))

  pub hset-IsSound :
      (b : Bool) (u : Store) → hset r key field val s ≡ some (b, u) → IsSound (slot j u)
  unfolding hset
  hset-IsSound b u run = elim (Option-cases (find key s.m_hashes)) [
    | inr (fields, found) ↦ elim (Option-cases (find field fields)) [
      | inl absent ↦ ground (arith, hset_field-IsSound b u)
      | inr (old, there) ↦ ground (arith, hset_overwrite-IsSound key field s h j old val fields)
    ]
    | inl free ↦
        let needed = length key + length field + length val in
        elim (Bool-cases (has_type_conflict_for_hash key s)) [
          | inl c ↦ ground (arith, h.at j)
          | inr c ↦ ground (
            arith,
            (check_memory-IsConsistent r needed s h).at j,
            create_hash-IsSound c needed needed,
          )
        ]
  ]
