-- ===== src/Cache/Hashes/Contents.antt =====
-- The hash operations as those of a map of fields.
use socketley.Prelude.{
  ◌+◌, ◌≡◌, refl, inl, inr, arith, true, Option, none, some, [], Bytes, beq, beq_iff, beq_refl,
  length, Option-cases, is_some, if◌then◌else◌,
}
use socketley.Map.{find, assign, erase, emplace}
use socketley.Map.Laws.{find-assign, find-erase, find_of_is_empty}
use socketley.Cache.State.{Store, HashInner, track_sub}
use socketley.Cache.Slots.{slot, hash-slot}
use socketley.Cache.Writes.{slot-track_sub, slot-write_hash, slot-keep_hash}
use socketley.Cache.Eviction.{Rng, check_memory}
use socketley.Cache.Consistent.{IsConsistent, Spared-check_memory}
use socketley.Cache.Hashes.{hset, hset_overwrite, hset_field, hget, hdel, keep_hash}

abbrev pub field_of : Bytes → Option HashInner → Option Bytes
field_of x none = none
field_of x (some fields) = find x fields

pub hget-slot : (key x : Bytes) (s : Store) → hget key x s ≡ field_of x (slot key s).hash
unfolding hget slot
hget-slot key x s = ground arith

slot-hset_overwrite :
    (key field old val : Bytes) (fields : HashInner) (s : Store)
    → (slot key (hset_overwrite key field old val fields s)).hash ≡ some (assign field val fields)
unfolding hset_overwrite
slot-hset_overwrite key field old val fields s = ground (
  arith,
  beq_refl key,
  slot-write_hash key key (assign field val fields) (length val) (track_sub (length old) s),
)

-- In a consistent store, where `hset` answers true, the field has the value and every other field of
-- the key is as it was.
pub hget-hset :
    (r : Rng) (key field val x : Bytes) (s t : Store)
    → IsConsistent s
    → hset r key field val s ≡ some (true, t)
    → hget key x t ≡ (if beq field x then some val else hget key x s)
unfolding hset hset_field find
hget-hset r key field val x s t h run = elim (Option-cases (find key s.m_hashes)) [
  | inl free ↦
      let n = length key + length field + length val in
      let u = (check_memory r n s).1 in
      ground (
        arith,
        beq_refl key,
        hash-slot key s,
        hget-slot key x s,
        hget-slot key x t,
        slot-write_hash key key (emplace field val []) n u,
      )
  | inr (fields, found) ↦ elim (Option-cases (find field fields)) [
    | inr (old, known) ↦ ground (
      arith,
      hash-slot key s,
      hget-slot key x s,
      hget-slot key x t,
      slot-hset_overwrite key field old val fields s,
      find-assign field x val fields,
    )
    | inl fresh ↦
        let n = length field + length val in
        let u = (check_memory r n s).1 in
        elim (Option-cases (find key u.m_hashes)) [
          | inl gone ↦ ground arith
          | inr (kept, there) ↦ ground (
            arith,
            beq_refl key,
            hash-slot key s,
            hash-slot key u,
            hget-slot key x s,
            hget-slot key x t,
            Spared-check_memory key r n s (h.at key),
            slot-write_hash key key (emplace field val kept) n u,
          )
        ]
  ]
]

-- `hdel` answers whether the field was there, and takes it from the fields of the key.
pub hget-hdel :
    (key field x : Bytes) (s : Store)
    → (hget key x (hdel key field s).1 ≡ (if beq field x then none else hget key x s))
      × ((hdel key field s).0 ≡ is_some (hget key field s))
unfolding hdel
hget-hdel key field x s = elim (Option-cases (find key s.m_hashes)) [
  | inl free ↦ ground (arith, hash-slot key s, hget-slot key x s, hget-slot key field s)
  | inr (fields, found) ↦ elim (Option-cases (find field fields)) [
    | inl fresh ↦
        ground (arith, beq_iff field x, hash-slot key s, hget-slot key x s, hget-slot key field s)
    | inr (val, known) ↦
        let t = track_sub (length field + length val) s in
        let rest = erase field fields in
        let here : (slot key t).hash ≡ some fields = rw (slot-track_sub, hash-slot) found in
        ground (
          arith,
          beq_refl key,
          hash-slot key s,
          hget-slot key x s,
          hget-slot key field s,
          hget-slot key x (keep_hash key rest t),
          slot-keep_hash key key rest t (rw here refl),
          find-erase field x fields,
          find_of_is_empty x rest,
        )
  ]
]
