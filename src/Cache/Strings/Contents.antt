-- ===== src/Cache/Strings/Contents.antt =====
-- What `set` stores, on each of its branches.
use socketley.Prelude.{
  ◌+◌, ◌≡◌, refl, inl, inr, arith, true, false, some, Bytes, beq, beq_refl, is_some, length,
  Option-cases, if◌then◌else◌,
}
use socketley.Map.{find}
use socketley.Cache.State.{Store}
use socketley.Cache.Slots.{slot, string-slot}
use socketley.Cache.Writes.{slot-track_sub, slot-write_string}
use socketley.Cache.Eviction.{Rng, check_memory}
use socketley.Cache.Consistent.{IsConsistent, Spared, Spared-check_memory}
use socketley.Cache.Strings.{set, store_string, overwrite_string}

module _ (j key new : Bytes) (s : Store) where
  slot-overwrite_string :
      (old : Bytes)
      → slot j (overwrite_string key old new s)
        ≡ (if beq key j then record (slot j s) { string = some new } else slot j s)
  unfolding overwrite_string
  slot-overwrite_string old = rw (slot-write_string, slot-track_sub) refl

  slot-store_string :
      slot j (store_string key new s)
      ≡ (if beq key j then record (slot j s) { string = some new } else slot j s)
  unfolding store_string
  slot-store_string = slot-write_string j key new _ s

-- In a consistent store, where `set` answers true the key has the new string; where it answers false
-- it changes no key but by an eviction, which takes keys whole. Any other key is changed by an eviction
-- alone, and by nothing if the key was a string: then only the string is written, and the deadline of
-- the key stays.
pub set_lem :
    (r : Rng) (j key new : Bytes) (s : Store)
    → IsConsistent s
    → ((set r key new s).0 ≡ true → (slot key (set r key new s).1).string ≡ some new)
      × ((set r key new s).0 ≡ false → Spared j s (set r key new s).1)
      × (beq key j ≡ false → Spared j s (set r key new s).1)
      × (is_some (slot key s).string ≡ true
          → slot j (set r key new s).1
            ≡ (if beq key j then record (slot j s) { string = some new } else slot j s))
unfolding set
set_lem r j key new s h = elim (Option-cases (find key s.m_data)) [
  | inr (old, e) ↦ ground (
    arith,
    beq_refl key,
    slot-overwrite_string key key new s old,
    slot-overwrite_string j key new s old,
  )
  | inl e ↦
      let needed = length key + length new in
      let t = (check_memory r needed s).1 in
      ground (
        arith,
        beq_refl key,
        string-slot key s,
        slot-store_string key key new t,
        slot-store_string j key new t,
        Spared-check_memory j r needed s (h.at j),
      )
]
