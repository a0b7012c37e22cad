-- ===== src/Cache/Slots.antt =====
-- What the store holds under one key, as a record of lookups.
use socketley.Prelude.{ℕ}
use socketley.Cache.State.{EvictionPolicy, set_max_memory, set_eviction}
use socketley.Prelude.{
  ◌≡◌, refl, arith, Option, none, List, Bytes, beq, beq_iff, is_some, if◌then◌else◌,
}
use socketley.Prelude.Int.{ℤ}
use socketley.Map.{find}
use socketley.Map.Laws.{find-erase}
use socketley.Cache.State.{
  Store, SetInner, HashInner, track_sub, touch_lru, drop_lru, drop_expiry, erase_value, erase_data,
  erase_list, erase_set, erase_hash,
}
use socketley.Cache.Frames.{frames}

pub record Slot : Type 0 where
  pub string : Option Bytes
  pub list : Option (List Bytes)
  pub set : Option SetInner
  pub hash : Option HashInner
  pub deadline : Option ℤ

unfoldable pub slot : Bytes → Store → Slot
slot j s = record {
  string = find j s.m_data;
  list = find j s.m_lists;
  set = find j s.m_sets;
  hash = find j s.m_hashes;
  deadline = find j s.m_expiry;
}

module _ (j : Bytes) (s : Store) where
  pub string-slot : (slot j s).string ≡ find j s.m_data
  unfolding slot
  string-slot = refl

  pub list-slot : (slot j s).list ≡ find j s.m_lists
  unfolding slot
  list-slot = refl

  pub set-slot : (slot j s).set ≡ find j s.m_sets
  unfolding slot
  set-slot = refl

  pub hash-slot : (slot j s).hash ≡ find j s.m_hashes
  unfolding slot
  hash-slot = refl

  pub deadline-slot : (slot j s).deadline ≡ find j s.m_expiry
  unfolding slot
  deadline-slot = refl

-- The slot once the cascade of `erase_value` has run over it.
unfoldable pub cleared : Slot → Slot
cleared x =
    if is_some x.string
    then record x { string = none }
    else if is_some x.list
    then record x { list = none }
    else if is_some x.set
    then record x { set = none }
    else record x { hash = none }

module _ (j : Bytes) (s : Store) where
  pub slot-set_max_memory : (n : ℕ) → slot j (set_max_memory n s) ≡ slot j s
  unfolding slot set_max_memory
  slot-set_max_memory n = refl

  pub slot-set_eviction : (policy : EvictionPolicy) → slot j (set_eviction policy s) ≡ slot j s
  unfolding slot set_eviction
  slot-set_eviction policy = refl

module _ (j key : Bytes) (s : Store) where
  pub slot-touch_lru : slot j (touch_lru key s) ≡ slot j s
  unfolding slot
  slot-touch_lru = simp frames

  pub slot-drop_lru : slot j (drop_lru key s) ≡ slot j s
  unfolding slot
  slot-drop_lru = simp frames

  pub slot-drop_expiry :
      slot j (drop_expiry key s)
      ≡ (if beq key j then record (slot j s) { deadline = none } else slot j s)
  unfolding slot drop_expiry
  slot-drop_expiry = ground (arith, find-erase key j s.m_expiry)

  pub slot-erase_value :
      slot j (erase_value key s).1 ≡ (if beq key j then cleared (slot j s) else slot j s)
  unfolding slot erase_value erase_data erase_list erase_set erase_hash cleared track_sub
  slot-erase_value = ground (
    arith,
    beq_iff key j,
    find-erase key j s.m_data,
    find-erase key j s.m_lists,
    find-erase key j s.m_sets,
    find-erase key j s.m_hashes,
  )
