-- ===== src/Cache/Writes.antt =====
-- What the writes of the operations do to the slot of a key.
use socketley.Prelude.{
  ℕ, ◌≡◌, arith, none, some, true, List, Bytes, beq, beq_iff, is_some, if◌then◌else◌,
}
use socketley.Map.{is_empty}
use socketley.Map.Laws.{find-erase, find-assign, find-insert_or_assign}
use socketley.Cache.State.{Store, SetInner, HashInner, track_add, track_sub}
use socketley.Cache.Frames.{frames}
use socketley.Cache.Slots.{slot, slot-touch_lru}
use socketley.Cache.Strings.{write_string}
use socketley.Cache.Lists.{write_list, keep_list, forget_key}
use socketley.Cache.Sets.{write_set, keep_set}
use socketley.Cache.Hashes.{write_hash, keep_hash}
use socketley.Cache.Eviction.{is_nil}

module _ (j : Bytes) (n : ℕ) (s : Store) where
  pub slot-track_add : slot j (track_add n s) ≡ slot j s
  unfolding slot
  slot-track_add = simp frames

  pub slot-track_sub : slot j (track_sub n s) ≡ slot j s
  unfolding slot
  slot-track_sub = simp frames

module _ (j key : Bytes) where
  pub slot-write_string :
      (new : Bytes) (n : ℕ) (s : Store)
      → slot j (write_string key new n s)
        ≡ (if beq key j then record (slot j s) { string = some new } else slot j s)
  unfolding write_string
  slot-write_string new n s =
      rw (slot-touch_lru, slot-track_add)
        (unfold slot in ground (arith, find-insert_or_assign key j new s.m_data))

  pub slot-write_list :
      (deq : List Bytes) (n : ℕ) (s : Store)
      → slot j (write_list key deq n s)
        ≡ (if beq key j then record (slot j s) { list = some deq } else slot j s)
  unfolding write_list
  slot-write_list deq n s =
      rw (slot-touch_lru, slot-track_add)
        (unfold slot in ground (arith, find-insert_or_assign key j deq s.m_lists))

  pub slot-write_set :
      (members : SetInner) (n : ℕ) (s : Store)
      → slot j (write_set key members n s)
        ≡ (if beq key j then record (slot j s) { set = some members } else slot j s)
  unfolding write_set
  slot-write_set members n s =
      rw (slot-touch_lru, slot-track_add)
        (unfold slot in ground (arith, find-insert_or_assign key j members s.m_sets))

  pub slot-write_hash :
      (fields : HashInner) (n : ℕ) (s : Store)
      → slot j (write_hash key fields n s)
        ≡ (if beq key j then record (slot j s) { hash = some fields } else slot j s)
  unfolding write_hash
  slot-write_hash fields n s =
      rw (slot-touch_lru, slot-track_add)
        (unfold slot in ground (arith, find-insert_or_assign key j fields s.m_hashes))

  -- The list of a key that has one is replaced, or taken away with the deadline if it is empty.
  pub slot-keep_list :
      (rest : List Bytes) (s : Store)
      → is_some (slot key s).list ≡ true
      → slot j (keep_list key rest s) ≡ (
          if beq key j
          then (if is_nil rest
              then record (slot j s) { list = none; deadline = none }
              else record (slot j s) { list = some rest })
          else slot j s)
  unfolding keep_list forget_key track_sub slot
  slot-keep_list rest s h = ground (
    arith,
    find-erase key j s.m_expiry,
    beq_iff key j,
    find-erase key j s.m_lists,
    find-assign key j rest s.m_lists,
  )

  -- The set of a key that has one is replaced, or taken away with the deadline if it is empty.
  pub slot-keep_set :
      (rest : SetInner) (s : Store)
      → is_some (slot key s).set ≡ true
      → slot j (keep_set key rest s) ≡ (
          if beq key j
          then (if is_empty rest
              then record (slot j s) { set = none; deadline = none }
              else record (slot j s) { set = some rest })
          else slot j s)
  unfolding keep_set forget_key track_sub slot
  slot-keep_set rest s h = ground (
    arith,
    find-erase key j s.m_expiry,
    beq_iff key j,
    find-erase key j s.m_sets,
    find-assign key j rest s.m_sets,
  )

  -- The hash of a key that has one is replaced, or taken away with the deadline if it is empty.
  pub slot-keep_hash :
      (rest : HashInner) (s : Store)
      → is_some (slot key s).hash ≡ true
      → slot j (keep_hash key rest s) ≡ (
          if beq key j
          then (if is_empty rest
              then record (slot j s) { hash = none; deadline = none }
              else record (slot j s) { hash = some rest })
          else slot j s)
  unfolding keep_hash forget_key track_sub slot
  slot-keep_hash rest s h = ground (
    arith,
    find-erase key j s.m_expiry,
    beq_iff key j,
    find-erase key j s.m_hashes,
    find-assign key j rest s.m_hashes,
  )
