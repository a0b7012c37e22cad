-- ===== src/Cache/Soundness.antt =====
-- Each operation of the cache keeps every key sound.
use socketley.Prelude.{ℕ, ◌≡◌, ◌≢◌, arith, true, false, none, List, [], Bytes, beq_iff, is_some}
use socketley.Map.Laws.{find_of_is_empty}
use socketley.Cache.State.{
  Store, SetInner, HashInner, track_sub, has_type_conflict_for_string, has_type_conflict_for_list,
  has_type_conflict_for_set, has_type_conflict_for_hash,
}
use socketley.Cache.Slots.{Slot, slot}
use socketley.Cache.Writes.{
  slot-track_sub, slot-track_sub, slot-write_string, slot-write_list, slot-write_set,
  slot-write_hash,
}
use socketley.Cache.Consistent.{IsSound, IsConsistent}
use socketley.Cache.Strings.{write_string}
use socketley.Cache.Lists.{write_list}
use socketley.Cache.Sets.{write_set}
use socketley.Cache.Hashes.{write_hash}

-- A key is free for a string, a list, a set or a hash if no other container has it.
abbrev pub StringOnly : Slot → Type 0
StringOnly x = (x.list ≡ none) × (x.set ≡ none) × (x.hash ≡ none)

abbrev pub ListOnly : Slot → Type 0
ListOnly x = (x.string ≡ none) × (x.set ≡ none) × (x.hash ≡ none)

abbrev pub SetOnly : Slot → Type 0
SetOnly x = (x.string ≡ none) × (x.list ≡ none) × (x.hash ≡ none)

abbrev pub HashOnly : Slot → Type 0
HashOnly x = (x.string ≡ none) × (x.list ≡ none) × (x.set ≡ none)

module _ (key : Bytes) (s : Store) where
  pub StringOnly-of_check : has_type_conflict_for_string key s ≡ false → StringOnly (slot key s)
  unfolding has_type_conflict_for_string slot
  StringOnly-of_check h = ground (
    arith,
    find_of_is_empty key s.m_lists,
    find_of_is_empty key s.m_sets,
    find_of_is_empty key s.m_hashes,
  )

  pub ListOnly-of_check : has_type_conflict_for_list key s ≡ false → ListOnly (slot key s)
  unfolding has_type_conflict_for_list slot
  ListOnly-of_check h = ground (
    arith,
    find_of_is_empty key s.m_data,
    find_of_is_empty key s.m_sets,
    find_of_is_empty key s.m_hashes,
  )

  pub SetOnly-of_check : has_type_conflict_for_set key s ≡ false → SetOnly (slot key s)
  unfolding has_type_conflict_for_set slot
  SetOnly-of_check h = ground (
    arith,
    find_of_is_empty key s.m_data,
    find_of_is_empty key s.m_lists,
    find_of_is_empty key s.m_hashes,
  )

  pub HashOnly-of_check : has_type_conflict_for_hash key s ≡ false → HashOnly (slot key s)
  unfolding has_type_conflict_for_hash slot
  HashOnly-of_check h = ground (
    arith,
    find_of_is_empty key s.m_data,
    find_of_is_empty key s.m_lists,
    find_of_is_empty key s.m_sets,
  )

-- A write keeps every key sound where its key is free for it.
module _ (j key : Bytes) (n : ℕ) (s : Store) (h : IsSound (slot j s)) where
  pub write_string-IsSound :
      (new : Bytes) → StringOnly (slot key s) → IsSound (slot j (write_string key new n s))
  write_string-IsSound new free = rw slot-write_string (ground (arith, beq_iff key j))

  pub write_list-IsSound :
      (deq : List Bytes)
      → deq ≢ []
      → ListOnly (slot key s)
      → IsSound (slot j (write_list key deq n s))
  write_list-IsSound deq filled free = rw slot-write_list (ground (arith, beq_iff key j))

  pub write_set-IsSound :
      (members : SetInner)
      → members ≢ []
      → SetOnly (slot key s)
      → IsSound (slot j (write_set key members n s))
  write_set-IsSound members filled free = rw slot-write_set (ground (arith, beq_iff key j))

  pub write_hash-IsSound :
      (fields : HashInner)
      → fields ≢ []
      → HashOnly (slot key s)
      → IsSound (slot j (write_hash key fields n s))
  write_hash-IsSound fields filled free = rw slot-write_hash (ground (arith, beq_iff key j))

-- A sound key that a container has is in no other.
pub StringOnly-of_sound : (x : Slot) → IsSound x → is_some x.string ≡ true → StringOnly x
StringOnly-of_sound x h e = ground arith

pub ListOnly-of_sound : (x : Slot) → IsSound x → is_some x.list ≡ true → ListOnly x
ListOnly-of_sound x h e = ground arith

pub SetOnly-of_sound : (x : Slot) → IsSound x → is_some x.set ≡ true → SetOnly x
SetOnly-of_sound x h e = ground arith

pub HashOnly-of_sound : (x : Slot) → IsSound x → is_some x.hash ≡ true → HashOnly x
HashOnly-of_sound x h e = ground arith

pub track_sub-IsConsistent : (n : ℕ) (s : Store) → IsConsistent s → IsConsistent (track_sub n s)
track_sub-IsConsistent n s h = record { at = λ j. rw slot-track_sub (h.at j) }
