-- ===== src/Cache/Sets.antt =====
-- The set operations of cache_store.cpp. As for the lists, `none` is the use of an erased entry.
pub mod Soundness
pub mod Contents
use socketley.Prelude.{
  ℕ, ◌+◌, Bool, true, false, Option, none, some, [], Bytes, length, if◌then◌else◌,
}
use socketley.Prelude.Int.{ℤ, pos, negsuc}
use socketley.Prelude.Words.{to_int}
use socketley.Map.{find, erase, assign, insert_or_assign, emplace, contains, is_empty}
use socketley.Cache.State.{
  Store, SetInner, track_add, track_sub, touch_lru, has_type_conflict_for_set,
}
use socketley.Cache.Eviction.{Rng, check_memory}
use socketley.Cache.Lists.{forget_key}

-- The set of a key is written, after the iterator or by `emplace`, and `bytes` are accounted.
unfoldable pub write_set : Bytes → SetInner → ℕ → Store → Store
write_set key members bytes s =
    touch_lru key (track_add bytes (record s { m_sets = insert_or_assign key members s.m_sets }))

-- `it->second.emplace(member)`, once the memory is there.
unfoldable pub sadd_into : Bytes → Bytes → SetInner → Store → ℤ × Store
sadd_into key member members s =
    if contains member members
    then (pos 0, s)
    else (pos 1, write_set key (emplace member tt members) (length member) s)

unfoldable pub sadd_existing : Rng → Bytes → Bytes → Store → Option (ℤ × Store)
sadd_existing r key member s =
    let (fits, t) = check_memory r (length member) s in
    if fits
    then (elim (find key t.m_sets) [
      | none ↦ none
      | some members ↦ some (sadd_into key member members t)
    ])
    else some (negsuc 0, t)

unfoldable pub sadd : Rng → Bytes → Bytes → Store → Option (ℤ × Store)
sadd r key member s = elim (find key s.m_sets) [
  | some _ ↦ sadd_existing r key member s
  | none ↦
      if has_type_conflict_for_set key s
      then some (negsuc 0, s)
      else let (fits, t) = check_memory r (length key + length member) s in
        some (
          if fits
          then (pos 1, write_set key (emplace member tt []) (length key + length member) t)
          else (negsuc 0, t))
]

-- What is left of the set is kept, unless it is empty.
unfoldable pub keep_set : Bytes → SetInner → Store → Store
keep_set key rest s =
    if is_empty rest
    then forget_key key (record s { m_sets = erase key s.m_sets })
    else record s { m_sets = assign key rest s.m_sets }

unfoldable pub srem : Bytes → Bytes → Store → Bool × Store
srem key member s = elim (find key s.m_sets) [
  | none ↦ (false, s)
  | some members ↦
      if contains member members
      then (true, keep_set key (erase member members) (track_sub (length member) s))
      else (false, s)
]

unfoldable pub sismember : Bytes → Bytes → Store → Bool
sismember key member s = elim (find key s.m_sets) [
  | none ↦ false
  | some members ↦ contains member members
]

unfoldable pub scard : Bytes → Store → ℤ
scard key s = elim (find key s.m_sets) [
  | none ↦ pos 0
  | some members ↦ to_int (pos (length members))
]

unfoldable pub set_ptr : Bytes → Store → Option SetInner
set_ptr key s = find key s.m_sets
