-- ===== src/Cache/Hashes.antt =====
-- The hash operations of cache_store.cpp. As for the lists, `none` is the use of an erased entry.
pub mod Soundness
pub mod Contents
use socketley.Prelude.{
  ℕ, ◌+◌, Bool, true, false, Option, none, some, [], Bytes, length, if◌then◌else◌,
}
use socketley.Prelude.Int.{ℤ, pos}
use socketley.Prelude.Words.{to_int}
use socketley.Map.{find, erase, assign, insert_or_assign, emplace, is_empty}
use socketley.Cache.State.{
  Store, HashInner, track_add, track_sub, touch_lru, has_type_conflict_for_hash,
}
use socketley.Cache.Eviction.{Rng, check_memory}
use socketley.Cache.Lists.{forget_key}

-- The hash of a key is written, after the iterator or by `emplace`, and `bytes` are accounted.
unfoldable pub write_hash : Bytes → HashInner → ℕ → Store → Store
write_hash key fields bytes s =
    touch_lru key (track_add bytes (record s { m_hashes = insert_or_assign key fields s.m_hashes }))

-- The value of a field that is there is replaced, with no check of the memory.
unfoldable pub hset_overwrite : Bytes → Bytes → Bytes → Bytes → HashInner → Store → Store
hset_overwrite key field old val fields s =
    write_hash key (assign field val fields) (length val) (track_sub (length old) s)

unfoldable pub hset_field : Rng → Bytes → Bytes → Bytes → Store → Option (Bool × Store)
hset_field r key field val s =
    let (fits, t) = check_memory r (length field + length val) s in
    if fits
    then (elim (find key t.m_hashes) [
      | none ↦ none
      | some fields ↦
          some (true, write_hash key (emplace field val fields) (length field + length val) t)
    ])
    else some (false, t)

unfoldable pub hset : Rng → Bytes → Bytes → Bytes → Store → Option (Bool × Store)
hset r key field val s = elim (find key s.m_hashes) [
  | some fields ↦ elim (find field fields) [
    | some old ↦ some (true, hset_overwrite key field old val fields s)
    | none ↦ hset_field r key field val s
  ]
  | none ↦
      if has_type_conflict_for_hash key s
      then some (false, s)
      else let (fits, t) = check_memory r (length key + length field + length val) s in
        some (
          if fits
          then (
            true,
            write_hash key (emplace field val []) (length key + length field + length val) t,
          )
          else (false, t))
]

unfoldable pub hget : Bytes → Bytes → Store → Option Bytes
hget key field s = elim (find key s.m_hashes) [ none ↦ none | some fields ↦ find field fields ]

-- What is left of the hash is kept, unless it is empty.
unfoldable pub keep_hash : Bytes → HashInner → Store → Store
keep_hash key rest s =
    if is_empty rest
    then forget_key key (record s { m_hashes = erase key s.m_hashes })
    else record s { m_hashes = assign key rest s.m_hashes }

unfoldable pub hdel : Bytes → Bytes → Store → Bool × Store
hdel key field s = elim (find key s.m_hashes) [
  | none ↦ (false, s)
  | some fields ↦ elim (find field fields) [
    | none ↦ (false, s)
    | some val ↦
        (true, keep_hash key (erase field fields) (track_sub (length field + length val) s))
  ]
]

unfoldable pub hlen : Bytes → Store → ℤ
hlen key s = elim (find key s.m_hashes) [
  | none ↦ pos 0
  | some fields ↦ to_int (pos (length fields))
]

unfoldable pub hash_ptr : Bytes → Store → Option HashInner
hash_ptr key s = find key s.m_hashes
