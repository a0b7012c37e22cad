-- ===== src/Cache/Strings.antt =====
-- The string operations of cache_store.cpp: `set`, `get`, `setnx`, `incr`, `append`, `strlen_key`
-- and `getset`. An operation that can follow an iterator into an erased entry, or overflow a signed
-- integer, returns an `Option`: `none` is undefined behaviour.
pub mod Soundness
pub mod Contents
use socketley.Prelude.{
  ℕ, ◌+◌, ◌-◌, ◌^◌, Bool, true, false, not, ◌&&◌, Option, none, some, [], ◌++◌, Bytes, length, ltb,
  if◌then◌else◌,
}
use socketley.Prelude.Int.{ℤ, pos, ◌+ℤ◌}
use socketley.Prelude.Words.{in_range, to_chars, from_chars, value}
use socketley.Map.{find, insert_or_assign}
use socketley.Cache.State.{
  Store, size_mod, track_add, track_sub, touch_lru, has_type_conflict_for_string,
}
use socketley.Cache.Eviction.{Rng, check_memory}
use socketley.Cache.General.{exists}
use socketley.Cache.Expiry.{check_expiry}

-- The value of a key is written, after the iterator or by `try_emplace`, and `bytes` are accounted.
unfoldable pub write_string : Bytes → Bytes → ℕ → Store → Store
write_string key new bytes s =
    touch_lru key (track_add bytes (record s { m_data = insert_or_assign key new s.m_data }))

-- The value of a key that is there is replaced.
unfoldable pub overwrite_string : Bytes → Bytes → Bytes → Store → Store
overwrite_string key old new s = write_string key new (length new) (track_sub (length old) s)

-- A key is stored that was not there when the call began.
unfoldable pub store_string : Bytes → Bytes → Store → Store
store_string key new s = write_string key new (length key + length new) s

unfoldable pub set : Rng → Bytes → Bytes → Store → Bool × Store
set r key new s = elim (find key s.m_data) [
  | some old ↦ (true, overwrite_string key old new s)
  | none ↦
      if has_type_conflict_for_string key s
      then (false, s)
      else let (fits, t) = check_memory r (length key + length new) s in
        if fits then (true, store_string key new t) else (false, t)
]

unfoldable pub get : Bytes → Store → Option Bytes
get key s = find key s.m_data

unfoldable pub setnx : Rng → Bytes → Bytes → ℤ → Store → Bool × Store
setnx r key new now s =
    let t = check_expiry key now s in if exists key t then (false, t) else set r key new t

-- What `incr` returns: success, and the out parameter where it is written.
pub data IncrReply : Type 0 where
  incremented : ℤ → IncrReply
  out_of_memory : ℤ → IncrReply
  refused : IncrReply

-- The part of `incr` behind the reading of the old number.
unfoldable pub incr_from : Rng → Bytes → Option Bytes → ℤ → ℤ → Store → Option (IncrReply × Store)
incr_from r key old val delta s =
    let sum = val +ℤ delta in
    if not (in_range (2 ^ 63) sum) then none else elim old [
      | some text ↦ some (incremented sum, overwrite_string key text (to_chars sum) s)
      | none ↦
          let (fits, t) = check_memory r (length key + length (to_chars sum)) s in
          some (
            if fits
            then (incremented sum, store_string key (to_chars sum) t)
            else (out_of_memory sum, t))
    ]

-- `from_chars` over the whole text.
unfoldable pub read_number : Bytes → Option ℤ
read_number text = elim (from_chars (2 ^ 63) text) [ value v [] ↦ some v | _ ↦ none ]

-- `incr` behind its `check_expiry`.
unfoldable pub incr_at : Rng → Bytes → ℤ → Store → Option (IncrReply × Store)
incr_at r key delta s =
    if has_type_conflict_for_string key s then some (refused, s) else elim (find key s.m_data) [
      | none ↦ incr_from r key none (pos 0) delta s
      | some text ↦ elim (read_number text) [
        | some v ↦ incr_from r key (some text) v delta s
        | none ↦ some (refused, s)
      ]
    ]

unfoldable pub incr : Rng → Bytes → ℤ → ℤ → Store → Option (IncrReply × Store)
incr r key delta now s = incr_at r key delta (check_expiry key now s)

-- `append` answers with a length, `std::string::npos` for a key of another type.
abbrev pub npos : ℕ
npos = size_mod - 1

-- The suffix joins a string that is there; its iterator is only good while the entry lives.
unfoldable pub append_text : Bytes → Bytes → Bool → Store → Option (ℕ × Store)
append_text key suffix fits s = elim (find key s.m_data) [
  | none ↦ none
  | some text ↦ some (
      if ltb 0 s.m_max_memory && not fits
      then (length text, s)
      else (length (text ++ suffix), write_string key (text ++ suffix) (length suffix) s))
]

-- `append` behind its `check_expiry`.
unfoldable pub append_at : Rng → Bytes → Bytes → Store → Option (ℕ × Store)
append_at r key suffix s =
    if has_type_conflict_for_string key s then some (npos, s) else elim (find key s.m_data) [
      | some _ ↦ let (fits, t) = check_memory r (length suffix) s in append_text key suffix fits t
      | none ↦
          let (fits, t) = check_memory r (length key + length suffix) s in
          some (if fits then (length suffix, store_string key suffix t) else (0, t))
    ]

unfoldable pub append : Rng → Bytes → Bytes → ℤ → Store → Option (ℕ × Store)
append r key suffix now s = append_at r key suffix (check_expiry key now s)

unfoldable pub strlen_key : Bytes → Store → ℕ
strlen_key key s = elim (find key s.m_data) [ none ↦ 0 | some text ↦ length text ]

-- The old value is written before the new one is stored; no value is written for a key of another
-- type.
unfoldable pub getset : Rng → Bytes → Bytes → ℤ → Store → Bool × Option Bytes × Store
getset r key newval now s =
    let t = check_expiry key now s in
    if has_type_conflict_for_string key t
    then (false, none, t)
    else let oldval : Bytes = elim (find key t.m_data) [ none ↦ [] | some text ↦ text ] in
      let (stored, u) = set r key newval t in (stored, some oldval, u)
