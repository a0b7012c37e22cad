-- ===== src/Cache/Persist/Load.antt =====
-- `load`, `load_v2` and `load_v1`. A read takes what is left of the bytes and returns what is left
-- behind it.
use socketley.Prelude.{
  ℕ, zero, suc, ◌+◌, ◌*◌, ◌^◌, Bool, true, false, Option, none, some, List, [], ◌∷◌, Bytes, length,
  take, drop, ltb, ◌==◌, if◌then◌else◌,
}
use socketley.Prelude.Int.{ℤ, pos, ltb_ℤ}
use socketley.Prelude.Words.{signed_of}
use socketley.Map.{find, insert_or_assign}
use socketley.Cache.State.{Store, SetInner, HashInner}
use socketley.Cache.Expiry.{millisecond, time_point}
use socketley.Cache.Persist.{type_string, type_list, type_set, type_hash}

-- A little-endian integer.
unfoldable pub le_value : Bytes → ℕ
le_value [] = 0
le_value (b ∷ bytes) = b + 256 * le_value bytes

unfoldable pub read_u8 : Bytes → Option (ℕ × Bytes)
read_u8 [] = none
read_u8 (b ∷ p) = some (b, p)

-- An integer of `count` bytes, unsigned.
unfoldable pub read_le : ℕ → Bytes → Option (ℕ × Bytes)
read_le count p =
    if ltb (length p) count then none else some (le_value (take count p), drop count p)

unfoldable pub read_i64 : Bytes → Option (ℤ × Bytes)
read_i64 p = elim (read_le 8 p) [ none ↦ none | some (v, q) ↦ some (signed_of (2 ^ 63) v, q) ]

unfoldable pub read_string : Bytes → Option (Bytes × Bytes)
read_string p = elim (read_le 4 p) [
  | none ↦ none
  | some (len, q) ↦ if ltb (length q) len then none else some (take len q, drop len q)
]

unfoldable pub read_list : ℕ → Bytes → Option (List Bytes × Bytes)
read_list zero p = some ([], p)
read_list (suc count) p = elim (read_string p) [
  | none ↦ none
  | some (e, q) ↦ elim (read_list count q) [ none ↦ none | some (deq, t) ↦ some (e ∷ deq, t) ]
]

-- The members are inserted as they are read.
unfoldable pub read_set : ℕ → SetInner → Bytes → Option (SetInner × Bytes)
read_set zero members p = some (members, p)
read_set (suc count) members p = elim (read_string p) [
  | none ↦ none
  | some (e, q) ↦ read_set count (insert_or_assign e tt members) q
]

unfoldable pub read_hash : ℕ → HashInner → Bytes → Option (HashInner × Bytes)
read_hash zero fields p = some (fields, p)
read_hash (suc count) fields p = elim (read_string p) [
  | none ↦ none
  | some (f, q) ↦ elim (read_string q) [
    | none ↦ none
    | some (v, t) ↦ read_hash count (insert_or_assign f v fields) t
  ]
]

-- How the loading of one record ends: the loop goes on, `load_v2` returns false, or the deadline
-- overflows the clock, which is undefined.
pub data Step : Type 0 where
  next : Store → Bytes → Step
  fail : Store → Step
  undefined : Step

-- `m_expiry[key] = now + milliseconds(remaining)`
unfoldable pub set_deadline : ℤ → Bytes → ℤ → Store → Option Store
set_deadline now key remaining s = elim (time_point now millisecond remaining) [
  | none ↦ none
  | some tp ↦ some (record s { m_expiry = insert_or_assign key tp s.m_expiry })
]

-- The case of a string: a truncated deadline fails, and a value whose deadline has passed is dropped.
unfoldable pub load_string : ℤ → Bytes → Bytes → Store → Step
load_string now key p s = elim (read_string p) [
  | none ↦ fail s
  | some (value, q) ↦ elim (read_u8 q) [
    | none ↦ fail s
    | some (has, t) ↦
        if has == 0
        then next (record s { m_data = insert_or_assign key value s.m_data }) t
        else elim (read_i64 t) [
          | none ↦ fail s
          | some (remaining, u) ↦
              if ltb_ℤ (pos 0) remaining
              then (elim (set_deadline now key remaining s) [
                | none ↦ undefined
                | some s' ↦ next (record s' { m_data = insert_or_assign key value s'.m_data }) u
              ])
              else next s u
        ]
  ]
]

-- `read_expiry`, for the other types: a deadline that is not positive is ignored, and so is one that
-- cannot be read.
unfoldable pub read_expiry : ℤ → Bytes → Bytes → Store → Step
read_expiry now key p s = elim (read_u8 p) [
  | none ↦ next s p
  | some (has, q) ↦ if has == 0 then next s q else elim (read_i64 q) [
    | none ↦ next s q
    | some (remaining, t) ↦
        if ltb_ℤ (pos 0) remaining
        then (elim (set_deadline now key remaining s) [ none ↦ undefined | some s' ↦ next s' t ])
        else next s t
  ]
]

-- `!m_expiry.count(key) || m_expiry[key] > now`
unfoldable pub keeps_value : ℤ → Bytes → Store → Bool
keeps_value now key s = elim (find key s.m_expiry) [ none ↦ true | some tp ↦ ltb_ℤ now tp ]

-- Behind the elements: the deadline, and the value if it is to be kept.
unfoldable pub finish : ℤ → Bytes → (Store → Store) → Bytes → Store → Step
finish now key put p s = elim (read_expiry now key p s) [
  | next t q ↦ next (if keeps_value now key t then put t else t) q
  | fail t ↦ fail t
  | undefined ↦ undefined
]

unfoldable pub put_list : Bytes → List Bytes → Store → Store
put_list key deq s = record s { m_lists = insert_or_assign key deq s.m_lists }

unfoldable pub put_set : Bytes → SetInner → Store → Store
put_set key members s = record s { m_sets = insert_or_assign key members s.m_sets }

unfoldable pub put_hash : Bytes → HashInner → Store → Store
put_hash key fields s = record s { m_hashes = insert_or_assign key fields s.m_hashes }

unfoldable pub load_list : ℤ → Bytes → Bytes → Store → Step
load_list now key p s = elim (read_le 4 p) [
  | none ↦ fail s
  | some (count, q) ↦ elim (read_list count q) [
    | none ↦ fail s
    | some (deq, t) ↦ finish now key (put_list key deq) t s
  ]
]

unfoldable pub load_set : ℤ → Bytes → Bytes → Store → Step
load_set now key p s = elim (read_le 4 p) [
  | none ↦ fail s
  | some (count, q) ↦ elim (read_set count [] q) [
    | none ↦ fail s
    | some (members, t) ↦ finish now key (put_set key members) t s
  ]
]

unfoldable pub load_hash : ℤ → Bytes → Bytes → Store → Step
load_hash now key p s = elim (read_le 4 p) [
  | none ↦ fail s
  | some (count, q) ↦ elim (read_hash count [] q) [
    | none ↦ fail s
    | some (fields, t) ↦ finish now key (put_hash key fields) t s
  ]
]

-- The `switch` on the type.
unfoldable pub load_value : ℤ → ℕ → Bytes → Bytes → Store → Step
load_value now type key p s =
    if type == type_string
    then load_string now key p s
    else if type == type_list
    then load_list now key p s
    else if type == type_set
    then load_set now key p s
    else if type == type_hash
    then load_hash now key p s
    else fail s

-- The loop over the records; each takes a byte at least, so the number of bytes is fuel enough.
unfoldable pub load_loop : ℤ → ℕ → Bytes → Store → Option (Bool × Store)
load_loop now zero p s = some (true, s)
load_loop now (suc fuel) [] s = some (true, s)
load_loop now (suc fuel) (type ∷ p) s = elim (read_string p) [
  | none ↦ some (true, s)
  | some (key, q) ↦ elim (load_value now type key q s) [
    | next t u ↦ load_loop now fuel u t
    | fail t ↦ some (false, t)
    | undefined ↦ none
  ]
]

-- The containers, the count of bytes and the eviction order are emptied.
unfoldable pub clear : Store → Store
clear s = record s {
  m_data = [];
  m_lists = [];
  m_sets = [];
  m_hashes = [];
  m_expiry = [];
  m_current_memory = 0;
  m_lru_order = [];
  m_lru_map = [];
}

unfoldable pub load_v2 : ℤ → Bytes → Store → Option (Bool × Store)
load_v2 now p s = load_loop now (length p) p (clear s)
