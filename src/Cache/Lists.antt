-- ===== src/Cache/Lists.antt =====
-- The list operations of cache_store.cpp. `none` as the result of a push is undefined behaviour:
-- the iterator `it`, found before `check_memory`, is used after the eviction has erased its entry.
pub mod Soundness
pub mod Contents
use socketley.Prelude.{
  ℕ, ◌+◌, Bool, true, false, ◌||◌, Option, none, some, List, [], ◌∷◌, ◌++◌, Bytes, length,
  get_elem?, if◌then◌else◌,
}
use socketley.Prelude.Int.{ℤ, pos, pos_part, ◌+ℤ◌, ltb_ℤ, leb_ℤ}
use socketley.Prelude.Words.{to_int}
use socketley.Map.{find, erase, assign, insert_or_assign}
use socketley.Cache.State.{Store, track_add, track_sub, touch_lru, has_type_conflict_for_list}
use socketley.Cache.Eviction.{Rng, check_memory, is_nil}

-- The two ends of a deque.
pub data End : Type 0 where
  front back : End

unfoldable pub push_at : End → Bytes → List Bytes → List Bytes
push_at front val deq = val ∷ deq
push_at back val deq = deq ++ val ∷ []

unfoldable pub pop_back : List Bytes → Option (Bytes × List Bytes)
pop_back [] = none
pop_back (x ∷ deq) = elim (pop_back deq) [
  | none ↦ some (x, [])
  | some (y, rest) ↦ some (y, x ∷ rest)
]

unfoldable pub pop_at : End → List Bytes → Option (Bytes × List Bytes)
pop_at front [] = none
pop_at front (x ∷ deq) = some (x, deq)
pop_at back deq = pop_back deq

-- The list of a key is written, after the iterator or by `emplace`, and `bytes` are accounted.
unfoldable pub write_list : Bytes → List Bytes → ℕ → Store → Store
write_list key deq bytes s =
    touch_lru key (track_add bytes (record s { m_lists = insert_or_assign key deq s.m_lists }))

-- The element joins a list that is there; its iterator is only good while the entry lives.
unfoldable pub push_existing : Rng → End → Bytes → Bytes → Store → Option (Bool × Store)
push_existing r e key val s =
    let (fits, t) = check_memory r (length val) s in
    if fits
    then (elim (find key t.m_lists) [
      | none ↦ none
      | some deq ↦ some (true, write_list key (push_at e val deq) (length val) t)
    ])
    else some (false, t)

-- `lpush` at the front, `rpush` at the back.
unfoldable pub push : Rng → End → Bytes → Bytes → Store → Option (Bool × Store)
push r e key val s = elim (find key s.m_lists) [
  | some _ ↦ push_existing r e key val s
  | none ↦
      if has_type_conflict_for_list key s
      then some (false, s)
      else let (fits, t) = check_memory r (length key + length val) s in
        some (
          if fits
          then (true, write_list key (push_at e val []) (length key + length val) t)
          else (false, t))
]

unfoldable pub lpush : Rng → Bytes → Bytes → Store → Option (Bool × Store)
lpush r = push r front

unfoldable pub rpush : Rng → Bytes → Bytes → Store → Option (Bool × Store)
rpush r = push r back

-- The end of `lpop`, `rpop`, `srem` and `hdel` where the container has become empty: the deadline
-- and the iterator into the eviction order go, and the node of the order stays.
unfoldable pub forget_key : Bytes → Store → Store
forget_key key s =
    let t = track_sub (length key) s in
    record t { m_expiry = erase key t.m_expiry; m_lru_map = erase key t.m_lru_map }

-- What is left of the list is kept, unless it is empty.
unfoldable pub keep_list : Bytes → List Bytes → Store → Store
keep_list key rest s =
    if is_nil rest
    then forget_key key (record s { m_lists = erase key s.m_lists })
    else record s { m_lists = assign key rest s.m_lists }

unfoldable pub pop : End → Bytes → Store → Option Bytes × Store
pop e key s = elim (find key s.m_lists) [
  | none ↦ (none, s)
  | some deq ↦ elim (pop_at e deq) [
    | none ↦ (none, s)
    | some (out, rest) ↦ (some out, keep_list key rest (track_sub (length out) s))
  ]
]

unfoldable pub lpop : Bytes → Store → Option Bytes × Store
lpop = pop front

unfoldable pub rpop : Bytes → Store → Option Bytes × Store
rpop = pop back

unfoldable pub llen : Bytes → Store → ℤ
llen key s = elim (find key s.m_lists) [ none ↦ pos 0 | some deq ↦ to_int (pos (length deq)) ]

unfoldable pub list_ptr : Bytes → Store → Option (List Bytes)
list_ptr key s = find key s.m_lists

-- The position that an index names: a negative one counts from the end.
unfoldable pub list_index : ℤ → List Bytes → Option Bytes
list_index idx deq =
    let len = to_int (pos (length deq)) in
    let i : ℤ = if ltb_ℤ idx (pos 0) then idx +ℤ len else idx in
    if ltb_ℤ i (pos 0) || leb_ℤ len i then none else get_elem? deq (pos_part i)

unfoldable pub lindex : Bytes → ℤ → Store → Option Bytes
lindex key idx s = elim (find key s.m_lists) [ none ↦ none | some deq ↦ list_index idx deq ]
