-- ===== src/Cache/Expiry.antt =====
-- The section "TTL / Expiry" of cache_store.cpp. `now` is what the steady clock reads in the call.
pub mod Soundness
pub mod Sweep
pub mod Lifetime
use socketley.Prelude.{
  ℕ, ◌^◌, Bool, true, false, Option, none, some, List, [], ◌∷◌, Bytes, if◌then◌else◌,
}
use socketley.Prelude.Int.{ℤ, negsuc, ◌+ℤ◌, ◌-ℤ◌, leb_ℤ, ltb_ℤ, scale, tdiv}
use socketley.Prelude.Words.{to_int, in_range}
use socketley.Map.{Map, find, contains, insert_or_assign, is_empty}
use socketley.Cache.State.{Store, touch_lru, drop_expiry, drop_lru, erase_value}
use socketley.Cache.General.{del, exists}

-- A time point `amount` units of `unit` nanoseconds after `now`; none where the 64-bit count of
-- nanoseconds overflows, which is undefined.
unfoldable pub time_point : ℤ → ℕ → ℤ → Option ℤ
time_point now unit amount =
    let tp = now +ℤ scale unit amount in if in_range (2 ^ 63) tp then some tp else none

-- `set_expiry` (unit: a second) and `set_expiry_ms` (unit: a millisecond).
unfoldable pub set_expiry_in : ℕ → Bytes → ℤ → ℤ → Store → Option (Bool × Store)
set_expiry_in unit key amount now s =
    if exists key s
    then (elim (time_point now unit amount) [
      | none ↦ none
      | some tp ↦ some (true, record s { m_expiry = insert_or_assign key tp s.m_expiry })
    ])
    else some (false, s)

abbrev pub second : ℕ
second = 1_000_000_000

abbrev pub millisecond : ℕ
millisecond = 1_000_000

unfoldable pub set_expiry : Bytes → ℤ → ℤ → Store → Option (Bool × Store)
set_expiry key seconds now s = set_expiry_in second key seconds now s

unfoldable pub set_expiry_ms : Bytes → ℤ → ℤ → Store → Option (Bool × Store)
set_expiry_ms key ms now s = set_expiry_in millisecond key ms now s

unfoldable pub get_ttl : Bytes → ℤ → Store → ℤ
get_ttl key now s =
    if exists key s
    then (elim (find key s.m_expiry) [
      | none ↦ negsuc 0
      | some tp ↦ to_int (tdiv (tp -ℤ now) second)
    ])
    else negsuc 1

unfoldable pub get_pttl : Bytes → ℤ → Store → ℤ
get_pttl key now s =
    if exists key s
    then (elim (find key s.m_expiry) [ none ↦ negsuc 0 | some tp ↦ tdiv (tp -ℤ now) millisecond ])
    else negsuc 1

unfoldable pub persist : Bytes → Store → Bool × Store
persist key s = if contains key s.m_expiry then (true, drop_expiry key s) else (false, s)

-- The body of `check_expiry` once the deadline has passed.
unfoldable pub expire : Bytes → Store → Store
expire key s = (erase_value key (drop_lru key (drop_expiry key s))).1

unfoldable pub check_expiry : Bytes → ℤ → Store → Store
check_expiry key now s = if is_empty s.m_expiry then s else elim (find key s.m_expiry) [
  | none ↦ s
  | some tp ↦ if ltb_ℤ now tp then s else expire key s
]

unfoldable pub get_ptr : Bytes → Store → Option Bytes × Store
get_ptr key s = elim (find key s.m_data) [
  | none ↦ (none, s)
  | some value ↦ (some value, touch_lru key s)
]

-- The fused form on the path of GET: a key that has expired is removed and null returned at once.
unfoldable pub check_expiry_and_get_ptr : Bytes → ℤ → Store → Option Bytes × Store
check_expiry_and_get_ptr key now s =
    if is_empty s.m_expiry then get_ptr key s else elim (find key s.m_expiry) [
      | none ↦ get_ptr key s
      | some tp ↦ if leb_ℤ tp now then (none, expire key s) else get_ptr key s
    ]

-- The first loop of `sweep_expired`: the keys whose deadline has passed.
unfoldable pub expired_keys : ℤ → Map ℤ → List Bytes
expired_keys now [] = []
expired_keys now ((key, tp) ∷ m) =
    let rest = expired_keys now m in if leb_ℤ tp now then key ∷ rest else rest

unfoldable pub del_all : List Bytes → Store → Store
del_all [] s = s
del_all (key ∷ keys) s = del_all keys (del key s).1

unfoldable pub sweep_expired : ℤ → Store → List Bytes × Store
sweep_expired now s = (expired_keys now s.m_expiry, del_all (expired_keys now s.m_expiry) s)
