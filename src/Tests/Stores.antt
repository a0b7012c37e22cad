-- ===== src/Tests/Stores.antt =====
-- Small stores: a limited one whose least recently used key is a list, one with a deadline, one with
-- subscribers.

use socketley.Prelude.{
  ◌-◌, ◌≡◌, ◌≢◌, ◌⊎◌, refl, arith, true, false, none, some, List, [], ◌∷◌, Bytes, length, beq,
  if◌then◌else◌,
}
use socketley.Prelude.Int.{ℤ, pos}
use socketley.Map.{find, erase, assign, emplace, insert_or_assign}
use socketley.Cache.State.{
  Store, evict_none, evict_allkeys_lru, list_size, track_add, track_sub, erase_value, erase_data,
  drop_lru, drop_expiry, unlink, touch_lru, has_type_conflict_for_string,
  has_type_conflict_for_list, erase_list,
}
use socketley.Cache.Slots.{slot}
use socketley.Cache.Consistent.{IsConsistent}
use socketley.Cache.Eviction.{
  Rng, try_evict, check_memory, evict_loop, evict_at, evict_victim, victim_index, over_limit,
  is_nil,
}
use socketley.Cache.Eviction.Outcome.{try_evict_lem, push-undefined}
use socketley.Cache.Lists.{push, push_at, write_list, front, lpush}
use socketley.Cache.Commands.{Command, set, expire_cmd, get_live, lpush_cmd, exec, run}
use socketley.Cache.Commands.Invariant.{run-IsConsistent}
use socketley.Cache.Strings
use socketley.Cache.Expiry.{
  set_expiry, set_expiry_in, time_point, check_expiry_and_get_ptr, expire, get_ptr, check_expiry,
}
use socketley.Cache.General.{exists}
use socketley.Cache.Expiry.{sweep_expired}
use socketley.Cache.Expiry.Sweep.{due, elem, check_expiry_and_get_ptr-eq, sweep_expired_lem}
use socketley.Cache.Persist.{save_v2, total_size}
use socketley.Cache.Persist.Size.{length-save_v2}
use socketley.Map.{Distinct}
use socketley.Prelude.{is_some}
use socketley.Cache.Consistent.{no_slot}

abbrev pub first : Rng
first = record { pick = λ n. 0; pick-lt = λ n h. h }

abbrev pub last : Rng
last = record { pick = λ n. n - 1; pick-lt = λ n h. omega arith }

abbrev pub key : Bytes
key = 107 ∷ []

abbrev pub other : Bytes
other = 113 ∷ []

-- One list of one element under `key`, at the front of the order; the limit is four bytes.
abbrev pub full : Store
full = record {
  m_data = [];
  m_lists = (key, (120 ∷ []) ∷ []) ∷ [];
  m_sets = [];
  m_hashes = [];
  m_expiry = (key, pos 50) ∷ [];
  m_max_memory = 4;
  m_current_memory = 2;
  m_eviction = evict_allkeys_lru;
  m_lru_order = (0, key) ∷ [];
  m_lru_map = (key, 0) ∷ [];
  next_node = 1;
  m_channels = (key, 7 ∷ 8 ∷ []) ∷ (other, 7 ∷ []) ∷ [];
}

pub full-IsConsistent : IsConsistent full
unfolding slot find beq
full-IsConsistent = record { at = λ j. ground arith }

-- A string with a deadline, read when it has passed, and a list pushed after that.
abbrev pub empty : Store
empty = record full {
  m_lists = [];
  m_expiry = [];
  m_max_memory = 100;
  m_current_memory = 0;
  m_lru_order = [];
  m_lru_map = [];
  next_node = 0;
}

pub empty-IsConsistent : IsConsistent empty
unfolding slot find
empty-IsConsistent = record { at = λ j. ground arith }

abbrev pub calls : List (Rng × ℤ × Command)
calls =
    (first, pos 0, set key other)
    ∷ (last, pos 0, expire_cmd key (pos 5))
    ∷ (first, pos 5000000000, get_live key)
    ∷ (last, pos 5000000000, lpush_cmd other key)
    ∷ []

abbrev pub after : Store
after = record empty {
  m_lists = (other, key ∷ []) ∷ [];
  m_current_memory = 2;
  m_lru_order = (1, other) ∷ [];
  m_lru_map = (other, 1) ∷ [];
  next_node = 2;
}

pub calls_ends : run calls empty ≡ some after
unfolding run exec Strings.set find erase assign emplace beq set_expiry set_expiry_in exists
    has_type_conflict_for_string check_memory Strings.store_string Strings.write_string touch_lru
    track_add insert_or_assign time_point lpush push check_expiry_and_get_ptr expire erase_value
    drop_lru drop_expiry unlink erase_data track_sub has_type_conflict_for_list write_list push_at
calls_ends = refl

run-IsConsistent_example : IsConsistent after
run-IsConsistent_example = run-IsConsistent calls empty after empty-IsConsistent calls_ends

abbrev pub long : Bytes
long = 97 ∷ 98 ∷ 99 ∷ []

full_over : over_limit (length long) full ≡ true
full_over = refl

full_makes_room : (check_memory first (length long) full).0 ≡ true
unfolding check_memory try_evict evict_loop evict_at evict_victim victim_index erase_value
    erase_list list_size track_sub find erase beq
full_makes_room = refl

full_lists : is_some (find key full.m_lists) ≡ true
unfolding find beq
full_lists = refl

push-undefined_example : push first front key long full ≡ none
push-undefined_example =
    push-undefined first front 0 key long [] full full-IsConsistent refl refl full_lists
      (omega arith) full_over full_makes_room

lru_evicts : evict_allkeys_lru ≢ evict_none
lru_evicts e = ground arith

try_evict_lem_example :
    (((try_evict first 3 full).0 ≡ true) × (over_limit 3 (try_evict first 3 full).1 ≡ false))
    ⊎ (is_nil (try_evict first 3 full).1.m_lru_order ≡ true)
try_evict_lem_example = try_evict_lem first 3 full lru_evicts

check_expiry_and_get_ptr-eq_example :
    check_expiry_and_get_ptr key (pos 60) full ≡ get_ptr key (check_expiry key (pos 60) full)
check_expiry_and_get_ptr-eq_example = check_expiry_and_get_ptr-eq key (pos 60) full

full_deadlines : Distinct full.m_expiry
unfolding find
full_deadlines = ground arith

sweep_expired_lem_example :
    (slot key (sweep_expired (pos 60) full).1
      ≡ (if due (pos 60) (slot key full).deadline then no_slot else slot key full))
    × (elem key (sweep_expired (pos 60) full).0 ≡ due (pos 60) (slot key full).deadline)
sweep_expired_lem_example = sweep_expired_lem key (pos 60) full full-IsConsistent full_deadlines

length-save_v2_example : length (save_v2 (pos 20) full) ≡ total_size full
length-save_v2_example = length-save_v2 (pos 20) full

full_channels : Distinct full.m_channels
unfolding find beq
full_channels = ground arith
