-- ===== src/Tests/Contents.antt =====
-- What operations store and give back, at small stores.
use socketley.Tests.Stores.{
  first, key, other, full, empty, long, full-IsConsistent, empty-IsConsistent,
}
use socketley.Cache.Sets.{sadd, sismember, write_set}
use socketley.Cache.Hashes.{hset, hget, write_hash}
use socketley.Cache.Sets.Contents.{sismember-sadd}
use socketley.Cache.Hashes.Contents.{hget-hset}
use socketley.Cache.State.{has_type_conflict_for_set, has_type_conflict_for_hash}
use socketley.Prelude.{Bytes}
use socketley.Cache.Persist.{type_list}
use socketley.Cache.Persist.Load.{
  load_v2, load_loop, load_value, load_list, finish, read_expiry, read_u8, read_le, le_value,
  read_string, read_list, keeps_value, put_list, clear,
}
use socketley.Cache.Persist.Accounting.{load_v2_unaccounted}
use socketley.Cache.Eviction.Limit.{set-over_limit}
use socketley.Prelude.Int.{negsuc}
use socketley.Prelude.{◌<◌, ◌≤◌, ◌+◌, ◌-◌, ◌*◌}
use socketley.Cache.Lists.{back, pop}
use socketley.Cache.Lists.Contents.{pop-push}
use socketley.Cache.Strings.Contents.{set_lem}
use socketley.Cache.Expiry.{second, get_ttl}
use socketley.Cache.Expiry.Lifetime.{set_expiry_lem}
use socketley.Prelude.{◌≡◌, ◌≢◌, refl, arith, true, false, some, [], ◌∷◌, beq, if◌then◌else◌}
use socketley.Prelude.Int.{pos}
use socketley.Map.{find, assign, emplace, insert_or_assign}
use socketley.Cache.State.{Store, track_add, touch_lru, has_type_conflict_for_list}
use socketley.Cache.Slots.{slot}
use socketley.Cache.Consistent.{Spared}
use socketley.Cache.Eviction.{check_memory}
use socketley.Cache.Lists.{push, push_at, write_list}
use socketley.Cache.Strings
use socketley.Cache.Expiry.{set_expiry, set_expiry_in, time_point, check_expiry}
use socketley.Cache.General.{exists}
use socketley.Prelude.{is_some}
use socketley.Cache.Consistent.{no_slot}

-- A push to `empty`, and a string with a deadline there.
abbrev pushed : Store
pushed = record empty {
  m_lists = (other, key ∷ []) ∷ [];
  m_current_memory = 2;
  m_lru_order = (0, other) ∷ [];
  m_lru_map = (other, 0) ∷ [];
  next_node = 1;
}

push_ends : push first back other key empty ≡ some (true, pushed)
unfolding find assign emplace beq has_type_conflict_for_list check_memory touch_lru track_add
    insert_or_assign push write_list push_at
push_ends = refl

pop-push_example :
    ((pop back other pushed).0 ≡ some key)
    × ((slot other (pop back other pushed).1).list ≡ (slot other empty).list)
pop-push_example = pop-push first back other key empty pushed empty-IsConsistent push_ends

abbrev timed : Store
timed = record full { m_expiry = (key, pos 5000000000) ∷ [] }

timed_ends : set_expiry key (pos 5) (pos 0) full ≡ some (true, timed)
unfolding find assign beq set_expiry set_expiry_in exists time_point insert_or_assign
timed_ends = refl

set_expiry_lem_example :
    (3 < 5
      → (slot key (check_expiry key (pos (0 + second * 3)) timed) ≡ slot key timed)
        × (get_ttl key (pos (0 + second * 3)) timed ≡ pos (5 - 3)))
    × (5 ≤ 3 → slot key (check_expiry key (pos (0 + second * 3)) timed) ≡ no_slot)
set_expiry_lem_example =
    set_expiry_lem key 5 0 3 full timed full-IsConsistent (omega arith) timed_ends

set_lem_example :
    ((Strings.set first key long empty).0 ≡ true
      → (slot key (Strings.set first key long empty).1).string ≡ some long)
    × ((Strings.set first key long empty).0 ≡ false
        → Spared other empty (Strings.set first key long empty).1)
    × (beq key other ≡ false → Spared other empty (Strings.set first key long empty).1)
    × (is_some (slot key empty).string ≡ true
        → slot other (Strings.set first key long empty).1 ≡ (
            if beq key other
            then record (slot other empty) { string = some long }
            else slot other empty))
set_lem_example = set_lem first other key long empty empty-IsConsistent

abbrev with_set : Store
with_set = record empty {
  m_sets = (other, (key, tt) ∷ []) ∷ [];
  m_current_memory = 2;
  m_lru_order = (0, other) ∷ [];
  m_lru_map = (other, 0) ∷ [];
  next_node = 1;
}

sadd_ends : sadd first other key empty ≡ some (pos 1, with_set)
unfolding find assign emplace beq has_type_conflict_for_set check_memory touch_lru track_add
    insert_or_assign sadd write_set
sadd_ends = refl

one_is_answer : pos 1 ≢ negsuc 0
one_is_answer e = ground arith

sismember-sadd_example :
    (sismember other key with_set ≡ (if beq key key then true else sismember other key empty))
    × (pos 1 ≡ (if sismember other key empty then pos 0 else pos 1))
sismember-sadd_example =
    sismember-sadd first other key key (pos 1) empty with_set empty-IsConsistent sadd_ends
      one_is_answer

abbrev with_hash : Store
with_hash = record empty {
  m_hashes = (other, (key, long) ∷ []) ∷ [];
  m_current_memory = 5;
  m_lru_order = (0, other) ∷ [];
  m_lru_map = (other, 0) ∷ [];
  next_node = 1;
}

hset_ends : hset first other key long empty ≡ some (true, with_hash)
unfolding find assign emplace beq has_type_conflict_for_hash check_memory touch_lru track_add
    insert_or_assign hset write_hash
hset_ends = refl

hget-hset_example :
    hget other key with_hash ≡ (if beq key key then some long else hget other key empty)
hget-hset_example = hget-hset first other key long key empty with_hash empty-IsConsistent hset_ends

abbrev with_string : Store
with_string = record full { m_data = (key, other) ∷ []; m_lists = [] }

with_string_has : find key with_string.m_data ≡ some other
unfolding find beq
with_string_has = refl

set-over_limit_example :
    ((Strings.set first key (100 ∷ long) with_string).0 ≡ true)
    × ((Strings.set first key (100 ∷ long) with_string).1.m_max_memory
        < (Strings.set first key (100 ∷ long) with_string).1.m_current_memory)
set-over_limit_example =
    set-over_limit first key other (100 ∷ long) with_string with_string_has (omega arith)
      (omega arith) (omega arith)

-- One list of one element, as `save_v2` writes it, and what `load_v2` makes of it.
abbrev snapshot : Bytes
snapshot = type_list ∷ 1 ∷ 0 ∷ 0 ∷ 0 ∷ 107 ∷ 1 ∷ 0 ∷ 0 ∷ 0 ∷ 1 ∷ 0 ∷ 0 ∷ 0 ∷ 120 ∷ 0 ∷ []

abbrev loaded : Store
loaded = record full { m_expiry = []; m_current_memory = 0; m_lru_order = []; m_lru_map = [] }

snapshot_loads : load_v2 (pos 0) snapshot full ≡ some (true, loaded)
unfolding load_v2 load_loop load_value load_list finish read_expiry read_u8 read_le le_value
    read_string read_list keeps_value put_list clear find insert_or_assign assign beq
snapshot_loads = refl

load_v2_unaccounted_example : (loaded.m_current_memory ≡ 0) × (loaded.m_lru_order ≡ [])
load_v2_unaccounted_example = load_v2_unaccounted (pos 0) snapshot full loaded true snapshot_loads
