-- ===== src/Cache/Eviction/Limit.antt =====
-- The memory limit: what `check_memory` promises, and the path of `set` that does not ask it.
use socketley.Prelude.{
  ℕ, zero, suc, ◌+◌, ◌%◌, ◌≤◌, ◌<◌, ◌≡◌, refl, ◌⊎◌, inl, inr, arith, true, false, some, Bytes,
  length, get_elem?, Option-cases,
}
use socketley.Map.{find, insert_or_assign}
use socketley.Cache.State.{
  Store, evict_none, size_mod, erase_value, erase_data, erase_list, erase_set, erase_hash,
  track_add, track_sub, touch_lru,
}
use socketley.Cache.Frames.{m_current_memory-touch_lru}
use socketley.Cache.Eviction.{
  Rng, evict_victim, evict_at, victim_index, evict_loop, try_evict, check_memory, is_nil,
}
use socketley.Cache.Eviction.Outcome.{try_evict_lem}
use socketley.Cache.Strings.{set, overwrite_string, write_string}

m_max_memory-erase_value :
    (key : Bytes) (s : Store) → (erase_value key s).1.m_max_memory ≡ s.m_max_memory
unfolding erase_value erase_data erase_list erase_set erase_hash track_sub
m_max_memory-erase_value key s = ground arith

m_max_memory-evict_victim :
    (i : ℕ) (victim : Bytes) (s : Store) → (evict_victim i victim s).m_max_memory ≡ s.m_max_memory
unfolding evict_victim
m_max_memory-evict_victim i victim s = m_max_memory-erase_value victim _

m_max_memory-evict_at : (i : ℕ) (s : Store) → (evict_at i s).m_max_memory ≡ s.m_max_memory
unfolding evict_at
m_max_memory-evict_at i s = elim (Option-cases (get_elem? s.m_lru_order i)) [
  | inl out ↦ ground arith
  | inr ((node, victim), e) ↦ ground (arith, m_max_memory-evict_victim i victim s)
]

m_max_memory-evict_loop :
    (r : Rng) (needed fuel : ℕ) (s : Store)
    → (evict_loop r needed fuel s).m_max_memory ≡ s.m_max_memory
unfolding evict_loop
m_max_memory-evict_loop r needed zero s = refl
m_max_memory-evict_loop r needed (suc fuel) s =
    let i = victim_index r s in
    ground (arith, m_max_memory-evict_loop r needed fuel (evict_at i s), m_max_memory-evict_at i s)

-- With a limit, where `check_memory` answers true the bytes asked for fit under it; where it answers
-- false, nothing may be evicted or nothing is left to evict. The limit itself does not change.
pub check_memory_lem :
    (r : Rng) (needed : ℕ) (s : Store)
    → 0 < s.m_max_memory
    → ((check_memory r needed s).0 ≡ true
        → ((check_memory r needed s).1.m_current_memory + needed) % size_mod ≤ s.m_max_memory)
      × ((check_memory r needed s).0 ≡ false
          → (s.m_eviction ≡ evict_none) ⊎ (is_nil (check_memory r needed s).1.m_lru_order ≡ true))
      × ((check_memory r needed s).1.m_max_memory ≡ s.m_max_memory)
unfolding check_memory try_evict
check_memory_lem r needed s limited =
    ground
      (arith, try_evict_lem r needed s, m_max_memory-evict_loop r needed (length s.m_lru_order) s)

m_max_memory-touch_lru : (key : Bytes) (s : Store) → (touch_lru key s).m_max_memory ≡ s.m_max_memory
unfolding touch_lru
m_max_memory-touch_lru key s = ground arith

-- `set` on a key that is a string answers true and leaves the store over its limit, whenever the
-- old bytes are accounted and the new ones, in the range of `size_t`, do not fit.
pub set-over_limit :
    (r : Rng) (key old new : Bytes) (s : Store)
    → find key s.m_data ≡ some old
    → length old ≤ s.m_current_memory
    → s.m_max_memory + length old < s.m_current_memory + length new
    → s.m_current_memory + length new < size_mod
    → ((set r key new s).0 ≡ true)
      × ((set r key new s).1.m_max_memory < (set r key new s).1.m_current_memory)
unfolding set overwrite_string write_string track_add track_sub
set-over_limit r key old new s found held over small =
    let t =
      track_add (length new)
        (record (track_sub (length old) s) { m_data = insert_or_assign key new s.m_data }) in
    ground (arith, m_current_memory-touch_lru key t, m_max_memory-touch_lru key t)
