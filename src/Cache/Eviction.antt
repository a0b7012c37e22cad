-- ===== src/Cache/Eviction.antt =====
-- `check_memory` and `try_evict`. The random generator is the standard library's: a value of `Rng`
-- is what `uniform_int_distribution(0, n - 1)` draws. Within one call of `try_evict` no two rounds
-- see the same number of nodes, so a function of that number covers every sequence of draws.
pub mod Outcome
pub mod Limit
use socketley.Prelude.{
  ℕ, zero, suc, ◌+◌, ◌%◌, ◌<◌, Bytes, Bool, true, false, not, ◌&&◌, none, some, List, [], ◌∷◌,
  length, get_elem?, remove_at, leb, ltb, ◌==◌, if◌then◌else◌,
}
use socketley.Map.{erase}
use socketley.Cache.State.{Store, evict_none, evict_allkeys_lru, size_mod, erase_value}

pub record Rng : Type 0 where
  pub pick : ℕ → ℕ
  pub pick-lt : (n : ℕ) → 0 < n → pick n < n

-- The removal of the chosen victim, whose node stands at position `i` of the order.
unfoldable pub evict_victim : ℕ → Bytes → Store → Store
evict_victim i victim s =
    (erase_value victim (record s {
      m_lru_order = remove_at i s.m_lru_order;
      m_lru_map = erase victim s.m_lru_map;
      m_expiry = erase victim s.m_expiry;
    })).1

-- One round of the loop, at the node that the policy chose.
unfoldable pub evict_at : ℕ → Store → Store
evict_at i s = elim (get_elem? s.m_lru_order i) [
  | none ↦ s
  | some (node, victim) ↦ evict_victim i victim s
]

-- The front of the order, or a random position.
unfoldable pub victim_index : Rng → Store → ℕ
victim_index r s = elim s.m_eviction [ evict_allkeys_lru ↦ 0 | _ ↦ r.pick (length s.m_lru_order) ]

abbrev pub over_limit : ℕ → Store → Bool
over_limit needed s = ltb s.m_max_memory ((s.m_current_memory + needed) % size_mod)

abbrev pub is_nil {ℓ} : {A : Type ℓ} → List A → Bool
is_nil [] = true
is_nil (x ∷ xs) = false

-- The `while` loop; a round removes one node, so the length of the order is fuel enough.
unfoldable pub evict_loop : Rng → ℕ → ℕ → Store → Store
evict_loop r needed zero s = s
evict_loop r needed (suc fuel) s = elim (over_limit needed s && not (is_nil s.m_lru_order)) [
  | true ↦ evict_loop r needed fuel (evict_at (victim_index r s) s)
  | false ↦ s
]

unfoldable pub try_evict : Rng → ℕ → Store → Bool × Store
try_evict r needed s = elim s.m_eviction [
  | evict_none ↦ (false, s)
  | _ ↦
      let s' = evict_loop r needed (length s.m_lru_order) s in
      (leb ((s'.m_current_memory + needed) % size_mod) s'.m_max_memory, s')
]

unfoldable pub check_memory : Rng → ℕ → Store → Bool × Store
check_memory r needed s =
    if s.m_max_memory == 0
    then (true, s)
    else if leb ((s.m_current_memory + needed) % size_mod) s.m_max_memory
    then (true, s)
    else try_evict r needed s
