-- ===== src/Cache/State.antt =====
-- The members of `cache_store`, the accounting helpers of its header, the checks for a key of
-- another type, `touch_lru`, and the erasing of a key that several operations share.
use socketley.Prelude.{
  ℕ, suc, ◌+◌, ◌-◌, ◌%◌, ◌^◌, Bool, true, false, ◌||◌, ◌&&◌, not, none, some, List, [], ◌∷◌, ◌++◌,
  Bytes, length, ltb, ◌==◌, if◌then◌else◌,
}
use socketley.Prelude.Int.{ℤ}
use socketley.Map.{Map, find, erase, assign, emplace, contains, is_empty, total}

pub data EvictionPolicy : Type 0 where
  evict_none evict_allkeys_lru evict_allkeys_random : EvictionPolicy

-- A set of strings, and the value of a hash key.
abbrev pub SetInner : Type 0
SetInner = Map (Unit {0})

abbrev pub HashInner : Type 0
HashInner = Map Bytes

-- A node of `m_lru_order` has an identity, for which the iterators in `m_lru_map` stand; `next_node`
-- is an identity never used. Time points are nanoseconds of the steady clock.
pub record Store : Type 0 where
  pub m_data : Map Bytes
  pub m_lists : Map (List Bytes)
  pub m_sets : Map SetInner
  pub m_hashes : Map HashInner
  pub m_expiry : Map ℤ
  pub m_max_memory : ℕ
  pub m_current_memory : ℕ
  pub m_eviction : EvictionPolicy
  pub m_lru_order : List (ℕ × Bytes)
  pub m_lru_map : Map ℕ
  pub next_node : ℕ
  pub m_channels : Map (List ℕ)

-- The range of `size_t`.
abbrev pub size_mod : ℕ
size_mod = 2 ^ 64

unfoldable pub track_add : ℕ → Store → Store
track_add bytes s = record s { m_current_memory = (s.m_current_memory + bytes) % size_mod }

unfoldable pub track_sub : ℕ → Store → Store
track_sub bytes s =
    if ltb s.m_current_memory bytes
    then record s { m_current_memory = 0 }
    else record s { m_current_memory = s.m_current_memory - bytes }

-- The bytes of an element list, of a set and of a hash: the loops `mem += e.size()`.
unfoldable pub list_size : List Bytes → ℕ
list_size [] = 0
list_size (e ∷ deq) = length e + list_size deq

unfoldable pub set_size : SetInner → ℕ
set_size = total (λ e _. length e)

unfoldable pub hash_size : HashInner → ℕ
hash_size = total (λ f v. length f + length v)

unfoldable pub has_type_conflict_for_string : Bytes → Store → Bool
has_type_conflict_for_string key s =
    (not (is_empty s.m_lists) && contains key s.m_lists)
    || (not (is_empty s.m_sets) && contains key s.m_sets)
    || (not (is_empty s.m_hashes) && contains key s.m_hashes)

unfoldable pub has_type_conflict_for_list : Bytes → Store → Bool
has_type_conflict_for_list key s =
    (not (is_empty s.m_data) && contains key s.m_data)
    || (not (is_empty s.m_sets) && contains key s.m_sets)
    || (not (is_empty s.m_hashes) && contains key s.m_hashes)

unfoldable pub has_type_conflict_for_set : Bytes → Store → Bool
has_type_conflict_for_set key s =
    (not (is_empty s.m_data) && contains key s.m_data)
    || (not (is_empty s.m_lists) && contains key s.m_lists)
    || (not (is_empty s.m_hashes) && contains key s.m_hashes)

unfoldable pub has_type_conflict_for_hash : Bytes → Store → Bool
has_type_conflict_for_hash key s =
    (not (is_empty s.m_data) && contains key s.m_data)
    || (not (is_empty s.m_lists) && contains key s.m_lists)
    || (not (is_empty s.m_sets) && contains key s.m_sets)

-- `m_lru_order.erase(it)`: the node with the iterator's identity goes.
unfoldable pub unlink : ℕ → List (ℕ × Bytes) → List (ℕ × Bytes)
unlink node [] = []
unlink node ((n, k) ∷ order) = if n == node then order else (n, k) ∷ unlink node order

unfoldable pub set_max_memory : ℕ → Store → Store
set_max_memory bytes s = record s { m_max_memory = bytes }

unfoldable pub set_eviction : EvictionPolicy → Store → Store
set_eviction policy s = record s { m_eviction = policy }

unfoldable pub touch_lru : Bytes → Store → Store
touch_lru key s = if s.m_max_memory == 0 then s else elim (find key s.m_lru_map) [
  | some node ↦ record s {
    m_lru_order = unlink node s.m_lru_order ++ (s.next_node, key) ∷ [];
    m_lru_map = assign key s.next_node s.m_lru_map;
    next_node = suc s.next_node;
  }
  | none ↦ record s {
    m_lru_order = s.m_lru_order ++ (s.next_node, key) ∷ [];
    m_lru_map = emplace key s.next_node s.m_lru_map;
    next_node = suc s.next_node;
  }
]

-- The removal of a key from the eviction order, as `del` and the expiry checks write it.
unfoldable pub drop_lru : Bytes → Store → Store
drop_lru key s = elim (find key s.m_lru_map) [
  | some node ↦ record s {
    m_lru_order = unlink node s.m_lru_order;
    m_lru_map = erase key s.m_lru_map;
  }
  | none ↦ s
]

unfoldable pub drop_expiry : Bytes → Store → Store
drop_expiry key s = record s { m_expiry = erase key s.m_expiry }

unfoldable pub erase_data : Bytes → Bytes → Store → Store
erase_data key value s =
    let t = track_sub (length key + length value) s in record t { m_data = erase key t.m_data }

unfoldable pub erase_list : Bytes → List Bytes → Store → Store
erase_list key deq s =
    let t = track_sub (length key + list_size deq) s in record t { m_lists = erase key t.m_lists }

unfoldable pub erase_set : Bytes → SetInner → Store → Store
erase_set key members s =
    let t = track_sub (length key + set_size members) s in record t { m_sets = erase key t.m_sets }

unfoldable pub erase_hash : Bytes → HashInner → Store → Store
erase_hash key fields s =
    let t = track_sub (length key + hash_size fields) s in
    record t { m_hashes = erase key t.m_hashes }

-- The cascade that deletes a key from whichever container holds it; it tells whether one did. The
-- same text stands in `del`, `check_expiry`, `check_expiry_and_get_ptr` and twice in `try_evict`.
unfoldable pub erase_value : Bytes → Store → Bool × Store
erase_value key s = elim (find key s.m_data) [
  | some value ↦ (true, erase_data key value s)
  | none ↦ elim (find key s.m_lists) [
    | some deq ↦ (true, erase_list key deq s)
    | none ↦ elim (find key s.m_sets) [
      | some members ↦ (true, erase_set key members s)
      | none ↦ elim (find key s.m_hashes) [
        | some fields ↦ (true, erase_hash key fields s)
        | none ↦ (false, s)
      ]
    ]
  ]
]
