-- ===== src/Cache/Eviction/Outcome.antt =====
-- How `try_evict` ends, and what an eviction does to the entry that a push has just found.
use socketley.Prelude.{
  ℕ, zero, suc, ◌+◌, ◌≤◌, ◌<◌, ◌≡◌, ◌≢◌, refl, ◌⊎◌, inl, inr, arith, true, false, ◌&&◌, not, none,
  List, [], ◌∷◌, Bytes, beq_refl, length, get_elem?, remove_at, length-remove_at, Bool-cases,
  Option-cases, is_some,
}
use socketley.Map.{find}
use socketley.Cache.State.{
  Store, evict_none, evict_allkeys_lru, erase_value, erase_data, erase_list, erase_set, erase_hash,
  track_sub,
}
use socketley.Cache.Slots.{slot, list-slot}
use socketley.Cache.Eviction.{
  Rng, evict_victim, evict_at, victim_index, evict_loop, try_evict, check_memory, over_limit,
  is_nil,
}
use socketley.Cache.Consistent.{
  IsConsistent, Spared-evict_loop, slot-evict_victim, no_slot, no_slot-IsSound,
}
use socketley.Cache.Lists.{End, push, push_existing}

m_lru_order-erase_value :
    (key : Bytes) (s : Store) → (erase_value key s).1.m_lru_order ≡ s.m_lru_order
unfolding erase_value erase_data erase_list erase_set erase_hash track_sub
m_lru_order-erase_value key s = ground arith

length-pos {ℓ} : {A : Type ℓ} (xs : List A) → is_nil xs ≡ false → 0 < length xs
length-pos [] h = ground arith
length-pos (x ∷ xs) h = omega arith

is_nil_of_length {ℓ} : {A : Type ℓ} (xs : List A) → length xs ≤ 0 → is_nil xs ≡ true
is_nil_of_length [] h = refl
is_nil_of_length (x ∷ xs) h = absurd (omega arith)

get_elem?-ne-none {ℓ} : {A : Type ℓ} (xs : List A) (i : ℕ) → i < length xs → get_elem? xs i ≢ none
get_elem?-ne-none [] i h = absurd (omega arith)
get_elem?-ne-none (x ∷ xs) zero h = ground arith
get_elem?-ne-none (x ∷ xs) (suc i) h = get_elem?-ne-none xs i (omega arith)

m_lru_order-evict_victim :
    (i : ℕ) (victim : Bytes) (s : Store)
    → (evict_victim i victim s).m_lru_order ≡ remove_at i s.m_lru_order
unfolding evict_victim
m_lru_order-evict_victim i victim s = m_lru_order-erase_value victim _

length-evict_at :
    (i : ℕ) (s : Store)
    → i < length s.m_lru_order
    → length (evict_at i s).m_lru_order + 1 ≡ length s.m_lru_order
unfolding evict_at
length-evict_at i s h = elim (Option-cases (get_elem? s.m_lru_order i)) [
  | inl out ↦ absurd (get_elem?-ne-none s.m_lru_order i h out)
  | inr ((node, victim), e) ↦
      rw (e, evict_at, m_lru_order-evict_victim) (length-remove_at i s.m_lru_order h)
]

victim_index-lt :
    (r : Rng) (s : Store) → is_nil s.m_lru_order ≡ false → victim_index r s < length s.m_lru_order
unfolding victim_index
victim_index-lt r s h =
    let filled = length-pos s.m_lru_order h in
    ground (arith, r.pick-lt (length s.m_lru_order) filled)

-- With a round for each node the loop ends by its own test.
evict_loop-ends :
    (r : Rng) (needed fuel : ℕ) (s : Store)
    → length s.m_lru_order ≤ fuel
    → (over_limit needed (evict_loop r needed fuel s)
        && not (is_nil (evict_loop r needed fuel s).m_lru_order))
      ≡ false
unfolding evict_loop
evict_loop-ends r needed zero s h = ground (arith, is_nil_of_length s.m_lru_order h)
evict_loop-ends r needed (suc fuel) s h =
    elim (Bool-cases (over_limit needed s && not (is_nil s.m_lru_order))) [
      | inr stop ↦ rw (stop, evict_loop) stop
      | inl more ↦
          let i = victim_index r s in
          let filled : is_nil s.m_lru_order ≡ false = ground arith in
          let shorter = length-evict_at i s (victim_index-lt r s filled) in
          rw (more, evict_loop) (evict_loop-ends r needed fuel (evict_at i s) (omega arith))
    ]

-- With a policy that evicts, `try_evict` ends with the memory within the limit, and says so, or with
-- nothing left to evict.
pub try_evict_lem :
    (r : Rng) (needed : ℕ) (s : Store)
    → s.m_eviction ≢ evict_none
    → (((try_evict r needed s).0 ≡ true) × (over_limit needed (try_evict r needed s).1 ≡ false))
      ⊎ (is_nil (try_evict r needed s).1.m_lru_order ≡ true)
unfolding try_evict
try_evict_lem r needed s policy =
    let n = length s.m_lru_order in ground (arith, evict_loop-ends r needed n s (omega arith))

-- A key with no slot stays without one.
gone-evict_loop :
    (j : Bytes) (r : Rng) (needed fuel : ℕ) (s : Store)
    → slot j s ≡ no_slot
    → slot j (evict_loop r needed fuel s) ≡ no_slot
gone-evict_loop j r needed fuel s h =
    let spared = Spared-evict_loop j r needed fuel s (rw h no_slot-IsSound) in ground arith

-- The key at the front of the order goes in the first round.
front-evicted :
    (r : Rng) (needed fuel node : ℕ) (key : Bytes) (order : List (ℕ × Bytes)) (s : Store)
    → IsConsistent s
    → s.m_eviction ≡ evict_allkeys_lru
    → s.m_lru_order ≡ (node, key) ∷ order
    → over_limit needed s ≡ true
    → slot key (evict_loop r needed (suc fuel) s) ≡ no_slot
unfolding evict_loop victim_index evict_at
front-evicted r needed fuel node key order s h policy front over =
    let t = evict_victim 0 key s in
    let gone : slot key t ≡ no_slot =
      rw (slot-evict_victim key s (h.at key) 0 key, beq_refl) refl in
    ground (arith, gone-evict_loop key r needed fuel t gone)

-- A push to a list that is the least recently used key follows a dangling iterator whenever the
-- eviction that it starts makes room: the entry found before `check_memory` has been erased.
pub push-undefined :
    (r : Rng) (e : End) (node : ℕ) (key val : Bytes) (order : List (ℕ × Bytes)) (s : Store)
    → IsConsistent s
    → s.m_eviction ≡ evict_allkeys_lru
    → s.m_lru_order ≡ (node, key) ∷ order
    → is_some (find key s.m_lists) ≡ true
    → 0 < s.m_max_memory
    → over_limit (length val) s ≡ true
    → (check_memory r (length val) s).0 ≡ true
    → push r e key val s ≡ none
unfolding push push_existing check_memory try_evict
push-undefined r e node key val order s h policy front there limited over fits =
    let gone = front-evicted r (length val) (length order) node key order s h policy front over in
    ground (arith, gone, list-slot key (evict_loop r (length val) (suc (length order)) s))

-- Where nothing is evicted, a push is defined.
pub push-defined :
    (r : Rng) (e : End) (key val : Bytes) (s : Store)
    → s.m_eviction ≡ evict_none
    → push r e key val s ≢ none
unfolding push push_existing check_memory try_evict
push-defined r e key val s policy = ground arith
