-- ===== src/Cache/Lru/Helpers.antt =====
-- The helpers of the store keep every iterator of the eviction order valid.
use socketley.Prelude.{
  ℕ, zero, suc, ◌≡◌, refl, inl, inr, arith, ◌&&◌, not, none, Bytes, beq_refl, get_elem?, length,
  ◌==◌, Option-cases, Bool-cases,
}
use socketley.Prelude.Int.{ℤ}
use socketley.Map.{find, erase, assign}
use socketley.Map.Laws.{find-erase, find-assign, find-emplace}
use socketley.Cache.State.{
  Store, track_add, track_sub, touch_lru, drop_lru, drop_expiry, erase_value, erase_data,
  erase_list, erase_set, erase_hash,
}
use socketley.Cache.Eviction.{
  Rng, evict_victim, evict_at, victim_index, evict_loop, try_evict, check_memory, over_limit,
  is_nil,
}
use socketley.Cache.Expiry.{expire, check_expiry}
use socketley.Cache.Lists.{forget_key}
use socketley.Cache.Lru.{Linked, Linked-erase, Linked-drop, Linked-evict, Linked-push, Linked-ext}

pub record IsLinked (s : Store) : Type 0 where
  pub links : Linked s.m_lru_order s.m_lru_map s.next_node

-- The operation left the eviction order alone.
abbrev pub SameLru : Store → Store → Type 0
SameLru s t =
    (t.m_lru_order ≡ s.m_lru_order) × (t.m_lru_map ≡ s.m_lru_map) × (t.next_node ≡ s.next_node)

pub IsLinked-same : (s t : Store) → SameLru s t → IsLinked s → IsLinked t
IsLinked-same s t (a, b, c) h = record { links = rw (a, b, c) h.links }

pub SameLru-track_add : (n : ℕ) (s : Store) → SameLru s (track_add n s)
unfolding track_add
SameLru-track_add n s = (refl, refl, refl)

pub SameLru-track_sub : (n : ℕ) (s : Store) → SameLru s (track_sub n s)
unfolding track_sub
SameLru-track_sub n s = ground arith

pub SameLru-erase_value : (key : Bytes) (s : Store) → SameLru s (erase_value key s).1
unfolding erase_value erase_data erase_list erase_set erase_hash track_sub
SameLru-erase_value key s = ground arith

pub touch_lru-IsLinked : (key : Bytes) (s : Store) → IsLinked s → IsLinked (touch_lru key s)
unfolding touch_lru
touch_lru-IsLinked key s h = elim (Bool-cases (s.m_max_memory == 0)) [
  | inl off ↦ rw (off, touch_lru) h
  | inr on ↦ elim (Option-cases (find key s.m_lru_map)) [
    | inl absent ↦
        rw (on, absent, touch_lru)
          (record { links = Linked-push s.m_lru_order s.m_lru_map s.next_node h.links key absent })
    | inr (node, there) ↦
        let dropped = Linked-drop s.m_lru_order s.m_lru_map s.next_node h.links key node there in
        let absent : find key (erase key s.m_lru_map) ≡ none =
          ground (arith, find-erase key key s.m_lru_map, beq_refl key) in
        let pushed = Linked-push _ _ s.next_node dropped key absent in
        rw (on, there, touch_lru)
          (record {
            links =
                Linked-ext _ _ (assign key s.next_node s.m_lru_map) _
                  (λ k. ground (
                    arith,
                    find-assign key k s.next_node s.m_lru_map,
                    find-emplace key k s.next_node (erase key s.m_lru_map),
                    find-erase key k s.m_lru_map,
                  ))
                  pushed;
          })
  ]
]

pub drop_lru-IsLinked : (key : Bytes) (s : Store) → IsLinked s → IsLinked (drop_lru key s)
unfolding drop_lru
drop_lru-IsLinked key s h = elim (Option-cases (find key s.m_lru_map)) [
  | inl absent ↦ rw (absent, drop_lru) h
  | inr (node, there) ↦
      rw (there, drop_lru)
        (record {
          links = Linked-drop s.m_lru_order s.m_lru_map s.next_node h.links key node there;
        })
]

pub forget_key-IsLinked : (key : Bytes) (s : Store) → IsLinked s → IsLinked (forget_key key s)
unfolding forget_key
forget_key-IsLinked key s h =
    let t = track_sub (length key) s in
    let ht = IsLinked-same s t (SameLru-track_sub (length key) s) h in
    record { links = Linked-erase t.m_lru_order t.m_lru_map t.next_node ht.links key }

pub erase_value-IsLinked : (key : Bytes) (s : Store) → IsLinked s → IsLinked (erase_value key s).1
erase_value-IsLinked key s h = IsLinked-same s (erase_value key s).1 (SameLru-erase_value key s) h

pub expire-IsLinked : (key : Bytes) (s : Store) → IsLinked s → IsLinked (expire key s)
unfolding expire drop_expiry
expire-IsLinked key s h =
    let t = drop_expiry key s in
    let ht = IsLinked-same s t (refl, refl, refl) h in
    erase_value-IsLinked key (drop_lru key t) (drop_lru-IsLinked key t ht)

pub check_expiry-IsLinked :
    (key : Bytes) (now : ℤ) (s : Store) → IsLinked s → IsLinked (check_expiry key now s)
unfolding check_expiry
check_expiry-IsLinked key now s h = ground (arith, expire-IsLinked key s h)

evict_at-IsLinked : (i : ℕ) (s : Store) → IsLinked s → IsLinked (evict_at i s)
unfolding evict_at evict_victim
evict_at-IsLinked i s h = elim (Option-cases (get_elem? s.m_lru_order i)) [
  | inl out ↦ rw (out, evict_at) h
  | inr ((node, victim), e) ↦
      rw (e, evict_at)
        (erase_value-IsLinked victim _ (record {
          links = Linked-evict s.m_lru_order s.m_lru_map s.next_node h.links i node victim e;
        }))
]

evict_loop-IsLinked :
    (r : Rng) (needed fuel : ℕ) (s : Store) → IsLinked s → IsLinked (evict_loop r needed fuel s)
unfolding evict_loop
evict_loop-IsLinked r needed zero s h = h
evict_loop-IsLinked r needed (suc fuel) s h =
    elim (Bool-cases (over_limit needed s && not (is_nil s.m_lru_order))) [
      | inr stop ↦ rw (stop, evict_loop) h
      | inl more ↦
          rw (more, evict_loop)
            (evict_loop-IsLinked r needed fuel _ (evict_at-IsLinked (victim_index r s) s h))
    ]

pub check_memory-IsLinked :
    (r : Rng) (needed : ℕ) (s : Store) → IsLinked s → IsLinked (check_memory r needed s).1
unfolding check_memory try_evict
check_memory-IsLinked r needed s h =
    ground (arith, evict_loop-IsLinked r needed (length s.m_lru_order) s h)
