-- ===== src/Cache/Lists/Soundness.antt =====
-- The list operations keep every key sound.
use socketley.Prelude.{
  ℕ, ◌+◌, ◌≡◌, ◌≢◌, Bool, inl, inr, arith, true, false, some, List, [], ◌∷◌, Bytes, beq_iff, length,
  Option-cases, Bool-cases, is_some,
}
use socketley.Map.{find}
use socketley.Cache.State.{Store, has_type_conflict_for_list, track_sub}
use socketley.Cache.Slots.{slot, list-slot}
use socketley.Cache.Writes.{slot-track_sub, slot-keep_list}
use socketley.Cache.Eviction.{Rng, check_memory}
use socketley.Cache.Consistent.{
  IsSound, IsConsistent, Spared-check_memory, check_memory-IsConsistent,
}
use socketley.Cache.Soundness.{
  ListOnly-of_check, ListOnly-of_sound, write_list-IsSound, track_sub-IsConsistent,
}
use socketley.Cache.Lists.{
  End, front, back, push_at, pop_at, push_existing, push, pop, write_list, keep_list,
}

push_at-ne-nil : (e : End) (val : Bytes) (deq : List Bytes) → push_at e val deq ≢ []
unfolding push_at
push_at-ne-nil front val deq = ground arith
push_at-ne-nil back val [] = ground arith
push_at-ne-nil back val (x ∷ deq) = ground arith

module _ (e : End) (key val : Bytes) (s : Store) (h : IsConsistent s) (j : Bytes) where
  grow_list-IsSound :
      (deq : List Bytes) (n : ℕ)
      → find key s.m_lists ≡ some deq
      → IsSound (slot j (write_list key (push_at e val deq) n s))
  grow_list-IsSound deq n found =
      write_list-IsSound j key n s (h.at j) (push_at e val deq) (push_at-ne-nil e val deq)
        (ListOnly-of_sound (slot key s) (h.at key) (rw (list-slot, found)))

module _ (r : Rng) (e : End) (key val : Bytes) (s : Store) (h : IsConsistent s) (j : Bytes) where
  push_existing-IsSound :
      (b : Bool) (u : Store) → push_existing r e key val s ≡ some (b, u) → IsSound (slot j u)
  unfolding push_existing
  push_existing-IsSound b u run =
      let t = (check_memory r (length val) s).1 in
      let ht = check_memory-IsConsistent r (length val) s h in
      elim (Option-cases (find key t.m_lists)) [
        | inl gone ↦ ground (arith, ht.at j)
        | inr (deq, found) ↦
            ground (arith, ht.at j, grow_list-IsSound e key val t ht j deq (length val) found)
      ]

  create_list-IsSound :
      has_type_conflict_for_list key s ≡ false
      → (n needed : ℕ)
      → IsSound (slot j (write_list key (push_at e val []) n (check_memory r needed s).1))
  create_list-IsSound c n needed =
      write_list-IsSound j key n _ ((check_memory-IsConsistent r needed s h).at j)
        (push_at e val []) (push_at-ne-nil e val [])
        (ground (arith, Spared-check_memory key r needed s (h.at key), ListOnly-of_check key s c))

  pub push-IsSound : (b : Bool) (u : Store) → push r e key val s ≡ some (b, u) → IsSound (slot j u)
  unfolding push
  push-IsSound b u run = elim (Option-cases (find key s.m_lists)) [
    | inr (deq, found) ↦ ground (arith, push_existing-IsSound b u)
    | inl free ↦
        let needed = length key + length val in
        elim (Bool-cases (has_type_conflict_for_list key s)) [
          | inl c ↦ ground (arith, h.at j)
          | inr c ↦ ground (
            arith,
            (check_memory-IsConsistent r needed s h).at j,
            create_list-IsSound c needed needed,
          )
        ]
  ]

module _ (key : Bytes) (s : Store) (h : IsConsistent s) (j : Bytes) where
  keep_list-IsSound :
      (rest : List Bytes)
      → is_some (slot key s).list ≡ true
      → IsSound (slot j (keep_list key rest s))
  keep_list-IsSound rest there =
      rw (slot-keep_list, there)
        (ground
          (arith, h.at j, h.at key, beq_iff key j, ListOnly-of_sound (slot key s) (h.at key) there))

module _ (e : End) (key : Bytes) (s : Store) (h : IsConsistent s) (j : Bytes) where
  pub pop-IsSound : IsSound (slot j (pop e key s).1)
  unfolding pop
  pop-IsSound = elim (Option-cases (find key s.m_lists)) [
    | inl free ↦ ground (arith, h.at j)
    | inr (deq, found) ↦ elim (Option-cases (pop_at e deq)) [
      | inl empty ↦ ground (arith, h.at j)
      | inr ((out, rest), popped) ↦
          let t = track_sub (length out) s in
          ground (
            arith,
            keep_list-IsSound key t (track_sub-IsConsistent (length out) s h) j rest
                (rw (slot-track_sub, list-slot, found)),
          )
    ]
  ]
