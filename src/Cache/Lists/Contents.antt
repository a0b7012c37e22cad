-- ===== src/Cache/Lists/Contents.antt =====
-- A list is a stack at either end.
use socketley.Prelude.{
  ◌+◌, ◌≡◌, refl, inl, inr, arith, true, Option, none, some, List, [], ◌∷◌, Bytes, beq_refl, length,
  Option-cases, if◌then◌else◌,
}
use socketley.Map.{find}
use socketley.Cache.State.{Store, track_sub}
use socketley.Cache.Slots.{slot, list-slot}
use socketley.Cache.Writes.{slot-track_sub, slot-write_list, slot-keep_list}
use socketley.Cache.Eviction.{Rng, check_memory, is_nil}
use socketley.Cache.Consistent.{IsConsistent, Spared-check_memory}
use socketley.Cache.Lists.{End, front, back, push_at, pop_at, pop_back, push_existing, push, pop}

pop_at-push_at :
    (e : End) (val : Bytes) (deq : List Bytes) → pop_at e (push_at e val deq) ≡ some (val, deq)
unfolding pop_at push_at pop_back
pop_at-push_at front val deq = refl
pop_at-push_at back val [] = refl
pop_at-push_at back val (x ∷ deq) = ground (arith, pop_at-push_at back val deq)

-- The list of a key, empty where it has none.
abbrev pub list_of : Option (List Bytes) → List Bytes
list_of none = []
list_of (some deq) = deq

-- A push that answers true leaves the list it found, with the element at its end.
pub list-push :
    (r : Rng) (e : End) (key val : Bytes) (s t : Store)
    → IsConsistent s
    → push r e key val s ≡ some (true, t)
    → (slot key t).list ≡ some (push_at e val (list_of (slot key s).list))
unfolding push push_existing
list-push r e key val s t h run = elim (Option-cases (find key s.m_lists)) [
  | inl free ↦
      let n = length key + length val in
      let u = (check_memory r n s).1 in
      ground (arith, beq_refl key, list-slot key s, slot-write_list key key (push_at e val []) n u)
  | inr (deq, found) ↦
      let u = (check_memory r (length val) s).1 in
      elim (Option-cases (find key u.m_lists)) [
        | inl gone ↦ ground arith
        | inr (kept, there) ↦ ground (
          arith,
          beq_refl key,
          list-slot key s,
          list-slot key u,
          Spared-check_memory key r (length val) s (h.at key),
          slot-write_list key key (push_at e val kept) (length val) u,
        )
      ]
]

list-pop :
    (e : End) (key out : Bytes) (deq rest : List Bytes) (s : Store)
    → (slot key s).list ≡ some deq
    → pop_at e deq ≡ some (out, rest)
    → ((pop e key s).0 ≡ some out)
      × ((slot key (pop e key s).1).list ≡ (if is_nil rest then none else some rest))
unfolding pop
list-pop e key out deq rest s there popped =
    let t = track_sub (length out) s in
    let here : (slot key t).list ≡ some deq = rw slot-track_sub there in
    ground (arith, beq_refl key, list-slot key s, slot-keep_list key key rest t (rw here refl))

-- In a consistent store, a pop behind a push that answered true, at the same end, gives the element
-- pushed, and the key has the list that it had before, or none again.
pub pop-push :
    (r : Rng) (e : End) (key val : Bytes) (s t : Store)
    → IsConsistent s
    → push r e key val s ≡ some (true, t)
    → ((pop e key t).0 ≡ some val) × ((slot key (pop e key t).1).list ≡ (slot key s).list)
pop-push r e key val s t h run =
    let deq = list_of (slot key s).list in
    let out =
      list-pop e key val (push_at e val deq) deq t (list-push r e key val s t h run)
        (pop_at-push_at e val deq) in
    (out.0, ground (arith, out.1, (h.at key).list_filled))
