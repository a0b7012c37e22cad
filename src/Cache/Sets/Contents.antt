-- ===== src/Cache/Sets/Contents.antt =====
-- The set operations as those of a set of members.
use socketley.Prelude.{
  ◌+◌, ◌≡◌, ◌≢◌, refl, inl, inr, arith, true, false, Bool, Option, none, some, [], Bytes, beq,
  beq_iff, beq_refl, length, Option-cases, if◌then◌else◌,
}
use socketley.Prelude.Int.{ℤ, pos, negsuc}
use socketley.Map.{find, contains, erase, emplace}
use socketley.Map.Laws.{find-erase, find_of_is_empty}
use socketley.Cache.State.{Store, SetInner, track_sub}
use socketley.Cache.Slots.{slot, set-slot}
use socketley.Cache.Writes.{slot-track_sub, slot-write_set, slot-keep_set}
use socketley.Cache.Eviction.{Rng, check_memory}
use socketley.Cache.Consistent.{IsConsistent, Spared-check_memory}
use socketley.Cache.Sets.{sadd, sadd_existing, sadd_into, srem, sismember, keep_set}

abbrev pub has_member : Bytes → Option SetInner → Bool
has_member x none = false
has_member x (some members) = contains x members

pub sismember-slot : (key x : Bytes) (s : Store) → sismember key x s ≡ has_member x (slot key s).set
unfolding sismember slot
sismember-slot key x s = ground arith

-- In a consistent store, where `sadd` does not answer -1, the members are those before and the new
-- one, and the answer is 1 exactly where it is new.
pub sismember-sadd :
    (r : Rng) (key member x : Bytes) (n : ℤ) (s t : Store)
    → IsConsistent s
    → sadd r key member s ≡ some (n, t)
    → n ≢ negsuc 0
    → (sismember key x t ≡ (if beq member x then true else sismember key x s))
      × (n ≡ (if sismember key member s then pos 0 else pos 1))
unfolding sadd sadd_existing sadd_into find
sismember-sadd r key member x n s t h run good = elim (Option-cases (find key s.m_sets)) [
  | inl free ↦
      let n = length key + length member in
      let u = (check_memory r n s).1 in
      ground (
        arith,
        beq_refl key,
        set-slot key s,
        sismember-slot key x s,
        sismember-slot key x t,
        sismember-slot key member s,
        slot-write_set key key (emplace member tt []) n u,
      )
  | inr (members, found) ↦
      let u = (check_memory r (length member) s).1 in
      elim (Option-cases (find key u.m_sets)) [
        | inl gone ↦ ground arith
        | inr (kept, there) ↦ ground (
          arith,
          beq_refl key,
          beq_iff member x,
          set-slot key s,
          set-slot key u,
          sismember-slot key x s,
          sismember-slot key x t,
          sismember-slot key member s,
          Spared-check_memory key r (length member) s (h.at key),
          slot-write_set key key (emplace member tt kept) (length member) u,
        )
      ]
]

-- `srem` answers whether the member was there, and takes it from the members of the key.
pub sismember-srem :
    (key member x : Bytes) (s : Store)
    → (sismember key x (srem key member s).1 ≡ (if beq member x then false else sismember key x s))
      × ((srem key member s).0 ≡ sismember key member s)
unfolding srem
sismember-srem key member x s = elim (Option-cases (find key s.m_sets)) [
  | inl free ↦ ground (arith, set-slot key s, sismember-slot key x s, sismember-slot key member s)
  | inr (members, found) ↦
      let t = track_sub (length member) s in
      let rest = erase member members in
      let here : (slot key t).set ≡ some members = rw (slot-track_sub, set-slot) found in
      ground (
        arith,
        beq_refl key,
        beq_iff member x,
        set-slot key s,
        sismember-slot key x s,
        sismember-slot key member s,
        sismember-slot key x (keep_set key rest t),
        slot-keep_set key key rest t (rw here refl),
        find-erase member x members,
        find_of_is_empty x rest,
      )
]
