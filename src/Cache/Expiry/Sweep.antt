-- ===== src/Cache/Expiry/Sweep.antt =====
-- `check_expiry`, its fused form on the path of GET, `del` and `sweep_expired`: which keys go.
use socketley.Prelude.{
  ◌≡◌, refl, Bool, inl, inr, arith, true, false, ◌&&◌, Option, none, some, List, [], ◌∷◌, Bytes,
  beq, beq_iff, beq_refl, Bool-cases, if◌then◌else◌,
}
use socketley.Prelude.Int.{ℤ, leb_ℤ}
use socketley.Map.{Map, find, Distinct}
use socketley.Map.Laws.{find_of_is_empty}
use socketley.Cache.State.{Store, erase_value, drop_lru, drop_expiry}
use socketley.Cache.Slots.{slot, slot-erase_value, deadline-slot, string-slot, cleared}
use socketley.Cache.Consistent.{IsSound, IsConsistent, no_slot, no_slot-IsSound, slot-expire}
use socketley.Cache.General.{del}
use socketley.Cache.Expiry.{
  expire, check_expiry, get_ptr, check_expiry_and_get_ptr, expired_keys, del_all, sweep_expired,
}

-- Whether the deadline has passed: the test of the three places that expire keys.
abbrev pub due : ℤ → Option ℤ → Bool
due now none = false
due now (some tp) = leb_ℤ tp now

-- `del` removes what `expire` removes.
del-eq-expire : (key : Bytes) (s : Store) → (del key s).1 ≡ expire key s
unfolding del expire
del-eq-expire key s = refl

pub slot-del :
    (j key : Bytes) (s : Store)
    → IsSound (slot j s)
    → slot j (del key s).1 ≡ (if beq key j then no_slot else slot j s)
slot-del j key s h = rw del-eq-expire (slot-expire j s h key)

-- A key whose deadline has passed goes whole; every other key stays as it is.
pub slot-check_expiry :
    (j key : Bytes) (now : ℤ) (s : Store)
    → IsConsistent s
    → slot j (check_expiry key now s)
      ≡ (if beq key j && due now (slot j s).deadline then no_slot else slot j s)
unfolding check_expiry
slot-check_expiry j key now s h = ground (
  arith,
  slot-expire j s (h.at j) key,
  beq_iff key j,
  find_of_is_empty key s.m_expiry,
  deadline-slot j s,
)

string-expire : (key : Bytes) (s : Store) → find key (expire key s).m_data ≡ none
unfolding expire cleared
string-expire key s =
    let t = drop_lru key (drop_expiry key s) in
    ground (
      arith,
      beq_refl key,
      string-slot key (erase_value key t).1,
      string-slot key t,
      slot-erase_value key key t,
    )

-- The fused form does what the two calls do.
pub check_expiry_and_get_ptr-eq :
    (key : Bytes) (now : ℤ) (s : Store)
    → check_expiry_and_get_ptr key now s ≡ get_ptr key (check_expiry key now s)
unfolding check_expiry_and_get_ptr check_expiry get_ptr
check_expiry_and_get_ptr-eq key now s = ground (arith, string-expire key s)

-- Whether a key is among the names.
abbrev pub elem : Bytes → List Bytes → Bool
elem j [] = false
elem j (key ∷ keys) = if beq key j then true else elem j keys

pub slot-del_all :
    (j : Bytes) (keys : List Bytes) (s : Store)
    → IsSound (slot j s)
    → slot j (del_all keys s) ≡ (if elem j keys then no_slot else slot j s)
unfolding del_all
slot-del_all j [] s h = refl
slot-del_all j (key ∷ keys) s h =
    let t = (del key s).1 in
    let step = slot-del j key s h in
    let ht : IsSound (slot j t) = elim (Bool-cases (beq key j)) [
      | inl e ↦ rw (step, e) no_slot-IsSound
      | inr e ↦ rw (step, e) h
    ] in
    ground (arith, step, slot-del_all j keys t ht)

elem-expired_keys :
    (j : Bytes) (now : ℤ) (m : Map ℤ)
    → Distinct m
    → elem j (expired_keys now m) ≡ due now (find j m)
unfolding expired_keys find
elem-expired_keys j now [] d = refl
elem-expired_keys j now ((key, tp) ∷ m) d =
    ground (arith, elem-expired_keys j now m d.1, beq_iff key j)

-- After a sweep the keys whose deadline has passed are gone, and are the names returned; every other
-- key is as it was.
pub sweep_expired_lem :
    (j : Bytes) (now : ℤ) (s : Store)
    → IsConsistent s
    → Distinct s.m_expiry
    → (slot j (sweep_expired now s).1 ≡ (if due now (slot j s).deadline then no_slot else slot j s))
      × (elem j (sweep_expired now s).0 ≡ due now (slot j s).deadline)
unfolding sweep_expired
sweep_expired_lem j now s h d =
    let keys = expired_keys now s.m_expiry in
    let named : elem j keys ≡ due now (slot j s).deadline =
      rw deadline-slot (elem-expired_keys j now s.m_expiry d) in
    (rw (slot-del_all j keys s (h.at j), named), named)
