-- ===== src/Cache/Expiry/Soundness.antt =====
-- The operations on deadlines keep every key sound.
use socketley.Prelude.{
  ℕ, ◌≡◌, Bool, inl, inr, arith, ◌||◌, ◌&&◌, not, some, Bytes, beq, beq_iff, Option-cases,
  Bool-cases, is_some, if◌then◌else◌,
}
use socketley.Prelude.Int.{ℤ}
use socketley.Map.{Map, find, is_empty, contains, insert_or_assign}
use socketley.Map.Laws.{find_of_is_empty, find-insert_or_assign}
use socketley.Cache.State.{Store}
use socketley.Cache.Slots.{Slot, slot, slot-touch_lru, slot-drop_expiry}
use socketley.Cache.Consistent.{IsSound, IsConsistent, no_slot-IsSound, check_expiry-IsConsistent}
use socketley.Cache.General.{exists, del}
use socketley.Cache.Expiry.{
  time_point, set_expiry_in, persist, get_ptr, check_expiry, check_expiry_and_get_ptr,
  sweep_expired, expired_keys,
}
use socketley.Cache.Expiry.Sweep.{slot-del, check_expiry_and_get_ptr-eq, slot-del_all}

-- Whether a slot holds a value.
abbrev pub holds : Slot → Bool
holds x = is_some x.string || is_some x.list || is_some x.set || is_some x.hash

contains_filled {ℓ} :
    {V : Type ℓ} (key : Bytes) (m : Map V)
    → (not (is_empty m) && contains key m) ≡ is_some (find key m)
contains_filled key m = ground (arith, find_of_is_empty key m)

-- `exists` tells whether the key has a value; the test of `empty()` before each lookup changes nothing.
pub exists-slot : (key : Bytes) (s : Store) → exists key s ≡ holds (slot key s)
unfolding exists slot
exists-slot key s =
    simp
      (contains_filled key s.m_lists, contains_filled key s.m_sets, contains_filled key s.m_hashes)

pub slot-set_expiry :
    (j key : Bytes) (tp : ℤ) (s : Store)
    → slot j (record s { m_expiry = insert_or_assign key tp s.m_expiry })
      ≡ (if beq key j then record (slot j s) { deadline = some tp } else slot j s)
unfolding slot
slot-set_expiry j key tp s = ground (arith, find-insert_or_assign key j tp s.m_expiry)

module _ (key : Bytes) (s : Store) (h : IsConsistent s) (j : Bytes) where
  pub set_expiry_in-IsSound :
      (unit : ℕ) (amount now : ℤ) (b : Bool) (u : Store)
      → set_expiry_in unit key amount now s ≡ some (b, u)
      → IsSound (slot j u)
  unfolding set_expiry_in
  set_expiry_in-IsSound unit amount now b u run = elim (Bool-cases (exists key s)) [
    | inl there ↦ elim (Option-cases (time_point now unit amount)) [
      | inl e ↦ ground (arith, h.at j)
      | inr (tp, e) ↦
          ground
            (arith, h.at j, h.at key, beq_iff key j, exists-slot key s, slot-set_expiry j key tp s)
    ]
    | inr absent ↦ ground (arith, h.at j)
  ]

  pub persist-IsSound : IsSound (slot j (persist key s).1)
  unfolding persist
  persist-IsSound = ground (arith, h.at j, slot-drop_expiry j key s)

  pub del-IsSound : IsSound (slot j (del key s).1)
  del-IsSound = rw (slot-del, h.at j) (ground (arith, h.at j, no_slot-IsSound))

  pub get_ptr-IsSound : IsSound (slot j (get_ptr key s).1)
  unfolding get_ptr
  get_ptr-IsSound = ground (arith, h.at j, slot-touch_lru j key s)

pub check_expiry_and_get_ptr-IsSound :
    (key : Bytes) (now : ℤ) (s : Store)
    → IsConsistent s
    → (j : Bytes) → IsSound (slot j (check_expiry_and_get_ptr key now s).1)
check_expiry_and_get_ptr-IsSound key now s h j =
    rw check_expiry_and_get_ptr-eq
      (get_ptr-IsSound key (check_expiry key now s) (check_expiry-IsConsistent key now s h) j)

pub sweep_expired-IsSound :
    (now : ℤ) (s : Store) → IsConsistent s → (j : Bytes) → IsSound (slot j (sweep_expired now s).1)
unfolding sweep_expired
sweep_expired-IsSound now s h j =
    rw (slot-del_all j (expired_keys now s.m_expiry) s (h.at j))
      (ground (arith, h.at j, no_slot-IsSound))
