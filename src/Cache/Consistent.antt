-- ===== src/Cache/Consistent.antt =====
-- The invariant of the containers, key by key, and what an eviction does to a key.
use socketley.Prelude.{
  ℕ, zero, suc, ◌+◌, ◌≤◌, ◌≡◌, ◌≢◌, refl, ◌∙◌, ◌⊎◌, inl, inr, arith, Bool, true, false, none, some,
  [], Bytes, beq, is_some, get_elem?, length, if◌then◌else◌,
}
use socketley.Cache.State.{Store}
use socketley.Cache.Slots.{Slot, slot, cleared, slot-erase_value, slot-drop_lru, slot-drop_expiry}
use socketley.Cache.Eviction.{
  Rng, evict_victim, evict_at, victim_index, evict_loop, try_evict, check_memory,
}
use socketley.Cache.Expiry.{expire, check_expiry}
use socketley.Prelude.Int.{ℤ}
use socketley.Map.Laws.{find-erase}

abbrev pub flag : Bool → ℕ
flag true = 1
flag false = 0

-- In how many containers the key is.
abbrev pub holders : Slot → ℕ
holders x =
    flag (is_some x.string) + flag (is_some x.list) + flag (is_some x.set) + flag (is_some x.hash)

-- A key is in one container at most, a key with a deadline is in one, and no container is empty.
pub record IsSound (x : Slot) : Type 0 where
  pub one : holders x ≤ 1
  pub live : is_some x.deadline ≡ true → holders x ≡ 1
  pub list_filled : x.list ≢ some []
  pub set_filled : x.set ≢ some []
  pub hash_filled : x.hash ≢ some []

pub record IsConsistent (s : Store) : Type 0 where
  pub at : (j : Bytes) → IsSound (slot j s)

abbrev pub no_slot : Slot
no_slot = record { string = none; list = none; set = none; hash = none; deadline = none }

pub no_slot-IsSound : IsSound no_slot
no_slot-IsSound = ground arith

-- Clearing a sound slot empties it.
pub cleared-eq-no_slot : (x : Slot) → IsSound x → cleared (record x { deadline = none }) ≡ no_slot
unfolding cleared
cleared-eq-no_slot x h = ground arith

-- A key keeps all that it has, or loses all of it, its deadline too.
abbrev pub Spared : Bytes → Store → Store → Type 0
Spared j s t = (slot j t ≡ slot j s) ⊎ (slot j t ≡ no_slot)

pub Spared-IsSound :
    (j : Bytes) (s t : Store) → IsSound (slot j s) → Spared j s t → IsSound (slot j t)
Spared-IsSound j s t h (inl e) = rw e h
Spared-IsSound j s t h (inr e) = rw e no_slot-IsSound

pub Spared-trans : (j : Bytes) (s t u : Store) → Spared j s t → Spared j t u → Spared j s u
Spared-trans j s t u p (inl e) = rw e p
Spared-trans j s t u p (inr e) = inr e

module _ (j : Bytes) (s : Store) (h : IsSound (slot j s)) where
  pub slot-expire :
      (key : Bytes) → slot j (expire key s) ≡ (if beq key j then no_slot else slot j s)
  unfolding expire
  slot-expire key =
      rw (slot-erase_value, slot-drop_lru, slot-drop_expiry)
        (ground (arith, cleared-eq-no_slot (slot j s) h))

  pub slot-evict_victim :
      (i : ℕ) (victim : Bytes)
      → slot j (evict_victim i victim s) ≡ (if beq victim j then no_slot else slot j s)
  unfolding evict_victim slot
  slot-evict_victim i victim =
      slot-erase_value j victim _
      ∙ ground (arith, cleared-eq-no_slot (slot j s) h, find-erase victim j s.m_expiry)

  pub Spared-evict_at : (i : ℕ) → Spared j s (evict_at i s)
  unfolding evict_at
  Spared-evict_at i =
      elim (get_elem? s.m_lru_order i)
        as (λ o. Spared j s (elim o [ none ↦ s | some (node, victim) ↦ evict_victim i victim s ])) [
          | none ↦ inl refl
          | some (node, victim) ↦ ground (arith, slot-evict_victim i victim)
        ]

pub Spared-evict_loop :
    (j : Bytes) (r : Rng) (needed fuel : ℕ) (s : Store)
    → IsSound (slot j s)
    → Spared j s (evict_loop r needed fuel s)
unfolding evict_loop
Spared-evict_loop j r needed zero s h = inl refl
Spared-evict_loop j r needed (suc fuel) s h =
    let t = evict_at (victim_index r s) s in
    let step = Spared-evict_at j s h (victim_index r s) in
    let rest = Spared-evict_loop j r needed fuel t (Spared-IsSound j s t h step) in
    let both = Spared-trans j s t (evict_loop r needed fuel t) step rest in ground (arith, both)

-- An eviction takes a key with all that it has, or leaves it as it is.
pub Spared-try_evict :
    (j : Bytes) (r : Rng) (needed : ℕ) (s : Store)
    → IsSound (slot j s)
    → Spared j s (try_evict r needed s).1
unfolding try_evict
Spared-try_evict j r needed s h =
    ground (arith, Spared-evict_loop j r needed (length s.m_lru_order) s h)

pub Spared-check_memory :
    (j : Bytes) (r : Rng) (needed : ℕ) (s : Store)
    → IsSound (slot j s)
    → Spared j s (check_memory r needed s).1
unfolding check_memory
Spared-check_memory j r needed s h = ground (arith, Spared-try_evict j r needed s h)

-- Expiry too takes a key whole.
pub Spared-check_expiry :
    (j key : Bytes) (now : ℤ) (s : Store) → IsSound (slot j s) → Spared j s (check_expiry key now s)
unfolding check_expiry
Spared-check_expiry j key now s h = ground (arith, slot-expire j s h key)

pub check_expiry-IsConsistent :
    (key : Bytes) (now : ℤ) (s : Store) → IsConsistent s → IsConsistent (check_expiry key now s)
check_expiry-IsConsistent key now s h = record {
  at = λ j.
      Spared-IsSound j s (check_expiry key now s) (h.at j)
        (Spared-check_expiry j key now s (h.at j));
}

pub check_memory-IsConsistent :
    (r : Rng) (needed : ℕ) (s : Store) → IsConsistent s → IsConsistent (check_memory r needed s).1
check_memory-IsConsistent r needed s h = record {
  at = λ j.
      Spared-IsSound j s (check_memory r needed s).1 (h.at j)
        (Spared-check_memory j r needed s (h.at j));
}
