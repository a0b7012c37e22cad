-- ===== src/Cache/Expiry/Lifetime.antt =====
-- How long a key lives after `set_expiry`.
use socketley.Prelude.{
  ℕ, ◌+◌, ◌-◌, ◌*◌, ◌^◌, ◌≤◌, ◌<◌, ◌≡◌, ◌∙◌, arith, true, some, Bytes, beq_refl,
}
use socketley.Prelude.Int.{ℤ, pos, ◌-ℤ◌, ◌+ℤ◌, tdiv, scale}
use socketley.Prelude.Words.{to_int}
use socketley.Cache.State.{Store}
use socketley.Cache.Slots.{slot, deadline-slot}
use socketley.Cache.Consistent.{IsConsistent, no_slot}
use socketley.Cache.Expiry.{set_expiry, set_expiry_in, time_point, get_ttl, check_expiry, second}
use socketley.Cache.Expiry.Soundness.{slot-set_expiry, exists-slot, holds, set_expiry_in-IsSound}
use socketley.Cache.Expiry.Sweep.{slot-check_expiry}

-- The deadline is written, and nothing else of the key changes.
slot-set_expiry_in :
    (unit : ℕ) (key : Bytes) (amount now : ℤ) (s t : Store)
    → set_expiry_in unit key amount now s ≡ some (true, t)
    → (slot key t ≡ record (slot key s) { deadline = some (now +ℤ scale unit amount) })
      × (holds (slot key s) ≡ true)
unfolding set_expiry_in time_point
slot-set_expiry_in unit key amount now s t run =
    ground
      (arith, beq_refl key, exists-slot key s, slot-set_expiry key key (now +ℤ scale unit amount) s)

-- What is left of a whole number of seconds after some of them.
tdiv_left :
    (now n e : ℕ)
    → e ≤ n
    → tdiv (pos (now + second * n) -ℤ pos (now + second * e)) second ≡ pos (n - e)
tdiv_left now n e h = ground arith

get_ttl-slot :
    (key : Bytes) (tp now : ℤ) (s : Store)
    → holds (slot key s) ≡ true
    → (slot key s).deadline ≡ some tp
    → get_ttl key now s ≡ to_int (tdiv (tp -ℤ now) second)
unfolding get_ttl
get_ttl-slot key tp now s there e = ground (arith, exists-slot key s, deadline-slot key s)

-- In a consistent store, once `set_expiry` has answered true for `n` seconds, a check `e` seconds later
-- leaves the key as it is if `e < n`, and `get_ttl` then tells `n - e` if `n` is an `int`; from
-- `n` seconds on the check removes all that the key has.
pub set_expiry_lem :
    (key : Bytes) (n now e : ℕ) (s t : Store)
    → IsConsistent s
    → n < 2 ^ 31
    → set_expiry key (pos n) (pos now) s ≡ some (true, t)
    → (e < n
        → (slot key (check_expiry key (pos (now + second * e)) t) ≡ slot key t)
          × (get_ttl key (pos (now + second * e)) t ≡ pos (n - e)))
      × (n ≤ e → slot key (check_expiry key (pos (now + second * e)) t) ≡ no_slot)
unfolding set_expiry to_int
set_expiry_lem key n now e s t h small run =
    let later = now + second * e in
    let written = slot-set_expiry_in second key (pos n) (pos now) s t run in
    let tp = pos (now + second * n) in
    let due_t : (slot key t).deadline ≡ some tp = ground (arith, written.0) in
    let there : holds (slot key t) ≡ true = rw written.0 written.1 in
    let sound : IsConsistent t = record {
      at = λ j. set_expiry_in-IsSound key s h j second (pos n) (pos now) true t run;
    } in
    let check = slot-check_expiry key key (pos later) t sound in
    let ttl = get_ttl-slot key tp (pos later) t there due_t in
    (
      λ early. (
        ground (arith, check, due_t, beq_refl key),
        ttl ∙ ground (arith, tdiv_left now n e (omega arith)),
      ),
      λ late. ground (arith, check, due_t, beq_refl key),
    )
