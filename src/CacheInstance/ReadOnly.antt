-- ===== src/CacheInstance/ReadOnly.antt =====
-- What a connection can do to a store in the mode `readonly`.
use socketley.Prelude.{
  ℕ, ◌≡◌, ◌≢◌, ◌⊎◌, refl, ap, ◌∙◌, arith, inl, inr, true, ◌&&◌, none, some, Bytes, Bool-cases, beq,
}
use socketley.Prelude.Int.{ℤ}
use socketley.Cache.State.{Store}
use socketley.Cache.Slots.{Slot, slot, slot-touch_lru}
use socketley.Cache.Consistent.{IsConsistent, no_slot}
use socketley.Cache.Eviction.{Rng}
use socketley.Cache.Commands.{Command, exec}
use socketley.Cache.Commands.Invariant.{exec-IsSound}
use socketley.Cache.Expiry.{check_expiry, get_ptr, check_expiry_and_get_ptr}
use socketley.Cache.Expiry.Sweep.{due, slot-check_expiry, check_expiry_and_get_ptr-eq}
use socketley.Cache.PubSub.Frames.{slot-subscribe, slot-unsubscribe, slot-unsubscribe_all}
use socketley.CacheInstance.Session.{readonly, Session, World}
use socketley.CacheInstance.Keeps.{IsKept, reads}
use socketley.CacheInstance.Input.{handle_data}
use socketley.CacheInstance.Input.Keeps.{handle_data-Good}

-- A key is as it was, or it had a deadline and is gone.
abbrev pub IsOldOrGone : Bytes → Store → Store → Type 0
IsOldOrGone j s t = (slot j t ≡ slot j s) ⊎ ((slot j t ≡ no_slot) × ((slot j s).deadline ≢ none))

live-IsOldOrGone :
    (key j : Bytes) (now : ℤ) (s : Store)
    → IsConsistent s
    → IsOldOrGone j s (check_expiry key now s)
live-IsOldOrGone key j now s h =
    let check = slot-check_expiry j key now s h in
    elim (Bool-cases (beq key j && due now (slot j s).deadline)) [
      | inl late ↦ inr (ground (arith, check), λ e. ground arith)
      | inr early ↦ inl (ground (arith, check))
    ]

get_ptr-slot : (key j : Bytes) (s : Store) → slot j (get_ptr key s).1 ≡ slot j s
unfolding get_ptr
get_ptr-slot key j s = ground (arith, slot-touch_lru j key s)

-- Only the slot behind matters.
IsOldOrGone-same :
    (j : Bytes) (s t u : Store) → slot j u ≡ slot j t → IsOldOrGone j s t → IsOldOrGone j s u
IsOldOrGone-same j s t u e (inl old) = inl (e ∙ old)
IsOldOrGone-same j s t u e (inr (gone, had)) = inr (e ∙ gone, had)

IsOldOrGone-trans :
    (j : Bytes) (s t u : Store) → IsOldOrGone j s t → IsOldOrGone j t u → IsOldOrGone j s u
IsOldOrGone-trans j s t u p (inl same) = IsOldOrGone-same j s t u same p
IsOldOrGone-trans j s t u (inl old) (inr (gone, had)) =
    inr (gone, λ never. had (ap Slot.deadline old ∙ never))
IsOldOrGone-trans j s t u (inr (before, had)) (inr (gone, _)) = inr (gone, had)

get_live-IsOldOrGone :
    (key j : Bytes) (now : ℤ) (s : Store)
    → IsConsistent s
    → IsOldOrGone j s (check_expiry_and_get_ptr key now s).1
get_live-IsOldOrGone key j now s h = rw check_expiry_and_get_ptr-eq (
    IsOldOrGone-same j s _ _ (get_ptr-slot key j (check_expiry key now s))
      (live-IsOldOrGone key j now s h))

reads-IsOldOrGone :
    (r : Rng) (now : ℤ) (c : Command) (j : Bytes) (s t : Store)
    → IsConsistent s
    → reads c ≡ true
    → exec r now c s ≡ some t
    → IsOldOrGone j s t
unfolding exec
reads-IsOldOrGone r now (Command.get key) j s t h only run =
    inl (ground (arith, get_ptr-slot key j s))
reads-IsOldOrGone r now (Command.get_live key) j s t h only run =
    IsOldOrGone-same j s _ t (ground arith) (get_live-IsOldOrGone key j now s h)
reads-IsOldOrGone r now (Command.check_expiry_cmd key) j s t h only run =
    IsOldOrGone-same j s _ t (ground arith) (live-IsOldOrGone key j now s h)
reads-IsOldOrGone r now (Command.subscribe_cmd fd channel) j s t h only run =
    inl (ground (arith, slot-subscribe fd s j channel))
reads-IsOldOrGone r now (Command.unsubscribe_cmd fd channel) j s t h only run =
    inl (ground (arith, slot-unsubscribe fd s j channel))
reads-IsOldOrGone r now (Command.unsubscribe_all_cmd fd) j s t h only run =
    inl (ground (arith, slot-unsubscribe_all fd s j))
reads-IsOldOrGone r now _ j s t h only run = ground arith

IsOldOrGone-IsKept :
    (s : Store) → IsKept readonly (λ t. IsConsistent t × ((j : Bytes) → IsOldOrGone j s t))
IsOldOrGone-IsKept s = record {
  keeps = λ r now c t u allowed (h, old) run. (
    record { at = λ j. exec-IsSound r now t u h j c run },
    λ j. IsOldOrGone-trans j s t u (old j) (reads-IsOldOrGone r now c j t u h (ground arith) run),
  );
}

-- In the mode `readonly`, whatever bytes arrive in either protocol, each key of a consistent store has
-- behind the handler what it had before, or it had a deadline and is gone.
pub handle_data-IsOldOrGone :
    (turns : ℕ → World) (bytes : Bytes) (x y : Session)
    → x.mode ≡ readonly
    → IsConsistent x.store
    → handle_data turns bytes x ≡ some y
    → (j : Bytes) → IsOldOrGone j x.store y.store
handle_data-IsOldOrGone turns bytes x y off h run j =
    (handle_data-Good (IsOldOrGone-IsKept x.store) refl turns bytes x y (off, (h, λ i. inl refl))
        run).1.1
      j
