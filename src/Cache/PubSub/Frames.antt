-- ===== src/Cache/PubSub/Frames.antt =====
-- The operations on channels leave the keys and the eviction order as they are.
use socketley.Prelude.{ℕ, ◌≡◌, refl, arith, Bytes}
use socketley.Cache.State.{Store}
use socketley.Cache.Slots.{slot}
use socketley.Cache.PubSub.{subscribe, unsubscribe, unsubscribe_all}
use socketley.Cache.Lru.Helpers.{SameLru}

module _ (fd : ℕ) (s : Store) where
  pub slot-subscribe : (j channel : Bytes) → slot j (subscribe fd channel s) ≡ slot j s
  unfolding slot subscribe
  slot-subscribe j channel = refl

  pub slot-unsubscribe : (j channel : Bytes) → slot j (unsubscribe fd channel s) ≡ slot j s
  unfolding slot unsubscribe
  slot-unsubscribe j channel = ground arith

  pub slot-unsubscribe_all : (j : Bytes) → slot j (unsubscribe_all fd s) ≡ slot j s
  unfolding slot unsubscribe_all
  slot-unsubscribe_all j = refl

  pub lru-subscribe : (channel : Bytes) → SameLru s (subscribe fd channel s)
  unfolding subscribe
  lru-subscribe channel = (refl, refl, refl)

  pub lru-unsubscribe : (channel : Bytes) → SameLru s (unsubscribe fd channel s)
  unfolding unsubscribe
  lru-unsubscribe channel = ground arith

  pub lru-unsubscribe_all : SameLru s (unsubscribe_all fd s)
  unfolding unsubscribe_all
  lru-unsubscribe_all = (refl, refl, refl)
