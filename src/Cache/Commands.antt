-- ===== src/Cache/Commands.antt =====
-- The operations of `cache_store` that change its state, as commands, and runs of them. The clock is
-- read once in a command. A run stops with none where a command is undefined.
pub mod Invariant
use socketley.Cache.State.{set_max_memory, set_eviction}
use socketley.Prelude.{ℕ, Bool, Option, none, some, List, [], ◌∷◌, Bytes}
use socketley.Prelude.Int.{ℤ}
use socketley.Cache.State.{Store, EvictionPolicy, touch_lru}
use socketley.Cache.Eviction.{Rng}
use socketley.Cache.General.{del}
use socketley.Cache.Expiry.{
  set_expiry, set_expiry_ms, persist, check_expiry, get_ptr, check_expiry_and_get_ptr,
  sweep_expired,
}
use socketley.Cache.PubSub.{subscribe, unsubscribe, unsubscribe_all}
use socketley.Cache.Strings
use socketley.Cache.Lists.{lpush, rpush, lpop, rpop}
use socketley.Cache.Sets.{sadd, srem}
use socketley.Cache.Hashes.{hset, hdel}

pub data Command : Type 0 where
  set setnx append getset : Bytes → Bytes → Command
  incr : Bytes → ℤ → Command
  get get_live : Bytes → Command
  lpush_cmd rpush_cmd : Bytes → Bytes → Command
  lpop_cmd rpop_cmd : Bytes → Command
  sadd_cmd srem_cmd : Bytes → Bytes → Command
  hset_cmd : Bytes → Bytes → Bytes → Command
  hdel_cmd : Bytes → Bytes → Command
  del_cmd persist_cmd check_expiry_cmd : Bytes → Command
  expire_cmd pexpire_cmd : Bytes → ℤ → Command
  sweep_cmd : Command
  max_memory_cmd : ℕ → Command
  eviction_cmd : EvictionPolicy → Command
  subscribe_cmd unsubscribe_cmd : ℕ → Bytes → Command
  unsubscribe_all_cmd : ℕ → Command

-- The state that an operation leaves behind its reply.
abbrev pub left {ℓ} : {A : Type ℓ} → Option (A × Store) → Option Store
left none = none
left (some (a, s)) = some s

unfoldable pub exec : Rng → ℤ → Command → Store → Option Store
exec r now (set key val) s = some (Strings.set r key val s).1
exec r now (setnx key val) s = some (Strings.setnx r key val now s).1
exec r now (append key val) s = left (Strings.append r key val now s)
exec r now (getset key val) s = some (Strings.getset r key val now s).2
exec r now (incr key delta) s = left (Strings.incr r key delta now s)
exec r now (get key) s = some (get_ptr key s).1
exec r now (get_live key) s = some (check_expiry_and_get_ptr key now s).1
exec r now (lpush_cmd key val) s = left (lpush r key val s)
exec r now (rpush_cmd key val) s = left (rpush r key val s)
exec r now (lpop_cmd key) s = some (lpop key s).1
exec r now (rpop_cmd key) s = some (rpop key s).1
exec r now (sadd_cmd key member) s = left (sadd r key member s)
exec r now (srem_cmd key member) s = some (srem key member s).1
exec r now (hset_cmd key field val) s = left (hset r key field val s)
exec r now (hdel_cmd key field) s = some (hdel key field s).1
exec r now (del_cmd key) s = some (del key s).1
exec r now (persist_cmd key) s = some (persist key s).1
exec r now (check_expiry_cmd key) s = some (check_expiry key now s)
exec r now (expire_cmd key seconds) s = left (set_expiry key seconds now s)
exec r now (pexpire_cmd key ms) s = left (set_expiry_ms key ms now s)
exec r now (max_memory_cmd bytes) s = some (set_max_memory bytes s)
exec r now (eviction_cmd policy) s = some (set_eviction policy s)
exec r now (subscribe_cmd fd channel) s = some (subscribe fd channel s)
exec r now (unsubscribe_cmd fd channel) s = some (unsubscribe fd channel s)
exec r now (unsubscribe_all_cmd fd) s = some (unsubscribe_all fd s)
exec r now sweep_cmd s = some (sweep_expired now s).1

-- A sequence of commands, each with the draws that it makes and the time at which it comes.
unfoldable pub run : List (Rng × ℤ × Command) → Store → Option Store
run [] s = some s
run ((r, now, c) ∷ calls) s = elim (exec r now c s) [ none ↦ none | some t ↦ run calls t ]
