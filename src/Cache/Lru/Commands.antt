-- ===== src/Cache/Lru/Commands.antt =====
-- Every command keeps every iterator of the eviction order valid.
use socketley.Prelude.{◌≡◌, inl, inr, arith, some, List, [], ◌∷◌, Option-cases}
use socketley.Prelude.Int.{ℤ}
use socketley.Cache.State.{Store}
use socketley.Cache.Eviction.{Rng}
use socketley.Cache.Expiry.{set_expiry, set_expiry_ms, check_expiry}
use socketley.Cache.Expiry.Sweep.{check_expiry_and_get_ptr-eq}
use socketley.Cache.Lists.{front, back}
use socketley.Cache.Expiry.{second, millisecond}
use socketley.Cache.PubSub.Frames.{lru-subscribe, lru-unsubscribe, lru-unsubscribe_all}
use socketley.Cache.Commands.Invariant.{left-eq-some}
use socketley.Cache.Lists.{push, lpush, rpush, lpop, rpop}
use socketley.Cache.Commands.{Command, exec, run}
use socketley.Cache.Lru.Helpers.{IsLinked, IsLinked-same, check_expiry-IsLinked}
use socketley.Cache.Lru.Operations.{
  set-IsLinked, push-IsLinked, incr-IsLinked, append-IsLinked, sadd-IsLinked, hset-IsLinked,
  setnx-IsLinked, getset-IsLinked, del-IsLinked, get_ptr-IsLinked, set_expiry_in-IsLinked,
  persist-IsLinked, pop-IsLinked, srem-IsLinked, hdel-IsLinked, sweep_expired-IsLinked,
  lru-set_max_memory, lru-set_eviction,
}

module _ (r : Rng) (now : ℤ) (s t : Store) (h : IsLinked s) where
  pub exec-IsLinked : (c : Command) → exec r now c s ≡ some t → IsLinked t
  unfolding exec lpush rpush lpop rpop set_expiry set_expiry_ms
  exec-IsLinked (Command.set key val) e = ground (arith, set-IsLinked r key val s h)
  exec-IsLinked (Command.setnx key val) e = ground (arith, setnx-IsLinked r key val now s h)
  exec-IsLinked (Command.append key val) e = append-IsLinked r key val now s t h e
  exec-IsLinked (Command.getset key val) e = ground (arith, getset-IsLinked r key val now s h)
  exec-IsLinked (Command.incr key delta) e = incr-IsLinked r key delta now s t h e
  exec-IsLinked (Command.get key) e = ground (arith, get_ptr-IsLinked key s h)
  exec-IsLinked (Command.get_live key) e =
      let u = check_expiry key now s in
      ground (
        arith,
        check_expiry_and_get_ptr-eq key now s,
        get_ptr-IsLinked key u (check_expiry-IsLinked key now s h),
      )
  exec-IsLinked (Command.lpush_cmd key val) e =
      let (b, run) = left-eq-some (push r front key val s) t e in
      push-IsLinked r key front val s t b h run
  exec-IsLinked (Command.rpush_cmd key val) e =
      let (b, run) = left-eq-some (push r back key val s) t e in
      push-IsLinked r key back val s t b h run
  exec-IsLinked (Command.lpop_cmd key) e = ground (arith, pop-IsLinked key s h front)
  exec-IsLinked (Command.rpop_cmd key) e = ground (arith, pop-IsLinked key s h back)
  exec-IsLinked (Command.sadd_cmd key member) e = sadd-IsLinked r key member s t h e
  exec-IsLinked (Command.srem_cmd key member) e = ground (arith, srem-IsLinked key s h member)
  exec-IsLinked (Command.hset_cmd key field val) e = hset-IsLinked r key field val s t h e
  exec-IsLinked (Command.hdel_cmd key field) e = ground (arith, hdel-IsLinked key s h field)
  exec-IsLinked (Command.del_cmd key) e = ground (arith, del-IsLinked key s h)
  exec-IsLinked (Command.persist_cmd key) e = ground (arith, persist-IsLinked key s h)
  exec-IsLinked (Command.check_expiry_cmd key) e = ground (arith, check_expiry-IsLinked key now s h)
  exec-IsLinked (Command.expire_cmd key seconds) e =
      set_expiry_in-IsLinked key s h second seconds now t e
  exec-IsLinked (Command.pexpire_cmd key ms) e =
      set_expiry_in-IsLinked key s h millisecond ms now t e
  exec-IsLinked (Command.max_memory_cmd bytes) e =
      IsLinked-same s t (ground (arith, lru-set_max_memory bytes s)) h
  exec-IsLinked (Command.eviction_cmd policy) e =
      IsLinked-same s t (ground (arith, lru-set_eviction policy s)) h
  exec-IsLinked (Command.subscribe_cmd fd channel) e =
      IsLinked-same s t (ground (arith, lru-subscribe fd s channel)) h
  exec-IsLinked (Command.unsubscribe_cmd fd channel) e =
      IsLinked-same s t (ground (arith, lru-unsubscribe fd s channel)) h
  exec-IsLinked (Command.unsubscribe_all_cmd fd) e =
      IsLinked-same s t (ground (arith, lru-unsubscribe_all fd s)) h
  exec-IsLinked Command.sweep_cmd e = ground (arith, sweep_expired-IsLinked now s h)

-- Whatever the commands, and whatever draws and time each has, a run that is defined keeps the iterators
-- of the eviction order valid: each entry of `m_lru_map` leads to a node of `m_lru_order` that holds its key.
pub run-IsLinked :
    (cs : List (Rng × ℤ × Command)) (s t : Store) → IsLinked s → run cs s ≡ some t → IsLinked t
unfolding run
run-IsLinked [] s t h e = IsLinked-same s t (ground arith) h
run-IsLinked ((r, now, c) ∷ cs) s t h e = elim (Option-cases (exec r now c s)) [
  | inl stop ↦ absurd (ground arith)
  | inr (u, step) ↦ run-IsLinked cs u t (exec-IsLinked r now s u h c step) (ground arith)
]
