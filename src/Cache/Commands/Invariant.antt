-- ===== src/Cache/Commands/Invariant.antt =====
-- Every command keeps the invariant of the containers.
use socketley.Prelude.{◌≡◌, inl, inr, arith, Option, none, some, List, [], ◌∷◌, Bytes, Option-cases}
use socketley.Prelude.Int.{ℤ}
use socketley.Cache.State.{Store}
use socketley.Cache.Slots.{slot, slot-set_max_memory, slot-set_eviction}
use socketley.Cache.Eviction.{Rng}
use socketley.Cache.Consistent.{IsSound, IsConsistent, check_expiry-IsConsistent}
use socketley.Cache.Expiry.{set_expiry, set_expiry_ms, second, millisecond}
use socketley.Cache.Expiry.Soundness.{
  set_expiry_in-IsSound, persist-IsSound, del-IsSound, get_ptr-IsSound,
  check_expiry_and_get_ptr-IsSound, sweep_expired-IsSound,
}
use socketley.Cache.Strings.Soundness.{
  set-IsSound, setnx-IsSound, getset-IsSound, incr-IsSound, append-IsSound,
}
use socketley.Cache.PubSub.Frames.{slot-subscribe, slot-unsubscribe, slot-unsubscribe_all}
use socketley.Cache.Strings
use socketley.Cache.Lists.{lpush, rpush, lpop, rpop, front, back}
use socketley.Cache.Lists.Soundness.{push-IsSound, pop-IsSound}
use socketley.Cache.Sets.{sadd}
use socketley.Cache.Sets.Soundness.{sadd-IsSound, srem-IsSound}
use socketley.Cache.Hashes.{hset}
use socketley.Cache.Hashes.Soundness.{hset-IsSound, hdel-IsSound}
use socketley.Cache.Commands.{
  Command, set, setnx, append, getset, incr, get, get_live, lpush_cmd, rpush_cmd, lpop_cmd,
  rpop_cmd, sadd_cmd, srem_cmd, hset_cmd, hdel_cmd, del_cmd, persist_cmd, check_expiry_cmd,
  expire_cmd, pexpire_cmd, sweep_cmd, max_memory_cmd, eviction_cmd, subscribe_cmd, unsubscribe_cmd,
  unsubscribe_all_cmd, left, exec, run,
}

-- Inversion of a command that leaves a state behind its reply.
pub left-eq-some {ℓ} :
    {A : Type ℓ} (o : Option (A × Store)) (t : Store)
    → left o ≡ some t
    → (a : A) × (o ≡ some (a, t))
left-eq-some none t e = ground arith
left-eq-some (some (a, s)) t e = (a, ground arith)

module _ (r : Rng) (now : ℤ) (s t : Store) (h : IsConsistent s) (j : Bytes) where
  pub exec-IsSound : (c : Command) → exec r now c s ≡ some t → IsSound (slot j t)
  unfolding exec lpush rpush lpop rpop set_expiry set_expiry_ms
  exec-IsSound (set key val) e = ground (arith, set-IsSound r key val s h j)
  exec-IsSound (setnx key val) e = ground (arith, setnx-IsSound r key now s h j val)
  exec-IsSound (append key val) e =
      let (n, run) = left-eq-some (Strings.append r key val now s) t e in
      append-IsSound r key now s h j val n t run
  exec-IsSound (getset key val) e = ground (arith, getset-IsSound r key now s h j val)
  exec-IsSound (incr key delta) e =
      let (n, run) = left-eq-some (Strings.incr r key delta now s) t e in
      incr-IsSound r key now s h j delta n t run
  exec-IsSound (get key) e = ground (arith, get_ptr-IsSound key s h j)
  exec-IsSound (get_live key) e = ground (arith, check_expiry_and_get_ptr-IsSound key now s h j)
  exec-IsSound (lpush_cmd key val) e =
      let (b, run) = left-eq-some (lpush r key val s) t e in
      push-IsSound r front key val s h j b t run
  exec-IsSound (rpush_cmd key val) e =
      let (b, run) = left-eq-some (rpush r key val s) t e in
      push-IsSound r back key val s h j b t run
  exec-IsSound (lpop_cmd key) e = ground (arith, pop-IsSound front key s h j)
  exec-IsSound (rpop_cmd key) e = ground (arith, pop-IsSound back key s h j)
  exec-IsSound (sadd_cmd key member) e =
      let (n, run) = left-eq-some (sadd r key member s) t e in
      sadd-IsSound r key member s h j n t run
  exec-IsSound (srem_cmd key member) e = ground (arith, srem-IsSound key member s h j)
  exec-IsSound (hset_cmd key field val) e =
      let (b, run) = left-eq-some (hset r key field val s) t e in
      hset-IsSound r key field val s h j b t run
  exec-IsSound (hdel_cmd key field) e = ground (arith, hdel-IsSound key field s h j)
  exec-IsSound (del_cmd key) e = ground (arith, del-IsSound key s h j)
  exec-IsSound (persist_cmd key) e = ground (arith, persist-IsSound key s h j)
  exec-IsSound (check_expiry_cmd key) e =
      ground (arith, (check_expiry-IsConsistent key now s h).at j)
  exec-IsSound (expire_cmd key seconds) e =
      let (b, run) = left-eq-some (set_expiry key seconds now s) t e in
      set_expiry_in-IsSound key s h j second seconds now b t run
  exec-IsSound (pexpire_cmd key ms) e =
      let (b, run) = left-eq-some (set_expiry_ms key ms now s) t e in
      set_expiry_in-IsSound key s h j millisecond ms now b t run
  exec-IsSound (max_memory_cmd bytes) e = ground (arith, h.at j, slot-set_max_memory j s bytes)
  exec-IsSound (eviction_cmd policy) e = ground (arith, h.at j, slot-set_eviction j s policy)
  exec-IsSound (subscribe_cmd fd channel) e = ground (arith, h.at j, slot-subscribe fd s j channel)
  exec-IsSound (unsubscribe_cmd fd channel) e =
      ground (arith, h.at j, slot-unsubscribe fd s j channel)
  exec-IsSound (unsubscribe_all_cmd fd) e = ground (arith, h.at j, slot-unsubscribe_all fd s j)
  exec-IsSound sweep_cmd e = ground (arith, sweep_expired-IsSound now s h j)

-- Whatever the commands, and whatever draws and time each has, a run that is defined leaves every key in
-- one container at most, with a deadline only if it has a value, and no container empty.
pub run-IsConsistent :
    (calls : List (Rng × ℤ × Command)) (s t : Store)
    → IsConsistent s
    → run calls s ≡ some t
    → IsConsistent t
unfolding run
run-IsConsistent [] s t h e = record { at = λ j. ground (arith, h.at j) }
run-IsConsistent ((r, now, c) ∷ calls) s t h e = elim (Option-cases (exec r now c s)) [
  | inl stop ↦ ground arith
  | inr (u, step) ↦
      run-IsConsistent calls u t (record { at = λ j. exec-IsSound r now s u h j c step })
        (ground arith)
]
