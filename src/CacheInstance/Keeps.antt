-- ===== src/CacheInstance/Keeps.antt =====
-- What every command allowed in a mode keeps of the store, operation by operation.
pub mod StringCommands
pub mod ContainerCommands
pub mod DeadlineCommands
pub mod KeyCommands
pub mod Perform
use socketley.Prelude.{
  ℕ, ◌≡◌, refl, ap, arith, Bool, true, false, not, ◌||◌, Option, none, some, List, [], ◌∷◌, Bytes,
}
use socketley.Prelude.Int.{ℤ}
use socketley.Cache.State.{Store}
use socketley.Cache.Eviction.{Rng}
use socketley.Cache.General.{del}
use socketley.Cache.Expiry.{
  check_expiry, get_ptr, check_expiry_and_get_ptr, set_expiry, set_expiry_ms, persist,
}
use socketley.Cache.Strings
use socketley.Cache.Strings.{IncrReply}
use socketley.Cache.Lists.{lpush, rpush, lpop, rpop}
use socketley.Cache.Sets.{sadd, srem}
use socketley.Cache.Hashes.{hset, hdel}
use socketley.Cache.PubSub.{subscribe, unsubscribe, unsubscribe_all}
use socketley.Cache.Commands.{Command, exec, left}
use socketley.Cache.Commands
use socketley.CacheInstance.Session.{CacheMode, is_readonly, Session, World, live}

-- A command that only reads: the time may take keys away, and a connection may listen.
abbrev pub reads : Command → Bool
reads (Command.get key) = true
reads (Command.get_live key) = true
reads (Command.check_expiry_cmd key) = true
reads (Command.subscribe_cmd fd channel) = true
reads (Command.unsubscribe_cmd fd channel) = true
reads (Command.unsubscribe_all_cmd fd) = true
reads _ = false

abbrev pub allows : CacheMode → Command → Bool
allows mode c = not (is_readonly mode) || reads c

-- Every command that the mode allows keeps the predicate.
pub record IsKept (mode : CacheMode) (P : Store → Type 0) : Type 0 where
  pub keeps :
      (r : Rng) (now : ℤ) (c : Command) (s t : Store)
      → allows mode c ≡ true
      → P s
      → exec r now c s ≡ some t
      → P t

-- The predicate holds of the session's store, and its mode is this one.
abbrev pub Good : CacheMode → (Store → Type 0) → Session → Type 0
Good mode P x = (x.mode ≡ mode) × P x.store

-- Draws for the commands that draw nothing.
abbrev still : Rng
still = record { pick = λ n. 0; pick-lt = λ n h. h }

module _ {mode : CacheMode} {P : Store → Type 0} (kept : IsKept mode P) (s : Store) (p : P s) where
  pub keeps-live : (key : Bytes) (now : ℤ) → P (check_expiry key now s)
  unfolding exec
  keeps-live key now = kept.keeps still now (Command.check_expiry_cmd key) s _ (ground arith) p refl

  pub keeps-get_ptr : (key : Bytes) (now : ℤ) → P (get_ptr key s).1
  unfolding exec
  keeps-get_ptr key now = kept.keeps still now (Command.get key) s _ (ground arith) p refl

  pub keeps-get_live : (key : Bytes) (now : ℤ) → P (check_expiry_and_get_ptr key now s).1
  unfolding exec
  keeps-get_live key now = kept.keeps still now (Command.get_live key) s _ (ground arith) p refl

  pub keeps-subscribe : (fd : ℕ) (channel : Bytes) (now : ℤ) → P (subscribe fd channel s)
  unfolding exec
  keeps-subscribe fd channel now =
      kept.keeps still now (Command.subscribe_cmd fd channel) s _ (ground arith) p refl

  pub keeps-unsubscribe_all : (fd : ℕ) (now : ℤ) → P (unsubscribe_all fd s)
  unfolding exec
  keeps-unsubscribe_all fd now =
      kept.keeps still now (Command.unsubscribe_all_cmd fd) s _ (ground arith) p refl

  pub keeps-unsubscribe : (fd : ℕ) (channel : Bytes) (now : ℤ) → P (unsubscribe fd channel s)
  unfolding exec
  keeps-unsubscribe fd channel now =
      kept.keeps still now (Command.unsubscribe_cmd fd channel) s _ (ground arith) p refl

module _ {mode : CacheMode} {P : Store → Type 0} (kept : IsKept mode P)
    (writes : is_readonly mode ≡ false) (r : Rng) (now : ℤ) (s t : Store) (p : P s) where
  allowed : (c : Command) → exec r now c s ≡ some t → P t
  allowed c run = kept.keeps r now c s t (ground arith) p run

  pub keeps-set : (key val : Bytes) → (Strings.set r key val s).1 ≡ t → P t
  unfolding exec
  keeps-set key val run = allowed (Command.set key val) (ap some run)

  pub keeps-setnx : (key val : Bytes) → (Strings.setnx r key val now s).1 ≡ t → P t
  unfolding exec
  keeps-setnx key val run = allowed (Command.setnx key val) (ap some run)

  pub keeps-getset : (key val : Bytes) → (Strings.getset r key val now s).2 ≡ t → P t
  unfolding exec
  keeps-getset key val run = allowed (Command.getset key val) (ap some run)

  pub keeps-incr :
      (key : Bytes) (delta : ℤ) (reply : IncrReply)
      → Strings.incr r key delta now s ≡ some (reply, t)
      → P t
  unfolding exec
  keeps-incr key delta reply run = allowed (Command.incr key delta) (ap left run)

  pub keeps-append :
      (key suffix : Bytes) (n : ℕ) → Strings.append r key suffix now s ≡ some (n, t) → P t
  unfolding exec
  keeps-append key suffix n run = allowed (Command.append key suffix) (ap left run)

  pub keeps-set_expiry :
      (key : Bytes) (n : ℤ) (ok : Bool) → set_expiry key n now s ≡ some (ok, t) → P t
  unfolding exec
  keeps-set_expiry key n ok run = allowed (Command.expire_cmd key n) (ap left run)

  pub keeps-set_expiry_ms :
      (key : Bytes) (n : ℤ) (ok : Bool) → set_expiry_ms key n now s ≡ some (ok, t) → P t
  unfolding exec
  keeps-set_expiry_ms key n ok run = allowed (Command.pexpire_cmd key n) (ap left run)

  pub keeps-lpush : (key val : Bytes) (ok : Bool) → lpush r key val s ≡ some (ok, t) → P t
  unfolding exec
  keeps-lpush key val ok run = allowed (Command.lpush_cmd key val) (ap left run)

  pub keeps-rpush : (key val : Bytes) (ok : Bool) → rpush r key val s ≡ some (ok, t) → P t
  unfolding exec
  keeps-rpush key val ok run = allowed (Command.rpush_cmd key val) (ap left run)

  pub keeps-sadd : (key member : Bytes) (n : ℤ) → sadd r key member s ≡ some (n, t) → P t
  unfolding exec
  keeps-sadd key member n run = allowed (Command.sadd_cmd key member) (ap left run)

  pub keeps-hset : (key field val : Bytes) (ok : Bool) → hset r key field val s ≡ some (ok, t) → P t
  unfolding exec
  keeps-hset key field val ok run = allowed (Command.hset_cmd key field val) (ap left run)

  pub keeps-lpop : (key : Bytes) → (lpop key s).1 ≡ t → P t
  unfolding exec
  keeps-lpop key run = allowed (Command.lpop_cmd key) (ap some run)

  pub keeps-rpop : (key : Bytes) → (rpop key s).1 ≡ t → P t
  unfolding exec
  keeps-rpop key run = allowed (Command.rpop_cmd key) (ap some run)

  pub keeps-srem : (key member : Bytes) → (srem key member s).1 ≡ t → P t
  unfolding exec
  keeps-srem key member run = allowed (Command.srem_cmd key member) (ap some run)

  pub keeps-hdel : (key field : Bytes) → (hdel key field s).1 ≡ t → P t
  unfolding exec
  keeps-hdel key field run = allowed (Command.hdel_cmd key field) (ap some run)

  pub keeps-del : (key : Bytes) → (del key s).1 ≡ t → P t
  unfolding exec
  keeps-del key run = allowed (Command.del_cmd key) (ap some run)

  pub keeps-persist : (key : Bytes) → (persist key s).1 ≡ t → P t
  unfolding exec
  keeps-persist key run = allowed (Command.persist_cmd key) (ap some run)
