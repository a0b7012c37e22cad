-- ===== src/CacheInstance/Text/Keeps/Perform.antt =====
-- What a line keeps, whichever it is.
use socketley.Prelude.{◌+◌, ◌%◌, ◌^◌, ◌≡◌, refl, arith, true, false, some, [], ◌∷◌, Bytes}
use socketley.Prelude.Int.{pos}
use socketley.Cache.State.{Store}
use socketley.Cache.Lists.{lpush, rpush, lpop, rpop}
use socketley.Cache.Sets.{srem}
use socketley.Cache.Hashes.{hdel}
use socketley.CacheInstance.Session.{CacheMode, Session, World}
use socketley.Cache.Lists.{llen}
use socketley.Cache.Sets.{scard}
use socketley.Cache.Hashes.{hlen}
use socketley.Cache.Expiry.{get_ttl, get_pttl}
use socketley.Prelude.Int.{negsuc}
use socketley.Config.Names.{fnv1a_lower}
use socketley.CacheInstance.Keeps.{
  IsKept, Good, keeps-lpush, keeps-rpush, keeps-lpop, keeps-rpop, keeps-srem, keeps-hdel,
}
use socketley.CacheInstance.Text.{key_of, args_behind}
use socketley.CacheInstance.Text.Keys.{is_admin}
use socketley.CacheInstance.Text.Dispatch.{
  TextVerb, text_verbs, text_verb_among, text_perform, process_command,
}
use socketley.CacheInstance.Text.Keeps.StringLines.{
  text_append-Good, text_get-Good, text_getset-Good, text_incr-Good, text_incrby-Good,
  text_mget-Good, text_mset-Good, text_set-Good, text_setnx-Good, text_strlen-Good,
}
use socketley.CacheInstance.Text.Keeps.ContainerLines.{
  text_count-Good, text_hget-Good, text_hgetall-Good, text_hset-Good, text_lindex-Good,
  text_lrange-Good, text_pop-Good, text_push-Good, text_remove-Good, text_sadd-Good,
  text_sismember-Good, text_smembers-Good,
}
use socketley.CacheInstance.Text.Keeps.DeadlineLines.{
  text_expire-Good, text_expireat-Good, text_persist-Good, text_pexpire-Good, text_pexpireat-Good,
  text_psetex-Good, text_setex-Good, text_ttl-Good,
}
use socketley.CacheInstance.Text.Keeps.KeyLines.{
  handle_replicate_request-Good, text_del-Good, text_exists-Good, text_flush-Good, text_keys-Good,
  text_load-Good, text_maxmemory-Good, text_memory-Good, text_publish-Good, text_scan-Good,
  text_size-Good, text_subscribe-Good, text_type-Good, text_unsubscribe-Good,
}

module _ {mode : CacheMode} {P : Store → Type 0} (kept : IsKept mode P) (w : World) where
  text_perform-Good :
      (verb : TextVerb) (line args : Bytes) (x y : Session)
      → is_admin mode ≡ false
      → Good mode P x
      → text_perform verb w line args x ≡ some y
      → Good mode P y
  unfolding text_perform
  text_perform-Good TextVerb.set_line line args x y plain g run =
      text_set-Good kept w line args x y g run
  text_perform-Good TextVerb.get_line line args x y plain g run =
      text_get-Good kept w args x y g run
  text_perform-Good TextVerb.del_line line args x y plain g run =
      text_del-Good kept w line args x y g run
  text_perform-Good TextVerb.exists_line line args x y plain g run =
      text_exists-Good kept w args x y g run
  text_perform-Good TextVerb.incr_line line args x y plain g run =
      text_incr-Good kept w (pos 1) "usage: incr key" line args x y g run
  text_perform-Good TextVerb.decr_line line args x y plain g run =
      text_incr-Good kept w (negsuc 0) "usage: decr key" line args x y g run
  text_perform-Good TextVerb.incrby_line line args x y plain g run =
      text_incrby-Good kept w false "usage: incrby key delta" line args x y g run
  text_perform-Good TextVerb.decrby_line line args x y plain g run =
      text_incrby-Good kept w true "usage: decrby key delta" line args x y g run
  text_perform-Good TextVerb.append_line line args x y plain g run =
      text_append-Good kept w line args x y g run
  text_perform-Good TextVerb.strlen_line line args x y plain g run =
      text_strlen-Good kept w args x y g run
  text_perform-Good TextVerb.getset_line line args x y plain g run =
      text_getset-Good kept w line args x y g run
  text_perform-Good TextVerb.mget_line line args x y plain g run =
      text_mget-Good kept w args x y g run
  text_perform-Good TextVerb.mset_line line args x y plain g run =
      text_mset-Good kept w line args x y g run
  text_perform-Good TextVerb.type_line line args x y plain g run =
      text_type-Good kept w args x y g run
  text_perform-Good TextVerb.keys_line line args x y plain g run =
      text_keys-Good kept w args x y g run
  text_perform-Good TextVerb.lpush_line line args x y plain g run =
      text_push-Good kept w (lpush w.draws)
        (λ writes key val s t ok p e. keeps-lpush kept writes w.draws w.now s t p key val ok e)
        "usage: lpush key value" line args x y g run
  text_perform-Good TextVerb.rpush_line line args x y plain g run =
      text_push-Good kept w (rpush w.draws)
        (λ writes key val s t ok p e. keeps-rpush kept writes w.draws w.now s t p key val ok e)
        "usage: rpush key value" line args x y g run
  text_perform-Good TextVerb.lpop_line line args x y plain g run =
      text_pop-Good kept w lpop
        (λ writes key s p. keeps-lpop kept writes w.draws w.now s _ p key refl) args x y g run
  text_perform-Good TextVerb.rpop_line line args x y plain g run =
      text_pop-Good kept w rpop
        (λ writes key s p. keeps-rpop kept writes w.draws w.now s _ p key refl) args x y g run
  text_perform-Good TextVerb.llen_line line args x y plain g run =
      text_count-Good kept w llen args x y g run
  text_perform-Good TextVerb.lindex_line line args x y plain g run =
      text_lindex-Good kept w args x y g run
  text_perform-Good TextVerb.lrange_line line args x y plain g run =
      text_lrange-Good kept w args x y g run
  text_perform-Good TextVerb.sadd_line line args x y plain g run =
      text_sadd-Good kept w line args x y g run
  text_perform-Good TextVerb.srem_line line args x y plain g run =
      text_remove-Good kept w srem
        (λ writes key m s p. keeps-srem kept writes w.draws w.now s _ p key m refl)
        "usage: srem key member" args x y g run
  text_perform-Good TextVerb.sismember_line line args x y plain g run =
      text_sismember-Good kept w args x y g run
  text_perform-Good TextVerb.scard_line line args x y plain g run =
      text_count-Good kept w scard args x y g run
  text_perform-Good TextVerb.smembers_line line args x y plain g run =
      text_smembers-Good kept w args x y g run
  text_perform-Good TextVerb.hset_line line args x y plain g run =
      text_hset-Good kept w line args x y g run
  text_perform-Good TextVerb.hget_line line args x y plain g run =
      text_hget-Good kept w args x y g run
  text_perform-Good TextVerb.hdel_line line args x y plain g run =
      text_remove-Good kept w hdel
        (λ writes key m s p. keeps-hdel kept writes w.draws w.now s _ p key m refl)
        "usage: hdel key field" args x y g run
  text_perform-Good TextVerb.hlen_line line args x y plain g run =
      text_count-Good kept w hlen args x y g run
  text_perform-Good TextVerb.hgetall_line line args x y plain g run =
      text_hgetall-Good kept w args x y g run
  text_perform-Good TextVerb.expire_line line args x y plain g run =
      text_expire-Good kept w args x y g run
  text_perform-Good TextVerb.ttl_line line args x y plain g run =
      text_ttl-Good kept w get_ttl args x y g run
  text_perform-Good TextVerb.persist_line line args x y plain g run =
      text_persist-Good kept w args x y g run
  text_perform-Good TextVerb.setnx_line line args x y plain g run =
      text_setnx-Good kept w line args x y g run
  text_perform-Good TextVerb.setex_line line args x y plain g run =
      text_setex-Good kept w line args x y g run
  text_perform-Good TextVerb.psetex_line line args x y plain g run =
      text_psetex-Good kept w line args x y g run
  text_perform-Good TextVerb.pexpire_line line args x y plain g run =
      text_pexpire-Good kept w args x y g run
  text_perform-Good TextVerb.pttl_line line args x y plain g run =
      text_ttl-Good kept w get_pttl args x y g run
  text_perform-Good TextVerb.expireat_line line args x y plain g run =
      text_expireat-Good kept w args x y g run
  text_perform-Good TextVerb.pexpireat_line line args x y plain g run =
      text_pexpireat-Good kept w args x y g run
  text_perform-Good TextVerb.scan_line line args x y plain g run =
      text_scan-Good kept w args x y g run
  text_perform-Good TextVerb.flush_line line args x y plain g run = text_flush-Good kept w x y g run
  text_perform-Good TextVerb.load_line line args x y plain g run =
      text_load-Good kept w x y plain g run
  text_perform-Good TextVerb.size_line line args x y plain g run = text_size-Good kept w x y g run
  text_perform-Good TextVerb.subscribe_line line args x y plain g run =
      text_subscribe-Good kept w args x y g run
  text_perform-Good TextVerb.unsubscribe_line line args x y plain g run =
      text_unsubscribe-Good kept w args x y g run
  text_perform-Good TextVerb.publish_line line args x y plain g run =
      text_publish-Good kept w args x y g run
  text_perform-Good TextVerb.maxmemory_line line args x y plain g run =
      text_maxmemory-Good kept w x y g run
  text_perform-Good TextVerb.memory_line line args x y plain g run =
      text_memory-Good kept w x y g run
  text_perform-Good TextVerb.replicate_line line args x y plain g run =
      ground (arith, handle_replicate_request-Good kept w x g)
  text_perform-Good TextVerb.unknown_line line args x y plain g run = ground arith

  pub process_command-Good :
      (line : Bytes) (x y : Session)
      → is_admin mode ≡ false
      → Good mode P x
      → process_command w line x ≡ some y
      → Good mode P y
  unfolding process_command
  process_command-Good [] x y plain g run = ground arith
  process_command-Good (c ∷ line) x y plain g run =
      let verb = text_verb_among text_verbs (fnv1a_lower (key_of (c ∷ line))) in
      let counted : Session = record x { stat_commands = (x.stat_commands + 1) % 2 ^ 64 } in
      ground (arith, text_perform-Good verb (c ∷ line) (args_behind (c ∷ line)) counted y plain g)
