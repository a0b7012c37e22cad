-- ===== src/CacheInstance/Keeps/Perform.antt =====
-- What a command allowed in a mode keeps, whichever it is.
use socketley.Prelude.{◌+◌, ◌%◌, ◌^◌, ◌≡◌, arith, true, false, some, List, [], ◌∷◌, Bytes}
use socketley.Prelude.Int.{pos, negsuc}
use socketley.Cache.State.{Store}
use socketley.Cache.Lists.{llen}
use socketley.Cache.Sets.{scard}
use socketley.Cache.Hashes.{hlen}
use socketley.CacheInstance.Session.{CacheMode, Session, World}
use socketley.CacheInstance.Containers.{llen_command, scard_command, hlen_command}
use socketley.CacheInstance.Dispatch.{Verb, verb_of, perform, process_resp_command}
use socketley.CacheInstance.Keeps.{IsKept, Good}
use socketley.CacheInstance.Keeps.StringCommands.{
  set_command-Good, get_command-Good, incr_command-Good, incrby_command-Good, append_command-Good,
  strlen_command-Good, getset_command-Good, mget_command-Good, mset_command-Good,
  setnx_command-Good,
}
use socketley.CacheInstance.Keeps.ContainerCommands.{
  lpush_command-Good, rpush_command-Good, lpop_command-Good, rpop_command-Good, count_command-Good,
  lrange_command-Good, lindex_command-Good, sadd_command-Good, srem_command-Good,
  sismember_command-Good, smembers_command-Good, hset_command-Good, hget_command-Good,
  hdel_command-Good, hgetall_command-Good,
}
use socketley.CacheInstance.Keeps.DeadlineCommands.{
  expire_command-Good, ttl_command-Good, persist_command-Good, setex_command-Good,
  psetex_command-Good, pexpire_command-Good, pttl_command-Good, expireat_command-Good,
  pexpireat_command-Good,
}
use socketley.CacheInstance.Keeps.KeyCommands.{
  del_command-Good, exists_command-Good, type_command-Good, keys_command-Good, ping_command-Good,
  dbsize_command-Good, scan_command-Good, subscribe_command-Good, unsubscribe_command-Good,
  publish_command-Good, unknown_command-Good,
}

module _ {mode : CacheMode} {P : Store → Type 0} (kept : IsKept mode P) (w : World) where
  pub perform-Good :
      (verb : Verb) (args : List Bytes) (x y : Session)
      → Good mode P x
      → perform verb w args x ≡ some y
      → Good mode P y
  unfolding perform llen_command scard_command hlen_command
  perform-Good Verb.set args x y g run = set_command-Good kept w args x y g run
  perform-Good Verb.get args x y g run = get_command-Good kept w args x y g run
  perform-Good Verb.del args x y g run = del_command-Good kept w args x y g run
  perform-Good Verb.exists args x y g run = exists_command-Good kept w args x y g run
  perform-Good Verb.incr args x y g run = incr_command-Good kept w (pos 1) args x y g run
  perform-Good Verb.decr args x y g run = incr_command-Good kept w (negsuc 0) args x y g run
  perform-Good Verb.incrby args x y g run = incrby_command-Good kept w false args x y g run
  perform-Good Verb.decrby args x y g run = incrby_command-Good kept w true args x y g run
  perform-Good Verb.append args x y g run = append_command-Good kept w args x y g run
  perform-Good Verb.strlen args x y g run = strlen_command-Good kept w args x y g run
  perform-Good Verb.getset args x y g run = getset_command-Good kept w args x y g run
  perform-Good Verb.mget args x y g run = mget_command-Good kept w args x y g run
  perform-Good Verb.mset args x y g run = mset_command-Good kept w args x y g run
  perform-Good Verb.type args x y g run = type_command-Good kept w args x y g run
  perform-Good Verb.keys args x y g run = keys_command-Good kept w args x y g run
  perform-Good Verb.ping args x y g run = ping_command-Good kept w args x y g run
  perform-Good Verb.dbsize args x y g run = dbsize_command-Good kept w x y g run
  perform-Good Verb.lpush args x y g run = lpush_command-Good kept w args x y g run
  perform-Good Verb.rpush args x y g run = rpush_command-Good kept w args x y g run
  perform-Good Verb.lpop args x y g run = lpop_command-Good kept w args x y g run
  perform-Good Verb.rpop args x y g run = rpop_command-Good kept w args x y g run
  perform-Good Verb.llen args x y g run = count_command-Good kept w llen args x y g run
  perform-Good Verb.lrange args x y g run = lrange_command-Good kept w args x y g run
  perform-Good Verb.lindex args x y g run = lindex_command-Good kept w args x y g run
  perform-Good Verb.sadd args x y g run = sadd_command-Good kept w args x y g run
  perform-Good Verb.srem args x y g run = srem_command-Good kept w args x y g run
  perform-Good Verb.sismember args x y g run = sismember_command-Good kept w args x y g run
  perform-Good Verb.scard args x y g run = count_command-Good kept w scard args x y g run
  perform-Good Verb.smembers args x y g run = smembers_command-Good kept w args x y g run
  perform-Good Verb.hset args x y g run = hset_command-Good kept w args x y g run
  perform-Good Verb.hget args x y g run = hget_command-Good kept w args x y g run
  perform-Good Verb.hdel args x y g run = hdel_command-Good kept w args x y g run
  perform-Good Verb.hlen args x y g run = count_command-Good kept w hlen args x y g run
  perform-Good Verb.hgetall args x y g run = hgetall_command-Good kept w args x y g run
  perform-Good Verb.expire args x y g run = expire_command-Good kept w args x y g run
  perform-Good Verb.ttl args x y g run = ttl_command-Good kept w args x y g run
  perform-Good Verb.persist args x y g run = persist_command-Good kept w args x y g run
  perform-Good Verb.setnx args x y g run = setnx_command-Good kept w args x y g run
  perform-Good Verb.setex args x y g run = setex_command-Good kept w args x y g run
  perform-Good Verb.psetex args x y g run = psetex_command-Good kept w args x y g run
  perform-Good Verb.pexpire args x y g run = pexpire_command-Good kept w args x y g run
  perform-Good Verb.pttl args x y g run = pttl_command-Good kept w args x y g run
  perform-Good Verb.expireat args x y g run = expireat_command-Good kept w args x y g run
  perform-Good Verb.pexpireat args x y g run = pexpireat_command-Good kept w args x y g run
  perform-Good Verb.scan args x y g run = scan_command-Good kept w args x y g run
  perform-Good Verb.subscribe args x y g run = subscribe_command-Good kept w args x y g run
  perform-Good Verb.unsubscribe args x y g run = unsubscribe_command-Good kept w args x y g run
  perform-Good Verb.publish args x y g run = publish_command-Good kept w args x y g run
  perform-Good Verb.unknown args x y g run = unknown_command-Good kept w args x y g run

  pub process_resp_command-Good :
      (args : List Bytes) (x y : Session)
      → Good mode P x
      → process_resp_command w args x ≡ some y
      → Good mode P y
  unfolding process_resp_command
  process_resp_command-Good [] x y g run = ground arith
  process_resp_command-Good (word ∷ args) x y g run = ground (
    arith,
    perform-Good (verb_of word) (word ∷ args)
        (record x { stat_commands = (x.stat_commands + 1) % 2 ^ 64 }) y g,
  )
