-- ===== src/CacheInstance/Text/Dispatch.antt =====
-- `process_command`: the switch on the hash of the first word.
use Prim.Native.String.{String}
use socketley.Prelude.{
  ℕ, ◌+◌, ◌%◌, ◌^◌, true, false, Option, some, List, [], ◌∷◌, Bytes, codes, ◌==◌, if◌then◌else◌,
}
use socketley.Prelude.Int.{pos, negsuc}
use socketley.Cache.Lists.{lpush, rpush, lpop, rpop, llen}
use socketley.Cache.Sets.{srem, scard}
use socketley.Cache.Hashes.{hdel, hlen}
use socketley.Cache.Expiry.{get_ttl, get_pttl}
use socketley.Config.Names.{fnv1a, fnv1a_lower}
use socketley.CacheInstance.Session.{Session, World}
use socketley.CacheInstance.Text.{say, key_of, args_behind}
use socketley.CacheInstance.Text.Strings.{
  text_set, text_get, text_incr, text_incrby, text_append, text_strlen, text_getset, text_mget,
  text_mset, text_setnx,
}
use socketley.CacheInstance.Text.Containers.{
  text_push, text_pop, text_count, text_lindex, text_lrange, text_sadd, text_remove, text_sismember,
  text_smembers, text_hset, text_hget, text_hgetall,
}
use socketley.CacheInstance.Text.Deadlines.{
  text_expire, text_ttl, text_persist, text_setex, text_psetex, text_pexpire, text_expireat,
  text_pexpireat,
}
use socketley.CacheInstance.Text.Keys.{
  text_del, text_exists, text_type, text_keys, text_scan, text_flush, text_load, text_size,
  text_subscribe, text_unsubscribe, text_publish, text_maxmemory, text_memory,
  handle_replicate_request,
}

-- The cases, each by its word.
pub data TextVerb : Type 0 where
  set_line get_line del_line exists_line incr_line decr_line incrby_line decrby_line append_line
        strlen_line getset_line mget_line :
      TextVerb
  mset_line type_line keys_line lpush_line rpush_line lpop_line rpop_line llen_line lindex_line
        lrange_line sadd_line srem_line :
      TextVerb
  sismember_line scard_line smembers_line hset_line hget_line hdel_line hlen_line hgetall_line
        expire_line ttl_line persist_line setnx_line :
      TextVerb
  setex_line psetex_line pexpire_line pttl_line expireat_line pexpireat_line scan_line flush_line
        load_line size_line subscribe_line unsubscribe_line :
      TextVerb
  publish_line maxmemory_line memory_line replicate_line unknown_line : TextVerb

abbrev pub text_verbs : List (String × TextVerb)
text_verbs =
    ("set", set_line)
    ∷ ("get", get_line)
    ∷ ("del", del_line)
    ∷ ("exists", exists_line)
    ∷ ("incr", incr_line)
    ∷ ("decr", decr_line)
    ∷ ("incrby", incrby_line)
    ∷ ("decrby", decrby_line)
    ∷ ("append", append_line)
    ∷ ("strlen", strlen_line)
    ∷ ("getset", getset_line)
    ∷ ("mget", mget_line)
    ∷ ("mset", mset_line)
    ∷ ("type", type_line)
    ∷ ("keys", keys_line)
    ∷ ("lpush", lpush_line)
    ∷ ("rpush", rpush_line)
    ∷ ("lpop", lpop_line)
    ∷ ("rpop", rpop_line)
    ∷ ("llen", llen_line)
    ∷ ("lindex", lindex_line)
    ∷ ("lrange", lrange_line)
    ∷ ("sadd", sadd_line)
    ∷ ("srem", srem_line)
    ∷ ("sismember", sismember_line)
    ∷ ("scard", scard_line)
    ∷ ("smembers", smembers_line)
    ∷ ("hset", hset_line)
    ∷ ("hget", hget_line)
    ∷ ("hdel", hdel_line)
    ∷ ("hlen", hlen_line)
    ∷ ("hgetall", hgetall_line)
    ∷ ("expire", expire_line)
    ∷ ("ttl", ttl_line)
    ∷ ("persist", persist_line)
    ∷ ("setnx", setnx_line)
    ∷ ("setex", setex_line)
    ∷ ("psetex", psetex_line)
    ∷ ("pexpire", pexpire_line)
    ∷ ("pttl", pttl_line)
    ∷ ("expireat", expireat_line)
    ∷ ("pexpireat", pexpireat_line)
    ∷ ("scan", scan_line)
    ∷ ("flush", flush_line)
    ∷ ("load", load_line)
    ∷ ("size", size_line)
    ∷ ("subscribe", subscribe_line)
    ∷ ("unsubscribe", unsubscribe_line)
    ∷ ("publish", publish_line)
    ∷ ("maxmemory", maxmemory_line)
    ∷ ("memory", memory_line)
    ∷ ("replicate", replicate_line)
    ∷ []

-- The first case whose hash it is.
unfoldable pub text_verb_among : List (String × TextVerb) → ℕ → TextVerb
text_verb_among [] hash = unknown_line
text_verb_among ((name, verb) ∷ cases) hash =
    let later = text_verb_among cases hash in if hash == fnv1a (codes name) then verb else later

unfoldable pub text_perform : TextVerb → World → Bytes → Bytes → Session → Option Session
text_perform set_line w line args x = text_set w line args x
text_perform get_line w line args x = text_get w args x
text_perform del_line w line args x = text_del w line args x
text_perform exists_line w line args x = text_exists w args x
text_perform incr_line w line args x = text_incr w (pos 1) "usage: incr key" line args x
text_perform decr_line w line args x = text_incr w (negsuc 0) "usage: decr key" line args x
text_perform incrby_line w line args x = text_incrby w false "usage: incrby key delta" line args x
text_perform decrby_line w line args x = text_incrby w true "usage: decrby key delta" line args x
text_perform append_line w line args x = text_append w line args x
text_perform strlen_line w line args x = text_strlen w args x
text_perform getset_line w line args x = text_getset w line args x
text_perform mget_line w line args x = text_mget w args x
text_perform mset_line w line args x = text_mset w line args x
text_perform type_line w line args x = text_type w args x
text_perform keys_line w line args x = text_keys w args x
text_perform lpush_line w line args x =
    text_push (lpush w.draws) "usage: lpush key value" w line args x
text_perform rpush_line w line args x =
    text_push (rpush w.draws) "usage: rpush key value" w line args x
text_perform lpop_line w line args x = text_pop lpop w args x
text_perform rpop_line w line args x = text_pop rpop w args x
text_perform llen_line w line args x = text_count llen w args x
text_perform lindex_line w line args x = text_lindex w args x
text_perform lrange_line w line args x = text_lrange w args x
text_perform sadd_line w line args x = text_sadd w line args x
text_perform srem_line w line args x = text_remove srem "usage: srem key member" w args x
text_perform sismember_line w line args x = text_sismember w args x
text_perform scard_line w line args x = text_count scard w args x
text_perform smembers_line w line args x = text_smembers w args x
text_perform hset_line w line args x = text_hset w line args x
text_perform hget_line w line args x = text_hget w args x
text_perform hdel_line w line args x = text_remove hdel "usage: hdel key field" w args x
text_perform hlen_line w line args x = text_count hlen w args x
text_perform hgetall_line w line args x = text_hgetall w args x
text_perform expire_line w line args x = text_expire w args x
text_perform ttl_line w line args x = text_ttl get_ttl w args x
text_perform persist_line w line args x = text_persist w args x
text_perform setnx_line w line args x = text_setnx w line args x
text_perform setex_line w line args x = text_setex w line args x
text_perform psetex_line w line args x = text_psetex w line args x
text_perform pexpire_line w line args x = text_pexpire w args x
text_perform pttl_line w line args x = text_ttl get_pttl w args x
text_perform expireat_line w line args x = text_expireat w args x
text_perform pexpireat_line w line args x = text_pexpireat w args x
text_perform scan_line w line args x = text_scan w args x
text_perform flush_line w line args x = text_flush w x
text_perform load_line w line args x = text_load w x
text_perform size_line w line args x = text_size x
text_perform subscribe_line w line args x = text_subscribe args x
text_perform unsubscribe_line w line args x = text_unsubscribe args x
text_perform publish_line w line args x = text_publish w args x
text_perform maxmemory_line w line args x = text_maxmemory x
text_perform memory_line w line args x = text_memory x
text_perform replicate_line w line args x = some (handle_replicate_request x)
text_perform unknown_line w line args x = some (say "failed: unknown command" x)

-- An empty line is dropped, one that the rate limits refuse is answered and not counted.
unfoldable pub process_command : World → Bytes → Session → Option Session
process_command w [] x = some x
process_command w (c ∷ line) x =
    if w.admitted
    then text_perform (text_verb_among text_verbs (fnv1a_lower (key_of (c ∷ line)))) w (c ∷ line)
        (args_behind (c ∷ line)) (record x { stat_commands = (x.stat_commands + 1) % 2 ^ 64 })
    else some (say "error: rate limited" x)
