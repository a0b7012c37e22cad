-- ===== src/CacheInstance/Dispatch.antt =====
-- `process_resp_command`: the switch on the hash of the first argument.
use Prim.Native.String.{String}
use socketley.Prelude.{
  ℕ, ◌+◌, ◌%◌, ◌^◌, true, false, Option, some, List, [], ◌∷◌, Bytes, codes, ◌==◌, if◌then◌else◌,
}
use socketley.Prelude.Int.{pos, negsuc}
use socketley.Config.Names.{fnv1a, fnv1a_lower}
use socketley.CacheInstance.Session.{Session, World, reply_error}
use socketley.CacheInstance.Strings.{
  set_command, get_command, incr_command, incrby_command, append_command, strlen_command,
  getset_command, mget_command, mset_command, setnx_command,
}
use socketley.CacheInstance.Containers.{
  lpush_command, rpush_command, lpop_command, rpop_command, llen_command, lrange_command,
  lindex_command, sadd_command, srem_command, sismember_command, scard_command, smembers_command,
  hset_command, hget_command, hdel_command, hlen_command, hgetall_command,
}
use socketley.CacheInstance.Deadlines.{
  expire_command, pexpire_command, expireat_command, pexpireat_command, ttl_command, pttl_command,
  persist_command, setex_command, psetex_command,
}
use socketley.CacheInstance.Keys.{
  del_command, exists_command, type_command, keys_command, ping_command, dbsize_command,
  scan_command, subscribe_command, unsubscribe_command, publish_command, unknown_command,
}

pub data Verb : Type 0 where
  set get del exists incr decr incrby decrby append strlen getset mget mset type keys : Verb
  ping dbsize lpush rpush lpop rpop llen lrange lindex sadd srem sismember scard : Verb
  smembers hset hget hdel hlen hgetall expire ttl persist setnx setex psetex pexpire : Verb
  pttl expireat pexpireat scan subscribe unsubscribe publish unknown : Verb

-- The cases in the order of the source.
abbrev pub verbs : List (String × Verb)
verbs =
    ("set", set)
    ∷ ("get", get)
    ∷ ("del", del)
    ∷ ("exists", exists)
    ∷ ("incr", incr)
    ∷ ("decr", decr)
    ∷ ("incrby", incrby)
    ∷ ("decrby", decrby)
    ∷ ("append", append)
    ∷ ("strlen", strlen)
    ∷ ("getset", getset)
    ∷ ("mget", mget)
    ∷ ("mset", mset)
    ∷ ("type", type)
    ∷ ("keys", keys)
    ∷ ("ping", ping)
    ∷ ("dbsize", dbsize)
    ∷ ("lpush", lpush)
    ∷ ("rpush", rpush)
    ∷ ("lpop", lpop)
    ∷ ("rpop", rpop)
    ∷ ("llen", llen)
    ∷ ("lrange", lrange)
    ∷ ("lindex", lindex)
    ∷ ("sadd", sadd)
    ∷ ("srem", srem)
    ∷ ("sismember", sismember)
    ∷ ("scard", scard)
    ∷ ("smembers", smembers)
    ∷ ("hset", hset)
    ∷ ("hget", hget)
    ∷ ("hdel", hdel)
    ∷ ("hlen", hlen)
    ∷ ("hgetall", hgetall)
    ∷ ("expire", expire)
    ∷ ("ttl", ttl)
    ∷ ("persist", persist)
    ∷ ("setnx", setnx)
    ∷ ("setex", setex)
    ∷ ("psetex", psetex)
    ∷ ("pexpire", pexpire)
    ∷ ("pttl", pttl)
    ∷ ("expireat", expireat)
    ∷ ("pexpireat", pexpireat)
    ∷ ("scan", scan)
    ∷ ("subscribe", subscribe)
    ∷ ("unsubscribe", unsubscribe)
    ∷ ("publish", publish)
    ∷ []

-- The first case whose hash it is.
unfoldable pub verb_among : List (String × Verb) → ℕ → Verb
verb_among [] hash = unknown
verb_among ((name, verb) ∷ cases) hash =
    let later = verb_among cases hash in if hash == fnv1a (codes name) then verb else later

unfoldable pub verb_of : Bytes → Verb
verb_of word = verb_among verbs (fnv1a_lower word)

unfoldable pub perform : Verb → World → List Bytes → Session → Option Session
perform set w args x = set_command w args x
perform get w args x = get_command w args x
perform del w args x = del_command w args x
perform exists w args x = exists_command w args x
perform incr w args x = incr_command w (pos 1) args x
perform decr w args x = incr_command w (negsuc 0) args x
perform incrby w args x = incrby_command w false args x
perform decrby w args x = incrby_command w true args x
perform append w args x = append_command w args x
perform strlen w args x = strlen_command w args x
perform getset w args x = getset_command w args x
perform mget w args x = mget_command w args x
perform mset w args x = mset_command w args x
perform type w args x = type_command w args x
perform keys w args x = keys_command w args x
perform ping w args x = ping_command args x
perform dbsize w args x = dbsize_command x
perform lpush w args x = lpush_command w args x
perform rpush w args x = rpush_command w args x
perform lpop w args x = lpop_command w args x
perform rpop w args x = rpop_command w args x
perform llen w args x = llen_command w args x
perform lrange w args x = lrange_command w args x
perform lindex w args x = lindex_command w args x
perform sadd w args x = sadd_command w args x
perform srem w args x = srem_command w args x
perform sismember w args x = sismember_command w args x
perform scard w args x = scard_command w args x
perform smembers w args x = smembers_command w args x
perform hset w args x = hset_command w args x
perform hget w args x = hget_command w args x
perform hdel w args x = hdel_command w args x
perform hlen w args x = hlen_command w args x
perform hgetall w args x = hgetall_command w args x
perform expire w args x = expire_command w args x
perform ttl w args x = ttl_command w args x
perform persist w args x = persist_command w args x
perform setnx w args x = setnx_command w args x
perform setex w args x = setex_command w args x
perform psetex w args x = psetex_command w args x
perform pexpire w args x = pexpire_command w args x
perform pttl w args x = pttl_command w args x
perform expireat w args x = expireat_command w args x
perform pexpireat w args x = pexpireat_command w args x
perform scan w args x = scan_command w args x
perform subscribe w args x = subscribe_command args x
perform unsubscribe w args x = unsubscribe_command args x
perform publish w args x = publish_command w args x
perform unknown w args x = unknown_command args x

-- A command without arguments is dropped, one that the rate limits refuse is answered and not counted.
unfoldable pub process_resp_command : World → List Bytes → Session → Option Session
process_resp_command w [] x = some x
process_resp_command w (word ∷ args) x =
    if w.admitted
    then perform (verb_of word) w (word ∷ args)
        (record x { stat_commands = (x.stat_commands + 1) % 2 ^ 64 })
    else some (reply_error "rate limited" x)
