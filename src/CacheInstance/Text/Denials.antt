-- ===== src/CacheInstance/Text/Denials.antt =====
-- The lines that write, in the mode `readonly`.
use socketley.Prelude.{◌≡◌, arith, Bool, true, false, some, Bytes}
use socketley.CacheInstance.Session.{readonly, Session, World}
use socketley.CacheInstance.Text.{say}
use socketley.CacheInstance.Text.Strings.{
  text_set, text_incr, text_incrby, text_append, text_getset, text_mset, text_setnx,
}
use socketley.CacheInstance.Text.Containers.{text_push, text_pop, text_sadd, text_remove, text_hset}
use socketley.CacheInstance.Text.Deadlines.{
  text_expire_with, text_expire, text_pexpire, text_persist, text_setex_with, text_setex,
  text_psetex, text_expireat_with, text_expireat, text_pexpireat,
}
use socketley.CacheInstance.Text.Keys.{text_del, text_publish}
use socketley.CacheInstance.Text.Dispatch.{TextVerb, text_perform}

-- Whether a line is one that writes, or publishes.
abbrev pub writes_line : TextVerb → Bool
writes_line TextVerb.set_line = true
writes_line TextVerb.del_line = true
writes_line TextVerb.incr_line = true
writes_line TextVerb.decr_line = true
writes_line TextVerb.incrby_line = true
writes_line TextVerb.decrby_line = true
writes_line TextVerb.append_line = true
writes_line TextVerb.getset_line = true
writes_line TextVerb.mset_line = true
writes_line TextVerb.lpush_line = true
writes_line TextVerb.rpush_line = true
writes_line TextVerb.lpop_line = true
writes_line TextVerb.rpop_line = true
writes_line TextVerb.sadd_line = true
writes_line TextVerb.srem_line = true
writes_line TextVerb.hset_line = true
writes_line TextVerb.hdel_line = true
writes_line TextVerb.expire_line = true
writes_line TextVerb.persist_line = true
writes_line TextVerb.setnx_line = true
writes_line TextVerb.setex_line = true
writes_line TextVerb.psetex_line = true
writes_line TextVerb.pexpire_line = true
writes_line TextVerb.expireat_line = true
writes_line TextVerb.pexpireat_line = true
writes_line TextVerb.publish_line = true
writes_line _ = false

-- In the mode `readonly` every line that writes or publishes is denied, by one reply and without any
-- other effect.
pub text_perform-denied :
    (w : World) (line args : Bytes) (x : Session) (verb : TextVerb)
    → x.mode ≡ readonly
    → writes_line verb ≡ true
    → text_perform verb w line args x ≡ some (say "denied: readonly mode" x)
unfolding text_perform text_set text_incr text_incrby text_append text_getset text_mset text_setnx
    text_push text_pop text_sadd text_remove text_hset text_expire_with text_expire text_pexpire
    text_persist text_setex_with text_setex text_psetex text_expireat_with text_expireat
    text_pexpireat text_del text_publish
text_perform-denied w line args x TextVerb.set_line off writing = ground arith
text_perform-denied w line args x TextVerb.del_line off writing = ground arith
text_perform-denied w line args x TextVerb.incr_line off writing = ground arith
text_perform-denied w line args x TextVerb.decr_line off writing = ground arith
text_perform-denied w line args x TextVerb.incrby_line off writing = ground arith
text_perform-denied w line args x TextVerb.decrby_line off writing = ground arith
text_perform-denied w line args x TextVerb.append_line off writing = ground arith
text_perform-denied w line args x TextVerb.getset_line off writing = ground arith
text_perform-denied w line args x TextVerb.mset_line off writing = ground arith
text_perform-denied w line args x TextVerb.lpush_line off writing = ground arith
text_perform-denied w line args x TextVerb.rpush_line off writing = ground arith
text_perform-denied w line args x TextVerb.lpop_line off writing = ground arith
text_perform-denied w line args x TextVerb.rpop_line off writing = ground arith
text_perform-denied w line args x TextVerb.sadd_line off writing = ground arith
text_perform-denied w line args x TextVerb.srem_line off writing = ground arith
text_perform-denied w line args x TextVerb.hset_line off writing = ground arith
text_perform-denied w line args x TextVerb.hdel_line off writing = ground arith
text_perform-denied w line args x TextVerb.expire_line off writing = ground arith
text_perform-denied w line args x TextVerb.persist_line off writing = ground arith
text_perform-denied w line args x TextVerb.setnx_line off writing = ground arith
text_perform-denied w line args x TextVerb.setex_line off writing = ground arith
text_perform-denied w line args x TextVerb.psetex_line off writing = ground arith
text_perform-denied w line args x TextVerb.pexpire_line off writing = ground arith
text_perform-denied w line args x TextVerb.expireat_line off writing = ground arith
text_perform-denied w line args x TextVerb.pexpireat_line off writing = ground arith
text_perform-denied w line args x TextVerb.publish_line off writing = ground arith
text_perform-denied w line args x _ off writing = ground arith
