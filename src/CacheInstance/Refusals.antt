-- ===== src/CacheInstance/Refusals.antt =====
-- The commands that write, in the mode `readonly`.
use socketley.Prelude.{
  ℕ, ◌≡◌, ◌⊎◌, arith, inl, inr, Bool, true, false, Option, some, List, Bytes, length, ltb,
  Bool-cases, if◌then◌else◌,
}
use socketley.CacheInstance.Session.{readonly, Session, World, reply_error, needs, writable}
use socketley.CacheInstance.Strings.{
  set_command, incr_command, incrby_command, append_command, getset_command, mset_command,
  setnx_command,
}
use socketley.CacheInstance.Containers.{
  push_command, lpush_command, rpush_command, pop_command, lpop_command, rpop_command, sadd_command,
  remove_command, srem_command, hset_command, hdel_command,
}
use socketley.CacheInstance.Deadlines.{
  expire_with, expire_command, pexpire_command, expireat_with, expireat_command, pexpireat_command,
  persist_command, setex_with, setex_command, psetex_command,
}
use socketley.CacheInstance.Keys.{del_command}
use socketley.CacheInstance.Dispatch.{Verb, perform}

-- Whether a command is one that writes.
abbrev pub writes : Verb → Bool
writes Verb.set = true
writes Verb.del = true
writes Verb.incr = true
writes Verb.decr = true
writes Verb.incrby = true
writes Verb.decrby = true
writes Verb.append = true
writes Verb.getset = true
writes Verb.mset = true
writes Verb.lpush = true
writes Verb.rpush = true
writes Verb.lpop = true
writes Verb.rpop = true
writes Verb.sadd = true
writes Verb.srem = true
writes Verb.hset = true
writes Verb.hdel = true
writes Verb.expire = true
writes Verb.persist = true
writes Verb.setnx = true
writes Verb.setex = true
writes Verb.psetex = true
writes Verb.pexpire = true
writes Verb.expireat = true
writes Verb.pexpireat = true
writes _ = false

-- One of two errors, and nothing else: the store, the followers and the other connections stay.
abbrev pub IsRefused : Session → Option Session → Type 0
IsRefused x y =
    (y ≡ some (reply_error "readonly mode" x))
    ⊎ (y ≡ some (reply_error "wrong number of arguments" x))

module _ (args : List Bytes) (x : Session) (off : x.mode ≡ readonly) where
  guarded : (argc : ℕ) (body : Option Session) → IsRefused x (needs argc args x (writable x body))
  guarded argc body = elim (Bool-cases (ltb (length args) argc)) [
    | inl few ↦ inr (ground arith)
    | inr enough ↦ inl (ground arith)
  ]

  guarded_even :
      (argc : ℕ) (even : Bool) (body : Option Session)
      → IsRefused x (
          needs argc args x
            (if even then writable x body else some (reply_error "wrong number of arguments" x)))
  guarded_even argc true body = guarded argc body
  guarded_even argc false body = inr (ground arith)

  -- In the mode `readonly` every command that writes is refused: it answers with one error and has no
  -- other effect.
  pub perform-IsRefused :
      (w : World) (verb : Verb) → writes verb ≡ true → IsRefused x (perform verb w args x)
  unfolding perform set_command incr_command incrby_command append_command getset_command
      mset_command setnx_command push_command lpush_command rpush_command pop_command lpop_command
      rpop_command sadd_command remove_command srem_command hset_command hdel_command expire_with
      expire_command pexpire_command expireat_with expireat_command pexpireat_command
      persist_command setex_with setex_command psetex_command del_command
  perform-IsRefused w Verb.set writing = guarded 3 _
  perform-IsRefused w Verb.del writing = guarded 2 _
  perform-IsRefused w Verb.incr writing = guarded 2 _
  perform-IsRefused w Verb.decr writing = guarded 2 _
  perform-IsRefused w Verb.incrby writing = guarded 3 _
  perform-IsRefused w Verb.decrby writing = guarded 3 _
  perform-IsRefused w Verb.append writing = guarded 3 _
  perform-IsRefused w Verb.getset writing = guarded 3 _
  perform-IsRefused w Verb.lpush writing = guarded 3 _
  perform-IsRefused w Verb.rpush writing = guarded 3 _
  perform-IsRefused w Verb.lpop writing = guarded 2 _
  perform-IsRefused w Verb.rpop writing = guarded 2 _
  perform-IsRefused w Verb.sadd writing = guarded 3 _
  perform-IsRefused w Verb.srem writing = guarded 3 _
  perform-IsRefused w Verb.hdel writing = guarded 3 _
  perform-IsRefused w Verb.expire writing = guarded 3 _
  perform-IsRefused w Verb.persist writing = guarded 2 _
  perform-IsRefused w Verb.setnx writing = guarded 3 _
  perform-IsRefused w Verb.setex writing = guarded 4 _
  perform-IsRefused w Verb.psetex writing = guarded 4 _
  perform-IsRefused w Verb.pexpire writing = guarded 3 _
  perform-IsRefused w Verb.expireat writing = guarded 3 _
  perform-IsRefused w Verb.pexpireat writing = guarded 3 _
  perform-IsRefused w Verb.mset writing = guarded_even 3 _ _
  perform-IsRefused w Verb.hset writing = guarded_even 4 _ _
  perform-IsRefused w _ writing = ground arith
