-- ===== src/CacheInstance/Deadlines.antt =====
-- The commands on deadlines in `process_resp_command`.
use Prim.Native.String.{String}
use socketley.Prelude.{ℕ, Bool, true, false, not, Option, none, some, List, Bytes, if◌then◌else◌}
use socketley.Prelude.Int.{ℤ, pos, ◌-ℤ◌, leb_ℤ}
use socketley.Prelude.Words.{in_range, to_int}
use socketley.Cache.State.{Store}
use socketley.Cache.General.{del}
use socketley.Cache.Expiry.{set_expiry, set_expiry_ms, get_ttl, get_pttl, persist}
use socketley.Cache.Strings
use socketley.CacheInstance.Session.{
  Session, World, arg, reply_error, reply_integer, needs, writable, with_store, live, number,
  int_half, int64_half, repl,
}
use socketley.CacheInstance.Strings.{with_deadline, confirm}

-- `set_expiry` or `set_expiry_ms`, and the answer to its answer.
abbrev pub answer_expiry : World → List Bytes → Option (Bool × Store) → Session → Option Session
answer_expiry w args none x = none
answer_expiry w args (some (true, s)) x =
    some (reply_integer (pos 1) (repl w args (record x { store = s; has_ttl_keys = true })))
answer_expiry w args (some (false, s)) x = some (reply_integer (pos 0) (with_store s x))

-- EXPIRE and PEXPIRE; a number that cannot be read or is not positive is refused by `msg`.
unfoldable pub expire_with :
    ℕ
    → String
    → (Bytes → ℤ → ℤ → Store → Option (Bool × Store))
    → World
    → List Bytes
    → Session
    → Option Session
expire_with half msg set_to w args x = needs 3 args x (
    writable x (elim (number half (arg 2 args)) [
      | none ↦ some (reply_error msg x)
      | some n ↦
          if leb_ℤ n (pos 0)
          then some (reply_error msg x)
          else answer_expiry w args (set_to (arg 1 args) n w.now x.store) x
    ]))

unfoldable pub expire_command : World → List Bytes → Session → Option Session
expire_command = expire_with int_half "invalid seconds" set_expiry

unfoldable pub pexpire_command : World → List Bytes → Session → Option Session
pexpire_command = expire_with int64_half "ERR invalid expire time" set_expiry_ms

-- EXPIREAT and PEXPIREAT: a time that has passed deletes the key. The difference may overflow; it
-- is cast by `cast`.
unfoldable pub expireat_with :
    (ℤ → ℤ)
    → (Bytes → ℤ → ℤ → Store → Option (Bool × Store))
    → ℤ
    → World
    → List Bytes
    → Session
    → Option Session
expireat_with cast set_to clock w args x = needs 3 args x (
    writable x (elim (number int64_half (arg 2 args)) [
      | none ↦ some (reply_error "ERR invalid timestamp" x)
      | some at ↦
          if not (in_range int64_half (at -ℤ clock))
          then none
          else if leb_ℤ (at -ℤ clock) (pos 0)
          then some
              (reply_integer (pos 1) (repl w args (with_store (del (arg 1 args) x.store).1 x)))
          else answer_expiry w args (set_to (arg 1 args) (cast (at -ℤ clock)) w.now x.store) x
    ]))

unfoldable pub expireat_command : World → List Bytes → Session → Option Session
expireat_command w = expireat_with to_int set_expiry w.unix_seconds w

unfoldable pub pexpireat_command : World → List Bytes → Session → Option Session
pexpireat_command w = expireat_with (λ n. n) set_expiry_ms w.unix_ms w

unfoldable pub ttl_with : (Bytes → ℤ → Store → ℤ) → World → List Bytes → Session → Option Session
ttl_with get w args x =
    needs 2 args x
      (let y = live w (arg 1 args) x in some (reply_integer (get (arg 1 args) w.later y.store) y))

unfoldable pub ttl_command : World → List Bytes → Session → Option Session
ttl_command = ttl_with get_ttl

unfoldable pub pttl_command : World → List Bytes → Session → Option Session
pttl_command = ttl_with get_pttl

unfoldable pub persist_command : World → List Bytes → Session → Option Session
persist_command w args x = needs 2 args x (
    writable x (
      let (ok, s) = persist (arg 1 args) x.store in
      let y = with_store s x in
      some (if ok then reply_integer (pos 1) (repl w args y) else reply_integer (pos 0) y)))

-- SETEX and PSETEX.
unfoldable pub setex_with :
    ℕ
    → String
    → (Bytes → ℤ → ℤ → Store → Option (Bool × Store))
    → World
    → List Bytes
    → Session
    → Option Session
setex_with half msg set_to w args x = needs 4 args x (
    writable x (elim (number half (arg 2 args)) [
      | none ↦ some (reply_error msg x)
      | some n ↦
          if leb_ℤ n (pos 0)
          then some (reply_error msg x)
          else let y = live w (arg 1 args) x in
            let (stored, s) = Strings.set w.draws (arg 1 args) (arg 3 args) y.store in
            if stored
            then (elim (with_deadline (set_to (arg 1 args) n w.later s) y) [
              | none ↦ none
              | some z ↦ some (confirm w args z)
            ])
            else some (reply_error "WRONGTYPE" (with_store s y))
    ]))

unfoldable pub setex_command : World → List Bytes → Session → Option Session
setex_command = setex_with int_half "ERR invalid expire time in SETEX" set_expiry

unfoldable pub psetex_command : World → List Bytes → Session → Option Session
psetex_command = setex_with int64_half "ERR invalid expire time in PSETEX" set_expiry_ms
