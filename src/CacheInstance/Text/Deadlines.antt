-- ===== src/CacheInstance/Text/Deadlines.antt =====
-- The commands on deadlines in `process_command`.
use Prim.Native.String.{String}
use socketley.Prelude.{Bool, true, false, not, ◌||◌, Option, none, some, Bytes, if◌then◌else◌}
use socketley.Prelude.Int.{ℤ, pos, ◌-ℤ◌, leb_ℤ}
use socketley.Prelude.Words.{in_range, to_int}
use socketley.Cache.State.{Store}
use socketley.Cache.General.{del}
use socketley.Cache.Expiry.{set_expiry, set_expiry_ms, persist}
use socketley.Cache.Strings
use socketley.CacheInstance.Connection.{is_empty_list}
use socketley.CacheInstance.Session.{
  Session, World, with_store, live, number, int64_half, replicate_command,
}
use socketley.CacheInstance.Strings.{with_deadline}
use socketley.CacheInstance.Text.{
  say, say_integer, key_of, args_behind, parse_int_sv, denied, given,
}

-- The answer to the answer of `set_expiry` or `set_expiry_ms`; the followers are not told of it.
abbrev pub told_expiry : String → String → Option (Bool × Store) → Session → Option Session
told_expiry done failed none x = none
told_expiry done failed (some (true, s)) x =
    some (say done (record x { store = s; has_ttl_keys = true }))
told_expiry done failed (some (false, s)) x = some (say failed (with_store s x))

unfoldable pub text_expire_with :
    (Bytes → Option ℤ)
    → (Bytes → ℤ → ℤ → Store → Option (Bool × Store))
    → String
    → String
    → String
    → String
    → World
    → Bytes
    → Session
    → Option Session
text_expire_with read set_to usage bad done failed w args x = denied x (
    given usage (key_of args) (args_behind args) x (elim (read (args_behind args)) [
      | none ↦ some (say bad x)
      | some n ↦
          if leb_ℤ n (pos 0)
          then some (say bad x)
          else told_expiry done failed (set_to (key_of args) n w.now x.store) x
    ]))

unfoldable pub text_expire : World → Bytes → Session → Option Session
text_expire =
    text_expire_with parse_int_sv set_expiry "usage: expire key seconds" "error: invalid seconds"
      "ok" "nil"

unfoldable pub text_pexpire : World → Bytes → Session → Option Session
text_pexpire =
    text_expire_with (number int64_half) set_expiry_ms "usage: pexpire key ms" "error: invalid ms"
      "1" "0"

unfoldable pub text_ttl : (Bytes → ℤ → Store → ℤ) → World → Bytes → Session → Option Session
text_ttl get w args x = let y = live w args x in some (say_integer (get args w.later y.store) y)

unfoldable pub text_persist : World → Bytes → Session → Option Session
text_persist w args x = denied x (
    let (ok, s) = persist args x.store in
    let y = with_store s x in some (if ok then say "ok" y else say "nil" y))

unfoldable pub text_setex_with :
    (Bytes → Option ℤ)
    → (Bytes → ℤ → ℤ → Store → Option (Bool × Store))
    → String
    → String
    → World
    → Bytes
    → Bytes
    → Session
    → Option Session
text_setex_with read set_to usage bad w line args x =
    let rest = args_behind args in
    let val = args_behind rest in
    denied x (
      if is_empty_list (key_of args) || is_empty_list (key_of rest) || is_empty_list val
      then some (say usage x)
      else elim (read (key_of rest)) [
        | none ↦ some (say bad x)
        | some n ↦
            if leb_ℤ n (pos 0)
            then some (say bad x)
            else let y = live w (key_of args) x in
              let (stored, s) = Strings.set w.draws (key_of args) val y.store in
              if stored
              then (elim (with_deadline (set_to (key_of args) n w.later s) y) [
                | none ↦ none
                | some z ↦ some (replicate_command w line (say "ok" z))
              ])
              else some (say "error: type conflict" (with_store s y))
      ])

unfoldable pub text_setex : World → Bytes → Bytes → Session → Option Session
text_setex =
    text_setex_with parse_int_sv set_expiry "usage: setex key seconds value"
      "error: invalid seconds"

unfoldable pub text_psetex : World → Bytes → Bytes → Session → Option Session
text_psetex =
    text_setex_with (number int64_half) set_expiry_ms "usage: psetex key milliseconds value"
      "error: invalid milliseconds"

unfoldable pub text_expireat_with :
    (ℤ → ℤ)
    → (Bytes → ℤ → ℤ → Store → Option (Bool × Store))
    → String
    → ℤ
    → World
    → Bytes
    → Session
    → Option Session
text_expireat_with cast set_to usage clock w args x = denied x (
    given usage (key_of args) (args_behind args) x (elim (number int64_half (args_behind args)) [
      | none ↦ some (say "error: invalid timestamp" x)
      | some at ↦
          if not (in_range int64_half (at -ℤ clock))
          then none
          else if leb_ℤ (at -ℤ clock) (pos 0)
          then some (say "1" (with_store (del (key_of args) x.store).1 x))
          else told_expiry "1" "0" (set_to (key_of args) (cast (at -ℤ clock)) w.now x.store) x
    ]))

unfoldable pub text_expireat : World → Bytes → Session → Option Session
text_expireat w =
    text_expireat_with to_int set_expiry "usage: expireat key unix_seconds" w.unix_seconds w

unfoldable pub text_pexpireat : World → Bytes → Session → Option Session
text_pexpireat w =
    text_expireat_with (λ n. n) set_expiry_ms "usage: pexpireat key unix_ms" w.unix_ms w
