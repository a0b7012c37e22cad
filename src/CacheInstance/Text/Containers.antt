-- ===== src/CacheInstance/Text/Containers.antt =====
-- The commands on lists, sets and hashes in `process_command`.
use Prim.Native.String.{String}
use socketley.Prelude.{Bool, Option, none, some, List, [], ◌∷◌, ◌++◌, Bytes, if◌then◌else◌}
use socketley.Prelude.Int.{ℤ, pos, ltb_ℤ}
use socketley.Cache.State.{Store, HashInner}
use socketley.Cache.Lists.{list_ptr, lindex}
use socketley.Cache.Sets.{sadd, sismember, set_ptr}
use socketley.Cache.Hashes.{hset, hget, hash_ptr}
use socketley.CacheInstance.Session.{Session, World, with_store, live, replicate_command}
use socketley.CacheInstance.Containers.{range, members}
use socketley.CacheInstance.Text.{
  say, say_integer, say_ptr, say_lines, key_of, args_behind, parse_int_sv, denied, given,
}

unfoldable pub text_push :
    (Bytes → Bytes → Store → Option (Bool × Store))
    → String
    → World
    → Bytes
    → Bytes
    → Session
    → Option Session
text_push push usage w line args x = denied x (
    given usage (key_of args) (args_behind args) x (
      let y = live w (key_of args) x in
      elim (push (key_of args) (args_behind args) y.store) [
        | none ↦ none
        | some (ok, s) ↦ some (
            if ok
            then replicate_command w line (say "ok" (with_store s y))
            else say "error: type conflict" (with_store s y))
      ]))

-- LPOP and RPOP, which the followers are not told of.
unfoldable pub text_pop :
    (Bytes → Store → Option Bytes × Store) → World → Bytes → Session → Option Session
text_pop pop w args x = denied x (
    let y = live w args x in let (val, s) = pop args y.store in some (say_ptr val (with_store s y)))

unfoldable pub text_count : (Bytes → Store → ℤ) → World → Bytes → Session → Option Session
text_count count w args x = let y = live w args x in some (say_integer (count args y.store) y)

unfoldable pub text_lindex : World → Bytes → Session → Option Session
text_lindex w args x = given "usage: lindex key index" (key_of args) (args_behind args) x (
    let y = live w (key_of args) x in
    some (elim (parse_int_sv (args_behind args)) [
      | none ↦ say "error: invalid index" y
      | some idx ↦ say_ptr (lindex (key_of args) idx y.store) y
    ]))

unfoldable pub text_lrange : World → Bytes → Session → Option Session
text_lrange w args x =
    let usage : String = "usage: lrange key start stop" in
    let rest = args_behind args in
    given usage (key_of args) rest x (
      given usage (key_of rest) (args_behind rest) x (
        let y = live w (key_of args) x in
        elim (parse_int_sv (key_of rest)) [
          | none ↦ some (say "error: invalid index" y)
          | some start ↦ elim (parse_int_sv (args_behind rest)) [
            | none ↦ some (say "error: invalid index" y)
            | some stop ↦ elim (list_ptr (key_of args) y.store) [
              | none ↦ some (say "end" y)
              | some deq ↦ some (say "end" (say_lines (range start stop deq) y))
            ]
          ]
        ]))

unfoldable pub text_sadd : World → Bytes → Bytes → Session → Option Session
text_sadd w line args x = denied x (
    given "usage: sadd key member" (key_of args) (args_behind args) x (
      let y = live w (key_of args) x in
      elim (sadd w.draws (key_of args) (args_behind args) y.store) [
        | none ↦ none
        | some (result, s) ↦ some (
            if ltb_ℤ result (pos 0)
            then say "error: type conflict" (with_store s y)
            else if ltb_ℤ (pos 0) result
            then replicate_command w line (say "ok" (with_store s y))
            else say "exists" (with_store s y))
      ]))

-- SREM and HDEL, which the followers are not told of.
unfoldable pub text_remove :
    (Bytes → Bytes → Store → Bool × Store) → String → World → Bytes → Session → Option Session
text_remove rem usage w args x = denied x (
    given usage (key_of args) (args_behind args) x (
      let y = live w (key_of args) x in
      let (ok, s) = rem (key_of args) (args_behind args) y.store in
      some (if ok then say "ok" (with_store s y) else say "nil" (with_store s y))))

unfoldable pub text_sismember : World → Bytes → Session → Option Session
text_sismember w args x = given "usage: sismember key member" (key_of args) (args_behind args) x (
    let y = live w (key_of args) x in
    some (if sismember (key_of args) (args_behind args) y.store then say "1" y else say "0" y))

unfoldable pub text_smembers : World → Bytes → Session → Option Session
text_smembers w args x =
    let y = live w args x in
    elim (set_ptr args y.store) [
      | none ↦ some (say "end" y)
      | some s ↦ some (say "end" (say_lines (members s) y))
    ]

unfoldable pub text_hset : World → Bytes → Bytes → Session → Option Session
text_hset w line args x =
    let usage : String = "usage: hset key field value" in
    let rest = args_behind args in
    denied x (
      given usage (key_of args) rest x (
        given usage (key_of rest) (args_behind rest) x (
          let y = live w (key_of args) x in
          elim (hset w.draws (key_of args) (key_of rest) (args_behind rest) y.store) [
            | none ↦ none
            | some (ok, s) ↦ some (
                if ok
                then replicate_command w line (say "ok" (with_store s y))
                else say "error: type conflict" (with_store s y))
          ])))

unfoldable pub text_hget : World → Bytes → Session → Option Session
text_hget w args x = given "usage: hget key field" (key_of args) (args_behind args) x (
    let y = live w (key_of args) x in
    some (say_ptr (hget (key_of args) (args_behind args) y.store) y))

-- A field and its value on one line.
unfoldable pub field_lines : HashInner → List Bytes
field_lines [] = []
field_lines ((f, v) ∷ h) = (f ++ 32 ∷ v) ∷ field_lines h

unfoldable pub text_hgetall : World → Bytes → Session → Option Session
text_hgetall w args x =
    let y = live w args x in
    elim (hash_ptr args y.store) [
      | none ↦ some (say "end" y)
      | some h ↦ some (say "end" (say_lines (field_lines h) y))
    ]
