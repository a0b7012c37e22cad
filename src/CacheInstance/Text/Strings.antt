-- ===== src/CacheInstance/Text/Strings.antt =====
-- The commands on strings in `process_command`.
use Prim.Native.String.{String}
use socketley.Prelude.{
  ℕ, suc, ◌+◌, ◌%◌, ◌^◌, Bool, not, Option, none, some, List, [], ◌∷◌, ◌++◌, codes, Bytes, ◌==◌,
  if◌then◌else◌,
}
use socketley.Prelude.Int.{ℤ}
use socketley.Prelude.Words.{in_range}
use socketley.Cache.State.{Store}
use socketley.Cache.General.{exists}
use socketley.Cache.Expiry.{check_expiry, check_expiry_and_get_ptr, get_ptr}
use socketley.Cache.Strings
use socketley.Cache.Strings.{IncrReply, incremented, out_of_memory, refused, npos, strlen_key}
use socketley.CacheInstance.Connection.{is_empty_list}
use socketley.CacheInstance.Session.{
  Session, World, put, with_store, live, number, int64_half, replicate_command,
}
use socketley.CacheInstance.Strings.{negate, mset_rest}
use socketley.CacheInstance.Text.{
  say, say_bytes, say_integer, say_ptr, cut_blank, key_of, args_behind, blank_words, words_to_end,
  denied, given, as_int64,
}

unfoldable pub text_set : World → Bytes → Bytes → Session → Option Session
text_set w line args x = denied x (elim (cut_blank args) [
  | none ↦ some (say "usage: set key value" x)
  | some (key, val) ↦
      let y = live w key x in
      let (stored, s) = Strings.set w.draws key val y.store in
      some (
        if stored
        then replicate_command w line (say "ok" (with_store s y))
        else say "error: type conflict" (with_store s y))
])

unfoldable pub text_get : World → Bytes → Session → Option Session
text_get w args x =
    let (val, s) = check_expiry_and_get_ptr args w.now x.store in
    some (elim val [
      | some v ↦ say_bytes v (record x { store = s; get_hits = (x.get_hits + 1) % 2 ^ 64 })
      | none ↦ say "nil" (record x { store = s; get_misses = (x.get_misses + 1) % 2 ^ 64 })
    ])

-- What `incr` answered.
abbrev pub told_incr : World → Bytes → Option (IncrReply × Store) → Session → Option Session
told_incr w line none x = none
told_incr w line (some (incremented n, s)) x =
    some (replicate_command w line (say_integer n (with_store s x)))
told_incr w line (some (out_of_memory n, s)) x = some (say "error: not an integer" (with_store s x))
told_incr w line (some (refused, s)) x = some (say "error: not an integer" (with_store s x))

-- The usage of INCR or DECR: one byte more is appended than the text has, so a NUL follows the line.
abbrev pub say_nul : String → Session → Session
say_nul msg x = put (x.conn.response_buf ++ (codes msg ++ 10 ∷ 0 ∷ [])) x

unfoldable pub text_incr : World → ℤ → String → Bytes → Bytes → Session → Option Session
text_incr w delta usage line args x = denied x (
    if is_empty_list args
    then some (say_nul usage x)
    else told_incr w line (Strings.incr w.draws args delta w.now x.store) x)

unfoldable pub text_incrby : World → Bool → String → Bytes → Bytes → Session → Option Session
text_incrby w down usage line args x = denied x (
    given usage (key_of args) (args_behind args) x (elim (number int64_half (args_behind args)) [
      | none ↦ some (say "error: invalid delta" x)
      | some delta ↦
          if not down
          then told_incr w line (Strings.incr w.draws (key_of args) delta w.now x.store) x
          else if in_range int64_half (negate delta)
          then told_incr w line (Strings.incr w.draws (key_of args) (negate delta) w.now x.store) x
          else none
    ]))

unfoldable pub text_append : World → Bytes → Bytes → Session → Option Session
text_append w line args x = denied x (
    given "usage: append key value" (key_of args) (args_behind args) x
      (elim (Strings.append w.draws (key_of args) (args_behind args) w.now x.store) [
        | none ↦ none
        | some (newlen, s) ↦ some (
            if newlen == npos
            then say "error: type conflict" (with_store s x)
            else replicate_command w line (say_integer (as_int64 newlen) (with_store s x)))
      ]))

unfoldable pub text_strlen : World → Bytes → Session → Option Session
text_strlen w args x =
    let y = live w args x in some (say_integer (as_int64 (strlen_key args y.store)) y)

unfoldable pub text_getset : World → Bytes → Bytes → Session → Option Session
text_getset w line args x = denied x (
    given "usage: getset key newvalue" (key_of args) (args_behind args) x (
      let y = live w (key_of args) x in
      let had_key = exists (key_of args) y.store in
      let (ok, oldval, s) =
        Strings.getset w.draws (key_of args) (args_behind args) w.later y.store in
      let z = with_store s y in
      some (
        if not ok
        then say "error: type conflict" z
        else replicate_command w line (
            if had_key
            then say_bytes (elim oldval [ none ↦ [] | some old ↦ old ]) z
            else say "nil" z))))

-- The loop of MGET.
unfoldable pub tell_each : (ℕ → ℤ) → List Bytes → Session → Session
tell_each times [] x = x
tell_each times (key ∷ keys) x =
    let (val, s) = get_ptr key (check_expiry key (times 0) x.store) in
    tell_each (λ n. times (suc n)) keys (say_ptr val (with_store s x))

unfoldable pub text_mget : World → Bytes → Session → Option Session
text_mget w args x = some (say "end" (tell_each w.now_each (blank_words args) x))

unfoldable pub text_mset : World → Bytes → Bytes → Session → Option Session
text_mset w line args x = denied x (
    some (
      replicate_command w line
        (say "ok" (mset_rest w.draws_each w.now_each (words_to_end args) x))))

unfoldable pub text_setnx : World → Bytes → Bytes → Session → Option Session
text_setnx w line args x = denied x (
    given "usage: setnx key value" (key_of args) (args_behind args) x (
      let (did_set, s) = Strings.setnx w.draws (key_of args) (args_behind args) w.now x.store in
      let y = with_store s x in
      some (if did_set then replicate_command w line (say "1" y) else say "0" y)))
