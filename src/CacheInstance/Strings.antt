-- ===== src/CacheInstance/Strings.antt =====
-- The commands on strings in `process_resp_command`.
use Prim.Native.String.{String}
use socketley.Prelude.{
  suc, ℕ, ◌+◌, ◌-◌, ◌%◌, ◌^◌, Bool, true, false, not, ◌&&◌, ◌||◌, Option, none, some, List, [], ◌∷◌,
  Bytes, codes, length, drop, ◌==◌, if◌then◌else◌,
}
use socketley.Prelude.Int.{ℤ, pos, pos_part, neg_part, sub_ℕ, ltb_ℤ}
use socketley.Prelude.Words.{in_range}
use socketley.Cache.State.{Store}
use socketley.Cache.General.{exists}
use socketley.Cache.Expiry.{
  check_expiry, check_expiry_and_get_ptr, get_ptr, set_expiry, set_expiry_ms,
}
use socketley.Cache.Strings
use socketley.Cache.Strings.{IncrReply, incremented, out_of_memory, refused, npos, strlen_key}
use socketley.Config.Names.{fnv1a, fnv1a_lower}
use socketley.Cache.Eviction.{Rng}
use socketley.CacheInstance.Session.{
  Session, World, arg, reply_ok, reply_null, reply_error, reply_integer, reply_bulk, reply_header,
  reply_ptr, needs, writable, with_store, live, number, int_half, int64_half, repl,
}

-- The options of SET.
pub record SetOptions : Type 0 where
  pub nx : Bool
  pub xx : Bool
  pub ex_sec : ℤ
  pub px_ms : ℤ

abbrev pub no_options : SetOptions
no_options = record { nx = false; xx = false; ex_sec = pos 0; px_ms = pos 0 }

-- A word is told by its hash, in any case of letters.
abbrev pub is_option : String → Bytes → Bool
is_option name word = fnv1a_lower word == fnv1a (codes name)

abbrev pub flag : Bytes → SetOptions → SetOptions
flag word o =
    if is_option "nx" word
    then record o { nx = true }
    else if is_option "xx" word
    then record o { xx = true }
    else o

-- The loop over the options; a number that cannot be read is looked at as a word of its own.
unfoldable pub set_options : List Bytes → SetOptions → SetOptions
set_options [] o = o
set_options (word ∷ []) o = if is_option "ex" word || is_option "px" word then o else flag word o
set_options (word ∷ next ∷ rest) o = elim (is_option "ex" word) [
  | true ↦ elim (number int_half next) [
    | some n ↦ set_options rest (record o { ex_sec = n })
    | none ↦ set_options (next ∷ rest) o
  ]
  | false ↦ elim (is_option "px" word) [
    | true ↦ elim (number int64_half next) [
      | some n ↦ set_options rest (record o { px_ms = n })
      | none ↦ set_options (next ∷ rest) o
    ]
    | false ↦ set_options (next ∷ rest) (flag word o)
  ]
]

-- `set_expiry` or `set_expiry_ms`, whose answer is not looked at.
abbrev pub with_deadline : Option (Bool × Store) → Session → Option Session
with_deadline none x = none
with_deadline (some (ok, s)) x = some (record x { store = s; has_ttl_keys = true })

unfoldable pub set_deadline : World → Bytes → ℤ → ℤ → Session → Option Session
set_deadline w key ex_sec px_ms x =
    if ltb_ℤ (pos 0) ex_sec
    then with_deadline (set_expiry key ex_sec w.later x.store) x
    else if ltb_ℤ (pos 0) px_ms
    then with_deadline (set_expiry_ms key px_ms w.later x.store) x
    else some x

-- The answer to a write that must succeed, with the replication behind it.
abbrev pub confirm : World → List Bytes → Session → Session
confirm w args x = repl w args (reply_ok x)

unfoldable pub set_plain : World → List Bytes → Session → Session
set_plain w args x =
    let y = live w (arg 1 args) x in
    let (stored, s) = Strings.set w.draws (arg 1 args) (arg 2 args) y.store in
    if stored then confirm w args (with_store s y) else reply_error "type conflict" (with_store s y)

unfoldable pub set_with : World → SetOptions → List Bytes → Session → Option Session
set_with w o args x =
    let y = live w (arg 1 args) x in
    let there = exists (arg 1 args) y.store in
    if (o.nx && there) || (o.xx && not there)
    then some (reply_null y)
    else let (stored, s) = Strings.set w.draws (arg 1 args) (arg 2 args) y.store in
      if stored
      then (elim (set_deadline w (arg 1 args) o.ex_sec o.px_ms (with_store s y)) [
        | none ↦ none
        | some z ↦ some (confirm w args z)
      ])
      else some (reply_error "type conflict" (with_store s y))

unfoldable pub set_command : World → List Bytes → Session → Option Session
set_command w args x = needs 3 args x (
    writable x (
      if length args == 3
      then some (set_plain w args x)
      else set_with w (set_options (drop 3 args) no_options) args x))

unfoldable pub get_command : World → List Bytes → Session → Option Session
get_command w args x = needs 2 args x (
    let (val, s) = check_expiry_and_get_ptr (arg 1 args) w.now x.store in
    some (elim val [
      | some v ↦ reply_bulk v (record x { store = s; get_hits = (x.get_hits + 1) % 2 ^ 64 })
      | none ↦ reply_null (record x { store = s; get_misses = (x.get_misses + 1) % 2 ^ 64 })
    ]))

-- What `incr` answered; a number that finds no room leaves `result` written and answers false.
abbrev pub answer_incr : World → List Bytes → Option (IncrReply × Store) → Session → Option Session
answer_incr w args none x = none
answer_incr w args (some (incremented n, s)) x =
    some (repl w args (reply_integer n (with_store s x)))
answer_incr w args (some (out_of_memory n, s)) x =
    some (reply_error "ERR value is not an integer or out of range" (with_store s x))
answer_incr w args (some (refused, s)) x =
    some (reply_error "ERR value is not an integer or out of range" (with_store s x))

abbrev pub incr_in : World → ℤ → List Bytes → Session → Option Session
incr_in w delta args x =
    answer_incr w args (Strings.incr w.draws (arg 1 args) delta w.now x.store) x

unfoldable pub incr_command : World → ℤ → List Bytes → Session → Option Session
incr_command w delta args x = needs 2 args x (writable x (incr_in w delta args x))

abbrev pub negate : ℤ → ℤ
negate n = sub_ℕ (neg_part n) (pos_part n)

-- INCRBY, and DECRBY with the negation, which is undefined for the least number.
unfoldable pub incrby_command : World → Bool → List Bytes → Session → Option Session
incrby_command w down args x = needs 3 args x (
    writable x (elim (number int64_half (arg 2 args)) [
      | none ↦ some (reply_error "ERR value is not an integer or out of range" x)
      | some delta ↦
          if not down
          then incr_in w delta args x
          else if in_range int64_half (negate delta)
          then incr_in w (negate delta) args x
          else none
    ]))

unfoldable pub append_command : World → List Bytes → Session → Option Session
append_command w args x = needs 3 args x (
    writable x (elim (Strings.append w.draws (arg 1 args) (arg 2 args) w.now x.store) [
      | none ↦ none
      | some (newlen, s) ↦ some (
          if newlen == npos
          then reply_error "WRONGTYPE" (with_store s x)
          else repl w args (reply_integer (pos newlen) (with_store s x)))
    ]))

unfoldable pub strlen_command : World → List Bytes → Session → Option Session
strlen_command w args x = needs 2 args x (
    let y = live w (arg 1 args) x in some (reply_integer (pos (strlen_key (arg 1 args) y.store)) y))

unfoldable pub getset_command : World → List Bytes → Session → Option Session
getset_command w args x = needs 3 args x (
    writable x (
      let y = live w (arg 1 args) x in
      let had_key = exists (arg 1 args) y.store in
      let (ok, oldval, s) = Strings.getset w.draws (arg 1 args) (arg 2 args) w.later y.store in
      let z = with_store s y in
      some (
        if not ok
        then reply_error "WRONGTYPE" z
        else repl w args (
            if had_key
            then reply_bulk (elim oldval [ none ↦ [] | some old ↦ old ]) z
            else reply_null z))))

unfoldable pub mget_rest : (ℕ → ℤ) → List Bytes → Session → Session
mget_rest times [] x = x
mget_rest times (key ∷ keys) x =
    let (val, s) = get_ptr key (check_expiry key (times 0) x.store) in
    mget_rest (λ n. times (suc n)) keys (reply_ptr val (with_store s x))

unfoldable pub mget_command : World → List Bytes → Session → Option Session
mget_command w args x =
    needs 2 args x
      (some (mget_rest w.now_each (drop 1 args) (reply_header (pos (length args - 1)) x)))

-- The pairs of MSET, with the draws and the time of each; what `set` answers is not looked at.
unfoldable pub mset_rest : (ℕ → Rng) → (ℕ → ℤ) → List Bytes → Session → Session
mset_rest draws times [] x = x
mset_rest draws times (key ∷ []) x = x
mset_rest draws times (key ∷ val ∷ rest) x =
    mset_rest (λ n. draws (suc n)) (λ n. times (suc n)) rest
      (with_store (Strings.set (draws 0) key val (check_expiry key (times 0) x.store)).1 x)

unfoldable pub mset_command : World → List Bytes → Session → Option Session
mset_command w args x = needs 3 args x (
    if (length args - 1) % 2 == 0
    then writable x (some (confirm w args (mset_rest w.draws_each w.now_each (drop 1 args) x)))
    else some (reply_error "wrong number of arguments" x))

unfoldable pub setnx_command : World → List Bytes → Session → Option Session
setnx_command w args x = needs 3 args x (
    writable x (
      let (did_set, s) = Strings.setnx w.draws (arg 1 args) (arg 2 args) w.now x.store in
      let y = with_store s x in
      some (if did_set then reply_integer (pos 1) (repl w args y) else reply_integer (pos 0) y)))
