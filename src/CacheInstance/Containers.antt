-- ===== src/CacheInstance/Containers.antt =====
-- The commands on lists, sets and hashes in `process_resp_command`.
use socketley.Prelude.{
  suc, ℕ, ◌+◌, ◌-◌, ◌*◌, ◌%◌, Bool, true, false, Option, none, some, List, [], ◌∷◌, Bytes, length,
  drop, take, ltb, ◌==◌, if◌then◌else◌,
}
use socketley.Prelude.Int.{ℤ, pos, pos_part, ◌+ℤ◌, ◌-ℤ◌, ltb_ℤ, leb_ℤ}
use socketley.Prelude.Words.{to_int}
use socketley.Cache.State.{Store, SetInner, HashInner}
use socketley.Cache.Eviction.{Rng}
use socketley.Cache.Lists.{lpush, rpush, lpop, rpop, llen, list_ptr, lindex}
use socketley.Cache.Sets.{sadd, srem, sismember, scard, set_ptr}
use socketley.Cache.Hashes.{hset, hget, hdel, hlen, hash_ptr}
use socketley.CacheInstance.Session.{
  Session, World, arg, reply_null, reply_error, reply_integer, reply_bulk, reply_bulks,
  reply_header, reply_ptr, needs, writable, with_store, live, number, int_half, repl,
}

-- The loop of LPUSH or RPUSH over the elements, with the draws of each: it ends at the first that finds no place, and tells
-- whether all were pushed.
unfoldable pub push_all :
    (Rng → Bytes → Store → Option (Bool × Store))
    → (ℕ → Rng)
    → List Bytes
    → Store
    → Option (Bool × Store)
push_all push draws [] s = some (true, s)
push_all push draws (val ∷ vals) s = elim (push (draws 0) val s) [
  | none ↦ none
  | some (ok, t) ↦ elim ok [
    | true ↦ push_all push (λ n. draws (suc n)) vals t
    | false ↦ some (false, t)
  ]
]

unfoldable pub push_command :
    (Rng → Bytes → Bytes → Store → Option (Bool × Store))
    → World
    → List Bytes
    → Session
    → Option Session
push_command push w args x = needs 3 args x (
    writable x (
      let y = live w (arg 1 args) x in
      elim (push_all (λ r. push r (arg 1 args)) w.draws_each (drop 2 args) y.store) [
        | none ↦ none
        | some (ok, s) ↦ some (
            if ok
            then repl w args (reply_integer (llen (arg 1 args) s) (with_store s y))
            else reply_error "type conflict" (with_store s y))
      ]))

unfoldable pub lpush_command : World → List Bytes → Session → Option Session
lpush_command = push_command lpush

unfoldable pub rpush_command : World → List Bytes → Session → Option Session
rpush_command = push_command rpush

unfoldable pub pop_command :
    (Bytes → Store → Option Bytes × Store) → World → List Bytes → Session → Option Session
pop_command pop w args x = needs 2 args x (
    writable x (
      let y = live w (arg 1 args) x in
      let (val, s) = pop (arg 1 args) y.store in
      some (elim val [
        | some v ↦ repl w args (reply_bulk v (with_store s y))
        | none ↦ reply_null (with_store s y)
      ])))

unfoldable pub lpop_command : World → List Bytes → Session → Option Session
lpop_command = pop_command lpop

unfoldable pub rpop_command : World → List Bytes → Session → Option Session
rpop_command = pop_command rpop

-- A read that answers with a number.
unfoldable pub count_command : (Bytes → Store → ℤ) → World → List Bytes → Session → Option Session
count_command count w args x =
    needs 2 args x
      (let y = live w (arg 1 args) x in some (reply_integer (count (arg 1 args) y.store) y))

unfoldable pub llen_command : World → List Bytes → Session → Option Session
llen_command = count_command llen

-- An end of a range, counted from the end of the list where it is negative.
abbrev pub from_end : ℤ → ℤ → ℤ
from_end len i = if ltb_ℤ i (pos 0) then i +ℤ len else i

-- The elements from `start` to `stop`, both clamped to the list.
unfoldable pub range : ℤ → ℤ → List Bytes → List Bytes
range start stop deq =
    let len = to_int (pos (length deq)) in
    let first = pos_part (from_end len start) in
    let last = if leb_ℤ len (from_end len stop) then len -ℤ pos 1 else from_end len stop in
    if ltb_ℤ last (pos first) then [] else take (pos_part last - first + 1) (drop first deq)

unfoldable pub lrange_command : World → List Bytes → Session → Option Session
lrange_command w args x = needs 4 args x (
    let y = live w (arg 1 args) x in
    elim (number int_half (arg 2 args)) [
      | none ↦ some (reply_error "ERR value is not an integer or out of range" y)
      | some start ↦ elim (number int_half (arg 3 args)) [
        | none ↦ some (reply_error "ERR value is not an integer or out of range" y)
        | some stop ↦ some (elim (list_ptr (arg 1 args) y.store) [
          | none ↦ reply_header (pos 0) y
          | some deq ↦
              let out = range start stop deq in reply_bulks out (reply_header (pos (length out)) y)
        ])
      ]
    ])

unfoldable pub lindex_command : World → List Bytes → Session → Option Session
lindex_command w args x = needs 3 args x (
    let y = live w (arg 1 args) x in
    some (elim (number int_half (arg 2 args)) [
      | none ↦ reply_error "ERR value is not an integer or out of range" y
      | some idx ↦ reply_ptr (lindex (arg 1 args) idx y.store) y
    ]))

-- The loop of SADD: the sum of the answers, or none behind a refusal.
unfoldable pub add_all : (ℕ → Rng) → Bytes → List Bytes → ℤ → Store → Option (Option ℤ × Store)
add_all draws key [] added s = some (some added, s)
add_all draws key (member ∷ members) added s = elim (sadd (draws 0) key member s) [
  | none ↦ none
  | some (r, t) ↦ elim (ltb_ℤ r (pos 0)) [
    | true ↦ some (none, t)
    | false ↦ add_all (λ n. draws (suc n)) key members (added +ℤ r) t
  ]
]

-- Where something has changed the command is replicated.
abbrev pub repl_if : Bool → World → List Bytes → Session → Session
repl_if changed w args x = if changed then repl w args x else x

unfoldable pub sadd_command : World → List Bytes → Session → Option Session
sadd_command w args x = needs 3 args x (
    writable x (
      let y = live w (arg 1 args) x in
      elim (add_all w.draws_each (arg 1 args) (drop 2 args) (pos 0) y.store) [
        | none ↦ none
        | some (answer, s) ↦ some (elim answer [
          | none ↦ reply_error "type conflict" (with_store s y)
          | some added ↦ reply_integer added (repl_if (ltb_ℤ (pos 0) added) w args (with_store s y))
        ])
      ]))

-- The loop of SREM or HDEL.
unfoldable pub remove_all : (Bytes → Store → Bool × Store) → List Bytes → ℕ → Store → ℕ × Store
remove_all rem [] removed s = (removed, s)
remove_all rem (m ∷ ms) removed s =
    let (ok, t) = rem m s in remove_all rem ms (if ok then removed + 1 else removed) t

unfoldable pub remove_command :
    (Bytes → Bytes → Store → Bool × Store) → World → List Bytes → Session → Option Session
remove_command rem w args x = needs 3 args x (
    writable x (
      let y = live w (arg 1 args) x in
      let (removed, s) = remove_all (rem (arg 1 args)) (drop 2 args) 0 y.store in
      some (reply_integer (pos removed) (repl_if (ltb 0 removed) w args (with_store s y)))))

unfoldable pub srem_command : World → List Bytes → Session → Option Session
srem_command = remove_command srem

unfoldable pub sismember_command : World → List Bytes → Session → Option Session
sismember_command w args x = needs 3 args x (
    let y = live w (arg 1 args) x in
    some (reply_integer (if sismember (arg 1 args) (arg 2 args) y.store then pos 1 else pos 0) y))

unfoldable pub scard_command : World → List Bytes → Session → Option Session
scard_command = count_command scard

-- The members of a set, and the fields and values of a hash, in the order of the map.
unfoldable pub members : SetInner → List Bytes
members [] = []
members ((m, v) ∷ s) = m ∷ members s

unfoldable pub fields : HashInner → List Bytes
fields [] = []
fields ((f, v) ∷ h) = f ∷ v ∷ fields h

unfoldable pub smembers_command : World → List Bytes → Session → Option Session
smembers_command w args x = needs 2 args x (
    let y = live w (arg 1 args) x in
    some (elim (set_ptr (arg 1 args) y.store) [
      | none ↦ reply_header (pos 0) y
      | some s ↦ reply_bulks (members s) (reply_header (to_int (pos (length s))) y)
    ]))

-- The loop of HSET over fields and values.
unfoldable pub hset_all : (ℕ → Rng) → Bytes → List Bytes → ℕ → Store → Option (Option ℕ × Store)
hset_all draws key [] added s = some (some added, s)
hset_all draws key (f ∷ []) added s = some (some added, s)
hset_all draws key (f ∷ v ∷ rest) added s = elim (hset (draws 0) key f v s) [
  | none ↦ none
  | some (ok, t) ↦ elim ok [
    | false ↦ some (none, t)
    | true ↦ hset_all (λ n. draws (suc n)) key rest (added + 1) t
  ]
]

unfoldable pub hset_command : World → List Bytes → Session → Option Session
hset_command w args x = needs 4 args x (
    if (length args - 2) % 2 == 0
    then writable x (
        let y = live w (arg 1 args) x in
        elim (hset_all w.draws_each (arg 1 args) (drop 2 args) 0 y.store) [
          | none ↦ none
          | some (answer, s) ↦ some (elim answer [
            | none ↦ reply_error "type conflict" (with_store s y)
            | some added ↦ reply_integer (pos added) (repl w args (with_store s y))
          ])
        ])
    else some (reply_error "wrong number of arguments" x))

unfoldable pub hget_command : World → List Bytes → Session → Option Session
hget_command w args x =
    needs 3 args x
      (let y = live w (arg 1 args) x in some (reply_ptr (hget (arg 1 args) (arg 2 args) y.store) y))

unfoldable pub hdel_command : World → List Bytes → Session → Option Session
hdel_command = remove_command hdel

unfoldable pub hlen_command : World → List Bytes → Session → Option Session
hlen_command = count_command hlen

unfoldable pub hgetall_command : World → List Bytes → Session → Option Session
hgetall_command w args x = needs 2 args x (
    let y = live w (arg 1 args) x in
    some (elim (hash_ptr (arg 1 args) y.store) [
      | none ↦ reply_header (pos 0) y
      | some h ↦ reply_bulks (fields h) (reply_header (to_int (pos (length h * 2))) y)
    ]))
