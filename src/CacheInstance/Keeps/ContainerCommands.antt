-- ===== src/CacheInstance/Keeps/ContainerCommands.antt =====
-- The commands on lists, sets and hashes.
use socketley.Prelude.{
  suc, ℕ, ◌+◌, ◌*◌, ◌≡◌, refl, arith, inl, inr, Bool, false, Option, some, List, [], ◌∷◌, Bytes,
  length, drop, Bool-cases, Option-cases,
}
use socketley.Prelude.Int.{ℤ, pos, ◌+ℤ◌, ltb_ℤ}
use socketley.Prelude.Words.{to_int}
use socketley.Cache.State.{Store}
use socketley.Cache.Lists.{lpush, rpush, lpop, rpop, list_ptr}
use socketley.Cache.Sets.{sadd, srem, set_ptr}
use socketley.Cache.Hashes.{hset, hdel, hash_ptr}
use socketley.Cache.Eviction.{Rng}
use socketley.CacheInstance.Session.{
  CacheMode, is_readonly, Session, World, arg, live, repl, replicate_command, reply_bulk,
  reply_bulks, reply_header, number, int_half,
}
use socketley.CacheInstance.Containers.{
  push_all, push_command, lpush_command, rpush_command, pop_command, lpop_command, rpop_command,
  count_command, range, lrange_command, lindex_command, add_all, sadd_command, remove_all,
  remove_command, srem_command, sismember_command, members, fields, smembers_command, hset_all,
  hset_command, hget_command, hdel_command, hgetall_command,
}
use socketley.CacheInstance.Keeps.{
  IsKept, Good, keeps-live, keeps-lpush, keeps-rpush, keeps-lpop, keeps-rpop, keeps-sadd,
  keeps-srem, keeps-hset, keeps-hdel,
}
use socketley.CacheInstance.Keeps.StringCommands.{live-Good}

pub reply_bulks-Good :
    (mode : CacheMode) (P : Store → Type 0) (bs : List Bytes) (x : Session)
    → Good mode P x
    → Good mode P (reply_bulks bs x)
unfolding reply_bulks
reply_bulks-Good mode P [] x g = g
reply_bulks-Good mode P (b ∷ bs) x g = reply_bulks-Good mode P bs (reply_bulk b x) g

module _ {mode : CacheMode} {P : Store → Type 0} (kept : IsKept mode P) (w : World) where
  push_all-keeps :
      (push : Rng → Bytes → Store → Option (Bool × Store))
      → ((r : Rng) (val : Bytes) (s t : Store) (ok : Bool)
          → P s
          → push r val s ≡ some (ok, t)
          → P t)
      → (draws : ℕ → Rng) (vals : List Bytes) (s t : Store) (ok : Bool) → P s
      → push_all push draws vals s ≡ some (ok, t)
      → P t
  unfolding push_all
  push_all-keeps push one draws [] s t ok p run = ground arith
  push_all-keeps push one draws (val ∷ vals) s t ok p run =
      elim (Option-cases (push (draws 0) val s)) [
        | inl bad ↦ ground arith
        | inr ((good, u), e) ↦
            let q = one (draws 0) val s u good p e in
            ground (arith, push_all-keeps push one (λ n. draws (suc n)) vals u t ok q)
      ]

  push_command-Good :
      (push : Rng → Bytes → Bytes → Store → Option (Bool × Store))
      → (is_readonly mode ≡ false
          → (r : Rng) (key val : Bytes) (s t : Store) (ok : Bool) → P s
          → push r key val s ≡ some (ok, t)
          → P t)
      → (args : List Bytes) (x y : Session) → Good mode P x
      → push_command push w args x ≡ some y
      → Good mode P y
  unfolding push_command repl replicate_command live
  push_command-Good push one args x y (m, p) run = elim (Bool-cases (is_readonly mode)) [
    | inl off ↦ ground arith
    | inr writes ↦
        let q = keeps-live kept x.store p (arg 1 args) w.now in
        elim (Option-cases (
          push_all (λ r. push r (arg 1 args)) w.draws_each (drop 2 args)
            (live w (arg 1 args) x).store)) [
              | inl bad ↦ ground arith
              | inr ((ok, t), e) ↦ ground (
                arith,
                push_all-keeps (λ r. push r (arg 1 args)) (λ r. one writes r (arg 1 args))
                    w.draws_each (drop 2 args) _ t ok q e,
              )
            ]
  ]

  pub lpush_command-Good :
      (args : List Bytes) (x y : Session)
      → Good mode P x
      → lpush_command w args x ≡ some y
      → Good mode P y
  unfolding lpush_command
  lpush_command-Good =
      push_command-Good lpush
        (λ writes r key val s t ok p e. keeps-lpush kept writes r w.now s t p key val ok e)

  pub rpush_command-Good :
      (args : List Bytes) (x y : Session)
      → Good mode P x
      → rpush_command w args x ≡ some y
      → Good mode P y
  unfolding rpush_command
  rpush_command-Good =
      push_command-Good rpush
        (λ writes r key val s t ok p e. keeps-rpush kept writes r w.now s t p key val ok e)

  pop_command-Good :
      (pop : Bytes → Store → Option Bytes × Store)
      → (is_readonly mode ≡ false → (key : Bytes) (s : Store) → P s → P (pop key s).1)
      → (args : List Bytes) (x y : Session) → Good mode P x
      → pop_command pop w args x ≡ some y
      → Good mode P y
  unfolding pop_command repl replicate_command live
  pop_command-Good pop one args x y (m, p) run = elim (Bool-cases (is_readonly mode)) [
    | inl off ↦ ground arith
    | inr writes ↦
        let q = keeps-live kept x.store p (arg 1 args) w.now in
        ground (arith, one writes (arg 1 args) _ q)
  ]

  pub lpop_command-Good :
      (args : List Bytes) (x y : Session)
      → Good mode P x
      → lpop_command w args x ≡ some y
      → Good mode P y
  unfolding lpop_command
  lpop_command-Good =
      pop_command-Good lpop (λ writes key s p. keeps-lpop kept writes w.draws w.now s _ p key refl)

  pub rpop_command-Good :
      (args : List Bytes) (x y : Session)
      → Good mode P x
      → rpop_command w args x ≡ some y
      → Good mode P y
  unfolding rpop_command
  rpop_command-Good =
      pop_command-Good rpop (λ writes key s p. keeps-rpop kept writes w.draws w.now s _ p key refl)

  pub count_command-Good :
      (count : Bytes → Store → ℤ) (args : List Bytes) (x y : Session)
      → Good mode P x
      → count_command count w args x ≡ some y
      → Good mode P y
  unfolding count_command
  count_command-Good count args x y g run = ground (arith, live-Good kept w (arg 1 args) x g)

  pub lrange_command-Good :
      (args : List Bytes) (x y : Session)
      → Good mode P x
      → lrange_command w args x ≡ some y
      → Good mode P y
  unfolding lrange_command
  lrange_command-Good args x y g run =
      let k : Session = live w (arg 1 args) x in
      let g' = live-Good kept w (arg 1 args) x g in
      elim (Option-cases (number int_half (arg 2 args))) [
        | inl bad ↦ ground arith
        | inr (start, e) ↦ elim (Option-cases (number int_half (arg 3 args))) [
          | inl bad ↦ ground arith
          | inr (stop, e') ↦ elim (Option-cases (list_ptr (arg 1 args) k.store)) [
            | inl nothing ↦ ground arith
            | inr (deq, there) ↦
                let out = range start stop deq in
                ground (arith, reply_bulks-Good mode P out (reply_header (pos (length out)) k) g')
          ]
        ]
      ]

  pub lindex_command-Good :
      (args : List Bytes) (x y : Session)
      → Good mode P x
      → lindex_command w args x ≡ some y
      → Good mode P y
  unfolding lindex_command
  lindex_command-Good args x y g run = ground (arith, live-Good kept w (arg 1 args) x g)

  add_all-keeps :
      is_readonly mode ≡ false
      → (draws : ℕ → Rng) (key : Bytes) (members : List Bytes) (added : ℤ) (s t : Store)
        (answer : Option ℤ)
      → P s
      → add_all draws key members added s ≡ some (answer, t)
      → P t
  unfolding add_all
  add_all-keeps writes draws key [] added s t answer p run = ground arith
  add_all-keeps writes draws key (m ∷ members) added s t answer p run =
      elim (Option-cases (sadd (draws 0) key m s)) [
        | inl bad ↦ ground arith
        | inr ((r, u), e) ↦
            let q = keeps-sadd kept writes (draws 0) w.now s u p key m r e in
            elim (Bool-cases (ltb_ℤ r (pos 0))) [
              | inl refused ↦ ground arith
              | inr fine ↦ ground (
                arith,
                add_all-keeps writes (λ n. draws (suc n)) key members (added +ℤ r) u t answer q,
              )
            ]
      ]

  pub sadd_command-Good :
      (args : List Bytes) (x y : Session)
      → Good mode P x
      → sadd_command w args x ≡ some y
      → Good mode P y
  unfolding sadd_command repl replicate_command live
  sadd_command-Good args x y (m, p) run = elim (Bool-cases (is_readonly mode)) [
    | inl off ↦ ground arith
    | inr writes ↦
        let q = keeps-live kept x.store p (arg 1 args) w.now in
        elim (Option-cases
          (add_all w.draws_each (arg 1 args) (drop 2 args) (pos 0) (live w (arg 1 args) x).store)) [
            | inl bad ↦ ground arith
            | inr ((answer, t), e) ↦ ground (
              arith,
              add_all-keeps writes w.draws_each (arg 1 args) (drop 2 args) (pos 0) _ t answer q e,
            )
          ]
  ]

  remove_all-keeps :
      (rem : Bytes → Store → Bool × Store)
      → ((m : Bytes) (s : Store) → P s → P (rem m s).1)
      → (ms : List Bytes) (removed : ℕ) (s : Store) → P s
      → P (remove_all rem ms removed s).1
  unfolding remove_all
  remove_all-keeps rem one [] removed s p = p
  remove_all-keeps rem one (m ∷ ms) removed s p = remove_all-keeps rem one ms _ _ (one m s p)

  remove_command-Good :
      (rem : Bytes → Bytes → Store → Bool × Store)
      → (is_readonly mode ≡ false → (key m : Bytes) (s : Store) → P s → P (rem key m s).1)
      → (args : List Bytes) (x y : Session) → Good mode P x
      → remove_command rem w args x ≡ some y
      → Good mode P y
  unfolding remove_command repl replicate_command live
  remove_command-Good rem one args x y (m, p) run = elim (Bool-cases (is_readonly mode)) [
    | inl off ↦ ground arith
    | inr writes ↦
        let q = keeps-live kept x.store p (arg 1 args) w.now in
        ground
          (arith, remove_all-keeps (rem (arg 1 args)) (one writes (arg 1 args)) (drop 2 args) 0 _ q)
  ]

  pub srem_command-Good :
      (args : List Bytes) (x y : Session)
      → Good mode P x
      → srem_command w args x ≡ some y
      → Good mode P y
  unfolding srem_command
  srem_command-Good =
      remove_command-Good srem
        (λ writes key m s p. keeps-srem kept writes w.draws w.now s _ p key m refl)

  pub hdel_command-Good :
      (args : List Bytes) (x y : Session)
      → Good mode P x
      → hdel_command w args x ≡ some y
      → Good mode P y
  unfolding hdel_command
  hdel_command-Good =
      remove_command-Good hdel
        (λ writes key m s p. keeps-hdel kept writes w.draws w.now s _ p key m refl)

  pub sismember_command-Good :
      (args : List Bytes) (x y : Session)
      → Good mode P x
      → sismember_command w args x ≡ some y
      → Good mode P y
  unfolding sismember_command
  sismember_command-Good args x y g run = ground (arith, live-Good kept w (arg 1 args) x g)

  pub smembers_command-Good :
      (args : List Bytes) (x y : Session)
      → Good mode P x
      → smembers_command w args x ≡ some y
      → Good mode P y
  unfolding smembers_command
  smembers_command-Good args x y g run =
      let k : Session = live w (arg 1 args) x in
      let g' = live-Good kept w (arg 1 args) x g in
      elim (Option-cases (set_ptr (arg 1 args) k.store)) [
        | inl nothing ↦ ground arith
        | inr (s, there) ↦ ground (
          arith,
          reply_bulks-Good mode P (members s) (reply_header (to_int (pos (length s))) k) g',
        )
      ]

  hset_all-keeps :
      is_readonly mode ≡ false
      → (draws : ℕ → Rng) (key : Bytes) (rest : List Bytes) (added : ℕ) (s t : Store)
        (answer : Option ℕ)
      → P s
      → hset_all draws key rest added s ≡ some (answer, t)
      → P t
  unfolding hset_all
  hset_all-keeps writes draws key [] added s t answer p run = ground arith
  hset_all-keeps writes draws key (f ∷ []) added s t answer p run = ground arith
  hset_all-keeps writes draws key (f ∷ v ∷ rest) added s t answer p run =
      elim (Option-cases (hset (draws 0) key f v s)) [
        | inl bad ↦ ground arith
        | inr ((ok, u), e) ↦
            let q = keeps-hset kept writes (draws 0) w.now s u p key f v ok e in
            elim (Bool-cases ok) [
              | inl good ↦ ground (
                arith,
                hset_all-keeps writes (λ n. draws (suc n)) key rest (added + 1) u t answer q,
              )
              | inr bad ↦ ground arith
            ]
      ]

  pub hset_command-Good :
      (args : List Bytes) (x y : Session)
      → Good mode P x
      → hset_command w args x ≡ some y
      → Good mode P y
  unfolding hset_command repl replicate_command live
  hset_command-Good args x y (m, p) run = elim (Bool-cases (is_readonly mode)) [
    | inl off ↦ ground arith
    | inr writes ↦
        let q = keeps-live kept x.store p (arg 1 args) w.now in
        elim (Option-cases
          (hset_all w.draws_each (arg 1 args) (drop 2 args) 0 (live w (arg 1 args) x).store)) [
            | inl bad ↦ ground arith
            | inr ((answer, t), e) ↦ ground (
              arith,
              hset_all-keeps writes w.draws_each (arg 1 args) (drop 2 args) 0 _ t answer q e,
            )
          ]
  ]

  pub hget_command-Good :
      (args : List Bytes) (x y : Session)
      → Good mode P x
      → hget_command w args x ≡ some y
      → Good mode P y
  unfolding hget_command
  hget_command-Good args x y g run = ground (arith, live-Good kept w (arg 1 args) x g)

  pub hgetall_command-Good :
      (args : List Bytes) (x y : Session)
      → Good mode P x
      → hgetall_command w args x ≡ some y
      → Good mode P y
  unfolding hgetall_command
  hgetall_command-Good args x y g run =
      let k : Session = live w (arg 1 args) x in
      let g' = live-Good kept w (arg 1 args) x g in
      elim (Option-cases (hash_ptr (arg 1 args) k.store)) [
        | inl nothing ↦ ground arith
        | inr (h, there) ↦ ground (
          arith,
          reply_bulks-Good mode P (fields h) (reply_header (to_int (pos (length h * 2))) k) g',
        )
      ]
