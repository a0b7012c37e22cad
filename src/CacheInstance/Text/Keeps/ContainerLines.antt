-- ===== src/CacheInstance/Text/Keeps/ContainerLines.antt =====
-- The commands on lists, sets and hashes.
use socketley.Prelude.{
  ◌≡◌, arith, inl, inr, Bool, false, Option, some, List, [], ◌∷◌, Bytes, Bool-cases, Option-cases,
}
use Prim.Native.String.{String}
use socketley.Prelude.Int.{ℤ}
use socketley.Cache.State.{Store}
use socketley.Cache.Lists.{list_ptr}
use socketley.Cache.Sets.{sadd, set_ptr}
use socketley.Cache.Hashes.{hset, hash_ptr}
use socketley.CacheInstance.Session.{
  CacheMode, is_readonly, Session, World, live, replicate_command,
}
use socketley.CacheInstance.Containers.{range, members}
use socketley.CacheInstance.Text.{say_bytes, say_lines, key_of, args_behind, parse_int_sv}
use socketley.CacheInstance.Keeps.{IsKept, Good, keeps-live, keeps-sadd, keeps-hset}
use socketley.CacheInstance.Keeps.StringCommands.{live-Good}
use socketley.CacheInstance.Text.Containers.{
  text_push, text_pop, text_count, text_lindex, text_lrange, text_sadd, text_remove, text_sismember,
  text_smembers, text_hset, text_hget, field_lines, text_hgetall,
}

pub say_lines-Good :
    (mode : CacheMode) (P : Store → Type 0) (ls : List Bytes) (x : Session)
    → Good mode P x
    → Good mode P (say_lines ls x)
unfolding say_lines
say_lines-Good mode P [] x g = g
say_lines-Good mode P (l ∷ ls) x g = say_lines-Good mode P ls (say_bytes l x) g

module _ {mode : CacheMode} {P : Store → Type 0} (kept : IsKept mode P) (w : World) where
  pub text_push-Good :
      (push : Bytes → Bytes → Store → Option (Bool × Store))
      → (is_readonly mode ≡ false
          → (key val : Bytes) (s t : Store) (ok : Bool) → P s
          → push key val s ≡ some (ok, t)
          → P t)
      → (usage : String) (line args : Bytes) (x y : Session) → Good mode P x
      → text_push push usage w line args x ≡ some y
      → Good mode P y
  unfolding text_push live replicate_command
  text_push-Good push one usage line args x y (m, p) run = elim (Bool-cases (is_readonly mode)) [
    | inl off ↦ ground arith
    | inr writes ↦
        let q = keeps-live kept x.store p (key_of args) w.now in
        elim (Option-cases (push (key_of args) (args_behind args) (live w (key_of args) x).store)) [
          | inl bad ↦ ground arith
          | inr ((ok, t), e) ↦
              ground (arith, one writes (key_of args) (args_behind args) _ t ok q e)
        ]
  ]

  pub text_pop-Good :
      (pop : Bytes → Store → Option Bytes × Store)
      → (is_readonly mode ≡ false → (key : Bytes) (s : Store) → P s → P (pop key s).1)
      → (args : Bytes) (x y : Session) → Good mode P x
      → text_pop pop w args x ≡ some y
      → Good mode P y
  unfolding text_pop live
  text_pop-Good pop one args x y (m, p) run = elim (Bool-cases (is_readonly mode)) [
    | inl off ↦ ground arith
    | inr writes ↦
        let q = keeps-live kept x.store p args w.now in ground (arith, one writes args _ q)
  ]

  pub text_count-Good :
      (count : Bytes → Store → ℤ) (args : Bytes) (x y : Session)
      → Good mode P x
      → text_count count w args x ≡ some y
      → Good mode P y
  unfolding text_count
  text_count-Good count args x y g run = ground (arith, live-Good kept w args x g)

  pub text_lindex-Good :
      (args : Bytes) (x y : Session) → Good mode P x → text_lindex w args x ≡ some y → Good mode P y
  unfolding text_lindex
  text_lindex-Good args x y g run = ground (arith, live-Good kept w (key_of args) x g)

  pub text_lrange-Good :
      (args : Bytes) (x y : Session) → Good mode P x → text_lrange w args x ≡ some y → Good mode P y
  unfolding text_lrange
  text_lrange-Good args x y g run =
      let k : Session = live w (key_of args) x in
      let g' = live-Good kept w (key_of args) x g in
      elim (Option-cases (parse_int_sv (key_of (args_behind args)))) [
        | inl bad ↦ ground arith
        | inr (start, e) ↦ elim (Option-cases (parse_int_sv (args_behind (args_behind args)))) [
          | inl bad ↦ ground arith
          | inr (stop, e') ↦ elim (Option-cases (list_ptr (key_of args) k.store)) [
            | inl nothing ↦ ground arith
            | inr (deq, there) ↦ ground (arith, say_lines-Good mode P (range start stop deq) k g')
          ]
        ]
      ]

  pub text_sadd-Good :
      (line args : Bytes) (x y : Session)
      → Good mode P x
      → text_sadd w line args x ≡ some y
      → Good mode P y
  unfolding text_sadd live replicate_command
  text_sadd-Good line args x y (m, p) run = elim (Bool-cases (is_readonly mode)) [
    | inl off ↦ ground arith
    | inr writes ↦
        let q = keeps-live kept x.store p (key_of args) w.now in
        elim (Option-cases
          (sadd w.draws (key_of args) (args_behind args) (live w (key_of args) x).store)) [
            | inl bad ↦ ground arith
            | inr ((n, t), e) ↦ ground (
              arith,
              keeps-sadd kept writes w.draws w.now _ t q (key_of args) (args_behind args) n e,
            )
          ]
  ]

  pub text_remove-Good :
      (rem : Bytes → Bytes → Store → Bool × Store)
      → (is_readonly mode ≡ false → (key m : Bytes) (s : Store) → P s → P (rem key m s).1)
      → (usage : String) (args : Bytes) (x y : Session) → Good mode P x
      → text_remove rem usage w args x ≡ some y
      → Good mode P y
  unfolding text_remove live
  text_remove-Good rem one usage args x y (m, p) run = elim (Bool-cases (is_readonly mode)) [
    | inl off ↦ ground arith
    | inr writes ↦
        let q = keeps-live kept x.store p (key_of args) w.now in
        ground (arith, one writes (key_of args) (args_behind args) _ q)
  ]

  pub text_sismember-Good :
      (args : Bytes) (x y : Session)
      → Good mode P x
      → text_sismember w args x ≡ some y
      → Good mode P y
  unfolding text_sismember
  text_sismember-Good args x y g run = ground (arith, live-Good kept w (key_of args) x g)

  pub text_smembers-Good :
      (args : Bytes) (x y : Session)
      → Good mode P x
      → text_smembers w args x ≡ some y
      → Good mode P y
  unfolding text_smembers
  text_smembers-Good args x y g run =
      let k : Session = live w args x in
      let g' = live-Good kept w args x g in
      elim (Option-cases (set_ptr args k.store)) [
        | inl nothing ↦ ground arith
        | inr (s, there) ↦ ground (arith, say_lines-Good mode P (members s) k g')
      ]

  pub text_hset-Good :
      (line args : Bytes) (x y : Session)
      → Good mode P x
      → text_hset w line args x ≡ some y
      → Good mode P y
  unfolding text_hset live replicate_command
  text_hset-Good line args x y (m, p) run = elim (Bool-cases (is_readonly mode)) [
    | inl off ↦ ground arith
    | inr writes ↦
        let q = keeps-live kept x.store p (key_of args) w.now in
        let rest = args_behind args in
        elim (Option-cases (
          hset w.draws (key_of args) (key_of rest) (args_behind rest)
            (live w (key_of args) x).store)) [
              | inl bad ↦ ground arith
              | inr ((ok, t), e) ↦ ground (
                arith,
                keeps-hset kept writes w.draws w.now _ t q (key_of args) (key_of rest)
                    (args_behind rest) ok e,
              )
            ]
  ]

  pub text_hget-Good :
      (args : Bytes) (x y : Session) → Good mode P x → text_hget w args x ≡ some y → Good mode P y
  unfolding text_hget
  text_hget-Good args x y g run = ground (arith, live-Good kept w (key_of args) x g)

  pub text_hgetall-Good :
      (args : Bytes) (x y : Session)
      → Good mode P x
      → text_hgetall w args x ≡ some y
      → Good mode P y
  unfolding text_hgetall
  text_hgetall-Good args x y g run =
      let k : Session = live w args x in
      let g' = live-Good kept w args x g in
      elim (Option-cases (hash_ptr args k.store)) [
        | inl nothing ↦ ground arith
        | inr (h, there) ↦ ground (arith, say_lines-Good mode P (field_lines h) k g')
      ]
