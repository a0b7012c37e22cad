-- ===== src/CacheInstance/Keeps/StringCommands.antt =====
-- The commands on strings.
use socketley.Prelude.{
  suc, ℕ, ◌-◌, ◌≡◌, refl, arith, inl, inr, Bool, false, some, List, [], ◌∷◌, Bytes, length, drop,
  Bool-cases, Option-cases,
}
use socketley.Prelude.Int.{ℤ, pos}
use socketley.Cache.State.{Store}
use socketley.Cache.Expiry.{set_expiry, set_expiry_ms}
use socketley.Cache.Strings
use socketley.Cache.Strings.{IncrReply}
use socketley.Cache.Eviction.{Rng}
use socketley.CacheInstance.Session.{
  CacheMode, is_readonly, Session, World, arg, live, repl, replicate_command, number, int64_half,
  reply_header,
}
use socketley.CacheInstance.Strings.{
  SetOptions, set_options, no_options, set_deadline, set_plain, set_with, set_command, get_command,
  incr_command, incr_in, incrby_command, negate, append_command, strlen_command, getset_command,
  mget_rest, mget_command, mset_rest, mset_command, setnx_command,
}
use socketley.CacheInstance.Keeps.{
  IsKept, Good, keeps-live, keeps-get_ptr, keeps-get_live, keeps-set, keeps-setnx, keeps-getset,
  keeps-incr, keeps-append, keeps-set_expiry, keeps-set_expiry_ms,
}

module _ {mode : CacheMode} {P : Store → Type 0} (kept : IsKept mode P) (w : World) where
  pub live-Good : (key : Bytes) (x : Session) → Good mode P x → Good mode P (live w key x)
  unfolding live
  live-Good key x (m, p) = (m, keeps-live kept x.store p key w.now)

  set_deadline-Good :
      (key : Bytes) (sec ms : ℤ) (x y : Session)
      → is_readonly mode ≡ false
      → Good mode P x
      → set_deadline w key sec ms x ≡ some y
      → Good mode P y
  unfolding set_deadline
  set_deadline-Good key sec ms x y writes (m, p) run =
      elim (Option-cases (set_expiry key sec w.later x.store)) [
        | inl bad ↦ elim (Option-cases (set_expiry_ms key ms w.later x.store)) [
          | inl worse ↦ ground arith
          | inr ((ok, t), e) ↦
              ground
                (arith, keeps-set_expiry_ms kept writes w.draws w.later x.store t p key ms ok e)
        ]
        | inr ((ok, t), e) ↦ elim (Option-cases (set_expiry_ms key ms w.later x.store)) [
          | inl worse ↦
              ground (arith, keeps-set_expiry kept writes w.draws w.later x.store t p key sec ok e)
          | inr ((ok', t'), e') ↦ ground (
            arith,
            keeps-set_expiry kept writes w.draws w.later x.store t p key sec ok e,
            keeps-set_expiry_ms kept writes w.draws w.later x.store t' p key ms ok' e',
          )
        ]
      ]

  set_plain-Good :
      (args : List Bytes) (x : Session)
      → is_readonly mode ≡ false
      → Good mode P x
      → Good mode P (set_plain w args x)
  unfolding set_plain live repl replicate_command
  set_plain-Good args x writes (m, p) =
      let q = keeps-live kept x.store p (arg 1 args) w.now in
      ground (arith, keeps-set kept writes w.draws w.now _ _ q (arg 1 args) (arg 2 args) refl)

  set_with-Good :
      (o : SetOptions) (args : List Bytes) (x y : Session)
      → is_readonly mode ≡ false
      → Good mode P x
      → set_with w o args x ≡ some y
      → Good mode P y
  unfolding set_with live repl replicate_command
  set_with-Good o args x y writes (m, p) run =
      let q = keeps-live kept x.store p (arg 1 args) w.now in
      let z : Session = record (live w (arg 1 args) x) {
        store = (Strings.set w.draws (arg 1 args) (arg 2 args) (live w (arg 1 args) x).store).1;
      } in
      let pz = keeps-set kept writes w.draws w.now _ _ q (arg 1 args) (arg 2 args) refl in
      elim (Option-cases (set_deadline w (arg 1 args) o.ex_sec o.px_ms z)) [
        | inl bad ↦ ground arith
        | inr (u, e) ↦
            ground (arith, set_deadline-Good (arg 1 args) o.ex_sec o.px_ms z u writes (m, pz) e)
      ]

  pub set_command-Good :
      (args : List Bytes) (x y : Session)
      → Good mode P x
      → set_command w args x ≡ some y
      → Good mode P y
  unfolding set_command
  set_command-Good args x y (m, p) run = elim (Bool-cases (is_readonly mode)) [
    | inl off ↦ ground arith
    | inr writes ↦ ground (
      arith,
      set_plain-Good args x writes (m, p),
      set_with-Good (set_options (drop 3 args) no_options) args x y writes (m, p),
    )
  ]

  pub get_command-Good :
      (args : List Bytes) (x y : Session)
      → Good mode P x
      → get_command w args x ≡ some y
      → Good mode P y
  unfolding get_command
  get_command-Good args x y (m, p) run =
      ground (arith, keeps-get_live kept x.store p (arg 1 args) w.now)

  incr_in-Good :
      (delta : ℤ) (args : List Bytes) (x y : Session)
      → is_readonly mode ≡ false
      → Good mode P x
      → incr_in w delta args x ≡ some y
      → Good mode P y
  unfolding repl replicate_command
  incr_in-Good delta args x y writes (m, p) run =
      elim (Option-cases (Strings.incr w.draws (arg 1 args) delta w.now x.store)) [
        | inl bad ↦ ground arith
        | inr ((reply, t), e) ↦
            ground
              (arith, keeps-incr kept writes w.draws w.now x.store t p (arg 1 args) delta reply e)
      ]

  pub incr_command-Good :
      (delta : ℤ) (args : List Bytes) (x y : Session)
      → Good mode P x
      → incr_command w delta args x ≡ some y
      → Good mode P y
  unfolding incr_command
  incr_command-Good delta args x y (m, p) run = elim (Bool-cases (is_readonly mode)) [
    | inl off ↦ ground arith
    | inr writes ↦ ground (arith, incr_in-Good delta args x y writes (m, p))
  ]

  pub incrby_command-Good :
      (down : Bool) (args : List Bytes) (x y : Session)
      → Good mode P x
      → incrby_command w down args x ≡ some y
      → Good mode P y
  unfolding incrby_command
  incrby_command-Good down args x y (m, p) run = elim (Bool-cases (is_readonly mode)) [
    | inl off ↦ ground arith
    | inr writes ↦ elim (Option-cases (number int64_half (arg 2 args))) [
      | inl bad ↦ ground arith
      | inr (delta, e) ↦ ground (
        arith,
        incr_in-Good delta args x y writes (m, p),
        incr_in-Good (negate delta) args x y writes (m, p),
      )
    ]
  ]

  pub append_command-Good :
      (args : List Bytes) (x y : Session)
      → Good mode P x
      → append_command w args x ≡ some y
      → Good mode P y
  unfolding append_command repl replicate_command
  append_command-Good args x y (m, p) run =
      elim (Option-cases (Strings.append w.draws (arg 1 args) (arg 2 args) w.now x.store)) [
        | inl bad ↦ ground arith
        | inr ((n, t), e) ↦ elim (Bool-cases (is_readonly mode)) [
          | inl off ↦ ground arith
          | inr writes ↦ ground (
            arith,
            keeps-append kept writes w.draws w.now x.store t p (arg 1 args) (arg 2 args) n e,
          )
        ]
      ]

  pub strlen_command-Good :
      (args : List Bytes) (x y : Session)
      → Good mode P x
      → strlen_command w args x ≡ some y
      → Good mode P y
  unfolding strlen_command
  strlen_command-Good args x y g run = ground (arith, live-Good (arg 1 args) x g)

  pub getset_command-Good :
      (args : List Bytes) (x y : Session)
      → Good mode P x
      → getset_command w args x ≡ some y
      → Good mode P y
  unfolding getset_command repl replicate_command live
  getset_command-Good args x y (m, p) run = elim (Bool-cases (is_readonly mode)) [
    | inl off ↦ ground arith
    | inr writes ↦
        let q = keeps-live kept x.store p (arg 1 args) w.now in
        ground
          (arith, keeps-getset kept writes w.draws w.later _ _ q (arg 1 args) (arg 2 args) refl)
  ]

  mget_rest-Good :
      (times : ℕ → ℤ) (keys : List Bytes) (x : Session)
      → Good mode P x
      → Good mode P (mget_rest times keys x)
  unfolding mget_rest
  mget_rest-Good times [] x g = g
  mget_rest-Good times (key ∷ keys) x (m, p) =
      let q = keeps-get_ptr kept _ (keeps-live kept x.store p key (times 0)) key (times 0) in
      mget_rest-Good (λ n. times (suc n)) keys _ (ground arith, ground arith)

  pub mget_command-Good :
      (args : List Bytes) (x y : Session)
      → Good mode P x
      → mget_command w args x ≡ some y
      → Good mode P y
  unfolding mget_command
  mget_command-Good args x y g run =
      ground
        (arith, mget_rest-Good w.now_each (drop 1 args) (reply_header (pos (length args - 1)) x) g)

  pub mset_rest-Good :
      (draws : ℕ → Rng) (times : ℕ → ℤ) (rest : List Bytes) (x : Session)
      → is_readonly mode ≡ false
      → Good mode P x
      → Good mode P (mset_rest draws times rest x)
  unfolding mset_rest
  mset_rest-Good draws times [] x writes g = g
  mset_rest-Good draws times (key ∷ []) x writes g = g
  mset_rest-Good draws times (key ∷ val ∷ rest) x writes (m, p) =
      let q = keeps-live kept x.store p key (times 0) in
      mset_rest-Good (λ n. draws (suc n)) (λ n. times (suc n)) rest _ writes
        (m, keeps-set kept writes (draws 0) (times 0) _ _ q key val refl)

  pub mset_command-Good :
      (args : List Bytes) (x y : Session)
      → Good mode P x
      → mset_command w args x ≡ some y
      → Good mode P y
  unfolding mset_command repl replicate_command
  mset_command-Good args x y g run = elim (Bool-cases (is_readonly mode)) [
    | inl off ↦ ground arith
    | inr writes ↦ ground (arith, mset_rest-Good w.draws_each w.now_each (drop 1 args) x writes g)
  ]

  pub setnx_command-Good :
      (args : List Bytes) (x y : Session)
      → Good mode P x
      → setnx_command w args x ≡ some y
      → Good mode P y
  unfolding setnx_command repl replicate_command
  setnx_command-Good args x y (m, p) run = elim (Bool-cases (is_readonly mode)) [
    | inl off ↦ ground arith
    | inr writes ↦
        ground
          (arith, keeps-setnx kept writes w.draws w.now x.store _ p (arg 1 args) (arg 2 args) refl)
  ]
