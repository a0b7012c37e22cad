-- ===== src/CacheInstance/Keeps/DeadlineCommands.antt =====
-- The commands on deadlines.
use Prim.Native.String.{String}
use socketley.Prelude.{
  ℕ, ◌≡◌, refl, arith, inl, inr, Bool, false, Option, some, List, Bytes, Bool-cases, Option-cases,
}
use socketley.Prelude.Int.{ℤ, ◌-ℤ◌}
use socketley.Prelude.Words.{to_int}
use socketley.Cache.State.{Store}
use socketley.Cache.Expiry.{set_expiry, set_expiry_ms, get_ttl, get_pttl}
use socketley.Cache.Strings
use socketley.CacheInstance.Session.{
  CacheMode, is_readonly, Session, World, arg, live, repl, replicate_command, number, int_half,
  int64_half,
}
use socketley.CacheInstance.Strings.{with_deadline, confirm}
use socketley.CacheInstance.Deadlines.{
  answer_expiry, expire_with, expire_command, pexpire_command, expireat_with, expireat_command,
  pexpireat_command, ttl_with, ttl_command, pttl_command, persist_command, setex_with,
  setex_command, psetex_command,
}
use socketley.CacheInstance.Keeps.{
  IsKept, Good, keeps-live, keeps-set, keeps-del, keeps-persist, keeps-set_expiry,
  keeps-set_expiry_ms,
}
use socketley.CacheInstance.Keeps.StringCommands.{live-Good}

module _ {mode : CacheMode} {P : Store → Type 0} (kept : IsKept mode P) (w : World) where
  -- What the two ways to set a deadline have in common.
  abbrev pub Sets : (Bytes → ℤ → ℤ → Store → Option (Bool × Store)) → Type 0
  Sets set_to =
      is_readonly mode ≡ false
      → (time : ℤ) (key : Bytes) (n : ℤ) (s t : Store) (ok : Bool) → P s
      → set_to key n time s ≡ some (ok, t)
      → P t

  pub set_expiry-Sets : Sets set_expiry
  set_expiry-Sets writes time key n s t ok p e =
      keeps-set_expiry kept writes w.draws time s t p key n ok e

  pub set_expiry_ms-Sets : Sets set_expiry_ms
  set_expiry_ms-Sets writes time key n s t ok p e =
      keeps-set_expiry_ms kept writes w.draws time s t p key n ok e

  answer_expiry-Good :
      (set_to : Bytes → ℤ → ℤ → Store → Option (Bool × Store))
      → Sets set_to
      → (key : Bytes) (n : ℤ) (args : List Bytes) (x y : Session) → is_readonly mode ≡ false
      → Good mode P x
      → answer_expiry w args (set_to key n w.now x.store) x ≡ some y
      → Good mode P y
  unfolding repl replicate_command
  answer_expiry-Good set_to one key n args x y writes (m, p) run =
      elim (Option-cases (set_to key n w.now x.store)) [
        | inl bad ↦ ground arith
        | inr ((ok, t), e) ↦
            let q = one writes w.now key n x.store t ok p e in
            elim (Bool-cases ok) [ inl good ↦ ground arith | inr bad ↦ ground arith ]
      ]

  expire_with-Good :
      (half : ℕ) (msg : String) (set_to : Bytes → ℤ → ℤ → Store → Option (Bool × Store))
      → Sets set_to
      → (args : List Bytes) (x y : Session) → Good mode P x
      → expire_with half msg set_to w args x ≡ some y
      → Good mode P y
  unfolding expire_with
  expire_with-Good half msg set_to one args x y (m, p) run = elim (Bool-cases (is_readonly mode)) [
    | inl off ↦ ground arith
    | inr writes ↦ elim (Option-cases (number half (arg 2 args))) [
      | inl bad ↦ ground arith
      | inr (n, e) ↦
          ground (arith, answer_expiry-Good set_to one (arg 1 args) n args x y writes (m, p))
    ]
  ]

  pub expire_command-Good :
      (args : List Bytes) (x y : Session)
      → Good mode P x
      → expire_command w args x ≡ some y
      → Good mode P y
  unfolding expire_command
  expire_command-Good = expire_with-Good int_half "invalid seconds" set_expiry set_expiry-Sets

  pub pexpire_command-Good :
      (args : List Bytes) (x y : Session)
      → Good mode P x
      → pexpire_command w args x ≡ some y
      → Good mode P y
  unfolding pexpire_command
  pexpire_command-Good =
      expire_with-Good int64_half "ERR invalid expire time" set_expiry_ms set_expiry_ms-Sets

  expireat_with-Good :
      (cast : ℤ → ℤ) (set_to : Bytes → ℤ → ℤ → Store → Option (Bool × Store))
      → Sets set_to
      → (clock : ℤ) (args : List Bytes) (x y : Session) → Good mode P x
      → expireat_with cast set_to clock w args x ≡ some y
      → Good mode P y
  unfolding expireat_with repl replicate_command
  expireat_with-Good cast set_to one clock args x y (m, p) run =
      elim (Bool-cases (is_readonly mode)) [
        | inl off ↦ ground arith
        | inr writes ↦
            let q = keeps-del kept writes w.draws w.now x.store _ p (arg 1 args) refl in
            elim (Option-cases (number int64_half (arg 2 args))) [
              | inl bad ↦ ground arith
              | inr (at, e) ↦ ground (
                arith,
                answer_expiry-Good set_to one (arg 1 args) (cast (at -ℤ clock)) args x y writes
                    (m, p),
              )
            ]
      ]

  pub expireat_command-Good :
      (args : List Bytes) (x y : Session)
      → Good mode P x
      → expireat_command w args x ≡ some y
      → Good mode P y
  unfolding expireat_command
  expireat_command-Good = expireat_with-Good to_int set_expiry set_expiry-Sets w.unix_seconds

  pub pexpireat_command-Good :
      (args : List Bytes) (x y : Session)
      → Good mode P x
      → pexpireat_command w args x ≡ some y
      → Good mode P y
  unfolding pexpireat_command
  pexpireat_command-Good = expireat_with-Good (λ n. n) set_expiry_ms set_expiry_ms-Sets w.unix_ms

  ttl_with-Good :
      (get : Bytes → ℤ → Store → ℤ) (args : List Bytes) (x y : Session)
      → Good mode P x
      → ttl_with get w args x ≡ some y
      → Good mode P y
  unfolding ttl_with
  ttl_with-Good get args x y g run = ground (arith, live-Good kept w (arg 1 args) x g)

  pub ttl_command-Good :
      (args : List Bytes) (x y : Session)
      → Good mode P x
      → ttl_command w args x ≡ some y
      → Good mode P y
  unfolding ttl_command
  ttl_command-Good = ttl_with-Good get_ttl

  pub pttl_command-Good :
      (args : List Bytes) (x y : Session)
      → Good mode P x
      → pttl_command w args x ≡ some y
      → Good mode P y
  unfolding pttl_command
  pttl_command-Good = ttl_with-Good get_pttl

  pub persist_command-Good :
      (args : List Bytes) (x y : Session)
      → Good mode P x
      → persist_command w args x ≡ some y
      → Good mode P y
  unfolding persist_command repl replicate_command
  persist_command-Good args x y (m, p) run = elim (Bool-cases (is_readonly mode)) [
    | inl off ↦ ground arith
    | inr writes ↦
        ground (arith, keeps-persist kept writes w.draws w.now x.store _ p (arg 1 args) refl)
  ]

  setex_with-Good :
      (half : ℕ) (msg : String) (set_to : Bytes → ℤ → ℤ → Store → Option (Bool × Store))
      → Sets set_to
      → (args : List Bytes) (x y : Session) → Good mode P x
      → setex_with half msg set_to w args x ≡ some y
      → Good mode P y
  unfolding setex_with live repl replicate_command confirm with_deadline
  setex_with-Good half msg set_to one args x y (m, p) run = elim (Bool-cases (is_readonly mode)) [
    | inl off ↦ ground arith
    | inr writes ↦
        let k = keeps-live kept x.store p (arg 1 args) w.now in
        let s = (Strings.set w.draws (arg 1 args) (arg 3 args) (live w (arg 1 args) x).store).1 in
        let q = keeps-set kept writes w.draws w.now _ s k (arg 1 args) (arg 3 args) refl in
        elim (Option-cases (number half (arg 2 args))) [
          | inl bad ↦ ground arith
          | inr (n, e) ↦ elim (Option-cases (set_to (arg 1 args) n w.later s)) [
            | inl worse ↦ ground arith
            | inr ((ok, t), e') ↦
                let u = one writes w.later (arg 1 args) n s t ok q e' in ground arith
          ]
        ]
  ]

  pub setex_command-Good :
      (args : List Bytes) (x y : Session)
      → Good mode P x
      → setex_command w args x ≡ some y
      → Good mode P y
  unfolding setex_command
  setex_command-Good =
      setex_with-Good int_half "ERR invalid expire time in SETEX" set_expiry set_expiry-Sets

  pub psetex_command-Good :
      (args : List Bytes) (x y : Session)
      → Good mode P x
      → psetex_command w args x ≡ some y
      → Good mode P y
  unfolding psetex_command
  psetex_command-Good =
      setex_with-Good int64_half "ERR invalid expire time in PSETEX" set_expiry_ms
        set_expiry_ms-Sets
