-- ===== src/CacheInstance/Text/Keeps/DeadlineLines.antt =====
-- The commands on deadlines.
use socketley.Prelude.{
  ◌≡◌, refl, arith, inl, inr, Bool, false, Option, some, Bytes, Bool-cases, Option-cases,
}
use Prim.Native.String.{String}
use socketley.Prelude.Int.{ℤ, ◌-ℤ◌}
use socketley.Prelude.Words.{to_int}
use socketley.Cache.State.{Store}
use socketley.Cache.Expiry.{set_expiry, set_expiry_ms}
use socketley.Cache.Strings
use socketley.Cache.Strings.{IncrReply}
use socketley.CacheInstance.Session.{
  CacheMode, is_readonly, Session, World, live, replicate_command, number, int64_half,
}
use socketley.CacheInstance.Text.{key_of, args_behind, parse_int_sv}
use socketley.CacheInstance.Keeps.{IsKept, Good, keeps-live, keeps-set, keeps-del, keeps-persist}
use socketley.CacheInstance.Keeps.StringCommands.{live-Good}
use socketley.CacheInstance.Text.Deadlines.{
  told_expiry, text_expire_with, text_expire, text_pexpire, text_ttl, text_persist, text_setex_with,
  text_setex, text_psetex, text_expireat_with, text_expireat, text_pexpireat,
}
use socketley.CacheInstance.Keeps.DeadlineCommands.{Sets, set_expiry-Sets, set_expiry_ms-Sets}

module _ {mode : CacheMode} {P : Store → Type 0} (kept : IsKept mode P) (w : World) where
  told_expiry-Good :
      (set_to : Bytes → ℤ → ℤ → Store → Option (Bool × Store))
      → Sets kept w set_to
      → (done failed : String) (key : Bytes) (n : ℤ) (x y : Session) → is_readonly mode ≡ false
      → Good mode P x
      → told_expiry done failed (set_to key n w.now x.store) x ≡ some y
      → Good mode P y
  told_expiry-Good set_to one done failed key n x y writes (m, p) run =
      elim (Option-cases (set_to key n w.now x.store)) [
        | inl bad ↦ ground arith
        | inr ((ok, t), e) ↦
            let q = one writes w.now key n x.store t ok p e in
            elim (Bool-cases ok) [ inl good ↦ ground arith | inr bad ↦ ground arith ]
      ]

  pub text_expire_with-Good :
      (read : Bytes → Option ℤ) (set_to : Bytes → ℤ → ℤ → Store → Option (Bool × Store))
      → Sets kept w set_to
      → (usage bad done failed : String) (args : Bytes) (x y : Session) → Good mode P x
      → text_expire_with read set_to usage bad done failed w args x ≡ some y
      → Good mode P y
  unfolding text_expire_with
  text_expire_with-Good read set_to one usage bad done failed args x y (m, p) run =
      elim (Bool-cases (is_readonly mode)) [
        | inl off ↦ ground arith
        | inr writes ↦ elim (Option-cases (read (args_behind args))) [
          | inl worse ↦ ground arith
          | inr (n, e) ↦
              ground
                (arith, told_expiry-Good set_to one done failed (key_of args) n x y writes (m, p))
        ]
      ]

  pub text_expire-Good :
      (args : Bytes) (x y : Session) → Good mode P x → text_expire w args x ≡ some y → Good mode P y
  unfolding text_expire
  text_expire-Good =
      text_expire_with-Good parse_int_sv set_expiry (set_expiry-Sets kept w)
        "usage: expire key seconds" "error: invalid seconds" "ok" "nil"

  pub text_pexpire-Good :
      (args : Bytes) (x y : Session)
      → Good mode P x
      → text_pexpire w args x ≡ some y
      → Good mode P y
  unfolding text_pexpire
  text_pexpire-Good =
      text_expire_with-Good (number int64_half) set_expiry_ms (set_expiry_ms-Sets kept w)
        "usage: pexpire key ms" "error: invalid ms" "1" "0"

  pub text_ttl-Good :
      (get : Bytes → ℤ → Store → ℤ) (args : Bytes) (x y : Session)
      → Good mode P x
      → text_ttl get w args x ≡ some y
      → Good mode P y
  unfolding text_ttl
  text_ttl-Good get args x y g run = ground (arith, live-Good kept w args x g)

  pub text_persist-Good :
      (args : Bytes) (x y : Session)
      → Good mode P x
      → text_persist w args x ≡ some y
      → Good mode P y
  unfolding text_persist
  text_persist-Good args x y (m, p) run = elim (Bool-cases (is_readonly mode)) [
    | inl off ↦ ground arith
    | inr writes ↦ ground (arith, keeps-persist kept writes w.draws w.now x.store _ p args refl)
  ]

  pub text_setex_with-Good :
      (read : Bytes → Option ℤ) (set_to : Bytes → ℤ → ℤ → Store → Option (Bool × Store))
      → Sets kept w set_to
      → (usage bad : String) (line args : Bytes) (x y : Session) → Good mode P x
      → text_setex_with read set_to usage bad w line args x ≡ some y
      → Good mode P y
  unfolding text_setex_with live replicate_command
  text_setex_with-Good read set_to one usage bad line args x y (m, p) run =
      elim (Bool-cases (is_readonly mode)) [
        | inl off ↦ ground arith
        | inr writes ↦
            let k = keeps-live kept x.store p (key_of args) w.now in
            let val = args_behind (args_behind args) in
            let s = (Strings.set w.draws (key_of args) val (live w (key_of args) x).store).1 in
            let q = keeps-set kept writes w.draws w.now _ s k (key_of args) val refl in
            elim (Option-cases (read (key_of (args_behind args)))) [
              | inl worse ↦ ground arith
              | inr (n, e) ↦ elim (Option-cases (set_to (key_of args) n w.later s)) [
                | inl worst ↦ ground arith
                | inr ((ok, t), e') ↦
                    let u = one writes w.later (key_of args) n s t ok q e' in ground arith
              ]
            ]
      ]

  pub text_setex-Good :
      (line args : Bytes) (x y : Session)
      → Good mode P x
      → text_setex w line args x ≡ some y
      → Good mode P y
  unfolding text_setex
  text_setex-Good =
      text_setex_with-Good parse_int_sv set_expiry (set_expiry-Sets kept w)
        "usage: setex key seconds value" "error: invalid seconds"

  pub text_psetex-Good :
      (line args : Bytes) (x y : Session)
      → Good mode P x
      → text_psetex w line args x ≡ some y
      → Good mode P y
  unfolding text_psetex
  text_psetex-Good =
      text_setex_with-Good (number int64_half) set_expiry_ms (set_expiry_ms-Sets kept w)
        "usage: psetex key milliseconds value" "error: invalid milliseconds"

  pub text_expireat_with-Good :
      (cast : ℤ → ℤ) (set_to : Bytes → ℤ → ℤ → Store → Option (Bool × Store))
      → Sets kept w set_to
      → (usage : String) (clock : ℤ) (args : Bytes) (x y : Session) → Good mode P x
      → text_expireat_with cast set_to usage clock w args x ≡ some y
      → Good mode P y
  unfolding text_expireat_with
  text_expireat_with-Good cast set_to one usage clock args x y (m, p) run =
      elim (Bool-cases (is_readonly mode)) [
        | inl off ↦ ground arith
        | inr writes ↦
            let q = keeps-del kept writes w.draws w.now x.store _ p (key_of args) refl in
            elim (Option-cases (number int64_half (args_behind args))) [
              | inl bad ↦ ground arith
              | inr (at, e) ↦ ground (
                arith,
                told_expiry-Good set_to one "1" "0" (key_of args) (cast (at -ℤ clock)) x y writes
                    (m, p),
              )
            ]
      ]

  pub text_expireat-Good :
      (args : Bytes) (x y : Session)
      → Good mode P x
      → text_expireat w args x ≡ some y
      → Good mode P y
  unfolding text_expireat
  text_expireat-Good =
      text_expireat_with-Good to_int set_expiry (set_expiry-Sets kept w)
        "usage: expireat key unix_seconds" w.unix_seconds

  pub text_pexpireat-Good :
      (args : Bytes) (x y : Session)
      → Good mode P x
      → text_pexpireat w args x ≡ some y
      → Good mode P y
  unfolding text_pexpireat
  text_pexpireat-Good =
      text_expireat_with-Good (λ n. n) set_expiry_ms (set_expiry_ms-Sets kept w)
        "usage: pexpireat key unix_ms" w.unix_ms
