-- ===== src/CacheInstance/Text/Keeps/StringLines.antt =====
-- The commands on strings.
use socketley.Prelude.{
  ℕ, suc, ◌≡◌, refl, arith, inl, inr, Bool, false, some, List, [], ◌∷◌, Bytes, Bool-cases,
  Option-cases,
}
use Prim.Native.String.{String}
use socketley.Prelude.Int.{ℤ}
use socketley.Cache.State.{Store}
use socketley.Cache.Strings
use socketley.Cache.Strings.{IncrReply}
use socketley.CacheInstance.Session.{
  CacheMode, is_readonly, Session, World, live, replicate_command, number, int64_half,
}
use socketley.CacheInstance.Strings.{negate}
use socketley.CacheInstance.Text.{cut_blank, key_of, args_behind, blank_words, words_to_end}
use socketley.CacheInstance.Keeps.{
  IsKept, Good, keeps-live, keeps-get_ptr, keeps-get_live, keeps-set, keeps-setnx, keeps-getset,
  keeps-incr, keeps-append,
}
use socketley.CacheInstance.Keeps.StringCommands.{live-Good, mset_rest-Good}
use socketley.CacheInstance.Text.Strings.{
  text_set, text_get, told_incr, text_incr, text_incrby, text_append, text_strlen, text_getset,
  tell_each, text_mget, text_mset, text_setnx,
}

module _ {mode : CacheMode} {P : Store → Type 0} (kept : IsKept mode P) (w : World) where
  pub text_set-Good :
      (line args : Bytes) (x y : Session)
      → Good mode P x
      → text_set w line args x ≡ some y
      → Good mode P y
  unfolding text_set live replicate_command
  text_set-Good line args x y (m, p) run = elim (Bool-cases (is_readonly mode)) [
    | inl off ↦ ground arith
    | inr writes ↦ elim (Option-cases (cut_blank args)) [
      | inl bad ↦ ground arith
      | inr ((key, val), e) ↦
          let q = keeps-live kept x.store p key w.now in
          ground (arith, keeps-set kept writes w.draws w.now _ _ q key val refl)
    ]
  ]

  pub text_get-Good :
      (args : Bytes) (x y : Session) → Good mode P x → text_get w args x ≡ some y → Good mode P y
  unfolding text_get
  text_get-Good args x y (m, p) run = ground (arith, keeps-get_live kept x.store p args w.now)

  told_incr-Good :
      (line key : Bytes) (delta : ℤ) (x y : Session)
      → is_readonly mode ≡ false
      → Good mode P x
      → told_incr w line (Strings.incr w.draws key delta w.now x.store) x ≡ some y
      → Good mode P y
  unfolding replicate_command
  told_incr-Good line key delta x y writes (m, p) run =
      elim (Option-cases (Strings.incr w.draws key delta w.now x.store)) [
        | inl bad ↦ ground arith
        | inr ((reply, t), e) ↦
            ground (arith, keeps-incr kept writes w.draws w.now x.store t p key delta reply e)
      ]

  pub text_incr-Good :
      (delta : ℤ) (usage : String) (line args : Bytes) (x y : Session)
      → Good mode P x
      → text_incr w delta usage line args x ≡ some y
      → Good mode P y
  unfolding text_incr
  text_incr-Good delta usage line args x y (m, p) run = elim (Bool-cases (is_readonly mode)) [
    | inl off ↦ ground arith
    | inr writes ↦ ground (arith, told_incr-Good line args delta x y writes (m, p))
  ]

  pub text_incrby-Good :
      (down : Bool) (usage : String) (line args : Bytes) (x y : Session)
      → Good mode P x
      → text_incrby w down usage line args x ≡ some y
      → Good mode P y
  unfolding text_incrby
  text_incrby-Good down usage line args x y (m, p) run = elim (Bool-cases (is_readonly mode)) [
    | inl off ↦ ground arith
    | inr writes ↦ elim (Option-cases (number int64_half (args_behind args))) [
      | inl bad ↦ ground arith
      | inr (delta, e) ↦ ground (
        arith,
        told_incr-Good line (key_of args) delta x y writes (m, p),
        told_incr-Good line (key_of args) (negate delta) x y writes (m, p),
      )
    ]
  ]

  pub text_append-Good :
      (line args : Bytes) (x y : Session)
      → Good mode P x
      → text_append w line args x ≡ some y
      → Good mode P y
  unfolding text_append replicate_command
  text_append-Good line args x y (m, p) run = elim (Bool-cases (is_readonly mode)) [
    | inl off ↦ ground arith
    | inr writes ↦
        elim (Option-cases
          (Strings.append w.draws (key_of args) (args_behind args) w.now x.store)) [
            | inl bad ↦ ground arith
            | inr ((n, t), e) ↦ ground (
              arith,
              keeps-append kept writes w.draws w.now x.store t p (key_of args) (args_behind args) n
                  e,
            )
          ]
  ]

  pub text_strlen-Good :
      (args : Bytes) (x y : Session) → Good mode P x → text_strlen w args x ≡ some y → Good mode P y
  unfolding text_strlen
  text_strlen-Good args x y g run = ground (arith, live-Good kept w args x g)

  pub text_getset-Good :
      (line args : Bytes) (x y : Session)
      → Good mode P x
      → text_getset w line args x ≡ some y
      → Good mode P y
  unfolding text_getset live replicate_command
  text_getset-Good line args x y (m, p) run = elim (Bool-cases (is_readonly mode)) [
    | inl off ↦ ground arith
    | inr writes ↦
        let q = keeps-live kept x.store p (key_of args) w.now in
        ground (
          arith,
          keeps-getset kept writes w.draws w.later _ _ q (key_of args) (args_behind args) refl,
        )
  ]

  tell_each-Good :
      (times : ℕ → ℤ) (keys : List Bytes) (x : Session)
      → Good mode P x
      → Good mode P (tell_each times keys x)
  unfolding tell_each
  tell_each-Good times [] x g = g
  tell_each-Good times (key ∷ keys) x (m, p) =
      let q = keeps-get_ptr kept _ (keeps-live kept x.store p key (times 0)) key (times 0) in
      tell_each-Good (λ n. times (suc n)) keys _ (ground arith, ground arith)

  pub text_mget-Good :
      (args : Bytes) (x y : Session) → Good mode P x → text_mget w args x ≡ some y → Good mode P y
  unfolding text_mget
  text_mget-Good args x y g run = ground (arith, tell_each-Good w.now_each (blank_words args) x g)

  pub text_mset-Good :
      (line args : Bytes) (x y : Session)
      → Good mode P x
      → text_mset w line args x ≡ some y
      → Good mode P y
  unfolding text_mset replicate_command
  text_mset-Good line args x y (m, p) run = elim (Bool-cases (is_readonly mode)) [
    | inl off ↦ ground arith
    | inr writes ↦
        ground
          (arith, mset_rest-Good kept w w.draws_each w.now_each (words_to_end args) x writes (m, p))
  ]

  pub text_setnx-Good :
      (line args : Bytes) (x y : Session)
      → Good mode P x
      → text_setnx w line args x ≡ some y
      → Good mode P y
  unfolding text_setnx replicate_command
  text_setnx-Good line args x y (m, p) run = elim (Bool-cases (is_readonly mode)) [
    | inl off ↦ ground arith
    | inr writes ↦ ground (
      arith,
      keeps-setnx kept writes w.draws w.now x.store _ p (key_of args) (args_behind args) refl,
    )
  ]
