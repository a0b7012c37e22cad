-- ===== src/CacheInstance/Pipeline/Keeps.antt =====
-- What the commands keep of the store, the whole loop keeps.
use socketley.Prelude.{
  ℕ, zero, suc, ◌≡◌, arith, inl, inr, some, List, [], ◌∷◌, Bytes, drop, Option-cases,
}
use socketley.Cache.State.{Store}
use socketley.Resp.Decode.{parse_message_views}
use socketley.CacheInstance.Session.{CacheMode, Session, World}
use socketley.CacheInstance.Dispatch.{process_resp_command}
use socketley.CacheInstance.Keeps.{IsKept, Good}
use socketley.CacheInstance.Keeps.Perform.{process_resp_command-Good}
use socketley.CacheInstance.Pipeline.{max_resp_args, capped, resp_turn, resp_loop, process_resp}
use socketley.CacheInstance.Pipeline.Fuel.{ParseResult-cases}

module _ {mode : CacheMode} {P : Store → Type 0} (kept : IsKept mode P) where
  resp_turn-Good :
      (w : World) (args : List Bytes) (x y : Session)
      → Good mode P x
      → resp_turn w args x ≡ some y
      → Good mode P y
  unfolding resp_turn capped
  resp_turn-Good w args x y g run = elim (Option-cases (process_resp_command w args x)) [
    | inl bad ↦ ground arith
    | inr (z, e) ↦ let h = process_resp_command-Good kept w args x z g e in ground arith
  ]

  resp_loop-Good :
      (fuel : ℕ) (turns : ℕ → World) (text : Bytes) (x y : Session)
      → Good mode P x
      → resp_loop fuel turns text x ≡ some y
      → Good mode P y
  unfolding resp_loop
  resp_loop-Good fuel turns [] x y g run = ground arith
  resp_loop-Good zero turns (c ∷ text) x y g run = ground arith
  resp_loop-Good (suc fuel) turns (c ∷ text) x y g run =
      elim (ParseResult-cases (parse_message_views max_resp_args (c ∷ text))) [
        | inl short ↦ ground arith
        | inr (inl bad) ↦ ground arith
        | inr (inr ((args, n), read)) ↦ elim (Option-cases (resp_turn (turns 0) args x)) [
          | inl undefined ↦ ground arith
          | inr (z, turn) ↦
              let h = resp_turn-Good (turns 0) args x z g turn in
              resp_loop-Good fuel (λ i. turns (suc i)) (drop n (c ∷ text)) z y h (ground arith)
        ]
      ]

  pub process_resp-Good :
      (turns : ℕ → World) (x y : Session)
      → Good mode P x
      → process_resp turns x ≡ some y
      → Good mode P y
  unfolding process_resp
  process_resp-Good turns x y g run = resp_loop-Good _ turns x.conn.partial x y g run
