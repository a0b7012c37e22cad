-- ===== src/CacheInstance/Input/Keeps.antt =====
-- What the bytes that a connection sends keep of the store, in either protocol.
use socketley.Prelude.{
  ℕ, suc, ◌≡◌, arith, inl, inr, false, some, List, [], ◌∷◌, ◌++◌, Bytes, Bool-cases, Option-cases,
}
use socketley.Prelude.Int.{pos}
use socketley.Cache.State.{Store}
use socketley.CacheInstance.Session.{CacheMode, Session, World}
use socketley.CacheInstance.Keeps.{IsKept, Good, keeps-unsubscribe_all}
use socketley.CacheInstance.Pipeline.{with_partial, process_resp}
use socketley.CacheInstance.Pipeline.Keeps.{process_resp-Good}
use socketley.CacheInstance.Text.Keys.{is_admin}
use socketley.CacheInstance.Text.Dispatch.{process_command}
use socketley.CacheInstance.Text.Keeps.Perform.{process_command-Good}
use socketley.CacheInstance.Input.{
  cut_lines, strip_cr, text_lines, process_text, detect, process_partial, close_oversized,
  handle_data, handle_end,
}

module _ {mode : CacheMode} {P : Store → Type 0} (kept : IsKept mode P)
    (plain : is_admin mode ≡ false) where
  text_lines-Good :
      (turns : ℕ → World) (ls : List Bytes) (x y : Session)
      → Good mode P x
      → text_lines turns ls x ≡ some y
      → Good mode P y
  unfolding text_lines
  text_lines-Good turns [] x y g run = ground arith
  text_lines-Good turns (line ∷ ls) x y g run =
      elim (Option-cases (process_command (turns 0) (strip_cr line) x)) [
        | inl undefined ↦ ground arith
        | inr (z, e) ↦
            let h = process_command-Good kept (turns 0) (strip_cr line) x z plain g e in
            text_lines-Good (λ n. turns (suc n)) ls z y h (ground arith)
      ]

  process_text-Good :
      (turns : ℕ → World) (x y : Session)
      → Good mode P x
      → process_text turns x ≡ some y
      → Good mode P y
  unfolding process_text
  process_text-Good turns x y g run =
      let ls = (cut_lines x.conn.partial).0 in
      elim (Option-cases (text_lines turns ls x)) [
        | inl undefined ↦ ground arith
        | inr (z, e) ↦ ground (arith, text_lines-Good turns ls x z g e)
      ]

  detect-Good : (x : Session) → Good mode P x → Good mode P (detect x)
  unfolding detect
  detect-Good x g = ground arith

  process_partial-Good :
      (turns : ℕ → World) (x y : Session)
      → Good mode P x
      → process_partial turns x ≡ some y
      → Good mode P y
  unfolding process_partial
  process_partial-Good turns x y g run =
      let d = detect x in
      let h = detect-Good x g in
      elim (Bool-cases d.conn.resp_mode) [
        | inl resp ↦ elim (Option-cases (process_resp turns d)) [
          | inl undefined ↦ ground arith
          | inr (z, e) ↦ ground (arith, process_resp-Good kept turns d z h e)
        ]
        | inr text ↦ elim (Option-cases (process_text turns d)) [
          | inl undefined ↦ ground arith
          | inr (z, e) ↦ ground (arith, process_text-Good turns d z h e)
        ]
      ]

  pub handle_data-Good :
      (turns : ℕ → World) (bytes : Bytes) (x y : Session)
      → Good mode P x
      → handle_data turns bytes x ≡ some y
      → Good mode P y
  unfolding handle_data close_oversized
  handle_data-Good turns bytes x y (m, p) run =
      let z = with_partial (x.conn.partial ++ bytes) x in
      ground (
        arith,
        process_partial-Good turns z y (m, p),
        keeps-unsubscribe_all kept x.store p x.conn.fd (pos 0),
      )

  pub handle_end-Good : (x : Session) → Good mode P x → Good mode P (handle_end x)
  unfolding handle_end
  handle_end-Good x (m, p) = ground (arith, keeps-unsubscribe_all kept x.store p x.conn.fd (pos 0))
