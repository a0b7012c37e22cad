-- ===== src/CacheInstance/Pipeline/Order.antt =====
-- What `process_resp` does to commands that stand in the buffer one behind the other.
use mathlib.Core.List.{append_assoc}
use socketley.Prelude.{
  ℕ, suc, ◌≤◌, ◌≡◌, ◌∙◌, refl, ap, arith, inl, inr, Option, none, some, List, [], ◌∷◌, ◌++◌, Bytes,
  length, drop, Option-cases,
}
use socketley.Prelude.Lists.{length-drop, drop-length-append}
use socketley.Prelude.Words.{decimal}
use socketley.Prelude.Decimal.{all_digits-decimal}
use socketley.Resp.Decode.{
  ParseResult, ok, incomplete, error, parse_message_views, resp_max_array_size, count_slow,
}
use socketley.Resp.RoundTrip.{
  AllShort, encode_command, encode_command-append, encode_bulks, find_crlf_of_digits,
  bounded_number-decimal, parse_message-encode_command,
}
use socketley.Resp.Views.{success, announced, parse_message_views-success}
use socketley.CacheInstance.Session.{Session, World}
use socketley.CacheInstance.Pipeline.{
  max_resp_args, with_partial, resp_turn, resp_loop, process_resp,
}
use socketley.CacheInstance.Pipeline.Fuel.{parse_message_views-consumes, resp_loop-enough_fuel}

-- Commands as a client sends them, one behind the other.
unfoldable pub encode_commands : List (List Bytes) → Bytes
encode_commands [] = []
encode_commands (args ∷ cmds) = encode_command args ++ encode_commands cmds

-- The commands performed one after the other.
unfoldable pub perform_all : (ℕ → World) → List (List Bytes) → Session → Option Session
perform_all turns [] x = some x
perform_all turns (args ∷ cmds) x = elim (resp_turn (turns 0) args x) [
  | none ↦ none
  | some y ↦ perform_all (λ n. turns (suc n)) cmds y
]

-- No command has more arguments than the instance reads, or one too long.
abbrev pub Sendable : List (List Bytes) → Type 0
Sendable [] = Unit {0}
Sendable (args ∷ cmds) = (length args ≤ max_resp_args) × AllShort args × Sendable cmds

announced-encode_command :
    (args : List Bytes) (rest : Bytes)
    → length args ≤ max_resp_args
    → announced (encode_command args ++ rest) ≡ length args
unfolding announced count_slow
announced-encode_command args rest few =
    let n = length args in
    rw encode_command-append (
      ground (
        arith,
        find_crlf_of_digits (decimal n) (encode_bulks args ++ rest) (all_digits-decimal n),
        bounded_number-decimal resp_max_array_size n (omega arith) (omega arith),
      ))

of_success : {A : Type 0} (r : ParseResult A) (a : A) → success r ≡ some a → r ≡ ok a
of_success (ok b) a e = ground arith
of_success incomplete a e = ground arith
of_success error a e = ground arith

views-encode_command :
    (args : List Bytes) (rest : Bytes)
    → length args ≤ max_resp_args
    → AllShort args
    → parse_message_views max_resp_args (encode_command args ++ rest)
      ≡ ok (args, length (encode_command args))
views-encode_command args rest few short =
    let room = announced-encode_command args rest few in
    let same =
      parse_message_views-success max_resp_args (encode_command args ++ rest) (omega arith) in
    of_success _ _ (same ∙ ap success (parse_message-encode_command args rest (omega arith) short))

-- The loop with fuel for its whole text.
abbrev whole_loop : (ℕ → World) → Bytes → Session → Option Session
whole_loop turns text x = resp_loop (length text) turns text x

-- A command that is read is performed, and the loop goes on behind it.
whole_loop-read :
    (turns : ℕ → World) (text : Bytes) (args : List Bytes) (n : ℕ) (x : Session)
    → parse_message_views max_resp_args text ≡ ok (args, n)
    → whole_loop turns text x ≡ elim (resp_turn (turns 0) args x) [
      | none ↦ none
      | some y ↦ whole_loop (λ i. turns (suc i)) (drop n text) y
    ]
unfolding resp_loop parse_message_views
whole_loop-read turns [] args n x read = ground arith
whole_loop-read turns (c ∷ text) args n x read =
    let m = parse_message_views-consumes max_resp_args (c ∷ text) args n read in
    let l = length-drop n (c ∷ text) in
    elim (Option-cases (resp_turn (turns 0) args x)) [
      | inl undefined ↦ ground arith
      | inr (y, turn) ↦
          let more =
            resp_loop-enough_fuel (length text) (λ i. turns (suc i)) (drop n (c ∷ text)) y
              (omega arith) in
          ground (arith, more)
    ]

whole_loop-incomplete :
    (turns : ℕ → World) (text : Bytes) (x : Session)
    → parse_message_views max_resp_args text ≡ incomplete
    → whole_loop turns text x ≡ some (with_partial text x)
unfolding resp_loop
whole_loop-incomplete turns [] x short = refl
whole_loop-incomplete turns (c ∷ text) x short = ground arith

-- The commands that the loop meets are performed in the order sent, and what is left is kept.
whole_loop-encode_commands :
    (turns : ℕ → World) (cmds : List (List Bytes)) (rest : Bytes) (x : Session)
    → Sendable cmds
    → parse_message_views max_resp_args rest ≡ incomplete
    → whole_loop turns (encode_commands cmds ++ rest) x
      ≡ elim (perform_all turns cmds x) [ none ↦ none | some y ↦ some (with_partial rest y) ]
unfolding encode_commands perform_all
whole_loop-encode_commands turns [] rest x good short = whole_loop-incomplete turns rest x short
whole_loop-encode_commands turns (args ∷ cmds) rest x (few, fine, good) short =
    let behind = encode_commands cmds ++ rest in
    let step =
      whole_loop-read turns (encode_command args ++ behind) args (length (encode_command args)) x
        (views-encode_command args behind few fine) in
    let gone = drop-length-append (encode_command args) behind in
    rw append_assoc (elim (Option-cases (resp_turn (turns 0) args x)) [
      | inl undefined ↦ ground (arith, step)
      | inr (y, turn) ↦ ground (
        arith,
        step,
        gone,
        whole_loop-encode_commands (λ i. turns (suc i)) cmds rest y good short,
      )
    ])

-- A buffer that holds whole commands and the beginning of another: the commands are performed once
-- each, in the order sent, and the beginning stays in the buffer. No command has more than 64 arguments
-- or an argument above the limit.
pub process_resp-encode_commands :
    (turns : ℕ → World) (cmds : List (List Bytes)) (rest : Bytes) (x : Session)
    → Sendable cmds
    → parse_message_views max_resp_args rest ≡ incomplete
    → x.conn.partial ≡ encode_commands cmds ++ rest
    → process_resp turns x
      ≡ elim (perform_all turns cmds x) [ none ↦ none | some y ↦ some (with_partial rest y) ]
unfolding process_resp
process_resp-encode_commands turns cmds rest x good short holds =
    ap (λ text. whole_loop turns text x) holds
    ∙ whole_loop-encode_commands turns cmds rest x good short
