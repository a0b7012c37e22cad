-- ===== src/CacheInstance/Pipeline.antt =====
-- `process_resp`: the loop over the commands that a connection has sent in RESP.
pub mod Fuel
pub mod Order
pub mod Keeps
use socketley.Prelude.{
  ℕ, zero, suc, ◌^◌, Bool, true, false, Option, none, some, List, [], ◌∷◌, ◌++◌, Bytes, codes,
  length, drop, ltb, if◌then◌else◌,
}
use socketley.Resp.Decode.{ok, incomplete, error, parse_message_views}
use socketley.CacheInstance.Connection.{Connection, flush_responses}
use socketley.CacheInstance.Session.{Session, World, put}
use socketley.CacheInstance.Dispatch.{process_resp_command}

abbrev pub max_resp_args : ℕ
max_resp_args = 64

abbrev pub protocol_error : Bytes
protocol_error = codes "-ERR protocol error" ++ 13 ∷ 10 ∷ []

abbrev pub with_partial : Bytes → Session → Session
with_partial text x = let c = x.conn in record x { conn = record c { partial = text } }

-- Answers of more than 1 MiB go out before the next command is read.
unfoldable pub capped : Bool → Session → Session
capped send_zc x =
    if ltb (2 ^ 20) (length x.conn.response_buf)
    then record x { conn = flush_responses send_zc x.conn }
    else x

-- The body of the loop for a command that is read.
unfoldable pub resp_turn : World → List Bytes → Session → Option Session
resp_turn w args x = elim (process_resp_command w args x) [
  | none ↦ none
  | some y ↦ some (capped w.send_zc y)
]

-- The loop over what is unread, with fuel, one unit for each byte. `turns` is the world that each
-- command of the loop meets.
unfoldable pub resp_loop : ℕ → (ℕ → World) → Bytes → Session → Option Session
resp_loop fuel turns [] x = some (with_partial [] x)
resp_loop zero turns (c ∷ text) x = none
resp_loop (suc fuel) turns (c ∷ text) x = elim (parse_message_views max_resp_args (c ∷ text)) [
  | incomplete ↦ some (with_partial (c ∷ text) x)
  | error ↦ some (with_partial [] (put (x.conn.response_buf ++ protocol_error) x))
  | ok (args, consumed) ↦ elim (resp_turn (turns 0) args x) [
    | none ↦ none
    | some y ↦ resp_loop fuel (λ n. turns (suc n)) (drop consumed (c ∷ text)) y
  ]
]

unfoldable pub process_resp : (ℕ → World) → Session → Option Session
process_resp turns x = resp_loop (length x.conn.partial) turns x.conn.partial x
