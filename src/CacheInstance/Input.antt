-- ===== src/CacheInstance/Input.antt =====
-- `handle_read`: what a connection does with the bytes that arrive, and with the end of its stream.
pub mod Keeps
use socketley.Prelude.{
  ℕ, suc, ◌^◌, Bool, true, false, not, ◌&&◌, ◌||◌, Option, none, some, List, [], ◌∷◌, ◌++◌, Bytes,
  length, ltb, ◌==◌, if◌then◌else◌,
}
use socketley.Cache.PubSub.{unsubscribe_all}
use socketley.CacheInstance.Connection.{Connection, is_empty_list, flush_responses}
use socketley.CacheInstance.Session.{Session, World, with_store}
use socketley.CacheInstance.Pipeline.{with_partial, process_resp}
use socketley.CacheInstance.Text.Dispatch.{process_command}

-- The lines that are whole, and what stands behind the last newline.
unfoldable pub cut_lines : Bytes → List Bytes × Bytes
cut_lines [] = ([], [])
cut_lines (c ∷ text) =
    let (ls, rest) = cut_lines text in
    if c == 10
    then ([] ∷ ls, rest)
    else elim ls [ [] ↦ ([], c ∷ rest) | l ∷ more ↦ ((c ∷ l) ∷ more, rest) ]

-- A carriage return at the end is dropped.
unfoldable pub strip_cr : Bytes → Bytes
strip_cr [] = []
strip_cr (c ∷ []) = if c == 13 then [] else c ∷ []
strip_cr (c ∷ d ∷ line) = c ∷ strip_cr (d ∷ line)

unfoldable pub text_lines : (ℕ → World) → List Bytes → Session → Option Session
text_lines turns [] x = some x
text_lines turns (line ∷ ls) x = elim (process_command (turns 0) (strip_cr line) x) [
  | none ↦ none
  | some y ↦ text_lines (λ n. turns (suc n)) ls y
]

unfoldable pub process_text : (ℕ → World) → Session → Option Session
process_text turns x = elim (text_lines turns (cut_lines x.conn.partial).0 x) [
  | none ↦ none
  | some y ↦ some (with_partial (cut_lines x.conn.partial).1 y)
]

abbrev pub starts_resp : Bytes → Bool
starts_resp [] = false
starts_resp (c ∷ text) = c == b'*'

-- The first bytes of a connection tell its protocol.
unfoldable pub detect : Session → Session
detect x =
    let c = x.conn in
    if c.resp_detected || is_empty_list c.partial then x else record x {
      conn = record c {
        resp_detected = true;
        resp_mode = c.resp_mode || starts_resp c.partial || x.resp_forced;
      };
    }

unfoldable pub process_partial : (ℕ → World) → Session → Option Session
process_partial turns x =
    let y = detect x in
    elim (if y.conn.resp_mode then process_resp turns y else process_text turns y) [
      | none ↦ none
      | some z ↦ some (record z { conn = flush_responses (turns 0).send_zc z.conn })
    ]

-- The connection is forgotten, at once or when its last write is done.
unfoldable pub close_oversized : Session → Session
close_oversized x =
    let c = x.conn in
    let y = record x { conn = record c { closing = true } } in
    if c.write_pending then y else with_store (unsubscribe_all c.fd x.store) y

abbrev pub max_partial_size : ℕ
max_partial_size = 2 ^ 20

-- Bytes that have arrived.
unfoldable pub handle_data : (ℕ → World) → Bytes → Session → Option Session
handle_data turns bytes x =
    let y = with_partial (x.conn.partial ++ bytes) x in
    if ltb max_partial_size (length y.conn.partial)
    then some (close_oversized y)
    else process_partial turns y

-- The end of the stream, or an error.
unfoldable pub handle_end : Session → Session
handle_end x =
    let c = x.conn in
    record x { store = unsubscribe_all c.fd x.store; conn = record c { closing = true } }
