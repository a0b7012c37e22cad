-- ===== src/Tests/Proxies.antt =====
-- Requests through the proxy and a choice of a backend, on small inputs.
use socketley.Prelude.{
  ℕ, ◌+◌, ◌≡◌, refl, arith, true, false, not, ◌&&◌, ◌||◌, Option, none, some, List, [], ◌∷◌, ◌++◌,
  Bytes, codes, drop,
}
use socketley.Proxy.Http.{
  line_end, head_end, header_name_equals, first_is, is_content_length, is_transfer_encoding,
  is_hop_by_hop, closes, some_line, smuggles, lowered_is, Request, parse_http_request_line,
  rewrite_http_request,
}
use socketley.Config.Json.{until_char}
use socketley.Prelude.Int.{ℤ, pos}
use socketley.Proxy.Backends.{
  circuit_closed, circuit_open, Proxy, strategy_round_robin, is_backend_available, half_open_first,
  next_available, select_next, select_in_mesh, select_backend, half_opened,
}
use socketley.Proxy.Backends.Choice.{Chosen, select_backend-Chosen}
use socketley.Proxy.Http.Laws.{inner}
use socketley.Proxy.Http.Names.{is_content_length-eq}
use socketley.Proxy.Http.Parsing.{request_line, parse-no_headers, parse-headers}
use socketley.Proxy.Http.Rewriting.{sent, completed, intent, rewrite_http_request_lem}

abbrev get_line : Bytes
get_line = request_line (codes "GET") (codes "/p/x") (codes "HTTP/1.1")

abbrev headers : List Bytes
headers = codes "TE: gzip" ∷ codes "Content-Length: 2" ∷ []

abbrev accepting : Request
accepting = record { method = []; path = []; version = []; partial = []; client_conn_close = false }

abbrev parsed : Bytes → Request
parsed text = record {
  method = codes "GET";
  path = codes "/p/x";
  version = codes "HTTP/1.1";
  partial = text;
  client_conn_close = false;
}

abbrev message : Bytes
message = get_line ++ 13 ∷ 10 ∷ (inner (codes "Host: a") headers ++ (head_end ++ codes "ok"))

abbrev backend : Option (Bytes × ℕ)
backend = some (codes "10.0.0.1", 80)

parse-no_headers_example :
    parse_http_request_line (record accepting { partial = get_line ++ (head_end ++ []) }) ≡ none
parse-no_headers_example =
    parse-no_headers (codes "GET") (codes "/p/x") (codes "HTTP/1.1") refl refl refl accepting []

parse-headers_example :
    parse_http_request_line (record accepting { partial = message })
    ≡ some (not (smuggles (codes "Host: a" ∷ headers)), parsed message)
parse-headers_example =
    parse-headers (codes "GET") (codes "/p/x") (codes "HTTP/1.1") refl refl refl accepting
      (codes "Host: a") headers (codes "ok") refl

is_content_length-eq_example :
    (is_transfer_encoding (codes "content-length: 2")
      ≡ header_name_equals (codes "content-length: 2") (codes "transfer-encoding"))
    × (is_content_length (codes "content-length: 2") ≡ (
        header_name_equals (codes "content-length: 2") (codes "content-length")
        && first_is b'-' b'-' (drop 7 (codes "content-length: 2"))))
is_content_length-eq_example = is_content_length-eq (codes "content-length: 2")

rewrite_http_request_lem_example :
    (rewrite_http_request backend (codes "/x") (parsed message)
      ≡ some (
        sent (
              (codes "GET" ++ 32 ∷ (codes "/x" ++ 32 ∷ codes "HTTP/1.1"))
              ∷ (completed backend (codes "Host: a" ∷ headers)
                  ++ intent (false || some_line closes (codes "Host: a" ∷ headers)) ∷ []))
            ++ (line_end ++ codes "ok"),
        record accepting {
          method = codes "GET";
          path = codes "/p/x";
          version = codes "HTTP/1.1";
          client_conn_close = false || some_line closes (codes "Host: a" ∷ headers);
        },
      ))
    × (some_line is_hop_by_hop (completed backend (codes "Host: a" ∷ headers)) ≡ false)
rewrite_http_request_lem_example =
    rewrite_http_request_lem backend (codes "/x") (parsed []) get_line (codes "Host: a") headers
      (codes "ok") refl refl

-- A head with a length and an encoding is refused.
refused : smuggles (codes "Content-Length: 2" ∷ codes "Transfer-Encoding: chunked" ∷ []) ≡ true
unfolding some_line is_content_length is_transfer_encoding until_char lowered_is
refused = refl

-- Two backends, of which the first has failed five times, ten seconds ago.
abbrev pool : Proxy
pool = record {
  m_backends = (codes "10.0.0.1", 80) ∷ (codes "10.0.0.2", 80) ∷ [];
  m_backend_health = true ∷ true ∷ [];
  m_circuit_breakers =
      record { current = circuit_open; error_count = 5; opened_at = pos 0 }
      ∷ record { current = circuit_closed; error_count = 0; opened_at = pos 0 }
      ∷ [];
  m_rr_index = 0;
  m_strategy = strategy_round_robin;
  checks_health = false;
  circuit_threshold = pos 5;
  circuit_timeout = pos 30;
}

abbrev soon : ℤ
soon = pos 10_000_000_000

-- The readings of the loop, each a nanosecond later.
abbrev ticks : ℕ → ℤ
ticks k = pos (10_000_000_001 + k)

second_chosen :
    select_backend soon ticks none (λ n. 0) pool ≡ some (some 1, record pool { m_rr_index = 2 })
unfolding select_backend select_in_mesh select_next next_available is_backend_available
    half_open_first half_opened
second_chosen = refl

select_backend-Chosen_example : Chosen soon ticks 1 pool (record pool { m_rr_index = 2 })
select_backend-Chosen_example =
    select_backend-Chosen soon ticks none (λ n. 0) pool (record pool { m_rr_index = 2 }) 1
      (omega arith) refl second_chosen
