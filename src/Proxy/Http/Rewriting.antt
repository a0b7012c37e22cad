-- ===== src/Proxy/Http/Rewriting.antt =====
-- What `rewrite_http_request` sends to the backend, as a list of lines.
use socketley.Prelude.{
  ℕ, ◌≡◌, ◌∙◌, refl, ap, sym, arith, Bool, true, false, ◌||◌, Option, none, some, List, [], ◌∷◌,
  ◌++◌, Bytes, codes, Bool-cases, inl, inr, if◌then◌else◌,
}
use mathlib.Core.List.{append_assoc}
use socketley.Prelude.Words.{decimal}
use socketley.Proxy.Http.{
  line_end, head_end, header_name_equals, Request, some_line, host_line, is_host, is_hop_by_hop,
  closes, forward_line, forward_lines, added_host, connection_line, rewrite_http_request,
}
use socketley.Proxy.Http.Laws.{
  is_plain, all_tidy, inner, split_at-line_end, split_at-inner, header_lines-inner,
  is_tidy-is_plain,
}

-- Lines as they are sent.
abbrev pub sent : List Bytes → Bytes
sent [] = []
sent (line ∷ lines) = line ++ (line_end ++ sent lines)

abbrev pub host_of : Bytes × ℕ → Bytes
host_of (host, port) = codes "Host: " ++ (host ++ (b':' ∷ decimal port))

-- The headers that go through, in their order: none that is for one connection only, and the host is
-- that of the backend.
abbrev pub forwarded : Option (Bytes × ℕ) → List Bytes → List Bytes
forwarded backend [] = []
forwarded backend (line ∷ lines) =
    let rest = forwarded backend lines in
    if is_host line
    then (elim backend [ none ↦ line | some b ↦ host_of b ]) ∷ rest
    else if is_hop_by_hop line
    then rest
    else line ∷ rest

-- With a backend and no host among the headers, one more.
abbrev pub completed : Option (Bytes × ℕ) → List Bytes → List Bytes
completed none lines = forwarded none lines
completed (some b) lines =
    if some_line is_host lines
    then forwarded (some b) lines
    else forwarded (some b) lines ++ host_of b ∷ []

sent-append : (xs ys : List Bytes) → sent (xs ++ ys) ≡ sent xs ++ sent ys
sent-append [] ys = refl
sent-append (x ∷ xs) ys =
    ground (arith, sent-append xs ys, append_assoc x (line_end ++ sent xs) (sent ys))

host_line-eq : (b : Bytes × ℕ) → host_line b ≡ host_of b ++ line_end
unfolding host_line
host_line-eq (host, port) =
    ap (λ t. codes "Host: " ++ t) (sym (append_assoc host (b':' ∷ decimal port) line_end))

forward_lines-eq :
    (backend : Option (Bytes × ℕ)) (lines : List Bytes)
    → forward_lines backend lines ≡ sent (forwarded backend lines)
unfolding forward_lines forward_line
forward_lines-eq backend [] = refl
forward_lines-eq none (line ∷ lines) =
    ground
      (arith, forward_lines-eq none lines, append_assoc line line_end (sent (forwarded none lines)))
forward_lines-eq (some b) (line ∷ lines) = ground (
  arith,
  forward_lines-eq (some b) lines,
  host_line-eq b,
  append_assoc line line_end (sent (forwarded (some b) lines)),
  append_assoc (host_of b) line_end (sent (forwarded (some b) lines)),
)

rewritten_tail :
    (backend : Option (Bytes × ℕ)) (lines : List Bytes) (rest : Bytes)
    → forward_lines backend lines ++ (added_host backend lines ++ rest)
      ≡ sent (completed backend lines) ++ rest
rewritten_tail none lines rest = ap (λ t. t ++ rest) (forward_lines-eq none lines)
rewritten_tail (some b) lines rest = elim (Bool-cases (some_line is_host lines)) [
  | inl there ↦ ground (arith, forward_lines-eq (some b) lines)
  | inr missing ↦ ground (
    arith,
    forward_lines-eq (some b) lines,
    host_line-eq b,
    sent-append (forwarded (some b) lines) (host_of b ∷ []),
    append_assoc (sent (forwarded (some b) lines)) (host_of b ++ line_end) rest,
  )
]

host_of-hop : (b : Bytes × ℕ) → is_hop_by_hop (host_of b) ≡ false
unfolding header_name_equals
host_of-hop (host, port) = refl

is_host-hop : (line : Bytes) → is_host line ≡ true → is_hop_by_hop line ≡ false
unfolding header_name_equals
is_host-hop [] h = refl
is_host-hop (c ∷ line) h = ground arith

some_line-append :
    (test : Bytes → Bool) (xs ys : List Bytes)
    → some_line test (xs ++ ys) ≡ (some_line test xs || some_line test ys)
unfolding some_line
some_line-append test [] ys = refl
some_line-append test (x ∷ xs) ys = ground (arith, some_line-append test xs ys)

forwarded-hop :
    (backend : Option (Bytes × ℕ)) (lines : List Bytes)
    → some_line is_hop_by_hop (forwarded backend lines) ≡ false
unfolding some_line
forwarded-hop backend [] = refl
forwarded-hop none (line ∷ lines) = ground (arith, forwarded-hop none lines, is_host-hop line)
forwarded-hop (some b) (line ∷ lines) = ground (arith, forwarded-hop (some b) lines, host_of-hop b)

completed-hop :
    (backend : Option (Bytes × ℕ)) (lines : List Bytes)
    → some_line is_hop_by_hop (completed backend lines) ≡ false
unfolding some_line
completed-hop none lines = forwarded-hop none lines
completed-hop (some b) lines = ground (
  arith,
  forwarded-hop (some b) lines,
  host_of-hop b,
  some_line-append is_hop_by_hop (forwarded (some b) lines) (host_of b ∷ []),
)

abbrev pub intent : Bool → Bytes
intent true = codes "Connection: close"
intent false = codes "Connection: keep-alive"

connection_line-eq : (close : Bool) → connection_line close ≡ intent close ++ line_end
connection_line-eq true = refl
connection_line-eq false = refl

layout : (m n v t : Bytes) → m ++ (32 ∷ (n ++ (32 ∷ (v ++ t)))) ≡ (m ++ 32 ∷ (n ++ 32 ∷ v)) ++ t
layout m n v t = simp append_assoc

closed :
    (ls : List Bytes) (last rest : Bytes)
    → sent ls ++ ((last ++ line_end) ++ rest) ≡ sent (ls ++ last ∷ []) ++ rest
closed ls last rest =
    ap (λ t. sent ls ++ t) (append_assoc last line_end rest)
    ∙ ap (λ t. sent ls ++ t) (sym (append_assoc last (line_end ++ []) rest))
    ∙ sym (append_assoc (sent ls) (last ++ (line_end ++ [])) rest)
    ∙ ap (λ t. t ++ rest) (sym (sent-append ls (last ∷ [])))

module _ (backend : Option (Bytes × ℕ)) (new_path : Bytes) (conn : Request) where
  abbrev rewritten : Bool → List Bytes → List Bytes
  rewritten close lines =
      (conn.method ++ 32 ∷ (new_path ++ 32 ∷ conn.version))
      ∷ (completed backend lines ++ intent close ∷ [])

  rewritten_text :
      (close : Bool) (lines : List Bytes) (body : Bytes)
      → conn.method
          ++ (32
              ∷ (new_path
                  ++ (32
                      ∷ (conn.version
                          ++ (line_end
                              ++ (forward_lines backend lines
                                  ++ (added_host backend lines
                                      ++ (connection_line close ++ (line_end ++ body)))))))))
        ≡ sent (rewritten close lines) ++ (line_end ++ body)
  rewritten_text close lines body =
      let x = conn.method ++ 32 ∷ (new_path ++ 32 ∷ conn.version) in
      let head = conn.method in
      ap (λ t. head ++ (32 ∷ (new_path ++ (32 ∷ (conn.version ++ (line_end ++ t))))))
        (rewritten_tail backend lines (connection_line close ++ (line_end ++ body))
          ∙ ap (λ t. sent (completed backend lines) ++ (t ++ (line_end ++ body)))
              (connection_line-eq close)
          ∙ closed (completed backend lines) (intent close) (line_end ++ body))
      ∙ layout head new_path conn.version _
      ∙ ap (λ t. x ++ t)
          (sym (
            append_assoc line_end (sent (completed backend lines ++ intent close ∷ []))
              (line_end ++ body)))
      ∙ sym (
          append_assoc x (line_end ++ sent (completed backend lines ++ intent close ∷ []))
            (line_end ++ body))

  -- A request with at least one header, no line with a carriage return and no header empty, is sent on
  -- as these lines and its body: the method, the new path and the version, the headers that go through
  -- in their order, with the backend in place of each host, or added where there is none, and what
  -- becomes of the connection; and no header that goes through is for one connection only.
  pub rewrite_http_request_lem :
      (line h : Bytes) (hs : List Bytes) (body : Bytes)
      → is_plain line ≡ true
      → all_tidy (h ∷ hs) ≡ true
      → (rewrite_http_request backend new_path
            (record conn { partial = line ++ 13 ∷ 10 ∷ (inner h hs ++ (head_end ++ body)) })
          ≡ some (
            sent (rewritten (conn.client_conn_close || some_line closes (h ∷ hs)) (h ∷ hs))
                ++ (line_end ++ body),
            record conn {
              partial = [];
              client_conn_close = conn.client_conn_close || some_line closes (h ∷ hs);
            },
          ))
        × (some_line is_hop_by_hop (completed backend (h ∷ hs)) ≡ false)
  unfolding rewrite_http_request
  rewrite_http_request_lem line h hs body p t =
      let rest = inner h hs ++ (head_end ++ body) in
      let close = conn.client_conn_close || some_line closes (h ∷ hs) in
      (
        ground (
          arith,
          split_at-line_end line rest p,
          split_at-inner h hs body (is_tidy-is_plain h (ground arith)) (ground arith),
          header_lines-inner h hs t,
          rewritten_text close (h ∷ hs) body,
        ),
        completed-hop backend (h ∷ hs),
      )
