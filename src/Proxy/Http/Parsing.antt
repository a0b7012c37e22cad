-- ===== src/Proxy/Http/Parsing.antt =====
-- What `parse_http_request_line` makes of a whole head: the three words of the request line, the test
-- of the headers, and the head without headers.
use socketley.Prelude.{◌≡◌, ◌∙◌, ap, sym, arith, true, not, none, some, List, ◌∷◌, ◌++◌, Bytes}
use mathlib.Core.List.{append_assoc}
use socketley.Proxy.Http.{
  head_end, split_at, Request, smuggles, check_headers, parse_http_request_line,
}
use socketley.Proxy.Http.Laws.{
  is_plain, is_word, all_tidy, inner, split_at-line_end, split_at-blank, split_at-inner,
  split_at-last, header_lines-inner, drop-line, length-line,
}

abbrev pub request_line : Bytes → Bytes → Bytes → Bytes
request_line verb target last = verb ++ 32 ∷ (target ++ 32 ∷ last)

module _ (verb target last : Bytes) (verb_word : is_word verb ≡ true)
    (target_word : is_word target ≡ true) (plain : is_plain (request_line verb target last) ≡ true)
    (conn : Request) where
  abbrev line : Bytes
  line = request_line verb target last

  abbrev read : Bytes → Request
  read text = record conn { method = verb; path = target; version = last; partial = text }

  -- The request line is split into its words, and the headers are checked.
  parse-line :
      (rest : Bytes)
      → parse_http_request_line (record conn { partial = line ++ 13 ∷ 10 ∷ rest })
        ≡ check_headers line (read (line ++ 13 ∷ 10 ∷ rest))
  unfolding parse_http_request_line
  parse-line rest = ground (
    arith,
    split_at-line_end line rest plain,
    split_at-blank verb (target ++ 32 ∷ last) verb_word,
    split_at-blank target last target_word,
  )

  -- A request whose line has three words, the first two without a blank and no carriage return in the
  -- line, and that has no header makes the proxy read outside its buffer, whatever body follows.
  pub parse-no_headers :
      (body : Bytes)
      → parse_http_request_line (record conn { partial = line ++ (head_end ++ body) }) ≡ none
  unfolding check_headers
  parse-no_headers body =
      parse-line (13 ∷ 10 ∷ body) ∙ ground (arith, split_at-last line body plain)

  -- A request whose line has three words, the first two without a blank and no carriage return in the
  -- line, and that has at least one header, none empty or with a carriage return, is split into these
  -- words, and accepted exactly where its headers do not hold both a length and a transfer encoding.
  pub parse-headers :
      (h : Bytes) (hs : List Bytes) (body : Bytes)
      → all_tidy (h ∷ hs) ≡ true
      → parse_http_request_line
          (record conn { partial = line ++ 13 ∷ 10 ∷ (inner h hs ++ (head_end ++ body)) })
        ≡ some
            (not (smuggles (h ∷ hs)), read (line ++ 13 ∷ 10 ∷ (inner h hs ++ (head_end ++ body))))
  unfolding check_headers
  parse-headers h hs body t =
      let text = line ++ 13 ∷ 10 ∷ (inner h hs ++ (head_end ++ body)) in
      let whole : split_at head_end text ≡ some (line ++ 13 ∷ 10 ∷ inner h hs, body) =
        ap (split_at head_end) (sym (append_assoc line (13 ∷ 10 ∷ inner h hs) (head_end ++ body)))
        ∙ split_at-inner line (h ∷ hs) body plain t in
      parse-line (inner h hs ++ (head_end ++ body))
      ∙ ground (
        arith,
        whole,
        length-line line (inner h hs),
        drop-line line (inner h hs),
        header_lines-inner h hs t,
      )
