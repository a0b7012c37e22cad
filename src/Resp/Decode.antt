-- ===== src/Resp/Decode.antt =====
-- The two parsers of resp_parser.h. A read pointer is the list of bytes that are left.
use socketley.Prelude.{
  ℕ, zero, suc, ◌+◌, ◌-◌, ◌*◌, ◌^◌, ◌&&◌, not, Option, none, some, List, [], ◌∷◌, Bytes, length,
  take, drop, ltb, leb, ◌==◌, if◌then◌else◌,
}
use socketley.Prelude.Int.{pos}
use socketley.Prelude.Words.{from_chars, value}

abbrev pub resp_max_array_size : ℕ
resp_max_array_size = 1024

abbrev pub resp_max_bulk_len : ℕ
resp_max_bulk_len = 512 * 1024

-- `find_crlf`: the bytes before the first CR LF, and those behind it.
unfoldable pub find_crlf : Bytes → Option (Bytes × Bytes)
find_crlf [] = none
find_crlf (c ∷ []) = none
find_crlf (c ∷ d ∷ text) =
    let rest : Option (Bytes × Bytes) = elim (find_crlf (d ∷ text)) [
      | none ↦ none
      | some (line, behind) ↦ some (c ∷ line, behind)
    ] in
    if c == 13 && d == 10 then some ([], text) else rest

pub data ParseResult {ℓ} (A : Type ℓ) : Type ℓ where
  ok : A → ParseResult A
  incomplete error : ParseResult A

-- A number in a line that `from_chars` reads, between 0 and a limit; what follows its digits is not
-- looked at.
unfoldable pub bounded_number : ℕ → Bytes → Option ℕ
bounded_number limit line = elim (from_chars (2 ^ 31) line) [
  | value (pos n) _ ↦ if leb n limit then some n else none
  | _ ↦ none
]

-- One argument of `parse_message`: its text, and what is left.
unfoldable pub parse_bulk : Bytes → ParseResult (Bytes × Bytes)
parse_bulk [] = incomplete
parse_bulk (c ∷ text) = if not (c == b'$') then error else elim (find_crlf text) [
  | none ↦ incomplete
  | some (line, p) ↦ elim (bounded_number resp_max_bulk_len line) [
    | none ↦ error
    | some len ↦ if ltb (length p) (len + 2) then incomplete else ok (take len p, drop (len + 2) p)
  ]
]

-- One argument and, if it is read, those behind it.
unfoldable pub collect :
    ParseResult (Bytes × Bytes)
    → (Bytes → ParseResult (List Bytes × Bytes))
    → ParseResult (List Bytes × Bytes)
collect (ok (arg, q)) more = elim (more q) [
  | ok (args, t) ↦ ok (arg ∷ args, t)
  | incomplete ↦ incomplete
  | error ↦ error
]
collect incomplete more = incomplete
collect error more = error

-- The loop over the arguments.
unfoldable pub parse_bulks : ℕ → Bytes → ParseResult (List Bytes × Bytes)
parse_bulks zero p = ok ([], p)
parse_bulks (suc count) p = collect (parse_bulk p) (parse_bulks count)

-- `parse_message`: the arguments, and how many bytes were consumed.
unfoldable pub parse_message : Bytes → ParseResult (List Bytes × ℕ)
parse_message [] = incomplete
parse_message (c ∷ text) = if not (c == b'*') then error else elim (find_crlf text) [
  | none ↦ incomplete
  | some (line, p) ↦ elim (bounded_number resp_max_array_size line) [
    | none ↦ error
    | some count ↦ elim (parse_bulks count p) [
      | ok (args, rest) ↦ ok (args, length (c ∷ text) - length rest)
      | incomplete ↦ incomplete
      | error ↦ error
    ]
  ]
]

-- One argument of `parse_message_views`: four bytes at least, and a length of one digit has a path
-- of its own.
unfoldable pub bulk_view_slow : Bytes → ParseResult (Bytes × Bytes)
bulk_view_slow text = elim (find_crlf text) [
  | none ↦ incomplete
  | some (line, p) ↦ elim (bounded_number resp_max_bulk_len line) [
    | none ↦ error
    | some len ↦ if ltb (length p) (len + 2) then incomplete else ok (take len p, drop (len + 2) p)
  ]
]

unfoldable pub bulk_view : Bytes → ParseResult (Bytes × Bytes)
bulk_view (c ∷ d ∷ e ∷ f ∷ text) =
    if not (c == b'$')
    then error
    else if leb b'0' d && leb d b'9' && e == 13 && f == 10
    then (if ltb (length text) (d - b'0' + 2)
        then incomplete
        else ok (take (d - b'0') text, drop (d - b'0' + 2) text))
    else bulk_view_slow (d ∷ e ∷ f ∷ text)
bulk_view _ = incomplete

unfoldable pub bulk_views : ℕ → Bytes → ParseResult (List Bytes × Bytes)
bulk_views zero p = ok ([], p)
bulk_views (suc count) p = collect (bulk_view p) (bulk_views count)

-- The count of the arguments, by the path for one digit from 1 to 9 or by the general one.
unfoldable pub count_slow : Bytes → ParseResult (ℕ × Bytes)
count_slow text = elim (find_crlf text) [
  | none ↦ incomplete
  | some (line, p) ↦ elim (bounded_number resp_max_array_size line) [
    | none ↦ error
    | some count ↦ ok (count, p)
  ]
]

unfoldable pub count_view : Bytes → ParseResult (ℕ × Bytes)
count_view (d ∷ e ∷ f ∷ text) =
    if leb b'1' d && leb d b'9' && e == 13 && f == 10
    then ok (d - b'0', text)
    else count_slow (d ∷ e ∷ f ∷ text)
count_view text = count_slow text

-- `parse_message_views`, with room for `max_args` arguments.
unfoldable pub parse_message_views : ℕ → Bytes → ParseResult (List Bytes × ℕ)
parse_message_views max_args [] = incomplete
parse_message_views max_args (c ∷ text) =
    if not (c == b'*') then error else elim (count_view text) [
      | ok (count, p) ↦ if ltb max_args count then error else elim (bulk_views count p) [
        | ok (args, rest) ↦ ok (args, length (c ∷ text) - length rest)
        | incomplete ↦ incomplete
        | error ↦ error
      ]
      | incomplete ↦ incomplete
      | error ↦ error
    ]

-- `to_lower`
unfoldable pub to_lower : Bytes → Bytes
to_lower [] = []
to_lower (c ∷ s) = (if leb b'A' c && leb c b'Z' then c + 32 else c) ∷ to_lower s
