-- ===== src/Resp/RoundTrip.antt =====
-- What the encoders write, the parsers read; and the two parsers agree.
use socketley.Prelude.{
  ℕ, ◌+◌, ◌≤◌, ◌<◌, ◌^◌, ◌≡◌, refl, ap, true, some, List, [], ◌∷◌, ◌++◌, Bytes, arith, length, take,
  drop, length-append,
}
use mathlib.Core.List.{append_assoc}
use socketley.Prelude.Int.{pos}
use socketley.Prelude.Words.{to_chars, decimal}
use socketley.Prelude.Decimal.{from_chars-decimal, all_digits, all_digits-decimal}
use socketley.Resp.Encode.{encode_bulk, encode_array_header}
use socketley.Resp.Decode.{
  find_crlf, ok, bounded_number, parse_bulk, parse_bulks, collect, parse_message, resp_max_bulk_len,
  resp_max_array_size,
}

pub find_crlf_of_digits :
    (line text : Bytes)
    → all_digits line ≡ true
    → find_crlf (line ++ 13 ∷ 10 ∷ text) ≡ some (line, text)
unfolding find_crlf
find_crlf_of_digits [] text h = refl
find_crlf_of_digits (c ∷ []) text h = ground arith
find_crlf_of_digits (c ∷ d ∷ line) text h = ground (arith, find_crlf_of_digits (d ∷ line) text)

pub bounded_number-decimal :
    (limit n : ℕ) → n ≤ limit → n < 2 ^ 31 → bounded_number limit (decimal n) ≡ some n
unfolding bounded_number
bounded_number-decimal limit n h k = rw (from_chars-decimal, bounded_number) (ground arith)

-- A bulk string in front of a rest, bracketed as the parser meets it.
encode_bulk-append :
    (arg rest : Bytes)
    → encode_bulk arg ++ rest ≡ b'$' ∷ (decimal (length arg) ++ 13 ∷ 10 ∷ (arg ++ 13 ∷ 10 ∷ rest))
unfolding encode_bulk to_chars
encode_bulk-append arg rest = simp append_assoc

take-append : (xs ys : Bytes) → take (length xs) (xs ++ ys) ≡ xs
take-append [] ys = refl
take-append (x ∷ xs) ys = ap (◌∷◌ x) (take-append xs ys)

drop_crlf : (xs ys : Bytes) → drop (length xs + 2) (xs ++ 13 ∷ 10 ∷ ys) ≡ ys
drop_crlf [] ys = refl
drop_crlf (x ∷ xs) ys = ground (arith, drop_crlf xs ys)

parse_bulk-encode_bulk :
    (arg rest : Bytes)
    → length arg ≤ resp_max_bulk_len
    → parse_bulk (encode_bulk arg ++ rest) ≡ ok (arg, rest)
unfolding parse_bulk
parse_bulk-encode_bulk arg rest h =
    let n = length arg in
    let behind = arg ++ 13 ∷ 10 ∷ rest in
    rw encode_bulk-append (
      ground (
        arith,
        find_crlf_of_digits (decimal n) behind (all_digits-decimal n),
        bounded_number-decimal resp_max_bulk_len n h (omega arith),
        length-append arg (13 ∷ 10 ∷ rest),
        take-append arg (13 ∷ 10 ∷ rest),
        drop_crlf arg rest,
      ))

-- The arguments one behind the other.
unfoldable pub encode_bulks : List Bytes → Bytes
encode_bulks [] = []
encode_bulks (arg ∷ args) = encode_bulk arg ++ encode_bulks args

-- A command as a client sends it.
unfoldable pub encode_command : List Bytes → Bytes
encode_command args = encode_array_header (pos (length args)) ++ encode_bulks args

abbrev pub AllShort : List Bytes → Type 0
AllShort [] = Unit {0}
AllShort (arg ∷ args) = (length arg ≤ resp_max_bulk_len) × AllShort args

parse_bulks-encode_bulks :
    (args : List Bytes) (rest : Bytes)
    → AllShort args
    → parse_bulks (length args) (encode_bulks args ++ rest) ≡ ok (args, rest)
unfolding parse_bulks encode_bulks collect
parse_bulks-encode_bulks [] rest h = refl
parse_bulks-encode_bulks (arg ∷ args) rest h = rw append_assoc (
    ground (
      arith,
      parse_bulk-encode_bulk arg (encode_bulks args ++ rest) h.0,
      parse_bulks-encode_bulks args rest h.1,
    ))

pub encode_command-append :
    (args : List Bytes) (rest : Bytes)
    → encode_command args ++ rest
      ≡ b'*' ∷ (decimal (length args) ++ 13 ∷ 10 ∷ (encode_bulks args ++ rest))
unfolding encode_command encode_array_header to_chars
encode_command-append args rest = simp append_assoc

-- A command is read back, whatever follows it in the buffer, and exactly its bytes are consumed.
pub parse_message-encode_command :
    (args : List Bytes) (rest : Bytes)
    → length args ≤ resp_max_array_size
    → AllShort args
    → parse_message (encode_command args ++ rest) ≡ ok (args, length (encode_command args))
unfolding parse_message
parse_message-encode_command args rest few short =
    let n = length args in
    let body = encode_bulks args ++ rest in
    let whole = length-append (encode_command args) rest in
    let layout = ap length (encode_command-append args rest) in
    rw encode_command-append (
      ground (
        arith,
        find_crlf_of_digits (decimal n) body (all_digits-decimal n),
        bounded_number-decimal resp_max_array_size n few (omega arith),
        parse_bulks-encode_bulks args rest short,
        whole,
        layout,
      ))
