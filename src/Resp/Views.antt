-- ===== src/Resp/Views.antt =====
-- `parse_message_views`, with its paths for one digit, succeeds exactly where `parse_message` does;
-- and the encoders with such paths write what the plain ones write.
use mathlib.Core.List.{append_assoc}
use socketley.Prelude.{
  ℕ, zero, suc, ◌+◌, ◌-◌, ◌≤◌, ◌≡◌, refl, ap, true, Option, none, some, List, [], ◌∷◌, ◌++◌, Bytes,
  arith, length, inl, inr, Bool-cases, Option-cases, leb→le, leb,
}
use socketley.Prelude.Int.{ℤ, pos, negsuc}
use socketley.Prelude.Words.{to_chars, decimal, decimal_of, from_chars, read_digits, is_digit}
use socketley.Resp.Encode.{
  crlf, encode_bulk, encode_bulk_into, encode_integer, encode_integer_into, encode_array_header,
  encode_array_header_into,
}
use socketley.Resp.Decode.{
  find_crlf, ParseResult, ok, incomplete, error, bounded_number, parse_bulk, parse_bulks,
  parse_message, collect, bulk_view, bulk_view_slow, bulk_views, count_view, count_slow,
  parse_message_views, resp_max_bulk_len, resp_max_array_size,
}
use socketley.Resp.RoundTrip.{find_crlf_of_digits}

bounded_number_of_digit :
    (limit d : ℕ) → 9 ≤ limit → is_digit d ≡ true → bounded_number limit (d ∷ []) ≡ some (d - 48)
unfolding bounded_number from_chars read_digits
bounded_number_of_digit limit d h digit = ground arith

-- With four bytes left the two readings of an argument are one.
bulk_view-eq :
    (c d e f : ℕ) (text : Bytes)
    → bulk_view (c ∷ d ∷ e ∷ f ∷ text) ≡ parse_bulk (c ∷ d ∷ e ∷ f ∷ text)
unfolding bulk_view bulk_view_slow parse_bulk
bulk_view-eq c d e f text = ground (
  arith,
  find_crlf_of_digits (d ∷ []) text,
  bounded_number_of_digit resp_max_bulk_len d (omega arith),
)

bounded_number-nil : (limit : ℕ) → bounded_number limit [] ≡ none
unfolding bounded_number from_chars
bounded_number-nil limit = refl

-- The result of a parser where it succeeds.
abbrev pub success {ℓ} : {A : Type ℓ} → ParseResult A → Option A
success (ok a) = some a
success incomplete = none
success error = none

-- With fewer, neither succeeds.
bulk_view-success : (p : Bytes) → success (bulk_view p) ≡ success (parse_bulk p)
unfolding parse_bulk bulk_view find_crlf
bulk_view-success [] = refl
bulk_view-success (c ∷ []) = ground arith
bulk_view-success (c ∷ d ∷ []) = ground arith
bulk_view-success (c ∷ d ∷ e ∷ []) = ground (arith, bounded_number-nil resp_max_bulk_len)
bulk_view-success (c ∷ d ∷ e ∷ f ∷ text) = ap success (bulk_view-eq c d e f text)

collect-success :
    (x y : ParseResult (Bytes × Bytes)) (f g : Bytes → ParseResult (List Bytes × Bytes))
    → success x ≡ success y
    → ((p : Bytes) → success (f p) ≡ success (g p))
    → success (collect x f) ≡ success (collect y g)
unfolding collect
collect-success (ok (arg, q)) (ok (arg', q')) f g e h = ground (arith, h q)
collect-success (ok (arg, q)) incomplete f g e h = ground arith
collect-success (ok (arg, q)) error f g e h = ground arith
collect-success incomplete (ok (arg, q)) f g e h = ground arith
collect-success error (ok (arg, q)) f g e h = ground arith
collect-success incomplete incomplete f g e h = refl
collect-success incomplete error f g e h = refl
collect-success error incomplete f g e h = refl
collect-success error error f g e h = refl

bulk_views-success :
    (count : ℕ) (p : Bytes) → success (bulk_views count p) ≡ success (parse_bulks count p)
unfolding parse_bulks bulk_views
bulk_views-success zero p = refl
bulk_views-success (suc count) p =
    collect-success (bulk_view p) (parse_bulk p) (bulk_views count) (parse_bulks count)
      (bulk_view-success p) (bulk_views-success count)

pub count_view-eq : (text : Bytes) → count_view text ≡ count_slow text
unfolding count_view
count_view-eq [] = refl
count_view-eq (d ∷ []) = refl
count_view-eq (d ∷ e ∷ []) = refl
count_view-eq (d ∷ e ∷ f ∷ text) =
    unfold count_slow in
    ground (
      arith,
      find_crlf_of_digits (d ∷ []) text,
      bounded_number_of_digit resp_max_array_size d (omega arith),
    )

-- The number of arguments that a message announces, where it can be read.
unfoldable pub announced : Bytes → ℕ
announced [] = 0
announced (c ∷ text) = elim (count_slow text) [ ok (count, p) ↦ count | _ ↦ 0 ]

-- With room for the arguments announced, the parser without allocation succeeds exactly where
-- `parse_message` does, with the same arguments and the same count of bytes.
pub parse_message_views-success :
    (max_args : ℕ) (buf : Bytes)
    → announced buf ≤ max_args
    → success (parse_message_views max_args buf) ≡ success (parse_message buf)
unfolding parse_message_views parse_message announced count_slow
parse_message_views-success max_args [] room = refl
parse_message_views-success max_args (c ∷ text) room = elim (Option-cases (find_crlf text)) [
  | inl short ↦ ground (arith, count_view-eq text)
  | inr ((line, p), found) ↦ elim (Option-cases (bounded_number resp_max_array_size line)) [
    | inl bad ↦ ground (arith, count_view-eq text)
    | inr (count, read) ↦ ground (arith, count_view-eq text, bulk_views-success count p)
  ]
]

-- The encoders with a path for small numbers append what the plain encoders return.
decimal_of_digit : (n : ℕ) → n ≤ 9 → decimal n ≡ (48 + n) ∷ []
unfolding decimal decimal_of
decimal_of_digit n h = ground arith

encode_bulk_into-eq : (buf str : Bytes) → encode_bulk_into buf str ≡ buf ++ encode_bulk str
unfolding encode_bulk_into encode_bulk to_chars
encode_bulk_into-eq buf str = elim (Bool-cases (leb (length str) 9)) [
  | inl small ↦
      rw (small, decimal_of_digit (length str) (leb→le (length str) 9 small)) (simp append_assoc)
  | inr large ↦ rw large (simp append_assoc)
]

header-append :
    (buf text : Bytes) (c : ℕ) → ((buf ++ c ∷ []) ++ text) ++ crlf ≡ buf ++ ((c ∷ text) ++ crlf)
header-append buf text c = simp append_assoc

encode_integer_into-eq : (buf : Bytes) (n : ℤ) → encode_integer_into buf n ≡ buf ++ encode_integer n
unfolding encode_integer_into encode_integer to_chars
encode_integer_into-eq buf (pos n) =
    ground (arith, header-append buf (decimal n) b':', decimal_of_digit n)
encode_integer_into-eq buf (negsuc n) =
    ground (arith, header-append buf (b'-' ∷ decimal (suc n)) b':', decimal_of_digit (suc n))

encode_array_header_into-eq :
    (buf : Bytes) (n : ℤ) → encode_array_header_into buf n ≡ buf ++ encode_array_header n
unfolding encode_array_header_into encode_array_header to_chars
encode_array_header_into-eq buf (pos n) =
    ground (arith, header-append buf (decimal n) b'*', decimal_of_digit n)
encode_array_header_into-eq buf (negsuc n) = header-append buf (b'-' ∷ decimal (suc n)) b'*'

-- The three encoders that have a path for one digit append exactly what their counterparts return.
pub encode_into-eq :
    (buf str : Bytes) (n : ℤ)
    → (encode_bulk_into buf str ≡ buf ++ encode_bulk str)
      × (encode_integer_into buf n ≡ buf ++ encode_integer n)
      × (encode_array_header_into buf n ≡ buf ++ encode_array_header n)
encode_into-eq buf str n =
    (encode_bulk_into-eq buf str, encode_integer_into-eq buf n, encode_array_header_into-eq buf n)
