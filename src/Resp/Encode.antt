-- ===== src/Resp/Encode.antt =====
-- The encoders of resp_parser.h. Those whose names end in `_into` append to a buffer; the allocating
-- ones return a text.
use socketley.Prelude.{◌+◌, [], ◌∷◌, ◌++◌, Bytes, length, leb, ◌==◌, if◌then◌else◌}
use socketley.Prelude.Int.{ℤ, pos, negsuc}
use socketley.Prelude.Words.{to_chars}

abbrev pub crlf : Bytes
crlf = 13 ∷ 10 ∷ []

abbrev pub resp_ok : Bytes
resp_ok = b'+' ∷ b'O' ∷ b'K' ∷ 13 ∷ 10 ∷ []

abbrev pub resp_null : Bytes
resp_null = b'$' ∷ b'-' ∷ b'1' ∷ 13 ∷ 10 ∷ []

abbrev pub err_prefix : Bytes
err_prefix = b'-' ∷ b'E' ∷ b'R' ∷ b'R' ∷ 32 ∷ []

unfoldable pub encode_ok_into : Bytes → Bytes
encode_ok_into buf = buf ++ resp_ok

unfoldable pub encode_null_into : Bytes → Bytes
encode_null_into buf = buf ++ resp_null

unfoldable pub encode_error_into : Bytes → Bytes → Bytes
encode_error_into buf msg = ((buf ++ err_prefix) ++ msg) ++ crlf

unfoldable pub encode_simple_into : Bytes → Bytes → Bytes
encode_simple_into buf msg = ((buf ++ b'+' ∷ []) ++ msg) ++ crlf

-- The numbers from -2 to 1 have their texts in constants.
unfoldable pub encode_integer_into : Bytes → ℤ → Bytes
encode_integer_into buf (pos n) =
    if n == 0
    then buf ++ b':' ∷ b'0' ∷ crlf
    else if n == 1
    then buf ++ b':' ∷ b'1' ∷ crlf
    else ((buf ++ b':' ∷ []) ++ to_chars (pos n)) ++ crlf
encode_integer_into buf (negsuc n) =
    if n == 0
    then buf ++ b':' ∷ b'-' ∷ b'1' ∷ crlf
    else if n == 1
    then buf ++ b':' ∷ b'-' ∷ b'2' ∷ crlf
    else ((buf ++ b':' ∷ []) ++ to_chars (negsuc n)) ++ crlf

-- A length of one digit has its header built by hand.
unfoldable pub encode_bulk_into : Bytes → Bytes → Bytes
encode_bulk_into buf str =
    if leb (length str) 9
    then ((buf ++ b'$' ∷ (48 + length str) ∷ crlf) ++ str) ++ crlf
    else ((((buf ++ b'$' ∷ []) ++ to_chars (pos (length str))) ++ crlf) ++ str) ++ crlf

unfoldable pub encode_array_header_into : Bytes → ℤ → Bytes
encode_array_header_into buf (pos n) =
    if leb n 9
    then buf ++ b'*' ∷ (48 + n) ∷ crlf
    else ((buf ++ b'*' ∷ []) ++ to_chars (pos n)) ++ crlf
encode_array_header_into buf (negsuc n) = ((buf ++ b'*' ∷ []) ++ to_chars (negsuc n)) ++ crlf

unfoldable pub encode_ok : Bytes
encode_ok = resp_ok

unfoldable pub encode_error : Bytes → Bytes
encode_error msg = (err_prefix ++ msg) ++ crlf

unfoldable pub encode_integer : ℤ → Bytes
encode_integer n = (b':' ∷ to_chars n) ++ crlf

unfoldable pub encode_bulk : Bytes → Bytes
encode_bulk str = (((b'$' ∷ to_chars (pos (length str))) ++ crlf) ++ str) ++ crlf

unfoldable pub encode_null : Bytes
encode_null = resp_null

unfoldable pub encode_array_header : ℤ → Bytes
encode_array_header n = (b'*' ∷ to_chars n) ++ crlf

unfoldable pub encode_simple : Bytes → Bytes
encode_simple msg = (b'+' ∷ msg) ++ crlf
