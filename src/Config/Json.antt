-- ===== src/Config/Json.antt =====
-- The JSON helpers of state_persistence.cpp. A position in the text is what follows it.
use socketley.Prelude.{
  ℕ, zero, suc, ◌-◌, ◌%◌, ◌^◌, Bool, true, false, ◌&&◌, ◌||◌, Option, none, some, List, [], ◌∷◌,
  ◌++◌, Bytes, codes, beq, length, ltb, ◌==◌, if◌then◌else◌,
}
use socketley.Prelude.Int.{ℤ, pos, negsuc, sub_ℕ}
use socketley.Prelude.Words.{in_range, read_digits, starts_with_digit}

abbrev pub quote : ℕ
quote = 34

abbrev pub backslash : ℕ
backslash = 92

-- What one character is written as: the `switch` of `json_escape`.
abbrev pub escaped : ℕ → Bytes
escaped c =
    if c == quote
    then backslash ∷ quote ∷ []
    else if c == backslash
    then backslash ∷ backslash ∷ []
    else if c == 10
    then backslash ∷ b'n' ∷ []
    else if c == 13
    then backslash ∷ b'r' ∷ []
    else if c == 9
    then backslash ∷ b't' ∷ []
    else c ∷ []

unfoldable pub json_escape : Bytes → Bytes
json_escape [] = []
json_escape (c ∷ s) = escaped c ++ json_escape s

unfoldable pub json_escape_into : Bytes → Bytes → Bytes
json_escape_into out [] = out
json_escape_into out (c ∷ s) = json_escape_into (out ++ escaped c) s

-- What a backslash and a character stand for: the `switch` of `json_unescape`.
abbrev pub unescaped : ℕ → Bytes
unescaped c =
    if c == quote
    then quote ∷ []
    else if c == backslash
    then backslash ∷ []
    else if c == b'n'
    then 10 ∷ []
    else if c == b'r'
    then 13 ∷ []
    else if c == b't'
    then 9 ∷ []
    else backslash ∷ c ∷ []

unfoldable pub json_unescape : Bytes → Bytes
json_unescape [] = []
json_unescape (c ∷ []) = c ∷ []
json_unescape (c ∷ d ∷ s) =
    let pair = unescaped d ++ json_unescape s in
    let one = c ∷ json_unescape (d ∷ s) in if c == backslash then pair else one

-- What follows a prefix, if it is there.
unfoldable pub behind_prefix : Bytes → Bytes → Option Bytes
behind_prefix [] text = some text
behind_prefix (c ∷ prefix) [] = none
behind_prefix (c ∷ prefix) (d ∷ text) =
    let rest = behind_prefix prefix text in if c == d then rest else none

-- `json.find(c, pos)`: what follows the character.
unfoldable pub behind_char : ℕ → Bytes → Option Bytes
behind_char c [] = none
behind_char c (d ∷ text) = let rest = behind_char c text in if c == d then some text else rest

abbrev pub is_blank : ℕ → Bool
is_blank c = c == 32 || c == 9 || c == 10 || c == 13

unfoldable pub skip_blanks : Bytes → Bytes
skip_blanks [] = []
skip_blanks (c ∷ text) = let rest = skip_blanks text in if is_blank c then rest else c ∷ text

-- The raw text of a string value, up to the closing quote.
unfoldable pub read_quoted : Bytes → Bytes
read_quoted [] = []
read_quoted (c ∷ []) = if c == quote then [] else c ∷ []
read_quoted (c ∷ d ∷ text) =
    let pair = c ∷ d ∷ read_quoted text in
    let one = c ∷ read_quoted (d ∷ text) in
    if c == quote then [] else if c == backslash then pair else one

-- A value that is no string: up to a comma or a closing bracket, without the blanks at its end.
unfoldable pub read_bare : Bytes → Bytes
read_bare [] = []
read_bare (c ∷ text) =
    let rest = read_bare text in if c == b',' || c == b']' || c == b'}' then [] else c ∷ rest

unfoldable pub trim_end : Bytes → Bytes
trim_end [] = []
trim_end (c ∷ text) = elim (trim_end text) [
  | [] ↦ if is_blank c then [] else c ∷ []
  | d ∷ rest ↦ c ∷ d ∷ rest
]

-- The value behind a key: behind the next colon and the blanks after it.
unfoldable pub value_behind : Bytes → Bytes
value_behind text = elim (behind_char b':' text) [
  | none ↦ []
  | some rest ↦ elim (skip_blanks rest) [
    | [] ↦ []
    | c ∷ more ↦
        if c == quote then json_unescape (read_quoted more) else trim_end (read_bare (c ∷ more))
  ]
]

-- The first place where the key stands between quotes, whatever that place is.
unfoldable pub behind_key : Bytes → Bytes → Option Bytes
behind_key key [] = none
behind_key key (c ∷ text) =
    let later = behind_key key text in
    if c == quote
    then (elim (behind_prefix (key ++ quote ∷ []) text) [ none ↦ later | some rest ↦ some rest ])
    else later

unfoldable pub json_get_string : Bytes → Bytes → Bytes
json_get_string json key = elim (behind_key key json) [ none ↦ [] | some rest ↦ value_behind rest ]

unfoldable pub json_get_bool : Bytes → Bytes → Bool → Bool
json_get_bool json key default_val =
    let v = json_get_string json key in
    if beq v (codes "true") then true else if beq v (codes "false") then false else default_val

-- The blanks of `std::isspace` in the C locale.
unfoldable pub skip_stoi_blanks : Bytes → Bytes
skip_stoi_blanks [] = []
skip_stoi_blanks (c ∷ text) =
    let rest = skip_stoi_blanks text in if c == 32 || (ltb 8 c && ltb c 14) then rest else c ∷ text

-- `std::stoi`: blanks, a sign, digits, and whatever follows; none is an exception.
unfoldable pub stoi : Bytes → Option ℤ
stoi text = elim (skip_stoi_blanks text) [
  | [] ↦ none
  | c ∷ rest ↦
      let digits = if c == b'-' || c == b'+' then rest else c ∷ rest in
      let n = (read_digits 0 digits).0 in
      let v = if c == b'-' then sub_ℕ 0 n else pos n in
      if starts_with_digit digits && in_range (2 ^ 31) v then some v else none
]

unfoldable pub json_get_int : Bytes → Bytes → ℤ → ℤ
json_get_int json key default_val = elim (json_get_string json key) [
  | [] ↦ default_val
  | c ∷ v ↦ elim (stoi (c ∷ v)) [ none ↦ default_val | some n ↦ n ]
]

-- The elements of an array's text, and what is left of it behind the first bracket that closes.
unfoldable pub until_char : ℕ → Bytes → Option Bytes
until_char c [] = none
until_char c (d ∷ text) =
    let rest = until_char c text in
    if c == d then some [] else elim rest [ none ↦ none | some before ↦ some (d ∷ before) ]

unfoldable pub behind_quoted : Bytes → Bytes
behind_quoted [] = []
behind_quoted (c ∷ []) = []
behind_quoted (c ∷ d ∷ text) =
    let pair = behind_quoted text in
    let one = behind_quoted (d ∷ text) in
    if c == quote then d ∷ text else if c == backslash then pair else one

-- The fuel is the length of the text: an element takes its opening quote at least.
unfoldable pub elements : ℕ → Bytes → List Bytes
elements zero arr = []
elements (suc fuel) arr = elim (behind_char quote arr) [
  | none ↦ []
  | some rest ↦ json_unescape (read_quoted rest) ∷ elements fuel (behind_quoted rest)
]

unfoldable pub json_get_array : Bytes → Bytes → List Bytes
json_get_array json key = elim (behind_key key json) [
  | none ↦ []
  | some rest ↦ elim (behind_char b'[' rest) [
    | none ↦ []
    | some inner ↦ elim (until_char b']' inner) [ none ↦ [] | some arr ↦ elements (length arr) arr ]
  ]
]

-- `static_cast` of a signed number to an unsigned type of this size.
abbrev pub to_unsigned : ℕ → ℤ → ℕ
to_unsigned size (pos n) = n % size
to_unsigned size (negsuc n) = size - 1 - n % size

-- `json_get_uint32` and `json_get_size`: `std::stoul` and `std::stoull` read 64 bits, with a sign that
-- negates; `size` is that of the type which the result is cast to. The default is 0.
unfoldable pub json_get_number : ℕ → Bytes → Bytes → ℕ
json_get_number size json key = elim (skip_stoi_blanks (json_get_string json key)) [
  | [] ↦ 0
  | c ∷ rest ↦
      let digits = if c == b'-' || c == b'+' then rest else c ∷ rest in
      let n = (read_digits 0 digits).0 in
      if starts_with_digit digits && ltb n (2 ^ 64)
      then to_unsigned size (if c == b'-' then sub_ℕ 0 n else pos n)
      else 0
]
