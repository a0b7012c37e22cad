-- ===== src/CacheInstance/Text.antt =====
-- `process_command`: a line of the text protocol. Here are the helpers of its cases and of its replies.
pub mod Strings
pub mod Containers
pub mod Deadlines
pub mod Keys
pub mod Dispatch
pub mod Keeps
pub mod Denials
use Prim.Native.String.{String}
use socketley.Prelude.{
  ℕ, ◌^◌, Bool, true, false, Option, none, some, List, [], ◌∷◌, ◌++◌, Bytes, codes, ltb, ◌||◌, ◌==◌,
  if◌then◌else◌,
}
use socketley.Prelude.Int.{ℤ, pos, ◌-ℤ◌}
use socketley.Prelude.Words.{value, from_chars, to_chars}
use socketley.CacheInstance.Connection.{is_empty_list}
use socketley.CacheInstance.Session.{Session, is_readonly, put, int_half}

-- A reply of one line.
abbrev pub say_bytes : Bytes → Session → Session
say_bytes text x = put (x.conn.response_buf ++ (text ++ 10 ∷ [])) x

abbrev pub say : String → Session → Session
say msg x = say_bytes (codes msg) x

-- `append_int_nl`
abbrev pub say_integer : ℤ → Session → Session
say_integer n x = say_bytes (to_chars n) x

-- A pointer to a string: the string, or null.
abbrev pub say_ptr : Option Bytes → Session → Session
say_ptr none x = say "nil" x
say_ptr (some val) x = say_bytes val x

unfoldable pub say_lines : List Bytes → Session → Session
say_lines [] x = x
say_lines (l ∷ ls) x = say_lines ls (say_bytes l x)

-- A size cast to int64_t.
abbrev pub as_int64 : ℕ → ℤ
as_int64 n = if ltb n (2 ^ 63) then pos n else pos n -ℤ pos (2 ^ 64)

-- What stands before the first blank and behind it.
unfoldable pub cut_blank : Bytes → Option (Bytes × Bytes)
cut_blank [] = none
cut_blank (c ∷ text) =
    let later : Option (Bytes × Bytes) = elim (cut_blank text) [
      | none ↦ none
      | some (a, b) ↦ some (c ∷ a, b)
    ] in
    if c == 32 then some ([], text) else later

-- The helper `extract_key`, as its two answers.
unfoldable pub key_of : Bytes → Bytes
key_of a = elim (cut_blank a) [ none ↦ a | some (key, rest) ↦ key ]

unfoldable pub args_behind : Bytes → Bytes
args_behind a = elim (cut_blank a) [ none ↦ [] | some (key, rest) ↦ rest ]

abbrev prepend : ℕ → List Bytes → List Bytes
prepend c [] = (c ∷ []) ∷ []
prepend c (w ∷ ws) = (c ∷ w) ∷ ws

-- The words that a loop over blanks meets, one behind each blank, down to the end of the text.
unfoldable pub blank_words : Bytes → List Bytes
blank_words [] = []
blank_words (c ∷ text) =
    let rest = blank_words text in if c == 32 then [] ∷ rest else prepend c rest

-- The same, with an empty word behind a blank at the end.
unfoldable pub words_to_end : Bytes → List Bytes
words_to_end [] = [] ∷ []
words_to_end (c ∷ text) =
    let rest = words_to_end text in if c == 32 then [] ∷ rest else prepend c rest

-- `parse_int_sv`: the number is the whole text.
unfoldable pub parse_int_sv : Bytes → Option ℤ
parse_int_sv sv = elim (from_chars int_half sv) [ value v [] ↦ some v | _ ↦ none ]

-- The test of the mode.
abbrev pub denied : Session → Option Session → Option Session
denied x body = if is_readonly x.mode then some (say "denied: readonly mode" x) else body

-- The test of two arguments.
abbrev pub given : String → Bytes → Bytes → Session → Option Session → Option Session
given usage a b x body = if is_empty_list a || is_empty_list b then some (say usage x) else body
