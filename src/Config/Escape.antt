-- ===== src/Config/Escape.antt =====
-- Escaping and its inverse, and the reading of an escaped value up to its closing quote.
use socketley.Prelude.{ℕ, ◌≡◌, refl, arith, [], ◌∷◌, ◌++◌, Bytes, ap, ◌∙◌}
use mathlib.Core.List.{append_assoc, append-nil}
use socketley.Config.Json.{
  quote, escaped, json_escape, json_escape_into, json_unescape, read_quoted,
}

unescape-escaped : (c : ℕ) (t : Bytes) → json_unescape (escaped c ++ t) ≡ c ∷ json_unescape t
unfolding json_unescape
unescape-escaped c [] = ground arith
unescape-escaped c (d ∷ t) = ground arith

-- What is escaped is read back, whatever the bytes.
pub json_unescape-json_escape : (s : Bytes) → json_unescape (json_escape s) ≡ s
unfolding json_escape
json_unescape-json_escape [] = unfold json_unescape in refl
json_unescape-json_escape (c ∷ s) =
    unescape-escaped c (json_escape s) ∙ ap (◌∷◌ c) (json_unescape-json_escape s)

read_quoted-escaped :
    (c : ℕ) (t : Bytes) → read_quoted (escaped c ++ t) ≡ escaped c ++ read_quoted t
unfolding read_quoted
read_quoted-escaped c [] = ground arith
read_quoted-escaped c (d ∷ t) = ground arith

-- The escaped text is taken whole, and no more, up to the quote that closes it.
pub read_quoted-json_escape :
    (s rest : Bytes) → read_quoted (json_escape s ++ quote ∷ rest) ≡ json_escape s
unfolding json_escape
read_quoted-json_escape [] [] = unfold read_quoted in refl
read_quoted-json_escape [] (d ∷ rest) = unfold read_quoted in refl
read_quoted-json_escape (c ∷ s) rest = ground (
  arith,
  append_assoc (escaped c) (json_escape s) (quote ∷ rest),
  read_quoted-escaped c (json_escape s ++ quote ∷ rest),
  read_quoted-json_escape s rest,
)

-- Both functions write the same.
pub json_escape_into-eq : (out s : Bytes) → json_escape_into out s ≡ out ++ json_escape s
unfolding json_escape_into json_escape
json_escape_into-eq out [] = simp append-nil
json_escape_into-eq out (c ∷ s) =
    json_escape_into-eq (out ++ escaped c) s ∙ append_assoc out (escaped c) (json_escape s)
