-- ===== src/Proxy/Http/Names.antt =====
-- The tests of a header's name in `parse_http_request_line`, against `header_name_equals`.
use socketley.Prelude.{
  ℕ, ◌+◌, ◌<◌, ◌≡◌, refl, inl, inr, arith, Bool, true, false, not, ◌&&◌, ◌||◌, [], ◌∷◌, Bytes,
  codes, length, drop, ◌==◌, Bool-cases,
}
use socketley.Config.Json.{until_char}
use socketley.Proxy.Http.{
  or_20, header_name_equals, lowered_is, first_is, name_is, is_content_length, is_transfer_encoding,
}

abbrev has_no_colon : Bytes → Bool
has_no_colon [] = true
has_no_colon (d ∷ name) = not (d == b':') && has_no_colon name

name_is-eq :
    (lower line : Bytes)
    → has_no_colon lower ≡ true
    → name_is (length lower) lower line ≡ header_name_equals line lower
unfolding until_char lowered_is header_name_equals
name_is-eq lower [] h = ground arith
name_is-eq [] (c ∷ line) h = ground arith
name_is-eq (d ∷ lower) (c ∷ line) h = ground (arith, name_is-eq lower line)

header_name_equals-length :
    (line lower : Bytes) → header_name_equals line lower ≡ true → length lower < length line
unfolding header_name_equals
header_name_equals-length [] lower h = ground arith
header_name_equals-length (c ∷ line) [] h = ground arith
header_name_equals-length (c ∷ line) (d ∷ lower) h =
    ground (arith, header_name_equals-length line lower)

or_20-first : (c : ℕ) → or_20 c ≡ b't' → (c == b'T' || c == b't') ≡ true
or_20-first c h = ground arith

first_letter :
    (c d : ℕ) (line lower : Bytes) → header_name_equals (c ∷ line) (d ∷ lower) ≡ true → or_20 c ≡ d
unfolding header_name_equals
first_letter c d line lower h = ground arith

or_20-upper : (c d : ℕ) → or_20 c ≡ d → 32 < d → ((c + 32) == d || c == d) ≡ true
or_20-upper c d h low = ground arith

nameless : (lower : Bytes) → header_name_equals [] lower ≡ false
unfolding header_name_equals
nameless lower = refl

-- The hand-written test of a transfer encoding is `header_name_equals`; that of a length also wants a
-- dash proper as its eighth character, which `header_name_equals` takes a carriage return for.
pub is_content_length-eq :
    (line : Bytes)
    → (is_transfer_encoding line ≡ header_name_equals line (codes "transfer-encoding"))
      × (is_content_length line
          ≡ (header_name_equals line (codes "content-length") && first_is b'-' b'-' (drop 7 line)))
unfolding is_transfer_encoding is_content_length
is_content_length-eq [] =
    ground (arith, nameless (codes "transfer-encoding"), nameless (codes "content-length"))
is_content_length-eq (c ∷ line) = (
  elim (Bool-cases (header_name_equals (c ∷ line) (codes "transfer-encoding"))) [
    | inl named ↦ ground (
      arith,
      name_is-eq (codes "transfer-encoding") (c ∷ line) refl,
      header_name_equals-length (c ∷ line) (codes "transfer-encoding") named,
      first_letter c b't' line (codes "ransfer-encoding") named,
      or_20-upper c b't',
    )
    | inr other ↦ ground (arith, name_is-eq (codes "transfer-encoding") (c ∷ line) refl)
  ],
  elim (Bool-cases (header_name_equals (c ∷ line) (codes "content-length"))) [
    | inl named ↦ ground (
      arith,
      name_is-eq (codes "content-length") (c ∷ line) refl,
      header_name_equals-length (c ∷ line) (codes "content-length") named,
      first_letter c b'c' line (codes "ontent-length") named,
      or_20-upper c b'c',
    )
    | inr other ↦ ground (arith, name_is-eq (codes "content-length") (c ∷ line) refl)
  ],
)
