-- ===== src/Proxy/Http/Laws.antt =====
-- Requests as written by a client, in lines: how they are split, and what the proxy makes of them.
use socketley.Prelude.{
  ℕ, ◌+◌, ◌≡◌, ◌∙◌, refl, ap, sym, arith, Bool, true, false, not, ◌&&◌, some, List, [], ◌∷◌, ◌++◌,
  Bytes, length, drop, ltb, ◌==◌,
}
use mathlib.Core.List.{append_assoc}
use socketley.Config.Json.{behind_prefix}
use socketley.Proxy.Http.{line_end, head_end, split_at, header_lines}

-- A text without a carriage return.
abbrev pub is_plain : Bytes → Bool
is_plain [] = true
is_plain (c ∷ text) = not (c == 13) && is_plain text

-- A line of a header: plain, and not empty.
abbrev pub is_tidy : Bytes → Bool
is_tidy [] = false
is_tidy (c ∷ text) = is_plain (c ∷ text)

abbrev pub all_tidy : List Bytes → Bool
all_tidy [] = true
all_tidy (line ∷ lines) = is_tidy line && all_tidy lines

-- The lines of the headers, with a line end between each two.
abbrev pub inner : Bytes → List Bytes → Bytes
inner h [] = h
inner h (g ∷ hs) = h ++ (13 ∷ 10 ∷ inner g hs)

pub split_at-line_end :
    (x rest : Bytes) → is_plain x ≡ true → split_at line_end (x ++ 13 ∷ 10 ∷ rest) ≡ some (x, rest)
unfolding split_at behind_prefix
split_at-line_end [] rest h = refl
split_at-line_end (c ∷ x) rest h = ground (arith, split_at-line_end x rest)

header_lines-line :
    (x rest : Bytes)
    → is_plain x ≡ true
    → header_lines (x ++ 13 ∷ 10 ∷ rest) ≡ x ∷ header_lines rest
unfolding header_lines
header_lines-line [] rest h = refl
header_lines-line (c ∷ []) rest h = ground arith
header_lines-line (c ∷ d ∷ x) rest h = ground (arith, header_lines-line (d ∷ x) rest)

header_lines-last : (x : Bytes) → is_tidy x ≡ true → header_lines x ≡ x ∷ []
unfolding header_lines
header_lines-last [] h = ground arith
header_lines-last (c ∷ []) h = ground arith
header_lines-last (c ∷ d ∷ x) h = ground (arith, header_lines-last (d ∷ x))

pub is_tidy-is_plain : (x : Bytes) → is_tidy x ≡ true → is_plain x ≡ true
is_tidy-is_plain [] h = refl
is_tidy-is_plain (c ∷ x) h = h

pub header_lines-inner :
    (h : Bytes) (hs : List Bytes) → all_tidy (h ∷ hs) ≡ true → header_lines (inner h hs) ≡ h ∷ hs
header_lines-inner h [] t = ground (arith, header_lines-last h)
header_lines-inner h (g ∷ hs) t =
    ground (arith, is_tidy-is_plain h, header_lines-line h (inner g hs), header_lines-inner g hs)

-- A head goes on behind a line end that no second one follows.
split_at-through :
    (x : Bytes) (d : ℕ) (y a b : Bytes)
    → is_plain x ≡ true
    → (d == 13) ≡ false
    → split_at head_end (d ∷ y) ≡ some (a, b)
    → split_at head_end (x ++ 13 ∷ 10 ∷ d ∷ y) ≡ some (x ++ 13 ∷ 10 ∷ a, b)
unfolding split_at behind_prefix
split_at-through [] d y a b h e s = ground arith
split_at-through (c ∷ x) d y a b h e s = ground (arith, split_at-through x d y a b)

pub split_at-last :
    (x body : Bytes)
    → is_plain x ≡ true
    → split_at head_end (x ++ (head_end ++ body)) ≡ some (x, body)
unfolding split_at behind_prefix
split_at-last [] body h = refl
split_at-last (c ∷ x) body h = ground (arith, split_at-last x body)

inner-first : (d : ℕ) (g : Bytes) (hs : List Bytes) → inner (d ∷ g) hs ≡ d ∷ inner g hs
inner-first d g [] = refl
inner-first d g (k ∷ hs) = refl

pub split_at-inner :
    (x : Bytes) (hs : List Bytes) (body : Bytes)
    → is_plain x ≡ true
    → all_tidy hs ≡ true
    → split_at head_end (inner x hs ++ (head_end ++ body)) ≡ some (inner x hs, body)
split_at-inner x [] body p t = split_at-last x body p
split_at-inner x ([] ∷ hs) body p t = ground arith
split_at-inner x ((d ∷ g) ∷ hs) body p t =
    let later : split_at head_end (d ∷ (inner g hs ++ (head_end ++ body)))
        ≡ some (d ∷ inner g hs, body) =
      ap (λ t. split_at head_end (t ++ (head_end ++ body))) (sym (inner-first d g hs))
      ∙ split_at-inner (d ∷ g) hs body (ground arith) (ground arith)
      ∙ ap (λ t. some (t, body)) (inner-first d g hs) in
    ap (λ t. split_at head_end ((x ++ (13 ∷ 10 ∷ t)) ++ (head_end ++ body))) (inner-first d g hs)
    ∙ ap (split_at head_end) (append_assoc x (13 ∷ 10 ∷ d ∷ inner g hs) (head_end ++ body))
    ∙ split_at-through x d (inner g hs ++ (head_end ++ body)) (d ∷ inner g hs) body p (ground arith)
        later
    ∙ ap (λ t. some (x ++ (13 ∷ 10 ∷ t), body)) (sym (inner-first d g hs))

pub drop-line : (x y : Bytes) → drop (length x + 2) (x ++ 13 ∷ 10 ∷ y) ≡ y
drop-line [] y = refl
drop-line (c ∷ x) y = ground (arith, drop-line x y)

pub length-line : (x y : Bytes) → ltb (length (x ++ 13 ∷ 10 ∷ y)) (length x + 2) ≡ false
length-line [] y = ground arith
length-line (c ∷ x) y = ground (arith, length-line x y)

-- No blank in a text.
abbrev pub is_word : Bytes → Bool
is_word [] = true
is_word (c ∷ text) = not (c == 32) && is_word text

pub split_at-blank :
    (x rest : Bytes) → is_word x ≡ true → split_at (32 ∷ []) (x ++ 32 ∷ rest) ≡ some (x, rest)
unfolding split_at behind_prefix
split_at-blank [] rest h = refl
split_at-blank (c ∷ x) rest h = ground (arith, split_at-blank x rest)
