-- ===== src/Cli/Args.antt =====
-- `parsed_args::parse`: a line is split at blanks and tabs, into 32 words at most.
use socketley.Prelude.{
  ℕ, zero, suc, ◌≤◌, ◌<◌, ◌≡◌, ◌⊎◌, refl, inl, inr, arith, Bool, true, false, ◌||◌, List, [], ◌∷◌,
  Bytes, length, take, ◌==◌, Bool-cases, if◌then◌else◌,
}

abbrev pub max_args : ℕ
max_args = 32

abbrev pub is_space : ℕ → Bool
is_space c = c == 32 || c == 9

-- The two inner loops: over the blanks, and over a word.
unfoldable pub skip_spaces : Bytes → Bytes
skip_spaces [] = []
skip_spaces (c ∷ line) = let rest = skip_spaces line in if is_space c then rest else c ∷ line

unfoldable pub take_word : Bytes → Bytes × Bytes
take_word [] = ([], [])
take_word (c ∷ line) =
    let rest = take_word line in if is_space c then ([], c ∷ line) else (c ∷ rest.0, rest.1)

-- The outer loop; `room` is how many words still fit.
unfoldable pub parse_loop : ℕ → ℕ → Bytes → List Bytes
parse_loop zero room line = []
parse_loop (suc fuel) zero line = []
parse_loop (suc fuel) (suc room) line = elim (skip_spaces line) [
  | [] ↦ []
  | c ∷ rest ↦ (take_word (c ∷ rest)).0 ∷ parse_loop fuel room (take_word (c ∷ rest)).1
]

unfoldable pub parse : Bytes → List Bytes
parse line = parse_loop (length line) max_args line

-- The words of a line, with no bound: a character opens a word or joins the word that follows.
abbrev ends_word : Bytes → Bool
ends_word [] = true
ends_word (c ∷ line) = is_space c

abbrev join_first : ℕ → List Bytes → List Bytes
join_first c [] = (c ∷ []) ∷ []
join_first c (w ∷ ws) = (c ∷ w) ∷ ws

unfoldable pub words : Bytes → List Bytes
words [] = []
words (c ∷ line) =
    let rest = words line in
    if is_space c then rest else if ends_word line then (c ∷ []) ∷ rest else join_first c rest

words-skip_spaces : (line : Bytes) → words (skip_spaces line) ≡ words line
unfolding words skip_spaces
words-skip_spaces [] = refl
words-skip_spaces (c ∷ line) = ground (arith, words-skip_spaces line)

words-take_word :
    (c : ℕ) (line : Bytes)
    → is_space c ≡ false
    → words (c ∷ line) ≡ (take_word (c ∷ line)).0 ∷ words (take_word (c ∷ line)).1
unfolding words take_word
words-take_word c [] h = ground arith
words-take_word c (d ∷ line) h = elim (Bool-cases (is_space d)) [
  | inl blank ↦ ground arith
  | inr more ↦ ground (arith, words-take_word d line more)
]

skip_spaces_head :
    (line : Bytes) (c : ℕ) (rest : Bytes)
    → skip_spaces line ≡ c ∷ rest
    → (is_space c ≡ false) × (length rest < length line)
unfolding skip_spaces
skip_spaces_head [] c rest h = ground arith
skip_spaces_head (d ∷ line) c rest h = ground (arith, skip_spaces_head line c rest)

length-take_word : (line : Bytes) → length (take_word line).1 ≤ length line
unfolding take_word
length-take_word [] = omega arith
length-take_word (c ∷ line) = ground (arith, length-take_word line)

words_nil : words [] ≡ []
unfolding words
words_nil = refl

list_cases : (line : Bytes) → (line ≡ []) ⊎ ((c : ℕ) × (rest : Bytes) × (line ≡ c ∷ rest))
list_cases [] = inl refl
list_cases (c ∷ rest) = inr (c, rest, refl)

-- A word takes one character at least.
length_after :
    (c : ℕ) (rest : Bytes) → is_space c ≡ false → length (take_word (c ∷ rest)).1 ≤ length rest
unfolding take_word
length_after c rest h = ground (arith, length-take_word rest)

parse_loop-words :
    (fuel room : ℕ) (line : Bytes)
    → length line ≤ fuel
    → parse_loop fuel room line ≡ take room (words line)
unfolding parse_loop
parse_loop-words zero zero line h = refl
parse_loop-words zero (suc room) [] h = unfold words in refl
parse_loop-words zero (suc room) (c ∷ line) h = absurd (omega arith)
parse_loop-words (suc fuel) zero line h = refl
parse_loop-words (suc fuel) (suc room) line h = elim (list_cases (skip_spaces line)) [
  | inl none_left ↦ ground (arith, words-skip_spaces line, words_nil)
  | inr (c, rest, e) ↦
      let first = skip_spaces_head line c rest e in
      let after = (take_word (c ∷ rest)).1 in
      let shorter = length_after c rest first.0 in
      ground (
        arith,
        words-skip_spaces line,
        words-take_word c rest first.0,
        parse_loop-words fuel room after (omega arith),
      )
]

-- The arguments are the words of the line, the first 32 of them.
pub parse-words : (line : Bytes) → parse line ≡ take max_args (words line)
unfolding parse
parse-words line = parse_loop-words (length line) max_args line (omega arith)
