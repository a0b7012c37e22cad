-- ===== src/Config/Fields/Lookup.antt =====
-- How a lookup passes over the fields of a configuration: it takes the first place where the key stands
-- between quotes, be it a key or a value.
use socketley.Prelude.{
  ℕ, ◌≡◌, ◌∙◌, ap, arith, Bool, true, false, ◌&&◌, ◌||◌, none, some, [], ◌∷◌, ◌++◌, Bytes, codes,
  beq, leb, ◌==◌, is_some,
}
use mathlib.Core.List.{append_assoc}
use socketley.Config.Json.{
  quote, behind_prefix, behind_key, behind_char, skip_blanks, value_behind, json_escape,
}
use socketley.Config.Escape.{read_quoted-json_escape, json_unescape-json_escape}
use socketley.Config.Fields.{field_end, str_field}

-- A key is a word of small letters and underscores.
abbrev pub word_char : ℕ → Bool
word_char c = (leb b'a' c && leb c b'z') || c == b'_'

abbrev pub is_word : Bytes → Bool
is_word [] = true
is_word (c ∷ key) = word_char c && is_word key

-- The key stands between quotes somewhere in the text of a quoted value.
abbrev pub mentions : Bytes → Bytes → Bool
mentions key val = is_some (behind_key key (quote ∷ (json_escape val ++ quote ∷ [])))

pub behind_prefix-own :
    (key more : Bytes) → behind_prefix (key ++ quote ∷ []) (key ++ quote ∷ more) ≡ some more
unfolding behind_prefix
behind_prefix-own [] more = ground arith
behind_prefix-own (c ∷ key) more = ground (arith, behind_prefix-own key more)

behind_prefix-other :
    (key k more : Bytes)
    → is_word key ≡ true
    → is_word k ≡ true
    → beq key k ≡ false
    → behind_prefix (key ++ quote ∷ []) (k ++ quote ∷ more) ≡ none
unfolding behind_prefix beq
behind_prefix-other [] [] more w v ne = ground arith
behind_prefix-other [] (d ∷ k) more w v ne = ground arith
behind_prefix-other (c ∷ key) [] more w v ne = ground arith
behind_prefix-other (c ∷ key) (d ∷ k) more w v ne = ground (arith, behind_prefix-other key k more)

-- Where a key does not match up to the closing quote, it does not match at all.
behind_prefix-closed :
    (key t more : Bytes)
    → is_word key ≡ true
    → behind_prefix (key ++ quote ∷ []) (t ++ quote ∷ []) ≡ none
    → behind_prefix (key ++ quote ∷ []) (t ++ quote ∷ more) ≡ none
unfolding behind_prefix
behind_prefix-closed [] [] more w h = ground arith
behind_prefix-closed [] (d ∷ t) more w h = ground arith
behind_prefix-closed (c ∷ key) [] more w h = ground arith
behind_prefix-closed (c ∷ key) (d ∷ t) more w h = ground (arith, behind_prefix-closed key t more)

pub str_field-layout :
    (k v rest : Bytes)
    → str_field k v ++ rest
      ≡ codes "    "
        ++ (quote
            ∷ (k
                ++ (quote
                    ∷ (codes ": " ++ (quote ∷ (json_escape v ++ (quote ∷ (field_end ++ rest))))))))
unfolding str_field
str_field-layout k v rest = simp append_assoc

module _ (c : ℕ) (cs : Bytes) (w : is_word (c ∷ cs) ≡ true) where
  -- What is between the quotes of a value, and the comma behind it.
  behind_key-value :
      (t rest : Bytes)
      → behind_key (c ∷ cs) (t ++ quote ∷ []) ≡ none
      → behind_key (c ∷ cs) (t ++ quote ∷ b',' ∷ rest) ≡ behind_key (c ∷ cs) rest
  unfolding behind_key behind_prefix
  behind_key-value [] rest h = ground arith
  behind_key-value (d ∷ t) rest h =
      ground (arith, behind_key-value t rest, behind_prefix-closed (c ∷ cs) t (b',' ∷ rest) w)

  -- The rest of another key, and the colon.
  behind_key-other :
      (k rest : Bytes)
      → is_word k ≡ true
      → behind_key (c ∷ cs) (k ++ (quote ∷ (codes ": " ++ rest))) ≡ behind_key (c ∷ cs) rest
  unfolding behind_key behind_prefix
  behind_key-other [] rest v = ground arith
  behind_key-other (d ∷ k) rest v = ground (arith, behind_key-other k rest)

  behind_key-start :
      (k rest : Bytes)
      → is_word k ≡ true
      → beq (c ∷ cs) k ≡ false
      → behind_key (c ∷ cs) (codes "    " ++ (quote ∷ (k ++ (quote ∷ (codes ": " ++ rest)))))
        ≡ behind_key (c ∷ cs) rest
  unfolding behind_key
  behind_key-start k rest word ne = ground (
    arith,
    behind_prefix-other (c ∷ cs) k (codes ": " ++ rest) w word ne,
    behind_key-other k rest word,
  )

  behind_key-newline : (rest : Bytes) → behind_key (c ∷ cs) (10 ∷ rest) ≡ behind_key (c ∷ cs) rest
  unfolding behind_key
  behind_key-newline rest = ground arith

  -- A field with another key, whose value does not mention the key, is passed over.
  pub behind_key-str_field :
      (k v rest : Bytes)
      → is_word k ≡ true
      → beq (c ∷ cs) k ≡ false
      → mentions (c ∷ cs) v ≡ false
      → behind_key (c ∷ cs) (str_field k v ++ rest) ≡ behind_key (c ∷ cs) rest
  behind_key-str_field k v rest word ne clear =
      let inner = quote ∷ json_escape v in
      let silent : behind_key (c ∷ cs) (inner ++ quote ∷ []) ≡ none = ground arith in
      ap (behind_key (c ∷ cs)) (str_field-layout k v rest)
      ∙ behind_key-start k (quote ∷ (json_escape v ++ quote ∷ (field_end ++ rest))) word ne
      ∙ behind_key-value inner (10 ∷ rest) silent
      ∙ behind_key-newline rest

  pub behind_key-own :
      (v rest : Bytes)
      → behind_key (c ∷ cs) (str_field (c ∷ cs) v ++ rest)
        ≡ some (codes ": " ++ (quote ∷ (json_escape v ++ (quote ∷ (field_end ++ rest)))))
  unfolding behind_key
  behind_key-own v rest =
      ap (behind_key (c ∷ cs)) (str_field-layout (c ∷ cs) v rest)
      ∙ ground (
        arith,
        behind_prefix-own (c ∷ cs)
            (codes ": " ++ (quote ∷ (json_escape v ++ (quote ∷ (field_end ++ rest))))),
      )

-- The value behind a key that `str_field` wrote.
pub value_behind-str :
    (v rest : Bytes) → value_behind (codes ": " ++ (quote ∷ (json_escape v ++ (quote ∷ rest)))) ≡ v
unfolding value_behind behind_char skip_blanks
value_behind-str v rest =
    ground (arith, read_quoted-json_escape v rest, json_unescape-json_escape v)
