-- ===== src/Config/Fields/Laws.antt =====
-- Which fields of a saved configuration are read back.
use socketley.Prelude.{
  ℕ, ◌≡◌, ◌∙◌, refl, ap, sym, arith, false, some, [], ◌∷◌, ◌++◌, Bytes, codes, beq,
}
use mathlib.Core.List.{append_assoc}
use socketley.Prelude.Words.{decimal}
use socketley.Config.Json.{
  quote, behind_prefix, behind_key, behind_char, skip_blanks, value_behind, json_escape,
  json_get_string,
}
use socketley.Config.Escape.{read_quoted-json_escape, json_unescape-json_escape}
use socketley.Config.Names.{str_to_type, type_str, str_to_type-type_str}
use socketley.Config.Fields.{
  Floats, Config, field_end, str_field, bare_field, close_object, later_fields, bool_text,
  common_fields, type_fields, format_json_pretty, parse_json_string, parse_common, parse_server,
  parse_client, parse_proxy, parse_cache,
}
use socketley.Config.Fields.Lookup.{
  mentions, behind_key-str_field, behind_key-own, str_field-layout, value_behind-str,
}

close_object-append :
    (xs : Bytes) (a b : ℕ) (zs : Bytes)
    → close_object (xs ++ a ∷ b ∷ zs) ≡ xs ++ close_object (a ∷ b ∷ zs)
unfolding close_object
close_object-append [] a b zs = refl
close_object-append (c ∷ []) a b zs = refl
close_object-append (c ∷ d ∷ []) a b zs = refl
close_object-append (c ∷ d ∷ e ∷ xs) a b zs = ap (◌∷◌ c) (close_object-append (d ∷ e ∷ xs) a b zs)

regroup :
    (n i t r : Bytes) → b'{' ∷ 10 ∷ (n ++ (i ++ (t ++ r))) ≡ (b'{' ∷ 10 ∷ (n ++ (i ++ t))) ++ r
regroup n i t r = simp append_assoc

json_get_string-of_found :
    (json key v rest : Bytes)
    → behind_key key json ≡ some (codes ": " ++ (quote ∷ (json_escape v ++ (quote ∷ rest))))
    → json_get_string json key ≡ v
unfolding json_get_string
json_get_string-of_found json key v rest found = ground (arith, value_behind-str v rest)

behind_key-opening : (key rest : Bytes) → behind_key key (b'{' ∷ 10 ∷ rest) ≡ behind_key key rest
unfolding behind_key
behind_key-opening key rest = ground arith

id_is_not_name : beq (codes "id") (codes "name") ≡ false
unfolding beq
id_is_not_name = refl

type_is_not_name : beq (codes "type") (codes "name") ≡ false
unfolding beq
type_is_not_name = refl

type_is_not_id : beq (codes "type") (codes "id") ≡ false
unfolding beq
type_is_not_id = refl

module _ (f : Floats) (cfg : Config f) where
  -- The fields behind the type.
  tail_fields : Bytes
  tail_fields =
      bare_field (codes "port") (decimal cfg.port)
      ++ (bare_field (codes "was_running") (bool_text cfg.was_running)
          ++ (common_fields f cfg ++ type_fields f cfg))

  close_object-tail :
      (xs : Bytes) → close_object (xs ++ tail_fields) ≡ xs ++ close_object tail_fields
  unfolding tail_fields bare_field
  close_object-tail xs = close_object-append xs 32 32 _

  format_start :
      format_json_pretty f cfg
      ≡ close_object (
          b'{'
          ∷ 10
          ∷ (str_field (codes "name") cfg.name
              ++ (str_field (codes "id") cfg.id
                  ++ (str_field (codes "type") (type_str cfg.type) ++ tail_fields))))
  unfolding format_json_pretty later_fields tail_fields
  format_start = refl

  format_layout :
      format_json_pretty f cfg
      ≡ b'{'
        ∷ 10
        ∷ (str_field (codes "name") cfg.name
            ++ (str_field (codes "id") cfg.id
                ++ (str_field (codes "type") (type_str cfg.type) ++ close_object tail_fields)))
  format_layout =
      let n = str_field (codes "name") cfg.name in
      let i = str_field (codes "id") cfg.id in
      let t = str_field (codes "type") (type_str cfg.type) in
      format_start
      ∙ ap close_object (regroup n i t tail_fields)
      ∙ close_object-tail (b'{' ∷ 10 ∷ (n ++ (i ++ t)))
      ∙ sym (regroup n i t (close_object tail_fields))

  -- The name is always read back.
  get_name : json_get_string (format_json_pretty f cfg) (codes "name") ≡ cfg.name
  get_name = json_get_string-of_found (format_json_pretty f cfg) (codes "name") cfg.name _ (
      ap (behind_key (codes "name")) format_layout
      ∙ behind_key-opening (codes "name") _
      ∙ behind_key-own _ _ refl cfg.name _)

  get_id :
      mentions (codes "id") cfg.name ≡ false
      → json_get_string (format_json_pretty f cfg) (codes "id") ≡ cfg.id
  get_id silent = json_get_string-of_found (format_json_pretty f cfg) (codes "id") cfg.id _ (
      ap (behind_key (codes "id")) format_layout
      ∙ behind_key-opening (codes "id") _
      ∙ behind_key-str_field _ _ refl (codes "name") cfg.name _ refl id_is_not_name silent
      ∙ behind_key-own _ _ refl cfg.id _)

  get_type :
      mentions (codes "type") cfg.name ≡ false
      → mentions (codes "type") cfg.id ≡ false
      → json_get_string (format_json_pretty f cfg) (codes "type") ≡ type_str cfg.type
  get_type silent still =
      json_get_string-of_found (format_json_pretty f cfg) (codes "type") (type_str cfg.type) _ (
        ap (behind_key (codes "type")) format_layout
        ∙ behind_key-opening (codes "type") _
        ∙ behind_key-str_field _ _ refl (codes "name") cfg.name _ refl type_is_not_name silent
        ∙ behind_key-str_field _ _ refl (codes "id") cfg.id _ refl type_is_not_id still
        ∙ behind_key-own _ _ refl (type_str cfg.type) _)

  -- What `parse_json_string` makes of the first three fields that `format_json_pretty` wrote. The name is
  -- always read back; the identity is where the name does not have, between quotes or at its end behind
  -- one, the word for which the lookup searches; the type is where neither name nor identity has its word
  -- so.
  pub parse-format :
      (cfg0 : Config f)
      → ((parse_json_string f (format_json_pretty f cfg) cfg0).1.name ≡ cfg.name)
        × (mentions (codes "id") cfg.name ≡ false
            → (parse_json_string f (format_json_pretty f cfg) cfg0).1.id ≡ cfg.id)
        × (mentions (codes "type") cfg.name ≡ false
            → mentions (codes "type") cfg.id ≡ false
            → (parse_json_string f (format_json_pretty f cfg) cfg0).1.type ≡ cfg.type)
  unfolding parse_json_string parse_common parse_server parse_client parse_proxy parse_cache
  parse-format cfg0 = (
    ground (arith, get_name),
    λ a. ground (arith, get_id a),
    λ b c. ground (arith, get_type b c, str_to_type-type_str cfg.type),
  )

-- What a lookup finds that stops at the end of the name: the next value in the file.
value_behind-next :
    (v rest : Bytes) → value_behind (field_end ++ (str_field (codes "id") v ++ rest)) ≡ v
unfolding value_behind behind_char skip_blanks
value_behind-next v rest =
    ap (λ t. value_behind (field_end ++ t)) (str_field-layout (codes "id") v rest)
    ∙ ground (arith, read_quoted-json_escape v (field_end ++ rest), json_unescape-json_escape v)

behind_key-named :
    (rest : Bytes)
    → behind_key (codes "type") (str_field (codes "name") (codes "type") ++ rest)
      ≡ some (field_end ++ rest)
unfolding behind_key behind_prefix json_escape str_field
behind_key-named rest = refl

module _ (f : Floats) (cfg cfg0 : Config f) (named : cfg.name ≡ codes "type") where
  found_in_name :
      (rest : Bytes)
      → behind_key (codes "type") (str_field (codes "name") cfg.name ++ rest)
        ≡ some (field_end ++ rest)
  found_in_name rest = rw named (behind_key-named rest)

  get_type_of_named : json_get_string (format_json_pretty f cfg) (codes "type") ≡ cfg.id
  unfolding json_get_string
  get_type_of_named =
      let rest =
        str_field (codes "id") cfg.id
        ++ (str_field (codes "type") (type_str cfg.type) ++ close_object (tail_fields f cfg)) in
      let found : behind_key (codes "type") (format_json_pretty f cfg) ≡ some (field_end ++ rest) =
        ap (behind_key (codes "type")) (format_layout f cfg)
        ∙ behind_key-opening (codes "type") _
        ∙ found_in_name rest in
      ground (
        arith,
        value_behind-next cfg.id
            (str_field (codes "type") (type_str cfg.type) ++ close_object (tail_fields f cfg)),
      )

  -- A runtime that is named `type` loses its type when its configuration is saved and read back: the
  -- type becomes whatever its identity is as a word.
  pub type_lost : (parse_json_string f (format_json_pretty f cfg) cfg0).1.type ≡ str_to_type cfg.id
  unfolding parse_json_string parse_common parse_server parse_client parse_proxy parse_cache
  type_lost = ground (arith, get_type_of_named)
