-- ===== src/Formats/Templates.antt =====
-- The format uri-template of formats.go (RFC 6570). The loop of validateURITemplate moves an index
-- by more than one byte, so it runs on fuel: the length of the text.
use jsonschema.Prelude.{
  ℕ, zero, suc, Bool, true, false, not, ◌&&◌, ◌||◌, List, [], ◌∷◌, ◌++◌, Option, none, some, ◌==◌,
  ltb, leb, if◌then◌else◌, length, drop,
}
use jsonschema.Prelude.Bytes.{Bytes, codes, contains_byte, cut_at, drop_last, ends_with, split_on}
use jsonschema.Prelude.Utf8.{rune_width, runes}
use jsonschema.Prelude.Atoi.{is_ascii_digit}
use jsonschema.Formats.Types.{
  Failure, Platform, format_err, is_at, is_empty, is_letter, only_digits,
}
use jsonschema.Formats.Uris.{two_hex}

-- isURITemplateLiteral
unfoldable pub is_uri_template_literal : ℕ → Bool
unfolding contains_byte is_letter
is_uri_template_literal r =
    contains_byte (codes "!#$&()*+,-./:;=?@[]_~'") r || (is_ascii_digit r || is_letter r)

-- isURITemplateVarchars: the first argument counts the bytes of an escape still to be passed over.
unfoldable pub varchars : ℕ → Bytes → Bool
unfolding two_hex is_letter
varchars k [] = true
varchars (suc k) (c ∷ s) = varchars k s
varchars zero (c ∷ s) = elim (c == b'%') [
  | true ↦ two_hex s && varchars 2 s
  | false ↦ (c == b'_' || (is_ascii_digit c || is_letter c)) && varchars zero s
]

unfoldable pub is_uri_template_varchars : Bytes → Bool
unfolding varchars
is_uri_template_varchars s = varchars zero s

unfoldable pub segments_ok : List Bytes → Bool
unfolding is_empty is_uri_template_varchars
segments_ok [] = true
segments_ok (seg ∷ segs) = (not (is_empty seg) && is_uri_template_varchars seg) && segments_ok segs

unfoldable pub names_ok : Bytes → Bool
unfolding is_empty segments_ok split_on
names_ok s = not (is_empty s) && segments_ok (split_on b'.' s)

-- max-length = %x31-39 0*3DIGIT
unfoldable pub max_length_ok : Bytes → Bool
unfolding is_empty is_at only_digits runes
max_length_ok s =
    not (is_empty s) && (not (ltb 4 (length s)) && (not (is_at 0 b'0' s) && only_digits (runes s)))

-- isURITemplateVarspec
unfoldable pub is_uri_template_varspec : Bytes → Bool
unfolding ends_with drop_last cut_at names_ok max_length_ok
is_uri_template_varspec s =
    if ends_with b'*' s then names_ok (drop_last s) else elim (cut_at b':' s) [
      | none ↦ names_ok s
      | some (name, max_len) ↦ max_length_ok max_len && names_ok name
    ]

unfoldable pub varspecs_ok : List Bytes → Bool
unfolding is_uri_template_varspec
varspecs_ok [] = true
varspecs_ok (part ∷ parts) = is_uri_template_varspec part && varspecs_ok parts

unfoldable pub varspec_list : Bytes → Bool
unfolding is_empty varspecs_ok split_on
varspec_list s = not (is_empty s) && varspecs_ok (split_on b',' s)

-- isURITemplateExpr
unfoldable pub is_uri_template_expr : Bytes → Bool
unfolding varspec_list contains_byte
is_uri_template_expr [] = false
is_uri_template_expr (c ∷ s) =
    if contains_byte (codes "+#./;?&=,!@|") c then varspec_list s else varspec_list (c ∷ s)

-- How the loop of validateURITemplate ends: at the end of the text, with the text of an error, or
-- out of fuel.
pub data Checked : Type 0 where
  well_formed starved : Checked
  malformed : Bytes → Checked

module _ (p : Platform) where
  -- What follows the brace that ends an expression, checked with the rest of the loop.
  unfoldable pub behind_expr : (Bytes → Checked) → Option (Bytes × Bytes) → Checked
  unfolding is_uri_template_expr
  behind_expr again none = malformed (codes "unmatched {")
  behind_expr again (some (expr, rest)) =
      if is_uri_template_expr expr then again rest else malformed (codes "invalid expression")

  -- One round of the loop of validateURITemplate, with the rest of it.
  unfoldable pub template_round : (Bytes → Checked) → ℕ → Bytes → Checked
  unfolding cut_at behind_expr two_hex is_uri_template_literal rune_width
  template_round again c s =
      if c == b'{'
      then behind_expr again (cut_at b'}' s)
      else if c == b'}'
      then malformed (codes "unmatched }")
      else if c == b'%'
      then (if two_hex s then again (drop 2 s) else malformed (codes "bad percent-encoding"))
      else if leb 0x80 c
      then (if leb (rune_width (c ∷ s)) 1
          then malformed (codes "bad UTF-8")
          else again (drop (rune_width (c ∷ s)) (c ∷ s)))
      else if is_uri_template_literal c
      then again s
      else malformed (codes "invalid literal " ++ p.quote_byte c)

  -- The loop of validateURITemplate.
  unfoldable pub template_error : ℕ → Bytes → Checked
  unfolding template_round
  template_error fuel [] = well_formed
  template_error zero (c ∷ s) = starved
  template_error (suc fuel) (c ∷ s) = template_round (template_error fuel) c s

  -- The loop with the length of the text as its fuel; running out of it would not be an acceptance.
  unfoldable pub validate_uri_template : Bytes → Option Failure
  unfolding template_error format_err
  validate_uri_template s = elim (template_error (length s) s) [
    | well_formed ↦ none
    | starved ↦ format_err (codes "uri-template") s []
    | malformed text ↦ format_err (codes "uri-template") s text
  ]
