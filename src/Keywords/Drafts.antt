-- ===== src/Keywords/Drafts.antt =====
-- The drafts of draft.go and the URLs of their meta-schemas.
use jsonschema.Prelude.{
  ℕ, Bool, true, false, [], ◌∷◌, none, some, ◌≡◌, refl, ap, ◌∙◌, if◌then◌else◌, ltb, ◌&&◌,
}
use jsonschema.Prelude.Bytes.{Bytes, codes, cut_prefix, drop_last, ends_with, str_eq}

pub data Draft : Type 0 where
  draft_unknown draft_4 draft_6 draft_7 draft_2019_09 draft_2020_12 : Draft

-- The constant that stands for a draft, by which drafts are ordered.
unfoldable pub rank : Draft → ℕ
rank draft_unknown = 0
rank draft_4 = 1
rank draft_6 = 2
rank draft_7 = 3
rank draft_2019_09 = 4
rank draft_2020_12 = 5

unfoldable pub is_unknown : Draft → Bool
is_unknown draft_unknown = true
is_unknown _ = false

-- MetaSchemaURL
unfoldable pub meta_schema_url : Draft → Bytes
meta_schema_url draft_4 = codes "http://json-schema.org/draft-04/schema#"
meta_schema_url draft_6 = codes "http://json-schema.org/draft-06/schema#"
meta_schema_url draft_7 = codes "http://json-schema.org/draft-07/schema#"
meta_schema_url draft_2019_09 = codes "https://json-schema.org/draft/2019-09/schema"
meta_schema_url draft_2020_12 = codes "https://json-schema.org/draft/2020-12/schema"
meta_schema_url draft_unknown = []

-- IDKeyword
unfoldable pub id_keyword : Draft → Bytes
id_keyword draft_4 = codes "id"
id_keyword _ = codes "$id"

-- DefsKeyword
unfoldable pub defs_keyword : Draft → Bytes
defs_keyword draft_4 = codes "definitions"
defs_keyword draft_6 = codes "definitions"
defs_keyword draft_7 = codes "definitions"
defs_keyword _ = codes "$defs"

-- strings.TrimPrefix
unfoldable pub trim_prefix : Bytes → Bytes → Bytes
unfolding cut_prefix
trim_prefix s p = elim (cut_prefix s p) [ none ↦ s | some t ↦ t ]

-- canonicalizeMetaSchemaURL, with strings.TrimSpace.
unfoldable pub canonicalize_meta_schema_url : (Bytes → Bytes) → Bytes → Bytes
unfolding trim_prefix ends_with drop_last
canonicalize_meta_schema_url trim_space u =
    let bare = trim_prefix (trim_prefix (trim_space u) (codes "https://")) (codes "http://") in
    if ends_with b'#' bare then drop_last bare else bare

-- DraftFromMetaSchemaURL
unfoldable pub draft_of_canonical : Bytes → Draft
unfolding str_eq
draft_of_canonical canon =
    if str_eq canon (codes "json-schema.org/draft-04/schema")
    then draft_4
    else if str_eq canon (codes "json-schema.org/draft-06/schema")
    then draft_6
    else if str_eq canon (codes "json-schema.org/draft-07/schema")
    then draft_7
    else if str_eq canon (codes "json-schema.org/draft/2019-09/schema")
    then draft_2019_09
    else if str_eq canon (codes "json-schema.org/draft/2020-12/schema")
    then draft_2020_12
    else if str_eq canon (codes "spec.openapis.org/oas/3.1/dialect/base")
    then draft_2020_12
    else draft_unknown

unfoldable pub draft_from_meta_schema_url : (Bytes → Bytes) → Bytes → Draft
unfolding canonicalize_meta_schema_url draft_of_canonical
draft_from_meta_schema_url trim_space url =
    draft_of_canonical (canonicalize_meta_schema_url trim_space url)

-- Visible ASCII characters only.
unfoldable pub visible : Bytes → Bool
visible [] = true
visible (c ∷ s) = (ltb 0x20 c && ltb c 0x7F) && visible s

draft_of_trimmed : (d : Draft) → draft_from_meta_schema_url (λ u. u) (meta_schema_url d) ≡ d
unfolding draft_from_meta_schema_url meta_schema_url
draft_of_trimmed draft_unknown = refl
draft_of_trimmed draft_4 = refl
draft_of_trimmed draft_6 = refl
draft_of_trimmed draft_7 = refl
draft_of_trimmed draft_2019_09 = refl
draft_of_trimmed draft_2020_12 = refl

meta_schema_url-visible : (d : Draft) → visible (meta_schema_url d) ≡ true
unfolding visible meta_schema_url
meta_schema_url-visible draft_unknown = refl
meta_schema_url-visible draft_4 = refl
meta_schema_url-visible draft_6 = refl
meta_schema_url-visible draft_7 = refl
meta_schema_url-visible draft_2019_09 = refl
meta_schema_url-visible draft_2020_12 = refl

-- The draft of the URL of a draft's meta-schema is that draft, for a strings.TrimSpace that leaves
-- texts of visible ASCII characters as they are.
pub draft_from_meta_schema_url-meta_schema_url :
    (trim_space : Bytes → Bytes)
    → ((s : Bytes) → visible s ≡ true → trim_space s ≡ s)
    → (d : Draft) → draft_from_meta_schema_url trim_space (meta_schema_url d) ≡ d
unfolding draft_from_meta_schema_url canonicalize_meta_schema_url
draft_from_meta_schema_url-meta_schema_url trim_space plain d =
    ap (λ u. draft_from_meta_schema_url (λ v. v) u)
      (plain (meta_schema_url d) (meta_schema_url-visible d))
    ∙ draft_of_trimmed d
