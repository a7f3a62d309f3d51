-- ===== src/Keywords/Registry.antt =====
-- The registry of keywords of keywords.go, with its lookups.
use jsonschema.Prelude.{
  Bool, true, false, not, ◌&&◌, List, [], ◌∷◌, ◌++◌, Option, none, some, leb, ltb, if◌then◌else◌,
}
use jsonschema.Prelude.Bytes.{Bytes, codes, has_key, str_eq}
use jsonschema.Keywords.Drafts.{
  Draft, draft_unknown, draft_4, draft_6, draft_7, draft_2019_09, draft_2020_12, rank, is_unknown,
}

-- simpleKeyword
pub record Keyword : Type 0 where
  pub name : Bytes
  pub since : Draft
  pub retired : Draft

pub record Vocabulary : Type 0 where
  pub uri : Bytes
  pub keywords : List Keyword

abbrev pub kw : Bytes → Draft → Draft → Keyword
kw n s r = record { name = n; since = s; retired = r }

abbrev pub vocab_core : Vocabulary
vocab_core = record {
  uri = codes "https://json-schema.org/draft/2020-12/vocab/core";
  keywords =
      kw (codes "$schema") draft_6 draft_unknown
      ∷ kw (codes "$id") draft_6 draft_unknown
      ∷ kw (codes "$ref") draft_4 draft_unknown
      ∷ kw (codes "$dynamicRef") draft_2020_12 draft_unknown
      ∷ kw (codes "$defs") draft_2019_09 draft_unknown
      ∷ kw (codes "$anchor") draft_2019_09 draft_unknown
      ∷ kw (codes "$dynamicAnchor") draft_2020_12 draft_unknown
      ∷ kw (codes "$comment") draft_7 draft_unknown
      ∷ kw (codes "$vocabulary") draft_2019_09 draft_unknown
      ∷ kw (codes "id") draft_4 draft_6
      ∷ kw (codes "definitions") draft_4 draft_2019_09
      ∷ kw (codes "$recursiveRef") draft_2019_09 draft_2020_12
      ∷ kw (codes "$recursiveAnchor") draft_2019_09 draft_2020_12
      ∷ [];
}

abbrev pub vocab_applicator : Vocabulary
vocab_applicator = record {
  uri = codes "https://json-schema.org/draft/2020-12/vocab/applicator";
  keywords =
      kw (codes "allOf") draft_4 draft_unknown
      ∷ kw (codes "anyOf") draft_4 draft_unknown
      ∷ kw (codes "oneOf") draft_4 draft_unknown
      ∷ kw (codes "not") draft_4 draft_unknown
      ∷ kw (codes "if") draft_7 draft_unknown
      ∷ kw (codes "then") draft_7 draft_unknown
      ∷ kw (codes "else") draft_7 draft_unknown
      ∷ kw (codes "dependentSchemas") draft_2019_09 draft_unknown
      ∷ kw (codes "prefixItems") draft_2020_12 draft_unknown
      ∷ kw (codes "items") draft_4 draft_unknown
      ∷ kw (codes "contains") draft_6 draft_unknown
      ∷ kw (codes "properties") draft_4 draft_unknown
      ∷ kw (codes "patternProperties") draft_4 draft_unknown
      ∷ kw (codes "additionalProperties") draft_4 draft_unknown
      ∷ kw (codes "propertyNames") draft_6 draft_unknown
      ∷ kw (codes "additionalItems") draft_4 draft_2020_12
      ∷ kw (codes "dependencies") draft_4 draft_2019_09
      ∷ [];
}

abbrev pub vocab_unevaluated : Vocabulary
vocab_unevaluated = record {
  uri = codes "https://json-schema.org/draft/2020-12/vocab/unevaluated";
  keywords =
      kw (codes "unevaluatedItems") draft_2019_09 draft_unknown
      ∷ kw (codes "unevaluatedProperties") draft_2019_09 draft_unknown
      ∷ [];
}

abbrev pub vocab_validation : Vocabulary
vocab_validation = record {
  uri = codes "https://json-schema.org/draft/2020-12/vocab/validation";
  keywords =
      kw (codes "type") draft_4 draft_unknown
      ∷ kw (codes "enum") draft_4 draft_unknown
      ∷ kw (codes "const") draft_6 draft_unknown
      ∷ kw (codes "multipleOf") draft_4 draft_unknown
      ∷ kw (codes "maximum") draft_4 draft_unknown
      ∷ kw (codes "exclusiveMaximum") draft_4 draft_unknown
      ∷ kw (codes "minimum") draft_4 draft_unknown
      ∷ kw (codes "exclusiveMinimum") draft_4 draft_unknown
      ∷ kw (codes "maxLength") draft_4 draft_unknown
      ∷ kw (codes "minLength") draft_4 draft_unknown
      ∷ kw (codes "pattern") draft_4 draft_unknown
      ∷ kw (codes "maxItems") draft_4 draft_unknown
      ∷ kw (codes "minItems") draft_4 draft_unknown
      ∷ kw (codes "uniqueItems") draft_4 draft_unknown
      ∷ kw (codes "maxContains") draft_2019_09 draft_unknown
      ∷ kw (codes "minContains") draft_2019_09 draft_unknown
      ∷ kw (codes "maxProperties") draft_4 draft_unknown
      ∷ kw (codes "minProperties") draft_4 draft_unknown
      ∷ kw (codes "required") draft_4 draft_unknown
      ∷ kw (codes "dependentRequired") draft_2019_09 draft_unknown
      ∷ [];
}

abbrev pub vocab_format_annot : Vocabulary
vocab_format_annot = record {
  uri = codes "https://json-schema.org/draft/2020-12/vocab/format-annotation";
  keywords = kw (codes "format") draft_4 draft_unknown ∷ [];
}

abbrev pub vocab_format_assert : Vocabulary
vocab_format_assert = record {
  uri = codes "https://json-schema.org/draft/2020-12/vocab/format-assertion";
  keywords = kw (codes "format") draft_4 draft_unknown ∷ [];
}

abbrev pub vocab_content : Vocabulary
vocab_content = record {
  uri = codes "https://json-schema.org/draft/2020-12/vocab/content";
  keywords =
      kw (codes "contentEncoding") draft_7 draft_unknown
      ∷ kw (codes "contentMediaType") draft_7 draft_unknown
      ∷ kw (codes "contentSchema") draft_2019_09 draft_unknown
      ∷ [];
}

abbrev pub vocab_meta_data : Vocabulary
vocab_meta_data = record {
  uri = codes "https://json-schema.org/draft/2020-12/vocab/meta-data";
  keywords =
      kw (codes "title") draft_4 draft_unknown
      ∷ kw (codes "description") draft_4 draft_unknown
      ∷ kw (codes "default") draft_4 draft_unknown
      ∷ kw (codes "deprecated") draft_2019_09 draft_unknown
      ∷ kw (codes "readOnly") draft_7 draft_unknown
      ∷ kw (codes "writeOnly") draft_7 draft_unknown
      ∷ kw (codes "examples") draft_6 draft_unknown
      ∷ [];
}

abbrev pub vocab_oas : Vocabulary
vocab_oas = record {
  uri = codes "https://spec.openapis.org/oas/3.1/vocab/base";
  keywords =
      kw (codes "discriminator") draft_2020_12 draft_unknown
      ∷ kw (codes "xml") draft_2020_12 draft_unknown
      ∷ kw (codes "externalDocs") draft_2020_12 draft_unknown
      ∷ kw (codes "example") draft_2020_12 draft_unknown
      ∷ [];
}

-- stdVocabularies
abbrev pub std_vocabularies : List Vocabulary
std_vocabularies =
    vocab_core ∷ vocab_applicator ∷ vocab_unevaluated ∷ vocab_validation ∷ vocab_format_annot
    ∷ vocab_format_assert ∷ vocab_content ∷ vocab_meta_data ∷ vocab_oas ∷ []

-- keywordActiveIn
unfoldable pub keyword_active_in : Keyword → Draft → Bool
unfolding rank is_unknown
keyword_active_in k d =
    if ltb (rank d) (rank k.since)
    then false
    else if not (is_unknown k.retired) && leb (rank k.retired) (rank d)
    then false
    else true

-- The loops of KeywordsForDraft, over the keywords of one vocabulary after the other: `seen` has the
-- names met so far.
unfoldable pub all_keywords : List Vocabulary → List Keyword
all_keywords [] = []
all_keywords (v ∷ vs) = v.keywords ++ all_keywords vs

unfoldable pub active_keywords : Draft → List Bytes → List Keyword → List Keyword
unfolding keyword_active_in has_key
active_keywords d seen [] = []
active_keywords d seen (k ∷ ks) = elim (keyword_active_in k d) [
  | false ↦ active_keywords d seen ks
  | true ↦ elim (has_key seen k.name) [
    | true ↦ active_keywords d seen ks
    | false ↦ k ∷ active_keywords d (k.name ∷ seen) ks
  ]
]

unfoldable pub keywords_for_draft : Draft → List Keyword
unfolding active_keywords all_keywords is_unknown
keywords_for_draft d =
    if is_unknown d then [] else active_keywords d [] (all_keywords std_vocabularies)

-- The loops of LookupKeyword.
unfoldable pub find_active : Bytes → Draft → List Keyword → Option Keyword
unfolding keyword_active_in str_eq
find_active n d [] = none
find_active n d (k ∷ ks) =
    let rest = find_active n d ks in
    if str_eq k.name n then (if keyword_active_in k d then some k else rest) else rest

unfoldable pub lookup_keyword : Bytes → Draft → Option Keyword
unfolding find_active all_keywords is_unknown
lookup_keyword [] d = none
lookup_keyword (c ∷ n) d =
    if is_unknown d then none else find_active (c ∷ n) d (all_keywords std_vocabularies)
