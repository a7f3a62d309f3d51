-- ===== src/Keywords/Tests.antt =====
-- The registry and the drafts at concrete names.
use jsonschema.Prelude.{true, [], ◌≡◌, ◌≢◌, refl, ap, some, none}
use mathlib.Core.Bool.{true≢false}
use jsonschema.Prelude.Bytes.{codes, str_eq}
use jsonschema.Keywords.Drafts.{
  draft_4, draft_6, draft_7, draft_2019_09, draft_from_meta_schema_url, meta_schema_url,
  draft_from_meta_schema_url-meta_schema_url,
}
use jsonschema.Keywords.Registry.{kw, keywords_for_draft, lookup_keyword}
use jsonschema.Keywords.Lookup.{distinct_names, find_named, lookup_keyword-keywords_for_draft}

named_definitions : codes "definitions" ≢ []
unfolding str_eq
named_definitions e = true≢false (ap (str_eq (codes "definitions")) e)

lookup_keyword-keywords_for_draft_example :
    (lookup_keyword (codes "definitions") draft_7
      ≡ find_named (codes "definitions") (keywords_for_draft draft_7))
    × (distinct_names [] (keywords_for_draft draft_7) ≡ true)
lookup_keyword-keywords_for_draft_example =
    lookup_keyword-keywords_for_draft (codes "definitions") draft_7 named_definitions

found_definitions :
    lookup_keyword (codes "definitions") draft_7
    ≡ some (kw (codes "definitions") draft_4 draft_2019_09)
unfolding lookup_keyword
found_definitions = refl

retired_definitions : lookup_keyword (codes "definitions") draft_2019_09 ≡ none
unfolding lookup_keyword
retired_definitions = refl

draft_from_meta_schema_url-meta_schema_url_example :
    draft_from_meta_schema_url (λ s. s) (meta_schema_url draft_6) ≡ draft_6
draft_from_meta_schema_url-meta_schema_url_example =
    draft_from_meta_schema_url-meta_schema_url (λ s. s) (λ s h. refl) draft_6
