-- ===== src/Keywords/Lookup.antt =====
-- LookupKeyword against KeywordsForDraft (keywords.go).
use jsonschema.Prelude.{
  Bool, true, false, not, ◌&&◌, ◌||◌, List, [], ◌∷◌, Option, none, some, ◌≡◌, ◌≢◌, refl, sym, ap,
  ◌∙◌, if◌then◌else◌, arith,
}
use jsonschema.Prelude.Bytes.{Bytes, has_key, str_eq, str_eq_iff}
use jsonschema.Keywords.Drafts.{Draft, is_unknown}
use jsonschema.Keywords.Registry.{
  Keyword, std_vocabularies, keyword_active_in, all_keywords, active_keywords, keywords_for_draft,
  find_active, lookup_keyword,
}

-- The first keyword of a list with a name.
unfoldable pub find_named : Bytes → List Keyword → Option Keyword
unfolding str_eq
find_named n [] = none
find_named n (k ∷ ks) = if str_eq k.name n then some k else find_named n ks

-- No name occurs twice, or among the names given.
unfoldable pub distinct_names : List Bytes → List Keyword → Bool
unfolding has_key
distinct_names seen [] = true
distinct_names seen (k ∷ ks) = not (has_key seen k.name) && distinct_names (k.name ∷ seen) ks

active_keywords-distinct :
    (d : Draft) (seen : List Bytes) (ks : List Keyword)
    → distinct_names seen (active_keywords d seen ks) ≡ true
unfolding active_keywords distinct_names
active_keywords-distinct d seen [] = refl
active_keywords-distinct d seen (k ∷ ks) =
    at (keyword_active_in k d) (has_key seen k.name) refl (active_keywords-distinct d seen ks)
      (active_keywords-distinct d (k.name ∷ seen) ks)
  where
    at :
        (active met : Bool)
        → has_key seen k.name ≡ met
        → distinct_names seen (active_keywords d seen ks) ≡ true
        → distinct_names (k.name ∷ seen) (active_keywords d (k.name ∷ seen) ks) ≡ true
        → distinct_names seen (elim active [
          | false ↦ active_keywords d seen ks
          | true ↦ elim met [
            | true ↦ active_keywords d seen ks
            | false ↦ k ∷ active_keywords d (k.name ∷ seen) ks
          ]
        ])
          ≡ true
    at false met e skip take = skip
    at true true e skip take = skip
    at true false e skip take = λ i. not (e i) && take i

-- What is found behind a keyword that is skipped, and behind one that is kept.
skipped :
    (a m q h : Bool) (x fa : Option Keyword) (k : Keyword)
    → (q ≡ true → m ≡ h)
    → a && not m ≡ false
    → x ≡ (if h then none else fa)
    → x ≡ (if h then none else (if q then (if a then some k else fa) else fa))
skipped a m q true x fa k same dead e = e
skipped a m false false x fa k same dead e = e
skipped false m true false x fa k same dead e = e
skipped true m true false x fa k same dead e = absurd (ground arith)

kept :
    (m q h : Bool) (y fa : Option Keyword) (k : Keyword)
    → (q ≡ true → m ≡ h)
    → m ≡ false
    → y ≡ (if q || h then none else fa)
    → (if q then some k else y) ≡ (if h then none else (if q then some k else fa))
kept m true true y fa k same fresh e = absurd (ground arith)
kept m true false y fa k same fresh e = refl
kept m false h y fa k same fresh e = e

nothing_twice : (h : Bool) → ◌≡◌ {A = Option Keyword} none (if h then none else none)
nothing_twice true = refl
nothing_twice false = refl

find_named-active :
    (n : Bytes) (d : Draft) (seen : List Bytes) (ks : List Keyword)
    → find_named n (active_keywords d seen ks)
      ≡ (if has_key seen n then none else find_active n d ks)
unfolding active_keywords find_named find_active has_key
find_named-active n d seen [] = nothing_twice (has_key seen n)
find_named-active n d seen (k ∷ ks) =
    at (keyword_active_in k d) (has_key seen k.name) refl
      (λ same. ap (has_key seen) ((str_eq_iff k.name n).0 same)) (find_named-active n d seen ks)
      (find_named-active n d (k.name ∷ seen) ks)
  where
    at :
        (active met : Bool)
        → has_key seen k.name ≡ met
        → (str_eq k.name n ≡ true → has_key seen k.name ≡ has_key seen n)
        → find_named n (active_keywords d seen ks)
          ≡ (if has_key seen n then none else find_active n d ks)
        → find_named n (active_keywords d (k.name ∷ seen) ks)
          ≡ (if str_eq k.name n || has_key seen n then none else find_active n d ks)
        → find_named n (elim active [
          | false ↦ active_keywords d seen ks
          | true ↦ elim met [
            | true ↦ active_keywords d seen ks
            | false ↦ k ∷ active_keywords d (k.name ∷ seen) ks
          ]
        ])
          ≡ (if has_key seen n
              then none
              else if str_eq k.name n
              then (if active then some k else find_active n d ks)
              else find_active n d ks)
    at false met e same skip take =
        skipped false met (str_eq k.name n) (has_key seen n) _ (find_active n d ks) k
          (λ q. sym e ∙ same q) refl skip
    at true true e same skip take =
        skipped true true (str_eq k.name n) (has_key seen n) _ (find_active n d ks) k
          (λ q. sym e ∙ same q) refl skip
    at true false e same skip take =
        kept false (str_eq k.name n) (has_key seen n) _ (find_active n d ks) k (λ q. sym e ∙ same q)
          refl take

-- LookupKeyword finds what KeywordsForDraft lists: for every name but the empty one, the keyword of that
-- name in the list, which has each name once, and nothing where the list has no such name.
pub lookup_keyword-keywords_for_draft :
    (n : Bytes) (d : Draft)
    → n ≢ []
    → (lookup_keyword n d ≡ find_named n (keywords_for_draft d))
      × (distinct_names [] (keywords_for_draft d) ≡ true)
unfolding lookup_keyword keywords_for_draft find_named distinct_names has_key
lookup_keyword-keywords_for_draft [] d ne = absurd (ne refl)
lookup_keyword-keywords_for_draft (c ∷ n) d ne = at (is_unknown d)
  where
    at :
        (unknown : Bool)
        → ((if unknown then none else find_active (c ∷ n) d (all_keywords std_vocabularies))
            ≡ find_named
                (c ∷ n)
                (if unknown then [] else active_keywords d [] (all_keywords std_vocabularies)))
          × (distinct_names []
                (if unknown then [] else active_keywords d [] (all_keywords std_vocabularies))
              ≡ true)
    at true = (refl, refl)
    at false = (
      sym (find_named-active (c ∷ n) d [] (all_keywords std_vocabularies)),
      active_keywords-distinct d [] (all_keywords std_vocabularies),
    )
