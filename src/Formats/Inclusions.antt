-- ===== src/Formats/Inclusions.antt =====
-- Formats of formats.go that accept what another accepts.
use jsonschema.Prelude.{
  ℕ, Bool, true, false, not, ◌&&◌, ◌||◌, [], ◌∷◌, Option, none, some, ◌≡◌, refl, ap, ◌∙◌, ◌⊎◌, inl,
  inr, leb, if◌then◌else◌, arith,
}
use jsonschema.Prelude.Bytes.{Bytes, codes, contains_byte, cut_at, is_ascii}
use jsonschema.Formats.Types.{Failure, Platform, format_err, format_err_cause, is_empty, is_letter}
use jsonschema.Formats.Uris.{
  uri_char, is_uri_ref_chars, is_iri_ref_chars, valid_percent_encoding, check_uri_authority,
  ctrl_rune, ctrl_runes, contains_ctrl, is_valid_uri_scheme, parses, uri_parsed, url_parsed,
  uri_with_scheme, validate_uri, validate_uri_reference, validate_iri_reference,
}
use jsonschema.Formats.Ascii.{runes_ascii}

-- A guard that let a value pass.
pub past :
    (e : Failure) (y : Option Failure) (b : Bool)
    → (if b then some e else y) ≡ none
    → (b ≡ false) × (y ≡ none)
past e y true h = absurd (ground arith)
past e y false h = (refl, h)

pub not-false : (b : Bool) → not b ≡ false → b ≡ true
not-false true h = refl
not-false false h = absurd (ground arith)

uri_char-ctrl_rune : (c : ℕ) → uri_char c ≡ true → ctrl_rune c ≡ false
unfolding uri_char ctrl_rune is_letter contains_byte
uri_char-ctrl_rune c h = ground arith

pub both : (a b : Bool) → a && b ≡ true → (a ≡ true) × (b ≡ true)
both a b h = (ground arith, ground arith)

is_uri_ref_chars-ctrl_runes : (s : Bytes) → is_uri_ref_chars s ≡ true → ctrl_runes s ≡ false
unfolding is_uri_ref_chars ctrl_runes
is_uri_ref_chars-ctrl_runes [] h = refl
is_uri_ref_chars-ctrl_runes (c ∷ s) h =
    let (here, there) = both (uri_char c) (is_uri_ref_chars s) h in
    λ i. uri_char-ctrl_rune c here i || is_uri_ref_chars-ctrl_runes s there i

or_true : (a b : Bool) → b ≡ true → a || b ≡ true
or_true a b h = ground arith

is_uri_ref_chars-is_iri_ref_chars :
    (s : Bytes) → is_uri_ref_chars s ≡ true → is_iri_ref_chars s ≡ true
unfolding is_uri_ref_chars is_iri_ref_chars
is_uri_ref_chars-is_iri_ref_chars [] h = refl
is_uri_ref_chars-is_iri_ref_chars (c ∷ s) h =
    let (here, there) = both (uri_char c) (is_uri_ref_chars s) h in
    λ i. or_true (leb 0x80 c) (uri_char c) here i && is_uri_ref_chars-is_iri_ref_chars s there i

-- What an accepted URI has passed.
record UriTests (p : Platform) (s : Bytes) : Type 0 where
  ascii : is_ascii s ≡ true
  chars : is_uri_ref_chars s ≡ true
  percent : valid_percent_encoding s ≡ true
  authority : check_uri_authority s ≡ true
  parsed : (format : Bytes) → parses p format s ≡ none

uri_parsed-url_parsed :
    (format s : Bytes) (o : Bytes ⊎ Bytes) → uri_parsed s o ≡ none → url_parsed format s o ≡ none
unfolding uri_parsed url_parsed format_err_cause
uri_parsed-url_parsed format s (inl e) h = absurd (ground arith)
uri_parsed-url_parsed format s (inr scheme) h = refl

uri_with_scheme-parses :
    (p : Platform) (format s : Bytes) (o : Option (Bytes × Bytes))
    → uri_with_scheme p s o ≡ none
    → parses p format s ≡ none
unfolding uri_with_scheme format_err parses
uri_with_scheme-parses p format s none h = absurd (ground arith)
uri_with_scheme-parses p format s (some (before, rest)) h =
    let (filled, h1) = past _ _ (is_empty before) h in
    let (valid, h2) = past _ _ (not (is_valid_uri_scheme before)) h1 in
    uri_parsed-url_parsed format s (p.parse_url s) h2

validate_uri-UriTests : (p : Platform) (s : Bytes) → validate_uri p s ≡ none → UriTests p s
unfolding validate_uri format_err
validate_uri-UriTests p s h =
    let (a, h1) = past _ _ (not (is_ascii s)) h in
    let (c, h2) = past _ _ (not (is_uri_ref_chars s)) h1 in
    let (e, h3) = past _ _ (not (valid_percent_encoding s)) h2 in
    let (u, h4) = past _ _ (not (check_uri_authority s)) h3 in
    record {
      ascii = not-false _ a;
      chars = not-false _ c;
      percent = not-false _ e;
      authority = not-false _ u;
      parsed = λ format. uri_with_scheme-parses p format s (cut_at b':' s) h4;
    }

-- The guard that a test opens.
pub opened : (e y : Option Failure) (b : Bool) → b ≡ true → (if not b then e else y) ≡ y
opened e y true h = refl
opened e y false h = absurd (ground arith)

pub closed : (e y : Option Failure) (b : Bool) → b ≡ false → (if b then e else y) ≡ y
closed e y true h = absurd (ground arith)
closed e y false h = refl

contains_ctrl-uri :
    (s : Bytes) → is_ascii s ≡ true → is_uri_ref_chars s ≡ true → contains_ctrl s ≡ false
unfolding contains_ctrl
contains_ctrl-uri s a h = ap ctrl_runes (runes_ascii s a) ∙ is_uri_ref_chars-ctrl_runes s h

-- A text that the format uri accepts is accepted by uri-reference and by iri-reference.
pub validate_uri-references :
    (p : Platform) (s : Bytes)
    → validate_uri p s ≡ none
    → (validate_uri_reference p s ≡ none) × (validate_iri_reference p s ≡ none)
unfolding validate_uri_reference validate_iri_reference format_err
validate_uri-references p s h =
    let t = validate_uri-UriTests p s h in
    (
      opened _ _ (is_ascii s) t.ascii
          ∙ (opened _ _ (is_uri_ref_chars s) t.chars
              ∙ (opened _ _ (valid_percent_encoding s) t.percent
                  ∙ (opened _ _ (check_uri_authority s) t.authority
                      ∙ t.parsed (codes "uri-reference")))),
      closed _ _ (contains_ctrl s) (contains_ctrl-uri s t.ascii t.chars)
          ∙ (opened _ _ (is_iri_ref_chars s) (is_uri_ref_chars-is_iri_ref_chars s t.chars)
              ∙ (opened _ _ (valid_percent_encoding s) t.percent
                  ∙ t.parsed (codes "iri-reference"))),
    )
