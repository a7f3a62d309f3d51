-- ===== src/Formats/Uris.antt =====
-- The formats uuid, uri, uri-reference, iri and iri-reference of formats.go.
use jsonschema.Prelude.{
  ℕ, suc, ◌%◌, Bool, true, false, not, ◌&&◌, ◌||◌, List, [], ◌∷◌, Option, none, some, ◌⊎◌, inl, inr,
  ◌==◌, ltb, leb, if◌then◌else◌, length, drop,
}
use jsonschema.Prelude.Bytes.{
  Bytes, codes, contains_any, contains_byte, cut_at, has_prefix, is_ascii,
}
use jsonschema.Prelude.Utf8.{range, runes}
use jsonschema.Prelude.Atoi.{is_ascii_digit}
use jsonschema.Formats.Types.{
  Failure, foreign, Platform, format_err, format_err_cause, is_empty, is_hex, is_letter,
}

-- The loop of validateUUID over the runes and their positions: none, or the text of the error. A
-- rune is cut to its low byte.
unfoldable pub uuid_runes : List (ℕ × ℕ) → Option Bytes
uuid_runes [] = none
uuid_runes ((i, c) ∷ rest) =
    let later = uuid_runes rest in
    if i == 8 || (i == 13 || (i == 18 || i == 23))
    then (if c == b'-' then later else some (codes "missing hyphen"))
    else if is_hex (c % 256)
    then later
    else some (codes "non-hex character")

unfoldable pub validate_uuid : Bytes → Option Failure
unfolding uuid_runes range is_hex format_err
validate_uuid s =
    if not (length s == 36)
    then format_err (codes "uuid") s (codes "length not 36")
    else elim (uuid_runes (range s)) [ none ↦ none | some text ↦ format_err (codes "uuid") s text ]

unfoldable pub uri_char : ℕ → Bool
unfolding is_letter contains_byte
uri_char c = is_letter c || (is_ascii_digit c || contains_byte (codes "-._~:/?#[]@!$&'()*+,;=%") c)

-- isURIRefChars
unfoldable pub is_uri_ref_chars : Bytes → Bool
unfolding uri_char
is_uri_ref_chars [] = true
is_uri_ref_chars (c ∷ s) = uri_char c && is_uri_ref_chars s

-- isIRIRefChars
unfoldable pub is_iri_ref_chars : Bytes → Bool
unfolding uri_char
is_iri_ref_chars [] = true
is_iri_ref_chars (c ∷ s) = (leb 0x80 c || uri_char c) && is_iri_ref_chars s

-- Two hexadecimal digits lie at the front.
unfoldable pub two_hex : Bytes → Bool
unfolding is_hex
two_hex [] = false
two_hex (a ∷ []) = false
two_hex (a ∷ b ∷ s) = is_hex a && is_hex b

-- validPercentEncoding
unfoldable pub valid_percent_encoding : Bytes → Bool
unfolding two_hex
valid_percent_encoding [] = true
valid_percent_encoding (c ∷ s) = (not (c == b'%') || two_hex s) && valid_percent_encoding s

unfoldable pub scheme_rest : List ℕ → Bool
unfolding is_letter
scheme_rest [] = true
scheme_rest (c ∷ s) =
    (is_letter c || (is_ascii_digit c || (c == b'+' || (c == b'-' || c == b'.')))) && scheme_rest s

-- isValidURIScheme, over the runes.
unfoldable pub scheme_runes : List ℕ → Bool
unfolding is_letter scheme_rest
scheme_runes [] = false
scheme_runes (c ∷ s) = is_letter c && scheme_rest s

unfoldable pub is_valid_uri_scheme : Bytes → Bool
unfolding scheme_runes runes
is_valid_uri_scheme s = scheme_runes (runes s)

unfoldable pub ctrl_rune : ℕ → Bool
ctrl_rune r =
    r == 0 || ((ltb r 0x20 && not (r == 0x09)) || (r == 0x7F || (leb 0xD800 r && leb r 0xDFFF)))

unfoldable pub ctrl_runes : List ℕ → Bool
unfolding ctrl_rune
ctrl_runes [] = false
ctrl_runes (r ∷ rs) = ctrl_rune r || ctrl_runes rs

-- containsCtrl
unfoldable pub contains_ctrl : Bytes → Bool
unfolding ctrl_runes runes
contains_ctrl s = ctrl_runes (runes s)

-- What lies in front of the first of the bytes "/?#", and what lies from it on.
unfoldable pub authority_end : Bytes → Bytes × Bytes
authority_end [] = ([], [])
authority_end (c ∷ s) =
    let (front, back) = authority_end s in
    if c == b'/' || (c == b'?' || c == b'#') then ([], c ∷ s) else (c ∷ front, back)

-- strings.Count of one byte.
unfoldable pub count_byte : ℕ → Bytes → ℕ
count_byte c [] = 0
count_byte c (d ∷ s) = let rest = count_byte c s in if d == c then suc rest else rest

-- What follows the last `c`; the whole text where there is none.
unfoldable pub after_last : ℕ → Bytes → Bytes
unfolding contains_byte
after_last c [] = []
after_last c (d ∷ s) =
    let rest = after_last c s in
    if d == c && not (contains_byte s c) then s else if contains_byte s c then rest else d ∷ s

-- checkIRIAuthority
unfoldable pub check_iri_authority : Bytes → Bool
unfolding has_prefix authority_end count_byte after_last
check_iri_authority rest =
    if not (has_prefix rest (codes "//"))
    then true
    else let (whole, tail) = authority_end (drop 2 rest) in
      let auth = after_last b'@' whole in
      has_prefix auth (codes "[") || not (ltb 1 (count_byte b':' auth))

abbrev brackets : Bytes
brackets = codes "[]"

-- The host of checkURIAuthority: an IP literal has its brackets around it.
unfoldable pub brackets_ok : Bytes → Bool
unfolding has_prefix contains_any cut_at
brackets_ok auth =
    if not (has_prefix auth (codes "["))
    then not (contains_any auth brackets)
    else elim (cut_at b']' auth) [
      | none ↦ false
      | some (host, behind) ↦ not (contains_any behind brackets)
    ]

-- What follows the scheme, where there is one.
unfoldable pub after_scheme : Bytes → Bytes
unfolding cut_at is_valid_uri_scheme is_empty
after_scheme s = elim (cut_at b':' s) [
  | none ↦ s
  | some (scheme, rest) ↦ if not (is_empty scheme) && is_valid_uri_scheme scheme then rest else s
]

-- checkURIAuthority
unfoldable pub check_uri_authority : Bytes → Bool
unfolding after_scheme has_prefix contains_any authority_end count_byte cut_at brackets_ok
check_uri_authority s =
    let rest = after_scheme s in
    if not (has_prefix rest (codes "//"))
    then not (contains_any rest brackets)
    else let (auth, tail) = authority_end (drop 2 rest) in
      if contains_any tail brackets || ltb 1 (count_byte b'@' auth)
      then false
      else elim (cut_at b'@' auth) [
        | none ↦ brackets_ok auth
        | some (user, host) ↦ if contains_any user brackets then false else brackets_ok host
      ]

-- What is made of a result of url.Parse, where its scheme does not matter, and by validateURI.
unfoldable pub url_parsed : Bytes → Bytes → Bytes ⊎ Bytes → Option Failure
unfolding format_err_cause
url_parsed format s (inl e) = format_err_cause format s (foreign e)
url_parsed format s (inr scheme) = none

unfoldable pub uri_parsed : Bytes → Bytes ⊎ Bytes → Option Failure
unfolding format_err format_err_cause is_empty
uri_parsed s (inl e) = format_err_cause (codes "uri") s (foreign e)
uri_parsed s (inr scheme) =
    if is_empty scheme then format_err (codes "uri") s (codes "missing scheme") else none

module _ (p : Platform) where
  unfoldable pub parses : Bytes → Bytes → Option Failure
  unfolding url_parsed
  parses format s = url_parsed format s (p.parse_url s)

  -- validateURI, from its search for a colon on.
  unfoldable pub uri_with_scheme : Bytes → Option (Bytes × Bytes) → Option Failure
  unfolding is_empty is_valid_uri_scheme uri_parsed format_err
  uri_with_scheme s none = format_err (codes "uri") s (codes "missing scheme")
  uri_with_scheme s (some (before, rest)) =
      if is_empty before
      then format_err (codes "uri") s (codes "missing scheme")
      else if not (is_valid_uri_scheme before)
      then format_err (codes "uri") s (codes "invalid scheme")
      else uri_parsed s (p.parse_url s)

  unfoldable pub validate_uri : Bytes → Option Failure
  unfolding is_ascii is_uri_ref_chars valid_percent_encoding check_uri_authority cut_at
      uri_with_scheme format_err
  validate_uri s =
      if not (is_ascii s)
      then format_err (codes "uri") s (codes "non-ASCII; use iri")
      else if not (is_uri_ref_chars s)
      then format_err (codes "uri") s (codes "invalid character")
      else if not (valid_percent_encoding s)
      then format_err (codes "uri") s (codes "bad percent-encoding")
      else if not (check_uri_authority s)
      then format_err (codes "uri") s (codes "bad authority or misplaced brackets")
      else uri_with_scheme s (cut_at b':' s)

  unfoldable pub validate_uri_reference : Bytes → Option Failure
  unfolding is_ascii is_uri_ref_chars valid_percent_encoding check_uri_authority parses format_err
  validate_uri_reference s =
      if not (is_ascii s)
      then format_err (codes "uri-reference") s (codes "non-ASCII; use iri-reference")
      else if not (is_uri_ref_chars s)
      then format_err (codes "uri-reference") s (codes "invalid character")
      else if not (valid_percent_encoding s)
      then format_err (codes "uri-reference") s (codes "bad percent-encoding")
      else if not (check_uri_authority s)
      then format_err (codes "uri-reference") s (codes "bad authority or misplaced brackets")
      else parses (codes "uri-reference") s

  unfoldable pub validate_iri : Bytes → Option Failure
  unfolding contains_ctrl is_iri_ref_chars valid_percent_encoding cut_at is_empty
      is_valid_uri_scheme check_iri_authority parses format_err
  validate_iri s =
      if contains_ctrl s
      then format_err (codes "iri") s (codes "control character")
      else if not (is_iri_ref_chars s)
      then format_err (codes "iri") s (codes "invalid character")
      else if not (valid_percent_encoding s)
      then format_err (codes "iri") s (codes "bad percent-encoding")
      else elim (cut_at b':' s) [
        | none ↦ format_err (codes "iri") s (codes "missing scheme")
        | some (before, rest) ↦
            if is_empty before
            then format_err (codes "iri") s (codes "missing scheme")
            else if not (is_valid_uri_scheme before)
            then format_err (codes "iri") s (codes "invalid scheme")
            else if not (check_iri_authority rest)
            then format_err (codes "iri") s (codes "bad authority")
            else parses (codes "iri") s
      ]

  unfoldable pub validate_iri_reference : Bytes → Option Failure
  unfolding contains_ctrl is_iri_ref_chars valid_percent_encoding parses format_err
  validate_iri_reference s =
      if contains_ctrl s
      then format_err (codes "iri-reference") s (codes "control character")
      else if not (is_iri_ref_chars s)
      then format_err (codes "iri-reference") s (codes "invalid character")
      else if not (valid_percent_encoding s)
      then format_err (codes "iri-reference") s (codes "bad percent-encoding")
      else parses (codes "iri-reference") s
