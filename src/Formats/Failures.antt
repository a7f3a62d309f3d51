-- ===== src/Formats/Failures.antt =====
-- The errors of the built-in formats (formats.go): each is a FormatError.
use jsonschema.Prelude.{
  ℕ, ◌+◌, ◌*◌, Bool, true, false, not, ◌&&◌, ◌||◌, List, [], ◌∷◌, ◌++◌, Option, none, some, ◌⊎◌,
  inl, inr, ◌==◌, ltb, if◌then◌else◌, length, take, drop,
}
use jsonschema.Prelude.Bytes.{
  Bytes, codes, contains_byte, cut_at, drop_last, ends_with, is_ascii, split_on,
}
use jsonschema.Prelude.Utf8.{encode_runes, range, runes}
use jsonschema.Formats.Types.{
  Failure, FormatValidator, format_error, Platform, format_err, format_err_cause, is_at, is_empty,
  only_digits,
}
use jsonschema.Formats.Times.{
  validate_date_time, validate_date, validate_time, is_full_time, is_full_date,
}
use jsonschema.Formats.Durations.{validate_duration, parse_duration_date_time}
use jsonschema.Formats.Pointers.{validate_json_pointer, tildes_ok}
use jsonschema.Formats.Uris.{
  uuid_runes, url_parsed, uri_parsed, uri_with_scheme, is_uri_ref_chars, is_iri_ref_chars,
  valid_percent_encoding, check_uri_authority, check_iri_authority, is_valid_uri_scheme,
  contains_ctrl, validate_uuid, parses, validate_uri, validate_uri_reference, validate_iri,
  validate_iri_reference,
}
use jsonschema.Formats.Templates.{
  Checked, well_formed, starved, malformed, template_error, validate_uri_template,
}
use jsonschema.Formats.Hosts.{
  a_label_len, check_ldh_label, check_u_label, is_hostname_label, hostname_labels, ldh_labels,
  validate_hostname_rfc1123, validate_hostname,
}
use jsonschema.Formats.IdnHosts.{
  map_runes, idn_rune_error, idn_behind_runes, idn_named, idn_label, idn_labels,
  validate_idn_hostname, validate_ipv4, validate_ipv6,
}
use jsonschema.Formats.Emails.{
  split_addr_spec, validate_addr_local, validate_addr_domain, check_address, validate_email,
  validate_idn_email, validate_regex,
}

-- No error, or a FormatError with the format's name and the value.
pub data Named (format s : Bytes) : Option Failure → Type 0 where
  fine : Named format s none
  named : (cause : Failure) → Named format s (some (format_error format s cause))

module _ {format s : Bytes} where
  Named-if :
      {x y : Option Failure} (b : Bool)
      → Named format s x
      → Named format s y
      → Named format s (if b then x else y)
  Named-if true hx hy = hx
  Named-if false hx hy = hy

  Named-option :
      {A : Type 0} {x : Option Failure} {f : A → Option Failure} (o : Option A)
      → Named format s x
      → ((a : A) → Named format s (f a))
      → Named format s (elim o [ none ↦ x | some a ↦ f a ])
  Named-option none hx hf = hx
  Named-option (some a) hx hf = hf a

  Named-first :
      {o y : Option Failure}
      → Named format s o
      → Named format s y
      → Named format s (elim o [ some e ↦ some e | none ↦ y ])
  Named-first fine hy = hy
  Named-first (named cause) hy = named cause

  Named-sum :
      {A B : Type 0} {f : A → Option Failure} {g : B → Option Failure} (o : A ⊎ B)
      → ((a : A) → Named format s (f a))
      → ((b : B) → Named format s (g b))
      → Named format s (elim o [ inl a ↦ f a | inr b ↦ g b ])
  Named-sum (inl a) hf hg = hf a
  Named-sum (inr b) hf hg = hg b

-- Every error of a validator is a FormatError of the format.
unfoldable pub Reports : Bytes → FormatValidator → Type 0
Reports name f = (s : Bytes) → Named name s (f s)

pub validate_time-Reports : Reports (codes "time") (validate_time)
unfolding Reports validate_time format_err format_err_cause
validate_time-Reports s = Named-if (is_full_time s) fine (named _)

pub validate_duration-Reports : Reports (codes "duration") (validate_duration)
unfolding Reports validate_duration format_err format_err_cause
validate_duration-Reports [] = named _
validate_duration-Reports (c ∷ []) = named _
validate_duration-Reports (c ∷ d ∷ s) = Named-if (not (c == b'P')) (named _) (
    Named-if (ends_with b'W' (d ∷ s))
      (Named-if (is_empty (drop_last (d ∷ s))) (named _)
        (Named-if (only_digits (runes (drop_last (d ∷ s)))) fine (named _)))
      (Named-option (parse_duration_date_time (d ∷ s)) fine (λ e. named _)))

pub validate_uuid-Reports : Reports (codes "uuid") (validate_uuid)
unfolding Reports validate_uuid format_err format_err_cause
validate_uuid-Reports s =
    Named-if (not (length s == 36)) (named _)
      (Named-option (uuid_runes (range s)) fine (λ e. named _))

module _ (p : Platform) where
  pub validate_date_time-Reports : Reports (codes "date-time") (validate_date_time p)
  unfolding Reports validate_date_time format_err format_err_cause
  validate_date_time-Reports s = Named-if (ltb (length s) 11) (named _) (
      Named-if (not (is_at 10 b'T' s) && not (is_at 10 b't' s)) (named _) (
        Named-option (p.parse_date (take 10 s))
          (Named-if (is_full_time (drop 11 s)) fine
            (Named-if (is_full_time (drop 11 s ++ b'Z' ∷ [])) (named _) (named _)))
          (λ e. named _)))

  pub validate_date-Reports : Reports (codes "date") (validate_date p)
  unfolding Reports validate_date format_err format_err_cause
  validate_date-Reports s =
      Named-if (is_full_date s) (Named-option (p.parse_date s) fine (λ e. named _)) (named _)

  parses-Named : (format s : Bytes) → Named format s (parses p format s)
  unfolding parses
  parses-Named format s = at (p.parse_url s)
    where
      at : (o : Bytes ⊎ Bytes) → Named format s (url_parsed format s o)
      at (inl e) = named _
      at (inr scheme) = fine

  uri_parsed-Named : (s : Bytes) (o : Bytes ⊎ Bytes) → Named (codes "uri") s (uri_parsed s o)
  unfolding uri_parsed format_err format_err_cause
  uri_parsed-Named s (inl e) = named _
  uri_parsed-Named s (inr scheme) = Named-if (is_empty scheme) (named _) fine

  uri_with_scheme-Named :
      (s : Bytes) (o : Option (Bytes × Bytes)) → Named (codes "uri") s (uri_with_scheme p s o)
  unfolding uri_with_scheme format_err
  uri_with_scheme-Named s none = named _
  uri_with_scheme-Named s (some (before, rest)) =
      Named-if (is_empty before) (named _)
        (Named-if (not (is_valid_uri_scheme before)) (named _) (uri_parsed-Named s (p.parse_url s)))

  pub validate_uri-Reports : Reports (codes "uri") (validate_uri p)
  unfolding Reports validate_uri format_err
  validate_uri-Reports s = Named-if (not (is_ascii s)) (named _) (
      Named-if (not (is_uri_ref_chars s)) (named _) (
        Named-if (not (valid_percent_encoding s)) (named _) (
          Named-if (not (check_uri_authority s)) (named _)
            (uri_with_scheme-Named s (cut_at b':' s)))))

  pub validate_uri_reference-Reports : Reports (codes "uri-reference") (validate_uri_reference p)
  unfolding Reports validate_uri_reference format_err format_err_cause
  validate_uri_reference-Reports s = Named-if (not (is_ascii s)) (named _) (
      Named-if (not (is_uri_ref_chars s)) (named _) (
        Named-if (not (valid_percent_encoding s)) (named _) (
          Named-if (not (check_uri_authority s)) (named _)
            (parses-Named (codes "uri-reference") s))))

  pub validate_iri-Reports : Reports (codes "iri") (validate_iri p)
  unfolding Reports validate_iri format_err format_err_cause
  validate_iri-Reports s = Named-if (contains_ctrl s) (named _) (
      Named-if (not (is_iri_ref_chars s)) (named _) (
        Named-if (not (valid_percent_encoding s)) (named _) (
          Named-option (cut_at b':' s) (named _) (λ parts. Named-if (is_empty parts.0) (named _) (
            Named-if (not (is_valid_uri_scheme parts.0)) (named _) (
              Named-if (not (check_iri_authority parts.1)) (named _)
                (parses-Named (codes "iri") s)))))))

  pub validate_iri_reference-Reports : Reports (codes "iri-reference") (validate_iri_reference p)
  unfolding Reports validate_iri_reference format_err format_err_cause
  validate_iri_reference-Reports s = Named-if (contains_ctrl s) (named _) (
      Named-if (not (is_iri_ref_chars s)) (named _) (
        Named-if (not (valid_percent_encoding s)) (named _)
          (parses-Named (codes "iri-reference") s)))

  pub validate_uri_template-Reports : Reports (codes "uri-template") (validate_uri_template p)
  unfolding Reports validate_uri_template format_err format_err_cause
  validate_uri_template-Reports s = at (template_error p (length s) s)
    where
      at :
          (o : Checked)
          → Named (codes "uri-template") s (elim o [
            | well_formed ↦ none
            | starved ↦ format_err (codes "uri-template") s []
            | malformed text ↦ format_err (codes "uri-template") s text
          ])
      at well_formed = fine
      at starved = named _
      at (malformed text) = named _

  pub validate_ipv4-Reports : Reports (codes "ipv4") (validate_ipv4 p)
  unfolding Reports validate_ipv4 format_err format_err_cause
  validate_ipv4-Reports s =
      Named-if (ltb 15 (length s)) (named _) (
        Named-sum (p.parse_addr s) (λ e. named _) (λ addr. Named-if (not addr.is_4) (named _) fine))

  pub validate_ipv6-Reports : Reports (codes "ipv6") (validate_ipv6 p)
  unfolding Reports validate_ipv6 format_err format_err_cause
  validate_ipv6-Reports s = Named-if (contains_byte s b'%') (named _) (
      Named-if (ltb 45 (length s)) (named _) (
        Named-sum (p.parse_addr s) (λ e. named _)
          (λ addr. Named-if (not addr.is_6 || addr.is_4) (named _) fine)))

  hostname_rfc1123-Named : (s : Bytes) → Named (codes "hostname") s (validate_hostname_rfc1123 s)
  unfolding validate_hostname_rfc1123 format_err
  hostname_rfc1123-Named s = Named-if (is_empty s || ltb 255 (length s)) (named _) (
      Named-if (ends_with b'.' s) (named _)
        (Named-if (hostname_labels (split_on b'.' s)) fine (named _)))

  pub validate_hostname-Reports : Reports (codes "hostname") (validate_hostname p)
  unfolding Reports validate_hostname format_err format_err_cause
  validate_hostname-Reports s =
      Named-first (hostname_rfc1123-Named s)
        (Named-option (ldh_labels p (split_on b'.' s)) fine (λ e. named _))

  idn_label-Named : (s lbl : Bytes) → Named (codes "idn-hostname") s (idn_label p s lbl)
  unfolding idn_label format_err format_err_cause
  idn_label-Named s lbl = Named-if (is_empty lbl) (named _) (
      Named-if (is_ascii lbl && not (is_hostname_label lbl)) (named _) (
        Named-option (if is_ascii lbl then check_ldh_label p lbl else check_u_label p lbl) fine
          (λ e. named _)))

  idn_labels-Named :
      (s : Bytes) (total : ℕ) (lbls : List Bytes)
      → Named (codes "idn-hostname") s (idn_labels p s total lbls)
  unfolding idn_labels format_err
  idn_labels-Named s total [] = Named-if (ltb 254 total) (named _) fine
  idn_labels-Named s total (lbl ∷ rest) =
      Named-first (idn_label-Named s lbl) (idn_labels-Named s (total + (1 + a_label_len lbl)) rest)

  idn_behind_runes-Named :
      (s name : Bytes) (o : Option Bytes)
      → Named (codes "idn-hostname") s (idn_behind_runes p s name o)
  unfolding idn_behind_runes format_err
  idn_behind_runes-Named s name (some text) = named _
  idn_behind_runes-Named s name none =
      Named-if (ends_with b'.' name) (named _) (idn_labels-Named s 0 (split_on b'.' name))

  idn_named-Named : (s name : Bytes) → Named (codes "idn-hostname") s (idn_named p s name)
  unfolding idn_named format_err
  idn_named-Named s name =
      Named-if (is_empty name || ltb (255 * 4) (length s)) (named _)
        (idn_behind_runes-Named s name (idn_rune_error p (runes name)))

  pub validate_idn_hostname-Reports : Reports (codes "idn-hostname") (validate_idn_hostname p)
  unfolding Reports validate_idn_hostname
  validate_idn_hostname-Reports s = idn_named-Named s (encode_runes (map_runes (runes s)))

  check_address-Named :
      (format : Bytes) (unicode : Bool) (s : Bytes)
      → Named format s (check_address p format unicode s)
  unfolding check_address format_err_cause
  check_address-Named format unicode s =
      Named-sum (split_addr_spec s) (λ e. named _)
        (λ parts.
          Named-option (validate_addr_local p parts.0 unicode)
            (Named-option (validate_addr_domain p parts.1 unicode) fine (λ e. named _))
            (λ e. named _))

  pub validate_email-Reports : Reports (codes "email") (validate_email p)
  unfolding Reports validate_email format_err format_err_cause
  validate_email-Reports s =
      Named-if (not (is_ascii s)) (named _) (check_address-Named (codes "email") false s)

  pub validate_idn_email-Reports : Reports (codes "idn-email") (validate_idn_email p)
  unfolding Reports validate_idn_email format_err format_err_cause
  validate_idn_email-Reports s =
      Named-if (contains_ctrl s) (named _) (check_address-Named (codes "idn-email") true s)

  pub validate_regex-Reports : Reports (codes "regex") (validate_regex p)
  unfolding Reports validate_regex format_err format_err_cause
  validate_regex-Reports s =
      Named-sum (p.translate_ecma s) (λ e. named _)
        (λ t. Named-option (p.parse_regex t) fine (λ e. named _))

pub validate_json_pointer-Reports : Reports (codes "json-pointer") validate_json_pointer
unfolding Reports validate_json_pointer format_err
validate_json_pointer-Reports [] = fine
validate_json_pointer-Reports (c ∷ s) =
    Named-if (not (c == b'/')) (named _) (Named-if (tildes_ok s) fine (named _))
