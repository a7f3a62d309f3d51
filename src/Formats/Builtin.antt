-- ===== src/Formats/Builtin.antt =====
-- builtinFormat and lookupFormat of formats.go.
use jsonschema.Prelude.{List, [], ◌∷◌, Option, none, some}
use jsonschema.Prelude.Bytes.{Bytes, codes, lookup}
use jsonschema.Formats.Types.{FormatValidator, Platform}
use jsonschema.Formats.Times.{validate_date_time, validate_date, validate_time}
use jsonschema.Formats.Durations.{validate_duration}
use jsonschema.Formats.Pointers.{validate_json_pointer, validate_relative_json_pointer}
use jsonschema.Formats.Uris.{
  validate_uuid, validate_uri, validate_uri_reference, validate_iri, validate_iri_reference,
}
use jsonschema.Formats.Templates.{validate_uri_template}
use jsonschema.Formats.Hosts.{validate_hostname}
use jsonschema.Formats.IdnHosts.{validate_idn_hostname, validate_ipv4, validate_ipv6}
use jsonschema.Formats.Emails.{validate_email, validate_idn_email, validate_regex}

module _ (p : Platform) where
  -- The switch of builtinFormat, as a table.
  abbrev pub builtin_table : List (Bytes × FormatValidator)
  builtin_table =
      (codes "date-time", validate_date_time p)
      ∷ (codes "date", validate_date p)
      ∷ (codes "time", validate_time)
      ∷ (codes "duration", validate_duration)
      ∷ (codes "uuid", validate_uuid)
      ∷ (codes "uri", validate_uri p)
      ∷ (codes "uri-reference", validate_uri_reference p)
      ∷ (codes "iri", validate_iri p)
      ∷ (codes "iri-reference", validate_iri_reference p)
      ∷ (codes "uri-template", validate_uri_template p)
      ∷ (codes "json-pointer", validate_json_pointer)
      ∷ (codes "relative-json-pointer", validate_relative_json_pointer)
      ∷ (codes "ipv4", validate_ipv4 p)
      ∷ (codes "ipv6", validate_ipv6 p)
      ∷ (codes "hostname", validate_hostname p)
      ∷ (codes "idn-hostname", validate_idn_hostname p)
      ∷ (codes "email", validate_email p)
      ∷ (codes "idn-email", validate_idn_email p)
      ∷ (codes "regex", validate_regex p)
      ∷ []

  unfoldable pub builtin_format : Bytes → Option FormatValidator
  unfolding lookup
  builtin_format name = lookup builtin_table name

  unfoldable pub lookup_format : Bytes → List (Bytes × FormatValidator) → Option FormatValidator
  unfolding lookup builtin_format
  lookup_format name custom = elim (lookup custom name) [
    | some fn ↦ some fn
    | none ↦ builtin_format name
  ]
