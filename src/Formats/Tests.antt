-- ===== src/Formats/Tests.antt =====
-- The theorems on formats and pointers applied at concrete texts.
use jsonschema.Prelude.{
  ℕ, true, false, List, [], ◌∷◌, none, some, ◌≡◌, ◌≢◌, ◌↔◌, inl, inr, refl, sym, ap, ◌∙◌, arith,
}
use mathlib.Core.Bool.{true≢false}
use jsonschema.Prelude.Bytes.{lookup, Bytes, codes, is_ascii, str_eq, itoa}
use jsonschema.Value.{Value, null, boolean, array, object, item, nil, field, end, items, entries}
use jsonschema.Eval.Types.{InstanceStep, key, index}
use jsonschema.Eval.Paths.{instance_pointer}
use jsonschema.Formats.Types.{
  Failure, bad_duration, format_error, format_invalid, Platform, format_err,
}
use jsonschema.Formats.Times.{validate_time, is_full_time}
use jsonschema.Formats.Pointers.{validate_json_pointer}
use jsonschema.Formats.Uris.{validate_uri, validate_uri_reference, validate_iri_reference, uri_char}
use jsonschema.Formats.Hosts.{validate_hostname}
use jsonschema.Formats.IdnHosts.{validate_idn_hostname}
use jsonschema.Formats.Builtin.{builtin_format}
use jsonschema.Formats.Clocks.{is_full_time-rfc, print_time, rfc_time, ahead, zone_two}
use jsonschema.Prelude.Utf8.{runes}
use jsonschema.Formats.Punycode.{
  decode_loop, decode_punycode, decoding, encode_punycode, split_basic,
}
use jsonschema.Formats.Encoding.{scalar_values}
use jsonschema.Formats.Runes.{decode_punycode-scalar_values}
use jsonschema.Formats.Templates.{starved, template_error, validate_uri_template}
use jsonschema.Formats.Rounds.{template_error-fuel}
use jsonschema.Formats.Durations.{parse_duration_time, validate_duration}
use jsonschema.Formats.Grammar.{Chain, parse_duration_time_iff}
use jsonschema.Formats.Uris.{validate_uuid}
use jsonschema.Formats.Reports.{builtin_format-names}
use jsonschema.Formats.Inclusions.{validate_uri-references}
use jsonschema.Formats.Names.{validate_idn_hostname-hostname}
use jsonschema.Refs.Pointer.{json_pointer}
use jsonschema.Refs.Tokens.{print_pointer, validate_json_pointer_iff}
use jsonschema.Refs.Locations.{
  plain_steps, value_at, validate_json_pointer-instance_pointer, json_pointer-instance_pointer,
}

-- Packages that accept every text.
abbrev platform : Platform
platform = record {
  parse_date = λ s. none;
  parse_url = λ s. inr (codes "http");
  parse_addr = λ s. inr (record { is_4 = true; is_6 = false });
  is_mark = λ r. false;
  is_greek = λ r. false;
  is_hebrew = λ r. false;
  is_kana_or_han = λ r. false;
  is_other = λ r. false;
  is_separator = λ r. false;
  quote_byte = λ c. c ∷ [];
  hex_rune = λ r. [];
  translate_ecma = λ s. inr s;
  parse_regex = λ s. none;
}

late_time :
    validate_time (codes "25:00:00Z")
    ≡ some (
        format_error
          (codes "time")
          (codes "25:00:00Z")
          (format_invalid (codes "not RFC 3339 full-time")))
unfolding validate_time format_err
late_time = refl

time_found : builtin_format platform (codes "time") ≡ some validate_time
unfolding builtin_format
time_found = refl

time_name : codes "time" ≢ codes "relative-json-pointer"
unfolding str_eq
time_name e = true≢false (ap (str_eq (codes "time")) e)

builtin_format-names_example :
    (cause : Failure) × (format_error
        (codes "time")
        (codes "25:00:00Z")
        (format_invalid (codes "not RFC 3339 full-time"))
      ≡ format_error (codes "time") (codes "25:00:00Z") cause)
builtin_format-names_example =
    builtin_format-names platform (codes "time") (codes "25:00:00Z") validate_time
      (format_error (codes "time") (codes "25:00:00Z")
        (format_invalid (codes "not RFC 3339 full-time")))
      time_name time_found late_time

validate_json_pointer_iff_example :
    (validate_json_pointer (codes "/a~0b/") ≡ none)
    ↔ ((ts : List Bytes) × (codes "/a~0b/" ≡ print_pointer ts))
validate_json_pointer_iff_example = validate_json_pointer_iff (codes "/a~0b/")

abbrev steps : List InstanceStep
steps = index 1 ∷ key (codes "a/b~") ∷ []

validate_json_pointer-instance_pointer_example :
    validate_json_pointer (instance_pointer steps) ≡ none
unfolding plain_steps is_ascii
validate_json_pointer-instance_pointer_example = validate_json_pointer-instance_pointer steps refl

abbrev document : Value
document = object (field (codes "a/b~") (array (item null (item (boolean true) nil))) end)

steps_location : instance_pointer steps ≡ codes "/a~1b~0/1"
unfolding instance_pointer itoa
steps_location = refl

long_location : codes "/a~1b~0/1" ≢ b'/' ∷ []
unfolding str_eq
long_location e = true≢false (ap (str_eq (codes "/a~1b~0/1")) e)

json_pointer-instance_pointer_example :
    json_pointer document (instance_pointer steps) ≡ inr (boolean true)
unfolding plain_steps value_at entries items is_ascii lookup
json_pointer-instance_pointer_example =
    json_pointer-instance_pointer document (boolean true) steps refl
      (λ e. long_location (sym steps_location ∙ e)) refl

uri_accepted : validate_uri platform (codes "http://a/%20") ≡ none
unfolding validate_uri uri_char
uri_accepted = refl

validate_uri-references_example :
    (validate_uri_reference platform (codes "http://a/%20") ≡ none)
    × (validate_iri_reference platform (codes "http://a/%20") ≡ none)
validate_uri-references_example =
    validate_uri-references platform (codes "http://a/%20") uri_accepted

name_accepted : validate_idn_hostname platform (codes "ab.c-d") ≡ none
unfolding validate_idn_hostname
name_accepted = refl

validate_idn_hostname-hostname_example : validate_hostname platform (codes "ab.c-d") ≡ none
unfolding is_ascii
validate_idn_hostname-hostname_example =
    validate_idn_hostname-hostname platform (codes "ab.c-d") refl name_accepted

-- A leap second in a zone ahead of UTC.
is_full_time-rfc_example :
    is_full_time (print_time 0 59 60 (ahead 1 0)) ≡ rfc_time 0 59 60 (ahead 1 0)
unfolding zone_two
is_full_time-rfc_example =
    is_full_time-rfc 0 59 60 (ahead 1 0) (omega arith) (omega arith) (omega arith) refl

leap_second : rfc_time 0 59 60 (ahead 1 0) ≡ true
unfolding rfc_time
leap_second = refl

signed_fields : is_full_time (codes "+1:+2:+3Z") ≡ true
unfolding is_full_time
signed_fields = refl

-- The label "münchen".
munich : decode_punycode (codes "mnchen-3ya") ≡ some (b'm' ∷ 0xC3 ∷ 0xBC ∷ codes "nchen")
unfolding decode_punycode
munich = refl

munich_encoded : encode_punycode (b'm' ∷ 0xC3 ∷ 0xBC ∷ codes "nchen") ≡ codes "mnchen-3ya"
unfolding encode_punycode
munich_encoded = refl

abbrev munich_runes : List ℕ
munich_runes = runes (b'm' ∷ 0xC3 ∷ 0xBC ∷ codes "nchen")

decode_punycode-scalar_values_example :
    (decode_loop
        (decoding (split_basic (codes "mnchen-3ya")).0)
        (split_basic (codes "mnchen-3ya")).1
      ≡ some munich_runes)
    × (scalar_values munich_runes ≡ true)
decode_punycode-scalar_values_example =
    decode_punycode-scalar_values (codes "mnchen-3ya") (b'm' ∷ 0xC3 ∷ 0xBC ∷ codes "nchen") munich

u_umlaut : munich_runes ≡ b'm' ∷ 0xFC ∷ codes "nchen"
unfolding runes
u_umlaut = refl

-- The label of a surrogate alone.
surrogate_refused : decode_punycode (codes "ib9b") ≡ none
unfolding decode_punycode
surrogate_refused = refl

template_error-fuel_example :
    (template_error platform 9 (codes "/{a*,b}%2") ≢ starved)
    × (template_error platform 9 (codes "/{a*,b}%2")
        ≡ template_error platform 20 (codes "/{a*,b}%2"))
template_error-fuel_example =
    template_error-fuel platform 9 20 (codes "/{a*,b}%2") (omega arith) (omega arith)

bad_template :
    validate_uri_template platform (codes "/{a*,b}%2")
    ≡ format_err (codes "uri-template") (codes "/{a*,b}%2") (codes "bad percent-encoding")
unfolding validate_uri_template
bad_template = refl

durations : validate_duration (codes "P1Y2M3DT4H5M6S") ≡ none
unfolding validate_duration
durations = refl

-- A rune whose low byte is a digit passes as one.
loose_uuid : validate_uuid (0xC4 ∷ 0xB0 ∷ codes "000000-0000-0000-0000-000000000000") ≡ none
unfolding validate_uuid
loose_uuid = refl

parse_duration_time_iff_example :
    (parse_duration_time false none false (codes "10M6S") ≡ inr true)
    ↔ ((i : ℕ) × Chain b'H' b'M' b'S' i (codes "10M6S"))
parse_duration_time_iff_example = parse_duration_time_iff (codes "10M6S")

-- Hours and seconds leave a gap.
duration_gap :
    parse_duration_time false none false (codes "1H6S")
    ≡ inl (bad_duration (codes "time designator S violates H/M/S hierarchy"))
unfolding parse_duration_time
duration_gap = refl
