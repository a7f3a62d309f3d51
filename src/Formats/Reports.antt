-- ===== src/Formats/Reports.antt =====
-- The errors that a caller of builtinFormat sees (formats.go).
use jsonschema.Prelude.{
  List, [], ◌∷◌, Option, some, ◌≡◌, ◌≢◌, refl, sym, if◌then◌else◌, arith, Bool, true, false,
}
use mathlib.Core.Option.{some-injective}
use jsonschema.Prelude.Bytes.{Bytes, codes, lookup, str_eq, str_eq_iff}
use jsonschema.Formats.Types.{Failure, FormatValidator, format_error, Platform}
use jsonschema.Formats.Builtin.{builtin_table, builtin_format}
use jsonschema.Formats.Failures.{
  Named, fine, named, Reports, validate_time-Reports, validate_duration-Reports,
  validate_uuid-Reports, validate_date_time-Reports, validate_date-Reports, validate_uri-Reports,
  validate_uri_reference-Reports, validate_iri-Reports, validate_iri_reference-Reports,
  validate_uri_template-Reports, validate_ipv4-Reports, validate_ipv6-Reports,
  validate_hostname-Reports, validate_idn_hostname-Reports, validate_email-Reports,
  validate_idn_email-Reports, validate_regex-Reports, validate_json_pointer-Reports,
}

-- A predicate holds at each entry of a table.
data Each (P : Bytes → FormatValidator → Type 0) : List (Bytes × FormatValidator) → Type 0 where
  done : Each P []
  entry :
      {k : Bytes} {f : FormatValidator} {m : List (Bytes × FormatValidator)}
      → P k f
      → Each P m
      → Each P ((k, f) ∷ m)

lookup-Each :
    (P : Bytes → FormatValidator → Type 0) (m : List (Bytes × FormatValidator)) (name : Bytes)
    (f : FormatValidator)
    → Each P m
    → lookup m name ≡ some f
    → P name f
unfolding lookup
lookup-Each P _ name f done h = absurd (ground arith)
lookup-Each P _ name f (entry {k} {f = g} {m} here there) h =
    at (str_eq k name) (str_eq_iff k name).0 (lookup-Each P m name f there) h
  where
    at :
        (same : Bool)
        → (same ≡ true → k ≡ name)
        → (lookup m name ≡ some f → P name f)
        → (if same then some g else lookup m name) ≡ some f
        → P name f
    at true eq rest e = rw (sym (eq refl)) (rw (sym (some-injective g f e)) here)
    at false eq rest e = rest e

abbrev Except : Bytes → FormatValidator → Type 0
Except name f = name ≢ codes "relative-json-pointer" → Reports name f

builtin_table-Each : (p : Platform) → Each Except (builtin_table p)
builtin_table-Each p =
    entry (λ _. validate_date_time-Reports p)
      (entry (λ _. validate_date-Reports p)
        (entry (λ _. validate_time-Reports)
          (entry (λ _. validate_duration-Reports)
            (entry (λ _. validate_uuid-Reports)
              (entry (λ _. validate_uri-Reports p)
                (entry (λ _. validate_uri_reference-Reports p)
                  (entry (λ _. validate_iri-Reports p)
                    (entry (λ _. validate_iri_reference-Reports p)
                      (entry (λ _. validate_uri_template-Reports p)
                        (entry (λ _. validate_json_pointer-Reports)
                          (entry (λ ne. absurd (ne refl))
                            (entry (λ _. validate_ipv4-Reports p)
                              (entry (λ _. validate_ipv6-Reports p)
                                (entry (λ _. validate_hostname-Reports p)
                                  (entry (λ _. validate_idn_hostname-Reports p)
                                    (entry (λ _. validate_email-Reports p)
                                      (entry (λ _. validate_idn_email-Reports p)
                                        (entry (λ _. validate_regex-Reports p)
                                          done))))))))))))))))))

-- Every error of a built-in format is a FormatError that carries the name that was looked up and the
-- value that was checked, for every format but relative-json-pointer.
pub builtin_format-names :
    (p : Platform) (name s : Bytes) (f : FormatValidator) (e : Failure)
    → name ≢ codes "relative-json-pointer"
    → builtin_format p name ≡ some f
    → f s ≡ some e
    → (cause : Failure) × (e ≡ format_error name s cause)
unfolding builtin_format Reports
builtin_format-names p name s f e ne found failed =
    of_named (f s) e failed
      (lookup-Each Except (builtin_table p) name f (builtin_table-Each p) found ne s)
  where
    of_named :
        (o : Option Failure) (e : Failure)
        → o ≡ some e
        → Named name s o
        → (cause : Failure) × (e ≡ format_error name s cause)
    of_named _ e h fine = absurd (ground arith)
    of_named _ e h (named cause) = (cause, sym (some-injective (format_error name s cause) e h))
