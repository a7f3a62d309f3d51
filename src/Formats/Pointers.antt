-- ===== src/Formats/Pointers.antt =====
-- The formats json-pointer and relative-json-pointer of formats.go.
use jsonschema.Prelude.{
  Bool, true, false, not, ◌&&◌, ◌||◌, [], ◌∷◌, Option, none, ◌==◌, if◌then◌else◌,
}
use jsonschema.Prelude.Bytes.{Bytes, codes, str_eq}
use jsonschema.Prelude.Atoi.{is_ascii_digit}
use jsonschema.Formats.Types.{Failure, format_err, after_digits}

-- The loop of validateJSONPointer: every "~" is followed by "0" or "1".
unfoldable pub tildes_ok : Bytes → Bool
tildes_ok [] = true
tildes_ok (c ∷ []) = not (c == b'~')
tildes_ok (c ∷ d ∷ s) =
    let behind = tildes_ok s in
    let next = tildes_ok (d ∷ s) in if c == b'~' then (d == b'0' || d == b'1') && behind else next

unfoldable pub validate_json_pointer : Bytes → Option Failure
unfolding format_err tildes_ok
validate_json_pointer [] = none
validate_json_pointer (c ∷ s) =
    if not (c == b'/')
    then format_err (codes "json-pointer") (c ∷ s) (codes "must start with /")
    else if tildes_ok s
    then none
    else format_err (codes "json-pointer") (c ∷ s) (codes "bad ~ escape")

-- validateRelativeJSONPointer, behind the integer.
unfoldable pub pointer_or_key : Bytes → Option Failure
unfolding str_eq validate_json_pointer
pointer_or_key rest = if str_eq rest (codes "#") then none else validate_json_pointer rest

unfoldable pub starts_digit : Bytes → Bool
starts_digit [] = false
starts_digit (c ∷ s) = is_ascii_digit c

unfoldable pub validate_relative_json_pointer : Bytes → Option Failure
unfolding format_err after_digits pointer_or_key starts_digit
validate_relative_json_pointer [] = format_err (codes "relative-json-pointer") [] (codes "empty")
validate_relative_json_pointer (c ∷ s) =
    if not (is_ascii_digit c)
    then format_err (codes "relative-json-pointer") (c ∷ s) (codes "missing prefix integer")
    else if c == b'0'
    then (if starts_digit s
        then format_err (codes "relative-json-pointer") (c ∷ s) (codes "leading zero")
        else pointer_or_key s)
    else pointer_or_key (after_digits (c ∷ s))
