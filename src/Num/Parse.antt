-- ===== src/Num/Parse.antt =====
-- parseDecimal and parseNumber of num.go.
use jsonschema.Prelude.{
  ℕ, ◌+◌, ◌-◌, Bool, true, false, ◌&&◌, ◌||◌, [], ◌∷◌, ◌++◌, Option, none, some, length, leb, ◌==◌,
  if◌then◌else◌,
}
use jsonschema.Prelude.Bytes.{Bytes, codes, str_eq}
use jsonschema.Prelude.Int.{sub_ℕ}
use jsonschema.Value.{Value, json_number, integer, float, not_a_number, infinity, number}
use jsonschema.Num.Digits.{is_digit, all_digits, trim_left_zeros, trim_right_zeros}
use jsonschema.Num.Decimal.{above, below, Decimal, zero_decimal, is_empty, add_small, small_exp}

-- The digits at the front, and the rest.
unfoldable pub span_digits : Bytes → Bytes × Bytes
unfolding is_digit
span_digits [] = ([], [])
span_digits (c ∷ s) =
    let (front, rest) = span_digits s in if is_digit c then (c ∷ front, rest) else ([], c ∷ s)

fraction : Bytes → Bytes × Bytes
fraction [] = ([], [])
fraction (c ∷ s) = if c == b'.' then span_digits s else ([], c ∷ s)

-- scanMantissa
unfoldable pub scan_mantissa : Bytes → Bytes × Bytes × Bytes
unfolding span_digits fraction
scan_mantissa s =
    let (int_part, rest) = span_digits s in
    let (frac_part, rest') = fraction rest in (int_part, frac_part, rest')

exponent_digits : Bool → Bytes → Option (Bool × Bytes)
exponent_digits neg [] = none
exponent_digits neg (c ∷ s) =
    if all_digits (c ∷ s) then some (neg, trim_left_zeros (c ∷ s)) else none

exponent_sign : Bytes → Option (Bool × Bytes)
exponent_sign [] = none
exponent_sign (c ∷ s) =
    if c == b'+' || c == b'-' then exponent_digits (c == b'-') s else exponent_digits false (c ∷ s)

-- scanExponent
unfoldable pub scan_exponent : Bytes → Option (Bool × Bytes)
unfolding exponent_sign exponent_digits all_digits is_digit trim_left_zeros
scan_exponent [] = some (false, [])
scan_exponent (c ∷ s) = if c == b'e' || c == b'E' then exponent_sign s else none

-- strings.ToLower, as far as it can make one of the words below: ASCII letters, and U+0130 (the
-- bytes 0xc4 0xb0), which Go lowers to "i". Other bytes are kept, as no other lowering gives a letter of
-- those words.
lower_ascii : ℕ → ℕ
lower_ascii c = if leb b'A' c && leb c b'Z' then c + 32 else c

to_lower : Bytes → Bytes
to_lower [] = []
to_lower (c ∷ []) = lower_ascii c ∷ []
to_lower (c ∷ d ∷ s) =
    let dotted = b'i' ∷ to_lower s in
    let plain = lower_ascii c ∷ to_lower (d ∷ s) in if c == 0xC4 && d == 0xB0 then dotted else plain

-- The end of parseDecimal: the sign, the digits before and after the point, and the exponent.
unfoldable pub build_decimal : Bool → Bytes → Bytes → Bool × Bytes → Decimal
unfolding trim_left_zeros trim_right_zeros add_small small_exp
build_decimal neg int_part frac_part (exp_neg, exp_text) =
    let digits = trim_left_zeros (int_part ++ frac_part) in
    let trimmed = trim_right_zeros digits in
    let shift = sub_ℕ (length digits - length trimmed) (length frac_part) in
    let (exp_neg', mag) = add_small exp_neg exp_text shift in
    let d = record zero_decimal { neg = neg; digits = trimmed } in
    let nonzero : Decimal = (elim (small_exp exp_neg' mag) [
      | some e ↦ record d { exp = e }
      | none ↦ record d { huge = if exp_neg' then below else above; huge_exp = mag }
    ]) in
    if is_empty trimmed then zero_decimal else nonzero

-- The part of parseDecimal after the special words.
parse_finite : Bool → Bytes → Option Decimal
parse_finite neg body =
    let (int_part, frac_part, rest) = scan_mantissa body in
    if is_empty int_part && is_empty frac_part then none else elim (scan_exponent rest) [
      | none ↦ none
      | some e ↦ some (build_decimal neg int_part frac_part e)
    ]

-- parseDecimal after the sign; `signed` tells that there was one.
parse_body : Bool → Bool → Bytes → Option Decimal
parse_body signed neg body =
    let word = to_lower body in
    if str_eq word (codes "inf") || str_eq word (codes "infinity")
    then some (record zero_decimal { inf = true; neg = neg })
    else if str_eq word (codes "nan")
    then (if signed then none else some (record zero_decimal { nan = true }))
    else parse_finite neg body

-- parseDecimal
unfoldable pub parse_decimal : Bytes → Option Decimal
unfolding parse_body parse_finite scan_mantissa scan_exponent build_decimal to_lower lower_ascii
    str_eq
parse_decimal [] = parse_body false false []
parse_decimal (c ∷ s) =
    if c == b'+' || c == b'-' then parse_body true (c == b'-') s else parse_body false false (c ∷ s)

-- parseNumber, by the kinds of number that `Value` tells apart.
unfoldable pub parse_number : Value → Option Decimal
unfolding parse_decimal
parse_number (number (json_number s)) = parse_decimal s
parse_number (number (integer s)) = parse_decimal s
parse_number (number (float s)) = parse_decimal s
parse_number (number not_a_number) = some (record zero_decimal { nan = true })
parse_number (number (infinity neg)) = some (record zero_decimal { inf = true; neg = neg })
parse_number _ = none
