-- ===== src/Formats/Durations.antt =====
-- The format duration of formats.go. The two loops that scan digits inside a loop over components
-- are one: `got` says whether a digit was read since the last designator.
use jsonschema.Prelude.{
  ℕ, suc, Bool, true, false, not, ◌||◌, [], ◌∷◌, ◌++◌, Option, none, some, ◌⊎◌, inl, inr, ◌==◌,
  if◌then◌else◌,
}
use jsonschema.Prelude.Bytes.{Bytes, codes, drop_last, ends_with}
use jsonschema.Prelude.Utf8.{encode_rune, runes}
use jsonschema.Prelude.Atoi.{is_ascii_digit}
use jsonschema.Formats.Types.{
  Failure, bad_duration, format_err, format_err_cause, is_empty, only_digits,
}

-- strings.IndexByte in a text of three designators.
unfoldable pub unit_index : ℕ → ℕ → ℕ → ℕ → Option ℕ
unit_index a b d c =
    if c == a then some 0 else if c == b then some 1 else if c == d then some 2 else none

-- dateNext and timeNext: none stands for -1.
unfoldable pub next_allowed : Option ℕ → ℕ → Bool
next_allowed none pos = true
next_allowed (some next) pos = pos == next

-- The texts of the errors of a portion.
abbrev pub no_digits : Failure
no_digits = bad_duration (codes "designator without digits")

abbrev trailing : Bytes → Failure
trailing portion = bad_duration (codes "trailing digits in " ++ portion)

unfoldable pub bad_unit : Bytes → ℕ → Failure
unfolding encode_rune
bad_unit portion c =
    bad_duration (codes "invalid " ++ (portion ++ (codes " designator " ++ encode_rune c)))

unfoldable pub bad_order : Bytes → Bytes → ℕ → Failure
unfolding encode_rune
bad_order portion order c = bad_duration (
    portion
    ++ (codes " designator "
        ++ (encode_rune c ++ (codes " violates " ++ (order ++ codes " hierarchy")))))

-- Where a designator at `c` leaves the loop: its position among the three, or an error.
unfoldable pub designator : Bytes → Bytes → ℕ → ℕ → ℕ → Option ℕ → ℕ → Failure ⊎ ℕ
unfolding unit_index next_allowed bad_unit bad_order
designator portion order a b d next c = elim (unit_index a b d c) [
  | none ↦ inl (bad_unit portion c)
  | some pos ↦ if next_allowed next pos then inr pos else inl (bad_order portion order c)
]

-- parseDurationDate: what is left from the "T" on, and whether a unit was seen.
unfoldable pub parse_duration_date : Bool → Option ℕ → Bool → Bytes → Failure ⊎ (Bytes × Bool)
unfolding designator
parse_duration_date got next saw [] = if got then inl (trailing (codes "date")) else inr ([], saw)
parse_duration_date got next saw (c ∷ s) = elim (is_ascii_digit c) [
  | true ↦ parse_duration_date true next saw s
  | false ↦ elim got [
    | false ↦ if c == b'T' then inr (c ∷ s, saw) else inl no_digits
    | true ↦ elim (designator (codes "date") (codes "Y/M/D") b'Y' b'M' b'D' next c) [
      | inl e ↦ inl e
      | inr pos ↦ parse_duration_date false (some (suc pos)) true s
    ]
  ]
]

-- parseDurationTime
unfoldable pub parse_duration_time : Bool → Option ℕ → Bool → Bytes → Failure ⊎ Bool
unfolding designator
parse_duration_time got next saw [] =
    if got
    then inl (trailing (codes "time"))
    else if saw
    then inr saw
    else inl (bad_duration (codes "T without time component"))
parse_duration_time got next saw (c ∷ s) = elim (is_ascii_digit c) [
  | true ↦ parse_duration_time true next saw s
  | false ↦ elim got [
    | false ↦ inl no_digits
    | true ↦ elim (designator (codes "time") (codes "H/M/S") b'H' b'M' b'S' next c) [
      | inl e ↦ inl e
      | inr pos ↦ parse_duration_time false (some (suc pos)) true s
    ]
  ]
]

unfoldable pub no_components : Bool → Option Failure
no_components saw_any = if saw_any then none else some (bad_duration (codes "no components"))

-- parseDurationDateTime, behind the date portion.
unfoldable pub duration_after_date : Failure ⊎ (Bytes × Bool) → Option Failure
unfolding parse_duration_time no_components
duration_after_date (inl e) = some e
duration_after_date (inr ([], saw_any)) = no_components saw_any
duration_after_date (inr (c ∷ s, saw_any)) = elim (parse_duration_time false none false s) [
  | inl e ↦ some e
  | inr got_time ↦ no_components (saw_any || got_time)
]

unfoldable pub parse_duration_date_time : Bytes → Option Failure
unfolding parse_duration_date duration_after_date
parse_duration_date_time s = duration_after_date (parse_duration_date false none false s)

unfoldable pub validate_duration : Bytes → Option Failure
unfolding format_err format_err_cause is_empty ends_with drop_last only_digits runes
    parse_duration_date_time
validate_duration [] = format_err (codes "duration") [] (codes "must start with P")
validate_duration (c ∷ []) = format_err (codes "duration") (c ∷ []) (codes "must start with P")
validate_duration (c ∷ d ∷ s) =
    if not (c == b'P')
    then format_err (codes "duration") (c ∷ d ∷ s) (codes "must start with P")
    else if ends_with b'W' (d ∷ s)
    then (if is_empty (drop_last (d ∷ s))
        then format_err (codes "duration") (c ∷ d ∷ s) (codes "empty week count")
        else if only_digits (runes (drop_last (d ∷ s)))
        then none
        else format_err (codes "duration") (c ∷ d ∷ s) (codes "non-digit in week count"))
    else elim (parse_duration_date_time (d ∷ s)) [
      | none ↦ none
      | some e ↦ format_err_cause (codes "duration") (c ∷ d ∷ s) e
    ]
