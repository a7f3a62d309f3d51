-- ===== src/Formats/Times.antt =====
-- The formats date-time, date and time of formats.go.
use jsonschema.Prelude.{
  ℕ, Bool, true, false, not, ◌&&◌, ◌||◌, List, [], ◌∷◌, ◌++◌, Option, none, some, ◌==◌, ltb,
  if◌then◌else◌, length, take, drop,
}
use jsonschema.Prelude.Bytes.{Bytes, codes}
use jsonschema.Prelude.Utf8.{range}
use jsonschema.Prelude.Int.{ℤ, pos, ◌+ℤ◌, ◌-ℤ◌, neg_ℤ, ltb_ℤ, eqb_ℤ, scale, rem_ℤ}
use jsonschema.Prelude.Atoi.{atoi, is_ascii_digit}
use jsonschema.Formats.Types.{
  Failure, foreign, Platform, format_err, format_err_cause, is_at, slice, is_empty, after_digits,
}

-- The loop of isFullDate over the runes and their positions.
full_date_runes : List (ℕ × ℕ) → Bool
full_date_runes [] = true
full_date_runes ((i, c) ∷ rest) = (i == 4 || (i == 7 || is_ascii_digit c)) && full_date_runes rest

unfoldable pub is_full_date : Bytes → Bool
unfolding full_date_runes range is_at
is_full_date s =
    if not (length s == 10) || (not (is_at 4 b'-' s) || not (is_at 7 b'-' s))
    then false
    else full_date_runes (range s)

-- The optional fraction of isFullTime: what follows it, or none where it has no digit.
unfoldable pub skip_fraction : Bytes → Option Bytes
unfolding after_digits
skip_fraction [] = some []
skip_fraction (c ∷ []) = if c == b'.' then none else some (c ∷ [])
skip_fraction (c ∷ d ∷ s) =
    if c == b'.'
    then (if is_ascii_digit d then some (after_digits s) else none)
    else some (c ∷ d ∷ s)

-- The hours and minutes of a numeric offset of isFullTime, in minutes with its sign.
unfoldable pub offset_minutes : ℕ → Option ℤ → Option ℤ → Option ℤ
unfolding ◌+ℤ◌
offset_minutes sign (some off_hour) (some off_minute) =
    if ltb_ℤ (pos 23) off_hour || ltb_ℤ (pos 59) off_minute
    then none
    else if sign == b'-'
    then some (neg_ℤ (scale 60 off_hour +ℤ off_minute))
    else some (scale 60 off_hour +ℤ off_minute)
offset_minutes sign _ _ = none

unfoldable pub numeric_offset : ℕ → Bytes → Option ℤ
unfolding atoi is_at offset_minutes
numeric_offset sign rest =
    if not (length rest == 6) || not (is_at 3 b':' rest)
    then none
    else offset_minutes sign (atoi (slice 1 3 rest)) (atoi (slice 4 6 rest))

-- The offset of isFullTime: zero for "Z".
unfoldable pub read_offset : Bytes → Option ℤ
unfolding numeric_offset is_empty
read_offset [] = none
read_offset (c ∷ s) =
    if c == b'Z' || c == b'z'
    then (if is_empty s then some (pos 0) else none)
    else if c == b'+' || c == b'-'
    then numeric_offset c (c ∷ s)
    else none

-- A leap second ends the last minute of a UTC day.
unfoldable pub leap_allowed : ℤ → ℤ → ℤ → Bool
unfolding ◌+ℤ◌ ◌-ℤ◌
leap_allowed hour minute shift =
    let utc_minutes = scale 60 hour +ℤ minute -ℤ shift in
    eqb_ℤ (rem_ℤ (rem_ℤ utc_minutes 1440 +ℤ pos 1440) 1440) (pos 1439)

-- What isFullTime asks once the fields are read.
unfoldable pub clock_ok : ℤ → ℤ → ℤ → Option ℤ → Bool
unfolding leap_allowed
clock_ok hour minute second none = false
clock_ok hour minute second (some shift) =
    if eqb_ℤ second (pos 60) then leap_allowed hour minute shift else true

unfoldable pub offset_after : Option Bytes → Option ℤ
unfolding read_offset
offset_after none = none
offset_after (some rest) = read_offset rest

unfoldable pub clock_fields : Option ℤ → Option ℤ → Option ℤ → Bytes → Bool
unfolding clock_ok skip_fraction offset_after
clock_fields (some hour) (some minute) (some second) rest =
    if ltb_ℤ (pos 23) hour || (ltb_ℤ (pos 59) minute || ltb_ℤ (pos 60) second)
    then false
    else clock_ok hour minute second (offset_after (skip_fraction rest))
clock_fields _ _ _ rest = false

unfoldable pub is_full_time : Bytes → Bool
unfolding is_at atoi clock_fields
is_full_time s =
    if ltb (length s) 9 || (not (is_at 2 b':' s) || not (is_at 5 b':' s))
    then false
    else clock_fields (atoi (slice 0 2 s)) (atoi (slice 3 5 s)) (atoi (slice 6 8 s)) (drop 8 s)

module _ (p : Platform) where
  unfoldable pub validate_date_time : Bytes → Option Failure
  unfolding is_at is_full_time format_err format_err_cause
  validate_date_time s =
      if ltb (length s) 11
      then format_err (codes "date-time") s (codes "too short")
      else if not (is_at 10 b'T' s) && not (is_at 10 b't' s)
      then format_err (codes "date-time") s (codes "missing T separator")
      else elim (p.parse_date (take 10 s)) [
        | some e ↦ format_err_cause (codes "date-time") s (foreign e)
        | none ↦
            if is_full_time (drop 11 s)
            then none
            else if is_full_time (drop 11 s ++ b'Z' ∷ [])
            then format_err (codes "date-time") s
                (codes "time zone missing (Z or an offset such as +01:00)")
            else format_err (codes "date-time") s (codes "invalid time component")
      ]

  unfoldable pub validate_date : Bytes → Option Failure
  unfolding is_full_date format_err format_err_cause
  validate_date s =
      if is_full_date s
      then elim (p.parse_date s) [
        | some e ↦ format_err_cause (codes "date") s (foreign e)
        | none ↦ none
      ]
      else format_err (codes "date") s (codes "not RFC 3339 full-date")

unfoldable pub validate_time : Bytes → Option Failure
unfolding is_full_time format_err
validate_time s =
    if is_full_time s then none else format_err (codes "time") s (codes "not RFC 3339 full-time")
