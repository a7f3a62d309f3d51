-- ===== src/Prelude/Atoi.antt =====
-- strconv.Atoi on a 64-bit platform.
use jsonschema.Prelude.{
  ℕ, ◌+◌, ◌-◌, ◌*◌, Bool, true, false, ◌&&◌, [], ◌∷◌, Option, none, some, leb, ltb, ◌==◌,
  if◌then◌else◌,
}
use jsonschema.Prelude.Bytes.{Bytes}
use jsonschema.Prelude.Int.{ℤ, pos, neg_ℤ}

abbrev pub is_ascii_digit : ℕ → Bool
is_ascii_digit c = leb b'0' c && leb c b'9'

-- The number that digits write, behind `v`; none at a byte that is no digit.
unfoldable pub read_digits : ℕ → Bytes → Option ℕ
read_digits v [] = some v
read_digits v (c ∷ s) =
    let rest = read_digits (v * 10 + (c - b'0')) s in if is_ascii_digit c then rest else none

-- Digits, one or more, of a number in the range of int64.
unfoldable pub in_range : Bool → Option ℕ → Option ℤ
in_range neg none = none
in_range true (some n) = if leb n 0x8000000000000000 then some (neg_ℤ (pos n)) else none
in_range false (some n) = if ltb n 0x8000000000000000 then some (pos n) else none

unfoldable pub unsigned : Bool → Bytes → Option ℤ
unfolding read_digits in_range
unsigned neg [] = none
unsigned neg (c ∷ s) = in_range neg (read_digits 0 (c ∷ s))

-- Atoi: an error is none.
unfoldable pub atoi : Bytes → Option ℤ
unfolding unsigned
atoi [] = none
atoi (c ∷ s) =
    if c == b'-'
    then unsigned true s
    else if c == b'+'
    then unsigned false s
    else unsigned false (c ∷ s)
