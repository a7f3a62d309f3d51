-- ===== src/Num/Digits.antt =====
-- Decimal digit strings of num.go: digitsValue, addDigits, subDigits, and the trimming of zeros.
use jsonschema.Prelude.{
  true, ℕ, ◌+◌, ◌-◌, ◌*◌, ◌/◌, ◌%◌, Bool, ◌&&◌, [], ◌∷◌, ◌++◌, ltb, leb, ◌==◌, if◌then◌else◌,
}
use jsonschema.Prelude.Bytes.{Bytes, itoa}

abbrev pub u64 : ℕ
u64 = 0x10000000000000000

-- `b - '0'` on a byte, which wraps.
unfoldable pub digit : ℕ → ℕ
digit c = (c + 208) % 256

-- isDigit
unfoldable pub is_digit : ℕ → Bool
is_digit c = leb b'0' c && leb c b'9'

unfoldable pub all_digits : Bytes → Bool
unfolding is_digit
all_digits [] = true
all_digits (c ∷ s) = is_digit c && all_digits s

unfoldable pub digits_value_from : ℕ → Bytes → ℕ
digits_value_from v [] = v
digits_value_from v (c ∷ s) = digits_value_from ((v * 10 + digit c) % u64) s

-- digitsValue, on uint64.
unfoldable pub digits_value : Bytes → ℕ
unfolding digits_value_from digit
digits_value s = digits_value_from 0 s

-- One step of the loop of addDigits, at byte `c` with `n` still to add. The loop stops at n = 0.
unfoldable pub add_digit : ℕ → Bytes × ℕ → Bytes × ℕ
add_digit c (s, n) =
    if n == 0
    then (c ∷ s, n)
    else let v = digit c + n % 10 in
      if leb 10 v then ((b'0' + (v - 10)) ∷ s, n / 10 + 1) else ((b'0' + v) ∷ s, n / 10)

-- The loop of addDigits runs from the last byte to the first; what is left to add comes back.
unfoldable pub add_loop : Bytes → ℕ → Bytes × ℕ
add_loop [] n = ([], n)
add_loop (c ∷ s) n = add_digit c (add_loop s n)

unfoldable pub add_overflow : Bytes × ℕ → Bytes
add_overflow (s, n) = if n == 0 then s else itoa n ++ s

-- addDigits
unfoldable pub add_digits : Bytes → ℕ → Bytes
unfolding add_loop add_digit add_overflow itoa digit
add_digits mag n = add_overflow (add_loop mag n)

-- One step of the loop of subDigits.
unfoldable pub sub_digit : ℕ → Bytes × ℕ → Bytes × ℕ
sub_digit c (s, n) =
    if n == 0
    then (c ∷ s, n)
    else if ltb (digit c) (n % 10)
    then ((b'0' + (digit c + 10 - n % 10)) ∷ s, n / 10 + 1)
    else ((b'0' + (digit c - n % 10)) ∷ s, n / 10)

unfoldable pub sub_loop : Bytes → ℕ → Bytes × ℕ
sub_loop [] n = ([], n)
sub_loop (c ∷ s) n = sub_digit c (sub_loop s n)

-- strings.TrimLeft(s, "0")
unfoldable pub trim_left_zeros : Bytes → Bytes
trim_left_zeros [] = []
trim_left_zeros (c ∷ s) = let rest = trim_left_zeros s in if c == b'0' then rest else c ∷ s

keep_unless_zero : ℕ → Bytes → Bytes
keep_unless_zero c [] = if c == b'0' then [] else c ∷ []
keep_unless_zero c (d ∷ s) = c ∷ d ∷ s

-- strings.TrimRight(s, "0")
unfoldable pub trim_right_zeros : Bytes → Bytes
unfolding keep_unless_zero
trim_right_zeros [] = []
trim_right_zeros (c ∷ s) = keep_unless_zero c (trim_right_zeros s)

-- subDigits
unfoldable pub sub_digits : Bytes → ℕ → Bytes
unfolding sub_loop sub_digit digit trim_left_zeros
sub_digits mag n = trim_left_zeros (sub_loop mag n).0
