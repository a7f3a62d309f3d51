-- ===== src/Num/Decimal.antt =====
-- The struct `decimal` of num.go, and its exponents.
use jsonschema.Prelude.{
  ℕ, Bool, true, false, not, ◌&&◌, ◌||◌, [], ◌∷◌, Option, none, some, length, leb, ltb,
  if◌then◌else◌,
}
use jsonschema.Prelude.Bytes.{Bytes, itoa}
use jsonschema.Prelude.Int.{ℤ, pos, pos_part, neg_part, neg_ℤ, ltb_ℤ, eqb_ℤ, ◌+ℤ◌}
use jsonschema.Num.Digits.{digits_value, add_digits, sub_digits}

-- The field `huge`: 0, 1 or -1.
pub data Huge : Type 0 where
  stored above below : Huge

pub record Decimal : Type 0 where
  pub nan : Bool
  pub inf : Bool
  pub neg : Bool
  pub digits : Bytes
  pub exp : ℤ
  pub huge : Huge
  pub huge_exp : Bytes

-- The zero value, decimal{}.
abbrev pub zero_decimal : Decimal
zero_decimal = record {
  nan = false;
  inf = false;
  neg = false;
  digits = [];
  exp = pos 0;
  huge = stored;
  huge_exp = [];
}

abbrev pub max_decimal_exp : ℕ
max_decimal_exp = 1_000_000_000_000_000

abbrev signed : Bool → ℕ → ℤ
signed neg n = if neg then neg_ℤ (pos n) else pos n

-- smallExp
unfoldable pub small_exp : Bool → Bytes → Option ℤ
unfolding digits_value
small_exp neg mag =
    if ltb 16 (length mag)
    then none
    else let e = digits_value mag in if ltb max_decimal_exp e then none else some (signed neg e)

-- A sign and magnitude, as addSmall prints one.
unfoldable pub format_signed : ℤ → Bool × Bytes
unfolding itoa
format_signed v =
    if ltb_ℤ v (pos 0)
    then (true, itoa (neg_part v))
    else if eqb_ℤ v (pos 0)
    then (false, [])
    else (false, itoa (pos_part v))

-- addSmall
unfoldable pub add_small : Bool → Bytes → ℤ → Bool × Bytes
unfolding format_signed digits_value add_digits sub_digits ◌+ℤ◌
add_small neg mag delta =
    if leb (length mag) 17
    then format_signed (signed neg (digits_value mag) +ℤ delta)
    else let d = (if neg then neg_ℤ delta else delta) in
      if ltb_ℤ d (pos 0)
      then (neg, sub_digits mag (neg_part d))
      else (neg, add_digits mag (pos_part d))

abbrev pub is_empty : Bytes → Bool
is_empty [] = true
is_empty (c ∷ s) = false

-- isZero
unfoldable pub is_zero : Decimal → Bool
is_zero d = not d.nan && (not d.inf && is_empty d.digits)

-- The case of `huge` in isInteger, then the sign of the exponent.
integral : Huge → ℤ → Bool
integral stored e = not (ltb_ℤ e (pos 0))
integral above e = true
integral below e = false

-- isInteger
unfoldable pub is_integer : Decimal → Bool
unfolding is_zero integral
is_integer d = if d.nan || d.inf then false else if is_zero d then true else integral d.huge d.exp
