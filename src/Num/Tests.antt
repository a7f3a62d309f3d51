-- ===== src/Num/Tests.antt =====
-- The theorems on decimals applied at concrete numbers.
use jsonschema.Prelude.{
  ◌+◌, ◌*◌, ◌%◌, ◌^◌, ◌<◌, ◌≡◌, refl, Bool, true, false, none, some, ◌==◌, arith,
}
use jsonschema.Prelude.Bytes.{Bytes, codes}
use jsonschema.Prelude.Int.{pos, negsuc, ◌-ℤ◌}
use jsonschema.Num.Digits.{all_digits, digits_value, add_digits, sub_digits}
use jsonschema.Num.Decimal.{Decimal, above, zero_decimal}
use jsonschema.Num.Compare.{flip, cmp}
use jsonschema.Num.Divide.{value_from, strip_fives, new_divisor, digits_divisible, divides, answer}
use jsonschema.Num.Exact.{digits_value-exact}
use jsonschema.Num.Divisible.{digits_divisible-value}
use jsonschema.Num.Carry.{add_digits-value, sub_digits-value}
use jsonschema.Num.Order.{cmp-flip}
use jsonschema.Num.Factors.{strip_fives-value}
use jsonschema.Num.Divisor.{new_divisor-value, divides-answers, is_whole_multiple, divides-value}

-- 2^64 with a digit more, and 9,999.
abbrev long : Bytes
long = codes "184467440737095516165"

abbrev nines : Bytes
nines = codes "9999"

-- 4.8, -7 and 36 times ten to a power beyond int64.
abbrev first : Decimal
first = record zero_decimal { digits = codes "48"; exp = negsuc 0 }

abbrev second : Decimal
second = record zero_decimal { neg = true; digits = codes "7" }

abbrev vast : Decimal
vast = record zero_decimal {
  digits = codes "36";
  huge = above;
  huge_exp = codes "99999999999999999999";
}

-- 1.2, as a divisor.
abbrev step : Decimal
step = record zero_decimal { digits = codes "12"; exp = negsuc 0 }

digits_value-exact_example : digits_value nines ≡ value_from 0 nines
unfolding all_digits
digits_value-exact_example = digits_value-exact nines refl (omega arith)

digits_divisible-value_example : digits_divisible long 15 ≡ some (value_from 0 long % 15 == 0)
unfolding all_digits
digits_divisible-value_example = digits_divisible-value long 15 refl (omega arith)

long_is_divisible : digits_divisible long 15 ≡ some true
unfolding digits_divisible
long_is_divisible = refl

add_digits-value_example :
    (all_digits (add_digits nines 72) ≡ true)
    × (value_from 0 (add_digits nines 72) ≡ value_from 0 nines + 72)
unfolding all_digits
add_digits-value_example = add_digits-value nines 72 refl

sub_digits-value_example : value_from 0 (sub_digits nines 72) + 72 ≡ value_from 0 nines
unfolding all_digits value_from
sub_digits-value_example = sub_digits-value nines 72 refl (omega arith)

cmp-flip_example :
    cmp vast second ≡ (elim (cmp second vast) [ none ↦ none | some s ↦ some (flip s) ])
cmp-flip_example = cmp-flip second vast

strip_fives-value_example :
    (1250 ≡ (strip_fives 1250).1 * 5 ^ (strip_fives 1250).0)
    × (0 < (strip_fives 1250).1)
    × (0 < (strip_fives 1250).1 % 5)
strip_fives-value_example = strip_fives-value 1250 (omega arith)

strips_four : strip_fives 1250 ≡ (4, 2)
unfolding strip_fives
strips_four = refl

new_divisor-value_example :
    (value_from 0 step.digits
      ≡ (new_divisor step).m * 5 ^ (new_divisor step).q * 2 ^ (new_divisor step).p)
    × (0 < (new_divisor step).m)
    × ((new_divisor step).m % 2 ≡ 1)
    × (0 < (new_divisor step).m % 5)
unfolding value_from
new_divisor-value_example = new_divisor-value step (omega arith)

divides-answers_example : (b : Bool) × (divides (new_divisor step) vast ≡ answer b)
unfolding value_from all_digits
divides-answers_example = divides-answers step vast (omega arith) refl refl refl

divides-value_example : divides (new_divisor step) first ≡ answer (is_whole_multiple step first)
unfolding value_from all_digits
divides-value_example = divides-value step first (omega arith) refl (omega arith) refl refl refl

whole_steps : is_whole_multiple step first ≡ true
unfolding is_whole_multiple value_from ◌-ℤ◌
whole_steps = refl

-- 480 is a multiple of 1.2, and 4.8 none of 12.
tens_help : is_whole_multiple step (record first { exp = pos 1 }) ≡ true
unfolding is_whole_multiple value_from ◌-ℤ◌
tens_help = refl

too_fine : is_whole_multiple (record step { exp = pos 0 }) first ≡ false
unfolding is_whole_multiple value_from ◌-ℤ◌
too_fine = refl

four_steps : divides (new_divisor step) first ≡ answer true
unfolding divides new_divisor
four_steps = refl
