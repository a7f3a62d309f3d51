-- ===== src/Num/Divisor.antt =====
-- The divisor of multipleOf: what newDivisor stores, and what `divides` answers.
use jsonschema.Prelude.{
  ℕ, zero, suc, [], ◌∷◌, ◌-◌, ◌*◌, ◌%◌, ◌^◌, ◌<◌, ◌≡◌, refl, sym, ap, ◌∙◌, Bool, true, false, ◌||◌,
  arith, ◌==◌, Option, none, some, if_cases,
}
use native.Mathlib.Omega.{pow_step}
use native.Mathlib.Nat.{pow-zero, mul-pos}
use jsonschema.Prelude.Int.{ℤ, pos, pos_part, ltb_ℤ, ◌-ℤ◌}
use jsonschema.Prelude.Bytes.{Bytes}
use jsonschema.Num.Digits.{all_digits}
use jsonschema.Num.Decimal.{Decimal, stored, is_zero, is_empty}
use jsonschema.Num.Divide.{
  value_from, strip_twos, strip_fives, Divisor, new_divisor, needed, divides_at, is_below, Divides,
  answer, answered, divides, exponent_of,
}
use jsonschema.Num.Divisible.{digits_divisible-value}
use jsonschema.Num.Multiples.{no_ten, same_test, tens_out}
use jsonschema.Num.Twos.{strip_twos-Odds, odd_part}
use jsonschema.Num.Factors.{strip_fives-value}

-- newDivisor splits the number that the digits of a divisor write, where that is positive, into
-- m times 2^p times 5^q, with an m that is positive and that neither two nor five divides.
pub new_divisor-value :
    (d : Decimal)
    → 0 < value_from 0 d.digits
    → (value_from 0 d.digits ≡ (new_divisor d).m * 5 ^ (new_divisor d).q * 2 ^ (new_divisor d).p)
      × (0 < (new_divisor d).m)
      × ((new_divisor d).m % 2 ≡ 1)
      × (0 < (new_divisor d).m % 5)
unfolding new_divisor
new_divisor-value d positive =
    let b = value_from 0 d.digits in
    let twos = strip_twos (suc b) b in
    let o = strip_twos-Odds (suc b) b positive (omega arith) in
    let (whole, left, no_fives) = strip_fives-value twos.1 (omega (arith, o.odd)) in
    (
      o.whole ∙ ap (λ x. x * 2 ^ twos.0) whole,
      left,
      odd_part (strip_fives twos.1).1 (5 ^ (strip_fives twos.1).0) twos.1 whole o.odd,
      no_fives,
    )

positive_product : (a b : ℕ) → 0 < a → 0 < b → 0 < a * b
positive_product a b ha hb = mul-pos ha hb

positive_power : (b n : ℕ) → 0 < b → 0 < b ^ n
positive_power b zero h = omega (arith, pow-zero b)
positive_power b (suc n) h =
    omega (arith, positive_product b (b ^ n) h (positive_power b n h), pow_step b n)

needed-positive : (dv : Divisor) (k : ℕ) → 0 < dv.m → 0 < needed dv k
unfolding needed
needed-positive dv k h =
    positive_product (dv.m * 2 ^ (dv.p - k)) (5 ^ (dv.q - k))
      (positive_product dv.m (2 ^ (dv.p - k)) h (positive_power 2 (dv.p - k) (omega arith)))
      (positive_power 5 (dv.q - k) (omega arith))

divides_at-some :
    (dv : Divisor) (x : Decimal) (e : Option ℤ)
    → 0 < dv.m
    → all_digits x.digits ≡ true
    → (b : Bool) × (divides_at dv x e ≡ some b)
unfolding divides_at
divides_at-some dv x none h ds = (_, digits_divisible-value x.digits dv.m ds h)
divides_at-some dv x (some xe) h ds =
    if_cases (λ (o : Option Bool). (b : Bool) × (o ≡ some b)) (ltb_ℤ (xe -ℤ dv.d.exp) (pos 0))
      (λ _. (false, refl))
      (λ _. (
        _,
        digits_divisible-value x.digits (needed dv (pos_part (xe -ℤ dv.d.exp))) ds
            (needed-positive dv (pos_part (xe -ℤ dv.d.exp)) h),
      ))

-- For a divisor whose digits write a positive number, and a finite value, `divides` answers yes or
-- no: no division panics, however long the digits and however large the exponents.
pub divides-answers :
    (d x : Decimal)
    → 0 < value_from 0 d.digits
    → all_digits x.digits ≡ true
    → x.nan ≡ false
    → x.inf ≡ false
    → (b : Bool) × (divides (new_divisor d) x ≡ answer b)
unfolding divides
divides-answers d x positive ds finite_nan finite_inf =
    let (b, at) =
      divides_at-some (new_divisor d) x (exponent_of x.huge x) (new_divisor-value d positive).1
        ds in
    if_cases (λ (r : Divides). (b : Bool) × (r ≡ answer b)) (x.nan || x.inf)
      (λ special. absurd (ground arith))
      (λ _.
        if_cases (λ (r : Divides). (b : Bool) × (r ≡ answer b)) (is_zero x) (λ _. (true, refl))
          (λ _.
            if_cases (λ (r : Divides). (b : Bool) × (r ≡ answer b)) (is_below x.huge)
              (λ _. (false, refl)) (λ _. (b, ap answered at))))

record Apart (x d : ℤ) : Type 0 where
  pub no_tens : pos_part (x -ℤ d) ≡ 0
  pub short_of : 0 < pos_part (d -ℤ x)

below-Apart : (x d : ℤ) → ltb_ℤ (x -ℤ d) (pos 0) ≡ true → Apart x d
unfolding ◌-ℤ◌
below-Apart x d h = record { no_tens = ground arith; short_of = ground arith }

not_short : (x d : ℤ) → ltb_ℤ (x -ℤ d) (pos 0) ≡ false → pos_part (d -ℤ x) ≡ 0
unfolding ◌-ℤ◌
not_short x d h = ground arith

-- Whether one decimal is a whole multiple of another, on the numbers that their digits write, with
-- the zeros added that bring them to one exponent.
unfoldable pub is_whole_multiple : Decimal → Decimal → Bool
is_whole_multiple d x =
    value_from 0 x.digits
      * 10 ^ pos_part (x.exp -ℤ d.exp)
      % (value_from 0 d.digits * 10 ^ pos_part (d.exp -ℤ x.exp))
    == 0

unscaled : (b k : ℕ) → k ≡ 0 → b * 10 ^ k ≡ b
unscaled b k e = ap (λ n. b * 10 ^ n) e ∙ (ap (λ t. b * t) (pow-zero 10) ∙ omega arith)

below-value :
    (d x : Decimal)
    → Apart x.exp d.exp
    → 0 < value_from 0 x.digits % 10
    → is_whole_multiple d x ≡ false
unfolding is_whole_multiple
below-value d x h ends =
    let n = pos_part (d.exp -ℤ x.exp) in
    ap (λ b. b % (value_from 0 d.digits * 10 ^ n) == 0)
      (unscaled (value_from 0 x.digits) (pos_part (x.exp -ℤ d.exp)) h.no_tens)
    ∙ no_ten (value_from 0 d.digits) (value_from 0 x.digits) n h.short_of ends

needed-value :
    (d x : Decimal)
    → 0 < value_from 0 d.digits
    → pos_part (d.exp -ℤ x.exp) ≡ 0
    → is_whole_multiple d x
      ≡ (value_from 0 x.digits % needed (new_divisor d) (pos_part (x.exp -ℤ d.exp)) == 0)
unfolding is_whole_multiple needed
needed-value d x positive level =
    let dv = new_divisor d in
    let b = value_from 0 x.digits in
    let k = pos_part (x.exp -ℤ d.exp) in
    let (whole, left, odd, no_fives) = new_divisor-value d positive in
    ap (λ n. b * 10 ^ k % n == 0)
      (unscaled (value_from 0 d.digits) (pos_part (d.exp -ℤ x.exp)) level ∙ whole)
    ∙ same_test (dv.m * 5 ^ dv.q * 2 ^ dv.p) (b * 10 ^ k) (dv.m * 2 ^ (dv.p - k) * 5 ^ (dv.q - k)) b
        (tens_out dv.m dv.p dv.q b k odd no_fives)

divides_at-value :
    (d x : Decimal)
    → 0 < value_from 0 d.digits
    → all_digits x.digits ≡ true
    → 0 < value_from 0 x.digits % 10
    → divides_at (new_divisor d) x (some x.exp) ≡ some (is_whole_multiple d x)
unfolding divides_at new_divisor
divides_at-value d x positive ds ends =
    let k = pos_part (x.exp -ℤ d.exp) in
    if_cases (λ o. o ≡ some (is_whole_multiple d x)) (ltb_ℤ (x.exp -ℤ d.exp) (pos 0))
      (λ below. ap some (sym (below-value d x (below-Apart x.exp d.exp below) ends)))
      (λ enough.
        digits_divisible-value x.digits (needed (new_divisor d) k) ds
          (needed-positive (new_divisor d) k (new_divisor-value d positive).1)
        ∙ ap some (sym (needed-value d x positive (not_short x.exp d.exp enough))))

empty_value : (s : Bytes) → is_empty s ≡ true → value_from 0 s % 10 ≡ 0
unfolding is_empty value_from
empty_value [] h = refl
empty_value (c ∷ s) h = absurd (ground arith)

-- For a divisor whose digits write a positive number, and a finite value with a stored exponent
-- and digits that do not end in a zero, `divides` answers whether the value is a whole multiple of
-- the divisor, taken at the exponent that it stores: whether, with the zeros added that bring both
-- to one exponent, the number of the value's digits divided by that of the divisor's leaves no
-- remainder.
pub divides-value :
    (d x : Decimal)
    → 0 < value_from 0 d.digits
    → all_digits x.digits ≡ true
    → 0 < value_from 0 x.digits % 10
    → x.nan ≡ false
    → x.inf ≡ false
    → x.huge ≡ stored
    → divides (new_divisor d) x ≡ answer (is_whole_multiple d x)
unfolding divides exponent_of is_below is_zero
divides-value d x positive ds ends finite_nan finite_inf exact =
    let dv = new_divisor d in
    let goal : Bool = is_whole_multiple d x in
    if_cases (λ (r : Divides). r ≡ answer goal) (x.nan || x.inf) (λ special. absurd (ground arith))
      (λ _.
        if_cases (λ (r : Divides). r ≡ answer goal) (is_zero x)
          (λ zeroed. absurd (omega (arith, ends, empty_value x.digits (ground arith))))
          (λ _.
            if_cases (λ (r : Divides). r ≡ answer goal) (is_below x.huge)
              (λ tiny. absurd (ground arith))
              (λ _.
                ap (λ h. answered (divides_at dv x (exponent_of h x))) exact
                ∙ ap answered (divides_at-value d x positive ds ends))))
