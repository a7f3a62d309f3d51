-- ===== src/Num/Carry.antt =====
-- addDigits and subDigits against addition and subtraction of the numbers that the digits write.
use jsonschema.Prelude.{
  ℕ, zero, suc, ◌+◌, ◌-◌, ◌*◌, ◌/◌, ◌%◌, ◌^◌, ◌≤◌, ◌<◌, ◌≡◌, refl, ap, ◌∙◌, true, false, [], ◌∷◌,
  ◌++◌, length, arith, ltb, leb, ◌==◌, if_cases, ltb→lt, ltb→le, leb→le,
}
use native.Mathlib.Omega.{pow_step}
use native.Mathlib.Nat.{add-mul, suc-mul, zero-add}
use jsonschema.Prelude.Bytes.{Bytes, itoa, itoa_fuel}
use jsonschema.Num.Digits.{
  digit, is_digit, all_digits, add_digit, add_loop, add_overflow, add_digits, sub_digit, sub_loop,
  sub_digits, trim_left_zeros,
}
use jsonschema.Num.Divide.{value_from}
use jsonschema.Num.Exact.{
  shifted, value_from-shift, value_from-append, value_from-lt, all_digits-head, all_digits-tail,
}

digit-code : (u : ℕ) → u ≤ 9 → digit (b'0' + u) ≡ u
unfolding digit
digit-code u h = omega (arith, h)

is_digit-code : (u : ℕ) → u ≤ 9 → is_digit (b'0' + u) ≡ true
unfolding is_digit
is_digit-code u h = ground arith

-- The value of one digit in front of others.
value-cons : (c : ℕ) (s : Bytes) → value_from 0 (c ∷ s) ≡ digit c * 10 ^ length s + value_from 0 s
unfolding value_from
value-cons c s =
    omega (arith, value_from-shift (0 * 10 + digit c) s, shifted 0 (digit c) (10 ^ length s))

value_from-digit : (v u : ℕ) → u ≤ 9 → value_from v ((b'0' + u) ∷ []) ≡ v * 10 + u
unfolding value_from
value_from-digit v u h = omega (arith, digit-code u h)

itoa_fuel-value : (f n : ℕ) → n < f → value_from 0 (itoa_fuel f n) ≡ n
unfolding itoa_fuel
itoa_fuel-value zero n h = absurd (omega (arith, h))
itoa_fuel-value (suc f) n h =
    if_cases (λ s. value_from 0 s ≡ n) (ltb n 10)
      (λ small. omega (arith, value_from-digit 0 n (omega (arith, ltb→lt n 10 small))))
      (λ large.
        let front = itoa_fuel-value f (n / 10) (omega (arith, h, ltb→le n 10 large)) in
        value_from-append 0 (itoa_fuel f (n / 10)) ((b'0' + n % 10) ∷ [])
        ∙ (value_from-digit (value_from 0 (itoa_fuel f (n / 10))) (n % 10) (omega arith)
            ∙ omega (arith, front)))

-- Itoa writes the number.
pub itoa-value : (n : ℕ) → value_from 0 (itoa n) ≡ n
unfolding itoa
itoa-value n = itoa_fuel-value (suc n) n (omega arith)

all_digits-append :
    (s t : Bytes) → all_digits s ≡ true → all_digits t ≡ true → all_digits (s ++ t) ≡ true
unfolding all_digits
all_digits-append [] t hs ht = ht
all_digits-append (c ∷ s) t hs ht =
    ground (arith, all_digits-append s t (all_digits-tail c s hs) ht)

one_digit : (u : ℕ) → u ≤ 9 → all_digits ((b'0' + u) ∷ []) ≡ true
unfolding all_digits
one_digit u h = ground (arith, is_digit-code u h)

itoa_fuel-digits : (f n : ℕ) → all_digits (itoa_fuel f n) ≡ true
unfolding itoa_fuel all_digits
itoa_fuel-digits zero n = refl
itoa_fuel-digits (suc f) n =
    if_cases (λ s. all_digits s ≡ true) (ltb n 10)
      (λ small. one_digit n (omega (arith, ltb→lt n 10 small)))
      (λ _.
        all_digits-append (itoa_fuel f (n / 10)) ((b'0' + n % 10) ∷ [])
          (itoa_fuel-digits f (n / 10)) (one_digit (n % 10) (omega arith)))

itoa-digits : (n : ℕ) → all_digits (itoa n) ≡ true
unfolding itoa
itoa-digits n = itoa_fuel-digits (suc n) n

-- What the loop of addDigits keeps: the bytes behind hold, with what is left to carry, the sum.
record Adds (s : Bytes) (n : ℕ) (r : Bytes × ℕ) : Type 0 where
  pub same_length : length r.0 ≡ length s
  pub digits_left : all_digits r.0 ≡ true
  pub sum : value_from 0 r.0 + r.1 * 10 ^ length s ≡ value_from 0 s + n

-- One digit `e` with the carry `t`, where the digit `c` and the carry `k` came in.
Adds-digit :
    (c e k t n : ℕ) (s front : Bytes)
    → Adds s n (front, k)
    → is_digit e ≡ true
    → t * 10 + digit e ≡ k + digit c
    → Adds (c ∷ s) n (e ∷ front, t)
unfolding all_digits
Adds-digit c e k t n s front h is coefficients =
    let p = 10 ^ length s in
    record {
      same_length = omega (arith, h.same_length);
      digits_left = ground (arith, is, h.digits_left);
      sum = omega (
        arith,
        value-cons c s,
        value-cons e front,
        h.sum,
        ap (λ l. digit e * 10 ^ l) h.same_length,
        ap (λ x. x * p) coefficients,
        shifted t (digit e) p,
        add-mul k (digit c) p,
        ap (λ x. t * x) (pow_step 10 (length s)),
      );
    }

few : (v : ℕ) → leb 10 v ≡ false → v ≤ 9
few v h = ground arith

add_loop-Adds : (s : Bytes) (n : ℕ) → all_digits s ≡ true → Adds s n (add_loop s n)
unfolding add_loop add_digit value_from all_digits
add_loop-Adds [] n ds = record { same_length = refl; digits_left = refl; sum = omega arith }
add_loop-Adds (c ∷ s) n ds = carried (add_loop s n) (add_loop-Adds s n (all_digits-tail c s ds))
  where
    small : digit c ≤ 9
    small = all_digits-head c s ds

    carried : (r : Bytes × ℕ) → Adds s n r → Adds (c ∷ s) n (add_digit c r)
    carried (front, k) h =
        let v : ℕ = digit c + k % 10 in
        if_cases (Adds (c ∷ s) n) (k == 0)
          (λ none_left. Adds-digit c c k k n s front h (ground arith) (ground arith))
          (λ _.
            if_cases (Adds (c ∷ s) n) (leb 10 v)
              (λ over.
                let u : v - 10 ≤ 9 = omega (arith, small) in
                Adds-digit c (b'0' + (v - 10)) k (k / 10 + 1) n s front h (is_digit-code (v - 10) u)
                  (omega (arith, digit-code (v - 10) u, leb→le 10 v over)))
              (λ under.
                let u : v ≤ 9 = few v under in
                Adds-digit c (b'0' + v) k (k / 10) n s front h (is_digit-code v u)
                  (omega (arith, digit-code v u))))

is_zero : (k : ℕ) → (k == 0) ≡ true → k ≡ 0
is_zero k h = ground arith

add_overflow-value :
    (s : Bytes) (n : ℕ) (r : Bytes × ℕ)
    → Adds s n r
    → value_from 0 (add_overflow r) ≡ value_from 0 s + n
unfolding add_overflow
add_overflow-value s n (front, k) h =
    if_cases (λ t. value_from 0 t ≡ value_from 0 s + n) (k == 0)
      (λ none_left. omega (arith, h.sum, ap (λ x. x * 10 ^ length s) (is_zero k none_left)))
      (λ _.
        value_from-append 0 (itoa k) front
        ∙ (value_from-shift (value_from 0 (itoa k)) front
            ∙ omega (
              arith,
              ap (λ x. x * 10 ^ length front) (itoa-value k),
              ap (λ l. k * 10 ^ l) h.same_length,
              h.sum,
            )))

add_overflow-digits : (r : Bytes × ℕ) → all_digits r.0 ≡ true → all_digits (add_overflow r) ≡ true
unfolding add_overflow
add_overflow-digits (front, k) h =
    if_cases (λ t. all_digits t ≡ true) (k == 0) (λ _. h)
      (λ _. all_digits-append (itoa k) front (itoa-digits k) h)

-- addDigits writes nothing but decimal digits, and these write the sum of the number that the
-- digits write and n, whatever the carries and however many digits the sum has more.
pub add_digits-value :
    (mag : Bytes) (n : ℕ)
    → all_digits mag ≡ true
    → (all_digits (add_digits mag n) ≡ true)
      × (value_from 0 (add_digits mag n) ≡ value_from 0 mag + n)
unfolding add_digits
add_digits-value mag n ds =
    let h = add_loop-Adds mag n ds in
    (
      add_overflow-digits (add_loop mag n) h.digits_left,
      add_overflow-value mag n (add_loop mag n) h,
    )

-- What the loop of subDigits keeps, with what is left to borrow.
record Subtracts (s : Bytes) (n : ℕ) (r : Bytes × ℕ) : Type 0 where
  pub same_length : length r.0 ≡ length s
  pub digits_left : all_digits r.0 ≡ true
  pub difference : value_from 0 r.0 + n ≡ value_from 0 s + r.1 * 10 ^ length s

Subtracts-digit :
    (c e k t n : ℕ) (s front : Bytes)
    → Subtracts s n (front, k)
    → is_digit e ≡ true
    → t * 10 + digit c ≡ k + digit e
    → Subtracts (c ∷ s) n (e ∷ front, t)
unfolding all_digits
Subtracts-digit c e k t n s front h is coefficients =
    let p = 10 ^ length s in
    record {
      same_length = omega (arith, h.same_length);
      digits_left = ground (arith, is, h.digits_left);
      difference = omega (
        arith,
        value-cons c s,
        value-cons e front,
        h.difference,
        ap (λ l. digit e * 10 ^ l) h.same_length,
        ap (λ x. x * p) coefficients,
        shifted t (digit c) p,
        add-mul k (digit e) p,
        ap (λ x. t * x) (pow_step 10 (length s)),
      );
    }

sub_loop-Subtracts : (s : Bytes) (n : ℕ) → all_digits s ≡ true → Subtracts s n (sub_loop s n)
unfolding sub_loop sub_digit value_from all_digits
sub_loop-Subtracts [] n ds = record {
  same_length = refl;
  digits_left = refl;
  difference = omega arith;
}
sub_loop-Subtracts (c ∷ s) n ds =
    borrowed (sub_loop s n) (sub_loop-Subtracts s n (all_digits-tail c s ds))
  where
    small : digit c ≤ 9
    small = all_digits-head c s ds

    borrowed : (r : Bytes × ℕ) → Subtracts s n r → Subtracts (c ∷ s) n (sub_digit c r)
    borrowed (front, k) h =
        if_cases (Subtracts (c ∷ s) n) (k == 0)
          (λ none_left. Subtracts-digit c c k k n s front h (ground arith) (ground arith))
          (λ _.
            if_cases (Subtracts (c ∷ s) n) (ltb (digit c) (k % 10))
              (λ less.
                let u : digit c + 10 - k % 10 ≤ 9 =
                  omega (arith, small, ltb→lt (digit c) (k % 10) less) in
                Subtracts-digit c (b'0' + (digit c + 10 - k % 10)) k (k / 10 + 1) n s front h
                  (is_digit-code (digit c + 10 - k % 10) u)
                  (omega (arith, digit-code (digit c + 10 - k % 10) u)))
              (λ enough.
                let u : digit c - k % 10 ≤ 9 = omega (arith, small) in
                Subtracts-digit c (b'0' + (digit c - k % 10)) k (k / 10) n s front h
                  (is_digit-code (digit c - k % 10) u)
                  (omega
                    (arith, digit-code (digit c - k % 10) u, ltb→le (digit c) (k % 10) enough))))

zero_code : (d : ℕ) → (d == b'0') ≡ true → digit d ≡ 0
unfolding digit
zero_code d h = ground arith

-- Leading zeros do not change the number.
pub trim_left_zeros-value : (s : Bytes) → value_from 0 (trim_left_zeros s) ≡ value_from 0 s
unfolding trim_left_zeros
trim_left_zeros-value [] = refl
trim_left_zeros-value (c ∷ s) =
    if_cases (λ t. value_from 0 t ≡ value_from 0 (c ∷ s)) (c == b'0')
      (λ zero_digit. omega (
        arith,
        trim_left_zeros-value s,
        value-cons c s,
        ap (λ d. d * 10 ^ length s) (zero_code c zero_digit),
      ))
      (λ _. refl)

no_borrow : (v w n k p : ℕ) → v < p → n ≤ w → v + n ≡ w + k * p → k ≡ 0
no_borrow v w n zero p small le e = refl
no_borrow v w n (suc k) p small le e = absurd (omega (arith, small, le, e, suc-mul k p))

-- subDigits writes the difference of the number that the digits write and n, where n is at most
-- that number.
pub sub_digits-value :
    (mag : Bytes) (n : ℕ)
    → all_digits mag ≡ true
    → n ≤ value_from 0 mag
    → value_from 0 (sub_digits mag n) + n ≡ value_from 0 mag
unfolding sub_digits
sub_digits-value mag n ds le =
    let h = sub_loop-Subtracts mag n ds in
    let bound = value_from-lt 0 0 (sub_loop mag n).0 h.digits_left (omega arith) in
    let none_left =
      no_borrow (value_from 0 (sub_loop mag n).0) (value_from 0 mag) n (sub_loop mag n).1
        (10 ^ length mag)
        (omega (
          arith,
          bound,
          ap (λ l. 10 ^ l) (zero-add (length (sub_loop mag n).0)),
          ap (λ l. 10 ^ l) h.same_length,
        ))
        le h.difference in
    omega (
      arith,
      trim_left_zeros-value (sub_loop mag n).0,
      h.difference,
      ap (λ x. x * 10 ^ length mag) none_left,
    )
