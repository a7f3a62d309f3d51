-- ===== src/Num/Exact.antt =====
-- Strings of digits as the numbers they write: digitsValue is exact on up to 19 digits.
use jsonschema.Prelude.{
  ℕ, suc, ◌+◌, ◌*◌, ◌/◌, ◌%◌, ◌^◌, ◌≤◌, ◌<◌, ◌≡◌, refl, sym, ap, ◌∙◌, true, [], ◌∷◌, ◌++◌, length,
  arith,
}
use native.Mathlib.Omega.{pow_step}
use native.Mathlib.Nat.{
  add-mul, mul_assoc, mul_comm, pow-le-pow_right, mod-eq_of_lt, mod-add-div',
  add-mul-mod_self_right,
}
use jsonschema.Prelude.Bytes.{Bytes}
use jsonschema.Num.Digits.{u64, digit, is_digit, all_digits, digits_value_from, digits_value}
use jsonschema.Num.Divide.{value_from}

pub digit-le : (c : ℕ) → is_digit c ≡ true → digit c ≤ 9
unfolding is_digit digit
digit-le c h = ground arith

pub all_digits-head : (c : ℕ) (s : Bytes) → all_digits (c ∷ s) ≡ true → digit c ≤ 9
unfolding all_digits
all_digits-head c s h = digit-le c (ground arith)

pub all_digits-tail : (c : ℕ) (s : Bytes) → all_digits (c ∷ s) ≡ true → all_digits s ≡ true
unfolding all_digits
all_digits-tail c s h = ground arith

pub shifted : (v d p : ℕ) → (v * 10 + d) * p ≡ v * (10 * p) + d * p
shifted v d p = add-mul (v * 10) d p ∙ ap (λ x. x + d * p) (mul_assoc v 10 p)

pub value_from-shift : (v : ℕ) (s : Bytes) → value_from v s ≡ v * 10 ^ length s + value_from 0 s
unfolding value_from
value_from-shift v [] = omega arith
value_from-shift v (c ∷ s) =
    let here = value_from-shift (v * 10 + digit c) s in
    let zeroed = value_from-shift (0 * 10 + digit c) s in
    let p = 10 ^ length s in
    omega (
      arith,
      here,
      zeroed,
      shifted v (digit c) p,
      shifted 0 (digit c) p,
      ap (λ x. v * x) (pow_step 10 (length s)),
    )

pub value_from-append :
    (v : ℕ) (s t : Bytes) → value_from v (s ++ t) ≡ value_from (value_from v s) t
unfolding value_from
value_from-append v [] t = refl
value_from-append v (c ∷ s) t = value_from-append (v * 10 + digit c) s t

sums : (k : ℕ) → k + 0 ≡ k
sums k = omega arith

later : (k n : ℕ) → suc k + n ≡ k + suc n
later k n = omega arith

pub value_from-lt :
    (k v : ℕ) (s : Bytes) → all_digits s ≡ true → v < 10 ^ k → value_from v s < 10 ^ (k + length s)
unfolding value_from
value_from-lt k v [] ds h = omega (arith, h, ap (λ n. 10 ^ n) (sums k))
value_from-lt k v (c ∷ s) ds h =
    let small = all_digits-head c s ds in
    let rest =
      value_from-lt (suc k) (v * 10 + digit c) s (all_digits-tail c s ds)
        (omega (arith, h, small, pow_step 10 k)) in
    omega (arith, rest, ap (λ n. 10 ^ n) (later k (length s)))

digits_value_from-exact :
    (k v : ℕ) (s : Bytes)
    → all_digits s ≡ true
    → v < 10 ^ k
    → k + length s ≤ 19
    → digits_value_from v s ≡ value_from v s
unfolding digits_value_from value_from
digits_value_from-exact k v [] ds h fits = refl
digits_value_from-exact k v (c ∷ s) ds h fits =
    let small = all_digits-head c s ds in
    let below : v * 10 + digit c < 10 ^ suc k = omega (arith, h, small, pow_step 10 k) in
    let top : 10 ^ suc k ≤ 10 ^ 19 =
      pow-le-pow_right {n = 10} (omega arith) {i = suc k} {j = 19} (omega (arith, fits)) in
    let exact : (v * 10 + digit c) % u64 ≡ v * 10 + digit c =
      mod-eq_of_lt (omega (arith, below, top)) in
    ap (λ n. digits_value_from n s) exact
    ∙ digits_value_from-exact (suc k) (v * 10 + digit c) s (all_digits-tail c s ds) below
        (omega (arith, fits))

-- On at most 19 digits the uint64 arithmetic of digitsValue does not wrap: the result is the number
-- that the digits write.
pub digits_value-exact :
    (s : Bytes) → all_digits s ≡ true → length s ≤ 19 → digits_value s ≡ value_from 0 s
unfolding digits_value
digits_value-exact s ds fits = digits_value_from-exact 0 0 s ds (omega arith) (omega (arith, fits))

swapped : (a b c : ℕ) → a * b * c ≡ a * c * b
swapped a b c = mul_assoc a b c ∙ (ap (λ x. a * x) (mul_comm b c) ∙ sym (mul_assoc a c b))

-- A value may be reduced modulo n before the digits that follow it.
pub value_from-mod : (n v : ℕ) (s : Bytes) → value_from (v % n) s % n ≡ value_from v s % n
value_from-mod n v s =
    let p = 10 ^ length s in
    let parts : (v % n) * p + v / n * n * p ≡ v * p =
      sym (add-mul (v % n) (v / n * n) p) ∙ ap (λ x. x * p) (mod-add-div' v n) in
    ap (λ x. x % n) (value_from-shift (v % n) s)
    ∙ sym (add-mul-mod_self_right ((v % n) * p + value_from 0 s) (v / n * p) n)
    ∙ ap (λ x. x % n) (omega (arith, parts, value_from-shift v s, swapped (v / n) n p))
