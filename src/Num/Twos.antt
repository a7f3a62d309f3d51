-- ===== src/Num/Twos.antt =====
-- The factors of two that newDivisor (num.go) takes out of a number.
use jsonschema.Prelude.{
  ℕ, zero, suc, ◌+◌, ◌*◌, ◌/◌, ◌%◌, ◌^◌, ◌<◌, ◌≡◌, refl, ap, ◌∙◌, Bool, true, false, ◌||◌, arith,
  ◌==◌, Bool-cases, inl, inr,
}
use native.Mathlib.Omega.{pow_step}
use native.Mathlib.Nat.{mul_assoc, mul_comm, pow-zero}
use jsonschema.Num.Divide.{strip_twos}

pub record Odds (n : ℕ) (r : ℕ × ℕ) : Type 0 where
  pub whole : n ≡ r.1 * 2 ^ r.0
  pub odd : r.1 % 2 ≡ 1

suc_one : (c : ℕ) → c + 1 ≡ suc c
suc_one c = omega arith

pub strip_twos-Odds : (f n : ℕ) → 0 < n → n < f → Odds n (strip_twos f n)
unfolding strip_twos
strip_twos-Odds zero n positive fuel = absurd (omega (arith, fuel))
strip_twos-Odds (suc f) n positive fuel = at (strip_twos-Odds f (n / 2)) (n == 0 || n % 2 == 1) refl
  where
    at :
        (0 < n / 2 → n / 2 < f → Odds (n / 2) (strip_twos f (n / 2)))
        → (b : Bool) → (n == 0 || n % 2 == 1) ≡ b
        → Odds n (elim b [
          | true ↦ (0, n)
          | false ↦ let (count, rest) = strip_twos f (n / 2) in (count + 1, rest)
        ])
    at again true h = record {
      whole = omega (arith, ap (λ x. n * x) (pow-zero 2));
      odd = ground (arith, positive);
    }
    at again false h =
        let even : n % 2 ≡ 0 = ground (arith, positive) in
        let r = strip_twos f (n / 2) in
        let o = again (omega (arith, even, positive)) (omega (arith, positive, fuel)) in
        record {
          whole = omega (
            arith,
            even,
            o.whole,
            ap (λ k. r.1 * 2 ^ k) (suc_one r.0),
            ap (λ x. r.1 * x) (pow_step 2 r.0),
            mul_assoc r.1 2 (2 ^ r.0),
            ap (λ x. x * 2 ^ r.0) (mul_comm r.1 2),
            mul_assoc 2 r.1 (2 ^ r.0),
          );
          odd = o.odd;
        }

pub odd_part : (m x n : ℕ) → n ≡ m * x → n % 2 ≡ 1 → m % 2 ≡ 1
odd_part m x n e odd = elim (Bool-cases (m % 2 == 0)) [
  | inl even ↦ absurd (omega (arith, e, odd, halves (ground arith)))
  | inr uneven ↦ ground arith
]
  where
    halves : m % 2 ≡ 0 → m * x ≡ 2 * (m / 2 * x)
    halves even = ap (λ y. y * x) (omega (arith, even)) ∙ mul_assoc 2 (m / 2) x
