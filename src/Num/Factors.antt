-- ===== src/Num/Factors.antt =====
-- newDivisor and stripFives: the divisor as its twos, its fives and what neither divides.
use jsonschema.Prelude.{
  ℕ, zero, suc, ◌+◌, ◌*◌, ◌/◌, ◌%◌, ◌^◌, ◌<◌, ◌≡◌, refl, sym, ap, ◌∙◌, Bool, true, false, arith,
  ◌==◌, if_cases,
}
use native.Mathlib.Omega.{pow_step}
use native.Mathlib.Nat.{
  pow-zero, mul_assoc, mul_comm, mod-add-div', suc-mul, zero-mul, zero-add, suc-add, div-lt_self,
}
use jsonschema.Num.Divide.{strip_power, strip_next, grows, strip_powers, strip_fives}

pub pow_split : (b m n : ℕ) → b ^ (m + n) ≡ b ^ m * b ^ n
pow_split b zero n = omega (arith, ap (λ k. b ^ k) (zero-add n), ap (λ x. x * b ^ n) (pow-zero b))
pow_split b (suc m) n =
    ap (λ k. b ^ k) (suc-add m n)
    ∙ (pow_step b (m + n)
        ∙ (ap (λ x. b * x) (pow_split b m n)
            ∙ (sym (mul_assoc b (b ^ m) (b ^ n)) ∙ ap (λ x. x * b ^ n) (sym (pow_step b m)))))

pub pow_tower : (b w t : ℕ) → (b ^ w) ^ t ≡ b ^ (t * w)
pow_tower b w zero = pow-zero (b ^ w) ∙ (sym (pow-zero b) ∙ ap (λ k. b ^ k) (sym (zero-mul w)))
pow_tower b w (suc t) =
    pow_step (b ^ w) t
    ∙ (ap (λ x. b ^ w * x) (pow_tower b w t)
        ∙ (sym (pow_split b w (t * w)) ∙ ap (λ k. b ^ k) (omega (arith, suc-mul t w))))

-- A result of stripping: the number is what is left times a power, and `d` does not divide what is
-- left.
record Strips (base d n : ℕ) (r : ℕ × ℕ) : Type 0 where
  pub whole : n ≡ r.1 * base ^ r.0
  pub left : 0 < r.1
  pub no_more : 0 < r.1 % d

suc_one : (c : ℕ) → c + 1 ≡ suc c
suc_one c = omega arith

positive_quotient : (q p n : ℕ) → q * p ≡ n → 0 < n → 0 < q
positive_quotient zero p n e pos = absurd (omega (arith, e, zero-mul p, pos))
positive_quotient (suc q) p n e pos = omega arith

-- One more division by `p`.
Strips-again :
    (p n : ℕ) (r : ℕ × ℕ) → n % p ≡ 0 → Strips p p (n / p) r → Strips p p n (r.0 + 1, r.1)
Strips-again p n (c, rest) none_left h = record {
  whole =
      sym (mod-add-div' n p)
      ∙ (omega (
        arith,
        none_left,
        ap (λ x. x * p) h.whole,
        mul_assoc rest (p ^ c) p,
        ap (λ x. rest * x) (mul_comm (p ^ c) p ∙ sym (pow_step p c)),
        ap (λ k. rest * p ^ k) (suc_one c),
      ));
  left = h.left;
  no_more = h.no_more;
}

strip_power-Strips : (f p n : ℕ) → 1 < p → 0 < n → n < f → Strips p p n (strip_power f p n)
unfolding strip_power
strip_power-Strips zero p n hp pos fuel = absurd (omega (arith, fuel))
strip_power-Strips (suc f) p n hp pos fuel =
    at (strip_power-Strips f p (n / p) hp) (n % p == 0) refl
  where
    at :
        (0 < n / p → n / p < f → Strips p p (n / p) (strip_power f p (n / p)))
        → (b : Bool) → (n % p == 0) ≡ b
        → Strips p p n (elim b [
          | true ↦ let (count, rest) = strip_power f p (n / p) in (count + 1, rest)
          | false ↦ (0, n)
        ])
    at again true h =
        let none_left : n % p ≡ 0 = ground arith in
        let pos_quotient =
          positive_quotient (n / p) p n (omega (arith, mod-add-div' n p, none_left)) pos in
        Strips-again p n (strip_power f p (n / p)) none_left
          (again pos_quotient (omega (arith, div-lt_self {n = n} {k = p} pos hp, fuel)))
    at again false h = record {
      whole = omega (arith, ap (λ x. n * x) (pow-zero p));
      left = pos;
      no_more = ground arith;
    }

wide_power : (w : ℕ) → 0 < 5 ^ w
wide_power zero = omega (arith, pow-zero 5)
wide_power (suc w) = omega (arith, wide_power w, pow_step 5 w)

wider_power : (w : ℕ) → 0 < w → 1 < 5 ^ w
wider_power zero pos = absurd (omega (arith, pos))
wider_power (suc w) pos = omega (arith, wide_power w, pow_step 5 w)

next_whole :
    (n rest count t w r : ℕ)
    → n ≡ rest * 5 ^ count
    → rest ≡ r * (5 ^ w) ^ t
    → n ≡ r * 5 ^ (count + t * w)
next_whole n rest count t w r whole again =
    whole
    ∙ (ap (λ x. x * 5 ^ count) (again ∙ ap (λ x. r * x) (pow_tower 5 w t))
        ∙ (mul_assoc r (5 ^ (t * w)) (5 ^ count)
            ∙ ap (λ x. r * x)
                (mul_comm (5 ^ (t * w)) (5 ^ count) ∙ sym (pow_split 5 count (t * w)))))

-- Dividing by p = 5^w after the larger powers.
strip_next-Strips :
    (w n : ℕ) (r : ℕ × ℕ)
    → 0 < w
    → n ≡ r.1 * 5 ^ r.0
    → 0 < r.1
    → Strips 5 (5 ^ w) n (strip_next (5 ^ w) w r)
unfolding strip_next
strip_next-Strips w n (count, rest) pos whole left =
    let divided = strip_power (suc rest) (5 ^ w) rest in
    let h : Strips (5 ^ w) (5 ^ w) rest divided =
      strip_power-Strips (suc rest) (5 ^ w) rest (wider_power w pos) left (omega arith) in
    record {
      whole = next_whole n rest count divided.0 w divided.1 whole h.whole;
      left = h.left;
      no_more = h.no_more;
    }

-- The same at any name for the power.
strip_next-at :
    (p w n : ℕ) (r : ℕ × ℕ)
    → 5 ^ w ≡ p
    → 0 < w
    → n ≡ r.1 * 5 ^ r.0
    → 0 < r.1
    → Strips 5 p n (strip_next p w r)
strip_next-at p w n r e pos whole left = rw e at (strip_next-Strips w n r pos whole left)

unstripped : (n : ℕ) → n ≡ n * 5 ^ 0
unstripped n = omega (arith, ap (λ x. n * x) (pow-zero 5))

squared : (p w : ℕ) → 5 ^ w ≡ p → 5 ^ (w * 2) ≡ p * p
squared p w e = ap (λ k. 5 ^ k) (omega arith) ∙ (pow_split 5 w w ∙ (λ i. e i * e i))

-- What strip_powers keeps whatever its fuel.
record Leaves (n : ℕ) (r : ℕ × ℕ) : Type 0 where
  pub whole : n ≡ r.1 * 5 ^ r.0
  pub left : 0 < r.1

strip_powers-whole : (f p w n : ℕ) → 5 ^ w ≡ p → 0 < w → 0 < n → Leaves n (strip_powers f p w n)
unfolding strip_powers
strip_powers-whole zero p w n e hw pos = record { whole = unstripped n; left = pos }
strip_powers-whole (suc f) p w n e hw pos =
    at (grows p n) (strip_powers-whole f (p * p) (w * 2) n (squared p w e) (omega (arith, hw)) pos)
  where
    at :
        (b : Bool)
        → Leaves n (strip_powers f (p * p) (w * 2) n)
        → Leaves n (elim b [
          | true ↦ strip_next p w (strip_powers f (p * p) (w * 2) n)
          | false ↦ strip_next p w (0, n)
        ])
    at true l =
        let h = strip_next-at p w n (strip_powers f (p * p) (w * 2) n) e hw l.whole l.left in
        record { whole = h.whole; left = h.left }
    at false _ =
        let h = strip_next-at p w n (0, n) e hw (unstripped n) pos in
        record { whole = h.whole; left = h.left }

strip_powers-Strips :
    (f p w n : ℕ) → 5 ^ w ≡ p → 0 < w → 0 < n → Strips 5 p n (strip_powers (suc f) p w n)
unfolding strip_powers
strip_powers-Strips f p w n e hw pos =
    at (grows p n) (strip_powers-whole f (p * p) (w * 2) n (squared p w e) (omega (arith, hw)) pos)
  where
    at :
        (b : Bool)
        → Leaves n (strip_powers f (p * p) (w * 2) n)
        → Strips 5 p n (elim b [
          | true ↦ strip_next p w (strip_powers f (p * p) (w * 2) n)
          | false ↦ strip_next p w (0, n)
        ])
    at true l = strip_next-at p w n (strip_powers f (p * p) (w * 2) n) e hw l.whole l.left
    at false _ = strip_next-at p w n (0, n) e hw (unstripped n) pos

-- stripFives of a positive number counts its fives: what is left is positive, five does not divide
-- it, and what is left times five to the count is the number.
pub strip_fives-value :
    (n : ℕ)
    → 0 < n
    → (n ≡ (strip_fives n).1 * 5 ^ (strip_fives n).0)
      × (0 < (strip_fives n).1)
      × (0 < (strip_fives n).1 % 5)
unfolding strip_fives
strip_fives-value n pos =
    if_cases (λ (r : ℕ × ℕ). (n ≡ r.1 * 5 ^ r.0) × (0 < r.1) × (0 < r.1 % 5)) (n == 0)
      (λ zero_n. absurd (ground arith))
      (λ _.
        let h = strip_powers-Strips n 5 1 n refl (omega arith) pos in (h.whole, h.left, h.no_more))
