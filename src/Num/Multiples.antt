-- ===== src/Num/Multiples.antt =====
-- Divisibility where a power of a prime is taken out: the arithmetic behind divides of num.go.
use Prim.Native.Nat.{◌∣◌}
use jsonschema.Prelude.{
  ℕ, zero, suc, ◌+◌, ◌-◌, ◌*◌, ◌/◌, ◌%◌, ◌^◌, ◌<◌, ◌≡◌, ◌↔◌, refl, sym, ap, ◌∙◌, arith, true, false,
  ◌==◌, Bool-cases, inl, inr,
}
use mathlib.Core.Bool.{true≢false}
use native.Mathlib.Nat
use native.Mathlib.Omega.{pow_step}

-- A factor `t` of a multiple of `c` may be left out.
abbrev pub Cancels : ℕ → ℕ → Type 0
Cancels t c = (a : ℕ) → c ∣ t * a → c ∣ a

dvd_at : {x x' y y' : ℕ} → x ≡ x' → y ≡ y' → x ∣ y → x' ∣ y'
dvd_at e f h = rw (← e, ← f) h

Cancels-inverse : (t c u v : ℕ) → t * u ≡ c * v + 1 → Cancels t c
Cancels-inverse t c u v e a h =
    (Nat.dvd-add_iff_right c (Nat.dvd-mul_right c (v * a))).1
      (dvd_at refl split (Nat.dvd-mul_left_of_dvd c h u))
  where
    split : u * (t * a) ≡ c * (v * a) + a
    split = omega (
      arith,
      Nat.mul_assoc u t a,
      ap (λ x. x * a) (Nat.mul_comm u t ∙ e),
      Nat.add-mul (c * v) 1 a,
      Nat.mul_assoc c v a,
    )

pub two-Cancels : (c : ℕ) → c % 2 ≡ 1 → Cancels 2 c
two-Cancels c odd = Cancels-inverse 2 c ((c + 1) / 2) 1 (omega (arith, odd))

five_at : (c r : ℕ) → c % 5 ≡ r → 0 < r → r < 5 → Cancels 5 c
five_at c zero e lo hi = absurd (omega (arith, lo))
five_at c (suc zero) e lo hi = Cancels-inverse 5 c ((c * 4 + 1) / 5) 4 (omega (arith, e))
five_at c (suc (suc zero)) e lo hi = Cancels-inverse 5 c ((c * 2 + 1) / 5) 2 (omega (arith, e))
five_at c (suc (suc (suc zero))) e lo hi =
    Cancels-inverse 5 c ((c * 3 + 1) / 5) 3 (omega (arith, e))
five_at c (suc (suc (suc (suc zero)))) e lo hi =
    Cancels-inverse 5 c ((c + 1) / 5) 1 (omega (arith, e))
five_at c (suc (suc (suc (suc (suc r))))) e lo hi = absurd (omega (arith, hi))

pub five-Cancels : (c : ℕ) → 0 < c % 5 → Cancels 5 c
five-Cancels c h = five_at c (c % 5) refl h (omega arith)

step_left : (t n x : ℕ) → t ^ suc n * x ≡ t * (t ^ n * x)
step_left t n x = ap (λ y. y * x) (pow_step t n) ∙ Nat.mul_assoc t (t ^ n) x

none_out : (t x : ℕ) → t ^ 0 * x ≡ x
none_out t x = omega (arith, ap (λ y. y * x) (Nat.pow-zero t))

nothing_less : (k : ℕ) → 0 - suc k ≡ 0 - k
nothing_less k = omega arith

both_less : (j k : ℕ) → j - k ≡ suc j - suc k
both_less j k = omega arith

all_left : (j : ℕ) → j - 0 ≡ j
all_left j = omega arith

-- The powers of `t` on the right supply as many of those on the left.
pub powers_out :
    (t c a : ℕ) → 0 < t → Cancels t c → (j k : ℕ) → (t ^ j * c ∣ t ^ k * a) ↔ (t ^ (j - k) * c ∣ a)
powers_out t c a positive cancels j zero =
    let all : t ^ j * c ≡ t ^ (j - 0) * c = ap (λ n. t ^ n * c) (sym (all_left j)) in
    (dvd_at all (none_out t a), dvd_at (sym all) (sym (none_out t a)))
powers_out t c a positive cancels zero (suc k) =
    let (out, into) = powers_out t c a positive cancels zero k in
    let less : t ^ (0 - k) * c ≡ t ^ (0 - suc k) * c = ap (λ n. t ^ n * c) (sym (nothing_less k)) in
    (
      λ h. dvd_at less refl (
          out (
            dvd_at (sym (none_out t c)) refl
              (cancels (t ^ k * a) (dvd_at (none_out t c) (step_left t k a) h)))),
      λ h.
          dvd_at refl (sym (step_left t k a))
            (Nat.dvd-mul_left_of_dvd _ (into (dvd_at (sym less) refl h)) t),
    )
powers_out t c a positive cancels (suc j) (suc k) =
    let (out, into) = powers_out t c a positive cancels j k in
    let same : t ^ (j - k) * c ≡ t ^ (suc j - suc k) * c = ap (λ n. t ^ n * c) (both_less j k) in
    (
      λ h. dvd_at same refl (
          out (
            Nat.dvd_of_mul-dvd-mul_left (t ^ j * c) positive
              (dvd_at (step_left t j c) (step_left t k a) h))),
      λ h.
          dvd_at (sym (step_left t j c)) (sym (step_left t k a))
            (Nat.mul-dvd-mul_left _ t (into (dvd_at (sym same) refl h))),
    )

tens : (k : ℕ) → 10 ^ k ≡ 2 ^ k * 5 ^ k
tens zero = omega (arith, Nat.pow-zero 10, Nat.pow-zero 2, Nat.pow-zero 5)
tens (suc k) = omega (
  arith,
  pow_step 10 k,
  tens k,
  step_left 2 k (5 ^ suc k),
  ap (λ x. 2 ^ k * x) (pow_step 5 k),
  Nat.mul_comm (2 ^ k) (5 * 5 ^ k),
  Nat.mul_assoc 5 (5 ^ k) (2 ^ k),
  Nat.mul_comm (5 ^ k) (2 ^ k),
)

odd_product : (m q : ℕ) → m % 2 ≡ 1 → m * 5 ^ q % 2 ≡ 1
odd_product m zero odd = omega (arith, ap (λ x. m * x) (Nat.pow-zero 5), odd)
odd_product m (suc q) odd =
    omega (arith, odd_product m q odd, ap (λ x. m * x) (Nat.pow-suc 5 q), Nat.mul_assoc m (5 ^ q) 5)

no_five : (m n : ℕ) → 0 < m % 5 → 0 < m * 2 ^ n % 5
no_five m zero h = omega (arith, ap (λ x. m * x) (Nat.pow-zero 2), h)
no_five m (suc n) h =
    omega (arith, no_five m n h, ap (λ x. m * x) (Nat.pow-suc 2 n), Nat.mul_assoc m (2 ^ n) 2)

moved : (m f t : ℕ) → m * f * t ≡ t * (m * f)
moved m f t = Nat.mul_comm (m * f) t

swapped : (m f t : ℕ) → t * (m * f) ≡ f * (m * t)
swapped m f t =
    sym (Nat.mul_assoc t m f) ∙ (Nat.mul_comm (t * m) f ∙ ap (λ x. f * x) (Nat.mul_comm t m))

-- The tens on the right supply twos and fives on the left.
pub tens_out :
    (m p q b k : ℕ)
    → m % 2 ≡ 1
    → 0 < m % 5
    → (m * 5 ^ q * 2 ^ p ∣ b * 10 ^ k) ↔ (m * 2 ^ (p - k) * 5 ^ (q - k) ∣ b)
tens_out m p q b k odd no_fives =
    let (twos_out, twos_in) =
      powers_out 2 (m * 5 ^ q) (5 ^ k * b) (omega arith)
        (two-Cancels (m * 5 ^ q) (odd_product m q odd)) p k in
    let (fives_out, fives_in) =
      powers_out 5 (m * 2 ^ (p - k)) b (omega arith)
        (five-Cancels (m * 2 ^ (p - k)) (no_five m (p - k) no_fives)) q k in
    let left : m * 5 ^ q * 2 ^ p ≡ 2 ^ p * (m * 5 ^ q) = moved m (5 ^ q) (2 ^ p) in
    let right : b * 10 ^ k ≡ 2 ^ k * (5 ^ k * b) =
      ap (λ x. b * x) (tens k)
      ∙ (Nat.mul_comm b (2 ^ k * 5 ^ k) ∙ Nat.mul_assoc (2 ^ k) (5 ^ k) b) in
    let between : 2 ^ (p - k) * (m * 5 ^ q) ≡ 5 ^ q * (m * 2 ^ (p - k)) =
      swapped m (5 ^ q) (2 ^ (p - k)) in
    let end : 5 ^ (q - k) * (m * 2 ^ (p - k)) ≡ m * 2 ^ (p - k) * 5 ^ (q - k) =
      sym (moved m (2 ^ (p - k)) (5 ^ (q - k))) in
    (
      λ h. dvd_at end refl (fives_out (dvd_at between refl (twos_out (dvd_at left right h)))),
      λ h.
          dvd_at (sym left) (sym right)
            (twos_in (dvd_at (sym between) refl (fives_in (dvd_at (sym end) refl h)))),
    )

is_multiple : (n a : ℕ) → (a % n == 0) ≡ true → n ∣ a
is_multiple n a h = Nat.dvd_of_mod-eq-zero n (ground arith)

multiple_test : (n a : ℕ) → n ∣ a → (a % n == 0) ≡ true
multiple_test n a h = ground (arith, Nat.mod-eq-zero_of_dvd n h)

-- Two tests for a multiple that come out alike.
pub same_test : (n a n' a' : ℕ) → (n ∣ a) ↔ (n' ∣ a') → (a % n == 0) ≡ (a' % n' == 0)
same_test n a n' a' (there, back) = elim (Bool-cases (a % n == 0)) [
  | inl yes_left ↦ yes_left ∙ sym (multiple_test n' a' (there (is_multiple n a yes_left)))
  | inr no_left ↦ elim (Bool-cases (a' % n' == 0)) [
    | inl yes_right ↦
        absurd (true≢false (sym (multiple_test n a (back (is_multiple n' a' yes_right))) ∙ no_left))
    | inr no_right ↦ no_left ∙ sym no_right
  ]
]

-- A number that ends in a digit other than zero is no multiple of ten times another.
pub no_ten : (d a n : ℕ) → 0 < n → 0 < a % 10 → (a % (d * 10 ^ n) == 0) ≡ false
no_ten d a zero positive h = absurd (omega (arith, positive))
no_ten d a (suc n) positive h = elim (Bool-cases (a % (d * 10 ^ suc n) == 0)) [
  | inl whole ↦ absurd (
      omega (
        arith,
        h,
        Nat.mod-eq-zero_of_dvd 10 (
            Nat.dvd_trans 10 (dvd_at refl tenth (Nat.dvd-mul_left 10 (d * 10 ^ n)))
              (is_multiple (d * 10 ^ suc n) a whole)),
      ))
  | inr broken ↦ broken
]
  where
    tenth : d * 10 ^ n * 10 ≡ d * 10 ^ suc n
    tenth = Nat.mul_assoc d (10 ^ n) 10 ∙ ap (λ x. d * x) (sym (Nat.pow-suc 10 n))
