-- ===== src/Num/Divide.antt =====
-- multipleOf: newDivisor, stripFives, divides and digitsDivisible of num.go. A big.Int is a number.
use jsonschema.Prelude.{
  ℕ, zero, suc, ◌+◌, ◌-◌, ◌*◌, ◌/◌, ◌%◌, ◌^◌, Bool, true, false, ◌&&◌, ◌||◌, [], ◌∷◌, Option, none,
  some, length, take, drop, leb, ltb, ◌==◌, if◌then◌else◌,
}
use jsonschema.Prelude.Bytes.{Bytes}
use jsonschema.Prelude.Int.{ℤ, pos, pos_part, ltb_ℤ, ◌-ℤ◌}
use jsonschema.Num.Digits.{u64, digit, digits_value}
use jsonschema.Num.Decimal.{Huge, stored, above, below, Decimal, is_zero}

-- SetString(digits, 10): the value of the digits.
unfoldable pub value_from : ℕ → Bytes → ℕ
unfolding digit
value_from v [] = v
value_from v (c ∷ s) = value_from (v * 10 + digit c) s

-- TrailingZeroBits, and the number with those bits shifted out. The fuel bounds the bits.
unfoldable pub strip_twos : ℕ → ℕ → ℕ × ℕ
strip_twos zero n = (0, n)
strip_twos (suc f) n = elim (n == 0 || n % 2 == 1) [
  | true ↦ (0, n)
  | false ↦ let (count, rest) = strip_twos f (n / 2) in (count + 1, rest)
]

-- The inner loop of stripFives at one power `p`: how often it divides, and the quotient.
unfoldable pub strip_power : ℕ → ℕ → ℕ → ℕ × ℕ
strip_power zero p n = (0, n)
strip_power (suc f) p n = elim (n % p == 0) [
  | true ↦ let (count, rest) = strip_power f p (n / p) in (count + 1, rest)
  | false ↦ (0, n)
]

-- The number of 64-bit words of a big.Int, len(n.Bits()).
word_count : ℕ → ℕ → ℕ
word_count zero n = 0
word_count (suc f) n = elim (n == 0) [ true ↦ 0 | false ↦ word_count f (n / u64) + 1 ]

-- Whether the list of powers grows past `last`.
unfoldable pub grows : ℕ → ℕ → Bool
unfolding word_count
grows last n = leb last n && leb (word_count (suc last) last * 2) (word_count (suc n) n + 1)

-- The division by one power `p`, where each division counts `weight`.
unfoldable pub strip_next : ℕ → ℕ → ℕ × ℕ → ℕ × ℕ
unfolding strip_power
strip_next p weight (count, rest) =
    let (times, rest') = strip_power (suc rest) p rest in (count + times * weight, rest')

-- The loop of stripFives over the powers 5^(2^i), from the largest one down to `p` itself: the
-- squares of `p` are taken out first, and `weight` is what one division by `p` counts.
unfoldable pub strip_powers : ℕ → ℕ → ℕ → ℕ → ℕ × ℕ
unfolding strip_next grows
strip_powers zero p weight n = (0, n)
strip_powers (suc f) p weight n = elim (grows p n) [
  | true ↦ strip_next p weight (strip_powers f (p * p) (weight * 2) n)
  | false ↦ strip_next p weight (0, n)
]

-- stripFives: the count and what is left of n.
unfoldable pub strip_fives : ℕ → ℕ × ℕ
unfolding strip_powers
strip_fives n = if n == 0 then (0, n) else strip_powers (suc n) 5 1 n

pub record Divisor : Type 0 where
  pub d : Decimal
  pub m : ℕ
  pub p : ℕ
  pub q : ℕ

-- newDivisor
unfoldable pub new_divisor : Decimal → Divisor
unfolding value_from strip_twos strip_fives
new_divisor d =
    let b = value_from 0 d.digits in
    let (p, odd) = strip_twos (suc b) b in
    let (q, m) = strip_fives odd in record { d = d; m = m; p = p; q = q }

-- bits.Div64: the remainder, and none where it panics.
unfoldable pub rem_64 : ℕ → ℕ → ℕ → Option ℕ
rem_64 hi lo m = if leb m hi then none else some ((hi * u64 + lo) % m)

-- One round of the loop over 64-bit remainders: r * scale + c, in two words, modulo m.
unfoldable pub step_64 : ℕ → ℕ → ℕ → ℕ → Option ℕ
unfolding rem_64
step_64 m r scale c =
    let hi = r * scale / u64 in
    let lo = r * scale % u64 in rem_64 (hi + (lo + c) / u64) ((lo + c) % u64) m

-- The loops of digitsDivisible. `chunk` is the length of the next piece: the head, then 18.
unfoldable pub remainder_64 : ℕ → ℕ → ℕ → ℕ → Bytes → Option ℕ
remainder_64 zero m chunk r s = some r
remainder_64 (suc f) m chunk r [] = some r
remainder_64 (suc f) m chunk r (c ∷ s) =
    elim (step_64 m r (10 ^ length (take chunk (c ∷ s))) (digits_value (take chunk (c ∷ s)))) [
      | none ↦ none
      | some r' ↦ remainder_64 f m 18 r' (drop chunk (c ∷ s))
    ]

unfoldable pub remainder_big : ℕ → ℕ → ℕ → ℕ → Bytes → ℕ
remainder_big zero n chunk r s = r
remainder_big (suc f) n chunk r [] = r
remainder_big (suc f) n chunk r (c ∷ s) =
    remainder_big f n 18
      ((r * 10 ^ length (take chunk (c ∷ s)) + digits_value (take chunk (c ∷ s))) % n)
      (drop chunk (c ∷ s))

-- The length of the first piece.
unfoldable pub head_chunk : ℕ → ℕ
head_chunk len = if len % 18 == 0 then 18 else len % 18

-- digitsDivisible: none where bits.Div64 panics.
unfoldable pub digits_divisible : Bytes → ℕ → Option Bool
unfolding remainder_64 step_64 remainder_big head_chunk digits_value
digits_divisible digits n =
    if ltb n u64
    then elim (remainder_64 (length digits) n (head_chunk (length digits)) 0 digits) [
      | none ↦ none
      | some r ↦ some (r == 0)
    ]
    else some (remainder_big (length digits) n (head_chunk (length digits)) 0 digits == 0)

-- The exponent of x that `divides` computes with: none where it is beyond 10^18.
unfoldable pub exponent_of : Huge → Decimal → Option ℤ
unfolding digits_value
exponent_of stored x = some x.exp
exponent_of above x =
    if leb (length x.huge_exp) 18 then some (pos (digits_value x.huge_exp)) else none
exponent_of below x = none

-- What b must still divide, at k = ea - eb: m, and the twos and fives that 10^k does not supply.
unfoldable pub needed : Divisor → ℕ → ℕ
needed dv k = dv.m * 2 ^ (dv.p - k) * 5 ^ (dv.q - k)

unfoldable pub divides_at : Divisor → Decimal → Option ℤ → Option Bool
divides_at dv x none = digits_divisible x.digits dv.m
divides_at dv x (some xe) =
    if ltb_ℤ (xe -ℤ dv.d.exp) (pos 0)
    then some false
    else digits_divisible x.digits (needed dv (pos_part (xe -ℤ dv.d.exp)))

unfoldable pub is_below : Huge → Bool
is_below below = true
is_below _ = false

-- The results of `divides`: the pair of booleans, or a panic.
pub data Divides : Type 0 where
  unchecked panic : Divides
  answer : Bool → Divides

unfoldable pub answered : Option Bool → Divides
answered none = panic
answered (some b) = answer b

-- divides
unfoldable pub divides : Divisor → Decimal → Divides
unfolding is_below is_zero answered divides_at exponent_of needed digits_divisible ◌-ℤ◌
divides dv x =
    if x.nan || x.inf
    then unchecked
    else if is_zero x
    then answer true
    else if is_below x.huge
    then answer false
    else answered (divides_at dv x (exponent_of x.huge x))
