-- ===== src/Num/Divisible.antt =====
-- digitsDivisible against division of the number that the digits write.
use jsonschema.Prelude.{
  ℕ, zero, suc, ◌+◌, ◌*◌, ◌/◌, ◌%◌, ◌^◌, ◌≤◌, ◌<◌, ◌≡◌, refl, sym, ap, ◌∙◌, true, [], ◌∷◌, Option,
  none, some, length, take, drop, length-take, length-drop, take-append-drop, arith, ltb, leb, ◌==◌,
  if_cases,
}
use native.Mathlib.Nat.{suc-mul, zero-add, mul-le-mul, pow-le-pow_right, mod-lt, mod-eq_of_lt}
use jsonschema.Prelude.Bytes.{Bytes}
use jsonschema.Num.Digits.{u64, all_digits, digits_value}
use jsonschema.Num.Divide.{
  value_from, rem_64, step_64, remainder_64, remainder_big, head_chunk, digits_divisible,
}
use jsonschema.Num.Exact.{
  all_digits-tail, digits_value-exact, value_from-shift, value_from-append, value_from-lt,
  value_from-mod,
}

all_digits-take : (n : ℕ) (s : Bytes) → all_digits s ≡ true → all_digits (take n s) ≡ true
unfolding all_digits
all_digits-take zero s h = refl
all_digits-take (suc n) [] h = refl
all_digits-take (suc n) (c ∷ s) h = ground (arith, all_digits-take n s)

all_digits-drop : (n : ℕ) (s : Bytes) → all_digits s ≡ true → all_digits (drop n s) ≡ true
all_digits-drop zero s h = h
all_digits-drop (suc n) [] h = h
all_digits-drop (suc n) (c ∷ s) h = all_digits-drop n s (all_digits-tail c s h)

rem_64-fits : (hi lo m : ℕ) → hi < m → rem_64 hi lo m ≡ some ((hi * u64 + lo) % m)
unfolding rem_64
rem_64-fits hi lo m h =
    if_cases (λ o. o ≡ some ((hi * u64 + lo) % m)) (leb m hi) (λ big. absurd (ground arith))
      (λ _. refl)

-- Neither the sum of the words nor the quotient overflows, so bits.Div64 does not panic.
step_64-fits :
    (m r scale c : ℕ)
    → r < m
    → scale ≤ u64
    → c < scale
    → step_64 m r scale c ≡ some ((r * scale + c) % m)
unfolding step_64
step_64-fits m r scale c hr hs hc =
    let x = r * scale in
    let hi = x / u64 + (x % u64 + c) / u64 in
    let lo = (x % u64 + c) % u64 in
    let whole : hi * u64 + lo ≡ x + c = omega arith in
    let room : suc r * scale ≤ m * u64 = mul-le-mul hr hs in
    let next : suc r * scale ≡ x + scale = suc-mul r scale in
    rem_64-fits hi lo m (omega (arith, whole, room, next, hc)) ∙ ap (λ n. some (n % m)) whole

-- The value of the next piece of digits, behind what is read.
piece-value :
    (v chunk : ℕ) (s : Bytes)
    → all_digits s ≡ true
    → chunk ≤ 19
    → v * 10 ^ length (take chunk s) + digits_value (take chunk s) ≡ value_from v (take chunk s)
piece-value v chunk s ds fits =
    let exact =
      digits_value-exact (take chunk s) (all_digits-take chunk s ds)
        (omega (arith, length-take chunk s, fits)) in
    omega (arith, exact, value_from-shift v (take chunk s))

rest-value :
    (n v chunk : ℕ) (s : Bytes)
    → value_from (value_from v (take chunk s) % n) (drop chunk s) % n ≡ value_from v s % n
rest-value n v chunk s =
    value_from-mod n (value_from v (take chunk s)) (drop chunk s)
    ∙ ap (λ x. x % n)
        (sym (value_from-append v (take chunk s) (drop chunk s))
          ∙ ap (value_from v) (take-append-drop chunk s))

remainder_big-value :
    (f n chunk r : ℕ) (s : Bytes)
    → all_digits s ≡ true
    → r < n
    → 0 < chunk
    → chunk ≤ 18
    → length s ≤ f
    → remainder_big f n chunk r s ≡ value_from r s % n
unfolding remainder_big value_from
remainder_big-value zero n chunk r [] ds hr pos small fuel = sym (mod-eq_of_lt hr)
remainder_big-value (suc f) n chunk r [] ds hr pos small fuel = sym (mod-eq_of_lt hr)
remainder_big-value zero n chunk r (c ∷ s) ds hr pos small fuel = absurd (omega (arith, fuel))
remainder_big-value (suc f) n chunk r (c ∷ s) ds hr pos small fuel =
    ap (λ x. remainder_big f n 18 (x % n) (drop chunk (c ∷ s)))
      (piece-value r chunk (c ∷ s) ds (omega (arith, small)))
    ∙ (remainder_big-value f n 18 (value_from r (take chunk (c ∷ s)) % n) (drop chunk (c ∷ s))
          (all_digits-drop chunk (c ∷ s) ds) (mod-lt _ (omega (arith, hr))) (omega arith)
          (omega arith) (omega (arith, length-drop chunk (c ∷ s), pos, fuel))
        ∙ rest-value n r chunk (c ∷ s))

scale-fits : (chunk : ℕ) (s : Bytes) → chunk ≤ 18 → 10 ^ length (take chunk s) ≤ u64
scale-fits chunk s small =
    let top : 10 ^ length (take chunk s) ≤ 10 ^ 18 =
      pow-le-pow_right {n = 10} (omega arith) {i = length (take chunk s)} {j = 18}
        (omega (arith, length-take chunk s, small)) in
    omega (arith, top)

piece-lt :
    (chunk : ℕ) (s : Bytes)
    → all_digits s ≡ true
    → chunk ≤ 18
    → digits_value (take chunk s) < 10 ^ length (take chunk s)
piece-lt chunk s ds small =
    let exact =
      digits_value-exact (take chunk s) (all_digits-take chunk s ds)
        (omega (arith, length-take chunk s, small)) in
    let bound = value_from-lt 0 0 (take chunk s) (all_digits-take chunk s ds) (omega arith) in
    omega (arith, exact, bound, ap (λ n. 10 ^ n) (zero-add (length (take chunk s))))

-- The two loops agree on a divisor of one word.
remainder_64-remainder_big :
    (f m chunk r : ℕ) (s : Bytes)
    → all_digits s ≡ true
    → r < m
    → 0 < chunk
    → chunk ≤ 18
    → remainder_64 f m chunk r s ≡ some (remainder_big f m chunk r s)
unfolding remainder_64 remainder_big
remainder_64-remainder_big zero m chunk r s ds hr pos small = refl
remainder_64-remainder_big (suc f) m chunk r [] ds hr pos small = refl
remainder_64-remainder_big (suc f) m chunk r (c ∷ s) ds hr pos small =
    let piece = take chunk (c ∷ s) in
    ap (λ o. elim o [ none ↦ none | some r' ↦ remainder_64 f m 18 r' (drop chunk (c ∷ s)) ])
      (step_64-fits m r (10 ^ length piece) (digits_value piece) hr (scale-fits chunk (c ∷ s) small)
        (piece-lt chunk (c ∷ s) ds small))
    ∙ remainder_64-remainder_big f m 18 ((r * 10 ^ length piece + digits_value piece) % m)
        (drop chunk (c ∷ s)) (all_digits-drop chunk (c ∷ s) ds) (mod-lt _ (omega (arith, hr)))
        (omega arith) (omega arith)

head_chunk-bounds : (n : ℕ) → (0 < head_chunk n) × (head_chunk n ≤ 18)
unfolding head_chunk
head_chunk-bounds n = ground arith

-- digitsDivisible on digits, for a divisor that is not zero, never panics in bits.Div64, and answers
-- whether the divisor divides the number that the digits write, in one word or in many.
pub digits_divisible-value :
    (s : Bytes) (n : ℕ)
    → all_digits s ≡ true
    → 0 < n
    → digits_divisible s n ≡ some (value_from 0 s % n == 0)
unfolding digits_divisible
digits_divisible-value s n ds pos =
    let (some_chunk, small) = head_chunk-bounds (length s) in
    let big =
      remainder_big-value (length s) n (head_chunk (length s)) 0 s ds pos some_chunk small
        (omega arith) in
    let word =
      remainder_64-remainder_big (length s) n (head_chunk (length s)) 0 s ds pos some_chunk small in
    if_cases (λ o. o ≡ some (value_from 0 s % n == 0)) (ltb n u64)
      (λ _.
        ap (λ (o : Option ℕ). elim o [ none ↦ none | some r ↦ some (r == 0) ]) word
        ∙ ap (λ r. some (r == 0)) big)
      (λ _. ap (λ r. some (r == 0)) big)
