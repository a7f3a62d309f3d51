-- ===== src/Num/Order.antt =====
-- cmp is antisymmetric: exchanging the operands changes the sign of the answer.
use jsonschema.Prelude.{
  ℕ, ◌≡◌, refl, ap, ◌∙◌, Bool, true, false, not, ◌&&◌, ◌||◌, [], ◌∷◌, Option, none, some, length,
  arith, if◌then◌else◌,
}
use jsonschema.Prelude.Bytes.{Bytes}
use jsonschema.Prelude.Int.{ℤ, ◌+ℤ◌, pos}
use jsonschema.Num.Decimal.{Huge, stored, above, below, Decimal, is_empty}
use jsonschema.Num.Compare.{
  Sign, less, same, more, flip, compare_ints, compare_strings, compare_magnitudes, cmp_signs,
  cmp_signed, compare_exact, cmp_orders, cmp_magnitude, sign, inf_rank, compare_signs, is_same,
  times, cmp_finite, cmp, order,
}

abbrev flip_answer : Option Sign → Option Sign
flip_answer none = none
flip_answer (some s) = some (flip s)

compare_ints-flip : (a b : ℕ) → compare_ints b a ≡ flip (compare_ints a b)
unfolding compare_ints flip
compare_ints-flip a b = ground arith

-- A comparison that is decided first by one answer and, where it is the same, by another.
abbrev then_by : Sign → Sign → Sign
then_by s t = elim s [ less ↦ less | same ↦ t | more ↦ more ]

then_by-flip : (s t : Sign) → then_by (flip s) (flip t) ≡ flip (then_by s t)
unfolding flip
then_by-flip less t = refl
then_by-flip same t = refl
then_by-flip more t = refl

pub compare_strings-flip : (s t : Bytes) → compare_strings t s ≡ flip (compare_strings s t)
unfolding compare_strings flip
compare_strings-flip [] [] = refl
compare_strings-flip [] (d ∷ t) = refl
compare_strings-flip (c ∷ s) [] = refl
compare_strings-flip (c ∷ s) (d ∷ t) =
    (λ i. then_by (compare_ints-flip c d i) (compare_strings-flip s t i))
    ∙ then_by-flip (compare_ints c d) (compare_strings s t)

compare_magnitudes-flip : (s t : Bytes) → compare_magnitudes t s ≡ flip (compare_magnitudes s t)
unfolding compare_magnitudes
compare_magnitudes-flip s t =
    (λ i. then_by (compare_ints-flip (length s) (length t) i) (compare_strings-flip s t i))
    ∙ then_by-flip (compare_ints (length s) (length t)) (compare_strings s t)

flip-flip : (s : Sign) → flip (flip s) ≡ s
unfolding flip
flip-flip less = refl
flip-flip same = refl
flip-flip more = refl

cmp_signs-flip : (p q : Bool) (s : Sign) → cmp_signs q p (flip s) ≡ flip (cmp_signs p q s)
unfolding cmp_signs flip
cmp_signs-flip true true s = refl
cmp_signs-flip true false s = refl
cmp_signs-flip false true s = refl
cmp_signs-flip false false s = refl

cmp_signed-flip : (a b : Bool × Bytes) → cmp_signed b a ≡ flip (cmp_signed a b)
unfolding cmp_signed
cmp_signed-flip (p, s) (q, t) =
    ap (cmp_signs (q && not (is_empty t)) (p && not (is_empty s))) (compare_magnitudes-flip s t)
    ∙ cmp_signs-flip (p && not (is_empty s)) (q && not (is_empty t)) (compare_magnitudes s t)

compare_exact-flip : (x y : ℤ) (s : Sign) → compare_exact y x (flip s) ≡ flip (compare_exact x y s)
unfolding compare_exact flip
compare_exact-flip x y s = ground arith

by_orders :
    (a b : Decimal)
    → then_by (cmp_signed (order b) (order a)) (compare_strings b.digits a.digits)
      ≡ flip (then_by (cmp_signed (order a) (order b)) (compare_strings a.digits b.digits))
by_orders a b =
    (λ i.
      then_by (cmp_signed-flip (order a) (order b) i) (compare_strings-flip a.digits b.digits i))
    ∙ then_by-flip (cmp_signed (order a) (order b)) (compare_strings a.digits b.digits)

cmp_orders-flip : (g h : Huge) (a b : Decimal) → cmp_orders h g b a ≡ flip (cmp_orders g h a b)
unfolding cmp_orders
cmp_orders-flip stored stored a b =
    ap (compare_exact (b.exp +ℤ pos (length b.digits)) (a.exp +ℤ pos (length a.digits)))
      (compare_strings-flip a.digits b.digits)
    ∙ compare_exact-flip (a.exp +ℤ pos (length a.digits)) (b.exp +ℤ pos (length b.digits))
        (compare_strings a.digits b.digits)
cmp_orders-flip stored above a b = by_orders a b
cmp_orders-flip stored below a b = by_orders a b
cmp_orders-flip above stored a b = by_orders a b
cmp_orders-flip above above a b = by_orders a b
cmp_orders-flip above below a b = by_orders a b
cmp_orders-flip below stored a b = by_orders a b
cmp_orders-flip below above a b = by_orders a b
cmp_orders-flip below below a b = by_orders a b

signs-flip : (s t : Sign) → compare_signs t s ≡ flip (compare_signs s t)
unfolding compare_signs flip
signs-flip less less = refl
signs-flip less same = refl
signs-flip less more = refl
signs-flip same less = refl
signs-flip same same = refl
signs-flip same more = refl
signs-flip more less = refl
signs-flip more same = refl
signs-flip more more = refl

finite-flip :
    (s t m n : Sign)
    → n ≡ flip m
    → (if not (is_same (compare_signs t s))
        then compare_signs t s
        else if is_same t
        then same
        else times t n)
      ≡ flip (
          if not (is_same (compare_signs s t))
          then compare_signs s t
          else if is_same s
          then same
          else times s m)
unfolding compare_signs is_same times flip
finite-flip less less m n e = ap flip e
finite-flip less same m n e = refl
finite-flip less more m n e = refl
finite-flip same less m n e = refl
finite-flip same same m n e = refl
finite-flip same more m n e = refl
finite-flip more less m n e = refl
finite-flip more same m n e = refl
finite-flip more more m n e = e

cmp_finite-flip : (a b : Decimal) → cmp_finite b a ≡ flip (cmp_finite a b)
unfolding cmp_finite cmp_magnitude
cmp_finite-flip a b =
    finite-flip (sign a) (sign b) (cmp_magnitude a b) (cmp_magnitude b a)
      (cmp_orders-flip a.huge b.huge a b)

or_comm : (p q : Bool) → (q || p) ≡ (p || q)
or_comm true true = refl
or_comm true false = refl
or_comm false true = refl
or_comm false false = refl

answers :
    (p q : Bool) (s t : Sign)
    → (if p then none else if q then some (flip s) else some (flip t))
      ≡ flip_answer (if p then none else if q then some s else some t)
answers true q s t = refl
answers false true s t = refl
answers false false s t = refl

-- Exchanging the operands of cmp exchanges less and more, for every pair of decimals, NaN,
-- infinities and exponents beyond int64 included, and leaves unordered pairs unordered.
pub cmp-flip : (a b : Decimal) → cmp b a ≡ (elim (cmp a b) [ none ↦ none | some s ↦ some (flip s) ])
unfolding cmp
cmp-flip a b =
    (λ i.
      if or_comm a.nan b.nan i
      then none
      else if or_comm a.inf b.inf i
      then some (signs-flip (inf_rank a) (inf_rank b) i)
      else some (cmp_finite-flip a b i))
    ∙ answers (a.nan || b.nan) (a.inf || b.inf) (compare_signs (inf_rank a) (inf_rank b))
        (cmp_finite a b)
