-- ===== src/Num/Compare.antt =====
-- The comparison of decimals: cmp, cmpMagnitude, cmpSigned, order, equal and key of num.go.
use Prim.Native.Nat.{compare, Ordering}
use jsonschema.Prelude.{
  ℕ, Bool, true, false, not, ◌&&◌, ◌||◌, [], ◌∷◌, ◌++◌, Option, none, some, length, if◌then◌else◌,
}
use jsonschema.Prelude.Bytes.{Bytes, codes, itoa}
use jsonschema.Prelude.Int.{ℤ, pos, pos_part, neg_part, ltb_ℤ, eqb_ℤ, ◌+ℤ◌}
use jsonschema.Num.Decimal.{Huge, stored, above, below, Decimal, is_zero, is_empty, add_small}

-- The results -1, 0 and 1, and the change of sign.
pub data Sign : Type 0 where
  less same more : Sign

unfoldable pub flip : Sign → Sign
flip less = more
flip same = same
flip more = less

-- compareInts
unfoldable pub compare_ints : ℕ → ℕ → Sign
compare_ints a b = elim (compare a b) [
  | Ordering.lt ↦ less
  | Ordering.eq ↦ same
  | Ordering.gt ↦ more
]

-- strings.Compare
unfoldable pub compare_strings : Bytes → Bytes → Sign
unfolding compare_ints
compare_strings [] [] = same
compare_strings [] (d ∷ t) = less
compare_strings (c ∷ s) [] = more
compare_strings (c ∷ s) (d ∷ t) = elim (compare_ints c d) [
  | less ↦ less
  | same ↦ compare_strings s t
  | more ↦ more
]

-- The comparison of two magnitudes without leading zeros, in cmpSigned.
unfoldable pub compare_magnitudes : Bytes → Bytes → Sign
unfolding compare_ints compare_strings
compare_magnitudes a b = elim (compare_ints (length a) (length b)) [
  | less ↦ less
  | same ↦ compare_strings a b
  | more ↦ more
]

-- cmpSigned, past the check of empty magnitudes.
unfoldable pub cmp_signs : Bool → Bool → Sign → Sign
cmp_signs true true c = flip c
cmp_signs true false c = less
cmp_signs false true c = more
cmp_signs false false c = c

unfoldable pub cmp_signed : Bool × Bytes → Bool × Bytes → Sign
unfolding cmp_signs flip compare_magnitudes
cmp_signed (a_neg, a) (b_neg, b) =
    cmp_signs (a_neg && not (is_empty a)) (b_neg && not (is_empty b)) (compare_magnitudes a b)

-- FormatInt of the exponent in `order` prints zero as "0", where addSmall prints "".
format_order : ℤ → Bool × Bytes
format_order o = if ltb_ℤ o (pos 0) then (true, itoa (neg_part o)) else (false, itoa (pos_part o))

order_of : Huge → Decimal → Bool × Bytes
order_of stored d = format_order (d.exp +ℤ pos (length d.digits))
order_of above d = add_small false d.huge_exp (pos (length d.digits))
order_of below d = add_small true d.huge_exp (pos (length d.digits))

-- order
unfoldable pub order : Decimal → Bool × Bytes
unfolding order_of format_order add_small itoa ◌+ℤ◌
order d = order_of d.huge d

unfoldable pub compare_exact : ℤ → ℤ → Sign → Sign
compare_exact oa ob c = if eqb_ℤ oa ob then c else if ltb_ℤ oa ob then less else more

unfoldable pub cmp_orders : Huge → Huge → Decimal → Decimal → Sign
cmp_orders stored stored a b =
    compare_exact (a.exp +ℤ pos (length a.digits)) (b.exp +ℤ pos (length b.digits))
      (compare_strings a.digits b.digits)
cmp_orders _ _ a b = elim (cmp_signed (order a) (order b)) [
  | same ↦ compare_strings a.digits b.digits
  | less ↦ less
  | more ↦ more
]

-- cmpMagnitude
unfoldable pub cmp_magnitude : Decimal → Decimal → Sign
unfolding cmp_orders compare_exact compare_strings cmp_signed order ◌+ℤ◌
cmp_magnitude a b = cmp_orders a.huge b.huge a b

-- sign
unfoldable pub sign : Decimal → Sign
unfolding is_zero
sign d = if is_zero d then same else if d.neg then less else more

-- infRank
unfoldable pub inf_rank : Decimal → Sign
inf_rank d = if not d.inf then same else if d.neg then less else more

-- compareInts at two of -1, 0, 1.
unfoldable pub compare_signs : Sign → Sign → Sign
compare_signs less less = same
compare_signs less _ = less
compare_signs same less = more
compare_signs same same = same
compare_signs same more = less
compare_signs more more = same
compare_signs more _ = more

unfoldable pub is_same : Sign → Bool
is_same same = true
is_same _ = false

-- The product of a sign and a comparison.
unfoldable pub times : Sign → Sign → Sign
times less c = flip c
times same c = same
times more c = c

unfoldable pub cmp_finite : Decimal → Decimal → Sign
cmp_finite a b =
    if not (is_same (compare_signs (sign a) (sign b)))
    then compare_signs (sign a) (sign b)
    else if is_same (sign a)
    then same
    else times (sign a) (cmp_magnitude a b)

-- cmp: none where the values cannot be ordered. Two infinities of one sign have a rank that is not
-- zero and are equal; two ranks of zero are met by finite values alone.
unfoldable pub cmp : Decimal → Decimal → Option Sign
unfolding cmp_finite is_same times flip compare_signs sign inf_rank cmp_magnitude
cmp a b =
    if a.nan || b.nan
    then none
    else if a.inf || b.inf
    then some (compare_signs (inf_rank a) (inf_rank b))
    else some (cmp_finite a b)

-- equal
unfoldable pub equal : Decimal → Decimal → Bool
unfolding is_same cmp
equal a b = elim (cmp a b) [ none ↦ false | some c ↦ is_same c ]

format_int : ℤ → Bytes
format_int e = if ltb_ℤ e (pos 0) then b'-' ∷ itoa (neg_part e) else itoa (pos_part e)

key_exp : Huge → Decimal → Bytes
key_exp stored d = format_int d.exp
key_exp above d = codes "1h" ++ d.huge_exp
key_exp below d = codes "-1h" ++ d.huge_exp

-- key
unfoldable pub key : Decimal → Bytes
unfolding key_exp format_int is_zero itoa
key d =
    if d.inf
    then (if d.neg then codes "-inf" else codes "+inf")
    else if is_zero d
    then codes "0"
    else (if d.neg then b'-' ∷ [] else []) ++ (d.digits ++ b'e' ∷ key_exp d.huge d)
