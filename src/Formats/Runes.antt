-- ===== src/Formats/Runes.antt =====
-- The runes that decodePunycode (punycode.go) gives.
use jsonschema.Prelude.{
  ℕ, zero, suc, ◌+◌, ◌-◌, ◌*◌, ◌/◌, ◌%◌, Bool, true, false, ◌&&◌, ◌||◌, List, [], ◌∷◌, Option, none,
  some, ◌≡◌, refl, sym, ap, ◌∙◌, ltb, if◌then◌else◌, arith, length,
}
use mathlib.Core.Option.{some-injective}
use jsonschema.Prelude.Bytes.{Bytes, is_ascii}
use jsonschema.Prelude.Utf8.{encode_runes, runes}
use jsonschema.Formats.Encoding.{is_scalar, scalar_values, runes-encode_runes}
use jsonschema.Formats.Punycode.{
  Decoding, decoding, insert_at, bad_rune, end_number, digit_step, decode_loop, punycode_digit,
  split_basic, decoded, decode_punycode, punycode_threshold, max_int_32,
}

both : (a b : Bool) → a && b ≡ true → (a ≡ true) × (b ≡ true)
both a b h = (ground arith, ground arith)

good_rune : (r : ℕ) → bad_rune r ≡ false → is_scalar r ≡ true
unfolding bad_rune is_scalar
good_rune r h = ground arith

insert_at-scalar :
    (at r : ℕ) (rs : List ℕ)
    → is_scalar r ≡ true
    → scalar_values rs ≡ true
    → scalar_values (insert_at at r rs) ≡ true
unfolding insert_at scalar_values
insert_at-scalar zero r rs h k = λ i. h i && k i
insert_at-scalar (suc at) r [] h k = λ i. h i && true
insert_at-scalar (suc at) r (c ∷ rs) h k =
    let (here, there) = both (is_scalar c) (scalar_values rs) k in
    λ i. here i && insert_at-scalar at r rs h there i

-- A step that gives a state with scalar values only.
abbrev Scalar : Option Decoding → Type 0
Scalar o = (d : Decoding) → o ≡ some d → scalar_values d.out ≡ true

Scalar-if :
    (x y : Option Decoding) (b : Bool)
    → (b ≡ true → Scalar x)
    → (b ≡ false → Scalar y)
    → Scalar (if b then x else y)
Scalar-if x y true hx hy = hx refl
Scalar-if x y false hx hy = hy refl

Scalar-none : Scalar none
Scalar-none d e = absurd (ground arith)

Scalar-some : (d : Decoding) → scalar_values d.out ≡ true → Scalar (some d)
Scalar-some d h d' e = ap (λ x. scalar_values x.out) (sym (some-injective d d' e)) ∙ h

or_false : (a b : Bool) → a || b ≡ false → b ≡ false
or_false a b h = ground arith

end_number-Scalar : (d : Decoding) → scalar_values d.out ≡ true → Scalar (end_number d)
unfolding end_number
end_number-Scalar d h =
    Scalar-if none _ (large || bad_rune (d.n + d.i / count)) (λ _. Scalar-none)
      (λ fine. Scalar-some _ (
        insert_at-scalar (d.i % count) (d.n + d.i / count) d.out
          (good_rune (d.n + d.i / count) (or_false large (bad_rune (d.n + d.i / count)) fine)) h))
  where
    count : ℕ
    count = suc (length d.out)

    large : Bool
    large = ltb (max_int_32 - d.n) (d.i / count)

digit_step-Scalar :
    (digit : ℕ) (d : Decoding) → scalar_values d.out ≡ true → Scalar (digit_step digit d)
unfolding digit_step
digit_step-Scalar digit d h =
    Scalar-if none _ (ltb ((max_int_32 - d.i) / d.weight) digit) (λ _. Scalar-none)
      (λ _.
        Scalar-if (end_number (record d { i = d.i + digit * d.weight })) _
          (ltb digit (punycode_threshold d.k d.bias))
          (λ _. end_number-Scalar (record d { i = d.i + digit * d.weight }) h)
          (λ _.
            Scalar-if none _ (ltb (max_int_32 / (36 - punycode_threshold d.k d.bias)) d.weight)
              (λ _. Scalar-none) (λ _. Scalar-some _ h)))

decode_loop-scalar :
    (d : Decoding) (s : Bytes) (rs : List ℕ)
    → scalar_values d.out ≡ true
    → decode_loop d s ≡ some rs
    → scalar_values rs ≡ true
unfolding decode_loop
decode_loop-scalar d [] rs h got = at d.fresh got
  where
    at : (b : Bool) → (if b then some d.out else none) ≡ some rs → scalar_values rs ≡ true
    at true e = ap scalar_values (sym (some-injective d.out rs e)) ∙ h
    at false e = absurd (ground arith)
decode_loop-scalar d (c ∷ s) rs h got =
    at (punycode_digit c) (λ digit. digit_step digit d) (λ digit. digit_step-Scalar digit d h)
      (λ d' k. decode_loop-scalar d' s rs k) got
  where
    stepped :
        (o : Option Decoding)
        → Scalar o
        → ((d' : Decoding)
            → scalar_values d'.out ≡ true
            → decode_loop d' s ≡ some rs
            → scalar_values rs ≡ true)
        → elim o [ none ↦ none | some d' ↦ decode_loop d' s ] ≡ some rs
        → scalar_values rs ≡ true
    stepped none k rest e = absurd (ground arith)
    stepped (some d') k rest e = rest d' (k d' refl) e

    at :
        (o : Option ℕ) (f : ℕ → Option Decoding)
        → ((digit : ℕ) → Scalar (f digit))
        → ((d' : Decoding)
            → scalar_values d'.out ≡ true
            → decode_loop d' s ≡ some rs
            → scalar_values rs ≡ true)
        → elim o [
          | none ↦ none
          | some digit ↦ elim (f digit) [ none ↦ none | some d' ↦ decode_loop d' s ]
        ]
          ≡ some rs
        → scalar_values rs ≡ true
    at none f k rest e = absurd (ground arith)
    at (some digit) f k rest e = stepped (f digit) (k digit) rest e

ascii-scalar : (s : Bytes) → is_ascii s ≡ true → scalar_values s ≡ true
unfolding is_ascii scalar_values is_scalar
ascii-scalar [] h = refl
ascii-scalar (c ∷ s) h =
    let (here, there) = both (ltb c 0x80) (is_ascii s) h in
    λ i. low c here i && ascii-scalar s there i
  where
    low : (c : ℕ) → ltb c 0x80 ≡ true → is_scalar c ≡ true
    low c h = ground arith

-- The text that decodePunycode gives holds the runes that its loop has collected, one for one: all
-- of them are Unicode scalar values, below the surrogates or between them and the last rune, and
-- none is replaced on the way into the text.
pub decode_punycode-scalar_values :
    (s u : Bytes)
    → decode_punycode s ≡ some u
    → (decode_loop (decoding (split_basic s).0) (split_basic s).1 ≡ some (runes u))
      × (scalar_values (runes u) ≡ true)
unfolding decode_punycode decoded decoding
decode_punycode-scalar_values s u got = guarded (is_ascii (split_basic s).0) refl got
  where
    loop : Option (List ℕ)
    loop = decode_loop (decoding (split_basic s).0) (split_basic s).1

    named :
        (o : Option (List ℕ))
        → ((rs : List ℕ) → o ≡ some rs → scalar_values rs ≡ true)
        → decoded o ≡ some u
        → (o ≡ some (runes u)) × (scalar_values (runes u) ≡ true)
    named none h e = absurd (ground arith)
    named (some rs) h e =
        let same : rs ≡ runes u =
          sym (runes-encode_runes rs (h rs refl))
          ∙ ap runes (some-injective (encode_runes rs) u e) in
        (ap some same, ap scalar_values (sym same) ∙ h rs refl)

    guarded :
        (b : Bool)
        → is_ascii (split_basic s).0 ≡ b
        → (if b then decoded loop else none) ≡ some u
        → (loop ≡ some (runes u)) × (scalar_values (runes u) ≡ true)
    guarded true h e =
        named loop
          (λ rs.
            decode_loop-scalar (decoding (split_basic s).0) (split_basic s).1 rs
              (ascii-scalar (split_basic s).0 h))
          e
    guarded false h e = absurd (ground arith)
