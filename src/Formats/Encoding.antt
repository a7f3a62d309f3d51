-- ===== src/Formats/Encoding.antt =====
-- UTF-8 as string(runes) writes it and a range over a string reads it.
use jsonschema.Prelude.{
  ℕ, ◌+◌, ◌-◌, ◌*◌, ◌/◌, ◌%◌, ◌<◌, ◌≤◌, ◌≡◌, refl, ap, ◌∙◌, Bool, true, false, ◌&&◌, ◌||◌, List, [],
  ◌∷◌, ◌++◌, arith, ltb, leb, if_cases, ltb→lt, ltb→le,
}
use jsonschema.Prelude.Bytes.{Bytes}
use jsonschema.Prelude.Utf8.{
  rune_width, rune_width_ascii, second_ok, within, decode_rune, runes_from, runes, encode_rune,
  encode_runes,
}

-- A Unicode scalar value: below the surrogates, or behind them up to the last rune.
unfoldable pub is_scalar : ℕ → Bool
is_scalar r = ltb r 0xD800 || (leb 0xE000 r && leb r 0x10FFFF)

unfoldable pub scalar_values : List ℕ → Bool
unfolding is_scalar
scalar_values [] = true
scalar_values (r ∷ rs) = is_scalar r && scalar_values rs

width_two :
    (a b : ℕ) (t : Bytes)
    → within 0xC2 0xDF a ≡ true
    → within 0x80 0xBF b ≡ true
    → rune_width (a ∷ b ∷ t) ≡ 2
unfolding rune_width
width_two a b [] h k = ground arith
width_two a b (c ∷ []) h k = ground arith
width_two a b (c ∷ d ∷ t) h k = ground arith

width_three :
    (a b c : ℕ) (t : Bytes)
    → within 0xE0 0xEF a ≡ true
    → second_ok a b ≡ true
    → within 0x80 0xBF c ≡ true
    → rune_width (a ∷ b ∷ c ∷ t) ≡ 3
unfolding rune_width
width_three a b c [] h k l = ground arith
width_three a b c (d ∷ t) h k l = ground arith

width_four :
    (a b c d : ℕ) (t : Bytes)
    → within 0xF0 0xF4 a ≡ true
    → second_ok a b ≡ true
    → within 0x80 0xBF c ≡ true
    → within 0x80 0xBF d ≡ true
    → rune_width (a ∷ b ∷ c ∷ d ∷ t) ≡ 4
unfolding rune_width
width_four a b c d t h k l m = ground arith

decode_one : (a : ℕ) (t : Bytes) → ltb a 0x80 ≡ true → decode_rune (a ∷ t) ≡ a
unfolding decode_rune
decode_one a [] h = ground arith
decode_one a (b ∷ []) h = ground arith
decode_one a (b ∷ c ∷ []) h = ground arith
decode_one a (b ∷ c ∷ d ∷ t) h = ground arith

decode_two :
    (a b : ℕ) (t : Bytes)
    → ltb a 0x80 ≡ false
    → rune_width (a ∷ b ∷ t) ≡ 2
    → decode_rune (a ∷ b ∷ t) ≡ (a - 0xC0) * 0x40 + (b - 0x80)
unfolding decode_rune
decode_two a b [] h k = ground arith
decode_two a b (c ∷ []) h k = ground arith
decode_two a b (c ∷ d ∷ t) h k = ground arith

decode_three :
    (a b c : ℕ) (t : Bytes)
    → ltb a 0x80 ≡ false
    → rune_width (a ∷ b ∷ c ∷ t) ≡ 3
    → decode_rune (a ∷ b ∷ c ∷ t) ≡ (a - 0xE0) * 0x1000 + (b - 0x80) * 0x40 + (c - 0x80)
unfolding decode_rune
decode_three a b c [] h k = ground arith
decode_three a b c (d ∷ t) h k = ground arith

decode_four :
    (a b c d : ℕ) (t : Bytes)
    → ltb a 0x80 ≡ false
    → rune_width (a ∷ b ∷ c ∷ d ∷ t) ≡ 4
    → decode_rune (a ∷ b ∷ c ∷ d ∷ t)
      ≡ (a - 0xF0) * 0x40000 + (b - 0x80) * 0x1000 + (c - 0x80) * 0x40 + (d - 0x80)
unfolding decode_rune
decode_four a b c d t h k = ground arith

second_three :
    (r : ℕ)
    → 0x800 ≤ r
    → r < 0x10000
    → is_scalar r ≡ true
    → second_ok (0xE0 + r / 0x1000) (0x80 + r / 0x40 % 0x40) ≡ true
unfolding second_ok is_scalar
second_three r lo hi ok = ground arith

second_four :
    (r : ℕ)
    → 0x10000 ≤ r
    → r ≤ 0x10FFFF
    → second_ok (0xF0 + r / 0x40000) (0x80 + r / 0x1000 % 0x40) ≡ true
unfolding second_ok
second_four r lo hi = ground arith

-- One rune that a range reads as it was written.
record Reads (r : ℕ) (s : Bytes) : Type 0 where
  pub one_rune : (t : Bytes) → runes (s ++ t) ≡ r ∷ runes t

front_rune :
    (c w r : ℕ) (s : Bytes)
    → rune_width (c ∷ s) ≡ w
    → decode_rune (c ∷ s) ≡ r
    → runes (c ∷ s) ≡ r ∷ runes_from (Prim.Native.Nat.pred w) s
unfolding runes runes_from
front_rune c w r s width value = λ i. value i ∷ runes_from (Prim.Native.Nat.pred (width i)) s

one-Reads : (r : ℕ) → ltb r 0x80 ≡ true → Reads r (r ∷ [])
unfolding runes
one-Reads r h = record {
  one_rune = λ t. front_rune r 1 r t (rune_width_ascii r t h) (decode_one r t h);
}

two-Reads : (r : ℕ) → 0x80 ≤ r → r < 0x800 → Reads r ((0xC0 + r / 0x40) ∷ (0x80 + r % 0x40) ∷ [])
unfolding runes runes_from
two-Reads r lo hi =
    let a = 0xC0 + r / 0x40 in
    let b = 0x80 + r % 0x40 in
    record {
      one_rune = λ t.
          let width = width_two a b t (ground arith) (ground arith) in
          front_rune a 2 r (b ∷ t) width (decode_two a b t (ground arith) width ∙ omega arith);
    }

three-Reads :
    (r : ℕ)
    → 0x800 ≤ r
    → r < 0x10000
    → is_scalar r ≡ true
    → Reads r ((0xE0 + r / 0x1000) ∷ (0x80 + r / 0x40 % 0x40) ∷ (0x80 + r % 0x40) ∷ [])
unfolding runes runes_from
three-Reads r lo hi ok =
    let a = 0xE0 + r / 0x1000 in
    let b = 0x80 + r / 0x40 % 0x40 in
    let c = 0x80 + r % 0x40 in
    record {
      one_rune = λ t.
          let width = width_three a b c t (ground arith) (second_three r lo hi ok) (ground arith) in
          front_rune a 3 r (b ∷ c ∷ t) width
            (decode_three a b c t (ground arith) width ∙ omega arith);
    }

four-Reads :
    (r : ℕ)
    → 0x10000 ≤ r
    → r ≤ 0x10FFFF
    → Reads r (
        (0xF0 + r / 0x40000)
        ∷ (0x80 + r / 0x1000 % 0x40)
        ∷ (0x80 + r / 0x40 % 0x40)
        ∷ (0x80 + r % 0x40)
        ∷ [])
unfolding runes runes_from
four-Reads r lo hi =
    let a = 0xF0 + r / 0x40000 in
    let b = 0x80 + r / 0x1000 % 0x40 in
    let c = 0x80 + r / 0x40 % 0x40 in
    let d = 0x80 + r % 0x40 in
    record {
      one_rune = λ t.
          let width =
            width_four a b c d t (ground arith) (second_four r lo hi) (ground arith)
              (ground arith) in
          front_rune a 4 r (b ∷ c ∷ d ∷ t) width
            (decode_four a b c d t (ground arith) width ∙ omega arith);
    }

or_right : (a b : Bool) → a || b ≡ false → b ≡ false
or_right a b h = ground arith

encode_rune-Reads : (r : ℕ) → is_scalar r ≡ true → Reads r (encode_rune r)
unfolding encode_rune is_scalar
encode_rune-Reads r ok =
    if_cases (Reads r) (ltb r 0x80) (λ ascii. one-Reads r ascii)
      (λ wide.
        if_cases (Reads r) (ltb r 0x800)
          (λ two. two-Reads r (ltb→le r 0x80 wide) (ltb→lt r 0x800 two))
          (λ wider.
            if_cases (Reads r) (within 0xD800 0xDFFF r || ltb 0x10FFFF r)
              (λ bad. absurd (ground arith))
              (λ fine.
                if_cases (Reads r) (ltb r 0x10000)
                  (λ three. three-Reads r (ltb→le r 0x800 wider) (ltb→lt r 0x10000 three) ok)
                  (λ widest.
                    four-Reads r (ltb→le r 0x10000 widest)
                      (ltb→le 0x10FFFF r (or_right _ _ fine))))))

no_runes : runes [] ≡ []
unfolding runes runes_from
no_runes = refl

-- A range reads the scalar values that string(runes) writes.
pub runes-encode_runes : (rs : List ℕ) → scalar_values rs ≡ true → runes (encode_runes rs) ≡ rs
unfolding encode_runes scalar_values
runes-encode_runes [] h = no_runes
runes-encode_runes (r ∷ rs) h =
    (encode_rune-Reads r (ground arith)).one_rune (encode_runes rs)
    ∙ ap (λ x. r ∷ x) (runes-encode_runes rs (ground arith))
