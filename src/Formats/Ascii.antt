-- ===== src/Formats/Ascii.antt =====
-- ASCII texts in the formats of formats.go: their runes are their bytes.
use jsonschema.Prelude.{
  ℕ, Bool, true, ◌&&◌, List, [], ◌∷◌, ◌++◌, ◌≡◌, refl, ap, ◌∙◌, ◌==◌, ltb, arith, if_cases, suc,
  ◌+◌, length,
}
use Prim.Native.Nat.{pred}
use jsonschema.Prelude.Bytes.{Bytes, is_ascii, onto_first, split_on}
use jsonschema.Prelude.Utf8.{
  decode_rune, encode_rune, encode_runes, rune_width_ascii, runes, runes_from,
}

decode_rune_ascii : (c : ℕ) (s : Bytes) → ltb c 0x80 ≡ true → decode_rune (c ∷ s) ≡ c
unfolding decode_rune
decode_rune_ascii a [] h = ground arith
decode_rune_ascii a (b ∷ []) h = ground arith
decode_rune_ascii a (b ∷ c ∷ []) h = ground arith
decode_rune_ascii a (b ∷ c ∷ d ∷ s) h = ground arith

runes_from_ascii : (s : Bytes) → is_ascii s ≡ true → runes_from 0 s ≡ s
unfolding runes_from is_ascii
runes_from_ascii [] h = refl
runes_from_ascii (c ∷ s) h =
    (λ i.
      decode_rune_ascii c s (ground arith) i
      ∷ runes_from (pred (rune_width_ascii c s (ground arith) i)) s)
    ∙ ap (λ x. c ∷ x) (runes_from_ascii s (ground arith))

pub runes_ascii : (s : Bytes) → is_ascii s ≡ true → runes s ≡ s
unfolding runes
runes_ascii s h = runes_from_ascii s h

encode_rune_ascii : (c : ℕ) → ltb c 0x80 ≡ true → encode_rune c ≡ c ∷ []
unfolding encode_rune
encode_rune_ascii c h = ground arith

pub encode_runes_ascii : (s : Bytes) → is_ascii s ≡ true → encode_runes s ≡ s
unfolding encode_runes is_ascii
encode_runes_ascii [] h = refl
encode_runes_ascii (c ∷ s) h =
    λ i. encode_rune_ascii c (ground arith) i ++ encode_runes_ascii s (ground arith) i

-- A test that holds of each of some texts.
unfoldable pub every : (Bytes → Bool) → List Bytes → Bool
every f [] = true
every f (s ∷ ss) = f s && every f ss

every-onto_first :
    (c : ℕ) (ps : List Bytes)
    → ltb c 0x80 ≡ true
    → every is_ascii ps ≡ true
    → every is_ascii (onto_first c ps) ≡ true
unfolding every onto_first is_ascii
every-onto_first c [] h e = ground arith
every-onto_first c (p ∷ ps) h e = ground arith

-- The pieces of an ASCII text are ASCII texts.
pub split_on_ascii :
    (sep : ℕ) (s : Bytes) → is_ascii s ≡ true → every is_ascii (split_on sep s) ≡ true
unfolding split_on every is_ascii
split_on_ascii sep [] h = refl
split_on_ascii sep (c ∷ s) h =
    if_cases (λ (x : List Bytes). every is_ascii x ≡ true) (c == sep)
      (λ _. split_on_ascii sep s (ground arith))
      (λ _.
        every-onto_first c (split_on sep s) (ground arith) (split_on_ascii sep s (ground arith)))

-- The lengths of some texts, with one more for each.
unfoldable pub spread : List Bytes → ℕ
spread [] = 0
spread (s ∷ ss) = 1 + length s + spread ss

spread-onto_first :
    (c : ℕ) (n : ℕ) (ps : List Bytes) → spread ps ≡ suc n → spread (onto_first c ps) ≡ suc (suc n)
unfolding spread onto_first
spread-onto_first c n [] e = absurd (omega arith)
spread-onto_first c n (p ∷ ps) e = omega arith

pub spread-split_on : (sep : ℕ) (s : Bytes) → spread (split_on sep s) ≡ suc (length s)
unfolding split_on spread
spread-split_on sep [] = omega arith
spread-split_on sep (c ∷ s) =
    if_cases (λ (x : List Bytes). spread x ≡ suc (suc (length s))) (c == sep)
      (λ _. omega (arith, spread-split_on sep s))
      (λ _. spread-onto_first c (length s) (split_on sep s) (spread-split_on sep s))
