-- ===== src/Prelude/Utf8.antt =====
-- How Go decodes UTF-8 when it ranges over a string: `rune_width` is the number of bytes that the
-- rune at the front takes, one for a byte that starts no valid encoding.
use Prim.Native.Nat.{ℕ, zero, suc, ◌+◌, ◌-◌, ◌*◌, ◌/◌, ◌%◌, ◌≤◌}
use mathlib.Core.Bool.{Bool, true, ◌&&◌, ◌||◌}
use mathlib.Core.List.{List, [], ◌∷◌, ◌++◌}
use mathlib.Core.Path.{◌≡◌, refl}
use native.Mathlib.Omega.{arith}
use jsonschema.Prelude.Tests.{leb, ltb, ◌==◌, if◌then◌else◌}
use jsonschema.Prelude.Bytes.{Bytes}

abbrev pub within : ℕ → ℕ → ℕ → Bool
within lo hi c = leb lo c && leb c hi

-- The range of a second byte after a first byte.
unfoldable pub second_ok : ℕ → ℕ → Bool
second_ok a b =
    if a == 0xE0
    then within 0xA0 0xBF b
    else if a == 0xED
    then within 0x80 0x9F b
    else if a == 0xF0
    then within 0x90 0xBF b
    else if a == 0xF4
    then within 0x80 0x8F b
    else within 0x80 0xBF b

unfoldable pub rune_width : Bytes → ℕ
unfolding second_ok
rune_width [] = 0
rune_width (a ∷ []) = 1
rune_width (a ∷ b ∷ []) = if within 0xC2 0xDF a && within 0x80 0xBF b then 2 else 1
rune_width (a ∷ b ∷ c ∷ []) =
    if within 0xC2 0xDF a && within 0x80 0xBF b
    then 2
    else if within 0xE0 0xEF a && (second_ok a b && within 0x80 0xBF c)
    then 3
    else 1
rune_width (a ∷ b ∷ c ∷ d ∷ s) =
    if within 0xC2 0xDF a && within 0x80 0xBF b
    then 2
    else if within 0xE0 0xEF a && (second_ok a b && within 0x80 0xBF c)
    then 3
    else if within 0xF0 0xF4 a && (second_ok a b && (within 0x80 0xBF c && within 0x80 0xBF d))
    then 4
    else 1

-- An ASCII byte is a rune of its own.
pub rune_width_ascii : (c : ℕ) (s : Bytes) → ltb c 0x80 ≡ true → rune_width (c ∷ s) ≡ 1
unfolding rune_width
rune_width_ascii a [] h = refl
rune_width_ascii a (b ∷ []) h = ground arith
rune_width_ascii a (b ∷ c ∷ []) h = ground arith
rune_width_ascii a (b ∷ c ∷ d ∷ s) h = ground arith

-- utf8.RuneCountInString: the first argument is the number of bytes that the rune read last still
-- takes.
count_runes : ℕ → Bytes → ℕ
count_runes k [] = 0
count_runes zero (c ∷ s) = suc (count_runes (Prim.Native.Nat.pred (rune_width (c ∷ s))) s)
count_runes (suc k) (c ∷ s) = count_runes k s

unfoldable pub rune_count : Bytes → ℕ
unfolding count_runes rune_width
rune_count = count_runes 0

-- The rune at the front: U+FFFD for a byte that starts no valid encoding.
unfoldable pub decode_rune : Bytes → ℕ
unfolding rune_width
decode_rune [] = 0xFFFD
decode_rune (a ∷ []) = if ltb a 0x80 then a else 0xFFFD
decode_rune (a ∷ b ∷ []) =
    if ltb a 0x80
    then a
    else if rune_width (a ∷ b ∷ []) == 2
    then (a - 0xC0) * 0x40 + (b - 0x80)
    else 0xFFFD
decode_rune (a ∷ b ∷ c ∷ []) =
    if ltb a 0x80
    then a
    else if rune_width (a ∷ b ∷ c ∷ []) == 2
    then (a - 0xC0) * 0x40 + (b - 0x80)
    else if rune_width (a ∷ b ∷ c ∷ []) == 3
    then (a - 0xE0) * 0x1000 + (b - 0x80) * 0x40 + (c - 0x80)
    else 0xFFFD
decode_rune (a ∷ b ∷ c ∷ d ∷ s) =
    if ltb a 0x80
    then a
    else if rune_width (a ∷ b ∷ c ∷ d ∷ s) == 2
    then (a - 0xC0) * 0x40 + (b - 0x80)
    else if rune_width (a ∷ b ∷ c ∷ d ∷ s) == 3
    then (a - 0xE0) * 0x1000 + (b - 0x80) * 0x40 + (c - 0x80)
    else if rune_width (a ∷ b ∷ c ∷ d ∷ s) == 4
    then (a - 0xF0) * 0x40000 + (b - 0x80) * 0x1000 + (c - 0x80) * 0x40 + (d - 0x80)
    else 0xFFFD

-- The pairs that `for i, c := range s` visits, from index `i`; the first argument is the number of
-- bytes that the rune read last still takes.
unfoldable pub range_from : ℕ → ℕ → Bytes → List (ℕ × ℕ)
unfolding rune_width decode_rune
range_from k i [] = []
range_from zero i (c ∷ s) =
    (i, decode_rune (c ∷ s)) ∷ range_from (Prim.Native.Nat.pred (rune_width (c ∷ s))) (suc i) s
range_from (suc k) i (c ∷ s) = range_from k (suc i) s

unfoldable pub range : Bytes → List (ℕ × ℕ)
unfolding range_from
range s = range_from 0 0 s

unfoldable pub runes_from : ℕ → Bytes → List ℕ
unfolding rune_width decode_rune
runes_from k [] = []
runes_from zero (c ∷ s) =
    decode_rune (c ∷ s) ∷ runes_from (Prim.Native.Nat.pred (rune_width (c ∷ s))) s
runes_from (suc k) (c ∷ s) = runes_from k s

-- []rune(s)
unfoldable pub runes : Bytes → List ℕ
unfolding runes_from
runes s = runes_from 0 s

-- utf8.AppendRune: U+FFFD for a surrogate or a number beyond the last rune.
unfoldable pub encode_rune : ℕ → Bytes
encode_rune r =
    if ltb r 0x80
    then r ∷ []
    else if ltb r 0x800
    then (0xC0 + r / 0x40) ∷ (0x80 + r % 0x40) ∷ []
    else if within 0xD800 0xDFFF r || ltb 0x10FFFF r
    then 0xEF ∷ 0xBF ∷ 0xBD ∷ []
    else if ltb r 0x10000
    then (0xE0 + r / 0x1000) ∷ (0x80 + r / 0x40 % 0x40) ∷ (0x80 + r % 0x40) ∷ []
    else (0xF0 + r / 0x40000)
      ∷ (0x80 + r / 0x1000 % 0x40)
      ∷ (0x80 + r / 0x40 % 0x40)
      ∷ (0x80 + r % 0x40)
      ∷ []

-- string(runes)
unfoldable pub encode_runes : List ℕ → Bytes
unfolding encode_rune
encode_runes [] = []
encode_runes (r ∷ rs) = encode_rune r ++ encode_runes rs
