-- ===== src/Prelude/Bytes.antt =====
-- Go strings as lists of bytes, with the routines of package strings that the source calls, and
-- strconv.Itoa. Every byte is a number below 256.
use Prim.Native.Nat.{ℕ, zero, suc, ◌+◌, ◌/◌, ◌%◌}
use Prim.Native.Char.{code}
use Prim.Native.String.{String}
use mathlib.Core.Path.{◌≡◌}
use mathlib.Core.Logic.{◌↔◌}
use mathlib.Core.Bool.{Bool, true, false, ◌&&◌, ◌||◌}
use mathlib.Core.Option.{Option, none, some}
use mathlib.Core.List.{List, [], ◌∷◌, ◌++◌}
use native.Mathlib.Omega.{arith}
use jsonschema.Prelude.Tests.{ltb, ◌==◌, if◌then◌else◌}

abbrev pub Bytes : Type 0
Bytes = List ℕ

-- The code points of a literal: its bytes, if it is ASCII.
abbrev pub codes : String → Bytes
codes String.[] = []
codes (String.◌∷◌ c s) = code c ∷ codes s

-- `==` on strings.
unfoldable pub str_eq : Bytes → Bytes → Bool
str_eq [] [] = true
str_eq (x ∷ xs) (y ∷ ys) = x == y && str_eq xs ys
str_eq _ _ = false

pub str_eq_iff : (a b : Bytes) → (str_eq a b ≡ true) ↔ (a ≡ b)
unfolding str_eq
str_eq_iff (x ∷ a) (y ∷ b) = ground (arith, str_eq_iff a b)
str_eq_iff _ _ = ground arith

-- `<` on strings.
unfoldable pub str_lt : Bytes → Bytes → Bool
str_lt [] [] = false
str_lt [] (y ∷ ys) = true
str_lt (x ∷ xs) [] = false
str_lt (x ∷ xs) (y ∷ ys) = ltb x y || (x == y && str_lt xs ys)

-- strings.CutPrefix: what follows the prefix, if it is one.
unfoldable pub cut_prefix : Bytes → Bytes → Option Bytes
cut_prefix s [] = some s
cut_prefix [] (p ∷ ps) = none
cut_prefix (c ∷ s) (p ∷ ps) = if c == p then cut_prefix s ps else none

pub cut_prefix-eq : (s p rest : Bytes) → cut_prefix s p ≡ some rest → s ≡ p ++ rest
unfolding cut_prefix
cut_prefix-eq s [] rest h = ground arith
cut_prefix-eq [] (p ∷ ps) rest h = ground arith
cut_prefix-eq (c ∷ s) (p ∷ ps) rest h = ground (arith, cut_prefix-eq s ps rest)

-- strings.IndexByte(set, c) >= 0
unfoldable pub contains_byte : Bytes → ℕ → Bool
contains_byte [] c = false
contains_byte (x ∷ xs) c = x == c || contains_byte xs c

-- strings.ContainsAny(s, set), for an ASCII set.
unfoldable pub contains_any : Bytes → Bytes → Bool
unfolding contains_byte
contains_any [] set = false
contains_any (c ∷ s) set = contains_byte set c || contains_any s set

-- A key of a Go map among a list of keys.
unfoldable pub has_key : List Bytes → Bytes → Bool
unfolding str_eq
has_key [] k = false
has_key (j ∷ js) k = str_eq j k || has_key js k

-- The value of a Go map at a key.
unfoldable pub lookup {ℓ} : {V : Type ℓ} → List (Bytes × V) → Bytes → Option V
unfolding str_eq
lookup [] k = none
lookup ((j, v) ∷ m) k = if str_eq j k then some v else lookup m k

-- sort.Strings
insert_sorted : Bytes → List Bytes → List Bytes
insert_sorted k [] = k ∷ []
insert_sorted k (j ∷ js) = if str_lt j k then j ∷ insert_sorted k js else k ∷ j ∷ js

unfoldable pub sort_strings : List Bytes → List Bytes
unfolding insert_sorted str_lt
sort_strings [] = []
sort_strings (k ∷ ks) = insert_sorted k (sort_strings ks)

-- The decimal digits of a number. A number has fewer digits than its value plus one.
unfoldable pub itoa_fuel : ℕ → ℕ → Bytes
itoa_fuel zero n = []
itoa_fuel (suc f) n =
    let front = itoa_fuel f (n / 10) in
    if ltb n 10 then (b'0' + n) ∷ [] else front ++ (b'0' + n % 10) ∷ []

-- strconv.Itoa of a non-negative number.
unfoldable pub itoa : ℕ → Bytes
unfolding itoa_fuel
itoa n = itoa_fuel (suc n) n

-- strings.Join
unfoldable pub join : List Bytes → Bytes → Bytes
join [] sep = []
join (s ∷ []) sep = s
join (s ∷ t ∷ rest) sep = s ++ (sep ++ join (t ∷ rest) sep)

-- strings.IndexByte: the bytes in front of the first `c`, and those behind it.
unfoldable pub cut_at : ℕ → Bytes → Option (Bytes × Bytes)
cut_at c [] = none
cut_at c (d ∷ s) =
    let later : Option (Bytes × Bytes) = elim (cut_at c s) [
      | none ↦ none
      | some (front, back) ↦ some (d ∷ front, back)
    ] in
    if d == c then some ([], s) else later

-- Puts a byte in front of the first piece.
unfoldable pub onto_first : ℕ → List Bytes → List Bytes
onto_first c [] = (c ∷ []) ∷ []
onto_first c (p ∷ ps) = (c ∷ p) ∷ ps

-- strings.Split by one byte.
unfoldable pub split_on : ℕ → Bytes → List Bytes
unfolding onto_first
split_on sep [] = [] ∷ []
split_on sep (c ∷ s) =
    let rest = split_on sep s in if c == sep then [] ∷ rest else onto_first c rest

-- The last byte, and the bytes in front of it.
unfoldable pub last_byte : Bytes → Option ℕ
last_byte [] = none
last_byte (c ∷ []) = some c
last_byte (c ∷ d ∷ s) = last_byte (d ∷ s)

unfoldable pub drop_last : Bytes → Bytes
drop_last [] = []
drop_last (c ∷ []) = []
drop_last (c ∷ d ∷ s) = c ∷ drop_last (d ∷ s)

-- strings.HasSuffix by one byte.
unfoldable pub ends_with : ℕ → Bytes → Bool
unfolding last_byte
ends_with c s = elim (last_byte s) [ none ↦ false | some d ↦ d == c ]

-- strings.HasPrefix
unfoldable pub has_prefix : Bytes → Bytes → Bool
has_prefix s [] = true
has_prefix [] (p ∷ ps) = false
has_prefix (c ∷ s) (p ∷ ps) = c == p && has_prefix s ps

-- strings.ToLower on ASCII letters.
unfoldable pub lower_byte : ℕ → ℕ
lower_byte c = if ltb 0x40 c && ltb c 0x5B then c + 32 else c

-- isASCII: every byte is below 0x80.
unfoldable pub is_ascii : Bytes → Bool
is_ascii [] = true
is_ascii (c ∷ s) = ltb c 0x80 && is_ascii s
