-- ===== src/Decode/Shorter.antt =====
-- The scanners of fastjson.go leave no more bytes than they were given, and the fuel of the string
-- scanner suffices.
use jsonschema.Prelude.{
  ℕ, zero, suc, ◌+◌, ◌-◌, ◌*◌, ◌≤◌, ◌<◌, Bool, true, false, ◌&&◌, ◌||◌, [], ◌∷◌, ◌++◌, Option, none,
  some, ◌≡◌, refl, ◌==◌, ltb, leb, if◌then◌else◌, length, take, drop, length-drop, arith,
}
use jsonschema.Prelude.Bytes.{Bytes, cut_prefix}
use jsonschema.Prelude.Utf8.{encode_rune, rune_width}
use jsonschema.Prelude.Atoi.{is_ascii_digit}
use jsonschema.Decode.Scan.{
  Scanned, done, refused, skip_space, skip_digits, some_digits, skip_minus, integer_part,
  fraction_part, skip_sign, exponent_part, behind, number_text, scan_number, hex_value, hex_digits,
  hex4, low_surrogate, unicode_escape, append_escape, prepend, scan_string, str,
}

-- At most `n` bytes are left, where there is a result.
pub data Less (n : ℕ) : Option Bytes → Type 0 where
  no_rest : Less n none
  rest_of : (s : Bytes) → length s ≤ n → Less n (some s)

data Short {X : Type 0} (n : ℕ) : Option (X × Bytes) → Type 0 where
  nothing : Short n none
  result : (x : X) (s : Bytes) → length s ≤ n → Short n (some (x, s))

-- The same of a scan, which did not lack fuel.
pub data Ends (n : ℕ) : Scanned (Bytes × Bytes) → Type 0 where
  refuses : Ends n refused
  scanned : (t s : Bytes) → length s ≤ n → Ends n (done (t, s))

pub length-skip_space : (s : Bytes) → length (skip_space s) ≤ length s
unfolding skip_space
length-skip_space [] = omega arith
length-skip_space (c ∷ s) = ground (arith, length-skip_space s)

length-skip_digits : (s : Bytes) → length (skip_digits s) ≤ length s
unfolding skip_digits
length-skip_digits [] = omega arith
length-skip_digits (c ∷ s) = ground (arith, length-skip_digits s)

Less-if :
    {n : ℕ} {x y : Option Bytes} (b : Bool) → Less n x → Less n y → Less n (if b then x else y)
Less-if true hx hy = hx
Less-if false hx hy = hy

Less-more : {n m : ℕ} {o : Option Bytes} → n ≤ m → Less n o → Less m o
Less-more h no_rest = no_rest
Less-more h (rest_of s k) = rest_of s (omega arith)

some_digits-Less : (s : Bytes) → Less (length s) (some_digits s)
unfolding some_digits
some_digits-Less [] = no_rest
some_digits-Less (c ∷ s) =
    Less-if (is_ascii_digit c) (rest_of (skip_digits s) (omega (arith, length-skip_digits s)))
      no_rest

integer_part-Less : (s : Bytes) → Less (length s) (integer_part s)
unfolding integer_part
integer_part-Less [] = no_rest
integer_part-Less (c ∷ s) = Less-if (c == b'0') (rest_of s (omega arith)) (
    Less-if (is_ascii_digit c) (rest_of (skip_digits s) (omega (arith, length-skip_digits s)))
      no_rest)

fraction_part-Less : (s : Bytes) → Less (length s) (fraction_part s)
unfolding fraction_part
fraction_part-Less [] = rest_of [] (omega arith)
fraction_part-Less (c ∷ s) =
    Less-if (c == b'.') (Less-more (omega arith) (some_digits-Less s))
      (rest_of (c ∷ s) (omega arith))

length-skip_sign : (s : Bytes) → length (skip_sign s) ≤ length s
unfolding skip_sign
length-skip_sign [] = omega arith
length-skip_sign (c ∷ s) = ground arith

length-skip_minus : (s : Bytes) → length (skip_minus s) ≤ length s
unfolding skip_minus
length-skip_minus [] = omega arith
length-skip_minus (c ∷ s) = ground arith

exponent_part-Less : (s : Bytes) → Less (length s) (exponent_part s)
unfolding exponent_part
exponent_part-Less [] = rest_of [] (omega arith)
exponent_part-Less (c ∷ s) =
    Less-if (c == b'e' || c == b'E')
      (Less-more (omega (arith, length-skip_sign s)) (some_digits-Less (skip_sign s)))
      (rest_of (c ∷ s) (omega arith))

behind-Less :
    {n : ℕ} {o : Option Bytes} (f : Bytes → Option Bytes)
    → ((s : Bytes) → Less (length s) (f s))
    → Less n o
    → Less n (behind o f)
unfolding behind
behind-Less f h no_rest = no_rest
behind-Less f h (rest_of s k) = Less-more k (h s)

pub scan_number-Ends : (s : Bytes) → Ends (length s) (scan_number s)
unfolding scan_number
scan_number-Ends s = at (
    behind-Less exponent_part exponent_part-Less (
      behind-Less fraction_part fraction_part-Less
        (Less-more (length-skip_minus s) (integer_part-Less (skip_minus s)))))
  where
    at : {o : Option Bytes} → Less (length s) o → Ends (length s) (number_text s o)
    at no_rest = refuses
    at (rest_of t k) = scanned (take (length s - length t) s) t k

pub cut_prefix-Less : (s p : Bytes) → Less (length s) (cut_prefix s p)
unfolding cut_prefix
cut_prefix-Less s [] = rest_of s (omega arith)
cut_prefix-Less [] (c ∷ p) = no_rest
cut_prefix-Less (d ∷ s) (c ∷ p) =
    Less-if (d == c) (Less-more (omega arith) (cut_prefix-Less s p)) no_rest

Short-if :
    {X : Type 0} {n : ℕ} {x y : Option (X × Bytes)} (b : Bool)
    → Short n x
    → Short n y
    → Short n (if b then x else y)
Short-if true hx hy = hx
Short-if false hx hy = hy

Short-more : {X : Type 0} {n m : ℕ} {o : Option (X × Bytes)} → n ≤ m → Short n o → Short m o
Short-more h nothing = nothing
Short-more h (result x s k) = result x s (omega arith)

Short-option :
    {X A : Type 0} {n : ℕ} {f : A → Option (X × Bytes)} (o : Option A)
    → ((a : A) → Short n (f a))
    → Short n (elim o [ none ↦ none | some a ↦ f a ])
Short-option none h = nothing
Short-option (some a) h = h a

hex_digits-Short : (n r : ℕ) (s : Bytes) → Short (length s) (hex_digits n r s)
unfolding hex_digits
hex_digits-Short zero r s = result r s (omega arith)
hex_digits-Short (suc n) r [] = nothing
hex_digits-Short (suc n) r (c ∷ s) =
    Short-option (hex_value c) (λ d. Short-more (omega arith) (hex_digits-Short n (r * 16 + d) s))

low_surrogate-Short : (r : ℕ) (s : Bytes) → Short (length s) (low_surrogate r s)
unfolding low_surrogate hex4
low_surrogate-Short r [] = nothing
low_surrogate-Short r (a ∷ []) = nothing
low_surrogate-Short r (a ∷ b ∷ s) =
    Short-if (leb 0xDC00 r || (ltb a b'\\' || (ltb b'\\' a || (ltb b b'u' || ltb b'u' b)))) nothing
      (hexed (hex_digits-Short 4 0 s))
  where
    hexed :
        {o : Option (ℕ × Bytes)}
        → Short (length s) o
        → Short (suc (suc (length s))) (elim o [
          | none ↦ none
          | some (lo, rest) ↦
              if ltb lo 0xDC00 || leb 0xE000 lo
              then none
              else some (encode_rune (0x10000 + (r - 0xD800) * 1024 + (lo - 0xDC00)), rest)
        ])
    hexed nothing = nothing
    hexed (result lo rest k) =
        Short-if (ltb lo 0xDC00 || leb 0xE000 lo) nothing (result _ rest (omega arith))

unicode_escape-Short : {n : ℕ} {o : Option (ℕ × Bytes)} → Short n o → Short n (unicode_escape o)
unfolding unicode_escape
unicode_escape-Short nothing = nothing
unicode_escape-Short (result r s k) =
    Short-if (leb 0xD800 r && ltb r 0xE000) (Short-more k (low_surrogate-Short r s))
      (result (encode_rune r) s k)

append_escape-Short : (s : Bytes) → Short (length s) (append_escape s)
unfolding append_escape hex4
append_escape-Short [] = nothing
append_escape-Short (c ∷ s) = Short-if (c == b'"' || (c == b'\\' || c == b'/')) (one (c ∷ [])) (
    Short-if (c == b'b') (one (0x08 ∷ [])) (
      Short-if (c == b'f') (one (0x0C ∷ [])) (
        Short-if (c == b'n') (one (0x0A ∷ [])) (
          Short-if (c == b'r') (one (0x0D ∷ [])) (
            Short-if (c == b't') (one (0x09 ∷ [])) (
              Short-if (c == b'u')
                (Short-more (omega arith) (unicode_escape-Short (hex_digits-Short 4 0 s)))
                nothing))))))
  where
    one : (t : Bytes) → Short (suc (length s)) (some (t, s))
    one t = result t s (omega arith)

prepend-Ends :
    {n m : ℕ} {o : Scanned (Bytes × Bytes)} (bytes : Bytes)
    → n ≤ m
    → Ends n o
    → Ends m (prepend bytes o)
unfolding prepend
prepend-Ends bytes h refuses = refuses
prepend-Ends bytes h (scanned t s k) = scanned (bytes ++ t) s (omega arith)

Ends-bool :
    {n : ℕ} {x y : Scanned (Bytes × Bytes)} (b : Bool)
    → (b ≡ true → Ends n x)
    → (b ≡ false → Ends n y)
    → Ends n (elim b [ true ↦ x | false ↦ y ])
Ends-bool true hx hy = hx refl
Ends-bool false hx hy = hy refl

length-past_rune :
    (w : ℕ) (c : ℕ) (s : Bytes) → leb w 1 ≡ false → length (drop w (c ∷ s)) ≤ length s
length-past_rune w c s h = ground (arith, length-drop w (c ∷ s))

scan_string-Ends : (fuel : ℕ) (s : Bytes) → length s < fuel → Ends (length s) (scan_string fuel s)
unfolding scan_string
scan_string-Ends zero s h = absurd (omega arith)
scan_string-Ends (suc fuel) [] h = refuses
scan_string-Ends (suc fuel) (c ∷ s) h =
    Ends-bool (c == b'"') (λ _. scanned [] s (omega arith))
      (λ _.
        Ends-bool (c == b'\\')
          (λ _. escaped (λ t k. scan_string-Ends fuel t (omega arith)) (append_escape-Short s))
          (λ _.
            Ends-bool (ltb c 0x20) (λ _. refuses)
              (λ _.
                Ends-bool (ltb c 0x80)
                  (λ _. prepend-Ends (c ∷ []) (omega arith) (scan_string-Ends fuel s (omega arith)))
                  (λ _.
                    Ends-bool (leb (rune_width (c ∷ s)) 1) (λ _. refuses)
                      (λ wide.
                        prepend-Ends (take (rune_width (c ∷ s)) (c ∷ s))
                          (omega (arith, length-past_rune (rune_width (c ∷ s)) c s wide))
                          (scan_string-Ends fuel (drop (rune_width (c ∷ s)) (c ∷ s))
                            (omega (arith, length-past_rune (rune_width (c ∷ s)) c s wide))))))))
  where
    escaped :
        {o : Option (Bytes × Bytes)}
        → ((t : Bytes) → length t ≤ length s → Ends (length t) (scan_string fuel t))
        → Short (length s) o
        → Ends
            (suc (length s))
            (elim o [ none ↦ refused | some (bytes, rest) ↦ prepend bytes (scan_string fuel rest) ])
    escaped more nothing = refuses
    escaped more (result bytes rest k) = prepend-Ends bytes (omega arith) (more rest k)

pub str-Ends : (s : Bytes) → Ends (length s) (str s)
unfolding str
str-Ends s = scan_string-Ends (suc (length s)) s (omega arith)
