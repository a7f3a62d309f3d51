-- ===== src/Decode/Scan.antt =====
-- The literals, numbers and strings of fastjson.go. A position in the document is what follows it.
use jsonschema.Prelude.{
  ℕ, zero, suc, ◌+◌, ◌-◌, ◌*◌, true, false, ◌&&◌, ◌||◌, [], ◌∷◌, ◌++◌, Option, none, some, ◌==◌,
  ltb, leb, if◌then◌else◌, length, take, drop,
}
use jsonschema.Prelude.Bytes.{Bytes}
use jsonschema.Prelude.Utf8.{encode_rune, rune_width}
use jsonschema.Prelude.Atoi.{is_ascii_digit}

-- A result, a document that the decoder leaves to encoding/json, or a lack of fuel.
pub data Scanned {ℓ} (A : Type ℓ) : Type ℓ where
  done : A → Scanned A
  refused : Scanned A
  starved : Scanned A

-- skipSpace
unfoldable pub skip_space : Bytes → Bytes
skip_space [] = []
skip_space (c ∷ s) =
    let rest = skip_space s in
    if c == b' ' || (c == 0x09 || (c == 0x0A || c == 0x0D)) then rest else c ∷ s

-- skipDigits
unfoldable pub skip_digits : Bytes → Bytes
skip_digits [] = []
skip_digits (c ∷ s) = let rest = skip_digits s in if is_ascii_digit c then rest else c ∷ s

-- A digit or more; what follows them.
unfoldable pub some_digits : Bytes → Option Bytes
unfolding skip_digits
some_digits [] = none
some_digits (c ∷ s) = if is_ascii_digit c then some (skip_digits s) else none

-- The parts of number: each gives what follows it.
unfoldable pub skip_minus : Bytes → Bytes
skip_minus [] = []
skip_minus (c ∷ s) = if c == b'-' then s else c ∷ s

unfoldable pub integer_part : Bytes → Option Bytes
unfolding skip_digits
integer_part [] = none
integer_part (c ∷ s) =
    if c == b'0' then some s else if is_ascii_digit c then some (skip_digits s) else none

unfoldable pub fraction_part : Bytes → Option Bytes
unfolding some_digits
fraction_part [] = some []
fraction_part (c ∷ s) = if c == b'.' then some_digits s else some (c ∷ s)

unfoldable pub skip_sign : Bytes → Bytes
skip_sign [] = []
skip_sign (c ∷ s) = if c == b'+' || c == b'-' then s else c ∷ s

unfoldable pub exponent_part : Bytes → Option Bytes
unfolding some_digits skip_sign
exponent_part [] = some []
exponent_part (c ∷ s) = if c == b'e' || c == b'E' then some_digits (skip_sign s) else some (c ∷ s)

unfoldable pub behind : Option Bytes → (Bytes → Option Bytes) → Option Bytes
behind none f = none
behind (some s) f = f s

-- number: the text of the literal and what follows it.
unfoldable pub number_text : Bytes → Option Bytes → Scanned (Bytes × Bytes)
number_text s none = refused
number_text s (some rest) = done (take (length s - length rest) s, rest)

unfoldable pub scan_number : Bytes → Scanned (Bytes × Bytes)
unfolding number_text behind integer_part fraction_part exponent_part skip_minus
scan_number s =
    number_text s (behind (behind (integer_part (skip_minus s)) fraction_part) exponent_part)

-- The digits of hex4.
unfoldable pub hex_value : ℕ → Option ℕ
hex_value c =
    if is_ascii_digit c
    then some (c - b'0')
    else if leb b'a' c && leb c b'f'
    then some (c - b'a' + 10)
    else if leb b'A' c && leb c b'F'
    then some (c - b'A' + 10)
    else none

unfoldable pub hex_digits : ℕ → ℕ → Bytes → Option (ℕ × Bytes)
unfolding hex_value
hex_digits zero r s = some (r, s)
hex_digits (suc n) r [] = none
hex_digits (suc n) r (c ∷ s) = elim (hex_value c) [
  | none ↦ none
  | some d ↦ hex_digits n (r * 16 + d) s
]

-- hex4
unfoldable pub hex4 : Bytes → Option (ℕ × Bytes)
unfolding hex_digits
hex4 s = hex_digits 4 0 s

-- The escaped low surrogate that follows a high one, and the rune of the two.
unfoldable pub low_surrogate : ℕ → Bytes → Option (Bytes × Bytes)
unfolding hex4 encode_rune
low_surrogate r (a ∷ b ∷ s) =
    if leb 0xDC00 r || (ltb a b'\\' || (ltb b'\\' a || (ltb b b'u' || ltb b'u' b)))
    then none
    else elim (hex4 s) [
      | none ↦ none
      | some (lo, rest) ↦
          if ltb lo 0xDC00 || leb 0xE000 lo
          then none
          else some (encode_rune (0x10000 + (r - 0xD800) * 1024 + (lo - 0xDC00)), rest)
    ]
low_surrogate r s = none

unfoldable pub unicode_escape : Option (ℕ × Bytes) → Option (Bytes × Bytes)
unfolding low_surrogate encode_rune
unicode_escape none = none
unicode_escape (some (r, s)) =
    if leb 0xD800 r && ltb r 0xE000 then low_surrogate r s else some (encode_rune r, s)

-- appendEscape, behind the backslash: the bytes of the character and what follows.
unfoldable pub append_escape : Bytes → Option (Bytes × Bytes)
unfolding hex4 unicode_escape
append_escape [] = none
append_escape (c ∷ s) =
    if c == b'"' || (c == b'\\' || c == b'/')
    then some (c ∷ [], s)
    else if c == b'b'
    then some (0x08 ∷ [], s)
    else if c == b'f'
    then some (0x0C ∷ [], s)
    else if c == b'n'
    then some (0x0A ∷ [], s)
    else if c == b'r'
    then some (0x0D ∷ [], s)
    else if c == b't'
    then some (0x09 ∷ [], s)
    else if c == b'u'
    then unicode_escape (hex4 s)
    else none

unfoldable pub prepend : Bytes → Scanned (Bytes × Bytes) → Scanned (Bytes × Bytes)
prepend bytes (done (text, rest)) = done (bytes ++ text, rest)
prepend bytes refused = refused
prepend bytes starved = starved

-- The loops of str and escapedStr from behind the opening quote, which differ in where the bytes
-- are kept until the string ends. Each round passes over a byte or more.
unfoldable pub scan_string : ℕ → Bytes → Scanned (Bytes × Bytes)
unfolding append_escape prepend rune_width
scan_string zero s = starved
scan_string (suc fuel) [] = refused
scan_string (suc fuel) (c ∷ s) = elim (c == b'"') [
  | true ↦ done ([], s)
  | false ↦ elim (c == b'\\') [
    | true ↦ elim (append_escape s) [
      | none ↦ refused
      | some (bytes, rest) ↦ prepend bytes (scan_string fuel rest)
    ]
    | false ↦ elim (ltb c 0x20) [
      | true ↦ refused
      | false ↦ elim (ltb c 0x80) [
        | true ↦ prepend (c ∷ []) (scan_string fuel s)
        | false ↦ elim (leb (rune_width (c ∷ s)) 1) [
          | true ↦ refused
          | false ↦
              prepend (take (rune_width (c ∷ s)) (c ∷ s))
                (scan_string fuel (drop (rune_width (c ∷ s)) (c ∷ s)))
        ]
      ]
    ]
  ]
]

-- str: its loop takes fewer rounds than there are bytes, and one.
unfoldable pub str : Bytes → Scanned (Bytes × Bytes)
unfolding scan_string
str s = scan_string (suc (length s)) s
