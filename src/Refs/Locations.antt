-- ===== src/Refs/Locations.antt =====
-- Instance locations (instanceLocation of eval.go) read back: by jsonPointer of ref.go, and by the
-- format json-pointer of formats.go.
use jsonschema.Prelude.{
  ℕ, zero, suc, ◌+◌, ◌*◌, ◌/◌, ◌%◌, ◌<◌, Bool, true, false, ◌&&◌, List, [], ◌∷◌, ◌++◌, map, Option,
  none, some, ◌≡◌, refl, sym, ap, ◌∙◌, ◌⊎◌, ◌≢◌, inl, inr, ltb, if_cases, arith, append_assoc,
  append-nil, get_elem?,
}
use mathlib.Core.Option.{some-injective}
use mathlib.Core.Sum.{inr-injective}
use jsonschema.Prelude.Bytes.{Bytes, is_ascii, itoa, itoa_fuel, lookup, split_on}
use jsonschema.Prelude.Int.{pos}
use jsonschema.Prelude.Atoi.{atoi, unsigned, in_range, read_digits}
use jsonschema.Value.{Value, array, object, items, entries}
use jsonschema.Eval.Types.{InstanceStep, key, index}
use jsonschema.Eval.Paths.{instance_pointer, step_token, unescape_pointer_token}
use jsonschema.Eval.Escapes.{escaped, escape_pointer_token-escaped, unescape_pointer_token-escaped}
use jsonschema.Formats.Pointers.{validate_json_pointer}
use jsonschema.Refs.Pointer.{PointerError, json_pointer, pointer_loop, descend, element}
use jsonschema.Refs.Tokens.{print_pointer, split_on-print, validate_json_pointer-print}

read_digits-digit :
    (v d w : ℕ) (t : Bytes)
    → d < 10
    → v * 10 + d ≡ w
    → read_digits v ((b'0' + d) ∷ t) ≡ read_digits w t
unfolding read_digits
read_digits-digit v d w t h e = ground arith

-- The digits of a number read as the number.
read_digits-itoa :
    (f n : ℕ) (t : Bytes) → n < f → read_digits 0 (itoa_fuel f n ++ t) ≡ read_digits n t
unfolding itoa_fuel
read_digits-itoa zero n t h = absurd (omega arith)
read_digits-itoa (suc f) n t h =
    if_cases (λ (x : Bytes). read_digits 0 (x ++ t) ≡ read_digits n t) (ltb n 10)
      (λ small. read_digits-digit 0 n n t (ground arith) (omega arith))
      (λ large.
        ap (read_digits 0) (append_assoc (itoa_fuel f (n / 10)) ((b'0' + n % 10) ∷ []) t)
        ∙ (read_digits-itoa f (n / 10) ((b'0' + n % 10) ∷ t) (ground arith)
            ∙ read_digits-digit (n / 10) (n % 10) n t (omega arith) (omega arith)))

-- A number starts with a digit.
data Digits : Bytes → Type 0 where
  one : (d : ℕ) → d < 10 → Digits ((b'0' + d) ∷ [])
  more : {s : Bytes} (d : ℕ) → d < 10 → Digits s → Digits ((b'0' + d) ∷ s)

Digits-snoc : {s : Bytes} (d : ℕ) → d < 10 → Digits s → Digits (s ++ (b'0' + d) ∷ [])
Digits-snoc d h (one c hc) = more c hc (one d h)
Digits-snoc d h (more c hc ds) = more c hc (Digits-snoc d h ds)

itoa_fuel-Digits : (f n : ℕ) → n < f → Digits (itoa_fuel f n)
unfolding itoa_fuel
itoa_fuel-Digits zero n h = absurd (omega arith)
itoa_fuel-Digits (suc f) n h =
    if_cases Digits (ltb n 10) (λ small. one n (ground arith))
      (λ large. Digits-snoc (n % 10) (omega arith) (itoa_fuel-Digits f (n / 10) (ground arith)))

-- Digits are no escapes.
escaped-Digits : (s : Bytes) → Digits s → escaped s ≡ s
escaped-Digits _ (one d h) = ground arith
escaped-Digits _ (more {s} d h ds) = plain s (escaped-Digits s ds)
  where
    plain : (s : Bytes) → escaped s ≡ s → escaped ((b'0' + d) ∷ s) ≡ (b'0' + d) ∷ s
    plain s e = ground arith

atoi-Digits : (s : Bytes) → Digits s → atoi s ≡ in_range false (read_digits 0 s)
unfolding atoi unsigned
atoi-Digits _ (one d h) = ground arith
atoi-Digits _ (more {s} d h ds) = ground arith

atoi-itoa : (n : ℕ) → n < 0x8000000000000000 → atoi (itoa n) ≡ some (pos n)
unfolding itoa in_range read_digits
atoi-itoa n h =
    atoi-Digits (itoa_fuel (suc n) n) (itoa_fuel-Digits (suc n) n (omega arith))
    ∙ (ap (in_range false) (
          ap (read_digits 0) (sym (append-nil (itoa_fuel (suc n) n)))
          ∙ read_digits-itoa (suc n) n [] (omega arith))
        ∙ ranged)
  where
    ranged : in_range false (some n) ≡ some (pos n)
    ranged = ground arith

-- The name of a step, and the names of a location from the root on.
unfoldable pub name_of : InstanceStep → Bytes
name_of (index i) = itoa i
name_of (key k) = k

unfoldable pub names : List InstanceStep → List Bytes
unfolding name_of
names [] = []
names (s ∷ steps) = names steps ++ name_of s ∷ []

-- Keys of ASCII bytes and indices of an int.
unfoldable pub plain_step : InstanceStep → Bool
plain_step (index i) = ltb i 0x8000000000000000
plain_step (key k) = is_ascii k

unfoldable pub plain_steps : List InstanceStep → Bool
unfolding plain_step
plain_steps [] = true
plain_steps (s ∷ steps) = plain_step s && plain_steps steps

-- The value that a step leads to, and the value at a location.
unfoldable pub child : Value → InstanceStep → Option Value
child (object fs) (key k) = lookup (entries fs) k
child (array vs) (index i) = get_elem? (items vs) i
child _ _ = none

unfoldable pub value_at : Value → List InstanceStep → Option Value
unfolding child
value_at root [] = some root
value_at root (s ∷ steps) = elim (value_at root steps) [ none ↦ none | some v ↦ child v s ]

step_token-name_of : (s : InstanceStep) → plain_step s ≡ true → step_token s ≡ escaped (name_of s)
unfolding step_token name_of plain_step itoa
step_token-name_of (index i) h =
    sym (escaped-Digits (itoa i) (itoa_fuel-Digits (suc i) i (omega arith)))
step_token-name_of (key k) h = escape_pointer_token-escaped k h

print_pointer-snoc :
    (ts : List Bytes) (t : Bytes)
    → print_pointer (ts ++ t ∷ []) ≡ print_pointer ts ++ b'/' ∷ escaped t
unfolding print_pointer
print_pointer-snoc [] t = ap (λ x. b'/' ∷ x) (append-nil (escaped t))
print_pointer-snoc (c ∷ ts) t =
    ap (λ x. b'/' ∷ x)
      (ap (λ x. escaped c ++ x) (print_pointer-snoc ts t)
        ∙ sym (append_assoc (escaped c) (print_pointer ts) (b'/' ∷ escaped t)))

instance_pointer-names :
    (steps : List InstanceStep)
    → plain_steps steps ≡ true
    → instance_pointer steps ≡ print_pointer (names steps)
unfolding instance_pointer names plain_steps print_pointer
instance_pointer-names [] h = refl
instance_pointer-names (s ∷ steps) h =
    (λ i.
      instance_pointer-names steps (ground arith) i ++ b'/' ∷ step_token-name_of s (ground arith) i)
    ∙ sym (print_pointer-snoc (names steps) (name_of s))

-- Every instance location of ASCII keys is a text that the format json-pointer accepts.
pub validate_json_pointer-instance_pointer :
    (steps : List InstanceStep)
    → plain_steps steps ≡ true
    → validate_json_pointer (instance_pointer steps) ≡ none
validate_json_pointer-instance_pointer steps h =
    rw (instance_pointer-names steps h) (validate_json_pointer-print (names steps))

descend-child :
    (v w : Value) (s : InstanceStep)
    → plain_step s ≡ true
    → child v s ≡ some w
    → descend v (name_of s) ≡ inr w
unfolding plain_step child name_of descend element
descend-child (object fs) w (key k) h e = ground arith
descend-child (array vs) w (index i) h e =
    ap (element (items vs) (itoa i)) (atoi-itoa i (ground arith)) ∙ at
  where
    at : element (items vs) (itoa i) (some (pos i)) ≡ inr w
    at = ground arith
descend-child _ w _ h e = absurd (ground arith)

pointer_loop-next :
    (cur next : Value) (t : Bytes) (rest : List Bytes)
    → descend cur t ≡ inr next
    → pointer_loop cur (escaped t ∷ rest) ≡ pointer_loop next rest
unfolding pointer_loop
pointer_loop-next cur next t rest d =
    ap (go rest) (ap (descend cur) (unescape_pointer_token-escaped t) ∙ d)
  where
    go : List Bytes → PointerError ⊎ Value → PointerError ⊎ Value
    go rest o = elim o [ inl e ↦ inl e | inr next ↦ pointer_loop next rest ]

pointer_loop-split :
    (cur u : Value) (t : Bytes) (rest : List Bytes)
    → pointer_loop cur (escaped t ∷ rest) ≡ inr u
    → (next : Value) × (descend cur t ≡ inr next) × (pointer_loop next rest ≡ inr u)
unfolding pointer_loop
pointer_loop-split cur u t rest e =
    at (descend cur (unescape_pointer_token (escaped t)))
      (ap (descend cur) (sym (unescape_pointer_token-escaped t))) e
  where
    at :
        (o : PointerError ⊎ Value)
        → descend cur t ≡ o
        → elim o [ inl e ↦ inl e | inr next ↦ pointer_loop next rest ] ≡ inr u
        → (next : Value) × (descend cur t ≡ inr next) × (pointer_loop next rest ≡ inr u)
    at (inl x) d e = absurd (ground arith)
    at (inr next) d e = (next, d, e)

pointer_loop-snoc :
    (cur u w : Value) (ts : List Bytes) (t : Bytes)
    → descend u t ≡ inr w
    → pointer_loop cur (map escaped ts) ≡ inr u
    → pointer_loop cur (map escaped (ts ++ t ∷ [])) ≡ inr w
unfolding pointer_loop
pointer_loop-snoc cur u w [] t d e =
    pointer_loop-next cur w t [] (ap (λ v. descend v t) (inr-injective cur u e) ∙ d)
pointer_loop-snoc cur u w (c ∷ ts) t d e =
    let (next, dn, en) = pointer_loop-split cur u c (map escaped ts) e in
    pointer_loop-next cur next c (map escaped (ts ++ t ∷ [])) dn
    ∙ pointer_loop-snoc next u w ts t d en

pointer_loop-value_at :
    (root v : Value) (steps : List InstanceStep)
    → plain_steps steps ≡ true
    → value_at root steps ≡ some v
    → pointer_loop root (map escaped (names steps)) ≡ inr v
unfolding plain_steps value_at names pointer_loop
pointer_loop-value_at root v [] h e = ap inr (some-injective root v e)
pointer_loop-value_at root v (s ∷ steps) h e =
    at (value_at root steps) (λ u. pointer_loop-value_at root u steps (ground arith)) e
  where
    at :
        (o : Option Value)
        → ((u : Value) → o ≡ some u → pointer_loop root (map escaped (names steps)) ≡ inr u)
        → elim o [ none ↦ none | some u ↦ child u s ] ≡ some v
        → pointer_loop root (map escaped (names steps ++ name_of s ∷ [])) ≡ inr v
    at none before e = absurd (ground arith)
    at (some u) before e =
        pointer_loop-snoc root u v (names steps) (name_of s) (descend-child u v s (ground arith) e)
          (before u refl)

json_pointer-print :
    (root : Value) (ts : List Bytes)
    → print_pointer ts ≢ b'/' ∷ []
    → json_pointer root (print_pointer ts) ≡ pointer_loop root (map escaped ts)
unfolding json_pointer print_pointer pointer_loop
json_pointer-print root [] ne = refl
json_pointer-print root (t ∷ ts) ne =
    at (escaped t ++ print_pointer ts) (λ e. ne (ap (λ x. b'/' ∷ x) e))
    ∙ ap (pointer_loop root) (split_on-print t ts)
  where
    at : (s : Bytes) → s ≢ [] → json_pointer root (b'/' ∷ s) ≡ pointer_loop root (split_on b'/' s)
    at [] ne = absurd (ne refl)
    at (c ∷ s) ne = refl

-- The location of a value in an instance, read by jsonPointer, leads to that value, where keys are
-- ASCII, indices fit an int and the location is not "/" (that of the empty key of the root).
pub json_pointer-instance_pointer :
    (root v : Value) (steps : List InstanceStep)
    → plain_steps steps ≡ true
    → instance_pointer steps ≢ b'/' ∷ []
    → value_at root steps ≡ some v
    → json_pointer root (instance_pointer steps) ≡ inr v
json_pointer-instance_pointer root v steps h ne e =
    let printed = instance_pointer-names steps h in
    ap (json_pointer root) printed
    ∙ (json_pointer-print root (names steps) (λ p. ne (printed ∙ p))
        ∙ pointer_loop-value_at root v steps h e)
