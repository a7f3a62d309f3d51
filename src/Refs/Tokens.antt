-- ===== src/Refs/Tokens.antt =====
-- Lists of tokens and the JSON Pointers that they print to (RFC 6901), against the format
-- json-pointer of formats.go and the splitting of jsonPointer in ref.go.
use jsonschema.Prelude.{
  ℕ, true, false, ◌||◌, List, [], ◌∷◌, ◌++◌, map, none, ◌≡◌, refl, sym, ap, ◌∙◌, inl, inr, ◌↔◌,
  ◌==◌, if_cases, Bool-cases, arith,
}
use jsonschema.Prelude.Bytes.{Bytes, split_on, onto_first}
use jsonschema.Eval.Escapes.{escaped}
use jsonschema.Formats.Pointers.{tildes_ok, validate_json_pointer}
use jsonschema.Formats.Types.{format_err}

-- The pointer that a list of tokens prints to.
unfoldable pub print_pointer : List Bytes → Bytes
print_pointer [] = []
print_pointer (t ∷ ts) = b'/' ∷ escaped t ++ print_pointer ts

-- The tildes of what follows a byte that is no tilde.
tildes_ok-plain : (c : ℕ) (s : Bytes) → (c == b'~') ≡ false → tildes_ok (c ∷ s) ≡ tildes_ok s
unfolding tildes_ok
tildes_ok-plain c [] h = ground arith
tildes_ok-plain c (d ∷ s) h = ground arith

tildes_ok-escaped : (t r : Bytes) → tildes_ok (escaped t ++ r) ≡ tildes_ok r
unfolding tildes_ok
tildes_ok-escaped [] r = refl
tildes_ok-escaped (c ∷ t) r =
    if_cases (λ (x : Bytes). tildes_ok (x ++ r) ≡ tildes_ok r) (c == b'~')
      (λ _. tildes_ok-escaped t r)
      (λ tilde.
        if_cases (λ (x : Bytes). tildes_ok (x ++ r) ≡ tildes_ok r) (c == b'/')
          (λ _. tildes_ok-escaped t r)
          (λ _. tildes_ok-plain c (escaped t ++ r) tilde ∙ tildes_ok-escaped t r))

tildes_ok-print : (ts : List Bytes) → tildes_ok (print_pointer ts) ≡ true
unfolding print_pointer tildes_ok
tildes_ok-print [] = refl
tildes_ok-print (t ∷ ts) =
    tildes_ok-plain b'/' (escaped t ++ print_pointer ts) refl
    ∙ (tildes_ok-escaped t (print_pointer ts) ∙ tildes_ok-print ts)

escaped-plain :
    (c : ℕ) (t : Bytes)
    → (c == b'~') ≡ false
    → (c == b'/') ≡ false
    → escaped (c ∷ t) ≡ c ∷ escaped t
escaped-plain c t tilde slash = ground arith

-- A text is the rest of a token and the tokens behind it.
Pieces : Bytes → Type 0
Pieces s = (t : Bytes) × (ts : List Bytes) × (s ≡ escaped t ++ print_pointer ts)

Pieces-slash : (s : Bytes) → Pieces s → Pieces (b'/' ∷ s)
unfolding Pieces print_pointer
Pieces-slash s (t, ts, e) = ([], t ∷ ts, ap (λ x. b'/' ∷ x) e)

Pieces-plain :
    (c : ℕ) (s : Bytes) → (c == b'~') ≡ false → (c == b'/') ≡ false → Pieces s → Pieces (c ∷ s)
unfolding Pieces print_pointer
Pieces-plain c s tilde slash (t, ts, e) = (
  c ∷ t,
  ts,
  ap (λ x. c ∷ x) e ∙ sym (ap (λ x. x ++ print_pointer ts) (escaped-plain c t tilde slash)),
)

Pieces-step : (c : ℕ) (s : Bytes) → (c == b'~') ≡ false → Pieces s → Pieces (c ∷ s)
Pieces-step c s tilde rest = elim (Bool-cases (c == b'/')) [
  | inl slash ↦ rw (is_slash slash) (Pieces-slash s rest)
  | inr plain ↦ Pieces-plain c s tilde plain rest
]
  where
    is_slash : (c == b'/') ≡ true → c ≡ b'/'
    is_slash h = ground arith

Pieces-tilde0 : (s : Bytes) → Pieces s → Pieces (b'~' ∷ b'0' ∷ s)
unfolding Pieces print_pointer
Pieces-tilde0 s (t, ts, e) = (b'~' ∷ t, ts, ap (λ x. b'~' ∷ b'0' ∷ x) e)

Pieces-tilde1 : (s : Bytes) → Pieces s → Pieces (b'~' ∷ b'1' ∷ s)
unfolding Pieces print_pointer
Pieces-tilde1 s (t, ts, e) = (b'/' ∷ t, ts, ap (λ x. b'~' ∷ b'1' ∷ x) e)

Pieces-escape :
    (c d : ℕ) (s : Bytes)
    → (c == b'~') ≡ true
    → (d == b'0' || d == b'1') ≡ true
    → Pieces s
    → Pieces (c ∷ d ∷ s)
Pieces-escape c d s tilde digit rest = elim (Bool-cases (d == b'0')) [
  | inl d0 ↦ rw (is_tilde, zero_digit d0) (Pieces-tilde0 s rest)
  | inr d1 ↦ rw (is_tilde, one_digit d1) (Pieces-tilde1 s rest)
]
  where
    is_tilde : c ≡ b'~'
    is_tilde = ground arith

    zero_digit : (d == b'0') ≡ true → d ≡ b'0'
    zero_digit h = ground arith

    one_digit : (d == b'0') ≡ false → d ≡ b'1'
    one_digit h = ground arith

pieces : (s : Bytes) → tildes_ok s ≡ true → Pieces s
unfolding tildes_ok Pieces print_pointer
pieces [] h = ([], [], refl)
pieces (c ∷ []) h = Pieces-step c [] (ground arith) ([], [], refl)
pieces (c ∷ d ∷ s) h = elim (Bool-cases (c == b'~')) [
  | inl tilde ↦ Pieces-escape c d s tilde (ground arith) (pieces s (ground arith))
  | inr plain ↦ Pieces-step c (d ∷ s) plain (pieces (d ∷ s) (ground arith))
]

pub validate_json_pointer-print :
    (ts : List Bytes) → validate_json_pointer (print_pointer ts) ≡ none
unfolding validate_json_pointer print_pointer
validate_json_pointer-print [] = refl
validate_json_pointer-print (t ∷ ts) =
    at (escaped t ++ print_pointer ts) (tildes_ok-escaped t (print_pointer ts) ∙ tildes_ok-print ts)
  where
    at : (s : Bytes) → tildes_ok s ≡ true → validate_json_pointer (b'/' ∷ s) ≡ none
    at s h = ground arith

accepted-tildes :
    (c : ℕ) (s : Bytes) → validate_json_pointer (c ∷ s) ≡ none → (c ≡ b'/') × (tildes_ok s ≡ true)
unfolding validate_json_pointer format_err
accepted-tildes c s h = (ground arith, ground arith)

validate_json_pointer-accepted :
    (s : Bytes) → validate_json_pointer s ≡ none → (ts : List Bytes) × (s ≡ print_pointer ts)
unfolding print_pointer Pieces
validate_json_pointer-accepted [] h = ([], refl)
validate_json_pointer-accepted (c ∷ s) h =
    let (slash, tildes) = accepted-tildes c s h in
    let (t, ts, e) = pieces s tildes in (t ∷ ts, λ i. slash i ∷ e i)

-- The format json-pointer accepts the texts that lists of tokens print to, and no others.
pub validate_json_pointer_iff :
    (s : Bytes) → (validate_json_pointer s ≡ none) ↔ ((ts : List Bytes) × (s ≡ print_pointer ts))
validate_json_pointer_iff s =
    (validate_json_pointer-accepted s, λ (ts, e). rw e (validate_json_pointer-print ts))

onto_first-head : (c : ℕ) (t : Bytes) (ts : List Bytes) → onto_first c (t ∷ ts) ≡ (c ∷ t) ∷ ts
unfolding onto_first
onto_first-head c t ts = refl

split_on-plain :
    (sep c : ℕ) (s t : Bytes) (ts : List Bytes)
    → (c == sep) ≡ false
    → split_on sep s ≡ t ∷ ts
    → split_on sep (c ∷ s) ≡ (c ∷ t) ∷ ts
unfolding split_on
split_on-plain sep c s t ts h e =
    if_cases (λ (x : List Bytes). x ≡ (c ∷ t) ∷ ts) (c == sep) (λ same. absurd (ground arith))
      (λ _. ap (onto_first c) e ∙ onto_first-head c t ts)

-- Splitting what tokens print to gives their escapes.
pub split_on-print :
    (t : Bytes) (ts : List Bytes)
    → split_on b'/' (escaped t ++ print_pointer ts) ≡ escaped t ∷ map escaped ts
unfolding split_on print_pointer
split_on-print [] [] = refl
split_on-print [] (t ∷ ts) = ap (λ x. [] ∷ x) (split_on-print t ts)
split_on-print (c ∷ t) ts =
    if_cases (λ (x : Bytes). split_on b'/' (x ++ print_pointer ts) ≡ x ∷ map escaped ts) (c == b'~')
      (λ _.
        split_on-plain b'/' b'~' (b'0' ∷ escaped t ++ print_pointer ts) (b'0' ∷ escaped t)
          (map escaped ts) refl
          (split_on-plain b'/' b'0' (escaped t ++ print_pointer ts) (escaped t) (map escaped ts)
            refl (split_on-print t ts)))
      (λ _.
        if_cases (λ (x : Bytes). split_on b'/' (x ++ print_pointer ts) ≡ x ∷ map escaped ts)
          (c == b'/')
          (λ _.
            split_on-plain b'/' b'~' (b'1' ∷ escaped t ++ print_pointer ts) (b'1' ∷ escaped t)
              (map escaped ts) refl
              (split_on-plain b'/' b'1' (escaped t ++ print_pointer ts) (escaped t) (map escaped ts)
                refl (split_on-print t ts)))
          (λ slash.
            split_on-plain b'/' c (escaped t ++ print_pointer ts) (escaped t) (map escaped ts) slash
              (split_on-print t ts)))
