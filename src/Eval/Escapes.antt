-- ===== src/Eval/Escapes.antt =====
-- The tokens of JSON Pointers: unescapePointerToken (ref.go) undoes escapePointerToken (compile.go).
use jsonschema.Prelude.{
  ℕ, ◌≡◌, refl, sym, ap, ◌∙◌, Bool, true, false, [], ◌∷◌, arith, ◌==◌, if_cases, if◌then◌else◌,
}
use Prim.Native.Nat.{pred}
use jsonschema.Prelude.Bytes.{Bytes, contains_any, is_ascii}
use jsonschema.Prelude.Utf8.{rune_width_ascii}
use jsonschema.Eval.Paths.{
  escape_runes, escape_pointer_token, replace_escape, unescape_pointer_token,
}

-- The token with its tildes escaped: what is left of the escapes once "~1" is read.
abbrev tildes_escaped : Bytes → Bytes
tildes_escaped [] = []
tildes_escaped (c ∷ s) = if c == b'~' then b'~' ∷ b'0' ∷ tildes_escaped s else c ∷ tildes_escaped s

-- The escape of each byte.
abbrev pub escaped : Bytes → Bytes
escaped [] = []
escaped (c ∷ s) =
    if c == b'~'
    then b'~' ∷ b'0' ∷ escaped s
    else if c == b'/'
    then b'~' ∷ b'1' ∷ escaped s
    else c ∷ escaped s

escape_runes-escaped : (s : Bytes) → is_ascii s ≡ true → escape_runes 0 s ≡ escaped s
unfolding escape_runes is_ascii
escape_runes-escaped [] h = refl
escape_runes-escaped (c ∷ s) h =
    ap
      (λ rest.
        if c == b'~'
        then b'~' ∷ b'0' ∷ rest
        else if c == b'/'
        then b'~' ∷ b'1' ∷ rest
        else c ∷ rest)
      (ap (λ k. escape_runes (pred k) s) (rune_width_ascii c s (ground arith))
        ∙ escape_runes-escaped s (ground arith))

replace_escape-plain :
    (d to c : ℕ) (s : Bytes)
    → (c == b'~') ≡ false
    → replace_escape d to (c ∷ s) ≡ c ∷ replace_escape d to s
unfolding replace_escape
replace_escape-plain d to c [] h = refl
replace_escape-plain d to c (e ∷ s) h =
    if_cases (λ t. t ≡ c ∷ replace_escape d to (e ∷ s)) (c == b'~') (λ tilde. absurd (ground arith))
      (λ _. refl)

code_of : (c d : ℕ) → (c == d) ≡ true → d ≡ c
code_of c d h = ground arith

replace_slashes : (s : Bytes) → replace_escape b'1' b'/' (escaped s) ≡ tildes_escaped s
unfolding replace_escape
replace_slashes [] = refl
replace_slashes (c ∷ s) = at (replace_slashes s) (c == b'~') (c == b'/') (code_of c b'/') refl
  where
    at :
        replace_escape b'1' b'/' (escaped s) ≡ tildes_escaped s
        → (tilde slash : Bool) → (slash ≡ true → b'/' ≡ c)
        → (c == b'~') ≡ tilde
        → replace_escape b'1' b'/' (
            if tilde
            then b'~' ∷ b'0' ∷ escaped s
            else if slash
            then b'~' ∷ b'1' ∷ escaped s
            else c ∷ escaped s)
          ≡ (if tilde then b'~' ∷ b'0' ∷ tildes_escaped s else c ∷ tildes_escaped s)
    at rest true slash code e =
        ap (λ t. b'~' ∷ t) (replace_escape-plain b'1' b'/' b'0' (escaped s) refl)
        ∙ ap (λ t. b'~' ∷ b'0' ∷ t) rest
    at rest false true code e = λ i. code refl i ∷ rest i
    at rest false false code e =
        replace_escape-plain b'1' b'/' c (escaped s) e ∙ ap (λ t. c ∷ t) rest

replace_tildes : (s : Bytes) → replace_escape b'0' b'~' (tildes_escaped s) ≡ s
unfolding replace_escape
replace_tildes [] = refl
replace_tildes (c ∷ s) = at (replace_tildes s) (c == b'~') (code_of c b'~') refl
  where
    at :
        replace_escape b'0' b'~' (tildes_escaped s) ≡ s
        → (tilde : Bool) → (tilde ≡ true → b'~' ≡ c)
        → (c == b'~') ≡ tilde
        → replace_escape b'0' b'~'
            (if tilde then b'~' ∷ b'0' ∷ tildes_escaped s else c ∷ tildes_escaped s)
          ≡ c ∷ s
    at rest true code e = λ i. code refl i ∷ rest i
    at rest false code e =
        replace_escape-plain b'0' b'~' c (tildes_escaped s) e ∙ ap (λ t. c ∷ t) rest

escaped-none : (s : Bytes) → contains_any s (b'~' ∷ b'/' ∷ []) ≡ false → escaped s ≡ s
unfolding contains_any
escaped-none [] h = refl
escaped-none (c ∷ s) h =
    if_cases (λ t. t ≡ c ∷ s) (c == b'~') (λ tilde. absurd (ground arith))
      (λ _.
        if_cases (λ t. t ≡ c ∷ s) (c == b'/') (λ slash. absurd (ground arith))
          (λ _. ap (λ t. c ∷ t) (escaped-none s (ground arith))))

pub escape_pointer_token-escaped :
    (s : Bytes) → is_ascii s ≡ true → escape_pointer_token s ≡ escaped s
unfolding escape_pointer_token
escape_pointer_token-escaped s h =
    if_cases (λ t. t ≡ escaped s) (contains_any s (b'~' ∷ b'/' ∷ []))
      (λ _. escape_runes-escaped s h) (λ plain. sym (escaped-none s plain))

pub unescape_pointer_token-escaped : (s : Bytes) → unescape_pointer_token (escaped s) ≡ s
unfolding unescape_pointer_token
unescape_pointer_token-escaped s =
    ap (replace_escape b'0' b'~') (replace_slashes s) ∙ replace_tildes s

-- Unescaping a token that was escaped gives the key back, for every key of ASCII bytes, with any
-- mix of tildes and slashes in it.
pub unescape_pointer_token-escape_pointer_token :
    (s : Bytes) → is_ascii s ≡ true → unescape_pointer_token (escape_pointer_token s) ≡ s
unescape_pointer_token-escape_pointer_token s h =
    ap unescape_pointer_token (escape_pointer_token-escaped s h) ∙ unescape_pointer_token-escaped s
