-- ===== src/Formats/Rounds.antt =====
-- The loop of validateURITemplate (formats.go) has enough fuel.
use jsonschema.Prelude.{
  ℕ, zero, suc, ◌≤◌, Bool, true, false, [], ◌∷◌, Option, none, some, ◌≡◌, ◌≢◌, refl, ◌==◌, leb,
  if◌then◌else◌, if_cases, length, drop, length-drop, arith,
}
use jsonschema.Prelude.Bytes.{Bytes, cut_at}
use jsonschema.Prelude.Utf8.{rune_width}
use jsonschema.Formats.Types.{Platform}
use jsonschema.Formats.Uris.{two_hex}
use jsonschema.Formats.Templates.{
  Checked, starved, malformed, behind_expr, is_uri_template_expr, is_uri_template_literal,
  template_error, template_round,
}

-- A cut leaves fewer bytes.
data Cut (n : ℕ) : Option (Bytes × Bytes) → Type 0 where
  uncut : Cut n none
  cut : (front back : Bytes) → length back ≤ n → Cut n (some (front, back))

cut_at-Cut : (c : ℕ) (s : Bytes) → Cut (length s) (cut_at c s)
unfolding cut_at
cut_at-Cut c [] = uncut
cut_at-Cut c (d ∷ s) =
    if_cases (Cut (suc (length s))) (d == c) (λ _. cut [] s (omega arith))
      (λ _. later (cut_at-Cut c s))
  where
    later :
        {o : Option (Bytes × Bytes)}
        → Cut (length s) o
        → Cut
            (suc (length s))
            (elim o [ none ↦ none | some (front, back) ↦ some (d ∷ front, back) ])
    later uncut = uncut
    later (cut front back h) = cut (d ∷ front) back (omega arith)

-- Two results of the loop that are one, with fuel left.
record Agrees (x y : Checked) : Type 0 where
  pub fed : x ≢ starved
  pub same : x ≡ y

Agrees-malformed : (text : Bytes) → Agrees (malformed text) (malformed text)
Agrees-malformed text = record { fed = λ e. cc; same = refl }

Agrees-if :
    (b : Bool) (x x' y y' : Checked)
    → (b ≡ true → Agrees x x')
    → (b ≡ false → Agrees y y')
    → Agrees (if b then x else y) (if b then x' else y')
Agrees-if true x x' y y' hx hy = hx refl
Agrees-if false x x' y y' hx hy = hy refl

past_rune : (w c : ℕ) (s : Bytes) → leb w 1 ≡ false → length (drop w (c ∷ s)) ≤ length s
past_rune w c s h = ground (arith, length-drop w (c ∷ s))

module _ (p : Platform) (a b : Bytes → Checked) where
  behind_expr-Agrees :
      (n : ℕ) {o : Option (Bytes × Bytes)}
      → ((t : Bytes) → length t ≤ n → Agrees (a t) (b t))
      → Cut n o
      → Agrees (behind_expr p a o) (behind_expr p b o)
  unfolding behind_expr
  behind_expr-Agrees n h uncut = Agrees-malformed _
  behind_expr-Agrees n h (cut front back k) =
      Agrees-if (is_uri_template_expr front) _ _ _ _ (λ _. h back k) (λ _. Agrees-malformed _)

  template_round-Agrees :
      (c : ℕ) (s : Bytes)
      → ((t : Bytes) → length t ≤ length s → Agrees (a t) (b t))
      → Agrees (template_round p a c s) (template_round p b c s)
  unfolding template_round
  template_round-Agrees c s h =
      Agrees-if (c == b'{') _ _ _ _ (λ _. behind_expr-Agrees (length s) h (cut_at-Cut b'}' s))
        (λ _.
          Agrees-if (c == b'}') _ _ _ _ (λ _. Agrees-malformed _)
            (λ _.
              Agrees-if (c == b'%') _ _ _ _
                (λ _.
                  Agrees-if (two_hex s) _ _ _ _ (λ _. h (drop 2 s) (omega (arith, length-drop 2 s)))
                    (λ _. Agrees-malformed _))
                (λ _.
                  Agrees-if (leb 0x80 c) _ _ _ _
                    (λ _.
                      Agrees-if (leb (rune_width (c ∷ s)) 1) _ _ _ _ (λ _. Agrees-malformed _)
                        (λ wide.
                          h (drop (rune_width (c ∷ s)) (c ∷ s))
                            (past_rune (rune_width (c ∷ s)) c s wide)))
                    (λ _.
                      Agrees-if (is_uri_template_literal c) _ _ _ _ (λ _. h s (omega arith))
                        (λ _. Agrees-malformed _)))))

template_error-Agrees :
    (p : Platform) (f g : ℕ) (s : Bytes)
    → length s ≤ f
    → length s ≤ g
    → Agrees (template_error p f s) (template_error p g s)
unfolding template_error
template_error-Agrees p f g [] h k = record { fed = λ e. cc; same = refl }
template_error-Agrees p zero g (c ∷ s) h k = absurd (omega arith)
template_error-Agrees p (suc f) zero (c ∷ s) h k = absurd (omega arith)
template_error-Agrees p (suc f) (suc g) (c ∷ s) h k =
    template_round-Agrees p (template_error p f) (template_error p g) c s
      (λ t l. template_error-Agrees p f g t (omega arith) (omega arith))

-- The loop of validateURITemplate does not run out of a fuel from the length of the text on, which
-- is the fuel it is given, and ends in one way for all of them: each round passes over a byte or
-- more.
pub template_error-fuel :
    (p : Platform) (f g : ℕ) (s : Bytes)
    → length s ≤ f
    → length s ≤ g
    → (template_error p f s ≢ starved) × (template_error p f s ≡ template_error p g s)
template_error-fuel p f g s h k =
    let agreed = template_error-Agrees p f g s h k in (agreed.fed, agreed.same)
