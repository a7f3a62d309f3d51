-- ===== src/Formats/Grammar.antt =====
-- The texts that the format duration of formats.go accepts, against the grammar of RFC 3339 Appendix A.
use jsonschema.Prelude.{
  ℕ, suc, Bool, true, false, [], ◌∷◌, ◌++◌, Option, none, some, ◌⊎◌, inl, inr, ◌≡◌, ◌≢◌, ◌↔◌, refl,
  sym, ap, ◌∙◌, ◌==◌, if◌then◌else◌, arith, append_assoc,
}
use mathlib.Core.Sum.{inr-injective}
use mathlib.Core.Option.{some-injective}
use jsonschema.Prelude.Bytes.{Bytes, codes}
use jsonschema.Prelude.Atoi.{is_ascii_digit}
use jsonschema.Formats.Types.{Failure}
use jsonschema.Formats.Durations.{
  designator, bad_unit, bad_order, next_allowed, no_digits, parse_duration_time, unit_index,
}

-- One digit or more.
pub data Digits1 : Bytes → Type 0 where
  digit : (c : ℕ) → is_ascii_digit c ≡ true → Digits1 (c ∷ [])
  digits : (c : ℕ) (s : Bytes) → is_ascii_digit c ≡ true → Digits1 s → Digits1 (c ∷ s)

Digits1-snoc : {s : Bytes} (c : ℕ) → is_ascii_digit c ≡ true → Digits1 s → Digits1 (s ++ c ∷ [])
Digits1-snoc c h (digit d k) = digits d (c ∷ []) k (digit c h)
Digits1-snoc c h (digits d s k ds) = digits d (s ++ c ∷ []) k (Digits1-snoc c h ds)

-- Components with consecutive designators, from the one at an index of three on.
pub data Chain (a b d : ℕ) : ℕ → Bytes → Type 0 where
  last :
      (i u : ℕ) (ds : Bytes)
      → Digits1 ds
      → unit_index a b d u ≡ some i
      → Chain a b d i (ds ++ u ∷ [])
  next :
      (i u : ℕ) (ds s : Bytes)
      → Digits1 ds
      → unit_index a b d u ≡ some i
      → Chain a b d (suc i) s
      → Chain a b d i (ds ++ u ∷ s)

-- What a designator that is accepted is.
designator-ok :
    (portion order : Bytes) (a b d : ℕ) (allowed : Option ℕ) (c pos : ℕ)
    → designator portion order a b d allowed c ≡ inr pos
    → (unit_index a b d c ≡ some pos) × (next_allowed allowed pos ≡ true)
unfolding designator
designator-ok portion order a b d allowed c pos h =
    at (bad_unit portion c) (bad_order portion order c) (unit_index a b d c) h
  where
    tested :
        (e : Failure) (q : ℕ) (t : Bool)
        → next_allowed allowed q ≡ t
        → (if t then inr q else inl e) ≡ inr pos
        → (some q ≡ some pos) × (next_allowed allowed pos ≡ true)
    tested e q true k h = (
      ap some (inr-injective q pos h),
      sym (ap (next_allowed allowed) (inr-injective q pos h)) ∙ k,
    )
    tested e q false k h = absurd (ground arith)

    at :
        (e e' : Failure) (o : Option ℕ)
        → elim o [ none ↦ inl e | some q ↦ if next_allowed allowed q then inr q else inl e' ]
          ≡ inr pos
        → (o ≡ some pos) × (next_allowed allowed pos ≡ true)
    at e e' none h = absurd (ground arith)
    at e e' (some q) h = tested e' q (next_allowed allowed q) refl h

-- The time portion: nothing more, or components that may follow.
More : ℕ → ℕ → ℕ → Option ℕ → Bytes → Type 0
More a b d allowed s = (s ≡ []) ⊎ ((i : ℕ) × (next_allowed allowed i ≡ true) × Chain a b d i s)

module _ (a b d : ℕ) where
  chained :
      (allowed : Option ℕ) (ds s : Bytes) (u pos : ℕ)
      → Digits1 ds
      → unit_index a b d u ≡ some pos
      → next_allowed allowed pos ≡ true
      → More a b d (some (suc pos)) s
      → (i : ℕ) × (next_allowed allowed i ≡ true) × Chain a b d i (ds ++ u ∷ s)
  unfolding More next_allowed
  chained allowed ds s u pos dg un al (inl e) = (pos, al, rw e (last pos u ds dg un))
  chained allowed ds s u pos dg un al (inr (i, k, c)) =
      (pos, al, next pos u ds s dg un (rw (sym (following k)) c))
    where
      following : next_allowed (some (suc pos)) i ≡ true → i ≡ suc pos
      following k = ground arith

-- What the digits read so far and the rest of a time portion make.
abbrev Ended : Option ℕ → Bytes → Type 0
Ended allowed s = (i : ℕ) × (next_allowed allowed i ≡ true) × Chain b'H' b'M' b'S' i s

digit_or_unit :
    (allowed : Option ℕ) (saw r : Bool) (ds : Bytes) (c : ℕ) (s : Bytes)
    → Digits1 ds
    → (t : Bool) → is_ascii_digit c ≡ t
    → ((ds' : Bytes)
        → Digits1 ds'
        → parse_duration_time true allowed saw s ≡ inr r
        → Ended allowed (ds' ++ s))
    → ((pos : ℕ)
        → parse_duration_time false (some (suc pos)) true s ≡ inr r
        → More b'H' b'M' b'S' (some (suc pos)) s)
    → elim t [
      | true ↦ parse_duration_time true allowed saw s
      | false ↦ elim (designator (codes "time") (codes "H/M/S") b'H' b'M' b'S' allowed c) [
        | inl e ↦ inl e
        | inr pos ↦ parse_duration_time false (some (suc pos)) true s
      ]
    ]
      ≡ inr r
    → Ended allowed (ds ++ c ∷ s)
digit_or_unit allowed saw r ds c s dg true k more rest h =
    rw (sym (append_assoc ds (c ∷ []) s)) (more (ds ++ c ∷ []) (Digits1-snoc c k dg) h)
digit_or_unit allowed saw r ds c s dg false k more rest h =
    at (designator (codes "time") (codes "H/M/S") b'H' b'M' b'S' allowed c)
      (λ pos. designator-ok (codes "time") (codes "H/M/S") b'H' b'M' b'S' allowed c pos) h
  where
    at :
        (o : Failure ⊎ ℕ)
        → ((pos : ℕ)
            → o ≡ inr pos
            → (unit_index b'H' b'M' b'S' c ≡ some pos) × (next_allowed allowed pos ≡ true))
        → elim o [ inl e ↦ inl e | inr pos ↦ parse_duration_time false (some (suc pos)) true s ]
          ≡ inr r
        → Ended allowed (ds ++ c ∷ s)
    at (inl e) ok h = absurd (ground arith)
    at (inr pos) ok h =
        let (unit, fits) = ok pos refl in
        chained b'H' b'M' b'S' allowed ds s c pos dg unit fits (rest pos h)

first_digit :
    (allowed : Option ℕ) (saw r : Bool) (c : ℕ) (s : Bytes) (t : Bool)
    → is_ascii_digit c ≡ t
    → ((ds' : Bytes)
        → Digits1 ds'
        → parse_duration_time true allowed saw s ≡ inr r
        → Ended allowed (ds' ++ s))
    → elim t [ true ↦ parse_duration_time true allowed saw s | false ↦ inl no_digits ] ≡ inr r
    → More b'H' b'M' b'S' allowed (c ∷ s)
unfolding More
first_digit allowed saw r c s true k more h = inr (more (c ∷ []) (digit c k) h)
first_digit allowed saw r c s false k more h = absurd (ground arith)

mutual
  unfolding parse_duration_time More

  time_digits :
      (allowed : Option ℕ) (saw r : Bool) (ds s : Bytes)
      → Digits1 ds
      → parse_duration_time true allowed saw s ≡ inr r
      → Ended allowed (ds ++ s)
  time_digits allowed saw r ds [] dg h = absurd (ground arith)
  time_digits allowed saw r ds (c ∷ s) dg h =
      digit_or_unit allowed saw r ds c s dg (is_ascii_digit c) refl
        (λ ds' dg' h'. time_digits allowed saw r ds' s dg' h')
        (λ pos h'. time-More (some (suc pos)) true r s h') h

  time-More :
      (allowed : Option ℕ) (saw r : Bool) (s : Bytes)
      → parse_duration_time false allowed saw s ≡ inr r
      → More b'H' b'M' b'S' allowed s
  time-More allowed saw r [] h = inl refl
  time-More allowed saw r (c ∷ s) h =
      first_digit allowed saw r c s (is_ascii_digit c) refl
        (λ ds' dg' h'. time_digits allowed saw r ds' s dg' h') h

taken : (x y : Failure ⊎ Bool) (b : Bool) → b ≡ true → elim b [ true ↦ x | false ↦ y ] ≡ x
taken x y true h = refl
taken x y false h = absurd (ground arith)

left_out : (x y : Failure ⊎ Bool) (b : Bool) → b ≡ false → elim b [ true ↦ x | false ↦ y ] ≡ y
left_out x y true h = absurd (ground arith)
left_out x y false h = refl

digit_step :
    (got : Bool) (allowed : Option ℕ) (saw : Bool) (c : ℕ) (s : Bytes)
    → is_ascii_digit c ≡ true
    → parse_duration_time got allowed saw (c ∷ s) ≡ parse_duration_time true allowed saw s
unfolding parse_duration_time
digit_step got allowed saw c s k = taken _ _ (is_ascii_digit c) k

time_run :
    (got : Bool) (allowed : Option ℕ) (saw : Bool) (ds s : Bytes)
    → Digits1 ds
    → parse_duration_time got allowed saw (ds ++ s) ≡ parse_duration_time true allowed saw s
time_run got allowed saw _ s (digit c k) = digit_step got allowed saw c s k
time_run got allowed saw _ s (digits c ds k dg) =
    digit_step got allowed saw c (ds ++ s) k ∙ time_run true allowed saw ds s dg

unit-designator :
    (allowed : Option ℕ) (u i : ℕ)
    → unit_index b'H' b'M' b'S' u ≡ some i
    → next_allowed allowed i ≡ true
    → designator (codes "time") (codes "H/M/S") b'H' b'M' b'S' allowed u ≡ inr i
unfolding designator
unit-designator allowed u i un al =
    at (unit_index b'H' b'M' b'S' u) (bad_unit (codes "time") u)
      (bad_order (codes "time") (codes "H/M/S") u) un
  where
    at :
        (o : Option ℕ) (e e' : Failure)
        → o ≡ some i
        → elim o [ none ↦ inl e | some q ↦ if next_allowed allowed q then inr q else inl e' ]
          ≡ inr i
    at none e e' h = absurd (ground arith)
    at (some q) e e' h =
        let same = some-injective q i h in
        (λ j. if next_allowed allowed (same j) then inr (same j) else inl e')
        ∙ (λ j. if al j then inr i else inl e')

unit-no_digit : (u i : ℕ) → unit_index b'H' b'M' b'S' u ≡ some i → is_ascii_digit u ≡ false
unfolding unit_index
unit-no_digit u i h = ground arith

time_unit :
    (allowed : Option ℕ) (saw : Bool) (u i : ℕ) (s : Bytes)
    → unit_index b'H' b'M' b'S' u ≡ some i
    → next_allowed allowed i ≡ true
    → parse_duration_time true allowed saw (u ∷ s) ≡ parse_duration_time false (some (suc i)) true s
unfolding parse_duration_time
time_unit allowed saw u i s un al =
    left_out _ _ (is_ascii_digit u) (unit-no_digit u i un)
    ∙ ap (go s) (unit-designator allowed u i un al)
  where
    go : Bytes → Failure ⊎ ℕ → Failure ⊎ Bool
    go s o = elim o [ inl e ↦ inl e | inr pos ↦ parse_duration_time false (some (suc pos)) true s ]

Chain-accepted :
    (allowed : Option ℕ) (saw : Bool) (i : ℕ) (s : Bytes)
    → next_allowed allowed i ≡ true
    → Chain b'H' b'M' b'S' i s
    → parse_duration_time false allowed saw s ≡ inr true
unfolding parse_duration_time next_allowed
Chain-accepted allowed saw _ _ al (last i u ds dg un) =
    time_run false allowed saw ds (u ∷ []) dg ∙ time_unit allowed saw u i [] un al
Chain-accepted allowed saw _ _ al (next i u ds s dg un c) =
    time_run false allowed saw ds (u ∷ s) dg
    ∙ (time_unit allowed saw u i s un al ∙ Chain-accepted (some (suc i)) true (suc i) s (same i) c)
  where
    same : (i : ℕ) → (suc i == suc i) ≡ true
    same i = ground arith

-- Behind the "T" of a duration the source accepts what RFC 3339 allows and nothing else: components of
-- hours, minutes and seconds, one or more, each one digit or more and its designator, in this order
-- and without a gap.
pub parse_duration_time_iff :
    (s : Bytes)
    → (parse_duration_time false none false s ≡ inr true) ↔ ((i : ℕ) × Chain b'H' b'M' b'S' i s)
unfolding parse_duration_time next_allowed More
parse_duration_time_iff s = (sound s, λ (i, c). Chain-accepted none false i s refl c)
  where
    ended : (s : Bytes) → More b'H' b'M' b'S' none s → s ≢ [] → (i : ℕ) × Chain b'H' b'M' b'S' i s
    ended s (inl e) ne = absurd (ne e)
    ended s (inr (i, k, c)) ne = (i, c)

    sound :
        (s : Bytes)
        → parse_duration_time false none false s ≡ inr true
        → (i : ℕ) × Chain b'H' b'M' b'S' i s
    sound [] h = absurd (ground arith)
    sound (c ∷ s) h =
        ended (c ∷ s) (time-More none false true (c ∷ s) h) (λ e. absurd (ground arith))
