-- ===== src/Formats/Names.antt =====
-- Host names of formats.go: what idn-hostname accepts of ASCII texts, hostname accepts.
use jsonschema.Prelude.{
  ℕ, ◌+◌, ◌*◌, ◌≤◌, Bool, true, false, not, ◌&&◌, ◌||◌, List, [], ◌∷◌, Option, none, some, ◌≡◌,
  refl, sym, ap, ◌∙◌, ltb, if◌then◌else◌, arith, length, ltb→le,
}
use jsonschema.Prelude.Bytes.{Bytes, ends_with, is_ascii, split_on}
use jsonschema.Prelude.Utf8.{encode_runes, runes}
use jsonschema.Formats.Types.{Failure, Platform, format_err, format_err_cause, is_empty}
use jsonschema.Formats.Hosts.{
  a_label_len, check_ldh_label, check_u_label, hostname_labels, is_hostname_label, ldh_labels,
  validate_hostname, validate_hostname_rfc1123,
}
use jsonschema.Formats.IdnHosts.{
  idn_behind_runes, idn_label, idn_labels, idn_map, idn_named, idn_rune_error, map_runes,
  validate_idn_hostname,
}
use jsonschema.Formats.Ascii.{
  encode_runes_ascii, every, runes_ascii, split_on_ascii, spread, spread-split_on,
}
use jsonschema.Formats.Inclusions.{both, closed, past}

idn_map_ascii : (c : ℕ) → ltb c 0x80 ≡ true → idn_map c ≡ some c
unfolding idn_map
idn_map_ascii c h = ground arith

map_runes_ascii : (s : Bytes) → is_ascii s ≡ true → map_runes s ≡ s
unfolding map_runes is_ascii
map_runes_ascii [] h = refl
map_runes_ascii (c ∷ s) h =
    let (here, there) = both (ltb c 0x80) (is_ascii s) h in
    ap (λ o. elim o [ none ↦ map_runes s | some m ↦ m ∷ map_runes s ]) (idn_map_ascii c here)
    ∙ ap (λ x. c ∷ x) (map_runes_ascii s there)

mapped_ascii : (s : Bytes) → is_ascii s ≡ true → encode_runes (map_runes (runes s)) ≡ s
mapped_ascii s h =
    ap (λ x. encode_runes (map_runes x)) (runes_ascii s h)
    ∙ (ap encode_runes (map_runes_ascii s h) ∙ encode_runes_ascii s h)

-- Neither of two results is an error.
neither :
    (o y : Option Failure) → elim o [ some e ↦ some e | none ↦ y ] ≡ none → (o ≡ none) × (y ≡ none)
neither none y h = (refl, h)
neither (some e) y h = absurd (ground arith)

uncaused :
    (f : Failure → Failure) (o : Option Failure)
    → elim o [ none ↦ none | some e ↦ some (f e) ] ≡ none
    → o ≡ none
uncaused f none h = refl
uncaused f (some e) h = absurd (ground arith)

kept : (a b : Bool) → a ≡ true → a && not b ≡ false → b ≡ true
kept a b h e = ground arith

neither_test : (a b : Bool) → a || b ≡ false → a ≡ false
neither_test a b h = ground arith

chosen : (x y : Option Failure) (b : Bool) → b ≡ true → (if b then x else y) ≡ x
chosen x y true h = refl
chosen x y false h = absurd (ground arith)

passed :
    (f : Failure → Failure) (o q : Option Failure)
    → o ≡ none
    → q ≡ none
    → elim o [ some e ↦ some e | none ↦ elim q [ none ↦ none | some e ↦ some (f e) ] ] ≡ none
passed f none none h k = refl
passed f none (some e) h k = absurd (ground arith)
passed f (some e) q h k = absurd (ground arith)

module _ (p : Platform) where
  -- What the labels of an accepted ASCII name have passed.
  record LabelTests (total : ℕ) (lbls : List Bytes) : Type 0 where
    labels : hostname_labels lbls ≡ true
    ldh : ldh_labels p lbls ≡ none
    bounded : total + spread lbls ≤ 254

  idn_label-tests :
      (s lbl : Bytes)
      → is_ascii lbl ≡ true
      → idn_label p s lbl ≡ none
      → (is_hostname_label lbl ≡ true) × (check_ldh_label p lbl ≡ none)
  unfolding idn_label format_err format_err_cause
  idn_label-tests s lbl a h =
      let (filled, h1) = past _ _ (is_empty lbl) h in
      let (good, h2) = past _ _ (is_ascii lbl && not (is_hostname_label lbl)) h1 in
      (
        kept (is_ascii lbl) (is_hostname_label lbl) a good,
        sym (chosen _ (check_u_label p lbl) (is_ascii lbl) a)
            ∙ uncaused _ (if is_ascii lbl then check_ldh_label p lbl else check_u_label p lbl) h2,
      )

  a_label_len_ascii : (lbl : Bytes) → is_ascii lbl ≡ true → a_label_len lbl ≡ length lbl
  unfolding a_label_len
  a_label_len_ascii lbl h = ground arith

  ldh_labels-cons :
      (lbl : Bytes) (rest : List Bytes)
      → check_ldh_label p lbl ≡ none
      → ldh_labels p rest ≡ none
      → ldh_labels p (lbl ∷ rest) ≡ none
  unfolding ldh_labels
  ldh_labels-cons lbl rest h e =
      ap (λ (o : Option Failure). elim o [ some e ↦ some e | none ↦ ldh_labels p rest ]) h ∙ e

  idn_labels-tests :
      (s : Bytes) (total : ℕ) (lbls : List Bytes)
      → every is_ascii lbls ≡ true
      → idn_labels p s total lbls ≡ none
      → LabelTests total lbls
  unfolding idn_labels every hostname_labels ldh_labels spread format_err
  idn_labels-tests s total [] a h = record {
    labels = refl;
    ldh = refl;
    bounded = omega (arith, ltb→le 254 total (past _ _ (ltb 254 total) h).0);
  }
  idn_labels-tests s total (lbl ∷ rest) a h =
      let (here, there) = both (is_ascii lbl) (every is_ascii rest) a in
      let (good, more) = neither (idn_label p s lbl) _ h in
      let (label, ldh) = idn_label-tests s lbl here good in
      let tests = idn_labels-tests s (total + (1 + a_label_len lbl)) rest there more in
      record {
        labels = λ i. label i && tests.labels i;
        ldh = ldh_labels-cons lbl rest ldh tests.ldh;
        bounded = omega (arith, a_label_len_ascii lbl here, tests.bounded);
      }

  behind_runes :
      (s name : Bytes) (o : Option Bytes)
      → idn_behind_runes p s name o ≡ none
      → (ends_with b'.' name ≡ false) × (idn_labels p s 0 (split_on b'.' name) ≡ none)
  unfolding idn_behind_runes format_err
  behind_runes s name (some text) h = absurd (ground arith)
  behind_runes s name none h = past _ _ (ends_with b'.' name) h

  hostname_of_tests :
      (s : Bytes)
      → is_empty s ≡ false
      → ends_with b'.' s ≡ false
      → LabelTests 0 (split_on b'.' s)
      → validate_hostname p s ≡ none
  unfolding validate_hostname validate_hostname_rfc1123 format_err
  hostname_of_tests s filled undotted t =
      passed _ (validate_hostname_rfc1123 s) (ldh_labels p (split_on b'.' s))
        (closed _ _ (is_empty s || ltb 255 (length s)) short
          ∙ (closed _ _ (ends_with b'.' s) undotted
              ∙ chosen none _ (hostname_labels (split_on b'.' s)) t.labels))
        t.ldh
    where
      at_most : length s ≤ 255 → ltb 255 (length s) ≡ false
      at_most h = ground arith

      short : is_empty s || ltb 255 (length s) ≡ false
      short = λ i. filled i || at_most (omega (arith, t.bounded, spread-split_on b'.' s)) i

  idn_named-hostname :
      (s : Bytes) → is_ascii s ≡ true → idn_named p s s ≡ none → validate_hostname p s ≡ none
  unfolding idn_named format_err
  idn_named-hostname s a h =
      let (sized, h1) = past _ _ (is_empty s || ltb (255 * 4) (length s)) h in
      let (undotted, h2) = behind_runes s s (idn_rune_error p (runes s)) h1 in
      hostname_of_tests s (neither_test (is_empty s) _ sized) undotted
        (idn_labels-tests s 0 (split_on b'.' s) (split_on_ascii b'.' s a) h2)

-- An ASCII text that the format idn-hostname accepts is accepted by the format hostname.
pub validate_idn_hostname-hostname :
    (p : Platform) (s : Bytes)
    → is_ascii s ≡ true
    → validate_idn_hostname p s ≡ none
    → validate_hostname p s ≡ none
unfolding validate_idn_hostname
validate_idn_hostname-hostname p s a h =
    idn_named-hostname p s a (sym (ap (idn_named p s) (mapped_ascii s a)) ∙ h)
