-- ===== src/Formats/Hosts.antt =====
-- The formats ipv4, ipv6, hostname and idn-hostname of formats.go.
use jsonschema.Prelude.{
  ℕ, ◌+◌, Bool, true, false, not, ◌&&◌, ◌||◌, List, [], ◌∷◌, Option, none, some, ◌==◌, ltb, leb,
  if◌then◌else◌, length, take, drop, map,
}
use jsonschema.Prelude.Bytes.{Bytes, codes, ends_with, is_ascii, lower_byte, split_on, str_eq}
use jsonschema.Prelude.Utf8.{runes}
use jsonschema.Prelude.Atoi.{is_ascii_digit}
use jsonschema.Formats.Types.{
  Failure, format_invalid, Platform, format_err, format_err_cause, is_at, is_empty, is_letter,
}
use jsonschema.Formats.Punycode.{decode_punycode, encode_punycode}

-- strings.EqualFold on ASCII texts without "k" and "s".
unfoldable pub equal_fold : Bytes → Bytes → Bool
unfolding str_eq lower_byte
equal_fold a b = str_eq (map lower_byte a) (map lower_byte b)

-- isHostnameLabel, and its loop.
unfoldable pub ldh : ℕ → Bool
unfolding is_letter
ldh c = is_letter c || (is_ascii_digit c || c == b'-')

unfoldable pub all_ldh : Bytes → Bool
unfolding ldh
all_ldh [] = true
all_ldh (c ∷ s) = ldh c && all_ldh s

unfoldable pub is_hostname_label : Bytes → Bool
unfolding is_empty is_at ends_with all_ldh
is_hostname_label lbl =
    not (is_empty lbl)
    && (not (ltb 63 (length lbl))
        && (not (is_at 0 b'-' lbl) && (not (ends_with b'-' lbl) && all_ldh lbl)))

unfoldable pub hostname_labels : List Bytes → Bool
unfolding is_hostname_label
hostname_labels [] = true
hostname_labels (lbl ∷ rest) = is_hostname_label lbl && hostname_labels rest

unfoldable pub validate_hostname_rfc1123 : Bytes → Option Failure
unfolding is_empty ends_with hostname_labels split_on format_err
validate_hostname_rfc1123 s =
    if is_empty s || ltb 255 (length s)
    then format_err (codes "hostname") s (codes "bad length")
    else if ends_with b'.' s
    then format_err (codes "hostname") s (codes "trailing dot")
    else if hostname_labels (split_on b'.' s)
    then none
    else format_err (codes "hostname") s (codes "bad label")

-- aLabelLen
unfoldable pub a_label_len : Bytes → ℕ
unfolding is_ascii encode_punycode
a_label_len lbl = if is_ascii lbl then length lbl else 4 + length (encode_punycode lbl)

abbrev pub err_hyphens_34 : Failure
err_hyphens_34 = format_invalid (codes "hyphens in positions 3-4")

abbrev pub err_bad_a_label : Failure
err_bad_a_label = format_invalid (codes "invalid A-label")

abbrev pub err_bad_u_label : Failure
err_bad_u_label = format_invalid (codes "invalid U-label")

abbrev pub err_label_length : Failure
err_label_length = format_invalid (codes "label too long")

abbrev pub err_context_o : Failure
err_context_o = format_invalid (codes "character not allowed in this context")

-- What contextOK has seen of a label.
pub record Marks : Type 0 where
  pub arabic_indic : Bool
  pub extended_indic : Bool
  pub kana_or_han : Bool
  pub katakana_dot : Bool

abbrev no_marks : Marks
no_marks = record {
  arabic_indic = false;
  extended_indic = false;
  kana_or_han = false;
  katakana_dot = false;
}

abbrev holds_at : (ℕ → Bool) → Option ℕ → Bool
holds_at f none = false
holds_at f (some r) = f r

abbrev first_of : List ℕ → Option ℕ
first_of [] = none
first_of (r ∷ rs) = some r

module _ (p : Platform) where
  -- The rules for one rune between its neighbours.
  unfoldable pub context_rune : Option ℕ → ℕ → Option ℕ → Marks → Option Marks
  context_rune prev r next marks =
      if r == 0x00B7
      then (if holds_at (λ c. c == b'l') prev && holds_at (λ c. c == b'l') next
          then some marks
          else none)
      else if r == 0x0375
      then (if holds_at p.is_greek next then some marks else none)
      else if r == 0x05F3 || r == 0x05F4
      then (if holds_at p.is_hebrew prev then some marks else none)
      else if r == 0x30FB
      then some (record marks { katakana_dot = true })
      else if leb 0x0660 r && leb r 0x0669
      then some (record marks { arabic_indic = true })
      else if leb 0x06F0 r && leb r 0x06F9
      then some (record marks { extended_indic = true })
      else if p.is_kana_or_han r
      then some (record marks { kana_or_han = true })
      else some marks

  unfoldable pub context_loop : Option ℕ → List ℕ → Marks → Bool
  unfolding context_rune
  context_loop prev [] marks =
      (not marks.katakana_dot || marks.kana_or_han)
      && (not marks.arabic_indic || not marks.extended_indic)
  context_loop prev (r ∷ rs) marks = elim (context_rune prev r (first_of rs) marks) [
    | none ↦ false
    | some marks' ↦ context_loop (some r) rs marks'
  ]

  -- contextOK
  unfoldable pub context_ok : List ℕ → Bool
  unfolding context_loop
  context_ok rs = context_loop none rs no_marks

  -- isIDNAllowedRune
  unfoldable pub is_idn_allowed_rune : ℕ → Bool
  unfolding is_letter
  is_idn_allowed_rune r =
      if r == b'-' || (r == b'.' || (is_ascii_digit r || is_letter r))
      then true
      else if ltb r 0x80
      then false
      else if r == 0x200C || r == 0x200D
      then true
      else not (p.is_other r || p.is_separator r)

  unfoldable pub u_label_runes : List ℕ → Bool
  unfolding is_idn_allowed_rune
  u_label_runes [] = true
  u_label_runes (r ∷ rs) = (not (r == b'.') && is_idn_allowed_rune r) && u_label_runes rs

  -- checkULabel
  unfoldable pub check_u_label : Bytes → Option Failure
  unfolding runes is_empty is_at ends_with u_label_runes a_label_len context_ok
  check_u_label lbl =
      let rs = runes lbl in
      if is_empty rs || (is_at 0 b'-' rs || (ends_with b'-' rs || holds_at p.is_mark (first_of rs)))
      then some err_bad_u_label
      else if is_at 2 b'-' rs && is_at 3 b'-' rs
      then some err_hyphens_34
      else if not (u_label_runes rs)
      then some err_bad_u_label
      else if ltb 59 (length rs) || ltb 63 (a_label_len lbl)
      then some err_label_length
      else if not (context_ok rs)
      then some err_context_o
      else none

  -- checkLDHLabel, on labels of ASCII bytes.
  unfoldable pub check_ldh_label : Bytes → Option Failure
  unfolding is_at equal_fold lower_byte decode_punycode is_ascii encode_punycode str_eq
      check_u_label
  check_ldh_label lbl =
      if not (is_at 2 b'-' lbl) || not (is_at 3 b'-' lbl)
      then none
      else if not (equal_fold (take 2 lbl) (codes "xn"))
      then some err_hyphens_34
      else let enc = map lower_byte (drop 4 lbl) in
        elim (decode_punycode enc) [
          | none ↦ some err_bad_a_label
          | some u ↦
              if is_ascii u || not (str_eq (encode_punycode u) enc)
              then some err_bad_a_label
              else check_u_label u
        ]

  unfoldable pub ldh_labels : List Bytes → Option Failure
  unfolding check_ldh_label
  ldh_labels [] = none
  ldh_labels (lbl ∷ rest) = elim (check_ldh_label lbl) [ some e ↦ some e | none ↦ ldh_labels rest ]

  unfoldable pub validate_hostname : Bytes → Option Failure
  unfolding validate_hostname_rfc1123 ldh_labels split_on format_err_cause
  validate_hostname s = elim (validate_hostname_rfc1123 s) [
    | some e ↦ some e
    | none ↦ elim (ldh_labels (split_on b'.' s)) [
      | none ↦ none
      | some e ↦ format_err_cause (codes "hostname") s e
    ]
  ]
