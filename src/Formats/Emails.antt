-- ===== src/Formats/Emails.antt =====
-- The formats email, idn-email and regex of formats.go.
use jsonschema.Prelude.{
  ℕ, Bool, true, false, not, ◌&&◌, ◌||◌, [], ◌∷◌, ◌++◌, Option, none, some, ◌⊎◌, inl, inr, ◌==◌,
  ltb, leb, if◌then◌else◌, length, take, drop,
}
use jsonschema.Prelude.Bytes.{
  Bytes, codes, contains_byte, cut_at, drop_last, ends_with, has_prefix, is_ascii,
}
use jsonschema.Prelude.Atoi.{is_ascii_digit}
use jsonschema.Formats.Types.{
  Failure, bad_addr, foreign, Platform, format_err, format_err_cause, is_empty, is_letter,
}
use jsonschema.Formats.Uris.{contains_ctrl}
use jsonschema.Formats.Hosts.{equal_fold, validate_hostname}
use jsonschema.Formats.IdnHosts.{validate_idn_hostname, validate_ipv4, validate_ipv6}

-- The loop of splitAddrSpec over a quoted string, from behind its first quote: what it passes over,
-- and the rest; none at a backslash that ends the text.
unfoldable pub quoted_part : Bytes → Option (Bytes × Bytes)
quoted_part [] = some ([], [])
quoted_part (c ∷ []) = if c == b'\\' then none else some (c ∷ [], [])
quoted_part (c ∷ d ∷ s) = elim (c == b'\\') [
  | true ↦ elim (quoted_part s) [ none ↦ none | some (front, back) ↦ some (c ∷ d ∷ front, back) ]
  | false ↦ elim (c == b'"') [
    | true ↦ some (c ∷ [], d ∷ s)
    | false ↦ elim (quoted_part (d ∷ s)) [
      | none ↦ none
      | some (front, back) ↦ some (c ∷ front, back)
    ]
  ]
]

-- The last loop of splitAddrSpec: the separator is the first "@" of `back`.
unfoldable pub split_behind : Bytes → Bytes → Failure ⊎ (Bytes × Bytes)
unfolding cut_at is_empty
split_behind front back = elim (cut_at b'@' back) [
  | none ↦ inl (bad_addr (codes "missing @"))
  | some (middle, domain) ↦
      if is_empty (front ++ middle)
      then inl (bad_addr (codes "empty local part"))
      else if is_empty domain
      then inl (bad_addr (codes "empty domain"))
      else inr (front ++ middle, domain)
]

-- splitAddrSpec: the texts in front of the separator and behind it.
unfoldable pub split_addr_spec : Bytes → Failure ⊎ (Bytes × Bytes)
unfolding quoted_part split_behind
split_addr_spec [] = inl (bad_addr (codes "empty"))
split_addr_spec (c ∷ s) =
    if c == b'"'
    then elim (quoted_part s) [
      | none ↦ inl (bad_addr (codes "trailing backslash"))
      | some (front, back) ↦ split_behind (c ∷ front) back
    ]
    else split_behind [] (c ∷ s)

-- isATextByte
unfoldable pub is_atext_byte : ℕ → Bool → Bool
unfolding is_letter contains_byte
is_atext_byte c allow_unicode =
    is_letter c
    || (is_ascii_digit c
        || (contains_byte (codes "!#$%&'*+-/=?^_`{|}~") c || (allow_unicode && leb 0x80 c)))

-- strings.Contains(s, "..")
unfoldable pub double_dot : Bytes → Bool
double_dot [] = false
double_dot (c ∷ []) = false
double_dot (c ∷ d ∷ s) = (c == b'.' && d == b'.') || double_dot (d ∷ s)

module _ (p : Platform) where
  -- The loop of validateDotAtomLocal.
  unfoldable pub dot_atom_bytes : Bool → Bytes → Option Failure
  unfolding is_atext_byte
  dot_atom_bytes allow_unicode [] = none
  dot_atom_bytes allow_unicode (c ∷ s) =
      let rest = dot_atom_bytes allow_unicode s in
      if c == b'.' || is_atext_byte c allow_unicode
      then rest
      else some (bad_addr (codes "invalid char " ++ (p.quote_byte c ++ codes " in local")))

  unfoldable pub validate_dot_atom_local : Bytes → Bool → Option Failure
  unfolding has_prefix ends_with double_dot dot_atom_bytes
  validate_dot_atom_local local allow_unicode =
      if has_prefix local (codes ".") || ends_with b'.' local
      then some (bad_addr (codes "local starts/ends with dot"))
      else if double_dot local
      then some (bad_addr (codes "consecutive dots"))
      else dot_atom_bytes allow_unicode local

  -- The loop of validateQuotedLocal.
  unfoldable pub quoted_bytes : Bool → Bytes → Option Failure
  quoted_bytes allow_unicode [] = none
  quoted_bytes allow_unicode (c ∷ []) =
      if c == b'\\'
      then some (bad_addr (codes "dangling backslash"))
      else if c == b'"'
      then some (bad_addr (codes "unescaped quote"))
      else if ltb c 0x20 || c == 0x7F
      then some (bad_addr (codes "control character"))
      else if leb 0x80 c && not allow_unicode
      then some (bad_addr (codes "non-ASCII in quoted local"))
      else none
  quoted_bytes allow_unicode (c ∷ d ∷ s) = elim (c == b'\\') [
    | true ↦ quoted_bytes allow_unicode s
    | false ↦
        if c == b'"'
        then some (bad_addr (codes "unescaped quote"))
        else if ltb c 0x20 || c == 0x7F
        then some (bad_addr (codes "control character"))
        else if leb 0x80 c && not allow_unicode
        then some (bad_addr (codes "non-ASCII in quoted local"))
        else quoted_bytes allow_unicode (d ∷ s)
  ]

  unfoldable pub validate_quoted_local : Bytes → Bool → Option Failure
  unfolding has_prefix ends_with drop_last quoted_bytes
  validate_quoted_local local allow_unicode =
      if ltb (length local) 2 || (not (has_prefix local (codes "\"")) || not (ends_with b'"' local))
      then some (bad_addr (codes "malformed quoted local"))
      else quoted_bytes allow_unicode (drop_last (drop 1 local))

  unfoldable pub validate_addr_local : Bytes → Bool → Option Failure
  unfolding validate_quoted_local validate_dot_atom_local
  validate_addr_local [] allow_unicode = some (bad_addr (codes "empty local part"))
  validate_addr_local (c ∷ s) allow_unicode =
      if c == b'"'
      then validate_quoted_local (c ∷ s) allow_unicode
      else validate_dot_atom_local (c ∷ s) allow_unicode

  -- The address in brackets of validateAddrDomain.
  unfoldable pub address_literal : Bytes → Option Failure
  unfolding equal_fold validate_ipv4 validate_ipv6
  address_literal inner =
      if leb 5 (length inner) && equal_fold (take 5 inner) (codes "IPv6:")
      then validate_ipv6 p (drop 5 inner)
      else validate_ipv4 p inner

  unfoldable pub validate_addr_domain : Bytes → Bool → Option Failure
  unfolding ends_with drop_last address_literal is_ascii validate_hostname validate_idn_hostname
  validate_addr_domain [] allow_idn = some (bad_addr (codes "empty domain"))
  validate_addr_domain (c ∷ s) allow_idn =
      if c == b'['
      then (if not (ends_with b']' (c ∷ s))
          then some (bad_addr (codes "unmatched ["))
          else address_literal (drop_last s))
      else if is_ascii (c ∷ s)
      then validate_hostname p (c ∷ s)
      else if not allow_idn
      then some (bad_addr (codes "non-ASCII domain in ASCII-only email"))
      else validate_idn_hostname p (c ∷ s)

  -- What validateEmail and validateIDNEmail do behind their first test.
  unfoldable pub check_address : Bytes → Bool → Bytes → Option Failure
  unfolding split_addr_spec validate_addr_local validate_addr_domain format_err_cause
  check_address format unicode s = elim (split_addr_spec s) [
    | inl e ↦ format_err_cause format s e
    | inr (local, domain) ↦ elim (validate_addr_local local unicode) [
      | some e ↦ format_err_cause format s e
      | none ↦ elim (validate_addr_domain domain unicode) [
        | some e ↦ format_err_cause format s e
        | none ↦ none
      ]
    ]
  ]

  unfoldable pub validate_email : Bytes → Option Failure
  unfolding is_ascii check_address format_err
  validate_email s =
      if not (is_ascii s)
      then format_err (codes "email") s (codes "non-ASCII; use idn-email")
      else check_address (codes "email") false s

  unfoldable pub validate_idn_email : Bytes → Option Failure
  unfolding contains_ctrl check_address format_err
  validate_idn_email s =
      if contains_ctrl s
      then format_err (codes "idn-email") s (codes "control character")
      else check_address (codes "idn-email") true s

  unfoldable pub validate_regex : Bytes → Option Failure
  unfolding format_err_cause
  validate_regex s = elim (p.translate_ecma s) [
    | inl e ↦ format_err_cause (codes "regex") s (foreign e)
    | inr translated ↦ elim (p.parse_regex translated) [
      | some e ↦ format_err_cause (codes "regex") s (foreign e)
      | none ↦ none
    ]
  ]
