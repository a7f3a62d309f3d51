-- ===== src/Formats/Types.antt =====
-- The errors of the format validators of formats.go, and what the validators call outside of it.
use jsonschema.Prelude.{
  ℕ, ◌-◌, Bool, true, false, ◌&&◌, ◌||◌, [], ◌∷◌, Option, none, some, ◌⊎◌, ◌==◌, leb, get_elem?,
  if◌then◌else◌, take, drop,
}
use jsonschema.Prelude.Bytes.{Bytes}
use jsonschema.Prelude.Atoi.{is_ascii_digit}

-- A FormatError with its format, value and cause, and the causes: an error that wraps
-- errFormatInvalid, errBadDuration or errBadAddr with a text, or the text of an error of a package
-- that is called.
pub data Failure : Type 0 where
  format_error : Bytes → Bytes → Failure → Failure
  format_invalid : Bytes → Failure
  bad_duration : Bytes → Failure
  bad_addr : Bytes → Failure
  foreign : Bytes → Failure

-- FormatValidator: none stands for a nil error.
abbrev pub FormatValidator : Type 0
FormatValidator = Bytes → Option Failure

-- netip.Addr, as far as the validators ask.
pub record Addr : Type 0 where
  pub is_4 : Bool
  pub is_6 : Bool

-- The packages that the validators call: time.Parse of "2006-01-02", url.Parse with the scheme it
-- finds, netip.ParseAddr, the tables M, Greek, Hebrew, C and Z of package unicode and the union of
-- its Hiragana, Katakana and Han, fmt's %q of a byte and %04X of a rune, translateECMAAll of
-- regex.go and syntax.Parse. An error is its text.
pub record Platform : Type 0 where
  pub parse_date : Bytes → Option Bytes
  pub parse_url : Bytes → Bytes ⊎ Bytes
  pub parse_addr : Bytes → Bytes ⊎ Addr
  pub is_mark : ℕ → Bool
  pub is_greek : ℕ → Bool
  pub is_hebrew : ℕ → Bool
  pub is_kana_or_han : ℕ → Bool
  pub is_other : ℕ → Bool
  pub is_separator : ℕ → Bool
  pub quote_byte : ℕ → Bytes
  pub hex_rune : ℕ → Bytes
  pub translate_ecma : Bytes → Bytes ⊎ Bytes
  pub parse_regex : Bytes → Option Bytes

unfoldable pub format_err : Bytes → Bytes → Bytes → Option Failure
format_err format value detail = some (format_error format value (format_invalid detail))

unfoldable pub format_err_cause : Bytes → Bytes → Failure → Option Failure
format_err_cause format value cause = some (format_error format value cause)

-- `s[i] == c`, for an index within the string.
unfoldable pub is_at : ℕ → ℕ → Bytes → Bool
is_at i c s = elim (get_elem? s i) [ none ↦ false | some d ↦ d == c ]

-- s[i:j]
abbrev pub slice : ℕ → ℕ → Bytes → Bytes
slice i j s = take (j - i) (drop i s)

unfoldable pub is_empty : Bytes → Bool
is_empty [] = true
is_empty (c ∷ s) = false

unfoldable pub is_letter : ℕ → Bool
is_letter c = (leb b'a' c && leb c b'z') || (leb b'A' c && leb c b'Z')

-- isHex
unfoldable pub is_hex : ℕ → Bool
is_hex c = is_ascii_digit c || ((leb b'a' c && leb c b'f') || (leb b'A' c && leb c b'F'))

-- Every byte is a decimal digit.
unfoldable pub only_digits : Bytes → Bool
only_digits [] = true
only_digits (c ∷ s) = is_ascii_digit c && only_digits s

-- The bytes in front of the first byte that is no digit, and those from it on.
unfoldable pub after_digits : Bytes → Bytes
after_digits [] = []
after_digits (c ∷ s) = let rest = after_digits s in if is_ascii_digit c then rest else c ∷ s
