-- ===== src/Formats/IdnHosts.antt =====
-- The format idn-hostname of formats.go, and the addresses ipv4 and ipv6.
use jsonschema.Prelude.{
  ℕ, ◌+◌, ◌-◌, ◌*◌, not, ◌&&◌, ◌||◌, List, [], ◌∷◌, ◌++◌, Option, none, some, inl, inr, ◌==◌, ltb,
  leb, if◌then◌else◌, length,
}
use jsonschema.Prelude.Bytes.{Bytes, codes, contains_byte, ends_with, is_ascii, split_on}
use jsonschema.Prelude.Utf8.{encode_runes, runes}
use jsonschema.Formats.Types.{Failure, foreign, Platform, format_err, format_err_cause, is_empty}
use jsonschema.Formats.Hosts.{
  a_label_len, check_ldh_label, check_u_label, is_hostname_label, is_idn_allowed_rune,
}

-- idnMap: none for a rune that is dropped.
unfoldable pub idn_map : ℕ → Option ℕ
idn_map r =
    if r == 0xAD || r == 0x200B
    then none
    else if r == 0x3002 || r == 0xFF61
    then some b'.'
    else if leb 0xFF01 r && leb r 0xFF5E
    then some (r - 0xFEE0)
    else some r

-- strings.Map
unfoldable pub map_runes : List ℕ → List ℕ
unfolding idn_map
map_runes [] = []
map_runes (r ∷ rs) = elim (idn_map r) [ none ↦ map_runes rs | some m ↦ m ∷ map_runes rs ]

module _ (p : Platform) where
  -- The loop over the runes: none, or the text of the error.
  unfoldable pub idn_rune_error : List ℕ → Option Bytes
  unfolding is_idn_allowed_rune
  idn_rune_error [] = none
  idn_rune_error (r ∷ rs) =
      let rest = idn_rune_error rs in
      if ltb r 0x20 || r == 0x7F
      then some (codes "control character")
      else if leb 0xD800 r && leb r 0xDFFF
      then some (codes "surrogate")
      else if not (is_idn_allowed_rune p r)
      then some (codes "disallowed rune U+" ++ p.hex_rune r)
      else rest

  -- The check of one label, which is not empty.
  unfoldable pub idn_label : Bytes → Bytes → Option Failure
  unfolding is_empty is_ascii is_hostname_label check_ldh_label check_u_label format_err
      format_err_cause
  idn_label s lbl =
      let cause = if is_ascii lbl then check_ldh_label p lbl else check_u_label p lbl in
      if is_empty lbl
      then format_err (codes "idn-hostname") s (codes "empty label")
      else if is_ascii lbl && not (is_hostname_label lbl)
      then format_err (codes "idn-hostname") s (codes "bad label")
      else elim cause [ none ↦ none | some e ↦ format_err_cause (codes "idn-hostname") s e ]

  -- The loop over the labels. `total` is one more than the source's, which starts at -1.
  unfoldable pub idn_labels : Bytes → ℕ → List Bytes → Option Failure
  unfolding idn_label a_label_len format_err
  idn_labels s total [] =
      if ltb 254 total then format_err (codes "idn-hostname") s (codes "name too long") else none
  idn_labels s total (lbl ∷ rest) = elim (idn_label s lbl) [
    | some e ↦ some e
    | none ↦ idn_labels s (total + (1 + a_label_len lbl)) rest
  ]

  -- validateIDNHostname behind its loop over the runes, whose error is given.
  unfoldable pub idn_behind_runes : Bytes → Bytes → Option Bytes → Option Failure
  unfolding ends_with idn_labels split_on format_err
  idn_behind_runes s name (some text) = format_err (codes "idn-hostname") s text
  idn_behind_runes s name none =
      if ends_with b'.' name
      then format_err (codes "idn-hostname") s (codes "trailing dot")
      else idn_labels s 0 (split_on b'.' name)

  -- validateIDNHostname once the text is mapped.
  unfoldable pub idn_named : Bytes → Bytes → Option Failure
  unfolding runes is_empty idn_rune_error idn_behind_runes format_err
  idn_named s name =
      if is_empty name || ltb (255 * 4) (length s)
      then format_err (codes "idn-hostname") s (codes "bad length")
      else idn_behind_runes s name (idn_rune_error (runes name))

  unfoldable pub validate_idn_hostname : Bytes → Option Failure
  unfolding map_runes runes encode_runes idn_named
  validate_idn_hostname s = idn_named s (encode_runes (map_runes (runes s)))

  unfoldable pub validate_ipv4 : Bytes → Option Failure
  unfolding format_err format_err_cause
  validate_ipv4 s =
      if ltb 15 (length s)
      then format_err (codes "ipv4") s (codes "too long")
      else elim (p.parse_addr s) [
        | inl e ↦ format_err_cause (codes "ipv4") s (foreign e)
        | inr addr ↦
            if not addr.is_4 then format_err (codes "ipv4") s (codes "not 4-octet") else none
      ]

  unfoldable pub validate_ipv6 : Bytes → Option Failure
  unfolding contains_byte format_err format_err_cause
  validate_ipv6 s =
      if contains_byte s b'%'
      then format_err (codes "ipv6") s (codes "zone id not allowed")
      else if ltb 45 (length s)
      then format_err (codes "ipv6") s (codes "too long")
      else elim (p.parse_addr s) [
        | inl e ↦ format_err_cause (codes "ipv6") s (foreign e)
        | inr addr ↦
            if not addr.is_6 || addr.is_4
            then format_err (codes "ipv6") s (codes "not 16-octet")
            else none
      ]
