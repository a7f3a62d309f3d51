-- ===== src/Formats/Punycode.antt =====
-- Punycode (punycode.go). Numbers are exact: decodePunycode keeps them below 2^31 by its own tests,
-- and encodePunycode counts by the runes of a label.
use jsonschema.Prelude.{
  ℕ, zero, suc, ◌+◌, ◌-◌, ◌*◌, ◌/◌, ◌%◌, Bool, true, false, ◌&&◌, ◌||◌, List, [], ◌∷◌, ◌++◌, Option,
  none, some, ◌==◌, ltb, leb, if◌then◌else◌, length,
}
use jsonschema.Prelude.Bytes.{Bytes, contains_byte, is_ascii}
use jsonschema.Prelude.Utf8.{encode_runes, runes}
use jsonschema.Prelude.Atoi.{is_ascii_digit}

abbrev pub max_int_32 : ℕ
max_int_32 = 0x7FFFFFFF

-- punycodeThreshold
unfoldable pub punycode_threshold : ℕ → ℕ → ℕ
punycode_threshold k bias = if leb k bias then 1 else if leb (bias + 26) k then 26 else k - bias

-- The loop of punycodeAdapt, which divides by 35; the fuel bounds the rounds.
unfoldable pub adapt_loop : ℕ → ℕ → ℕ → ℕ
adapt_loop zero k delta = k
adapt_loop (suc fuel) k delta =
    let again = adapt_loop fuel (k + 36) (delta / 35) in
    if ltb 455 delta then again else k + 36 * delta / (delta + 38)

-- punycodeAdapt
unfoldable pub punycode_adapt : ℕ → ℕ → Bool → ℕ
unfolding adapt_loop
punycode_adapt delta count first =
    let start = if first then delta / 700 else delta / 2 in
    let scaled = start + start / count in adapt_loop (suc scaled) 0 scaled

-- punycodeDigit
unfoldable pub punycode_digit : ℕ → Option ℕ
punycode_digit c =
    if is_ascii_digit c
    then some (c - b'0' + 26)
    else if leb b'a' c && leb c b'z'
    then some (c - b'a')
    else if leb b'A' c && leb c b'Z'
    then some (c - b'A')
    else none

-- punycodeChar
unfoldable pub punycode_char : ℕ → ℕ
punycode_char d = if ltb d 26 then b'a' + d else b'0' + d - 26

-- What decodePunycode keeps between bytes. `fresh` says that a number starts at the next byte.
pub record Decoding : Type 0 where
  pub fresh : Bool
  pub old_i : ℕ
  pub weight : ℕ
  pub k : ℕ
  pub n : ℕ
  pub bias : ℕ
  pub i : ℕ
  pub out : List ℕ

-- The insertion of a rune at an index.
unfoldable pub insert_at : ℕ → ℕ → List ℕ → List ℕ
insert_at zero r rs = r ∷ rs
insert_at (suc at) r [] = r ∷ []
insert_at (suc at) r (c ∷ rs) = c ∷ insert_at at r rs

unfoldable pub bad_rune : ℕ → Bool
bad_rune n = ltb 0x10FFFF n || (leb 0xD800 n && leb n 0xDFFF)

-- The end of a number: the rune that it stands for is inserted.
unfoldable pub end_number : Decoding → Option Decoding
unfolding punycode_adapt bad_rune insert_at
end_number d =
    let count = suc (length d.out) in
    let n = d.n + d.i / count in
    let at = d.i % count in
    if ltb (max_int_32 - d.n) (d.i / count) || bad_rune n
    then none
    else some (record {
      fresh = true;
      old_i = suc at;
      weight = 1;
      k = 36;
      n = n;
      bias = punycode_adapt (d.i - d.old_i) count (d.old_i == 0);
      i = suc at;
      out = insert_at at n d.out;
    })

-- One byte of a number.
unfoldable pub digit_step : ℕ → Decoding → Option Decoding
unfolding punycode_threshold end_number
digit_step digit d =
    let i = d.i + digit * d.weight in
    let t = punycode_threshold d.k d.bias in
    if ltb ((max_int_32 - d.i) / d.weight) digit
    then none
    else if ltb digit t
    then end_number (record d { i = i })
    else if ltb (max_int_32 / (36 - t)) d.weight
    then none
    else some (record d { fresh = false; i = i; weight = d.weight * (36 - t); k = d.k + 36 })

-- The two loops of decodePunycode, as one over the bytes.
unfoldable pub decode_loop : Decoding → Bytes → Option (List ℕ)
unfolding digit_step punycode_digit
decode_loop d [] = if d.fresh then some d.out else none
decode_loop d (c ∷ rest) = elim (punycode_digit c) [
  | none ↦ none
  | some digit ↦ elim (digit_step digit d) [ none ↦ none | some d' ↦ decode_loop d' rest ]
]

unfoldable pub decoding : List ℕ → Decoding
decoding out = record {
  fresh = true;
  old_i = 0;
  weight = 1;
  k = 36;
  n = 128;
  bias = 72;
  i = 0;
  out = out;
}

-- What lies in front of the last "-" and behind it; all behind where there is none.
unfoldable pub split_basic : Bytes → Bytes × Bytes
unfolding contains_byte
split_basic [] = ([], [])
split_basic (c ∷ s) =
    let (front, back) = split_basic s in
    if contains_byte s b'-' then (c ∷ front, back) else if c == b'-' then ([], s) else ([], c ∷ s)

unfoldable pub decoded : Option (List ℕ) → Option Bytes
unfolding encode_runes
decoded none = none
decoded (some rs) = some (encode_runes rs)

unfoldable pub decode_punycode : Bytes → Option Bytes
unfolding split_basic is_ascii decode_loop decoding decoded
decode_punycode s =
    let (basic, rest) = split_basic s in
    if is_ascii basic then decoded (decode_loop (decoding basic) rest) else none

-- The digits of a delta: `q` shrinks with each, so its value plus one is fuel enough.
unfoldable pub write_delta : ℕ → ℕ → ℕ → ℕ → Bytes
unfolding punycode_threshold punycode_char
write_delta zero k bias q = []
write_delta (suc fuel) k bias q =
    let t = punycode_threshold k bias in
    let more = write_delta fuel (k + 36) bias ((q - t) / (36 - t)) in
    if ltb q t then punycode_char q ∷ [] else punycode_char (t + (q - t) % (36 - t)) ∷ more

-- The smallest rune from `n` on.
unfoldable pub next_rune : ℕ → List ℕ → ℕ
next_rune n [] = max_int_32
next_rune n (r ∷ rs) = let m = next_rune n rs in if leb n r && ltb r m then r else m

-- What encodePunycode keeps between runes.
pub record Encoding : Type 0 where
  pub delta : ℕ
  pub e_bias : ℕ
  pub handled : ℕ
  pub written : Bytes

-- One rune of a pass that writes the runes equal to `n`.
unfoldable pub encode_one : ℕ → ℕ → ℕ → Encoding → Encoding
unfolding write_delta punycode_adapt
encode_one basic n r e =
    if r == n
    then record {
      delta = 0;
      e_bias = punycode_adapt e.delta (suc e.handled) (e.handled == basic);
      handled = suc e.handled;
      written = e.written ++ write_delta (suc e.delta) 36 e.e_bias e.delta;
    }
    else if ltb r n
    then record e { delta = suc e.delta }
    else e

unfoldable pub encode_pass : ℕ → ℕ → List ℕ → Encoding → Encoding
unfolding encode_one
encode_pass basic n [] e = e
encode_pass basic n (r ∷ rs) e = encode_pass basic n rs (encode_one basic n r e)

-- The outer loop: each pass handles a rune or more, so their number is fuel enough.
unfoldable pub encode_loop : ℕ → ℕ → ℕ → List ℕ → Encoding → Bytes
unfolding next_rune encode_pass
encode_loop zero basic n rs e = e.written
encode_loop (suc fuel) basic n rs e =
    let m = next_rune n rs in
    let e' = encode_pass basic m rs (record e { delta = e.delta + (m - n) * suc e.handled }) in
    let more = encode_loop fuel basic (suc m) rs (record e' { delta = suc e'.delta }) in
    if ltb e.handled (length rs) then more else e.written

-- The runes below 0x80, written first.
unfoldable pub basic_runes : List ℕ → Bytes
basic_runes [] = []
basic_runes (r ∷ rs) = let rest = basic_runes rs in if ltb r 0x80 then r ∷ rest else rest

unfoldable pub encode_punycode : Bytes → Bytes
unfolding runes basic_runes encode_loop
encode_punycode label =
    let rs = runes label in
    let basic = basic_runes rs in
    encode_loop (suc (length rs)) (length basic) 128 rs (record {
      delta = 0;
      e_bias = 72;
      handled = length basic;
      written = if ltb 0 (length basic) then basic ++ b'-' ∷ [] else basic;
    })
