-- ===== src/Decode/Fed.antt =====
-- The decoder of fastjson.go ends on every document: the length of the document is fuel enough.
use jsonschema.Prelude.{
  ℕ, zero, suc, ◌≤◌, ◌<◌, Bool, true, false, ◌||◌, [], ◌∷◌, Option, none, some, ◌≢◌, ◌==◌, ltb,
  if◌then◌else◌, length, arith,
}
use jsonschema.Prelude.Bytes.{Bytes, codes, cut_prefix}
use jsonschema.Prelude.Atoi.{is_ascii_digit}
use jsonschema.Value.{
  Value, null, boolean, number, string, array, object, json_number, Fields, nil, end,
}
use jsonschema.Decode.Scan.{Scanned, done, refused, starved, skip_space}
use jsonschema.Decode.Fast.{
  ValueDecoder, FastDecoder, Decoded, at, fast_decode_max_depth, close_array, close_object,
  closed_object, behind_element, push_element, array_loop, behind_member, push_member, colon,
  behind_name, member, object_loop, open_container, decode_literal, decode_text, decode_kind,
  decode_value, ended_by, whole, decode_json_fast_count,
}
use jsonschema.Decode.Shorter.{
  Less, no_rest, rest_of, Ends, refuses, scanned, length-skip_space, scan_number-Ends,
  cut_prefix-Less, str-Ends,
}

-- A decoding did not lack fuel, and leaves at most `n` bytes.
data Fed (n : ℕ) : Decoded → Type 0 where
  refusing : Fed n refused
  leaving : (v : Value) (d : FastDecoder) → length d.rest ≤ n → Fed n (done (v, d))

Fed-more : {n m : ℕ} {o : Decoded} → n ≤ m → Fed n o → Fed m o
Fed-more h refusing = refusing
Fed-more h (leaving v d k) = leaving v d (omega arith)

Fed-if : {n : ℕ} {x y : Decoded} (b : Bool) → Fed n x → Fed n y → Fed n (if b then x else y)
Fed-if true hx hy = hx
Fed-if false hx hy = hy

closed_object-Fed : (o : Option Fields) (d : FastDecoder) → Fed (length d.rest) (closed_object o d)
unfolding closed_object
closed_object-Fed none d = refusing
closed_object-Fed (some fs) d = leaving (object fs) d (omega arith)

-- A decoder of values with enough fuel for fewer than `most` bytes.
abbrev Feeds : ℕ → ValueDecoder → Type 0
Feeds most value =
    (depth : ℕ) (d : FastDecoder) → length d.rest < most → Fed (length d.rest) (value depth d)

module _ (most : ℕ) (value : ValueDecoder) (feeds : Feeds most value) (depth base : ℕ) where
  -- What is asked of the rest of a loop, which starts with fewer bytes.
  abbrev Again : ℕ → (FastDecoder → Decoded) → Type 0
  Again n again = (d : FastDecoder) → length d.rest < n → Fed (length d.rest) (again d)

  push_element-Fed :
      (n : ℕ) (again : FastDecoder → Decoded) (o : Decoded)
      → Again n again
      → Fed n o
      → Fed n (push_element value depth base again o)
  unfolding push_element behind_element close_array
  push_element-Fed n again _ more refusing = refusing
  push_element-Fed n again _ more (leaving v d k) =
      behind (skip_space d.rest) (omega (arith, length-skip_space d.rest))
    where
      behind :
          (s : Bytes)
          → length s ≤ n
          → Fed n (behind_element value depth base again s (record d { stack = v ∷ d.stack }))
      behind [] h = refusing
      behind (c ∷ s) h =
          Fed-if (c == b']') (leaving _ _ (omega arith))
            (Fed-if (c == b',') (Fed-more (omega arith) (more _ (omega arith))) refusing)

  array_loop-Fed :
      (fuel : ℕ) (d : FastDecoder)
      → length d.rest < fuel
      → length d.rest < most
      → Fed (length d.rest) (array_loop value depth base fuel d)
  unfolding array_loop
  array_loop-Fed zero d h k = absurd (omega arith)
  array_loop-Fed (suc fuel) d h k =
      push_element-Fed (length d.rest) (array_loop value depth base fuel) _
        (λ d' l. array_loop-Fed fuel d' (omega arith) (omega arith))
        (Fed-more (length-skip_space d.rest)
          (feeds depth (at d (skip_space d.rest)) (omega (arith, length-skip_space d.rest))))

  push_member-Fed :
      (n : ℕ) (again : FastDecoder → Decoded) (k : Bytes) (o : Decoded)
      → Again n again
      → Fed n o
      → Fed n (push_member value depth base again k o)
  unfolding push_member behind_member close_object
  push_member-Fed n again k _ more refusing = refusing
  push_member-Fed n again k _ more (leaving v d l) =
      behind (skip_space d.rest) (omega (arith, length-skip_space d.rest))
    where
      behind :
          (s : Bytes)
          → length s ≤ n
          → Fed n (
              behind_member value depth base again s
                (record d { stack = v ∷ d.stack; keys = k ∷ d.keys }))
      behind [] h = refusing
      behind (c ∷ s) h =
          Fed-if (c == b'}') (Fed-more (omega arith) (closed_object-Fed _ _))
            (Fed-if (c == b',') (Fed-more (omega arith) (more _ (omega arith))) refusing)

  colon-Fed :
      (n : ℕ) (again : FastDecoder → Decoded) (k s : Bytes) (d : FastDecoder)
      → Again n again
      → length s ≤ n
      → n < most
      → Fed n (colon value depth base again k s d)
  unfolding colon
  colon-Fed n again k [] d more h l = refusing
  colon-Fed n again k (c ∷ s) d more h l =
      Fed-if (c == b':')
        (push_member-Fed n again k _ more (
          Fed-more (omega (arith, length-skip_space s))
            (feeds depth (at d (skip_space s)) (omega (arith, length-skip_space s)))))
        refusing

  member-Fed :
      (n : ℕ) (again : FastDecoder → Decoded) (s : Bytes) (d : FastDecoder)
      → Again n again
      → length s ≤ n
      → n < most
      → Fed n (member value depth base again d s)
  unfolding member behind_name
  member-Fed n again [] d more h l = refusing
  member-Fed n again (c ∷ s) d more h l = Fed-if (c == b'"') (named (str-Ends s)) refusing
    where
      named :
          {o : Scanned (Bytes × Bytes)}
          → Ends (length s) o
          → Fed n (behind_name value depth base again d o)
      named refuses = refusing
      named (scanned t u k) =
          colon-Fed n again t (skip_space u) d more (omega (arith, length-skip_space u)) l

  object_loop-Fed :
      (fuel : ℕ) (d : FastDecoder)
      → length d.rest < fuel
      → length d.rest < most
      → Fed (length d.rest) (object_loop value depth base fuel d)
  unfolding object_loop
  object_loop-Fed zero d h k = absurd (omega arith)
  object_loop-Fed (suc fuel) d h k =
      member-Fed (length d.rest) (object_loop value depth base fuel) (skip_space d.rest) d
        (λ d' l. object_loop-Fed fuel d' (omega arith) (omega arith)) (length-skip_space d.rest) k

open_container-Fed :
    (close : ℕ) (empty : Value) (depth : ℕ) (loop : FastDecoder → Decoded) (s : Bytes)
    (d : FastDecoder)
    → ((t : Bytes) → length t ≤ length s → Fed (length t) (loop (at d t)))
    → Fed (length s) (open_container close empty depth loop s d)
unfolding open_container
open_container-Fed close empty depth loop [] d h =
    Fed-if (ltb fast_decode_max_depth depth) refusing (h [] (omega arith))
open_container-Fed close empty depth loop (c ∷ s) d h =
    Fed-if (ltb fast_decode_max_depth depth) refusing
      (Fed-if (c == close) (leaving empty (at d s) (omega arith)) (h (c ∷ s) (omega arith)))

decode_literal-Fed :
    {n : ℕ} {o : Option Bytes} (v : Value) (d : FastDecoder)
    → Less n o
    → Fed n (decode_literal v d o)
unfolding decode_literal
decode_literal-Fed v d no_rest = refusing
decode_literal-Fed v d (rest_of s k) = leaving v (at d s) k

decode_text-Fed :
    {n m : ℕ} {o : Scanned (Bytes × Bytes)} (f : Bytes → Value) (d : FastDecoder)
    → n ≤ m
    → Ends n o
    → Fed m (decode_text f d o)
unfolding decode_text
decode_text-Fed f d h refuses = refusing
decode_text-Fed f d h (scanned t s k) = leaving (f t) (at d s) (omega arith)

decode_kind-Fed :
    (value : ValueDecoder) (fuel depth : ℕ) (s : Bytes) (d : FastDecoder)
    → Feeds fuel value
    → length s < suc fuel
    → Fed (length s) (decode_kind value fuel depth s d)
unfolding decode_kind
decode_kind-Fed value fuel depth [] d feeds h = refusing
decode_kind-Fed value fuel depth (c ∷ s) d feeds h =
    Fed-if (c == b'{')
      (inside (
        open_container-Fed b'}' (object end) (suc depth)
          (object_loop value (suc depth) (length d.stack) fuel) (skip_space s) d
          (λ t k.
            object_loop-Fed fuel value feeds (suc depth) (length d.stack) fuel (at d t) (short t k)
              (short t k))))
      (Fed-if (c == b'[')
        (inside (
          open_container-Fed b']' (array nil) (suc depth)
            (array_loop value (suc depth) (length d.stack) fuel) (skip_space s) d
            (λ t k.
              array_loop-Fed fuel value feeds (suc depth) (length d.stack) fuel (at d t) (short t k)
                (short t k))))
        (Fed-if (c == b'"') (decode_text-Fed string d (omega arith) (str-Ends s)) (
          Fed-if (c == b't') (literal (boolean true) (codes "true")) (
            Fed-if (c == b'f') (literal (boolean false) (codes "false")) (
              Fed-if (c == b'n') (literal null (codes "null")) (
                Fed-if (c == b'-' || is_ascii_digit c)
                  (decode_text-Fed (λ t. number (json_number t)) d (omega arith)
                    (scan_number-Ends (c ∷ s)))
                  refusing))))))
  where
    short : (t : Bytes) → length t ≤ length (skip_space s) → length t < fuel
    short t k = omega (arith, length-skip_space s)

    inside : {o : Decoded} → Fed (length (skip_space s)) o → Fed (suc (length s)) o
    inside = Fed-more (omega (arith, length-skip_space s))

    literal :
        (v : Value) (p : Bytes) → Fed (suc (length s)) (decode_literal v d (cut_prefix (c ∷ s) p))
    literal v p = decode_literal-Fed v d (cut_prefix-Less (c ∷ s) p)

decode_value-Fed : (fuel : ℕ) → Feeds fuel (decode_value fuel)
unfolding decode_value
decode_value-Fed zero depth d h = absurd (omega arith)
decode_value-Fed (suc fuel) depth d h =
    decode_kind-Fed (decode_value fuel) fuel depth d.rest (record d { count = suc d.count })
      (decode_value-Fed fuel) h

-- The decoder ends on every document, with a value or a refusal: it does not run out of the fuel that
-- the length of the document gives.
pub decode_json_fast_count-ends : (s : Bytes) → decode_json_fast_count s ≢ starved
unfolding decode_json_fast_count whole ended_by
decode_json_fast_count-ends s = fed (
    decode_value-Fed (suc (length s)) 0
      (record { rest = skip_space s; stack = []; keys = []; count = 0 })
      (omega (arith, length-skip_space s)))
  where
    last : (t : Bytes) (r : Value × ℕ) → ended_by t r ≢ starved
    last [] r e = absurd (ground arith)
    last (c ∷ t) r e = absurd (ground arith)

    fed : {n : ℕ} {o : Decoded} → Fed n o → whole o ≢ starved
    fed refusing e = absurd (ground arith)
    fed (leaving v d k) e = last (skip_space d.rest) (v, d.count) e
