-- ===== src/Decode/Counted.antt =====
-- The decoder of fastjson.go counts the values that it decodes and leaves its stacks as they were.
use jsonschema.Prelude.{
  ℕ, zero, suc, ◌+◌, Bool, true, false, ◌||◌, [], ◌∷◌, Option, none, some, ◌≡◌, refl, sym, ap, ◌∙◌,
  ◌==◌, ltb, if◌then◌else◌, length, arith,
}
use jsonschema.Prelude.Bytes.{Bytes, codes, cut_prefix}
use jsonschema.Prelude.Atoi.{is_ascii_digit}
use jsonschema.Value.{Value, null, boolean, number, string, array, object, json_number, nil, end}
use jsonschema.Decode.Scan.{Scanned, done, refused, starved, skip_space, scan_number, str}
use jsonschema.Decode.Fast.{
  ValueDecoder, FastDecoder, Decoded, at, fast_decode_max_depth, array_loop, object_loop,
  open_container, decode_literal, decode_text, decode_kind, decode_value, ended_by, whole,
  decode_json_fast_count,
}
use jsonschema.Decode.Kept.{
  values, sound, sum_values, all_sound, Kept, Keeps, Closed, Inside, done-injective,
}
use jsonschema.Decode.Loops.{Closes, array_loop-Closed, object_loop-Closed}

-- A decoder that counted a value, and the same before.
abbrev counting : FastDecoder → FastDecoder
counting d = record d { count = suc d.count }

Kept-Closed :
    (room : ℕ) (d : FastDecoder) (r : Value × FastDecoder)
    → Closed room d.stack d.keys (suc d.count) r
    → Kept (suc room) d r
Kept-Closed room d r c = record {
  stack_kept = c.stack_back;
  keys_kept = c.keys_back;
  counted = omega (arith, c.all_counted);
  is_sound = c.closed_sound;
}

-- A value that holds no others.
Kept-leaf :
    (room : ℕ) (v : Value) (d : FastDecoder) (s : Bytes) (r : Value × FastDecoder)
    → values v ≡ 1
    → sound room v ≡ true
    → done (v, at (counting d) s) ≡ done r
    → Kept room d r
Kept-leaf room v d s r one leaf got =
    rw (sym (done-injective (v, at (counting d) s) r got)) leaf_kept
  where
    leaf_kept : Kept room d (v, at (counting d) s)
    leaf_kept = record {
      stack_kept = refl;
      keys_kept = refl;
      counted = omega (arith, one);
      is_sound = leaf;
    }

open_container-Kept :
    (room depth close : ℕ) (empty : Value) (loop : FastDecoder → Decoded) (s : Bytes)
    (d : FastDecoder) (r : Value × FastDecoder)
    → room + depth ≡ fast_decode_max_depth
    → values empty ≡ 1
    → ((room : ℕ) → sound (suc room) empty ≡ true)
    → ((room' : ℕ)
        → room' + suc depth ≡ fast_decode_max_depth
        → Closes room' d.stack d.keys (suc d.count) r [] [] loop)
    → open_container close empty (suc depth) loop s (counting d) ≡ done r
    → Kept room d r
unfolding open_container sum_values all_sound
open_container-Kept zero depth close empty loop s d r fits one ok loops got = absurd (deep s got)
  where
    deep : (s : Bytes) → open_container close empty (suc depth) loop s (counting d) ≡ done r → ⊥
    deep [] got = ground arith
    deep (c ∷ s) got = ground arith
open_container-Kept (suc room) depth close empty loop s d r fits one ok loops got = go s got
  where
    start : (s : Bytes) → Inside room d.stack d.keys (suc d.count) [] [] (at (counting d) s)
    start s = record { stacked = refl; named = refl; tops_sound = refl; so_far = omega arith }

    looped : (s : Bytes) → loop (at (counting d) s) ≡ done r → Kept (suc room) d r
    looped s got =
        Kept-Closed room d r (loops room (omega (arith, fits)) (at (counting d) s) (start s) got)

    guarded :
        (deep last : Bool) (s t : Bytes)
        → (if deep
            then refused
            else if last
            then done (empty, at (counting d) s)
            else loop (at (counting d) t))
          ≡ done r
        → Kept (suc room) d r
    guarded true last s t got = absurd (ground arith)
    guarded false true s t got = Kept-leaf (suc room) empty d s r one (ok room) got
    guarded false false s t got = looped t got

    go :
        (s : Bytes)
        → open_container close empty (suc depth) loop s (counting d) ≡ done r
        → Kept (suc room) d r
    go [] got = guarded (ltb fast_decode_max_depth (suc depth)) false [] [] got
    go (c ∷ s) got = guarded (ltb fast_decode_max_depth (suc depth)) (c == close) s (c ∷ s) got

decode_literal-Kept :
    (room : ℕ) (v : Value) (d : FastDecoder) (o : Option Bytes) (r : Value × FastDecoder)
    → values v ≡ 1
    → sound room v ≡ true
    → decode_literal v (counting d) o ≡ done r
    → Kept room d r
unfolding decode_literal
decode_literal-Kept room v d none r one leaf got = absurd (ground arith)
decode_literal-Kept room v d (some s) r one leaf got = Kept-leaf room v d s r one leaf got

decode_text-Kept :
    (room : ℕ) (f : Bytes → Value) (d : FastDecoder) (o : Scanned (Bytes × Bytes))
    (r : Value × FastDecoder)
    → ((t : Bytes) → values (f t) ≡ 1)
    → ((t : Bytes) → sound room (f t) ≡ true)
    → decode_text f (counting d) o ≡ done r
    → Kept room d r
unfolding decode_text
decode_text-Kept room f d (done (t, s)) r one leaf got =
    Kept-leaf room (f t) d s r (one t) (leaf t) got
decode_text-Kept room f d refused r one leaf got = absurd (ground arith)
decode_text-Kept room f d starved r one leaf got = absurd (ground arith)

sound-leaf :
    (room : ℕ)
    → (sound room null ≡ true)
      × ((b : Bool) → sound room (boolean b) ≡ true)
      × ((t : Bytes) → sound room (string t) ≡ true)
      × ((t : Bytes) → sound room (number (json_number t)) ≡ true)
unfolding sound
sound-leaf zero = (refl, λ b. refl, λ t. refl, λ t. refl)
sound-leaf (suc room) = (refl, λ b. refl, λ t. refl, λ t. refl)

decode_kind-Kept :
    (value : ValueDecoder) (keeps : Keeps value) (fuel room depth : ℕ) (s : Bytes) (d : FastDecoder)
    (r : Value × FastDecoder)
    → room + depth ≡ fast_decode_max_depth
    → decode_kind value fuel depth s (counting d) ≡ done r
    → Kept room d r
unfolding decode_kind values sound
decode_kind-Kept value keeps fuel room depth [] d r fits got = absurd (ground arith)
decode_kind-Kept value keeps fuel room depth (c ∷ s) d r fits got =
    go (c == b'{') (c == b'[') (c == b'"') (c == b't') (c == b'f') (c == b'n')
      (c == b'-' || is_ascii_digit c) got
  where
    leaves :
        (sound room null ≡ true)
        × ((b : Bool) → sound room (boolean b) ≡ true)
        × ((t : Bytes) → sound room (string t) ≡ true)
        × ((t : Bytes) → sound room (number (json_number t)) ≡ true)
    leaves = sound-leaf room

    go :
        (object_here array_here text_here true_here false_here null_here number_here : Bool)
        → (if object_here
            then open_container b'}'
                (object end)
                (suc depth)
                (object_loop value (suc depth) (length d.stack) fuel)
                (skip_space s)
                (counting d)
            else if array_here
            then open_container b']'
                (array nil)
                (suc depth)
                (array_loop value (suc depth) (length d.stack) fuel)
                (skip_space s)
                (counting d)
            else if text_here
            then decode_text string (counting d) (str s)
            else if true_here
            then decode_literal (boolean true) (counting d) (cut_prefix (c ∷ s) (codes "true"))
            else if false_here
            then decode_literal (boolean false) (counting d) (cut_prefix (c ∷ s) (codes "false"))
            else if null_here
            then decode_literal null (counting d) (cut_prefix (c ∷ s) (codes "null"))
            else if number_here
            then decode_text (λ t. number (json_number t)) (counting d) (scan_number (c ∷ s))
            else refused)
          ≡ done r
        → Kept room d r
    go true _ _ _ _ _ _ got =
        open_container-Kept room depth b'}' (object end) _ (skip_space s) d r fits refl (λ _. refl)
          (λ room' e.
            object_loop-Closed value keeps room' (suc depth) (suc d.count) d.stack d.keys r e fuel
              [] [] refl)
          got
    go false true _ _ _ _ _ got =
        open_container-Kept room depth b']' (array nil) _ (skip_space s) d r fits refl (λ _. refl)
          (λ room' e.
            array_loop-Closed value keeps room' (suc depth) (suc d.count) d.stack d.keys r e fuel
              [])
          got
    go false false true _ _ _ _ got =
        decode_text-Kept room string d (str s) r (λ _. refl) leaves.2 got
    go false false false true _ _ _ got =
        decode_literal-Kept room (boolean true) d (cut_prefix (c ∷ s) (codes "true")) r refl
          (leaves.1 true) got
    go false false false false true _ _ got =
        decode_literal-Kept room (boolean false) d (cut_prefix (c ∷ s) (codes "false")) r refl
          (leaves.1 false) got
    go false false false false false true _ got =
        decode_literal-Kept room null d (cut_prefix (c ∷ s) (codes "null")) r refl leaves.0 got
    go false false false false false false true got =
        decode_text-Kept room (λ t. number (json_number t)) d (scan_number (c ∷ s)) r (λ _. refl)
          leaves.3 got
    go false false false false false false false got = absurd (ground arith)

-- Decoding a value leaves the stacks of values and of names as they were and adds the number of its
-- values to the count; the value is no deeper than the depth leaves room for, and no object of it
-- repeats a name.
pub decode_value-Kept : (fuel : ℕ) → Keeps (decode_value fuel)
unfolding decode_value
decode_value-Kept zero room depth d r fits got = absurd (ground arith)
decode_value-Kept (suc fuel) room depth d r fits got =
    decode_kind-Kept (decode_value fuel) (decode_value-Kept fuel) fuel room depth d.rest d r fits
      got

-- A document that the fast decoder accepts: the count it gives is the number of values in the value it
-- gives, which is nested at most 512 deep and in which no object repeats a name.
pub decode_json_fast_count-values :
    (s : Bytes) (v : Value) (n : ℕ)
    → decode_json_fast_count s ≡ done (v, n)
    → (n ≡ values v) × (sound 512 v ≡ true)
unfolding decode_json_fast_count whole ended_by
decode_json_fast_count-values s v n got =
    go (decode_value (suc (length s)) 0 start)
      (λ r. decode_value-Kept (suc (length s)) 512 0 start r refl) got
  where
    start : FastDecoder
    start = record { rest = skip_space s; stack = []; keys = []; count = 0 }

    ended :
        (s : Bytes) (v' : Value) (d : FastDecoder)
        → ended_by s (v', d.count) ≡ done (v, n)
        → ◌≡◌ {A = Value × ℕ} (v', d.count) (v, n)
    ended [] v' d got = done-injective (v', d.count) (v, n) got
    ended (c ∷ t) v' d got = absurd (ground arith)

    go :
        (o : Decoded)
        → ((r : Value × FastDecoder) → o ≡ done r → Kept 512 start r)
        → whole o ≡ done (v, n)
        → (n ≡ values v) × (sound 512 v ≡ true)
    go (done (v', d)) kept got =
        let e = ended (skip_space d.rest) v' d got in
        let k = kept (v', d) refl in
        (
          omega (arith, ap (λ p. p.1) e, ap (λ p. values p.0) e, k.counted),
          sym (ap (λ p. sound 512 p.0) e) ∙ k.is_sound,
        )
    go refused kept got = absurd (ground arith)
    go starved kept got = absurd (ground arith)
