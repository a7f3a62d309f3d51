-- ===== src/Decode/Fast.antt =====
-- The decoder of fastjson.go. The stacks of values and of names have their tops first. `decode_value`
-- runs on fuel, which its loops take over.
use jsonschema.Prelude.{
  ℕ, zero, suc, ◌-◌, Bool, true, false, ◌||◌, List, [], ◌∷◌, Option, none, some, ◌==◌, ltb,
  if◌then◌else◌, length, take, drop,
}
use jsonschema.Prelude.Bytes.{Bytes, codes, cut_prefix, str_eq}
use jsonschema.Prelude.Atoi.{is_ascii_digit}
use jsonschema.Value.{
  Value, null, boolean, number, string, array, object, json_number, Items, nil, item, Fields, end,
  field,
}
use jsonschema.Decode.Scan.{Scanned, done, refused, starved, skip_space, scan_number, str}

-- fastDecodeMaxDepth
abbrev pub fast_decode_max_depth : ℕ
fast_decode_max_depth = 512

-- fastDecoder
pub record FastDecoder : Type 0 where
  pub rest : Bytes
  pub stack : List Value
  pub keys : List Bytes
  pub count : ℕ

abbrev pub Decoded : Type 0
Decoded = Scanned (Value × FastDecoder)

abbrev pub ValueDecoder : Type 0
ValueDecoder = ℕ → FastDecoder → Decoded

abbrev pub at : FastDecoder → Bytes → FastDecoder
at d s = record d { rest = s }

-- The copy of the stack's top into an array.
unfoldable pub to_items : List Value → Items → Items
to_items [] acc = acc
to_items (v ∷ vs) acc = to_items vs (item v acc)

-- The end of array: what lies above `base` becomes its elements.
unfoldable pub close_array : ℕ → FastDecoder → Value × FastDecoder
unfolding to_items
close_array base d =
    let n = length d.stack - base in
    (array (to_items (take n d.stack) nil), record d { stack = drop n d.stack })

unfoldable pub has_field : Fields → Bytes → Bool
unfolding str_eq
has_field end k = false
has_field (field j v fs) k = str_eq j k || has_field fs k

-- The filling of a map, which a name that is there already ends. The source fills it from the
-- bottom of the stacks; a repeated name is met from either end.
unfoldable pub to_fields : List Bytes → List Value → Fields → Option Fields
unfolding has_field
to_fields (k ∷ ks) (v ∷ vs) acc = elim (has_field acc k) [
  | true ↦ none
  | false ↦ to_fields ks vs (field k v acc)
]
to_fields _ _ acc = some acc

unfoldable pub closed_object : Option Fields → FastDecoder → Decoded
closed_object none d = refused
closed_object (some fs) d = done (object fs, d)

-- The end of object.
unfoldable pub close_object : ℕ → FastDecoder → Decoded
unfolding to_fields closed_object
close_object base d =
    let n = length d.stack - base in
    closed_object (to_fields (take n d.keys) (take n d.stack) end)
      (record d { stack = drop n d.stack; keys = drop n d.keys })

module _ (value : ValueDecoder) (depth base : ℕ) where
  -- What array does behind an element, with the rest of its loop.
  unfoldable pub behind_element : (FastDecoder → Decoded) → Bytes → FastDecoder → Decoded
  unfolding close_array
  behind_element again [] d = refused
  behind_element again (c ∷ s) d =
      if c == b']'
      then done (close_array base (at d s))
      else if c == b','
      then again (at d s)
      else refused

  unfoldable pub push_element : (FastDecoder → Decoded) → Decoded → Decoded
  unfolding behind_element skip_space
  push_element again (done (v, d)) =
      behind_element again (skip_space d.rest) (record d { stack = v ∷ d.stack })
  push_element again refused = refused
  push_element again starved = starved

  -- The loop of array.
  unfoldable pub array_loop : ℕ → FastDecoder → Decoded
  unfolding push_element skip_space
  array_loop zero d = starved
  array_loop (suc fuel) d = push_element (array_loop fuel) (value depth (at d (skip_space d.rest)))

  unfoldable pub behind_member : (FastDecoder → Decoded) → Bytes → FastDecoder → Decoded
  unfolding close_object
  behind_member again [] d = refused
  behind_member again (c ∷ s) d =
      if c == b'}'
      then close_object base (at d s)
      else if c == b','
      then again (at d s)
      else refused

  unfoldable pub push_member : (FastDecoder → Decoded) → Bytes → Decoded → Decoded
  unfolding behind_member skip_space
  push_member again k (done (v, d)) =
      behind_member again (skip_space d.rest) (record d { stack = v ∷ d.stack; keys = k ∷ d.keys })
  push_member again k refused = refused
  push_member again k starved = starved

  -- From the colon behind a name on.
  unfoldable pub colon : (FastDecoder → Decoded) → Bytes → Bytes → FastDecoder → Decoded
  unfolding push_member skip_space
  colon again k [] d = refused
  colon again k (c ∷ s) d =
      if c == b':' then push_member again k (value depth (at d (skip_space s))) else refused

  unfoldable pub behind_name :
      (FastDecoder → Decoded) → FastDecoder → Scanned (Bytes × Bytes) → Decoded
  unfolding colon skip_space
  behind_name again d (done (k, s)) = colon again k (skip_space s) d
  behind_name again d refused = refused
  behind_name again d starved = starved

  unfoldable pub member : (FastDecoder → Decoded) → FastDecoder → Bytes → Decoded
  unfolding behind_name str
  member again d [] = refused
  member again d (c ∷ s) = if c == b'"' then behind_name again d (str s) else refused

  -- The loop of object.
  unfoldable pub object_loop : ℕ → FastDecoder → Decoded
  unfolding member skip_space
  object_loop zero d = starved
  object_loop (suc fuel) d = member (object_loop fuel) d (skip_space d.rest)

-- A container from behind its opening bracket: an empty one, or its loop.
unfoldable pub open_container :
    ℕ → Value → ℕ → (FastDecoder → Decoded) → Bytes → FastDecoder → Decoded
open_container close empty depth loop [] d =
    if ltb fast_decode_max_depth depth then refused else loop (at d [])
open_container close empty depth loop (c ∷ s) d =
    if ltb fast_decode_max_depth depth
    then refused
    else if c == close
    then done (empty, at d s)
    else loop (at d (c ∷ s))

unfoldable pub decode_literal : Value → FastDecoder → Option Bytes → Decoded
decode_literal v d none = refused
decode_literal v d (some s) = done (v, at d s)

unfoldable pub decode_text : (Bytes → Value) → FastDecoder → Scanned (Bytes × Bytes) → Decoded
decode_text f d (done (text, s)) = done (f text, at d s)
decode_text f d refused = refused
decode_text f d starved = starved

-- The switch of value, on the bytes from the position on.
unfoldable pub decode_kind : ValueDecoder → ℕ → ℕ → Bytes → FastDecoder → Decoded
unfolding open_container object_loop array_loop decode_literal decode_text skip_space scan_number
    cut_prefix str
decode_kind value fuel depth [] d = refused
decode_kind value fuel depth (c ∷ s) d =
    if c == b'{'
    then open_container b'}' (object end) (suc depth)
        (object_loop value (suc depth) (length d.stack) fuel) (skip_space s) d
    else if c == b'['
    then open_container b']' (array nil) (suc depth)
        (array_loop value (suc depth) (length d.stack) fuel) (skip_space s) d
    else if c == b'"'
    then decode_text string d (str s)
    else if c == b't'
    then decode_literal (boolean true) d (cut_prefix (c ∷ s) (codes "true"))
    else if c == b'f'
    then decode_literal (boolean false) d (cut_prefix (c ∷ s) (codes "false"))
    else if c == b'n'
    then decode_literal null d (cut_prefix (c ∷ s) (codes "null"))
    else if c == b'-' || is_ascii_digit c
    then decode_text (λ t. number (json_number t)) d (scan_number (c ∷ s))
    else refused

-- fastDecoder.value
unfoldable pub decode_value : ℕ → ValueDecoder
unfolding decode_kind
decode_value zero depth d = starved
decode_value (suc fuel) depth d =
    decode_kind (decode_value fuel) fuel depth d.rest (record d { count = suc d.count })

-- Nothing may follow the value.
unfoldable pub ended_by : Bytes → Value × ℕ → Scanned (Value × ℕ)
ended_by [] r = done r
ended_by (c ∷ s) r = refused

unfoldable pub whole : Decoded → Scanned (Value × ℕ)
unfolding skip_space ended_by
whole (done (v, d)) = ended_by (skip_space d.rest) (v, d.count)
whole refused = refused
whole starved = starved

-- decodeJSONFastCount
unfoldable pub decode_json_fast_count : Bytes → Scanned (Value × ℕ)
unfolding whole decode_value skip_space
decode_json_fast_count s = whole (
    decode_value (suc (length s)) 0
      (record { rest = skip_space s; stack = []; keys = []; count = 0 }))
