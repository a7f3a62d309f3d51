-- ===== src/Refs/Pointer.antt =====
-- jsonPointer and resolveFragment of ref.go.
use jsonschema.Prelude.{
  not, List, [], ◌∷◌, Option, none, some, ◌⊎◌, inl, inr, if◌then◌else◌, get_elem?, ◌==◌,
}
use jsonschema.Prelude.Bytes.{Bytes, lookup, split_on}
use jsonschema.Prelude.Int.{ℤ, pos, negsuc}
use jsonschema.Prelude.Atoi.{atoi}
use jsonschema.Value.{Value, array, object, items, entries}
use jsonschema.Eval.Paths.{unescape_pointer_token}

-- The errors, with what their texts quote.
pub data PointerError : Type 0 where
  invalid_json_pointer : Bytes → PointerError
  pointer_token_missing : Bytes → PointerError
  pointer_invalid_array_index : Bytes → PointerError
  pointer_index_out_of_range : ℤ → PointerError
  pointer_cannot_descend : Bytes → PointerError
  anchor_not_found : Bytes → Bytes → PointerError
  invalid_fragment : Bytes → PointerError

-- The element of an array that a token names.
unfoldable pub element : List Value → Bytes → Option ℤ → PointerError ⊎ Value
element vs token none = inl (pointer_invalid_array_index token)
element vs token (some (negsuc n)) = inl (pointer_index_out_of_range (negsuc n))
element vs token (some (pos i)) = elim (get_elem? vs i) [
  | none ↦ inl (pointer_index_out_of_range (pos i))
  | some v ↦ inr v
]

-- One round of the loop of jsonPointer.
unfoldable pub descend : Value → Bytes → PointerError ⊎ Value
unfolding lookup entries items atoi element
descend (object fs) token = elim (lookup (entries fs) token) [
  | none ↦ inl (pointer_token_missing token)
  | some v ↦ inr v
]
descend (array vs) token = element (items vs) token (atoi token)
descend v token = inl (pointer_cannot_descend token)

unfoldable pub pointer_loop : Value → List Bytes → PointerError ⊎ Value
unfolding descend unescape_pointer_token
pointer_loop cur [] = inr cur
pointer_loop cur (raw ∷ rest) = elim (descend cur (unescape_pointer_token raw)) [
  | inl e ↦ inl e
  | inr next ↦ pointer_loop next rest
]

unfoldable pub json_pointer : Value → Bytes → PointerError ⊎ Value
unfolding pointer_loop split_on
json_pointer root [] = inr root
json_pointer root (c ∷ []) = if c == b'/' then inr root else inl (invalid_json_pointer (c ∷ []))
json_pointer root (c ∷ d ∷ s) =
    if c == b'/'
    then pointer_loop root (split_on b'/' (d ∷ s))
    else inl (invalid_json_pointer (c ∷ d ∷ s))

-- A resource of a schema document: its root, and the subschemas that its anchors name.
pub record Resource : Type 0 where
  pub root : Value
  pub anchors : List (Bytes × Value)
  pub dynamic_anchors : List (Bytes × Value)
  pub base_uri : Bytes

-- The anchor of a name: a plain one comes first.
unfoldable pub anchored : Resource → Bytes → PointerError ⊎ Value
unfolding lookup
anchored res name = elim (lookup res.anchors name) [
  | some v ↦ inr v
  | none ↦ elim (lookup res.dynamic_anchors name) [
    | some v ↦ inr v
    | none ↦ inl (anchor_not_found name res.base_uri)
  ]
]

-- What url.PathUnescape makes of a text, the text itself where it fails.
unfoldable pub unescaped : (Bytes → Option Bytes) → Bytes → Bytes
unescaped path_unescape s = elim (path_unescape s) [ none ↦ s | some t ↦ t ]

-- resolveFragment, with url.PathUnescape.
unfoldable pub resolve_fragment : (Bytes → Option Bytes) → Resource → Bytes → PointerError ⊎ Value
unfolding json_pointer anchored unescaped
resolve_fragment path_unescape res [] = inr res.root
resolve_fragment path_unescape res (c ∷ []) =
    if c == b'#' then inr res.root else inl (invalid_fragment (c ∷ []))
resolve_fragment path_unescape res (c ∷ d ∷ s) =
    if not (c == b'#')
    then inl (invalid_fragment (c ∷ d ∷ s))
    else if d == b'/'
    then json_pointer res.root (unescaped path_unescape (d ∷ s))
    else anchored res (unescaped path_unescape (d ∷ s))
