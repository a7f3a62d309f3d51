-- ===== src/Output/Flat.antt =====
-- The flat output of output.go, up to its encoding as JSON, and the nodes of the nested output.
use jsonschema.Prelude.{
  ℕ, Bool, true, false, ◌&&◌, List, [], ◌∷◌, ◌++◌, Option, none, some, ◌==◌, if◌then◌else◌,
}
use jsonschema.Prelude.Bytes.{Bytes, codes, itoa, sort_strings}
use jsonschema.Value.{Value, boolean, number, string, array, integer, Items, nil, item}
use jsonschema.Eval.Types.{
  ErrorFields, ValidationError, validation_error, Causes, no_causes, cause_of,
}

-- The value of an annotation: a JSON value, or one of the types of evaluatedKeys, evaluatedItems and
-- evaluatedItemsAll.
pub data AnnotationAny : Type 0 where
  json_value : Value → AnnotationAny
  evaluated_key_set : List Bytes → AnnotationAny
  evaluated_up_to : ℕ → AnnotationAny
  evaluated_all : AnnotationAny

-- Annotation, but its keyword, which no output shows.
pub record Annotation : Type 0 where
  pub keyword_location : Bytes
  pub absolute_keyword_location : Bytes
  pub instance_location : Bytes
  pub value : AnnotationAny

-- Result
pub record Result : Type 0 where
  pub valid : Bool
  pub errors : List ValidationError
  pub annotations : List Annotation

-- The fields of outputNode but its children; the annotation is none where hasAnnotation is false.
pub record NodeFields : Type 0 where
  pub valid : Bool
  pub keyword_location : Bytes
  pub absolute_keyword_location : Bytes
  pub instance_location : Bytes
  pub error_text : Bytes
  pub annotation : Option Value

-- outputNode with its errors and its annotations.
mutual
  pub data OutputNode : Type 0 where
    output_node : NodeFields → Nodes → Nodes → OutputNode

  pub data Nodes : Type 0 where
    no_nodes : Nodes
    node_of : OutputNode → Nodes → Nodes

unfoldable pub strings : List Bytes → Items
strings [] = nil
strings (s ∷ ss) = item (string s) (strings ss)

-- sanitizeAnnotation
unfoldable pub sanitize_annotation : AnnotationAny → Value
unfolding strings sort_strings itoa
sanitize_annotation (json_value v) = v
sanitize_annotation (evaluated_key_set ks) = array (strings (sort_strings ks))
sanitize_annotation (evaluated_up_to n) = number (integer (itoa n))
sanitize_annotation evaluated_all = boolean true

-- normalizeKeywordLocation
unfoldable pub normalize_keyword_location : Bytes → Bytes
normalize_keyword_location [] = []
normalize_keyword_location (c ∷ []) = if c == b'#' then [] else c ∷ []
normalize_keyword_location (c ∷ d ∷ s) = if c == b'#' && d == b'/' then d ∷ s else c ∷ d ∷ s

unfoldable pub keyword_message : Bytes → Bytes
keyword_message [] = codes "validation failed"
keyword_message (c ∷ s) = (c ∷ s) ++ codes " validation failed"

-- errorMessage
unfoldable pub error_message : ErrorFields → Bytes
unfolding keyword_message
error_message e = elim e.message [ [] ↦ keyword_message e.keyword | c ∷ s ↦ c ∷ s ]

-- flatBasicEntry of an error.
unfoldable pub flat_entry : ErrorFields → NodeFields
unfolding normalize_keyword_location error_message
flat_entry e = record {
  valid = false;
  keyword_location = normalize_keyword_location e.keyword_location;
  absolute_keyword_location = e.absolute_keyword_location;
  instance_location = e.instance_location;
  error_text = error_message e;
  annotation = none;
}

unfoldable pub flat_annotation : Annotation → NodeFields
unfolding normalize_keyword_location sanitize_annotation
flat_annotation a = record {
  valid = true;
  keyword_location = normalize_keyword_location a.keyword_location;
  absolute_keyword_location = a.absolute_keyword_location;
  instance_location = a.instance_location;
  error_text = [];
  annotation = some (sanitize_annotation a.value);
}

-- appendFlatErrorEntries: the entries that an error adds.
unfoldable mutual
  unfolding flat_entry

  pub flat_entries : ValidationError → List NodeFields
  flat_entries (validation_error e causes) = flat_entry e ∷ flat_cause_entries causes

  pub flat_cause_entries : Causes → List NodeFields
  flat_cause_entries no_causes = []
  flat_cause_entries (cause_of e causes) = flat_entries e ++ flat_cause_entries causes

unfoldable pub flat_error_entries : List ValidationError → List NodeFields
unfolding flat_entries
flat_error_entries [] = []
flat_error_entries (e ∷ es) = flat_entries e ++ flat_error_entries es

unfoldable pub flat_annotations : List Annotation → List NodeFields
unfolding flat_annotation
flat_annotations [] = []
flat_annotations (a ∷ as') = flat_annotation a ∷ flat_annotations as'

abbrev pub header_entry : NodeFields
header_entry = record {
  valid = false;
  keyword_location = [];
  absolute_keyword_location = [];
  instance_location = [];
  error_text = codes "validation failed";
  annotation = none;
}

-- renderBasic: the list under "errors", or under "annotations".
unfoldable pub render_basic : Result → List NodeFields
unfolding flat_error_entries flat_annotations
render_basic r =
    if r.valid then flat_annotations r.annotations else header_entry ∷ flat_error_entries r.errors
