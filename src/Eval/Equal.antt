-- ===== src/Eval/Equal.antt =====
-- canonicalEqual and matchesType of eval_validation.go.
use jsonschema.Prelude.{
  Bool, true, false, ◌&&◌, List, [], ◌∷◌, Option, none, some, length, ◌==◌, if◌then◌else◌,
}
use jsonschema.Prelude.Bytes.{Bytes, codes, str_eq, contains_any, lookup}
use jsonschema.Value.{
  Value, Number, Items, Fields, null, boolean, number, string, array, object, opaque, nil, item,
  end, field, json_number, integer, float, infinity, entries, is_json_number,
}
use jsonschema.Num.Decimal.{Decimal, is_integer}
use jsonschema.Num.Parse.{parse_number}
use jsonschema.Num.Compare.{equal}
use jsonschema.Eval.Types.{
  TypeName, null_type, boolean_type, string_type, array_type, object_type, number_type,
  integer_type,
}

bool_eq : Bool → Bool → Bool
bool_eq true b = b
bool_eq false true = false
bool_eq false false = true

-- reflect.DeepEqual on two numbers: one Go type and one value.
same_number : Number → Number → Bool
unfolding bool_eq
same_number (json_number s) (json_number t) = str_eq s t
same_number (integer s) (integer t) = str_eq s t
same_number (float s) (float t) = str_eq s t
same_number (infinity a) (infinity b) = bool_eq a b
same_number _ _ = false

-- The two numbers as decimals, where both parse.
compare_parsed : Option Decimal → Option Decimal → Bool → Bool
compare_parsed (some a) (some b) other = equal a b
compare_parsed _ _ other = other

unfoldable mutual
  unfolding compare_parsed same_number bool_eq

  pub canonical_equal : Value → Value → Bool
  canonical_equal (number m) (number n) =
      compare_parsed (parse_number (number m)) (parse_number (number n)) (same_number m n)
  canonical_equal null null = true
  canonical_equal (boolean a) (boolean b) = bool_eq a b
  canonical_equal (string s) (string t) = str_eq s t
  canonical_equal (array vs) (array ws) = items_equal vs ws
  canonical_equal (object fs) (object gs) =
      length (entries fs) == length (entries gs) && fields_in fs (entries gs)
  canonical_equal (opaque a) (opaque b) = a == b
  canonical_equal _ _ = false

  pub items_equal : Items → Items → Bool
  items_equal nil nil = true
  items_equal (item v vs) (item w ws) = canonical_equal v w && items_equal vs ws
  items_equal _ _ = false

  pub fields_in : Fields → List (Bytes × Value) → Bool
  fields_in end m = true
  fields_in (field k v fs) m =
      let same : Bool = elim (lookup m k) [ none ↦ false | some w ↦ canonical_equal v w ] in
      same && fields_in fs m

-- isJSONInteger
unfoldable pub is_json_integer : Value → Bool
is_json_integer v = elim (parse_number v) [ none ↦ false | some d ↦ is_integer d ]

has_fraction_text : Value → Bool
has_fraction_text (number (json_number s)) = contains_any s (codes ".eE")
has_fraction_text _ = false

-- isDraft4Integer
unfoldable pub is_draft4_integer : Value → Bool
unfolding is_json_integer has_fraction_text
is_draft4_integer v = if has_fraction_text v then false else is_json_integer v

-- matchesType
unfoldable pub matches_type : Value → TypeName → Bool
unfolding is_json_integer is_json_number
matches_type null null_type = true
matches_type (boolean b) boolean_type = true
matches_type (string s) string_type = true
matches_type (array vs) array_type = true
matches_type (object fs) object_type = true
matches_type v number_type = is_json_number v
matches_type v integer_type = is_json_integer v
matches_type v _ = false

-- The loop of typeEval: whether one of the allowed types accepts the value.
unfoldable pub type_allowed : Bool → Value → List TypeName → Bool
unfolding matches_type is_draft4_integer
type_allowed draft4 v [] = false
type_allowed true v (integer_type ∷ ts) =
    if is_draft4_integer v then true else type_allowed true v ts
type_allowed draft4 v (t ∷ ts) = if matches_type v t then true else type_allowed draft4 v ts
