-- ===== src/Value.antt =====
-- The Go values that an instance holds (validate.go, eval_validation.go): the shapes that
-- encoding/json decodes into an `any`, the number types, and any other type.
use jsonschema.Prelude.{ℕ, Bool, true, false, List, [], ◌∷◌, Option, none, some}
use jsonschema.Prelude.Bytes.{Bytes}

-- A value of a number type, by what `parseNumber` reads of it: the text of a json.Number, the
-- text that strconv prints for an integer, a *big.Int or a finite float, or a float with no digits.
pub data Number : Type 0 where
  json_number : Bytes → Number
  integer : Bytes → Number
  float : Bytes → Number
  not_a_number : Number
  infinity : Bool → Number

-- `opaque` is a value of a Go type outside the JSON shapes, by a number that stands for what
-- reflect.DeepEqual compares; a nil *big.Int is one. The keys of an object are distinct.
mutual
  pub data Value : Type 0 where
    null : Value
    boolean : Bool → Value
    number : Number → Value
    string : Bytes → Value
    array : Items → Value
    object : Fields → Value
    opaque : ℕ → Value

  pub data Items : Type 0 where
    nil : Items
    item : Value → Items → Items

  pub data Fields : Type 0 where
    end : Fields
    field : Bytes → Value → Fields → Fields

unfoldable pub items : Items → List Value
items nil = []
items (item v vs) = v ∷ items vs

unfoldable pub entries : Fields → List (Bytes × Value)
entries end = []
entries (field k v fs) = (k, v) ∷ entries fs

-- The type switches `v.([]any)`, `v.(map[string]any)` and `v.(string)`.
unfoldable pub as_array : Value → Option (List Value)
unfolding items
as_array (array vs) = some (items vs)
as_array _ = none

unfoldable pub as_object : Value → Option (List (Bytes × Value))
unfolding entries
as_object (object fs) = some (entries fs)
as_object _ = none

unfoldable pub as_string : Value → Option Bytes
as_string (string s) = some s
as_string _ = none

-- isJSONNumber
unfoldable pub is_json_number : Value → Bool
is_json_number (number n) = true
is_json_number _ = false
