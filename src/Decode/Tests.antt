-- ===== src/Decode/Tests.antt =====
-- The decoder of fastjson.go on concrete documents.
use jsonschema.Prelude.{true, false, [], ◌∷◌, ◌≡◌, ◌≢◌, refl}
use jsonschema.Prelude.Bytes.{Bytes, codes}
use jsonschema.Value.{
  Value, null, boolean, number, string, array, object, json_number, nil, item, end, field,
}
use jsonschema.Decode.Scan.{done, refused, starved}
use jsonschema.Decode.Fast.{FastDecoder, decode_value, decode_json_fast_count}
use jsonschema.Decode.Kept.{values, sound, Kept}
use jsonschema.Decode.Counted.{decode_value-Kept, decode_json_fast_count-values}
use jsonschema.Decode.Fed.{decode_json_fast_count-ends}

abbrev document : Bytes
document = codes "{\"a\": [1.5e3, true, \"\\u00e9\"], \"b\" : {}}"

abbrev decoded_document : Value
decoded_document = object (
    field (codes "a")
      (array (
        item (number (json_number (codes "1.5e3")))
          (item (boolean true) (item (string (0xC3 ∷ 0xA9 ∷ [])) nil))))
      (field (codes "b") (object end) end))

document_decodes : decode_json_fast_count document ≡ done (decoded_document, 6)
unfolding decode_json_fast_count
document_decodes = refl

-- A repeated name, a number with a leading zero and a lone surrogate are left to encoding/json.
repeated_name : decode_json_fast_count (codes "{\"a\":1,\"a\":2}") ≡ refused
unfolding decode_json_fast_count
repeated_name = refl

leading_zero : decode_json_fast_count (codes "[01]") ≡ refused
unfolding decode_json_fast_count
leading_zero = refl

lone_surrogate : decode_json_fast_count (codes "\"\\ud800\"") ≡ refused
unfolding decode_json_fast_count
lone_surrogate = refl

decode_json_fast_count-values_example :
    (6 ≡ values decoded_document) × (sound 512 decoded_document ≡ true)
decode_json_fast_count-values_example =
    decode_json_fast_count-values document decoded_document 6 document_decodes

decode_json_fast_count-ends_example : decode_json_fast_count (codes "[[1, {") ≢ starved
decode_json_fast_count-ends_example = decode_json_fast_count-ends (codes "[[1, {")

abbrev inside_array : FastDecoder
inside_array = record {
  rest = codes "[true, null], 2]";
  stack = boolean false ∷ [];
  keys = codes "k" ∷ [];
  count = 2;
}

abbrev behind_element : FastDecoder
behind_element = record {
  rest = codes ", 2]";
  stack = boolean false ∷ [];
  keys = codes "k" ∷ [];
  count = 5;
}

element_decodes :
    decode_value 20 1 inside_array
    ≡ done (array (item (boolean true) (item null nil)), behind_element)
unfolding decode_value
element_decodes = refl

decode_value-Kept_example :
    Kept 511 inside_array (array (item (boolean true) (item null nil)), behind_element)
decode_value-Kept_example =
    decode_value-Kept 20 511 1 inside_array
      (array (item (boolean true) (item null nil)), behind_element) refl element_decodes
