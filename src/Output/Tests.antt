-- ===== src/Output/Tests.antt =====
-- The outputs of a failed result: an error of anyOf with two causes, and an annotation.
use jsonschema.Prelude.{◌+◌, true, false, [], ◌∷◌, ◌≡◌, none, refl, length, arith}
use jsonschema.Prelude.Bytes.{Bytes, codes}
use jsonschema.Value.{boolean}
use jsonschema.Eval.Types.{ErrorFields, validation_error, no_causes, cause_of}
use jsonschema.Output.Flat.{Result, json_value, render_basic}
use jsonschema.Output.Tree.{is_valid, propagate_validity, build_output_tree}
use jsonschema.Output.Leaves.{all_reported, error_nodes, build_output_tree-errors}
use jsonschema.Output.Validity.{build_output_tree-invalid}

abbrev fields : Bytes → Bytes → ErrorFields
fields location message = record {
  keyword_location = location;
  absolute_keyword_location = [];
  instance_location = codes "/a";
  keyword = codes "type";
  message = message;
  cause = none;
}

abbrev failed : Result
failed = record {
  valid = false;
  errors =
      validation_error (fields (codes "#/properties/a/anyOf") (codes "no branch")) (
        cause_of (validation_error (fields (codes "#/properties/a/anyOf/0/type") []) no_causes) (
          cause_of (validation_error (fields (codes "#/properties/a/anyOf/1/type") []) no_causes)
            no_causes))
      ∷ [];
  annotations =
      record {
        keyword_location = codes "#/properties/b/readOnly";
        absolute_keyword_location = [];
        instance_location = codes "/b";
        value = json_value (boolean true);
      }
      ∷ [];
}

build_output_tree-errors_example :
    (error_nodes (build_output_tree failed) ≡ all_reported failed.errors)
    × (failed.valid ≡ false → length (render_basic failed) ≡ 1 + all_reported failed.errors)
build_output_tree-errors_example = build_output_tree-errors failed

three_errors : error_nodes (build_output_tree failed) ≡ 3
unfolding build_output_tree error_nodes
three_errors = refl

build_output_tree-invalid_example : is_valid (propagate_validity (build_output_tree failed)) ≡ false
unfolding all_reported
build_output_tree-invalid_example = build_output_tree-invalid failed (omega arith)
