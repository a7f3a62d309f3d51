-- ===== src/Eval/Tests.antt =====
-- The guarantees of the walk applied at one schema, `anyOf` of a string, a reference to a `not` and
-- an array of integers, and at instances that fail and pass it.
use jsonschema.Prelude.{
  ◌≢◌, ◌⊎◌, ◌==◌, ◌+◌, ◌*◌, ◌≤◌, ◌<◌, ◌≡◌, ◌↔◌, refl, Bool, true, false, List, [], ◌∷◌, ◌++◌,
  Option, none, some, length, get_elem?, arith,
}
use jsonschema.Prelude.Bytes.{Bytes, codes}
use jsonschema.Value.{Value, null, boolean, number, array, item, nil, json_number}
use jsonschema.Eval.Types
use jsonschema.Eval.Types.{
  Library, RunOptions, at_most, default_budget, Schema, Subschema, SubId, Evaluator, RunCtx,
  ValidationError, AnnotationEntry, target, string_type, integer_type,
}
use jsonschema.Eval.Walk.{evaluate_branch}
use jsonschema.Eval.Combine.{passes}
use jsonschema.Eval.Run.{
  run, Outcome, result, over_evaluations, crash, validate, new_run_ctx, eval_limit_for,
}
use jsonschema.Eval.Ledger.{total, frame}
use jsonschema.Prelude.Bytes.{is_ascii}
use jsonschema.Eval.Escapes.{unescape_pointer_token-escape_pointer_token}
use jsonschema.Eval.Paths.{escape_pointer_token, unescape_pointer_token}
use jsonschema.Eval.Negation.{eval_not-verdict}
use jsonschema.Eval.Guarantees.{
  run-frame, run-charges, run-fail_count, run-max_errors, branch_verdict, validate-within_budget,
  validate-max_errors, validate-returns, run-terminates,
}
use jsonschema.Eval.Run.{
  outcome, run_at, run_inside, run_kind, run_object, run_deeper, walk, crosses, eval_keyword,
  on_array, on_object, or_compiled, limit_of, evals_for_count, depth_bound,
}
use jsonschema.Eval.Combine.{eval_any_of, any_of_loop, eval_not, eval_ref, follow, settle_pass}
use jsonschema.Eval.Arrays.{eval_items_from, each_item}
use jsonschema.Eval.Walk.{
  evaluate, evaluate_ref, adopt_passing, evaluate_item, evaluate_at, push_instance, pop_instance,
  add_branch_annotations,
}
use jsonschema.Eval.Report.{
  should_stop, refund_errors, add_causes_error, add_error, add_error_with_cause, append_error,
  count_failure, at_error_cap, charge_errors, over_limit, error_at, absolute_keyword_location,
  absolute_in, absolute_below,
}
use jsonschema.Eval.Types.{charge, to_causes}
use jsonschema.Eval.Paths.{instance_pointer, step_token, keyword_path, anchor_path, path_rest}
use jsonschema.Eval.Equal.{type_allowed}
use jsonschema.Eval.Asserts.{eval_type}
use jsonschema.Value.{as_array, items}
use jsonschema.Prelude.Bytes.{itoa}
use jsonschema.Num.Decimal.{is_integer}
use jsonschema.Num.Parse.{parse_number}

abbrev library : Library
library = record { escape_fragment = λ s. s; quote = λ s. b'"' ∷ (s ++ b'"' ∷ []) }

abbrev subschema : Bytes → List Evaluator → Subschema
subschema location evaluators = record {
  bool_value = none;
  location = location;
  resource_uri = [];
  crosses_resource = false;
  abs_uri = [];
  abs_ptr = [];
  abs_prefix = [];
  evaluators = evaluators;
  reads_scope = false;
}

abbrev table : List Subschema
table =
    subschema [] (Types.any_of (codes "/anyOf") (1 ∷ 2 ∷ 4 ∷ []) ∷ [])
    ∷ subschema (codes "/anyOf/0")
        (Types.type_eval (codes "/anyOf/0/type") (string_type ∷ []) (codes "no string") false ∷ [])
    ∷ subschema (codes "/anyOf/1")
        (Types.ref (codes "/anyOf/1/$ref") (codes "#/$defs/a") (target 3) ∷ [])
    ∷ subschema (codes "/$defs/a") (Types.not_eval (codes "/$defs/a/not") 5 ∷ [])
    ∷ subschema (codes "/anyOf/2") (Types.items_from (codes "/anyOf/2/items") 6 0 ∷ [])
    ∷ subschema (codes "/$defs/a/not") []
    ∷ subschema (codes "/anyOf/2/items") (
        Types.type_eval (codes "/anyOf/2/items/type") (integer_type ∷ []) (codes "no integer") false
        ∷ [])
    ∷ []

abbrev subschemas : SubId → Subschema
subschemas i = elim (get_elem? table i) [ none ↦ subschema [] [] | some s ↦ s ]

abbrev schema : Schema
schema = record {
  deref = subschemas;
  root = some 0;
  root_uri = [];
  subschemas = 7;
  max_evaluations = default_budget;
  max_ref_depth = 10;
}

abbrev options : RunOptions
options = record {
  stop_on_first_error = false;
  max_validation_depth = 6;
  max_key_count = 0;
  max_errors = 2;
  read_only = false;
  write_only = false;
  collect_annotations = true;
  max_evaluations = at_most 1000;
}

-- An array whose items are no integers, and one that passes.
abbrev bad_items : Value
bad_items = array (item null (item (boolean true) (item null nil)))

abbrev good_items : Value
good_items = array (item (number (json_number (codes "3"))) nil)

abbrev start : RunCtx
start = new_run_ctx library schema options 4

abbrev errors_of : Outcome → List ValidationError
errors_of (result valid errs annos) = errs
errors_of _ = []

abbrev valid_of : Outcome → Option Bool
valid_of (result valid errs annos) = some valid
valid_of _ = none

abbrev annotations_of : Outcome → List AnnotationEntry
annotations_of (result valid errs annos) = annos
annotations_of _ = []

result_of :
    (o : Outcome) (valid : Bool)
    → valid_of o ≡ some valid
    → o ≡ result valid (errors_of o) (annotations_of o)
result_of (result v errs annos) valid h = ground arith
result_of _ valid h = ground arith

bad_items_fail : valid_of (validate library schema options bad_items 4) ≡ some false
unfolding validate outcome run run_at run_inside run_kind run_object run_deeper walk should_stop
    crosses eval_keyword on_array on_object eval_any_of any_of_loop eval_not eval_ref follow
    eval_items_from each_item evaluate evaluate_ref evaluate_branch adopt_passing evaluate_item
    evaluate_at push_instance pop_instance settle_pass passes refund_errors add_causes_error
    add_error add_error_with_cause append_error count_failure at_error_cap charge_errors charge
    over_limit error_at absolute_keyword_location absolute_in absolute_below instance_pointer
    step_token keyword_path anchor_path path_rest type_allowed eval_type to_causes new_run_ctx
    eval_limit_for or_compiled limit_of evals_for_count depth_bound add_branch_annotations as_array
    items itoa parse_number is_integer
bad_items_fail = refl

one_error : length (errors_of (validate library schema options bad_items 4)) ≡ 1
unfolding validate outcome run run_at run_inside run_kind run_object run_deeper walk should_stop
    crosses eval_keyword on_array on_object eval_any_of any_of_loop eval_not eval_ref follow
    eval_items_from each_item evaluate evaluate_ref evaluate_branch adopt_passing evaluate_item
    evaluate_at push_instance pop_instance settle_pass passes refund_errors add_causes_error
    add_error add_error_with_cause append_error count_failure at_error_cap charge_errors charge
    over_limit error_at absolute_keyword_location absolute_in absolute_below instance_pointer
    step_token keyword_path anchor_path path_rest type_allowed eval_type to_causes new_run_ctx
    eval_limit_for or_compiled limit_of evals_for_count depth_bound add_branch_annotations as_array
    items itoa parse_number is_integer
one_error = refl

good_items_pass : valid_of (validate library schema options good_items 2) ≡ some true
unfolding validate outcome run run_at run_inside run_kind run_object run_deeper walk should_stop
    crosses eval_keyword on_array on_object eval_any_of any_of_loop eval_not eval_ref follow
    eval_items_from each_item evaluate evaluate_ref evaluate_branch adopt_passing evaluate_item
    evaluate_at push_instance pop_instance settle_pass passes refund_errors add_causes_error
    add_error add_error_with_cause append_error count_failure at_error_cap charge_errors charge
    over_limit error_at absolute_keyword_location absolute_in absolute_below instance_pointer
    step_token keyword_path anchor_path path_rest type_allowed eval_type to_causes new_run_ctx
    eval_limit_for or_compiled limit_of evals_for_count depth_bound add_branch_annotations as_array
    items itoa parse_number is_integer
good_items_pass = refl

run-frame_example : frame (run 8 (some 0) bad_items start) ≡ frame start
run-frame_example = run-frame 8 (some 0) bad_items start

run-charges_example :
    (reported : List ValidationError) × ((run 8 (some 0) bad_items start).errors
      ≡ start.errors ++ reported)
    × ((run 8 (some 0) bad_items start).err_cost ≡ start.err_cost + total reported)
run-charges_example = run-charges 8 (some 0) bad_items start

run-fail_count_example :
    (0 ≤ (run 8 (some 0) bad_items start).fail_count)
    × ((run 8 (some 0) bad_items start).fail_count ≡ 0
        → (run 8 (some 0) bad_items start).errors ≡ [])
    × (0 < (run 8 (some 0) bad_items start).fail_count
        → 0 < length (run 8 (some 0) bad_items start).errors)
unfolding new_run_ctx
run-fail_count_example = run-fail_count 8 (some 0) bad_items start

run-max_errors_example : length (run 8 (some 0) bad_items start).errors ≤ 2
unfolding new_run_ctx
run-max_errors_example = run-max_errors 8 (some 0) bad_items start (omega arith) (omega arith)

branch_verdict_example : (passes (evaluate_branch (run 8) (some 4) bad_items start).errs ≡ true) ↔ (
    (run 8 (some 4) bad_items (record start {
      errors = [];
      anno_entries = [];
      scope = none;
      stop_fired = false;
    })).fail_count
    ≡ start.fail_count)
branch_verdict_example = branch_verdict 8 (some 4) bad_items start

abbrev found : List ValidationError
found = errors_of (validate library schema options bad_items 4)

validate-within_budget_example : (total found ≤ 1000) × (4 * length found ≤ 1000)
unfolding or_compiled
validate-within_budget_example =
    validate-within_budget library schema options bad_items 4 (result_of _ false bad_items_fail)
      refl

validate-max_errors_example : length found ≤ 2
validate-max_errors_example =
    validate-max_errors library schema options bad_items 4 (result_of _ false bad_items_fail)
      (omega arith)

run-terminates_example : (run 8 (some 0) bad_items start).exhausted ≡ false
unfolding new_run_ctx
run-terminates_example = run-terminates 8 (some 0) bad_items start (omega arith) (omega arith) refl

validate-returns_example :
    (validate library schema options bad_items 4 ≡ over_evaluations)
    ⊎ (validate library schema options bad_items 4 ≡ crash)
    ⊎ ((errs : List ValidationError) × (annos : List AnnotationEntry) × (validate library schema
            options bad_items 4
          ≡ result (length errs == 0) errs annos))
validate-returns_example = validate-returns library schema options bad_items 4

abbrev path_key : Bytes
path_key = codes "a/b~1c~/"

unescape_pointer_token-escape_pointer_token_example :
    unescape_pointer_token (escape_pointer_token path_key) ≡ path_key
unfolding is_ascii
unescape_pointer_token-escape_pointer_token_example =
    unescape_pointer_token-escape_pointer_token path_key refl

-- Beyond ASCII the second byte of a character is dropped, once the key has a slash.
accent_is_cut : escape_pointer_token (0xC3 ∷ 0xA9 ∷ codes "/") ≡ 0xC3 ∷ codes "~1"
unfolding escape_pointer_token
accent_is_cut = refl

eval_not-verdict_example :
    ((eval_not (run 8) (codes "/not") 4 bad_items start).fail_count ≡ start.fail_count) ↔ (
      (run 8 (some 4) bad_items (record start {
        errors = [];
        anno_entries = [];
        scope = none;
        stop_fired = false;
      })).fail_count
      ≢ start.fail_count)
eval_not-verdict_example = eval_not-verdict 8 (codes "/not") 4 bad_items start
