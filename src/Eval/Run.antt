-- ===== src/Eval/Run.antt =====
-- The walk: the dispatch over the evaluators, `run`, and a whole validation (eval.go, validate.go).
use jsonschema.Prelude.{
  ℕ, zero, suc, ◌+◌, ◌-◌, ◌*◌, min, max, Bool, true, false, not, ◌&&◌, List, [], ◌∷◌, Option, none,
  some, length, ltb, ◌==◌, if◌then◌else◌,
}
use mathlib.Core.List.{tail}
use jsonschema.Prelude.Bytes.{codes}
use jsonschema.Value.{Value, as_array, as_object}
use jsonschema.Eval.Types
use jsonschema.Eval.Types.{
  Evaluator, Library, RunOptions, Subschema, Schema, RunCtx, ValidationError, AnnotationEntry,
  Budget, default_budget, unlimited, at_most, max_validation_depth,
}
use jsonschema.Eval.Report.{add_error, add_error_with_cause, over_limit, should_stop}
use jsonschema.Eval.Walk.{Runner, evaluate}
use jsonschema.Eval.Combine.{
  eval_all_of, eval_any_of, eval_one_of, eval_not, eval_if, eval_dependent_schemas,
  eval_dependencies, eval_ref,
}
use jsonschema.Eval.Objects.{
  Properties, eval_properties, eval_pattern_properties, eval_additional_properties,
  eval_property_names, eval_unevaluated_properties,
}
use jsonschema.Eval.Arrays.{
  eval_prefix_items, eval_items_from, eval_additional_items, eval_contains, eval_unevaluated_items,
}
use jsonschema.Eval.Unique.{eval_unique_items}
use jsonschema.Eval.Asserts.{
  eval_type, eval_enum, eval_const, eval_multiple_of, eval_range, eval_length, eval_pattern,
  check_count, eval_required, eval_dependent_required, eval_annotation,
}

-- A keyword that applies to arrays, or to objects, does nothing at another value.
unfoldable pub on_array : Value → (List Value → RunCtx → RunCtx) → RunCtx → RunCtx
on_array v f c = elim (as_array v) [ none ↦ c | some arr ↦ f arr c ]

unfoldable pub on_object : Value → (Properties → RunCtx → RunCtx) → RunCtx → RunCtx
on_object v f c = elim (as_object v) [ none ↦ c | some obj ↦ f obj c ]

-- The method `eval` of each evaluator.
unfoldable pub eval_keyword : Runner → Evaluator → Value → RunCtx → RunCtx
unfolding on_array on_object as_array as_object
eval_keyword next (Types.all_of loc subs) v = eval_all_of next subs v
eval_keyword next (Types.any_of loc subs) v = eval_any_of next loc subs v
eval_keyword next (Types.one_of loc subs) v = eval_one_of next loc subs v
eval_keyword next (Types.not_eval loc sub) v = eval_not next loc sub v
eval_keyword next (Types.if_then_else i t e) v = eval_if next i t e v
eval_keyword next (Types.dependent_schemas keys deps) v =
    on_object v (λ obj. eval_dependent_schemas next keys deps obj v)
eval_keyword next (Types.dependencies loc keys schemas reqs) v =
    on_object v (λ obj. eval_dependencies next loc keys schemas reqs obj v)
eval_keyword next (Types.properties loc keys subs) v =
    on_object v (eval_properties next loc keys subs)
eval_keyword next (Types.pattern_properties loc ps) v =
    on_object v (eval_pattern_properties next loc ps)
eval_keyword next (Types.additional_properties loc sub named ps) v =
    on_object v (eval_additional_properties next loc sub named ps)
eval_keyword next (Types.property_names loc sub) v = on_object v (eval_property_names next loc sub)
eval_keyword next (Types.prefix_items loc subs) v =
    on_array v (eval_prefix_items next (codes "prefixItems") loc subs)
eval_keyword next (Types.items_prefix loc subs) v =
    on_array v (eval_prefix_items next (codes "items") loc subs)
eval_keyword next (Types.items_from loc sub start) v =
    on_array v (eval_items_from next (codes "items") loc sub start)
eval_keyword next (Types.additional_items loc sub start) v =
    on_array v (eval_additional_items next loc sub start)
eval_keyword next (Types.contains loc sub lo hi) v = on_array v (eval_contains next loc sub lo hi)
eval_keyword next (Types.unevaluated_items loc sub) v =
    on_array v (eval_unevaluated_items next loc sub)
eval_keyword next (Types.unevaluated_properties loc sub) v =
    on_object v (eval_unevaluated_properties next loc sub)
eval_keyword next (Types.ref loc source to) v = eval_ref next loc source to v
eval_keyword next (Types.string_length loc kw upper bound) v = eval_length loc kw upper bound v
eval_keyword next (Types.pattern loc re src) v = eval_pattern loc re src v
eval_keyword next (Types.items_count loc kw upper bound) v =
    on_array v (λ arr. check_count loc kw upper bound (codes "array length ") (length arr))
eval_keyword next (Types.props_count loc kw upper bound) v =
    on_object v (λ obj. check_count loc kw upper bound (codes "property count ") (length obj))
eval_keyword next (Types.required loc keys ro wo) v =
    on_object v (λ obj. eval_required loc keys ro wo obj)
eval_keyword next (Types.dependent_required loc keys deps) v =
    on_object v (λ obj. eval_dependent_required loc keys deps obj)
eval_keyword next (Types.type_eval loc allowed msg draft4) v = eval_type loc allowed msg draft4 v
eval_keyword next (Types.enum_eval loc vals) v = eval_enum loc vals v
eval_keyword next (Types.const_eval loc val) v = eval_const loc val v
eval_keyword next (Types.multiple_of loc val text) v = eval_multiple_of loc val text v
eval_keyword next (Types.range loc kw val text exclusive upper) v =
    eval_range loc kw val text exclusive upper v
eval_keyword next (Types.unique_items loc on) v = on_array v (eval_unique_items loc on)
eval_keyword next (Types.annotation loc kw value string_only) v =
    eval_annotation loc kw value string_only v

-- The loop over the evaluators of a subschema.
unfoldable pub walk : Runner → List Evaluator → Value → RunCtx → RunCtx
unfolding should_stop
walk next [] v c = c
walk next (ev ∷ evs) v c =
    let rest = walk next evs v (eval_keyword next ev v c) in if should_stop c then c else rest

-- The guard on the depth, and the walk one level deeper.
unfoldable pub run_deeper : Runner → Subschema → Value → RunCtx → RunCtx
unfolding walk add_error_with_cause
run_deeper next sub v c =
    let walked =
      walk next sub.evaluators v (record c { validation_depth = c.validation_depth + 1 }) in
    if ltb c.opts.max_validation_depth c.validation_depth
    then add_error_with_cause sub.location (codes "$maxValidationDepth")
        (codes "jsonschema: max validation depth exceeded") (some max_validation_depth) c
    else record walked { validation_depth = walked.validation_depth - 1 }

-- `crossesResource && resourceURI != ""`
unfoldable pub crosses : Subschema → Bool
crosses sub = sub.crosses_resource && not (length sub.resource_uri == 0)

-- A schema that is no boolean: the dynamic scope around the walk.
unfoldable pub run_object : Runner → Subschema → Value → RunCtx → RunCtx
unfolding run_deeper crosses
run_object next sub v c =
    let inside =
      run_deeper next sub v (record c { dynamic_scope = sub.resource_uri ∷ c.dynamic_scope }) in
    let popped = record inside { dynamic_scope = tail inside.dynamic_scope } in
    if crosses sub then popped else run_deeper next sub v c

-- A subschema, boolean or not.
unfoldable pub run_kind : Runner → Subschema → Value → RunCtx → RunCtx
unfolding run_object add_error
run_kind next sub v c = elim sub.bool_value [
  | none ↦ run_object next sub v c
  | some true ↦ c
  | some false ↦ add_error sub.location (codes "false") (codes "schema is false; nothing matches") c
]

-- With `cur` set, and `needScope` raised where the subschema reads its scope; both are put back.
unfoldable pub run_inside : Runner → Subschema → Value → RunCtx → RunCtx
unfolding run_kind
run_inside next sub v c =
    let raised = sub.reads_scope && not c.need_scope in
    let after =
      run_kind next sub v
        (record c { cur = some sub; need_scope = if raised then true else c.need_scope }) in
    record after { cur = c.cur; need_scope = if raised then false else after.need_scope }

-- The body of `run` at a subschema: the budget, then the subschema.
unfoldable pub run_at : Runner → Subschema → Value → RunCtx → RunCtx
unfolding run_inside over_limit
run_at next sub v c =
    let counted = record c { evals = c.evals + 1 } in
    if c.over_budget
    then c
    else if over_limit c.eval_limit (c.evals + 1)
    then record counted { over_budget = true }
    else run_inside next sub v counted

-- run: the first argument bounds the depth of the recursion.
unfoldable pub run : ℕ → Runner
unfolding run_at
run zero sub v c = record c { exhausted = true }
run (suc f) none v c = c
run (suc f) (some sub) v c = run_at (run f) (c.schema.deref sub) v c

abbrev max_int : ℕ
max_int = 0x7FFFFFFFFFFFFFFF

-- evalsForCount, at a count of values that is known.
unfoldable pub evals_for_count : Schema → ℕ → ℕ
evals_for_count s count =
    let per = max 100 s.subschemas in
    let n = min count 0x4000000 in
    if ltb (Prim.Native.Nat.◌/◌ max_int per) n then max_int else n * per

unfoldable pub or_compiled : Budget → Budget → Budget
or_compiled default_budget b = b
or_compiled unlimited b = unlimited
or_compiled (at_most n) b = at_most n

unfoldable pub limit_of : Budget → ℕ → Option ℕ
limit_of default_budget n = some (max 1_000_000 n)
limit_of unlimited n = none
limit_of (at_most limit) n = some limit

-- setEvalLimitCount
unfoldable pub eval_limit_for : RunOptions → Schema → ℕ → Option ℕ
unfolding or_compiled limit_of evals_for_count
eval_limit_for ro s count =
    limit_of (or_compiled ro.max_evaluations s.max_evaluations) (evals_for_count s count)

-- newRunCtx, with the limit set.
unfoldable pub new_run_ctx : Library → Schema → RunOptions → ℕ → RunCtx
unfolding eval_limit_for
new_run_ctx lib s ro count = record {
  library = lib;
  schema = s;
  opts = ro;
  cur = none;
  ref_path = [];
  instance_path = [];
  dynamic_scope = if length s.root_uri == 0 then [] else s.root_uri ∷ [];
  errors = [];
  fail_count = 0;
  scope = none;
  need_scope = false;
  public = ro.collect_annotations && not ro.stop_on_first_error;
  anno_entries = [];
  ref_depth = 0;
  validation_depth = 0;
  stop_fired = false;
  key_count_fired = [];
  evals = 0;
  eval_limit = eval_limit_for ro s count;
  over_budget = false;
  err_cost = 0;
  exhausted = false;
  panicked = false;
}

-- The recursion bound for a depth limit: each level of `run` but the last raises the depth.
unfoldable pub depth_bound : RunOptions → ℕ
depth_bound ro = ro.max_validation_depth + 3

-- The result of a validation: the errors and the annotation log, or the budget error.
pub data Outcome : Type 0 where
  over_evaluations crash out_of_fuel : Outcome
  result : Bool → List ValidationError → List AnnotationEntry → Outcome

unfoldable pub outcome : RunCtx → Outcome
outcome c =
    if c.exhausted
    then out_of_fuel
    else if c.panicked
    then crash
    else if c.over_budget
    then over_evaluations
    else result (length c.errors == 0) c.errors c.anno_entries

-- validateWithOptions, for an instance of `count` values.
unfoldable pub validate : Library → Schema → RunOptions → Value → ℕ → Outcome
unfolding outcome new_run_ctx evaluate run depth_bound
validate lib s ro v count =
    let c = new_run_ctx lib s ro count in
    outcome (elim s.root [ none ↦ c | some root ↦ evaluate (run (depth_bound ro)) (some root) v c ])
