-- ===== src/Eval/Report.antt =====
-- Errors, their charge against the evaluation budget, and annotations (eval.go).
use jsonschema.Prelude.{
  ℕ, ◌+◌, ◌-◌, Bool, true, false, not, ◌&&◌, ◌||◌, List, [], ◌∷◌, ◌++◌, Option, none, some, length,
  leb, ltb, ◌==◌, if◌then◌else◌,
}
use jsonschema.Prelude.Bytes.{Bytes, codes, has_key}
use jsonschema.Eval.Types.{
  Library, Subschema, RunCtx, RefFrame, Cause, max_key_count, ErrorFields, ValidationError,
  validation_error, Causes, no_causes, to_causes, charge, AnnotationValue, AnnotationEntry,
}
use jsonschema.Eval.Paths.{instance_pointer, keyword_path, anchor_path, path_rest}

-- absoluteKeywordLocation, past the checks of absoluteKeywordLocationParts.
unfoldable pub absolute_below : Library → Subschema → Bytes → Bytes
absolute_below lib sub rest = elim sub.abs_prefix [
  | [] ↦ sub.abs_uri ++ b'#' ∷ lib.escape_fragment (sub.abs_ptr ++ rest)
  | c ∷ p ↦ (c ∷ p) ++ lib.escape_fragment rest
]

unfoldable pub absolute_in : Library → Subschema → Bytes → Bytes
absolute_in lib sub loc = elim sub.abs_uri [
  | [] ↦ []
  | _ ∷ _ ↦ elim (path_rest loc sub.location) [
    | none ↦ []
    | some rest ↦ absolute_below lib sub rest
  ]
]

unfoldable pub absolute_keyword_location : Library → Option Subschema → Bytes → Bytes
absolute_keyword_location lib none loc = []
absolute_keyword_location lib (some sub) loc = absolute_in lib sub loc

-- The fields of an error at the current instance and schema location.
unfoldable pub error_at : RunCtx → Bytes → Bytes → Bytes → Option Cause → ErrorFields
error_at c loc keyword message cause = record {
  keyword_location = keyword_path c.ref_path loc;
  absolute_keyword_location = absolute_keyword_location c.library c.cur loc;
  instance_location = instance_pointer c.instance_path;
  keyword = keyword;
  message = message;
  cause = cause;
}

unfoldable pub over_limit : Option ℕ → ℕ → Bool
over_limit none n = false
over_limit (some limit) n = ltb limit n

-- chargeErrors
unfoldable pub charge_errors : ℕ → RunCtx → RunCtx
unfolding over_limit
charge_errors cost c = record c {
  err_cost = c.err_cost + cost;
  evals = c.evals + cost;
  over_budget = c.over_budget || over_limit c.eval_limit (c.evals + cost);
}

-- refundErrors
unfoldable pub refund_errors : ℕ → RunCtx → RunCtx
refund_errors cost c = record c { err_cost = c.err_cost - cost; evals = c.evals - cost }

-- The test that drops an error: a cap is set and as many errors are held.
unfoldable pub at_error_cap : RunCtx → Bool
at_error_cap c = ltb 0 c.opts.max_errors && leb c.opts.max_errors (length c.errors)

-- Appending one error: the charge, and the stop flag.
unfoldable pub append_error : ErrorFields → Causes → RunCtx → RunCtx
unfolding charge_errors
append_error e causes c =
    let held = record c { errors = c.errors ++ validation_error e causes ∷ [] } in
    let charged = charge_errors (charge e) held in
    record charged { stop_fired = c.stop_fired || c.opts.stop_on_first_error }

unfoldable pub count_failure : RunCtx → RunCtx
count_failure c = record c { fail_count = c.fail_count + 1 }

-- addErrorWithCause; addError is the same with no cause.
unfoldable pub add_error_with_cause : Bytes → Bytes → Bytes → Option Cause → RunCtx → RunCtx
unfolding at_error_cap append_error count_failure
add_error_with_cause loc keyword message cause c =
    if at_error_cap c
    then count_failure c
    else append_error (error_at c loc keyword message cause) no_causes (count_failure c)

-- addError
unfoldable pub add_error : Bytes → Bytes → Bytes → RunCtx → RunCtx
unfolding add_error_with_cause
add_error loc keyword message c = add_error_with_cause loc keyword message none c

-- addCausesError
unfoldable pub add_causes_error : Bytes → Bytes → Bytes → List ValidationError → ℕ → RunCtx → RunCtx
unfolding at_error_cap append_error count_failure refund_errors
add_causes_error loc keyword message causes causes_cost c =
    if at_error_cap c
    then refund_errors causes_cost (count_failure c)
    else append_error (error_at c loc keyword message none) (to_causes causes) (count_failure c)

-- shouldStop
unfoldable pub should_stop : RunCtx → Bool
should_stop c =
    if c.over_budget
    then true
    else c.opts.stop_on_first_error && (c.stop_fired || not (length c.errors == 0))

-- checkMaxKeyCount, on an object of `size` keys: whether the caller proceeds, and the context.
unfoldable pub check_max_key_count : ℕ → Bytes → RunCtx → Bool × RunCtx
unfolding add_error_with_cause has_key
check_max_key_count size loc c =
    let here = instance_pointer c.instance_path in
    if c.opts.max_key_count == 0 || leb size c.opts.max_key_count
    then (true, c)
    else if has_key c.key_count_fired here
    then (false, c)
    else (
      false,
      add_error_with_cause loc (codes "$maxKeyCount") (codes "jsonschema: max key count exceeded")
          (some max_key_count) (record c { key_count_fired = here ∷ c.key_count_fired }),
    )

-- The evaluation path of an annotation, as appendAnnotationEntry stores it.
unfoldable pub path_cut_of : List RefFrame → Bytes → Bytes × ℕ
path_cut_of [] loc = ([], 0)
path_cut_of (f ∷ outer) loc = elim (path_rest loc f.root) [
  | none ↦ ([], 0)
  | some _ ↦ (anchor_path f outer, length f.root)
]

-- appendAnnotationEntry, and addAnnotation, which tests the same flag first.
unfoldable pub append_annotation : Bytes → Bytes → AnnotationValue → RunCtx → RunCtx
unfolding path_cut_of
append_annotation loc keyword value c =
    let (prefix, cut) = path_cut_of c.ref_path loc in
    let entry : AnnotationEntry = record {
      keyword_location = loc;
      instance_location = instance_pointer c.instance_path;
      keyword = keyword;
      value = value;
      path_prefix = prefix;
      path_cut = cut;
    } in
    if c.public then record c { anno_entries = c.anno_entries ++ entry ∷ [] } else c
