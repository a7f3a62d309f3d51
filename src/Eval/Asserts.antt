-- ===== src/Eval/Asserts.antt =====
-- The assertions of eval_validation.go, and the annotation keywords of eval_annotation.go.
use jsonschema.Prelude.{
  ℕ, Bool, true, false, not, ◌&&◌, ◌||◌, List, [], ◌∷◌, ◌++◌, none, some, ltb, if◌then◌else◌,
}
use jsonschema.Prelude.Bytes.{Bytes, codes, itoa, has_key, lookup}
use jsonschema.Prelude.Utf8.{rune_count}
use jsonschema.Value.{Value, is_json_number, as_string}
use jsonschema.Num.Decimal.{Decimal}
use jsonschema.Num.Parse.{parse_number}
use jsonschema.Num.Compare.{Sign, less, same, more, cmp}
use jsonschema.Num.Divide.{Divisor, Divides, unchecked, panic, answer, divides}
use jsonschema.Eval.Types.{RunCtx, TypeName, raw}
use jsonschema.Eval.Equal.{canonical_equal, type_allowed}
use jsonschema.Eval.Report.{add_error, append_annotation, should_stop}
use jsonschema.Eval.Combine.{require_all, required_of}
use jsonschema.Eval.Objects.{Properties}

-- typeEval
unfoldable pub eval_type : Bytes → List TypeName → Bytes → Bool → Value → RunCtx → RunCtx
unfolding type_allowed add_error
eval_type loc allowed msg draft4 v c =
    if type_allowed draft4 v allowed then c else add_error loc (codes "type") msg c

unfoldable pub in_values : Value → List Value → Bool
unfolding canonical_equal
in_values v [] = false
in_values v (w ∷ ws) = if canonical_equal v w then true else in_values v ws

-- enumEval
unfoldable pub eval_enum : Bytes → List Value → Value → RunCtx → RunCtx
unfolding in_values add_error
eval_enum loc vals v c =
    if in_values v vals then c else add_error loc (codes "enum") (codes "value is not in enum") c

-- constEval
unfoldable pub eval_const : Bytes → Value → Value → RunCtx → RunCtx
unfolding canonical_equal add_error
eval_const loc val v c =
    if canonical_equal v val
    then c
    else add_error loc (codes "const") (codes "value does not match const") c

unfoldable pub multiple_verdict : Bytes → Bytes → Divides → RunCtx → RunCtx
multiple_verdict loc text unchecked c =
    add_error loc (codes "multipleOf") (codes "value cannot be checked as a multiple of " ++ text) c
multiple_verdict loc text panic c = record c { panicked = true }
multiple_verdict loc text (answer true) c = c
multiple_verdict loc text (answer false) c =
    add_error loc (codes "multipleOf") (codes "value is not a multiple of " ++ text) c

-- multipleOfEval
unfoldable pub eval_multiple_of : Bytes → Divisor → Bytes → Value → RunCtx → RunCtx
unfolding multiple_verdict is_json_number parse_number add_error divides
eval_multiple_of loc val text v c = if not (is_json_number v) then c else elim (parse_number v) [
  | none ↦ add_error loc (codes "multipleOf") (codes "value is not a valid number") c
  | some x ↦ multiple_verdict loc text (divides val x) c
]

-- Whether a comparison breaks a bound, and the text of the relation asked for.
unfoldable pub out_of_range : Bool → Bool → Sign → Bool
out_of_range true true less = false
out_of_range true true same = true
out_of_range true true more = true
out_of_range true false more = true
out_of_range true false _ = false
out_of_range false true more = false
out_of_range false true _ = true
out_of_range false false less = true
out_of_range false false _ = false

unfoldable pub relation : Bool → Bool → Bytes
relation true true = codes "value must be < "
relation true false = codes "value must be <= "
relation false true = codes "value must be > "
relation false false = codes "value must be >= "

-- rangeEval
unfoldable pub eval_range : Bytes → Bytes → Decimal → Bytes → Bool → Bool → Value → RunCtx → RunCtx
unfolding out_of_range relation is_json_number parse_number add_error cmp
eval_range loc kw val text exclusive upper v c =
    if not (is_json_number v) then c else elim (parse_number v) [
      | none ↦ add_error loc kw (codes "value is not a valid number") c
      | some x ↦ elim (cmp x val) [
        | none ↦ add_error loc kw (codes "value cannot be compared with " ++ text) c
        | some order ↦
            if out_of_range upper exclusive order
            then add_error loc kw (relation upper exclusive ++ text) c
            else c
      ]
    ]

unfoldable pub count_message : Bytes → ℕ → Bytes → Bytes → ℕ → Bytes
count_message what n verb kw bound = what ++ (itoa n ++ (verb ++ (kw ++ b' ' ∷ itoa bound)))

-- The two tests that lengthEval, itemsCountEval and propsCountEval share: an upper bound is
-- exceeded, a lower bound is not met.
unfoldable pub check_count : Bytes → Bytes → Bool → ℕ → Bytes → ℕ → RunCtx → RunCtx
unfolding count_message add_error
check_count loc kw upper bound what n c =
    if upper
    then (if ltb bound n
        then add_error loc kw (count_message what n (codes " exceeds ") kw bound) c
        else c)
    else (if ltb n bound
        then add_error loc kw (count_message what n (codes " is below ") kw bound) c
        else c)

-- lengthEval
unfoldable pub eval_length : Bytes → Bytes → Bool → ℕ → Value → RunCtx → RunCtx
unfolding check_count rune_count as_string
eval_length loc kw upper bound v c = elim (as_string v) [
  | none ↦ c
  | some s ↦ check_count loc kw upper bound (codes "string length ") (rune_count s) c
]

-- patternEval
unfoldable pub eval_pattern : Bytes → (Bytes → Bool) → Bytes → Value → RunCtx → RunCtx
unfolding as_string add_error
eval_pattern loc re src v c = elim (as_string v) [
  | none ↦ c
  | some s ↦
      if re s
      then c
      else add_error loc (codes "pattern")
          (codes "value does not match pattern " ++ c.library.quote src) c
]

-- Whether requiredEval passes over a key under the read-only and write-only options.
unfoldable pub directed_away : RunCtx → List Bytes → List Bytes → Bytes → Bool
unfolding has_key
directed_away c read_only_keys write_only_keys k =
    c.opts.write_only && has_key read_only_keys k || c.opts.read_only && has_key write_only_keys k

-- requiredEval
unfoldable pub eval_required :
    Bytes → List Bytes → List Bytes → List Bytes → Properties → RunCtx → RunCtx
unfolding directed_away lookup add_error should_stop
eval_required loc [] ro wo obj c = c
eval_required loc (k ∷ ks) ro wo obj c =
    let missing : RunCtx = elim (lookup obj k) [
      | none ↦
          add_error loc (codes "required") (codes "missing required property " ++ c.library.quote k)
            c
      | some _ ↦ c
    ] in
    let rest = eval_required loc ks ro wo obj (if directed_away c ro wo k then c else missing) in
    if should_stop c then c else rest

-- dependentRequiredEval
unfoldable pub eval_dependent_required :
    Bytes → List Bytes → List (Bytes × List Bytes) → Properties → RunCtx → RunCtx
unfolding require_all required_of lookup
eval_dependent_required loc [] deps obj c = c
eval_dependent_required loc (k ∷ ks) deps obj c =
    eval_dependent_required loc ks deps obj (elim (lookup obj k) [
      | none ↦ c
      | some _ ↦ require_all loc (codes "dependentRequired") k (required_of deps k) obj c
    ])

-- annotationEval
unfoldable pub eval_annotation : Bytes → Bytes → Value → Bool → Value → RunCtx → RunCtx
unfolding as_string append_annotation
eval_annotation loc kw value string_only v c =
    let logged = append_annotation loc kw (raw value) c in
    if string_only then elim (as_string v) [ none ↦ c | some _ ↦ logged ] else logged
