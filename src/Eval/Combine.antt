-- ===== src/Eval/Combine.antt =====
-- The in-place applicators of eval_applicator.go: allOf, anyOf, oneOf, not, if/then/else,
-- dependentSchemas, dependencies and $ref (eval_ref.go).
use jsonschema.Prelude.{
  ℕ, ◌+◌, ◌-◌, Bool, true, false, not, ◌&&◌, List, [], ◌∷◌, ◌++◌, Option, none, some, ltb,
  if◌then◌else◌,
}
use jsonschema.Prelude.Bytes.{Bytes, codes, itoa, lookup}
use jsonschema.Value.{Value}
use jsonschema.Eval.Types.{
  SubId, RunCtx, ValidationError, RefTarget, failed, no_target, no_subschema, target, max_ref_depth,
  unresolved,
}
use jsonschema.Eval.Report.{add_error, add_error_with_cause, add_causes_error, refund_errors}
use jsonschema.Eval.Walk.{
  Runner, evaluate, evaluate_ref, BranchAnnotations, Branch, evaluate_branch,
  add_branch_annotations,
}

-- allOfEval
unfoldable pub eval_all_of : Runner → List SubId → Value → RunCtx → RunCtx
unfolding evaluate
eval_all_of next [] v c = c
eval_all_of next (sub ∷ subs) v c = eval_all_of next subs v (evaluate next (some sub) v c)

-- `len(errs) == 0`
unfoldable pub passes : List ValidationError → Bool
passes [] = true
passes (e ∷ es) = false

-- A branch that passes: its errors, and on the first such branch the causes held, are refunded.
unfoldable pub settle_pass : Bool → ℕ → Branch → RunCtx
unfolding refund_errors add_branch_annotations
settle_pass passed causes_cost b =
    let refunded = refund_errors b.cost b.after in
    add_branch_annotations b.annos (if passed then refunded else refund_errors causes_cost refunded)

-- The loop of anyOfEval: whether a branch has passed, the causes held and their charge.
unfoldable pub any_of_loop :
    Runner → Bytes → List SubId → Value → Bool → List ValidationError → ℕ → RunCtx → RunCtx
unfolding evaluate_branch passes settle_pass refund_errors add_causes_error
any_of_loop next loc [] v passed causes cost c =
    if passed
    then c
    else add_causes_error loc (codes "anyOf") (codes "no anyOf branch matched") causes cost c
any_of_loop next loc (sub ∷ subs) v passed causes cost c =
    let b = evaluate_branch next (some sub) v c in
    let settled = settle_pass passed cost b in
    let on_pass = any_of_loop next loc subs v true [] 0 settled in
    let on_late = any_of_loop next loc subs v true causes cost (refund_errors b.cost b.after) in
    let on_fail = any_of_loop next loc subs v false (causes ++ b.errs) (cost + b.cost) b.after in
    if passes b.errs
    then (if not c.need_scope && not c.public then settled else on_pass)
    else if passed
    then on_late
    else on_fail

-- anyOfEval
unfoldable pub eval_any_of : Runner → Bytes → List SubId → Value → RunCtx → RunCtx
unfolding any_of_loop
eval_any_of next loc subs v c = any_of_loop next loc subs v false [] 0 c

unfoldable pub one_of_message : ℕ → ℕ → Bytes
one_of_message i j =
    codes "oneOf matched more than one branch (indices "
    ++ (itoa i ++ (codes " and " ++ (itoa j ++ codes "); expected exactly one")))

-- The loop of oneOfEval, at index `i`: the passing branch so far with its annotations, and the
-- causes held.
unfoldable pub one_of_loop :
    Runner
    → Bytes
    → ℕ
    → List SubId
    → Value
    → Option (ℕ × BranchAnnotations)
    → List ValidationError
    → ℕ
    → RunCtx
    → RunCtx
unfolding evaluate_branch passes refund_errors add_causes_error add_error one_of_message
one_of_loop next loc i [] v none causes cost c =
    add_causes_error loc (codes "oneOf") (codes "no oneOf branch matched") causes cost c
one_of_loop next loc i [] v (some (j, annos)) causes cost c = add_branch_annotations annos c
one_of_loop next loc i (sub ∷ subs) v none causes cost c =
    let b = evaluate_branch next (some sub) v c in
    let on_pass =
      one_of_loop next loc (i + 1) subs v (some (i, b.annos)) [] 0
        (refund_errors cost (refund_errors b.cost b.after)) in
    let on_fail =
      one_of_loop next loc (i + 1) subs v none (causes ++ b.errs) (cost + b.cost) b.after in
    if passes b.errs then on_pass else on_fail
one_of_loop next loc i (sub ∷ subs) v (some (j, annos)) causes cost c =
    let b = evaluate_branch next (some sub) v c in
    let on_fail =
      one_of_loop next loc (i + 1) subs v (some (j, annos)) causes cost
        (refund_errors b.cost b.after) in
    if passes b.errs
    then add_error loc (codes "oneOf") (one_of_message j i) (refund_errors b.cost b.after)
    else on_fail

-- oneOfEval
unfoldable pub eval_one_of : Runner → Bytes → List SubId → Value → RunCtx → RunCtx
unfolding one_of_loop
eval_one_of next loc subs v c = one_of_loop next loc 0 subs v none [] 0 c

-- notEval
unfoldable pub eval_not : Runner → Bytes → SubId → Value → RunCtx → RunCtx
unfolding evaluate_branch refund_errors add_error passes
eval_not next loc sub v c =
    let b = evaluate_branch next (some sub) v c in
    let refunded = refund_errors b.cost b.after in
    if passes b.errs
    then add_error loc (codes "not") (codes "value matched 'not' subschema") refunded
    else refunded

unfoldable pub evaluate_optional : Runner → Option SubId → Value → RunCtx → RunCtx
evaluate_optional next none v c = c
evaluate_optional next (some sub) v c = evaluate next (some sub) v c

-- ifThenElseEval
unfoldable pub eval_if : Runner → SubId → Option SubId → Option SubId → Value → RunCtx → RunCtx
unfolding evaluate_branch refund_errors passes add_branch_annotations evaluate_optional
eval_if next if_sub then_sub else_sub v c =
    let b = evaluate_branch next (some if_sub) v c in
    let refunded = refund_errors b.cost b.after in
    if passes b.errs
    then evaluate_optional next then_sub v (add_branch_annotations b.annos refunded)
    else evaluate_optional next else_sub v refunded

-- dependentSchemasEval, on the properties of an object.
unfoldable pub eval_dependent_schemas :
    Runner → List Bytes → List (Bytes × SubId) → List (Bytes × Value) → Value → RunCtx → RunCtx
unfolding evaluate lookup
eval_dependent_schemas next [] deps obj v c = c
eval_dependent_schemas next (k ∷ ks) deps obj v c =
    eval_dependent_schemas next ks deps obj v
      (elim (lookup obj k) [ none ↦ c | some _ ↦ evaluate next (lookup deps k) v c ])

unfoldable pub requires_message : RunCtx → Bytes → Bytes → Bytes
requires_message c k r =
    codes "property " ++ (c.library.quote k ++ (codes " requires " ++ c.library.quote r))

-- The loop over the properties that `k` requires.
unfoldable pub require_all :
    Bytes → Bytes → Bytes → List Bytes → List (Bytes × Value) → RunCtx → RunCtx
unfolding lookup add_error requires_message
require_all loc keyword k [] obj c = c
require_all loc keyword k (r ∷ rs) obj c =
    require_all loc keyword k rs obj
      (elim (lookup obj r) [ none ↦ add_error loc keyword (requires_message c k r) c | some _ ↦ c ])

-- A missing key of a Go map of lists reads as an empty list.
unfoldable pub required_of : List (Bytes × List Bytes) → Bytes → List Bytes
unfolding lookup
required_of m k = elim (lookup m k) [ none ↦ [] | some rs ↦ rs ]

unfoldable pub dependency :
    Runner
    → Bytes
    → Bytes
    → Option SubId
    → List Bytes
    → List (Bytes × Value)
    → Value
    → RunCtx
    → RunCtx
dependency next loc k (some sub) rs obj v c = evaluate next (some sub) v c
dependency next loc k none rs obj v c = require_all loc (codes "dependencies") k rs obj c

-- dependenciesEval
unfoldable pub eval_dependencies :
    Runner
    → Bytes
    → List Bytes
    → List (Bytes × SubId)
    → List (Bytes × List Bytes)
    → List (Bytes × Value)
    → Value
    → RunCtx
    → RunCtx
unfolding dependency lookup required_of
eval_dependencies next loc [] schemas reqs obj v c = c
eval_dependencies next loc (k ∷ ks) schemas reqs obj v c =
    eval_dependencies next loc ks schemas reqs obj v (elim (lookup obj k) [
      | none ↦ c
      | some _ ↦ dependency next loc k (lookup schemas k) (required_of reqs k) obj v c
    ])

-- refEval past the depth limit.
unfoldable pub follow : Runner → Bytes → Bytes → RefTarget → Value → RunCtx → RunCtx
follow next loc source (failed text) v c =
    add_error_with_cause loc (codes "$ref") text (some (unresolved text)) c
follow next loc source no_target v c =
    add_error loc (codes "$ref") (codes "cannot resolve " ++ c.library.quote source) c
follow next loc source no_subschema v c =
    add_error loc (codes "$ref") (codes "cannot build subschema for " ++ c.library.quote source) c
follow next loc source (target sub) v c = evaluate_ref next loc sub v c

-- enterRef and refEval
unfoldable pub eval_ref : Runner → Bytes → Bytes → RefTarget → Value → RunCtx → RunCtx
unfolding follow add_error_with_cause add_error evaluate_ref
eval_ref next loc source to v c =
    let entered = record c { ref_depth = c.ref_depth + 1 } in
    let after =
      (if ltb c.schema.max_ref_depth (c.ref_depth + 1)
        then add_error_with_cause loc (codes "$ref") (codes "jsonschema: max ref depth exceeded")
            (some max_ref_depth) entered
        else follow next loc source to v entered) in
    record after { ref_depth = after.ref_depth - 1 }
