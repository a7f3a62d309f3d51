-- ===== src/Eval/Negation.antt =====
-- The verdict of `not` (eval_applicator.go) against in-place evaluation of its subschema.
use jsonschema.Prelude.{
  ℕ, ◌+◌, ◌≡◌, ◌≢◌, ◌↔◌, refl, Bool, true, false, [], none, some, arith, if_cases, if◌then◌else◌,
}
use jsonschema.Prelude.Bytes.{Bytes, codes}
use jsonschema.Value.{Value}
use jsonschema.Eval.Types.{SubId, RunCtx}
use jsonschema.Eval.Report.{
  at_error_cap, append_error, charge_errors, count_failure, add_error, add_error_with_cause,
  refund_errors,
}
use jsonschema.Eval.Walk.{Branch, evaluate_branch}
use jsonschema.Eval.Combine.{passes, eval_not}
use jsonschema.Eval.Run.{run}
use jsonschema.Eval.Guarantees.{branch_verdict}

-- An error is counted, kept or dropped.
add_error-fail_count :
    (loc keyword message : Bytes) (c : RunCtx)
    → (add_error loc keyword message c).fail_count ≡ c.fail_count + 1
unfolding add_error add_error_with_cause append_error count_failure charge_errors
add_error-fail_count loc keyword message c =
    if_cases (λ (d : RunCtx). d.fail_count ≡ c.fail_count + 1) (at_error_cap c) (λ _. refl)
      (λ _. refl)

-- `not` leaves the failure count alone exactly where a run of its subschema, from empty buffers,
-- raises it; so it reports exactly the instances that its subschema accepts, also once the cap on
-- errors drops every error.
pub eval_not-verdict :
    (fuel : ℕ) (loc : Bytes) (sub : SubId) (v : Value) (c : RunCtx)
    → ((eval_not (run fuel) loc sub v c).fail_count ≡ c.fail_count) ↔ (
        (run fuel (some sub) v (record c {
          errors = [];
          anno_entries = [];
          scope = none;
          stop_fired = false;
        })).fail_count
        ≢ c.fail_count)
unfolding eval_not evaluate_branch refund_errors
eval_not-verdict fuel loc sub v c = at (passes b.errs) refl
  where
    b : Branch
    b = evaluate_branch (run fuel) (some sub) v c

    refunded : RunCtx
    refunded = refund_errors b.cost b.after

    inner : RunCtx
    inner =
        run fuel (some sub) v
          (record c { errors = []; anno_entries = []; scope = none; stop_fired = false })

    at :
        (passed : Bool)
        → passes b.errs ≡ passed
        → ((if passed
              then add_error loc (codes "not") (codes "value matched 'not' subschema") refunded
              else refunded).fail_count
            ≡ c.fail_count)
          ↔ (inner.fail_count ≢ c.fail_count)
    at true p = (
      λ h. absurd (
          omega (
            arith,
            h,
            add_error-fail_count loc (codes "not") (codes "value matched 'not' subschema") refunded,
          )),
      λ differs. absurd (differs ((branch_verdict fuel (some sub) v c).0 p)),
    )
    at false p = (λ _ same. cc ((branch_verdict fuel (some sub) v c).1 same), λ _. refl)
