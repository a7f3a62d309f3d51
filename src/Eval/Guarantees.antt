-- ===== src/Eval/Guarantees.antt =====
-- What `run` (eval.go) and `validateWithOptions` (validate.go) guarantee for every schema, every
-- instance and every context, stated from the ledger.
use jsonschema.Prelude.{
  ℕ, ◌+◌, ◌*◌, ◌≤◌, ◌<◌, ◌≡◌, ◌↔◌, ◌⊎◌, inl, inr, refl, sym, ap, ◌∙◌, Bool, true, false, List, [],
  ◌∷◌, ◌++◌, Option, none, some, length, arith, ltb, ◌==◌, Bool-cases, if◌then◌else◌,
}
use native.Mathlib.Decide.{dec_lt}
use jsonschema.Value.{Value}
use jsonschema.Eval.Types.{
  Library, RunOptions, Schema, SubId, RunCtx, ValidationError, validation_error, AnnotationEntry,
  charge, at_most,
}
use jsonschema.Eval.Report.{over_limit}
use jsonschema.Eval.Walk.{evaluate, evaluate_branch}
use jsonschema.Eval.Combine.{passes}
use jsonschema.Eval.Run.{
  run, result, over_evaluations, crash, outcome, validate, new_run_ctx, eval_limit_for, or_compiled,
  limit_of, evals_for_count, depth_bound,
}
use jsonschema.Eval.Ledger.{total, total_error, Frame, frame, Extends}
use jsonschema.Eval.Ledger.Steps.{Extends-refl}
use jsonschema.Eval.Ledger.Walks.{evaluate-Extends}
use jsonschema.Eval.Ledger.Whole.{run-IsExtending}

module _ (fuel : ℕ) (sub : Option SubId) (v : Value) (c : RunCtx) where
  ran : Extends fuel c (run fuel sub v c)
  ran = (run-IsExtending fuel).extends sub v c

  -- A run puts back the current subschema, the reference path, the instance path, the dynamic
  -- scope, the needScope flag, the reference depth and the validation depth, on every path through
  -- every keyword.
  pub run-frame : frame (run fuel sub v c) ≡ frame c
  run-frame = ran.framed

  -- A run only appends errors, and raises errCost by exactly what the appended errors hold, the
  -- causes inside compound errors included: every charge of a dropped error has been refunded.
  pub run-charges :
      (reported : List ValidationError) × ((run fuel sub v c).errors ≡ c.errors ++ reported)
      × ((run fuel sub v c).err_cost ≡ c.err_cost + total reported)
  run-charges = (ran.reported, ran.appended, ran.cost)

  -- The failure count never falls; where it stays the same the errors stay the same, and where it
  -- grows some error is held, even if the cap on errors dropped the new ones.
  pub run-fail_count :
      (c.fail_count ≤ (run fuel sub v c).fail_count)
      × ((run fuel sub v c).fail_count ≡ c.fail_count → (run fuel sub v c).errors ≡ c.errors)
      × (c.fail_count < (run fuel sub v c).fail_count → 0 < length (run fuel sub v c).errors)
  run-fail_count = (
    ran.fails,
    λ e.
        ran.appended
        ∙ (ap (λ es. c.errors ++ es) (ran.silent e) ∙ jsonschema.Prelude.append-nil c.errors),
    ran.heard,
  )

  -- With a cap on errors, a run from at most that many errors ends with at most that many.
  pub run-max_errors :
      0 < c.opts.max_errors
      → length c.errors ≤ c.opts.max_errors
      → length (run fuel sub v c).errors ≤ c.opts.max_errors
  run-max_errors = ran.capped

  -- A run on some fuel, at least two more than the levels that the depth limit leaves, from a context
  -- that is not exhausted, does not run out of it, for any schema, cyclic or not.
  pub run-terminates :
      0 < fuel
      → c.opts.max_validation_depth + 2 ≤ fuel + c.validation_depth
      → c.exhausted ≡ false
      → (run fuel sub v c).exhausted ≡ false
  run-terminates deep enough fresh =
      (ran.budget.calm (record { deep = deep; enough = enough; unexhausted = fresh })).unexhausted

passes_iff_silent :
    (es : List ValidationError) (m n : ℕ)
    → m ≤ n
    → (n ≡ m → es ≡ [])
    → (m < n → 0 < length es)
    → (passes es ≡ true) ↔ (n ≡ m)
unfolding passes
passes_iff_silent [] m n le silent heard = (
  λ _. elim (dec_lt m n) [
    | yes more ↦ omega (arith, heard more)
    | no same ↦ omega (arith, same, le)
  ],
  λ _. refl,
)
passes_iff_silent (e ∷ es) m n le silent heard = (λ h. cc, λ h. cc (silent h))

-- A branch passes, by the test that anyOf, oneOf, not, if and contains make on its errors, exactly
-- when its run, from empty buffers, leaves the failure count alone, which is the test of in-place
-- evaluation. So the cap on errors cannot make the two verdicts differ.
pub branch_verdict :
    (fuel : ℕ) (sub : Option SubId) (v : Value) (c : RunCtx)
    → (passes (evaluate_branch (run fuel) sub v c).errs ≡ true) ↔ (
        (run fuel sub v (record c {
          errors = [];
          anno_entries = [];
          scope = none;
          stop_fired = false;
        })).fail_count
        ≡ c.fail_count)
unfolding evaluate_branch
branch_verdict fuel sub v c =
    let e =
      (run-IsExtending fuel).extends sub v
        (record c { errors = []; anno_entries = []; scope = none; stop_fired = false }) in
    passes_iff_silent _ c.fail_count _ e.fails (λ same. e.appended ∙ e.silent same) e.heard

result-cases :
    (c : RunCtx) {valid : Bool} {errs : List ValidationError} {annos : List AnnotationEntry}
    → outcome c ≡ result valid errs annos
    → (c.over_budget ≡ false) × (c.errors ≡ errs)
unfolding outcome
result-cases c h = ground arith

four : (e : ValidationError) → 4 ≤ total_error e
unfolding total_error charge
four (validation_error e cs) = omega arith

returned :
    (c : RunCtx)
    → c.exhausted ≡ false
    → (outcome c ≡ over_evaluations)
      ⊎ (outcome c ≡ crash)
      ⊎ ((errs : List ValidationError) × (annos : List AnnotationEntry) × (outcome c
            ≡ result (length errs == 0) errs annos))
unfolding outcome
returned c fresh = elim (Bool-cases c.panicked) [
  | inl p ↦ inr (inl (ground arith))
  | inr p ↦ elim (Bool-cases c.over_budget) [
    | inl o ↦ inl (ground arith)
    | inr o ↦ inr (inr (c.errors, c.anno_entries, ground arith))
  ]
]

at_least_four : (es : List ValidationError) → 4 * length es ≤ total es
unfolding total
at_least_four [] = omega arith
at_least_four (e ∷ es) = omega (arith, at_least_four es, four e)

within_limit : (o : Option ℕ) (n limit : ℕ) → o ≡ some limit → over_limit o n ≡ false → n ≤ limit
unfolding over_limit
within_limit none n limit e h = ground arith
within_limit (some m) n limit e h = ground arith

nothing_spent : (o : Option ℕ) → over_limit o 0 ≡ false
unfolding over_limit
nothing_spent none = refl
nothing_spent (some m) = ground arith

module _ (lib : Library) (s : Schema) (ro : RunOptions) (v : Value) (count : ℕ) where
  -- The context that the result is read from.
  final : RunCtx
  final = elim s.root [
    | none ↦ new_run_ctx lib s ro count
    | some root ↦ evaluate (run (depth_bound ro)) (some root) v (new_run_ctx lib s ro count)
  ]

  final-Extends : Extends (depth_bound ro) (new_run_ctx lib s ro count) final
  unfolding final
  final-Extends = at s.root
    where
      at :
          (o : Option SubId)
          → Extends (depth_bound ro) (new_run_ctx lib s ro count) (elim o [
            | none ↦ new_run_ctx lib s ro count
            | some root ↦ evaluate (run (depth_bound ro)) (some root) v (new_run_ctx lib s ro count)
          ])
      at none = Extends-refl _
      at (some root) = evaluate-Extends (run-IsExtending (depth_bound ro)) (some root) v _

  -- A validation that ends with a result, under a limit on evaluations that the options of the run
  -- or else of the schema set, holds errors whose charges come to at most that limit, at four or
  -- more an error: for a schema of the modelled keywords the limit bounds the errors, however it
  -- branches.
  pub validate-within_budget :
      {valid : Bool} {errs : List ValidationError} {annos : List AnnotationEntry} {limit : ℕ}
      → validate lib s ro v count ≡ result valid errs annos
      → or_compiled ro.max_evaluations s.max_evaluations ≡ at_most limit
      → (total errs ≤ limit) × (4 * length errs ≤ limit)
  unfolding validate final new_run_ctx eval_limit_for limit_of
  validate-within_budget {errs} {limit} h l =
      let (fresh, same) = result-cases final h in
      let kept =
        within_limit final.eval_limit final.evals limit
          (ap (λ (f : Frame). f.eval_limit) final-Extends.framed
            ∙ ap (λ b. limit_of b (evals_for_count s count)) l)
          (final-Extends.budget.within (λ _. nothing_spent (eval_limit_for ro s count)) fresh) in
      let costs = ap total final-Extends.appended in
      omega (
        arith,
        kept,
        final-Extends.budget.counted,
        final-Extends.cost,
        costs,
        ap total same,
        at_least_four errs,
      )

  -- With a cap on errors a result holds at most that many.
  pub validate-max_errors :
      {valid : Bool} {errs : List ValidationError} {annos : List AnnotationEntry}
      → validate lib s ro v count ≡ result valid errs annos
      → 0 < ro.max_errors
      → length errs ≤ ro.max_errors
  unfolding validate final new_run_ctx
  validate-max_errors {errs} h pos =
      let (fresh, same) = result-cases final h in
      omega (arith, final-Extends.capped pos (omega arith), ap length same)

  -- Every validation ends: its outcome is the budget error, a panic of the division of multipleOf,
  -- or a result that is valid just where it holds no error, and never that fuel is missing.
  pub validate-returns :
      (validate lib s ro v count ≡ over_evaluations)
      ⊎ (validate lib s ro v count ≡ crash)
      ⊎ ((errs : List ValidationError) × (annos : List AnnotationEntry) × (validate lib s ro v count
            ≡ result (length errs == 0) errs annos))
  unfolding validate final new_run_ctx depth_bound
  validate-returns =
      returned final
        (final-Extends.budget.calm
          (record { deep = omega arith; enough = omega arith; unexhausted = refl })).unexhausted
