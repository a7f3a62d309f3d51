-- ===== src/Eval/Ledger/Combining.antt =====
-- The in-place applicators and the ledger: each extends the context, whatever its branches report.
use jsonschema.Prelude.{
  ℕ, ◌+◌, ◌-◌, ◌≡◌, refl, ap, true, false, not, ◌&&◌, List, [], ◌∷◌, ◌++◌, Option, none, some,
  arith, ltb, if_cases,
}
use jsonschema.Prelude.Bytes.{Bytes, codes, lookup}
use jsonschema.Value.{Value}
use jsonschema.Eval.Types.{
  SubId, RunCtx, ValidationError, RefTarget, failed, no_target, no_subschema, target, max_ref_depth,
}
use jsonschema.Eval.Report.{add_error}
use jsonschema.Eval.Walk.{Runner, BranchAnnotations, evaluate, evaluate_branch}
use jsonschema.Eval.Combine.{
  eval_all_of, passes, settle_pass, any_of_loop, eval_any_of, one_of_loop, eval_one_of, eval_not,
  evaluate_optional, eval_if, eval_dependent_schemas, require_all, dependency, eval_dependencies,
  follow, eval_ref, required_of,
}
use jsonschema.Eval.Ledger.{
  Frame, total, total-append, Holding, Holding-refl, Extends, Extends-trans,
}
use jsonschema.Eval.Ledger.Steps.{
  refund-Holding, add_error-Extends, add_error_with_cause-Extends, add_causes_error-Extends,
  Holding→Extends, Extends-refl,
}
use jsonschema.Eval.Ledger.Tally.{Holding-trans, Holding-quiet, Extends-tally}
use jsonschema.Eval.Ledger.Walks.{
  IsExtending, add_branch_annotations-Holding, evaluate-Extends, evaluate_ref-Extends,
  branch-Holding, branch-cost, refunded_branch-Holding,
}

passes-nil : (es : List ValidationError) → passes es ≡ true → es ≡ []
unfolding passes
passes-nil [] h = refl
passes-nil (e ∷ es) h = cc

module _ {B : ℕ} where
  pub require_all-Extends :
      (loc keyword k : Bytes) (rs : List Bytes) (obj : List (Bytes × Value)) (c : RunCtx)
      → Extends B c (require_all loc keyword k rs obj c)
  unfolding require_all
  require_all-Extends loc keyword k [] obj c = Extends-refl c
  require_all-Extends loc keyword k (r ∷ rs) obj c =
      Extends-trans (checked (lookup obj r)) (require_all-Extends loc keyword k rs obj _)
    where
      checked :
          (o : Option Value)
          → Extends B c (elim o [
            | none ↦ add_error loc keyword (jsonschema.Eval.Combine.requires_message c k r) c
            | some _ ↦ c
          ])
      checked none = add_error-Extends loc keyword _ (Holding-refl c)
      checked (some _) = Extends-refl c

  module _ {next : Runner} (is : IsExtending B next) where
    pub eval_all_of-Extends :
        (subs : List SubId) (v : Value) (c : RunCtx) → Extends B c (eval_all_of next subs v c)
    unfolding eval_all_of
    eval_all_of-Extends [] v c = Extends-refl c
    eval_all_of-Extends (sub ∷ subs) v c =
        Extends-trans (evaluate-Extends is (some sub) v c) (eval_all_of-Extends subs v _)

    -- Once a branch has passed nothing is held.
    any_of_passed-Extends :
        (loc : Bytes) (subs : List SubId) (v : Value) (c d : RunCtx)
        → Holding B [] c d
        → Extends B c (any_of_loop next loc subs v true [] 0 d)
    unfolding any_of_loop settle_pass
    any_of_passed-Extends loc [] v c d h = Holding→Extends h
    any_of_passed-Extends loc (sub ∷ subs) v c d h =
        let refunded = Holding-quiet h (refunded_branch-Holding is (some sub) v d) in
        let settled = Holding-quiet refunded (add_branch_annotations-Holding _ _) in
        if_cases (Extends B c) (passes (evaluate_branch next (some sub) v d).errs)
          (λ _.
            if_cases (Extends B c) (not d.need_scope && not d.public) (λ _. Holding→Extends settled)
              (λ _. any_of_passed-Extends loc subs v c _ settled))
          (λ _. any_of_passed-Extends loc subs v c _ refunded)

    -- Before that the causes are held.
    any_of_loop-Extends :
        (loc : Bytes) (subs : List SubId) (v : Value) (held : List ValidationError) (n : ℕ)
        (c d : RunCtx)
        → Holding B held c d
        → n ≡ total held
        → Extends B c (any_of_loop next loc subs v false held n d)
    unfolding any_of_loop settle_pass
    any_of_loop-Extends loc [] v held n c d h m =
        add_causes_error-Extends loc (codes "anyOf") _ held n h m
    any_of_loop-Extends loc (sub ∷ subs) v held n c d h m =
        let b = evaluate_branch next (some sub) v d in
        let refunded = Holding-quiet h (refunded_branch-Holding is (some sub) v d) in
        let dropped = refund-Holding refunded [] held n refl m in
        let settled = Holding-quiet dropped (add_branch_annotations-Holding _ _) in
        if_cases (Extends B c) (passes b.errs)
          (λ _.
            if_cases (Extends B c) (not d.need_scope && not d.public) (λ _. Holding→Extends settled)
              (λ _. any_of_passed-Extends loc subs v c _ settled))
          (λ _.
            any_of_loop-Extends loc subs v (held ++ b.errs) (n + b.cost) c b.after
              (Holding-trans held b.errs h (branch-Holding is (some sub) v d))
              (omega (arith, m, branch-cost is (some sub) v d, total-append held b.errs)))

    pub eval_any_of-Extends :
        (loc : Bytes) (subs : List SubId) (v : Value) (c : RunCtx)
        → Extends B c (eval_any_of next loc subs v c)
    unfolding eval_any_of total
    eval_any_of-Extends loc subs v c = any_of_loop-Extends loc subs v [] 0 c c (Holding-refl c) refl

    one_of_passed-Extends :
        (loc : Bytes) (i j : ℕ) (annos : BranchAnnotations) (subs : List SubId) (v : Value)
        (c d : RunCtx)
        → Holding B [] c d
        → Extends B c (one_of_loop next loc i subs v (some (j, annos)) [] 0 d)
    unfolding one_of_loop
    one_of_passed-Extends loc i j annos [] v c d h =
        Holding→Extends (Holding-quiet h (add_branch_annotations-Holding annos d))
    one_of_passed-Extends loc i j annos (sub ∷ subs) v c d h =
        let refunded = Holding-quiet h (refunded_branch-Holding is (some sub) v d) in
        if_cases (Extends B c) (passes (evaluate_branch next (some sub) v d).errs)
          (λ _. add_error-Extends loc (codes "oneOf") _ refunded)
          (λ _. one_of_passed-Extends loc (i + 1) j annos subs v c _ refunded)

    one_of_loop-Extends :
        (loc : Bytes) (i : ℕ) (subs : List SubId) (v : Value) (held : List ValidationError) (n : ℕ)
        (c d : RunCtx)
        → Holding B held c d
        → n ≡ total held
        → Extends B c (one_of_loop next loc i subs v none held n d)
    unfolding one_of_loop
    one_of_loop-Extends loc i [] v held n c d h m =
        add_causes_error-Extends loc (codes "oneOf") _ held n h m
    one_of_loop-Extends loc i (sub ∷ subs) v held n c d h m =
        let b = evaluate_branch next (some sub) v d in
        let refunded = Holding-quiet h (refunded_branch-Holding is (some sub) v d) in
        if_cases (Extends B c) (passes b.errs)
          (λ _.
            one_of_passed-Extends loc (i + 1) i b.annos subs v c _
              (refund-Holding refunded [] held n refl m))
          (λ _.
            one_of_loop-Extends loc (i + 1) subs v (held ++ b.errs) (n + b.cost) c b.after
              (Holding-trans held b.errs h (branch-Holding is (some sub) v d))
              (omega (arith, m, branch-cost is (some sub) v d, total-append held b.errs)))

    pub eval_one_of-Extends :
        (loc : Bytes) (subs : List SubId) (v : Value) (c : RunCtx)
        → Extends B c (eval_one_of next loc subs v c)
    unfolding eval_one_of total
    eval_one_of-Extends loc subs v c =
        one_of_loop-Extends loc 0 subs v [] 0 c c (Holding-refl c) refl

    pub eval_not-Extends :
        (loc : Bytes) (sub : SubId) (v : Value) (c : RunCtx)
        → Extends B c (eval_not next loc sub v c)
    unfolding eval_not
    eval_not-Extends loc sub v c =
        let refunded = refunded_branch-Holding is (some sub) v c in
        if_cases (Extends B c) (passes (evaluate_branch next (some sub) v c).errs)
          (λ _. add_error-Extends loc (codes "not") _ refunded) (λ _. Holding→Extends refunded)

    evaluate_optional-Extends :
        (sub : Option SubId) (v : Value) {c d : RunCtx}
        → Holding B [] c d
        → Extends B c (evaluate_optional next sub v d)
    unfolding evaluate_optional
    evaluate_optional-Extends none v h = Holding→Extends h
    evaluate_optional-Extends (some sub) v h =
        Extends-trans (Holding→Extends h) (evaluate-Extends is (some sub) v _)

    pub eval_if-Extends :
        (i : SubId) (t e : Option SubId) (v : Value) (c : RunCtx)
        → Extends B c (eval_if next i t e v c)
    unfolding eval_if
    eval_if-Extends i t e v c =
        let refunded = refunded_branch-Holding is (some i) v c in
        if_cases (Extends B c) (passes (evaluate_branch next (some i) v c).errs)
          (λ _.
            evaluate_optional-Extends t v
              (Holding-quiet refunded (add_branch_annotations-Holding _ _)))
          (λ _. evaluate_optional-Extends e v refunded)

    pub eval_dependent_schemas-Extends :
        (ks : List Bytes) (deps : List (Bytes × SubId)) (obj : List (Bytes × Value)) (v : Value)
        (c : RunCtx)
        → Extends B c (eval_dependent_schemas next ks deps obj v c)
    unfolding eval_dependent_schemas
    eval_dependent_schemas-Extends [] deps obj v c = Extends-refl c
    eval_dependent_schemas-Extends (k ∷ ks) deps obj v c =
        Extends-trans (present (lookup obj k)) (eval_dependent_schemas-Extends ks deps obj v _)
      where
        present :
            (o : Option Value)
            → Extends B c (elim o [ none ↦ c | some _ ↦ evaluate next (lookup deps k) v c ])
        present none = Extends-refl c
        present (some _) = evaluate-Extends is (lookup deps k) v c

    dependency-Extends :
        (loc k : Bytes) (sub : Option SubId) (rs : List Bytes) (obj : List (Bytes × Value))
        (v : Value) (c : RunCtx)
        → Extends B c (dependency next loc k sub rs obj v c)
    unfolding dependency
    dependency-Extends loc k (some sub) rs obj v c = evaluate-Extends is (some sub) v c
    dependency-Extends loc k none rs obj v c = require_all-Extends loc _ k rs obj c

    pub eval_dependencies-Extends :
        (loc : Bytes) (ks : List Bytes) (schemas : List (Bytes × SubId))
        (reqs : List (Bytes × List Bytes)) (obj : List (Bytes × Value)) (v : Value) (c : RunCtx)
        → Extends B c (eval_dependencies next loc ks schemas reqs obj v c)
    unfolding eval_dependencies
    eval_dependencies-Extends loc [] schemas reqs obj v c = Extends-refl c
    eval_dependencies-Extends loc (k ∷ ks) schemas reqs obj v c =
        Extends-trans (present (lookup obj k))
          (eval_dependencies-Extends loc ks schemas reqs obj v _)
      where
        present :
            (o : Option Value)
            → Extends B c (elim o [
              | none ↦ c
              | some _ ↦ dependency next loc k (lookup schemas k) (required_of reqs k) obj v c
            ])
        present none = Extends-refl c
        present (some _) = dependency-Extends loc k (lookup schemas k) _ obj v c

    follow-Extends :
        (loc source : Bytes) (to : RefTarget) (v : Value) (c : RunCtx)
        → Extends B c (follow next loc source to v c)
    unfolding follow
    follow-Extends loc source (failed text) v c =
        add_error_with_cause-Extends loc _ text _ (Holding-refl c)
    follow-Extends loc source no_target v c = add_error-Extends loc _ _ (Holding-refl c)
    follow-Extends loc source no_subschema v c = add_error-Extends loc _ _ (Holding-refl c)
    follow-Extends loc source (target sub) v c = evaluate_ref-Extends is loc sub v c

    pub eval_ref-Extends :
        (loc source : Bytes) (to : RefTarget) (v : Value) (c : RunCtx)
        → Extends B c (eval_ref next loc source to v c)
    unfolding eval_ref
    eval_ref-Extends loc source to v c = left (
        if_cases (Extends B entered) (ltb c.schema.max_ref_depth (c.ref_depth + 1))
          (λ _.
            add_error_with_cause-Extends loc (codes "$ref")
              (codes "jsonschema: max ref depth exceeded") (some max_ref_depth)
              (Holding-refl entered))
          (λ _. follow-Extends loc source to v entered))
      where
        entered : RunCtx
        entered = record c { ref_depth = c.ref_depth + 1 }

        left :
            {d : RunCtx}
            → Extends B entered d
            → Extends B c (record d { ref_depth = d.ref_depth - 1 })
        left {d} e = Extends-tally c _ e (λ i. record (e.framed i) { ref_depth = back i }) refl refl
          where
            back : d.ref_depth - 1 ≡ c.ref_depth
            back = omega (arith, ap (λ (f : Frame). f.ref_depth) e.framed)
