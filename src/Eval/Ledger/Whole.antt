-- ===== src/Eval/Ledger/Whole.antt =====
-- The walk over the keywords of a subschema, `run` and the ledger.
use jsonschema.Prelude.{
  ℕ, zero, suc, ◌+◌, ◌-◌, ◌≡◌, refl, sym, ap, ◌∙◌, Bool, true, false, not, ◌&&◌, List, [], ◌∷◌,
  Option, none, some, append-nil, arith, ltb, ltb→le, if_cases, if◌then◌else◌,
}
use mathlib.Core.List.{tail}
use jsonschema.Prelude.Bytes.{codes}
use jsonschema.Value.{Value}
use jsonschema.Eval.Types.{Evaluator, SubId, Subschema, RunCtx}
use jsonschema.Eval.Report.{over_limit, should_stop}
use jsonschema.Eval.Walk.{Runner}
use jsonschema.Eval.Run.{walk, run_deeper, crosses, run_object, run_kind, run_inside, run_at, run}
use jsonschema.Eval.Ledger.{total, Frame, Holding-refl, Extends, Extends-trans}
use jsonschema.Eval.Ledger.Steps.{add_error-Extends, add_error_with_cause-Extends, Extends-refl}
use jsonschema.Eval.Ledger.Tally.{Extends-shift, Extends-tally, tally, pace}
use jsonschema.Eval.Ledger.Walks.{IsExtending}
use jsonschema.Eval.Ledger.Keywords.{eval_keyword-Extends}

module _ {B : ℕ} where
  module _ {next : Runner} (is : IsExtending B next) where
    walk-Extends : (evs : List Evaluator) (v : Value) (c : RunCtx) → Extends B c (walk next evs v c)
    unfolding walk
    walk-Extends [] v c = Extends-refl c
    walk-Extends (ev ∷ evs) v c =
        if_cases (Extends B c) (should_stop c) (λ _. Extends-refl c)
          (λ _. Extends-trans (eval_keyword-Extends is ev v c) (walk-Extends evs v _))

    run_deeper-Extends :
        (sub : Subschema) (v : Value) (c : RunCtx) → Extends (suc B) c (run_deeper next sub v c)
    unfolding run_deeper
    run_deeper-Extends sub v c =
        if_cases (Extends (suc B) c) (ltb c.opts.max_validation_depth c.validation_depth)
          (λ _. add_error_with_cause-Extends sub.location _ _ _ (Holding-refl c))
          (λ shallow.
            Extends-shift c _ walked (λ i. record (walked.framed i) { validation_depth = back i })
              (λ k. record {
                deep = omega (arith, k.enough, ltb→le _ _ shallow);
                enough = omega (arith, k.enough);
                unexhausted = k.unexhausted;
              })
              (λ k. record {
                deep = omega arith;
                enough = omega (arith, k.enough, back);
                unexhausted = k.unexhausted;
              })
              refl refl)
      where
        deeper : RunCtx
        deeper = record c { validation_depth = c.validation_depth + 1 }

        walked : Extends B deeper (walk next sub.evaluators v deeper)
        walked = walk-Extends sub.evaluators v deeper

        back : (walk next sub.evaluators v deeper).validation_depth - 1 ≡ c.validation_depth
        back = omega (arith, ap (λ (f : Frame). f.validation_depth) walked.framed)

    run_object-Extends :
        (sub : Subschema) (v : Value) (c : RunCtx) → Extends (suc B) c (run_object next sub v c)
    unfolding run_object
    run_object-Extends sub v c =
        let e =
          run_deeper-Extends sub v
            (record c { dynamic_scope = sub.resource_uri ∷ c.dynamic_scope }) in
        if_cases (Extends (suc B) c) (crosses sub)
          (λ _.
            Extends-tally c _ e
              (λ i. record (e.framed i) { dynamic_scope = tail (e.framed i).dynamic_scope }) refl
              refl)
          (λ _. run_deeper-Extends sub v c)

    run_kind-Extends :
        (sub : Subschema) (v : Value) (c : RunCtx) → Extends (suc B) c (run_kind next sub v c)
    unfolding run_kind
    run_kind-Extends sub v c = at sub.bool_value
      where
        at :
            (o : Option Bool)
            → Extends (suc B) c (elim o [
              | none ↦ run_object next sub v c
              | some true ↦ c
              | some false ↦
                  jsonschema.Eval.Report.add_error sub.location
                    (codes "false")
                    (codes "schema is false; nothing matches")
                    c
            ])
        at none = run_object-Extends sub v c
        at (some true) = Extends-refl c
        at (some false) = add_error-Extends sub.location _ _ (Holding-refl c)

    run_inside-Extends :
        (sub : Subschema) (v : Value) (c : RunCtx) → Extends (suc B) c (run_inside next sub v c)
    unfolding run_inside
    run_inside-Extends sub v c =
        Extends-tally c _ e (λ i. record (e.framed i) { cur = c.cur; need_scope = back i }) refl
          refl
      where
        raised : Bool
        raised = sub.reads_scope && not c.need_scope

        inside : RunCtx
        inside = record c { cur = some sub; need_scope = if raised then true else c.need_scope }

        e : Extends (suc B) inside (run_kind next sub v inside)
        e = run_kind-Extends sub v inside

        kept : (run_kind next sub v inside).need_scope ≡ inside.need_scope
        kept = λ i. (e.framed i).need_scope

        back : (if raised then false else (run_kind next sub v inside).need_scope) ≡ c.need_scope
        back = ground (arith, kept)

    -- One more evaluation, which either fits the budget or overruns it.
    counted-Extends :
        (over : Bool) (c : RunCtx)
        → over_limit c.eval_limit (c.evals + 1) ≡ over
        → c.over_budget ≡ false
        → Extends (suc B) c (record c { evals = c.evals + 1; over_budget = over })
    unfolding total
    counted-Extends over c fits fresh = record {
      framed = refl;
      reported = [];
      appended = sym (append-nil c.errors);
      cost = omega arith;
      fails = omega arith;
      silent = λ _. refl;
      heard = λ later. absurd (omega (arith, later));
      capped = λ _ within. within;
      budget = record {
        over = λ o. ground (arith, o);
        calm = λ k. record { deep = k.deep; enough = k.enough; unexhausted = k.unexhausted };
        counted = omega arith;
        within = λ _ ended. fits ∙ ended;
      };
    }

    pub run_at-Extends :
        (sub : Subschema) (v : Value) (c : RunCtx) → Extends (suc B) c (run_at next sub v c)
    unfolding run_at
    run_at-Extends sub v c =
        if_cases (Extends (suc B) c) c.over_budget (λ _. Extends-refl c)
          (λ fresh.
            if_cases (Extends (suc B) c) (over_limit c.eval_limit (c.evals + 1))
              (λ over. counted-Extends true c over fresh)
              (λ fits.
                let counted =
                  Extends-tally c (record c { evals = c.evals + 1 })
                    (counted-Extends false c fits fresh) refl refl
                    (λ i. record (pace c) {
                      tallied = record (tally c) { evals = c.evals + 1; over_budget = fresh i };
                    }) in
                Extends-trans counted (run_inside-Extends sub v _)))

-- With no recursion left no context is calm.
exhausted-Extends : (c : RunCtx) → Extends 0 c (record c { exhausted = true })
exhausted-Extends c =
    let e : Extends 0 c c = Extends-refl c in
    record {
      framed = refl;
      reported = e.reported;
      appended = e.appended;
      cost = e.cost;
      fails = e.fails;
      silent = e.silent;
      heard = e.heard;
      capped = e.capped;
      budget = record {
        over = e.budget.over;
        calm = λ k. absurd (omega (arith, k.deep));
        counted = e.budget.counted;
        within = e.budget.within;
      };
    }

-- `run` extends every context, whatever the bound on the recursion.
pub run-IsExtending : (fuel : ℕ) → IsExtending fuel (run fuel)
unfolding run
run-IsExtending fuel = record { extends = at fuel }
  where
    at : (f : ℕ) (sub : Option SubId) (v : Value) (c : RunCtx) → Extends f c (run f sub v c)
    at zero sub v c = exhausted-Extends c
    at (suc f) none v c = Extends-refl c
    at (suc f) (some sub) v c = run_at-Extends (record { extends = at f }) (c.schema.deref sub) v c
