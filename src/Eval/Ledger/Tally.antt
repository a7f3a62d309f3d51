-- ===== src/Eval/Ledger/Tally.antt =====
-- Composition of steps, and steps between contexts that differ only in what the ledger does not read.
use jsonschema.Prelude.{
  ℕ, ◌≡◌, sym, ap, ◌∙◌, Bool, List, [], ◌++◌, Option, append-nil, length, arith,
}
use jsonschema.Eval.Types.{RunCtx, RunOptions, ValidationError}
use jsonschema.Eval.Ledger.{
  total-append, frame, Budgeted-trans, Calm, Holding, Extends, Extends-trans,
}
use jsonschema.Eval.Ledger.Steps.{Holding→Extends}

-- The fields by which `Extends` is stated, but the frame.
pub record Tally : Type 0 where
  pub errors : List ValidationError
  pub fail_count : ℕ
  pub err_cost : ℕ
  pub evals : ℕ
  pub over_budget : Bool
  pub eval_limit : Option ℕ
  pub opts : RunOptions

abbrev pub tally : RunCtx → Tally
tally c = record {
  errors = c.errors;
  fail_count = c.fail_count;
  err_cost = c.err_cost;
  evals = c.evals;
  over_budget = c.over_budget;
  eval_limit = c.eval_limit;
  opts = c.opts;
}

-- With the fields that `Calm` reads.
pub record Pace : Type 0 where
  pub tallied : Tally
  pub validation_depth : ℕ
  pub exhausted : Bool

abbrev pub pace : RunCtx → Pace
pace c = record {
  tallied = tally c;
  validation_depth = c.validation_depth;
  exhausted = c.exhausted;
}

module _ {B : ℕ} where
  pub Holding-trans :
      {b c d : RunCtx} (held more : List ValidationError)
      → Holding B held b c
      → Holding B more c d
      → Holding B (held ++ more) b d
  Holding-trans held more p q = record {
    framed = q.framed ∙ p.framed;
    errors = q.errors ∙ p.errors;
    fails = q.fails ∙ p.fails;
    cost = omega (arith, p.cost, q.cost, total-append held more);
    budget = Budgeted-trans p.budget q.budget;
  }

  pub Holding-quiet :
      {b c d : RunCtx} {held : List ValidationError}
      → Holding B held b c
      → Holding B [] c d
      → Holding B held b d
  Holding-quiet {held} p q = rw append-nil at (Holding-trans held [] p q)

  pub Extends-quiet : {b c d : RunCtx} → Extends B b c → Holding B [] c d → Extends B b d
  Extends-quiet p q = Extends-trans p (Holding→Extends q)

  -- Contexts with the same tallies extend one another alike, if the frame is kept.
  pub Extends-shift :
      {A : ℕ} {c d : RunCtx} (c' d' : RunCtx)
      → Extends A c d
      → frame d' ≡ frame c'
      → (Calm B c' → Calm A c)
      → (Calm A d → Calm B d')
      → tally c' ≡ tally c
      → tally d' ≡ tally d
      → Extends B c' d'
  Extends-shift {A} {c} {d} c' d' e framed earlier later tc td =
      let over_c : c'.over_budget ≡ c.over_budget = λ i. (tc i).over_budget in
      let over_d : d'.over_budget ≡ d.over_budget = λ i. (td i).over_budget in
      let errors_c : c'.errors ≡ c.errors = λ i. (tc i).errors in
      let errors_d : d'.errors ≡ d.errors = λ i. (td i).errors in
      let fails_c : c'.fail_count ≡ c.fail_count = λ i. (tc i).fail_count in
      let fails_d : d'.fail_count ≡ d.fail_count = λ i. (td i).fail_count in
      let cost_c : c'.err_cost ≡ c.err_cost = λ i. (tc i).err_cost in
      let cost_d : d'.err_cost ≡ d.err_cost = λ i. (td i).err_cost in
      let evals_c : c'.evals ≡ c.evals = λ i. (tc i).evals in
      let evals_d : d'.evals ≡ d.evals = λ i. (td i).evals in
      let limit_c : c'.eval_limit ≡ c.eval_limit = λ i. (tc i).eval_limit in
      let limit_d : d'.eval_limit ≡ d.eval_limit = λ i. (td i).eval_limit in
      let cap : c'.opts.max_errors ≡ c.opts.max_errors = λ i. (tc i).opts.max_errors in
      record {
        framed = framed;
        reported = e.reported;
        appended = errors_d ∙ (e.appended ∙ ap (λ es. es ++ e.reported) (sym errors_c));
        cost = omega (arith, e.cost);
        fails = omega (arith, e.fails);
        silent = λ h. e.silent (omega (arith, h));
        heard = λ h. omega (arith, e.heard (omega (arith, h)), ap length errors_d);
        capped = λ pos fits. omega (
          arith,
          e.capped (omega (arith, pos)) (omega (arith, fits, ap length errors_c)),
          ap length errors_d,
        );
        budget = record {
          over = λ h. over_d ∙ e.budget.over (sym over_c ∙ h);
          calm = λ k. later (e.budget.calm (earlier k));
          counted = omega (arith, e.budget.counted);
          within = λ w h.
              rw (limit_d, evals_d)
                (e.budget.within (λ o. rw (limit_c, evals_c) at (w (over_c ∙ o))) (sym over_d ∙ h));
        };
      }

  Calm-pace : {c : RunCtx} (c' : RunCtx) → pace c' ≡ pace c → Calm B c → Calm B c'
  Calm-pace {c} c' p k =
      let depth : c'.validation_depth ≡ c.validation_depth = λ i. (p i).validation_depth in
      let most : c'.opts.max_validation_depth ≡ c.opts.max_validation_depth =
        λ i. (p i).tallied.opts.max_validation_depth in
      record {
        deep = k.deep;
        enough = omega (arith, k.enough, depth, most);
        unexhausted = (λ i. (p i).exhausted) ∙ k.unexhausted;
      }

  pub Extends-tally :
      {c d : RunCtx} (c' d' : RunCtx)
      → Extends B c d
      → frame d' ≡ frame c'
      → pace c' ≡ pace c
      → pace d' ≡ pace d
      → Extends B c' d'
  Extends-tally {c} {d} c' d' e framed tc td =
      Extends-shift c' d' e framed (Calm-pace c (sym tc)) (Calm-pace d' td) (λ i. (tc i).tallied)
        (λ i. (td i).tallied)
