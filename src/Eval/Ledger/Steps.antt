-- ===== src/Eval/Ledger/Steps.antt =====
-- The single steps of the evaluator and the ledger: reports, refunds, annotations, branches.
use jsonschema.Prelude.{
  ℕ, ◌≤◌, ◌≡◌, refl, sym, ap, ◌∙◌, true, false, List, [], ◌∷◌, ◌++◌, Option, none, some, append-nil,
  length, length-append, arith, if_cases,
}
use jsonschema.Prelude.Bytes.{Bytes}
use jsonschema.Eval.Types.{
  RunCtx, ErrorFields, Cause, ValidationError, validation_error, Causes, no_causes, to_causes,
}
use jsonschema.Eval.Report.{
  over_limit, charge_errors, refund_errors, at_error_cap, append_error, count_failure, error_at,
  add_error, add_error_with_cause, add_causes_error,
}
use jsonschema.Eval.Ledger.{
  total, total_causes, total-append, total-to_causes, total-one, Frame, frame, Holding,
  Holding-refl, Extends, Calm,
}

over_limit_mono :
    (limit : Option ℕ) (a b : ℕ) → a ≤ b → over_limit limit b ≡ false → over_limit limit a ≡ false
unfolding over_limit
over_limit_mono none a b h e = refl
over_limit_mono (some l) a b h e = ground arith

module _ {B : ℕ} where
  -- A context of the same frame that is no more exhausted.
  pub Calm-again :
      {d : RunCtx} (e : RunCtx)
      → Calm B d
      → frame e ≡ frame d
      → e.exhausted ≡ d.exhausted
      → Calm B e
  Calm-again {d} e k framed same =
      let depth : e.validation_depth ≡ d.validation_depth = λ i. (framed i).validation_depth in
      let most : e.opts.max_validation_depth ≡ d.opts.max_validation_depth =
        λ i. (framed i).opts.max_validation_depth in
      record {
        deep = k.deep;
        enough = omega (arith, k.enough, depth, most);
        unexhausted = same ∙ k.unexhausted;
      }

  module _ {c d : RunCtx} {held : List ValidationError} (h : Holding B held c d) where
    -- A refund of the charge of the last errors held.
    pub refund-Holding :
        (kept es : List ValidationError) (n : ℕ)
        → held ≡ kept ++ es
        → n ≡ total es
        → Holding B kept c (refund_errors n d)
    unfolding refund_errors over_limit
    refund-Holding kept es n e m = record {
      framed = h.framed;
      errors = h.errors;
      fails = h.fails;
      cost = omega (arith, h.cost, ap total e, total-append kept es);
      budget = record {
        over = h.budget.over;
        calm = λ k. Calm-again _ (h.budget.calm k) refl refl;
        counted = omega (arith, h.cost, ap total e, total-append kept es, h.budget.counted);
        within = λ w fresh.
            over_limit_mono d.eval_limit _ d.evals (omega arith) (h.budget.within w fresh);
      };
    }

    -- A failure that is reported with what is held as its causes.
    pub append_error-Extends :
        (e : ErrorFields) (cs : Causes)
        → total_causes cs ≡ total held
        → at_error_cap (count_failure d) ≡ false
        → Extends B c (append_error e cs (count_failure d))
    unfolding append_error count_failure at_error_cap over_limit charge_errors
    append_error-Extends e cs m room = record {
      framed = h.framed;
      reported = validation_error e cs ∷ [];
      appended = ap (λ es. es ++ validation_error e cs ∷ []) h.errors;
      cost = omega (arith, h.cost, m, total-one e cs);
      fails = omega (arith, h.fails);
      silent = λ eq. absurd (omega (arith, eq, h.fails));
      heard = λ _. omega (arith, length-append d.errors (validation_error e cs ∷ []));
      capped = λ pos fits. ground (
        arith,
        ap (λ (f : Frame). f.opts.max_errors) h.framed,
        length-append d.errors (validation_error e cs ∷ []),
      );
      budget = record {
        over = λ o. ground (arith, h.budget.over o);
        calm = λ k. Calm-again _ (h.budget.calm k) refl refl;
        counted = omega (arith, h.budget.counted);
        within = λ w fresh. ground arith;
      };
    }

  -- A failure that the cap on errors drops.
  pub count_failure-Extends :
      {c d : RunCtx} → Holding B [] c d → at_error_cap d ≡ true → Extends B c (count_failure d)
  unfolding count_failure at_error_cap total
  count_failure-Extends {c} {d} h full = record {
    framed = h.framed;
    reported = [];
    appended = h.errors ∙ sym (append-nil c.errors);
    cost = h.cost;
    fails = omega (arith, h.fails);
    silent = λ _. refl;
    heard = λ _. ground arith;
    capped = λ pos fits. omega (arith, ap length h.errors);
    budget = record {
      over = h.budget.over;
      calm = λ k. Calm-again _ (h.budget.calm k) refl refl;
      counted = h.budget.counted;
      within = h.budget.within;
    };
  }

  pub add_error_with_cause-Extends :
      {c d : RunCtx} (loc keyword message : Bytes) (cause : Option Cause)
      → Holding B [] c d
      → Extends B c (add_error_with_cause loc keyword message cause d)
  unfolding add_error_with_cause total total_causes
  add_error_with_cause-Extends {c} {d} loc keyword message cause h =
      if_cases (Extends B c) (at_error_cap d) (count_failure-Extends h)
        (append_error-Extends h (error_at d loc keyword message cause) no_causes refl)

  pub add_error-Extends :
      {c d : RunCtx} (loc keyword message : Bytes)
      → Holding B [] c d
      → Extends B c (add_error loc keyword message d)
  unfolding add_error
  add_error-Extends loc keyword message = add_error_with_cause-Extends loc keyword message none

  pub add_causes_error-Extends :
      {c d : RunCtx} (loc keyword message : Bytes) (held : List ValidationError) (n : ℕ)
      → Holding B held c d
      → n ≡ total held
      → Extends B c (add_causes_error loc keyword message held n d)
  unfolding add_causes_error
  add_causes_error-Extends {c} {d} loc keyword message held n h m =
      if_cases (Extends B c) (at_error_cap d)
        (λ full. count_failure-Extends (refund-Holding h [] held n refl m) full)
        (append_error-Extends h (error_at d loc keyword message none) (to_causes held)
          (total-to_causes held))

  pub Holding→Extends : {c d : RunCtx} → Holding B [] c d → Extends B c d
  unfolding total
  Holding→Extends {c} {d} h = record {
    framed = h.framed;
    reported = [];
    appended = h.errors ∙ sym (append-nil c.errors);
    cost = h.cost;
    fails = omega (arith, h.fails);
    silent = λ _. refl;
    heard = λ later. absurd (omega (arith, later, h.fails));
    capped = λ pos fits. omega (arith, ap length h.errors);
    budget = h.budget;
  }

  pub Extends-refl : (c : RunCtx) → Extends B c c
  Extends-refl c = Holding→Extends (Holding-refl c)

  -- A step that leaves the errors, the counts and the frame alone.
  pub quiet-Holding :
      {c d : RunCtx} {held : List ValidationError} (e : RunCtx)
      → Holding B held c d
      → frame e ≡ frame d
      → e.errors ≡ d.errors
      → e.fail_count ≡ d.fail_count
      → e.err_cost ≡ d.err_cost
      → e.evals ≡ d.evals
      → e.over_budget ≡ d.over_budget
      → e.exhausted ≡ d.exhausted
      → Holding B held c e
  quiet-Holding {c} {d} e h framed errors fails cost evals over same = record {
    framed = framed ∙ h.framed;
    errors = errors ∙ h.errors;
    fails = fails ∙ h.fails;
    cost = cost ∙ h.cost;
    budget = record {
      over = λ o. over ∙ h.budget.over o;
      calm = λ k. Calm-again _ (h.budget.calm k) framed same;
      counted = omega (arith, h.budget.counted, cost, evals);
      within = λ w fresh.
          rw (evals, ap (λ (f : Frame). f.eval_limit) framed)
            (h.budget.within w (sym over ∙ fresh));
    };
  }
