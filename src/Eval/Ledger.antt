-- ===== src/Eval/Ledger.antt =====
-- What every step of the walk keeps of the context: `Holding` for steps that report nothing
-- themselves but hold errors of branches, `Extends` for steps that may report.
pub mod Steps
pub mod Tally
pub mod Walks
pub mod Combining
pub mod Properties
pub mod Elements
pub mod Verdicts
pub mod Keywords
pub mod Whole
use jsonschema.Prelude.{
  ℕ, ◌+◌, ◌-◌, ◌≤◌, ◌<◌, ◌≡◌, refl, sym, ap, ◌∙◌, Bool, true, false, List, [], ◌∷◌, ◌++◌, Option,
  none, some, append_assoc, append-nil, length, length-append, arith, ltb,
}
use native.Mathlib.Decide.{dec_lt}
use jsonschema.Prelude.Bytes.{Bytes}
use jsonschema.Eval.Types.{
  Library, Schema, RunOptions, Subschema, RefFrame, InstanceStep, RunCtx, ValidationError,
  ErrorFields, validation_error, Causes, no_causes, cause_of, to_causes, charge,
}
use jsonschema.Eval.Report.{over_limit, refund_errors}

-- The charge that an error holds, its causes included.
unfoldable mutual
  pub total_error : ValidationError → ℕ
  total_error (validation_error e causes) = charge e + total_causes causes

  pub total_causes : Causes → ℕ
  total_causes no_causes = 0
  total_causes (cause_of e causes) = total_error e + total_causes causes

unfoldable pub total : List ValidationError → ℕ
total [] = 0
total (e ∷ es) = total_error e + total es

pub total-append : (es fs : List ValidationError) → total (es ++ fs) ≡ total es + total fs
unfolding total
total-append [] fs = omega arith
total-append (e ∷ es) fs = omega (arith, total-append es fs)

pub total-to_causes : (es : List ValidationError) → total_causes (to_causes es) ≡ total es
unfolding total to_causes total_error
total-to_causes [] = refl
total-to_causes (e ∷ es) = omega (arith, total-to_causes es)

pub total-one :
    (e : ErrorFields) (cs : Causes)
    → total (validation_error e cs ∷ []) ≡ charge e + total_causes cs
unfolding total total_error
total-one e cs = omega arith

-- The part of the context that a step leaves as it found it.
pub record Frame : Type 0 where
  pub library : Library
  pub schema : Schema
  pub opts : RunOptions
  pub cur : Option Subschema
  pub ref_path : List RefFrame
  pub instance_path : List InstanceStep
  pub dynamic_scope : List Bytes
  pub need_scope : Bool
  pub public : Bool
  pub ref_depth : ℕ
  pub validation_depth : ℕ
  pub eval_limit : Option ℕ

abbrev pub frame : RunCtx → Frame
frame c = record {
  library = c.library;
  schema = c.schema;
  opts = c.opts;
  cur = c.cur;
  ref_path = c.ref_path;
  instance_path = c.instance_path;
  dynamic_scope = c.dynamic_scope;
  need_scope = c.need_scope;
  public = c.public;
  ref_depth = c.ref_depth;
  validation_depth = c.validation_depth;
  eval_limit = c.eval_limit;
}

-- A context from which a run that may go `B` calls deep stays within the model's recursion bound.
pub record Calm (B : ℕ) (c : RunCtx) : Type 0 where
  pub deep : 0 < B
  pub enough : c.opts.max_validation_depth + 2 ≤ B + c.validation_depth
  pub unexhausted : c.exhausted ≡ false

-- The budget: an overrun stays, the evaluations that are no charge of errors never fall, and while
-- there is no overrun the count is within the limit.
pub record Budgeted (B : ℕ) (c d : RunCtx) : Type 0 where
  pub over : c.over_budget ≡ true → d.over_budget ≡ true
  pub calm : Calm B c → Calm B d
  pub counted : c.evals + d.err_cost ≤ d.evals + c.err_cost
  pub within :
      (c.over_budget ≡ false → over_limit c.eval_limit c.evals ≡ false)
      → d.over_budget ≡ false
      → over_limit d.eval_limit d.evals ≡ false

pub record Holding (B : ℕ) (held : List ValidationError) (c d : RunCtx) : Type 0 where
  pub framed : frame d ≡ frame c
  pub errors : d.errors ≡ c.errors
  pub fails : d.fail_count ≡ c.fail_count
  pub cost : d.err_cost ≡ c.err_cost + total held
  pub budget : Budgeted B c d

pub record Extends (B : ℕ) (c d : RunCtx) : Type 0 where
  pub framed : frame d ≡ frame c
  pub reported : List ValidationError
  pub appended : d.errors ≡ c.errors ++ reported
  pub cost : d.err_cost ≡ c.err_cost + total reported
  pub fails : c.fail_count ≤ d.fail_count
  pub silent : d.fail_count ≡ c.fail_count → reported ≡ []
  pub heard : c.fail_count < d.fail_count → 0 < length d.errors
  pub capped :
      0 < c.opts.max_errors
      → length c.errors ≤ c.opts.max_errors
      → length d.errors ≤ c.opts.max_errors
  pub budget : Budgeted B c d

module _ {B : ℕ} where
  pub Budgeted-refl : (c : RunCtx) → Budgeted B c c
  Budgeted-refl c = record { over = λ h. h; calm = λ k. k; counted = omega arith; within = λ h. h }

  pub Budgeted-trans : {b c d : RunCtx} → Budgeted B b c → Budgeted B c d → Budgeted B b d
  Budgeted-trans p q = record {
    over = λ h. q.over (p.over h);
    calm = λ k. q.calm (p.calm k);
    counted = omega (arith, p.counted, q.counted);
    within = λ h. q.within (p.within h);
  }

  pub Holding-refl : (c : RunCtx) → Holding B [] c c
  unfolding total
  Holding-refl c = record {
    framed = refl;
    errors = refl;
    fails = refl;
    cost = omega arith;
    budget = Budgeted-refl c;
  }

  pub Extends-trans : {b c d : RunCtx} → Extends B b c → Extends B c d → Extends B b d
  Extends-trans {b} {c} {d} p q = record {
    framed = q.framed ∙ p.framed;
    reported = p.reported ++ q.reported;
    appended =
        q.appended
        ∙ (ap (λ es. es ++ q.reported) p.appended ∙ append_assoc b.errors p.reported q.reported);
    cost = omega (arith, p.cost, q.cost, total-append p.reported q.reported);
    fails = omega (arith, p.fails, q.fails);
    silent = λ e. cc (
      p.silent (omega (arith, p.fails, q.fails, e)),
      q.silent (omega (arith, p.fails, q.fails, e)),
    );
    heard = λ h. elim (dec_lt c.fail_count d.fail_count) [
      | yes later ↦ q.heard later
      | no none_later ↦ omega (
        arith,
        p.heard (omega (arith, none_later, h)),
        ap length q.appended,
        length-append c.errors q.reported,
      )
    ];
    capped = λ pos fits.
        let opts = ap (λ (f : Frame). f.opts.max_errors) p.framed in
        rw opts at (q.capped (rw opts pos) (rw opts (p.capped pos fits)));
    budget = Budgeted-trans p.budget q.budget;
  }
