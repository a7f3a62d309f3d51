-- ===== src/Eval/Ledger/Walks.antt =====
-- Descending into a subschema and the ledger. A runner that extends every context is what the
-- evaluators need of `run`; with it each way of descending extends or holds.
use jsonschema.Prelude.{
  ℕ, ◌-◌, ◌≡◌, refl, ap, false, List, [], ◌∷◌, ◌++◌, Option, none, some, arith, ◌==◌, if_cases,
}
use jsonschema.Prelude.Bytes.{Bytes}
use jsonschema.Value.{Value}
use jsonschema.Eval.Types.{
  SubId, RunCtx, RunOptions, ValidationError, AnnotationValue, AnnoScope, property_names,
  evaluated_items, evaluated_items_all,
}
use jsonschema.Eval.Report.{append_annotation, refund_errors}
use jsonschema.Eval.Scope.{
  mark, mark_props, mark_prefix, mark_all_items, adopt_scope, record_keys, record_prefix,
  record_all_items, add_props, raise_prefix, set_all_items,
}
use jsonschema.Eval.Walk.{
  Runner, adopt_passing, evaluate, evaluate_at, push_instance, pop_instance, evaluate_child,
  evaluate_item, evaluate_ref, BranchAnnotations, evaluate_branch, add_branch_annotations,
}
use jsonschema.Eval.Ledger.{total, Holding, Holding-refl, Extends}
use jsonschema.Eval.Ledger.Steps.{refund-Holding, quiet-Holding, Calm-again}
use jsonschema.Eval.Ledger.Tally.{Holding-quiet, Extends-quiet, Extends-tally}

module _ {B : ℕ} where
  pub append_annotation-Holding :
      (loc keyword : Bytes) (value : AnnotationValue) (c : RunCtx)
      → Holding B [] c (append_annotation loc keyword value c)
  unfolding append_annotation
  append_annotation-Holding loc keyword value c =
      if_cases (Holding B [] c) c.public
        (λ _. quiet-Holding _ (Holding-refl c) refl refl refl refl refl refl refl)
        (λ _. Holding-refl c)

  pub mark-Holding : (update : AnnoScope → AnnoScope) (c : RunCtx) → Holding B [] c (mark update c)
  unfolding mark
  mark-Holding update c =
      if_cases (Holding B [] c) c.need_scope
        (λ _. quiet-Holding _ (Holding-refl c) refl refl refl refl refl refl refl)
        (λ _. Holding-refl c)

  pub adopt_scope-Holding : (s : AnnoScope) (c : RunCtx) → Holding B [] c (adopt_scope s c)
  unfolding adopt_scope
  adopt_scope-Holding s c = quiet-Holding _ (Holding-refl c) refl refl refl refl refl refl refl

  pub record_keys-Holding :
      (keyword loc : Bytes) (keys : List Bytes) (c : RunCtx)
      → Holding B [] c (record_keys keyword loc keys c)
  unfolding record_keys mark_props
  record_keys-Holding keyword loc [] c = Holding-refl c
  record_keys-Holding keyword loc (k ∷ ks) c =
      Holding-quiet (mark-Holding (add_props (k ∷ ks)) c)
        (append_annotation-Holding loc keyword (property_names (k ∷ ks)) (mark_props (k ∷ ks) c))

  pub record_prefix-Holding :
      (keyword loc : Bytes) (n : ℕ) (c : RunCtx) → Holding B [] c (record_prefix keyword loc n c)
  unfolding record_prefix mark_prefix
  record_prefix-Holding keyword loc n c =
      if_cases (Holding B [] c) (n == 0) (λ _. Holding-refl c)
        (λ _.
          Holding-quiet (mark-Holding (raise_prefix n) c)
            (append_annotation-Holding loc keyword (evaluated_items (n - 1)) (mark_prefix n c)))

  pub record_all_items-Holding :
      (keyword loc : Bytes) (c : RunCtx) → Holding B [] c (record_all_items keyword loc c)
  unfolding record_all_items mark_all_items
  record_all_items-Holding keyword loc c =
      Holding-quiet (mark-Holding set_all_items c)
        (append_annotation-Holding loc keyword evaluated_items_all (mark_all_items c))

  pub add_branch_annotations-Holding :
      (b : BranchAnnotations) (c : RunCtx) → Holding B [] c (add_branch_annotations b c)
  unfolding add_branch_annotations
  add_branch_annotations-Holding b c = scoped b.scope
    where
      logged : RunCtx
      logged = record c { anno_entries = c.anno_entries ++ b.entries }

      kept : Holding B [] c logged
      kept = quiet-Holding _ (Holding-refl c) refl refl refl refl refl refl refl

      scoped :
          (o : Option AnnoScope)
          → Holding B [] c (elim o [ none ↦ logged | some s ↦ adopt_scope s logged ])
      scoped none = kept
      scoped (some s) = Holding-quiet kept (adopt_scope-Holding s logged)

-- What the evaluators ask of `run`.
pub record IsExtending (B : ℕ) (next : Runner) : Type 0 where
  pub extends : (sub : Option SubId) (v : Value) (c : RunCtx) → Extends B c (next sub v c)

module _ {B : ℕ} {next : Runner} (is : IsExtending B next) where
  pub evaluate-Extends :
      (sub : Option SubId) (v : Value) (c : RunCtx) → Extends B c (evaluate next sub v c)
  unfolding evaluate adopt_passing
  evaluate-Extends sub v c = adopted after.scope
    where
      before : RunCtx
      before = record c { scope = none }

      after : RunCtx
      after = next sub v before

      back : RunCtx
      back = record after { scope = c.scope }

      ran : Extends B c back
      ran = let e = is.extends sub v before in Extends-tally c back e e.framed refl refl

      adopted : (o : Option AnnoScope) → Extends B c (adopt_passing c.fail_count o back)
      adopted none = ran
      adopted (some s) =
          if_cases (Extends B c) (back.fail_count == c.fail_count)
            (λ _. Extends-quiet ran (adopt_scope-Holding s back)) (λ _. ran)

  pub evaluate_at-Extends :
      (sub : Option SubId) (v : Value) (c : RunCtx) → Extends B c (evaluate_at next sub v c)
  unfolding evaluate_at
  evaluate_at-Extends sub v c =
      let e = is.extends sub v (record c { scope = none; need_scope = false; ref_depth = 0 }) in
      Extends-tally c _ e
        (λ i. record (e.framed i) { need_scope = c.need_scope; ref_depth = c.ref_depth }) refl refl

  pub evaluate_child-Extends :
      (sub : Option SubId) (v : Value) (k : Bytes) (c : RunCtx)
      → Extends B c (evaluate_child next sub v k c)
  unfolding evaluate_child push_instance pop_instance
  evaluate_child-Extends sub v k c =
      let e = evaluate_at-Extends sub v (push_instance (jsonschema.Eval.Types.key k) c) in
      Extends-tally c _ e
        (λ i. record (e.framed i) {
          instance_path = mathlib.Core.List.tail (e.framed i).instance_path;
        })
        refl refl

  pub evaluate_item-Extends :
      (sub : Option SubId) (v : Value) (n : ℕ) (c : RunCtx)
      → Extends B c (evaluate_item next sub v n c)
  unfolding evaluate_item push_instance pop_instance
  evaluate_item-Extends sub v n c =
      let e = evaluate_at-Extends sub v (push_instance (jsonschema.Eval.Types.index n) c) in
      Extends-tally c _ e
        (λ i. record (e.framed i) {
          instance_path = mathlib.Core.List.tail (e.framed i).instance_path;
        })
        refl refl

  pub evaluate_ref-Extends :
      (loc : Bytes) (sub : SubId) (v : Value) (c : RunCtx)
      → Extends B c (evaluate_ref next loc sub v c)
  unfolding evaluate_ref
  evaluate_ref-Extends loc sub v c =
      let e = evaluate-Extends (some sub) v (record c {
        ref_path = record { from = loc; root = (c.schema.deref sub).location } ∷ c.ref_path;
      }) in
      Extends-tally c _ e
        (λ i. record (e.framed i) { ref_path = mathlib.Core.List.tail (e.framed i).ref_path }) refl
        refl

  -- A branch holds the errors that it hands back, and `cost` is what they are charged.
  pub branch-Holding :
      (sub : Option SubId) (v : Value) (c : RunCtx)
      → Holding B (evaluate_branch next sub v c).errs c (evaluate_branch next sub v c).after
  unfolding evaluate_branch total
  branch-Holding sub v c =
      let e =
        is.extends sub v
          (record c { errors = []; anno_entries = []; scope = none; stop_fired = false }) in
      record {
        framed = e.framed;
        errors = refl;
        fails = refl;
        cost = omega (arith, e.cost, ap total e.appended);
        budget = record {
          over = e.budget.over;
          calm = λ k. Calm-again _ (e.budget.calm (Calm-again _ k refl refl)) refl refl;
          counted = e.budget.counted;
          within = e.budget.within;
        };
      }

  pub branch-cost :
      (sub : Option SubId) (v : Value) (c : RunCtx)
      → (evaluate_branch next sub v c).cost ≡ total (evaluate_branch next sub v c).errs
  unfolding evaluate_branch
  branch-cost sub v c =
      let e =
        is.extends sub v
          (record c { errors = []; anno_entries = []; scope = none; stop_fired = false }) in
      omega (arith, e.cost, ap total e.appended)

  -- A branch whose errors are dropped and refunded leaves nothing held.
  pub refunded_branch-Holding :
      (sub : Option SubId) (v : Value) (c : RunCtx)
      → Holding B [] c
          (refund_errors (evaluate_branch next sub v c).cost (evaluate_branch next sub v c).after)
  refunded_branch-Holding sub v c =
      refund-Holding (branch-Holding sub v c) [] _ _ refl (branch-cost sub v c)
