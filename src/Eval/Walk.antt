-- ===== src/Eval/Walk.antt =====
-- How an evaluator descends into a subschema (eval.go): in place, at a child instance, through a
-- reference, and as a branch whose failures do not count. `next` is `runCtx.run`.
use jsonschema.Prelude.{ℕ, ◌-◌, false, List, [], ◌∷◌, ◌++◌, Option, none, some, ◌==◌, if◌then◌else◌}
use mathlib.Core.List.{tail}
use jsonschema.Prelude.Bytes.{Bytes}
use jsonschema.Value.{Value}
use jsonschema.Eval.Types.{
  SubId, RunCtx, InstanceStep, key, index, ValidationError, AnnotationEntry, AnnoScope,
}
use jsonschema.Eval.Scope.{adopt_scope}

abbrev pub Runner : Type 0
Runner = Option SubId → Value → RunCtx → RunCtx

unfoldable pub adopt_passing : ℕ → Option AnnoScope → RunCtx → RunCtx
unfolding adopt_scope
adopt_passing fails none c = c
adopt_passing fails (some s) c = if c.fail_count == fails then adopt_scope s c else c

-- evaluate
unfoldable pub evaluate : Runner → Option SubId → Value → RunCtx → RunCtx
unfolding adopt_passing
evaluate next sub v c =
    let after = next sub v (record c { scope = none }) in
    adopt_passing c.fail_count after.scope (record after { scope = c.scope })

-- evaluateAt
unfoldable pub evaluate_at : Runner → Option SubId → Value → RunCtx → RunCtx
evaluate_at next sub v c =
    let after = next sub v (record c { scope = none; need_scope = false; ref_depth = 0 }) in
    record after { scope = c.scope; need_scope = c.need_scope; ref_depth = c.ref_depth }

unfoldable pub push_instance : InstanceStep → RunCtx → RunCtx
push_instance s c = record c { instance_path = s ∷ c.instance_path }

unfoldable pub pop_instance : RunCtx → RunCtx
pop_instance c = record c { instance_path = tail c.instance_path }

-- evaluateChild and evaluateItem
unfoldable pub evaluate_child : Runner → Option SubId → Value → Bytes → RunCtx → RunCtx
unfolding evaluate_at push_instance pop_instance
evaluate_child next sub v k c = pop_instance (evaluate_at next sub v (push_instance (key k) c))

unfoldable pub evaluate_item : Runner → Option SubId → Value → ℕ → RunCtx → RunCtx
unfolding evaluate_at push_instance pop_instance
evaluate_item next sub v i c = pop_instance (evaluate_at next sub v (push_instance (index i) c))

-- evaluateRef, with the static location of the subschema that the reference enters.
unfoldable pub evaluate_ref : Runner → Bytes → SubId → Value → RunCtx → RunCtx
unfolding evaluate
evaluate_ref next loc sub v c =
    let root = (c.schema.deref sub).location in
    let after =
      evaluate next (some sub) v
        (record c { ref_path = record { from = loc; root = root } ∷ c.ref_path }) in
    record after { ref_path = tail after.ref_path }

-- branchAnnotations, and the results of evaluateBranch with the context behind it.
pub record BranchAnnotations : Type 0 where
  pub entries : List AnnotationEntry
  pub scope : Option AnnoScope

pub record Branch : Type 0 where
  pub errs : List ValidationError
  pub annos : BranchAnnotations
  pub cost : ℕ
  pub after : RunCtx

-- evaluateBranch
unfoldable pub evaluate_branch : Runner → Option SubId → Value → RunCtx → Branch
evaluate_branch next sub v c =
    let ran =
      next sub v (record c { errors = []; anno_entries = []; scope = none; stop_fired = false }) in
    record {
      errs = ran.errors;
      annos = record { entries = ran.anno_entries; scope = ran.scope };
      cost = ran.err_cost - c.err_cost;
      after = record ran {
        errors = c.errors;
        anno_entries = c.anno_entries;
        scope = c.scope;
        stop_fired = c.stop_fired;
        fail_count = c.fail_count;
      };
    }

-- addBranchAnnotations
unfoldable pub add_branch_annotations : BranchAnnotations → RunCtx → RunCtx
unfolding adopt_scope
add_branch_annotations b c =
    let logged = record c { anno_entries = c.anno_entries ++ b.entries } in
    elim b.scope [ none ↦ logged | some s ↦ adopt_scope s logged ]
