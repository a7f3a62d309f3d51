-- ===== src/Eval/Ledger/Keywords.antt =====
-- The dispatch over the keywords and the ledger.
use jsonschema.Prelude.{ℕ, List, Option, none, some, length}
use jsonschema.Prelude.Bytes.{codes}
use jsonschema.Value.{Value, as_array, as_object}
use jsonschema.Eval.Types
use jsonschema.Eval.Types.{Evaluator, SubId, Subschema, RunCtx}
use jsonschema.Eval.Walk.{Runner}
use jsonschema.Eval.Combine.{eval_dependent_schemas, eval_dependencies}
use jsonschema.Eval.Objects.{
  Properties, eval_properties, eval_pattern_properties, eval_additional_properties,
  eval_property_names, eval_unevaluated_properties,
}
use jsonschema.Eval.Arrays.{
  eval_prefix_items, eval_items_from, eval_additional_items, eval_contains, eval_unevaluated_items,
}
use jsonschema.Eval.Unique.{eval_unique_items}
use jsonschema.Eval.Asserts.{check_count, eval_required, eval_dependent_required}
use jsonschema.Eval.Run.{on_array, on_object, eval_keyword}
use jsonschema.Eval.Ledger.{Extends}
use jsonschema.Eval.Ledger.Steps.{Extends-refl}
use jsonschema.Eval.Ledger.Walks.{IsExtending}
use jsonschema.Eval.Ledger.Combining.{
  eval_all_of-Extends, eval_any_of-Extends, eval_one_of-Extends, eval_not-Extends, eval_if-Extends,
  eval_dependent_schemas-Extends, eval_dependencies-Extends, eval_ref-Extends,
}
use jsonschema.Eval.Ledger.Properties.{
  eval_properties-Extends, eval_pattern_properties-Extends, eval_additional_properties-Extends,
  eval_property_names-Extends, eval_unevaluated_properties-Extends,
}
use jsonschema.Eval.Ledger.Elements.{
  eval_prefix_items-Extends, eval_items_from-Extends, eval_additional_items-Extends,
  eval_contains-Extends, eval_unevaluated_items-Extends,
}
use jsonschema.Eval.Ledger.Verdicts.{
  eval_type-Extends, eval_enum-Extends, eval_const-Extends, eval_multiple_of-Extends,
  eval_range-Extends, check_count-Extends, eval_length-Extends, eval_pattern-Extends,
  eval_required-Extends, eval_dependent_required-Extends, eval_unique_items-Extends,
  eval_annotation-Extends,
}

module _ {B : ℕ} where
  on_array-Extends :
      (v : Value) (f : List Value → RunCtx → RunCtx) (c : RunCtx)
      → ((arr : List Value) → Extends B c (f arr c))
      → Extends B c (on_array v f c)
  unfolding on_array
  on_array-Extends v f c e = at (as_array v)
    where
      at : (o : Option (List Value)) → Extends B c (elim o [ none ↦ c | some arr ↦ f arr c ])
      at none = Extends-refl c
      at (some arr) = e arr

  on_object-Extends :
      (v : Value) (f : Properties → RunCtx → RunCtx) (c : RunCtx)
      → ((obj : Properties) → Extends B c (f obj c))
      → Extends B c (on_object v f c)
  unfolding on_object
  on_object-Extends v f c e = at (as_object v)
    where
      at : (o : Option Properties) → Extends B c (elim o [ none ↦ c | some obj ↦ f obj c ])
      at none = Extends-refl c
      at (some obj) = e obj

  module _ {next : Runner} (is : IsExtending B next) where
    pub eval_keyword-Extends :
        (ev : Evaluator) (v : Value) (c : RunCtx) → Extends B c (eval_keyword next ev v c)
    unfolding eval_keyword
    eval_keyword-Extends (Types.all_of loc subs) v c = eval_all_of-Extends is subs v c
    eval_keyword-Extends (Types.any_of loc subs) v c = eval_any_of-Extends is loc subs v c
    eval_keyword-Extends (Types.one_of loc subs) v c = eval_one_of-Extends is loc subs v c
    eval_keyword-Extends (Types.not_eval loc sub) v c = eval_not-Extends is loc sub v c
    eval_keyword-Extends (Types.if_then_else i t e) v c = eval_if-Extends is i t e v c
    eval_keyword-Extends (Types.dependent_schemas keys deps) v c =
        on_object-Extends v (λ obj. eval_dependent_schemas next keys deps obj v) c
          (λ obj. eval_dependent_schemas-Extends is keys deps obj v c)
    eval_keyword-Extends (Types.dependencies loc keys schemas reqs) v c =
        on_object-Extends v (λ obj. eval_dependencies next loc keys schemas reqs obj v) c
          (λ obj. eval_dependencies-Extends is loc keys schemas reqs obj v c)
    eval_keyword-Extends (Types.properties loc keys subs) v c =
        on_object-Extends v (eval_properties next loc keys subs) c
          (λ obj. eval_properties-Extends is loc keys subs obj c)
    eval_keyword-Extends (Types.pattern_properties loc ps) v c =
        on_object-Extends v (eval_pattern_properties next loc ps) c
          (λ obj. eval_pattern_properties-Extends is loc ps obj c)
    eval_keyword-Extends (Types.additional_properties loc sub named ps) v c =
        on_object-Extends v (eval_additional_properties next loc sub named ps) c
          (λ obj. eval_additional_properties-Extends is loc sub named ps obj c)
    eval_keyword-Extends (Types.property_names loc sub) v c =
        on_object-Extends v (eval_property_names next loc sub) c
          (λ obj. eval_property_names-Extends is loc sub obj c)
    eval_keyword-Extends (Types.prefix_items loc subs) v c =
        on_array-Extends v (eval_prefix_items next (codes "prefixItems") loc subs) c
          (λ arr. eval_prefix_items-Extends is (codes "prefixItems") loc subs arr c)
    eval_keyword-Extends (Types.items_prefix loc subs) v c =
        on_array-Extends v (eval_prefix_items next (codes "items") loc subs) c
          (λ arr. eval_prefix_items-Extends is (codes "items") loc subs arr c)
    eval_keyword-Extends (Types.items_from loc sub start) v c =
        on_array-Extends v (eval_items_from next (codes "items") loc sub start) c
          (λ arr. eval_items_from-Extends is (codes "items") loc sub start arr c)
    eval_keyword-Extends (Types.additional_items loc sub start) v c =
        on_array-Extends v (eval_additional_items next loc sub start) c
          (λ arr. eval_additional_items-Extends is loc sub start arr c)
    eval_keyword-Extends (Types.contains loc sub lo hi) v c =
        on_array-Extends v (eval_contains next loc sub lo hi) c
          (λ arr. eval_contains-Extends is loc sub lo hi arr c)
    eval_keyword-Extends (Types.unevaluated_items loc sub) v c =
        on_array-Extends v (eval_unevaluated_items next loc sub) c
          (λ arr. eval_unevaluated_items-Extends is loc sub arr c)
    eval_keyword-Extends (Types.unevaluated_properties loc sub) v c =
        on_object-Extends v (eval_unevaluated_properties next loc sub) c
          (λ obj. eval_unevaluated_properties-Extends is loc sub obj c)
    eval_keyword-Extends (Types.ref loc source to) v c = eval_ref-Extends is loc source to v c
    eval_keyword-Extends (Types.string_length loc kw upper bound) v c =
        eval_length-Extends loc kw upper bound v c
    eval_keyword-Extends (Types.pattern loc re src) v c = eval_pattern-Extends loc re src v c
    eval_keyword-Extends (Types.items_count loc kw upper bound) v c =
        on_array-Extends v
          (λ arr. check_count loc kw upper bound (codes "array length ") (length arr)) c
          (λ arr. check_count-Extends loc kw upper bound (codes "array length ") (length arr) c)
    eval_keyword-Extends (Types.props_count loc kw upper bound) v c =
        on_object-Extends v
          (λ obj. check_count loc kw upper bound (codes "property count ") (length obj)) c
          (λ obj. check_count-Extends loc kw upper bound (codes "property count ") (length obj) c)
    eval_keyword-Extends (Types.required loc keys ro wo) v c =
        on_object-Extends v (λ obj. eval_required loc keys ro wo obj) c
          (λ obj. eval_required-Extends loc keys ro wo obj c)
    eval_keyword-Extends (Types.dependent_required loc keys deps) v c =
        on_object-Extends v (λ obj. eval_dependent_required loc keys deps obj) c
          (λ obj. eval_dependent_required-Extends loc keys deps obj c)
    eval_keyword-Extends (Types.type_eval loc allowed msg draft4) v c =
        eval_type-Extends loc allowed msg draft4 v c
    eval_keyword-Extends (Types.enum_eval loc vals) v c = eval_enum-Extends loc vals v c
    eval_keyword-Extends (Types.const_eval loc val) v c = eval_const-Extends loc val v c
    eval_keyword-Extends (Types.multiple_of loc val text) v c =
        eval_multiple_of-Extends loc val text v c
    eval_keyword-Extends (Types.range loc kw val text exclusive upper) v c =
        eval_range-Extends loc kw val text exclusive upper v c
    eval_keyword-Extends (Types.unique_items loc on) v c =
        on_array-Extends v (eval_unique_items loc on) c
          (λ arr. eval_unique_items-Extends loc on arr c)
    eval_keyword-Extends (Types.annotation loc kw value string_only) v c =
        eval_annotation-Extends loc kw value string_only v c
