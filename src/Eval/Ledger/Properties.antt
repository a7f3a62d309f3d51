-- ===== src/Eval/Ledger/Properties.antt =====
-- The applicators to properties and the ledger.
use jsonschema.Prelude.{
  ℕ, refl, Bool, not, ◌||◌, List, [], ◌∷◌, Option, none, some, length, leb, ◌==◌, if_cases,
}
use jsonschema.Prelude.Bytes.{Bytes, codes, lookup, sort_strings, has_key}
use jsonschema.Value.{Value, string}
use jsonschema.Eval.Types.{SubId, RunCtx, max_key_count}
use jsonschema.Eval.Paths.{instance_pointer}
use jsonschema.Eval.Report.{check_max_key_count}
use jsonschema.Eval.Walk.{Runner}
use jsonschema.Eval.Objects.{
  Properties, Pattern, value_of, keys_of, each_key, evaluate_property, properties_loop, record_seen,
  eval_properties, patterns_at, patterns_loop, eval_pattern_properties, eval_additional_properties,
  names_loop, eval_property_names, eval_unevaluated_properties, tracks_evaluated, any_pattern,
  select, covered, scope_props,
}
use jsonschema.Eval.Ledger.{Holding-refl, Extends, Extends-trans}
use jsonschema.Eval.Ledger.Steps.{add_error_with_cause-Extends, Extends-refl, quiet-Holding}
use jsonschema.Eval.Ledger.Tally.{Extends-quiet}
use jsonschema.Eval.Ledger.Walks.{IsExtending, record_keys-Holding, evaluate_child-Extends}

module _ {B : ℕ} where
  check_max_key_count-Extends :
      (size : ℕ) (loc : Bytes) (c : RunCtx) → Extends B c (check_max_key_count size loc c).1
  unfolding check_max_key_count
  check_max_key_count-Extends size loc c =
      if_cases P (c.opts.max_key_count == 0 || leb size c.opts.max_key_count) (λ _. Extends-refl c)
        (λ _.
          if_cases P (has_key c.key_count_fired (instance_pointer c.instance_path))
            (λ _. Extends-refl c)
            (λ _.
              add_error_with_cause-Extends loc _ _ (some max_key_count)
                (quiet-Holding _ (Holding-refl c) refl refl refl refl refl refl refl)))
    where
      P : Bool × RunCtx → Type 0
      P r = Extends B c r.1

  record_seen-Extends :
      (keyword loc : Bytes) {c : RunCtx} (r : List Bytes × RunCtx)
      → Extends B c r.1
      → Extends B c (record_seen keyword loc r)
  unfolding record_seen
  record_seen-Extends keyword loc (seen, d) e =
      Extends-quiet e (record_keys-Holding keyword loc seen d)

  module _ {next : Runner} (is : IsExtending B next) where
    each_key-Extends :
        (sub : SubId) (obj : Properties) (ks : List Bytes) (c : RunCtx)
        → Extends B c (each_key next sub obj ks c)
    unfolding each_key
    each_key-Extends sub obj [] c = Extends-refl c
    each_key-Extends sub obj (k ∷ ks) c =
        Extends-trans (evaluate_child-Extends is (some sub) (value_of obj k) k c)
          (each_key-Extends sub obj ks _)

    evaluate_property-Extends :
        (track : Bool) (subs : List (Bytes × SubId)) (k : Bytes) (o : Option Value)
        (r : List Bytes × RunCtx)
        → Extends B r.1 (evaluate_property next track subs k o r).1
    unfolding evaluate_property
    evaluate_property-Extends track subs k none (seen, c) = Extends-refl c
    evaluate_property-Extends track subs k (some v) (seen, c) =
        evaluate_child-Extends is (lookup subs k) v k c

    properties_loop-Extends :
        (track : Bool) (ks : List Bytes) (subs : List (Bytes × SubId)) (obj : Properties)
        (r : List Bytes × RunCtx)
        → Extends B r.1 (properties_loop next track ks subs obj r).1
    unfolding properties_loop
    properties_loop-Extends track [] subs obj r = Extends-refl r.1
    properties_loop-Extends track (k ∷ ks) subs obj r =
        Extends-trans (evaluate_property-Extends track subs k (lookup obj k) r)
          (properties_loop-Extends track ks subs obj _)

    pub eval_properties-Extends :
        (loc : Bytes) (keys : List Bytes) (subs : List (Bytes × SubId)) (obj : Properties)
        (c : RunCtx)
        → Extends B c (eval_properties next loc keys subs obj c)
    unfolding eval_properties
    eval_properties-Extends loc keys subs obj c =
        let checked = check_max_key_count-Extends (length obj) loc c in
        if_cases (Extends B c) (check_max_key_count (length obj) loc c).0
          (λ _.
            let d = (check_max_key_count (length obj) loc c).1 in
            record_seen-Extends (codes "properties") loc
              (properties_loop next (tracks_evaluated d) keys subs obj ([], d))
              (Extends-trans checked
                (properties_loop-Extends (tracks_evaluated d) keys subs obj ([], d))))
          (λ _. checked)

    patterns_at-Extends :
        (track only : Bool) (ps : List Pattern) (obj : Properties) (k : Bytes) (seen : List Bytes)
        (c : RunCtx)
        → Extends B c (patterns_at next track only ps obj k seen c).1
    unfolding patterns_at
    patterns_at-Extends track only [] obj k seen c = Extends-refl c
    patterns_at-Extends track only ((test, sub) ∷ ps) obj k seen c =
        if_cases (λ (r : List Bytes × RunCtx). Extends B c r.1) (only || test k)
          (λ _.
            Extends-trans (evaluate_child-Extends is (some sub) (value_of obj k) k c)
              (patterns_at-Extends track only ps obj k _ _))
          (λ _. patterns_at-Extends track only ps obj k seen c)

    patterns_loop-Extends :
        (track : Bool) (ps : List Pattern) (obj : Properties) (ks seen : List Bytes) (c : RunCtx)
        → Extends B c (patterns_loop next track ps obj ks seen c).1
    unfolding patterns_loop
    patterns_loop-Extends track ps obj [] seen c = Extends-refl c
    patterns_loop-Extends track ps obj (k ∷ ks) seen c =
        Extends-trans (patterns_at-Extends track (length ps == 1) ps obj k seen c)
          (patterns_loop-Extends track ps obj ks _ _)

    pub eval_pattern_properties-Extends :
        (loc : Bytes) (ps : List Pattern) (obj : Properties) (c : RunCtx)
        → Extends B c (eval_pattern_properties next loc ps obj c)
    unfolding eval_pattern_properties
    eval_pattern_properties-Extends loc ps obj c =
        let checked = check_max_key_count-Extends (length obj) loc c in
        if_cases (Extends B c) (check_max_key_count (length obj) loc c).0
          (λ _.
            let d = (check_max_key_count (length obj) loc c).1 in
            let ks = sort_strings (select (any_pattern ps) (keys_of obj)) in
            record_seen-Extends (codes "patternProperties") loc
              (patterns_loop next (tracks_evaluated d) ps obj ks [] d)
              (Extends-trans checked (patterns_loop-Extends (tracks_evaluated d) ps obj ks [] d)))
          (λ _. checked)

    pub eval_additional_properties-Extends :
        (loc : Bytes) (sub : SubId) (named : List Bytes) (ps : List (Bytes → Bool))
        (obj : Properties) (c : RunCtx)
        → Extends B c (eval_additional_properties next loc sub named ps obj c)
    unfolding eval_additional_properties
    eval_additional_properties-Extends loc sub named ps obj c =
        let checked = check_max_key_count-Extends (length obj) loc c in
        let d = (check_max_key_count (length obj) loc c).1 in
        let extra = sort_strings (select (λ k. not (covered named ps k)) (keys_of obj)) in
        let walked = Extends-trans checked (each_key-Extends sub obj extra d) in
        if_cases (Extends B c) (check_max_key_count (length obj) loc c).0
          (λ _.
            if_cases (Extends B c) (tracks_evaluated (each_key next sub obj extra d))
              (λ _.
                Extends-quiet walked
                  (record_keys-Holding (codes "additionalProperties") loc extra _))
              (λ _. walked))
          (λ _. checked)

    names_loop-Extends :
        (sub : SubId) (ks : List Bytes) (c : RunCtx) → Extends B c (names_loop next sub ks c)
    unfolding names_loop
    names_loop-Extends sub [] c = Extends-refl c
    names_loop-Extends sub (k ∷ ks) c =
        Extends-trans (evaluate_child-Extends is (some sub) (string k) k c)
          (names_loop-Extends sub ks _)

    pub eval_property_names-Extends :
        (loc : Bytes) (sub : SubId) (obj : Properties) (c : RunCtx)
        → Extends B c (eval_property_names next loc sub obj c)
    unfolding eval_property_names
    eval_property_names-Extends loc sub obj c =
        let checked = check_max_key_count-Extends (length obj) loc c in
        if_cases (Extends B c) (check_max_key_count (length obj) loc c).0
          (λ _. Extends-trans checked (names_loop-Extends sub (sort_strings (keys_of obj)) _))
          (λ _. checked)

    pub eval_unevaluated_properties-Extends :
        (loc : Bytes) (sub : SubId) (obj : Properties) (c : RunCtx)
        → Extends B c (eval_unevaluated_properties next loc sub obj c)
    unfolding eval_unevaluated_properties
    eval_unevaluated_properties-Extends loc sub obj c =
        let left =
          sort_strings (select (λ k. not (has_key (scope_props c.scope) k)) (keys_of obj)) in
        Extends-quiet (each_key-Extends sub obj left c)
          (record_keys-Holding (codes "unevaluatedProperties") loc left _)
