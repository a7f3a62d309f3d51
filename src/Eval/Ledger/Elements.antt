-- ===== src/Eval/Ledger/Elements.antt =====
-- The applicators to array items and the ledger.
use jsonschema.Prelude.{
  ℕ, ◌+◌, refl, Bool, false, List, [], ◌∷◌, Option, none, some, length, drop, leb, ltb, ◌==◌,
  if_cases,
}
use jsonschema.Prelude.Bytes.{Bytes, codes}
use jsonschema.Value.{Value}
use jsonschema.Eval.Types.{SubId, RunCtx, index}
use jsonschema.Eval.Scope.{mark_contained, add_contained}
use jsonschema.Eval.Walk.{Runner, push_instance, pop_instance}
use jsonschema.Eval.Arrays.{
  each_item, each_prefix, eval_prefix_items, eval_items_from, eval_additional_items, contains_item,
  contains_loop, check_max, contains_verdict, min_bound, eval_contains, has_index, unevaluated_loop,
  record_visited, eval_unevaluated_items, scope_of,
}
use jsonschema.Eval.Ledger.{Holding-refl, Extends, Extends-trans}
use jsonschema.Eval.Ledger.Steps.{add_error-Extends, Holding→Extends, Extends-refl}
use jsonschema.Eval.Ledger.Tally.{Holding-quiet, Extends-quiet, Extends-tally}
use jsonschema.Eval.Ledger.Walks.{
  IsExtending, mark-Holding, append_annotation-Holding, record_prefix-Holding,
  record_all_items-Holding, evaluate_item-Extends, refunded_branch-Holding,
}

module _ {B : ℕ} where
  check_max-Extends :
      (loc : Bytes) (count : ℕ) (bound : Option ℕ) (c : RunCtx)
      → Extends B c (check_max loc count bound c)
  unfolding check_max
  check_max-Extends loc count none c = Extends-refl c
  check_max-Extends loc count (some n) c =
      if_cases (Extends B c) (ltb n count) (λ _. add_error-Extends loc _ _ (Holding-refl c))
        (λ _. Extends-refl c)

  contains_verdict-Extends :
      (loc : Bytes) (lo hi : Option ℕ) {c : RunCtx} (r : List ℕ × RunCtx)
      → Extends B c r.1
      → Extends B c (contains_verdict loc lo hi r)
  unfolding contains_verdict mark_contained
  contains_verdict-Extends loc lo hi {c} (matched, d) e =
      let checked = Extends-trans e (
        if_cases (Extends B d) (ltb (length matched) (min_bound lo))
          (λ _. add_error-Extends loc (codes "contains") _ (Holding-refl d))
          (λ _. Extends-refl d)) in
      let bounded = Extends-trans checked (check_max-Extends loc (length matched) hi _) in
      if_cases (Extends B c) (length matched == 0) (λ _. bounded)
        (λ _. Extends-quiet bounded (
          Holding-quiet (mark-Holding (add_contained matched) _)
            (append_annotation-Holding loc _ _ _)))

  record_visited-Extends :
      (loc : Bytes) {c : RunCtx} (r : Bool × RunCtx)
      → Extends B c r.1
      → Extends B c (record_visited loc r)
  unfolding record_visited
  record_visited-Extends loc {c} (visited, d) e =
      if_cases (Extends B c) visited (λ _. Extends-quiet e (record_all_items-Holding _ loc d))
        (λ _. e)

  module _ {next : Runner} (is : IsExtending B next) where
    each_item-Extends :
        (sub : SubId) (i : ℕ) (vs : List Value) (c : RunCtx)
        → Extends B c (each_item next sub i vs c)
    unfolding each_item
    each_item-Extends sub i [] c = Extends-refl c
    each_item-Extends sub i (v ∷ vs) c =
        Extends-trans (evaluate_item-Extends is (some sub) v i c)
          (each_item-Extends sub (i + 1) vs _)

    each_prefix-Extends :
        (subs : List SubId) (i : ℕ) (vs : List Value) (c : RunCtx)
        → Extends B c (each_prefix next subs i vs c)
    unfolding each_prefix
    each_prefix-Extends [] i vs c = Extends-refl c
    each_prefix-Extends (sub ∷ subs) i [] c = Extends-refl c
    each_prefix-Extends (sub ∷ subs) i (v ∷ vs) c =
        Extends-trans (evaluate_item-Extends is (some sub) v i c)
          (each_prefix-Extends subs (i + 1) vs _)

    pub eval_prefix_items-Extends :
        (keyword loc : Bytes) (subs : List SubId) (arr : List Value) (c : RunCtx)
        → Extends B c (eval_prefix_items next keyword loc subs arr c)
    unfolding eval_prefix_items
    eval_prefix_items-Extends keyword loc subs arr c =
        Extends-quiet (each_prefix-Extends subs 0 arr c) (record_prefix-Holding keyword loc _ _)

    pub eval_items_from-Extends :
        (keyword loc : Bytes) (sub : SubId) (start : ℕ) (arr : List Value) (c : RunCtx)
        → Extends B c (eval_items_from next keyword loc sub start arr c)
    unfolding eval_items_from
    eval_items_from-Extends keyword loc sub start arr c =
        let walked = each_item-Extends sub start (drop start arr) c in
        if_cases (Extends B c) (ltb start (length arr))
          (λ _. Extends-quiet walked (record_all_items-Holding keyword loc _)) (λ _. walked)

    pub eval_additional_items-Extends :
        (loc : Bytes) (sub : SubId) (start : Option ℕ) (arr : List Value) (c : RunCtx)
        → Extends B c (eval_additional_items next loc sub start arr c)
    unfolding eval_additional_items
    eval_additional_items-Extends loc sub none arr c = Extends-refl c
    eval_additional_items-Extends loc sub (some start) arr c =
        if_cases (Extends B c) (leb (length arr) start) (λ _. Extends-refl c)
          (λ _.
            Extends-quiet (each_item-Extends sub start (drop start arr) c)
              (record_all_items-Holding _ loc _))

    contains_item-Extends :
        (sub : SubId) (i : ℕ) (v : Value) (c : RunCtx)
        → Extends B c (contains_item next sub i v c).1
    unfolding contains_item push_instance pop_instance
    contains_item-Extends sub i v c =
        let e = Holding→Extends (
          refunded_branch-Holding is (some sub) v
            (record (push_instance (index i) c) { ref_depth = 0 })) in
        Extends-tally c _ e
          (λ k. record (e.framed k) {
            ref_depth = c.ref_depth;
            instance_path = mathlib.Core.List.tail (e.framed k).instance_path;
          })
          refl refl

    contains_loop-Extends :
        (sub : SubId) (i : ℕ) (vs : List Value) (matched : List ℕ) (c : RunCtx)
        → Extends B c (contains_loop next sub i vs matched c).1
    unfolding contains_loop
    contains_loop-Extends sub i [] matched c = Extends-refl c
    contains_loop-Extends sub i (v ∷ vs) matched c =
        Extends-trans (contains_item-Extends sub i v c) (contains_loop-Extends sub (i + 1) vs _ _)

    pub eval_contains-Extends :
        (loc : Bytes) (sub : SubId) (lo hi : Option ℕ) (arr : List Value) (c : RunCtx)
        → Extends B c (eval_contains next loc sub lo hi arr c)
    unfolding eval_contains
    eval_contains-Extends loc sub lo hi arr c =
        contains_verdict-Extends loc lo hi _ (contains_loop-Extends sub 0 arr [] c)

    unevaluated_loop-Extends :
        (sub : SubId) (contained : List ℕ) (i : ℕ) (vs : List Value) (visited : Bool) (c : RunCtx)
        → Extends B c (unevaluated_loop next sub contained i vs visited c).1
    unfolding unevaluated_loop
    unevaluated_loop-Extends sub contained i [] visited c = Extends-refl c
    unevaluated_loop-Extends sub contained i (v ∷ vs) visited c =
        Extends-trans
          (if_cases (Extends B c) (has_index contained i) (λ _. Extends-refl c)
            (λ _. evaluate_item-Extends is (some sub) v i c))
          (unevaluated_loop-Extends sub contained (i + 1) vs _ _)

    pub eval_unevaluated_items-Extends :
        (loc : Bytes) (sub : SubId) (arr : List Value) (c : RunCtx)
        → Extends B c (eval_unevaluated_items next loc sub arr c)
    unfolding eval_unevaluated_items
    eval_unevaluated_items-Extends loc sub arr c =
        if_cases (Extends B c) (scope_of c.scope).all_items (λ _. Extends-refl c)
          (λ _.
            let s = scope_of c.scope in
            record_visited-Extends loc
              (unevaluated_loop next sub s.contained s.prefix (drop s.prefix arr) false c)
              (unevaluated_loop-Extends sub s.contained s.prefix (drop s.prefix arr) false c))
