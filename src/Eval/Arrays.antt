-- ===== src/Eval/Arrays.antt =====
-- The applicators to the items of an array (eval_applicator.go, eval_unevaluated.go).
use jsonschema.Prelude.{
  ℕ, ◌+◌, min, Bool, true, false, ◌||◌, List, [], ◌∷◌, ◌++◌, Option, none, some, map, length, drop,
  leb, ltb, ◌==◌, if◌then◌else◌,
}
use jsonschema.Prelude.Bytes.{Bytes, codes, itoa}
use jsonschema.Value.{Value}
use jsonschema.Eval.Types.{SubId, RunCtx, AnnoScope, index, evaluated_keys}
use jsonschema.Eval.Report.{add_error, append_annotation, refund_errors}
use jsonschema.Eval.Scope.{record_prefix, record_all_items, mark_contained, empty_scope}
use jsonschema.Eval.Walk.{Runner, evaluate_item, evaluate_branch, push_instance, pop_instance}
use jsonschema.Eval.Combine.{passes}

-- A walk over items from index `i`, with one subschema for all.
unfoldable pub each_item : Runner → SubId → ℕ → List Value → RunCtx → RunCtx
unfolding evaluate_item
each_item next sub i [] c = c
each_item next sub i (v ∷ vs) c =
    each_item next sub (i + 1) vs (evaluate_item next (some sub) v i c)

-- A walk over the first items, with a subschema for each.
unfoldable pub each_prefix : Runner → List SubId → ℕ → List Value → RunCtx → RunCtx
unfolding evaluate_item
each_prefix next [] i vs c = c
each_prefix next (sub ∷ subs) i [] c = c
each_prefix next (sub ∷ subs) i (v ∷ vs) c =
    each_prefix next subs (i + 1) vs (evaluate_item next (some sub) v i c)

-- prefixItemsEval, and the array form of itemsEval, which differ in the keyword.
unfoldable pub eval_prefix_items :
    Runner → Bytes → Bytes → List SubId → List Value → RunCtx → RunCtx
unfolding each_prefix record_prefix
eval_prefix_items next keyword loc subs arr c =
    record_prefix keyword loc (min (length subs) (length arr)) (each_prefix next subs 0 arr c)

-- The schema form of itemsEval, from index `start`, and additionalItemsEval past its two guards:
-- both walk the items from `start` on, and record them where there are any.
unfoldable pub eval_items_from : Runner → Bytes → Bytes → SubId → ℕ → List Value → RunCtx → RunCtx
unfolding each_item record_all_items
eval_items_from next keyword loc sub start arr c =
    let walked = each_item next sub start (drop start arr) c in
    if ltb start (length arr) then record_all_items keyword loc walked else walked

-- additionalItemsEval: `none` where items is missing or a single schema.
unfoldable pub eval_additional_items :
    Runner → Bytes → SubId → Option ℕ → List Value → RunCtx → RunCtx
unfolding each_item record_all_items
eval_additional_items next loc sub none arr c = c
eval_additional_items next loc sub (some start) arr c =
    if leb (length arr) start
    then c
    else record_all_items (codes "additionalItems") loc
        (each_item next sub start (drop start arr) c)

-- One round of the loop of containsEval: whether the item matched, and the context.
unfoldable pub contains_item : Runner → SubId → ℕ → Value → RunCtx → Bool × RunCtx
unfolding evaluate_branch refund_errors passes push_instance pop_instance
contains_item next sub i v c =
    let b =
      evaluate_branch next (some sub) v (record (push_instance (index i) c) { ref_depth = 0 }) in
    let refunded = refund_errors b.cost b.after in
    (passes b.errs, pop_instance (record refunded { ref_depth = c.ref_depth }))

unfoldable pub contains_loop : Runner → SubId → ℕ → List Value → List ℕ → RunCtx → List ℕ × RunCtx
unfolding contains_item
contains_loop next sub i [] matched c = (matched, c)
contains_loop next sub i (v ∷ vs) matched c =
    let (hit, c') = contains_item next sub i v c in
    contains_loop next sub (i + 1) vs (if hit then matched ++ i ∷ [] else matched) c'

unfoldable pub contains_message : ℕ → Bytes → ℕ → Bytes
contains_message count which bound =
    codes "contains matched " ++ (itoa count ++ (codes " items; " ++ (which ++ itoa bound)))

unfoldable pub min_bound : Option ℕ → ℕ
min_bound none = 1
min_bound (some n) = n

unfoldable pub check_max : Bytes → ℕ → Option ℕ → RunCtx → RunCtx
check_max loc count none c = c
check_max loc count (some n) c =
    if ltb n count
    then add_error loc (codes "contains") (contains_message count (codes "maxContains is ") n) c
    else c

-- The checks and records behind the loop of containsEval.
unfoldable pub contains_verdict : Bytes → Option ℕ → Option ℕ → List ℕ × RunCtx → RunCtx
unfolding min_bound check_max contains_message add_error mark_contained append_annotation
contains_verdict loc min_contains max_contains (matched, c) =
    let count = length matched in
    let checked =
      (if ltb count (min_bound min_contains)
        then add_error loc (codes "contains")
            (contains_message count (codes "minContains is ") (min_bound min_contains)) c
        else c) in
    let bounded = check_max loc count max_contains checked in
    if count == 0
    then bounded
    else append_annotation loc (codes "contains") (evaluated_keys (map itoa matched))
        (mark_contained matched bounded)

-- containsEval
unfoldable pub eval_contains :
    Runner → Bytes → SubId → Option ℕ → Option ℕ → List Value → RunCtx → RunCtx
unfolding contains_loop contains_verdict
eval_contains next loc sub min_contains max_contains arr c =
    contains_verdict loc min_contains max_contains (contains_loop next sub 0 arr [] c)

unfoldable pub scope_of : Option AnnoScope → AnnoScope
scope_of none = empty_scope
scope_of (some s) = s

unfoldable pub has_index : List ℕ → ℕ → Bool
has_index [] i = false
has_index (j ∷ js) i = j == i || has_index js i

-- The loop of unevaluatedItemsEval, with whether an item was visited.
unfoldable pub unevaluated_loop :
    Runner → SubId → List ℕ → ℕ → List Value → Bool → RunCtx → Bool × RunCtx
unfolding evaluate_item has_index
unevaluated_loop next sub contained i [] visited c = (visited, c)
unevaluated_loop next sub contained i (v ∷ vs) visited c =
    let skip = has_index contained i in
    unevaluated_loop next sub contained (i + 1) vs (if skip then visited else true)
      (if skip then c else evaluate_item next (some sub) v i c)

unfoldable pub record_visited : Bytes → Bool × RunCtx → RunCtx
record_visited loc (visited, c) =
    if visited then record_all_items (codes "unevaluatedItems") loc c else c

-- unevaluatedItemsEval
unfoldable pub eval_unevaluated_items : Runner → Bytes → SubId → List Value → RunCtx → RunCtx
unfolding unevaluated_loop record_visited record_all_items scope_of
eval_unevaluated_items next loc sub arr c =
    let s = scope_of c.scope in
    if s.all_items
    then c
    else record_visited loc
        (unevaluated_loop next sub s.contained s.prefix (drop s.prefix arr) false c)
