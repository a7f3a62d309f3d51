-- ===== src/Eval/Objects.antt =====
-- The applicators to the properties of an object (eval_applicator.go, eval_unevaluated.go). Each
-- takes the entries of the object, in the unspecified order of a Go map.
use jsonschema.Prelude.{
  ℕ, Bool, true, false, not, ◌&&◌, ◌||◌, List, [], ◌∷◌, ◌++◌, Option, none, some, map, length,
  if◌then◌else◌,
}
use jsonschema.Prelude.Bytes.{Bytes, codes, str_eq, has_key, lookup, sort_strings}
use jsonschema.Value.{Value, null, string}
use jsonschema.Eval.Types.{SubId, RunCtx, AnnoScope}
use jsonschema.Eval.Report.{check_max_key_count}
use jsonschema.Eval.Scope.{record_keys}
use jsonschema.Eval.Walk.{Runner, evaluate_child}

abbrev pub Properties : Type 0
Properties = List (Bytes × Value)

-- `obj[k]`, where a missing key gives nil.
unfoldable pub value_of : Properties → Bytes → Value
unfolding lookup
value_of obj k = elim (lookup obj k) [ none ↦ null | some v ↦ v ]

-- `for k := range obj`
abbrev pub keys_of : Properties → List Bytes
keys_of obj = map (λ entry. entry.0) obj

-- The keys that a test keeps.
unfoldable pub select : (Bytes → Bool) → List Bytes → List Bytes
select test [] = []
select test (k ∷ ks) = if test k then k ∷ select test ks else select test ks

-- A walk over keys, which gives each to one subschema.
unfoldable pub each_key : Runner → SubId → Properties → List Bytes → RunCtx → RunCtx
unfolding evaluate_child value_of
each_key next sub obj [] c = c
each_key next sub obj (k ∷ ks) c =
    each_key next sub obj ks (evaluate_child next (some sub) (value_of obj k) k c)

abbrev pub tracks_evaluated : RunCtx → Bool
tracks_evaluated c = c.need_scope || c.public

-- One round of the loop of propertiesEval, at the value of the key: the properties evaluated so far,
-- and the context.
unfoldable pub evaluate_property :
    Runner
    → Bool
    → List (Bytes × SubId)
    → Bytes
    → Option Value
    → List Bytes × RunCtx
    → List Bytes × RunCtx
unfolding evaluate_child lookup
evaluate_property next track subs k none (seen, c) = (seen, c)
evaluate_property next track subs k (some v) (seen, c) =
    (if track then seen ++ k ∷ [] else seen, evaluate_child next (lookup subs k) v k c)

unfoldable pub properties_loop :
    Runner
    → Bool
    → List Bytes
    → List (Bytes × SubId)
    → Properties
    → List Bytes × RunCtx
    → List Bytes × RunCtx
unfolding evaluate_property lookup
properties_loop next track [] subs obj r = r
properties_loop next track (k ∷ ks) subs obj r =
    properties_loop next track ks subs obj (evaluate_property next track subs k (lookup obj k) r)

unfoldable pub record_seen : Bytes → Bytes → List Bytes × RunCtx → RunCtx
record_seen keyword loc (seen, c) = record_keys keyword loc seen c

-- propertiesEval
unfoldable pub eval_properties :
    Runner → Bytes → List Bytes → List (Bytes × SubId) → Properties → RunCtx → RunCtx
unfolding check_max_key_count properties_loop record_seen record_keys
eval_properties next loc keys subs obj c =
    let (proceed, checked) = check_max_key_count (length obj) loc c in
    if proceed
    then record_seen (codes "properties") loc
        (properties_loop next (tracks_evaluated checked) keys subs obj ([], checked))
    else checked

abbrev pub Pattern : Type 0
Pattern = (Bytes → Bool) × SubId

unfoldable pub any_pattern : List Pattern → Bytes → Bool
any_pattern [] k = false
any_pattern ((test, sub) ∷ ps) k = if test k then true else any_pattern ps k

-- Appends a key unless it is the last one.
unfoldable pub add_last : List Bytes → Bytes → List Bytes
add_last [] k = k ∷ []
add_last (j ∷ []) k = if str_eq j k then j ∷ [] else j ∷ k ∷ []
add_last (j ∷ i ∷ js) k = j ∷ add_last (i ∷ js) k

-- The inner loop of patternPropertiesEval, at one key. With a single pattern it does not match
-- again; `only` says so.
unfoldable pub patterns_at :
    Runner
    → Bool
    → Bool
    → List Pattern
    → Properties
    → Bytes
    → List Bytes
    → RunCtx
    → List Bytes × RunCtx
unfolding evaluate_child value_of add_last
patterns_at next track only [] obj k seen c = (seen, c)
patterns_at next track only ((test, sub) ∷ ps) obj k seen c =
    if only || test k
    then patterns_at next track only ps obj k (if track then add_last seen k else seen)
        (evaluate_child next (some sub) (value_of obj k) k c)
    else patterns_at next track only ps obj k seen c

unfoldable pub patterns_loop :
    Runner
    → Bool
    → List Pattern
    → Properties
    → List Bytes
    → List Bytes
    → RunCtx
    → List Bytes × RunCtx
unfolding patterns_at
patterns_loop next track ps obj [] seen c = (seen, c)
patterns_loop next track ps obj (k ∷ ks) seen c =
    let (seen', c') =
      patterns_at next track (jsonschema.Prelude.◌==◌ (length ps) 1) ps obj k seen c in
    patterns_loop next track ps obj ks seen' c'

-- patternPropertiesEval
unfoldable pub eval_pattern_properties :
    Runner → Bytes → List Pattern → Properties → RunCtx → RunCtx
unfolding check_max_key_count patterns_loop record_seen record_keys sort_strings any_pattern select
eval_pattern_properties next loc ps obj c =
    let (proceed, checked) = check_max_key_count (length obj) loc c in
    if proceed
    then record_seen (codes "patternProperties") loc (
        patterns_loop next (tracks_evaluated checked) ps obj
          (sort_strings (select (any_pattern ps) (keys_of obj))) [] checked)
    else checked

unfoldable pub any_match : List (Bytes → Bool) → Bytes → Bool
any_match [] k = false
any_match (re ∷ res) k = if re k then true else any_match res k

-- covered, of additionalPropertiesEval
unfoldable pub covered : List Bytes → List (Bytes → Bool) → Bytes → Bool
unfolding any_match has_key
covered named patterns k = if has_key named k then true else any_match patterns k

-- additionalPropertiesEval
unfoldable pub eval_additional_properties :
    Runner → Bytes → SubId → List Bytes → List (Bytes → Bool) → Properties → RunCtx → RunCtx
unfolding check_max_key_count each_key record_keys sort_strings covered select
eval_additional_properties next loc sub named patterns obj c =
    let (proceed, checked) = check_max_key_count (length obj) loc c in
    let extra = sort_strings (select (λ k. not (covered named patterns k)) (keys_of obj)) in
    let walked = each_key next sub obj extra checked in
    if proceed
    then if tracks_evaluated walked
      then record_keys (codes "additionalProperties") loc extra walked
      else walked
    else checked

unfoldable pub names_loop : Runner → SubId → List Bytes → RunCtx → RunCtx
unfolding evaluate_child
names_loop next sub [] c = c
names_loop next sub (k ∷ ks) c =
    names_loop next sub ks (evaluate_child next (some sub) (string k) k c)

-- propertyNamesEval
unfoldable pub eval_property_names : Runner → Bytes → SubId → Properties → RunCtx → RunCtx
unfolding check_max_key_count names_loop sort_strings
eval_property_names next loc sub obj c =
    let (proceed, checked) = check_max_key_count (length obj) loc c in
    if proceed then names_loop next sub (sort_strings (keys_of obj)) checked else checked

unfoldable pub scope_props : Option AnnoScope → List Bytes
scope_props none = []
scope_props (some s) = s.props

-- unevaluatedPropertiesEval
unfoldable pub eval_unevaluated_properties : Runner → Bytes → SubId → Properties → RunCtx → RunCtx
unfolding each_key record_keys sort_strings scope_props select has_key
eval_unevaluated_properties next loc sub obj c =
    let left = sort_strings (select (λ k. not (has_key (scope_props c.scope) k)) (keys_of obj)) in
    record_keys (codes "unevaluatedProperties") loc left (each_key next sub obj left c)
