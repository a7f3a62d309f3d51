-- ===== src/Output/Leaves.antt =====
-- The flat and the nested output of output.go hold every error, with its causes.
use jsonschema.Prelude.{
  ℕ, ◌+◌, Bool, true, false, ◌||◌, List, [], ◌∷◌, ◌++◌, Option, none, some, ◌≡◌, refl, sym, ap, ◌∙◌,
  if◌then◌else◌, if_cases, length, length-append, arith,
}
use mathlib.Core.Option.{some-injective}
use jsonschema.Prelude.Bytes.{Bytes, str_eq}
use jsonschema.Eval.Types.{
  ErrorFields, ValidationError, validation_error, Causes, no_causes, cause_of,
}
use jsonschema.Output.Flat.{
  Annotation, Result, NodeFields, OutputNode, output_node, Nodes, no_nodes, node_of, error_message,
  normalize_keyword_location, keyword_message, flat_entry, flat_annotation, flat_entries,
  flat_cause_entries, flat_error_entries, render_basic, flat_annotations, header_entry,
}
use jsonschema.Output.Tree.{
  append_node, no_text, error_group, annotation_group, change_first, new_group, into_group, at_path,
  at_parent, parent_pointer, split_pointer, add_error_leaf, add_annotation_leaf, insert_error,
  insert_causes, insert_annotation, insert_errors, insert_annotations, build_output_tree,
  output_root,
}

-- The errors in an error, itself included.
unfoldable mutual
  pub reported : ValidationError → ℕ
  reported (validation_error e causes) = 1 + reported_causes causes

  pub reported_causes : Causes → ℕ
  reported_causes no_causes = 0
  reported_causes (cause_of e causes) = reported e + reported_causes causes

unfoldable pub all_reported : List ValidationError → ℕ
unfolding reported
all_reported [] = 0
all_reported (e ∷ es) = reported e + all_reported es

-- The nodes of a tree that carry the text of an error.
unfoldable pub text_count : Bytes → ℕ
text_count [] = 0
text_count (c ∷ s) = 1

unfoldable mutual
  unfolding text_count

  pub error_nodes : OutputNode → ℕ
  error_nodes (output_node f es as') =
      text_count f.error_text + (error_nodes_in es + error_nodes_in as')

  pub error_nodes_in : Nodes → ℕ
  error_nodes_in no_nodes = 0
  error_nodes_in (node_of n ns) = error_nodes n + error_nodes_in ns

text_count-error_message : (e : ErrorFields) → text_count (error_message e) ≡ 1
unfolding error_message keyword_message text_count
text_count-error_message e = at e.message e.keyword
  where
    at :
        (message keyword : Bytes)
        → text_count (elim message [ [] ↦ keyword_message keyword | c ∷ s ↦ c ∷ s ]) ≡ 1
    at [] [] = refl
    at [] (c ∷ s) = refl
    at (c ∷ s) keyword = refl

-- A change that adds some nodes with errors to any node.
abbrev Adds : ℕ → (OutputNode → OutputNode) → Type 0
Adds k change = (n : OutputNode) → error_nodes (change n) ≡ error_nodes n + k

error_nodes-append_node :
    (ns : Nodes) (n : OutputNode)
    → error_nodes_in (append_node ns n) ≡ error_nodes_in ns + error_nodes n
unfolding append_node error_nodes_in
error_nodes-append_node no_nodes n = omega arith
error_nodes-append_node (node_of m ns) n = omega (arith, error_nodes-append_node ns n)

change_first-Adds :
    (k : ℕ) (test : NodeFields → Bool) (change : OutputNode → OutputNode) (ns ns' : Nodes)
    → Adds k change
    → change_first test change ns ≡ some ns'
    → error_nodes_in ns' ≡ error_nodes_in ns + k
unfolding change_first error_nodes_in
change_first-Adds k test change no_nodes ns' adds got = absurd (ground arith)
change_first-Adds k test change (node_of (output_node f es as') ns) ns' adds got =
    at (test f) (change_first test change ns)
      (λ found e. change_first-Adds k test change ns found adds e) got
  where
    here : OutputNode
    here = output_node f es as'

    at :
        (b : Bool) (o : Option Nodes)
        → ((found : Nodes) → o ≡ some found → error_nodes_in found ≡ error_nodes_in ns + k)
        → (if b
            then some (node_of (change here) ns)
            else elim o [ none ↦ none | some found ↦ some (node_of here found) ])
          ≡ some ns'
        → error_nodes_in ns' ≡ error_nodes_in (node_of here ns) + k
    at true o rest e =
        sym (ap error_nodes_in (some-injective (node_of (change here) ns) ns' e))
        ∙ omega (arith, adds here)
    at false none rest e = absurd (ground arith)
    at false (some found) rest e =
        sym (ap error_nodes_in (some-injective (node_of here found) ns' e))
        ∙ omega (arith, rest found refl)

into_group-Adds :
    (k : ℕ) (prefix instance_location : Bytes) (change : OutputNode → OutputNode)
    → Adds k change
    → Adds k (into_group prefix instance_location change)
unfolding into_group error_nodes new_group
into_group-Adds k prefix instance_location change adds (output_node f es as') =
    at (change_first (error_group prefix) change es)
      (change_first (annotation_group prefix) change as')
      (λ found e. change_first-Adds k (error_group prefix) change es found adds e)
      (λ found e. change_first-Adds k (annotation_group prefix) change as' found adds e)
      (error_nodes-append_node es (change (new_group prefix instance_location)))
      (adds (new_group prefix instance_location))
  where
    at :
        (o q : Option Nodes)
        → ((found : Nodes) → o ≡ some found → error_nodes_in found ≡ error_nodes_in es + k)
        → ((found : Nodes) → q ≡ some found → error_nodes_in found ≡ error_nodes_in as' + k)
        → error_nodes_in (append_node es (change (new_group prefix instance_location)))
          ≡ error_nodes_in es + error_nodes (change (new_group prefix instance_location))
        → error_nodes (change (new_group prefix instance_location)) ≡ 0 + k
        → error_nodes (elim o [
          | some es' ↦ output_node f es' as'
          | none ↦ elim q [
            | some as'' ↦ output_node f es as''
            | none ↦
                output_node f (append_node es (change (new_group prefix instance_location))) as'
          ]
        ])
          ≡ error_nodes (output_node f es as') + k
    at (some es') q first second appended fresh = omega (arith, first es' refl)
    at none (some as'') first second appended fresh = omega (arith, second as'' refl)
    at none none first second appended fresh = omega (arith, appended, fresh)

at_path-Adds :
    (k : ℕ) (prefix : Bytes) (segs : List Bytes) (instance_location : Bytes)
    (change : OutputNode → OutputNode)
    → Adds k change
    → Adds k (at_path prefix segs instance_location change)
unfolding at_path
at_path-Adds k prefix [] instance_location change adds = adds
at_path-Adds k prefix (seg ∷ segs) instance_location change adds =
    into_group-Adds k (prefix ++ b'/' ∷ seg) instance_location
      (at_path (prefix ++ b'/' ∷ seg) segs instance_location change)
      (at_path-Adds k (prefix ++ b'/' ∷ seg) segs instance_location change adds)

at_parent-Adds :
    (k : ℕ) (location instance_location : Bytes) (change : OutputNode → OutputNode)
    → Adds k change
    → Adds k (at_parent location instance_location change)
unfolding at_parent
at_parent-Adds k location instance_location change adds root =
    if_cases (λ (n : OutputNode). error_nodes n ≡ error_nodes root + k)
      (str_eq (parent_pointer location) location || no_text (parent_pointer location))
      (λ _. adds root)
      (λ _.
        at_path-Adds k [] (split_pointer (parent_pointer location)) instance_location change adds
          root)

add_error_leaf-Adds : (leaf : OutputNode) → Adds (error_nodes leaf) (add_error_leaf leaf)
unfolding add_error_leaf error_nodes
add_error_leaf-Adds leaf (output_node f es as') = omega (arith, error_nodes-append_node es leaf)

add_annotation_leaf-Adds : (leaf : OutputNode) → Adds (error_nodes leaf) (add_annotation_leaf leaf)
unfolding add_annotation_leaf error_nodes
add_annotation_leaf-Adds leaf (output_node f es as') =
    omega (arith, error_nodes-append_node as' leaf)

mutual
  unfolding insert_error reported flat_entry error_nodes

  insert_error-Adds : (e : ValidationError) → Adds (reported e) (insert_error e)
  insert_error-Adds (validation_error e causes) root =
      at_parent-Adds _ (normalize_keyword_location e.keyword_location) e.instance_location
        (add_error_leaf (insert_causes causes (output_node (flat_entry e) no_nodes no_nodes)))
        (add_error_leaf-Adds (insert_causes causes (output_node (flat_entry e) no_nodes no_nodes)))
        root
      ∙ omega (
        arith,
        insert_causes-Adds causes (output_node (flat_entry e) no_nodes no_nodes),
        text_count-error_message e,
      )

  insert_causes-Adds : (causes : Causes) → Adds (reported_causes causes) (insert_causes causes)
  insert_causes-Adds no_causes n = omega arith
  insert_causes-Adds (cause_of e causes) n =
      omega (arith, insert_causes-Adds causes (insert_error e n), insert_error-Adds e n)

insert_errors-Adds : (es : List ValidationError) → Adds (all_reported es) (insert_errors es)
unfolding insert_errors all_reported
insert_errors-Adds [] n = omega arith
insert_errors-Adds (e ∷ es) n =
    omega (arith, insert_errors-Adds es (insert_error e n), insert_error-Adds e n)

insert_annotation-Adds : (a : Annotation) → Adds 0 (insert_annotation a)
unfolding insert_annotation error_nodes
insert_annotation-Adds a =
    at_parent-Adds 0 (normalize_keyword_location a.keyword_location) a.instance_location
      (add_annotation_leaf (output_node (flat_annotation a) no_nodes no_nodes)) leaf
  where
    leaf : Adds 0 (add_annotation_leaf (output_node (flat_annotation a) no_nodes no_nodes))
    leaf = add_annotation_leaf-Adds (output_node (flat_annotation a) no_nodes no_nodes)

insert_annotations-Adds : (as' : List Annotation) → Adds 0 (insert_annotations as')
unfolding insert_annotations
insert_annotations-Adds [] n = omega arith
insert_annotations-Adds (a ∷ as') n =
    omega (arith, insert_annotations-Adds as' (insert_annotation a n), insert_annotation-Adds a n)

mutual
  unfolding flat_entries reported

  length-flat_entries : (e : ValidationError) → length (flat_entries e) ≡ reported e
  length-flat_entries (validation_error e causes) = omega (arith, length-flat_cause_entries causes)

  length-flat_cause_entries :
      (causes : Causes) → length (flat_cause_entries causes) ≡ reported_causes causes
  length-flat_cause_entries no_causes = refl
  length-flat_cause_entries (cause_of e causes) = omega (
    arith,
    length-append (flat_entries e) (flat_cause_entries causes),
    length-flat_entries e,
    length-flat_cause_entries causes,
  )

length-flat_error_entries :
    (es : List ValidationError) → length (flat_error_entries es) ≡ all_reported es
unfolding flat_error_entries all_reported
length-flat_error_entries [] = refl
length-flat_error_entries (e ∷ es) = omega (
  arith,
  length-append (flat_entries e) (flat_error_entries es),
  length-flat_entries e,
  length-flat_error_entries es,
)

-- The nested output of a result has a node with an error text for each of its errors and each of
-- their causes, and the flat output of a failed result has an entry for each, and its header.
pub build_output_tree-errors :
    (r : Result)
    → (error_nodes (build_output_tree r) ≡ all_reported r.errors)
      × (r.valid ≡ false → length (render_basic r) ≡ 1 + all_reported r.errors)
unfolding build_output_tree render_basic error_nodes output_root
build_output_tree-errors r = (nested, λ failed. flat r.valid failed)
  where
    nested : error_nodes (build_output_tree r) ≡ all_reported r.errors
    nested = omega (
      arith,
      insert_annotations-Adds r.annotations (insert_errors r.errors (output_root r)),
      insert_errors-Adds r.errors (output_root r),
    )

    flat :
        (v : Bool)
        → v ≡ false
        → length (
            if v
            then flat_annotations r.annotations
            else header_entry ∷ flat_error_entries r.errors)
          ≡ 1 + all_reported r.errors
    flat true failed = absurd (ground arith)
    flat false failed = omega (arith, length-flat_error_entries r.errors)
