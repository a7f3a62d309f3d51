-- ===== src/Output/Tree.antt =====
-- The tree of the nested output of output.go. A node that the source changes through a pointer is
-- rebuilt on the way to it.
use jsonschema.Prelude.{
  Bool, true, false, ◌&&◌, ◌||◌, List, [], ◌∷◌, ◌++◌, Option, none, some, if◌then◌else◌,
}
use jsonschema.Prelude.Bytes.{Bytes, contains_byte, split_on, str_eq}
use jsonschema.Value.{Value}
use jsonschema.Eval.Types.{ValidationError, validation_error, Causes, no_causes, cause_of}
use jsonschema.Output.Flat.{
  Annotation, NodeFields, Nodes, OutputNode, Result, flat_annotation, flat_entry, no_nodes, node_of,
  normalize_keyword_location, output_node,
}

-- parentPointer: what lies in front of the last slash.
unfoldable pub parent_pointer : Bytes → Bytes
unfolding contains_byte
parent_pointer [] = []
parent_pointer (c ∷ s) =
    let rest = parent_pointer s in if contains_byte s b'/' then c ∷ rest else []

unfoldable pub drop_empty : List Bytes → List Bytes
drop_empty ([] ∷ parts) = parts
drop_empty parts = parts

-- splitPointer
unfoldable pub split_pointer : Bytes → List Bytes
unfolding drop_empty split_on
split_pointer [] = []
split_pointer (c ∷ s) = drop_empty (split_on b'/' (c ∷ s))

unfoldable pub append_node : Nodes → OutputNode → Nodes
append_node no_nodes n = node_of n no_nodes
append_node (node_of m ns) n = node_of m (append_node ns n)

unfoldable pub no_text : Bytes → Bool
no_text [] = true
no_text (c ∷ s) = false

unfoldable pub no_annotation : Option Value → Bool
no_annotation none = true
no_annotation (some v) = false

-- The group nodes at a prefix among errors and among annotations.
unfoldable pub error_group : Bytes → NodeFields → Bool
unfolding str_eq no_text
error_group prefix f = str_eq f.keyword_location prefix && no_text f.error_text

unfoldable pub annotation_group : Bytes → NodeFields → Bool
unfolding str_eq no_annotation
annotation_group prefix f = str_eq f.keyword_location prefix && no_annotation f.annotation

-- Changes the first node that a test finds.
unfoldable pub change_first : (NodeFields → Bool) → (OutputNode → OutputNode) → Nodes → Option Nodes
change_first test change no_nodes = none
change_first test change (node_of (output_node f es as') ns) =
    let later : Option Nodes = elim (change_first test change ns) [
      | none ↦ none
      | some ns' ↦ some (node_of (output_node f es as') ns')
    ] in
    if test f then some (node_of (change (output_node f es as')) ns) else later

unfoldable pub new_group : Bytes → Bytes → OutputNode
new_group prefix instance_location =
    output_node
      (record {
        valid = true;
        keyword_location = prefix;
        absolute_keyword_location = [];
        instance_location = instance_location;
        error_text = [];
        annotation = none;
      })
      no_nodes no_nodes

-- One step of ensureParentForPath: goes on in the group of a prefix, which is made where there is
-- none.
unfoldable pub into_group : Bytes → Bytes → (OutputNode → OutputNode) → OutputNode → OutputNode
unfolding change_first error_group annotation_group new_group append_node
into_group prefix instance_location change (output_node f es as') =
    elim (change_first (error_group prefix) change es) [
      | some es' ↦ output_node f es' as'
      | none ↦ elim (change_first (annotation_group prefix) change as') [
        | some as'' ↦ output_node f es as''
        | none ↦ output_node f (append_node es (change (new_group prefix instance_location))) as'
      ]
    ]

unfoldable pub at_path :
    Bytes → List Bytes → Bytes → (OutputNode → OutputNode) → OutputNode → OutputNode
unfolding into_group
at_path prefix [] instance_location change n = change n
at_path prefix (seg ∷ segs) instance_location change n =
    into_group (prefix ++ b'/' ∷ seg) instance_location
      (at_path (prefix ++ b'/' ∷ seg) segs instance_location change) n

-- ensureParentForPath, and the change of the node that it gives.
unfoldable pub at_parent : Bytes → Bytes → (OutputNode → OutputNode) → OutputNode → OutputNode
unfolding parent_pointer str_eq no_text split_pointer at_path
at_parent location instance_location change root =
    if str_eq (parent_pointer location) location || no_text (parent_pointer location)
    then change root
    else at_path [] (split_pointer (parent_pointer location)) instance_location change root

unfoldable pub add_error_leaf : OutputNode → OutputNode → OutputNode
unfolding append_node
add_error_leaf leaf (output_node f es as') = output_node f (append_node es leaf) as'

unfoldable pub add_annotation_leaf : OutputNode → OutputNode → OutputNode
unfolding append_node
add_annotation_leaf leaf (output_node f es as') = output_node f es (append_node as' leaf)

-- insertErrorIntoTree, with its loop over the causes.
unfoldable mutual
  unfolding at_parent flat_entry add_error_leaf

  pub insert_error : ValidationError → OutputNode → OutputNode
  insert_error (validation_error e causes) root =
      at_parent (normalize_keyword_location e.keyword_location) e.instance_location
        (add_error_leaf (insert_causes causes (output_node (flat_entry e) no_nodes no_nodes))) root

  pub insert_causes : Causes → OutputNode → OutputNode
  insert_causes no_causes n = n
  insert_causes (cause_of e causes) n = insert_causes causes (insert_error e n)

-- insertAnnotationIntoTree
unfoldable pub insert_annotation : Annotation → OutputNode → OutputNode
unfolding at_parent flat_annotation add_annotation_leaf normalize_keyword_location
insert_annotation a root =
    at_parent (normalize_keyword_location a.keyword_location) a.instance_location
      (add_annotation_leaf (output_node (flat_annotation a) no_nodes no_nodes)) root

unfoldable pub insert_errors : List ValidationError → OutputNode → OutputNode
unfolding insert_error
insert_errors [] root = root
insert_errors (e ∷ es) root = insert_errors es (insert_error e root)

unfoldable pub insert_annotations : List Annotation → OutputNode → OutputNode
unfolding insert_annotation
insert_annotations [] root = root
insert_annotations (a ∷ as') root = insert_annotations as' (insert_annotation a root)

-- buildOutputTree, from its root on.
unfoldable pub output_root : Result → OutputNode
output_root r =
    output_node
      (record {
        valid = r.valid;
        keyword_location = [];
        absolute_keyword_location = [];
        instance_location = [];
        error_text = [];
        annotation = none;
      })
      no_nodes no_nodes

unfoldable pub build_output_tree : Result → OutputNode
unfolding insert_errors insert_annotations output_root
build_output_tree r = insert_annotations r.annotations (insert_errors r.errors (output_root r))

unfoldable pub is_valid : OutputNode → Bool
is_valid (output_node f es as') = f.valid

unfoldable pub all_valid : Nodes → Bool
unfolding is_valid
all_valid no_nodes = true
all_valid (node_of n ns) = is_valid n && all_valid ns

-- propagateValidity: it returns the validity that it leaves in the node.
unfoldable mutual
  unfolding no_text all_valid

  pub propagate_validity : OutputNode → OutputNode
  propagate_validity (output_node f es as') =
      if no_text f.error_text
      then output_node
          (record f {
            valid = f.valid && (all_valid (propagate_all es) && all_valid (propagate_all as'));
          })
          (propagate_all es) (propagate_all as')
      else output_node (record f { valid = false }) es as'

  pub propagate_all : Nodes → Nodes
  propagate_all no_nodes = no_nodes
  propagate_all (node_of n ns) = node_of (propagate_validity n) (propagate_all ns)
