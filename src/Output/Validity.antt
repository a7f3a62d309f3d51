-- ===== src/Output/Validity.antt =====
-- The validity of the groups of the nested output (output.go).
use jsonschema.Prelude.{ℕ, ◌+◌, ◌≤◌, Bool, false, ◌&&◌, [], ◌∷◌, ◌≡◌, refl, if◌then◌else◌, arith}
use native.Mathlib.Decide.{dec_lt}
use jsonschema.Prelude.Bytes.{Bytes}
use jsonschema.Output.Flat.{Result, NodeFields, OutputNode, output_node, Nodes, no_nodes, node_of}
use jsonschema.Output.Tree.{
  no_text, is_valid, all_valid, propagate_validity, propagate_all, build_output_tree,
}
use jsonschema.Output.Leaves.{
  all_reported, text_count, error_nodes, error_nodes_in, build_output_tree-errors,
}

either_false :
    (a b : Bool) (i j : ℕ) → 1 ≤ i + j → (1 ≤ i → a ≡ false) → (1 ≤ j → b ≡ false) → a && b ≡ false
either_false a b i j h fa fb = elim (dec_lt 0 i) [
  | yes k ↦ left (fa (omega arith))
  | no k ↦ right (fb (omega arith))
]
  where
    left : a ≡ false → a && b ≡ false
    left e = ground arith

    right : b ≡ false → a && b ≡ false
    right e = ground arith

right_false : (a b : Bool) → b ≡ false → a && b ≡ false
right_false a b e = ground arith

-- A node of its own text, or with invalid children.
node_invalid :
    (f : NodeFields) (text : Bytes) (a b : Bool) (i j : ℕ) (es as' xs ys : Nodes)
    → 1 ≤ text_count text + (i + j)
    → (1 ≤ i → a ≡ false)
    → (1 ≤ j → b ≡ false)
    → is_valid (
        if no_text text
        then output_node (record f { valid = f.valid && (a && b) }) xs ys
        else output_node (record f { valid = false }) es as')
      ≡ false
unfolding is_valid no_text text_count
node_invalid f [] a b i j es as' xs ys h fa fb =
    right_false f.valid (a && b) (either_false a b i j (omega arith) fa fb)
node_invalid f (c ∷ s) a b i j es as' xs ys h fa fb = refl

mutual
  unfolding propagate_validity all_valid error_nodes

  is_valid-propagate_validity :
      (n : OutputNode) → 1 ≤ error_nodes n → is_valid (propagate_validity n) ≡ false
  is_valid-propagate_validity (output_node f es as') h =
      node_invalid f f.error_text (all_valid (propagate_all es)) (all_valid (propagate_all as'))
        (error_nodes_in es) (error_nodes_in as') es as' (propagate_all es) (propagate_all as') h
        (all_valid-propagate_all es) (all_valid-propagate_all as')

  all_valid-propagate_all :
      (ns : Nodes) → 1 ≤ error_nodes_in ns → all_valid (propagate_all ns) ≡ false
  all_valid-propagate_all no_nodes h = absurd (omega arith)
  all_valid-propagate_all (node_of n ns) h =
      either_false (is_valid (propagate_validity n)) (all_valid (propagate_all ns)) (error_nodes n)
        (error_nodes_in ns) h (is_valid-propagate_validity n) (all_valid-propagate_all ns)

-- The root of the verbose output of a result that holds an error is invalid.
pub build_output_tree-invalid :
    (r : Result)
    → 1 ≤ all_reported r.errors
    → is_valid (propagate_validity (build_output_tree r)) ≡ false
build_output_tree-invalid r h =
    is_valid-propagate_validity (build_output_tree r)
      (omega (arith, (build_output_tree-errors r).0))
