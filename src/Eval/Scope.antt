-- ===== src/Eval/Scope.antt =====
-- annoScope: the evaluated locations that unevaluated* keywords read (eval.go). Sets are lists, and
-- a set is read by membership alone.
use jsonschema.Prelude.{
  ℕ, ◌-◌, max, true, false, ◌||◌, List, [], ◌∷◌, ◌++◌, Option, none, some, ◌==◌, if◌then◌else◌,
}
use jsonschema.Prelude.Bytes.{Bytes}
use jsonschema.Eval.Types.{AnnoScope, RunCtx, property_names, evaluated_items, evaluated_items_all}
use jsonschema.Eval.Report.{append_annotation}

abbrev pub empty_scope : AnnoScope
empty_scope = record { props = []; prefix = 0; all_items = false; contained = [] }

-- scopeForWrite
unfoldable pub scope_for_write : Option AnnoScope → AnnoScope
scope_for_write none = empty_scope
scope_for_write (some s) = s

-- The mark* methods, which do nothing unless an unevaluated* keyword may read the scope.
unfoldable pub mark : (AnnoScope → AnnoScope) → RunCtx → RunCtx
unfolding scope_for_write
mark update c =
    if c.need_scope then record c { scope = some (update (scope_for_write c.scope)) } else c

abbrev pub add_props : List Bytes → AnnoScope → AnnoScope
add_props keys s = record s { props = keys ++ s.props }

abbrev pub raise_prefix : ℕ → AnnoScope → AnnoScope
raise_prefix n s = record s { prefix = max s.prefix n }

abbrev pub set_all_items : AnnoScope → AnnoScope
set_all_items s = record s { all_items = true }

abbrev pub add_contained : List ℕ → AnnoScope → AnnoScope
add_contained idx s = record s { contained = idx ++ s.contained }

-- markProps, markPrefix, markAllItems, markContained
unfoldable pub mark_props : List Bytes → RunCtx → RunCtx
unfolding mark
mark_props keys = mark (add_props keys)

unfoldable pub mark_prefix : ℕ → RunCtx → RunCtx
unfolding mark
mark_prefix n = mark (raise_prefix n)

unfoldable pub mark_all_items : RunCtx → RunCtx
unfolding mark
mark_all_items = mark set_all_items

unfoldable pub mark_contained : List ℕ → RunCtx → RunCtx
unfolding mark
mark_contained idx = mark (add_contained idx)

-- merge
unfoldable pub merge : AnnoScope → AnnoScope → AnnoScope
merge s o = record {
  props = o.props ++ s.props;
  prefix = max s.prefix o.prefix;
  all_items = s.all_items || o.all_items;
  contained = o.contained ++ s.contained;
}

-- adoptScope
unfoldable pub adopt_scope : AnnoScope → RunCtx → RunCtx
unfolding merge
adopt_scope s c = record c {
  scope = elim c.scope [ none ↦ some s | some held ↦ some (merge held s) ];
}

-- recordKeys
unfoldable pub record_keys : Bytes → Bytes → List Bytes → RunCtx → RunCtx
unfolding mark_props append_annotation
record_keys keyword loc [] c = c
record_keys keyword loc (k ∷ ks) c =
    append_annotation loc keyword (property_names (k ∷ ks)) (mark_props (k ∷ ks) c)

-- recordPrefix
unfoldable pub record_prefix : Bytes → Bytes → ℕ → RunCtx → RunCtx
unfolding mark_prefix append_annotation
record_prefix keyword loc n c =
    if n == 0 then c else append_annotation loc keyword (evaluated_items (n - 1)) (mark_prefix n c)

-- recordAllItems
unfoldable pub record_all_items : Bytes → Bytes → RunCtx → RunCtx
unfolding mark_all_items append_annotation
record_all_items keyword loc c =
    append_annotation loc keyword evaluated_items_all (mark_all_items c)
