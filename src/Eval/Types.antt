-- ===== src/Eval/Types.antt =====
-- The state of a validation call (`runCtx` of eval.go), the compiled schema that it walks, and the
-- errors and annotations that it collects.
use jsonschema.Prelude.{ℕ, ◌+◌, ◌/◌, Bool, List, [], ◌∷◌, Option, length}
use jsonschema.Prelude.Bytes.{Bytes}
use jsonschema.Value.{Value}
use jsonschema.Num.Decimal.{Decimal}
use jsonschema.Num.Divide.{Divisor}

-- maxEvaluations: zero, negative and positive.
pub data Budget : Type 0 where
  default_budget unlimited : Budget
  at_most : ℕ → Budget

-- runOptions, as far as the evaluators modelled here read it. For `max_key_count` and `max_errors`
-- zero stands for no limit, as every value below one does in the source.
pub record RunOptions : Type 0 where
  pub stop_on_first_error : Bool
  pub max_validation_depth : ℕ
  pub max_key_count : ℕ
  pub max_errors : ℕ
  pub read_only : Bool
  pub write_only : Bool
  pub collect_annotations : Bool
  pub max_evaluations : Budget

-- What the source calls outside its own code: url.URL.EscapedFragment and the quoting of
-- fmt's %q.
pub record Library : Type 0 where
  pub escape_fragment : Bytes → Bytes
  pub quote : Bytes → Bytes

-- A pointer to a subschema.
abbrev pub SubId : Type 0
SubId = ℕ

-- The fields of a ValidationError but its causes. `cause` names the wrapped error, if any.
pub data Cause : Type 0 where
  max_validation_depth max_key_count max_ref_depth : Cause
  unresolved : Bytes → Cause

pub record ErrorFields : Type 0 where
  pub keyword_location : Bytes
  pub absolute_keyword_location : Bytes
  pub instance_location : Bytes
  pub keyword : Bytes
  pub message : Bytes
  pub cause : Option Cause

mutual
  pub data ValidationError : Type 0 where
    validation_error : ErrorFields → Causes → ValidationError

  pub data Causes : Type 0 where
    no_causes : Causes
    cause_of : ValidationError → Causes → Causes

unfoldable pub to_causes : List ValidationError → Causes
to_causes [] = no_causes
to_causes (e ∷ es) = cause_of e (to_causes es)

-- The charge of one error against the evaluation budget: one evaluation per 32 bytes.
unfoldable pub charge : ErrorFields → ℕ
charge e =
    (128
      + length e.keyword_location
      + length e.absolute_keyword_location
      + length e.instance_location
      + length e.message)
    / 32

-- A step of the path to the current instance.
pub data InstanceStep : Type 0 where
  key : Bytes → InstanceStep
  index : ℕ → InstanceStep

pub record RefFrame : Type 0 where
  pub from : Bytes
  pub root : Bytes

-- The value of an annotation: a schema value, the property names evaluated, the largest index
-- covered, all items, or the indexes that `contains` matched.
pub data AnnotationValue : Type 0 where
  raw : Value → AnnotationValue
  property_names : List Bytes → AnnotationValue
  evaluated_items : ℕ → AnnotationValue
  evaluated_items_all : AnnotationValue
  evaluated_keys : List Bytes → AnnotationValue

pub record AnnotationEntry : Type 0 where
  pub keyword_location : Bytes
  pub instance_location : Bytes
  pub keyword : Bytes
  pub value : AnnotationValue
  pub path_prefix : Bytes
  pub path_cut : ℕ

-- annoScope: the parts of the instance that were evaluated. A nil map is an empty list.
pub record AnnoScope : Type 0 where
  pub props : List Bytes
  pub prefix : ℕ
  pub all_items : Bool
  pub contained : List ℕ

-- What a reference was resolved to: an error of the compiler, by its text; no node; a node with no
-- subschema; a subschema.
pub data RefTarget : Type 0 where
  failed : Bytes → RefTarget
  no_target no_subschema : RefTarget
  target : SubId → RefTarget

-- The names that `type` may give; `unknown` is any other text.
pub data TypeName : Type 0 where
  null_type boolean_type string_type array_type object_type number_type integer_type : TypeName
  unknown : TypeName

-- The evaluators of one subschema, with the fields of their Go structs. A regexp is the test that
-- MatchString makes. A map of subschemas is a list of keys and pointers.
pub data Evaluator : Type 0 where
  all_of : Bytes → List SubId → Evaluator
  any_of : Bytes → List SubId → Evaluator
  one_of : Bytes → List SubId → Evaluator
  not_eval : Bytes → SubId → Evaluator
  if_then_else : SubId → Option SubId → Option SubId → Evaluator
  dependent_schemas : List Bytes → List (Bytes × SubId) → Evaluator
  dependencies : Bytes → List Bytes → List (Bytes × SubId) → List (Bytes × List Bytes) → Evaluator
  properties : Bytes → List Bytes → List (Bytes × SubId) → Evaluator
  pattern_properties : Bytes → List ((Bytes → Bool) × SubId) → Evaluator
  additional_properties : Bytes → SubId → List Bytes → List (Bytes → Bool) → Evaluator
  property_names : Bytes → SubId → Evaluator
  prefix_items : Bytes → List SubId → Evaluator
  items_prefix : Bytes → List SubId → Evaluator
  items_from : Bytes → SubId → ℕ → Evaluator
  additional_items : Bytes → SubId → Option ℕ → Evaluator
  contains : Bytes → SubId → Option ℕ → Option ℕ → Evaluator
  unevaluated_items : Bytes → SubId → Evaluator
  unevaluated_properties : Bytes → SubId → Evaluator
  ref : Bytes → Bytes → RefTarget → Evaluator
  string_length : Bytes → Bytes → Bool → ℕ → Evaluator
  pattern : Bytes → (Bytes → Bool) → Bytes → Evaluator
  items_count : Bytes → Bytes → Bool → ℕ → Evaluator
  props_count : Bytes → Bytes → Bool → ℕ → Evaluator
  required : Bytes → List Bytes → List Bytes → List Bytes → Evaluator
  dependent_required : Bytes → List Bytes → List (Bytes × List Bytes) → Evaluator
  type_eval : Bytes → List TypeName → Bytes → Bool → Evaluator
  enum_eval : Bytes → List Value → Evaluator
  const_eval : Bytes → Value → Evaluator
  multiple_of : Bytes → Divisor → Bytes → Evaluator
  range : Bytes → Bytes → Decimal → Bytes → Bool → Bool → Evaluator
  unique_items : Bytes → Bool → Evaluator
  annotation : Bytes → Bytes → Value → Bool → Evaluator

pub record Subschema : Type 0 where
  pub bool_value : Option Bool
  pub location : Bytes
  pub resource_uri : Bytes
  pub crosses_resource : Bool
  pub abs_uri : Bytes
  pub abs_ptr : Bytes
  pub abs_prefix : Bytes
  pub evaluators : List Evaluator
  pub reads_scope : Bool

-- Schema: the subschemas by pointer, and what the walk reads of the compile options.
pub record Schema : Type 0 where
  pub deref : SubId → Subschema
  pub root : Option SubId
  pub root_uri : Bytes
  pub subschemas : ℕ
  pub max_evaluations : Budget
  pub max_ref_depth : ℕ

-- runCtx. `eval_limit` is none where the source holds a negative limit. The last two fields are not
-- in the source: `exhausted` says that the model's recursion bound was met, and `panicked` that
-- the code panicked.
pub record RunCtx : Type 0 where
  pub library : Library
  pub schema : Schema
  pub opts : RunOptions
  pub cur : Option Subschema
  pub ref_path : List RefFrame
  pub instance_path : List InstanceStep
  pub dynamic_scope : List Bytes
  pub errors : List ValidationError
  pub fail_count : ℕ
  pub scope : Option AnnoScope
  pub need_scope : Bool
  pub public : Bool
  pub anno_entries : List AnnotationEntry
  pub ref_depth : ℕ
  pub validation_depth : ℕ
  pub stop_fired : Bool
  pub key_count_fired : List Bytes
  pub evals : ℕ
  pub eval_limit : Option ℕ
  pub over_budget : Bool
  pub err_cost : ℕ
  pub exhausted : Bool
  pub panicked : Bool
