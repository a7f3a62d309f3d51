-- ===== src/Eval/Ledger/Verdicts.antt =====
-- The assertions and the ledger.
use jsonschema.Prelude.{
  ℕ, refl, Bool, true, false, not, ◌++◌, List, [], ◌∷◌, Option, none, some, ltb, if_cases,
  if◌then◌else◌,
}
use jsonschema.Prelude.Bytes.{Bytes, codes, lookup}
use jsonschema.Prelude.Utf8.{rune_count}
use jsonschema.Value.{Value, is_json_number, as_string}
use jsonschema.Num.Decimal.{Decimal}
use jsonschema.Num.Parse.{parse_number}
use jsonschema.Num.Compare.{Sign, cmp}
use jsonschema.Num.Divide.{Divisor, Divides, unchecked, panic, answer, divides}
use jsonschema.Eval.Types.{RunCtx, TypeName, raw}
use jsonschema.Eval.Equal.{canonical_equal, type_allowed}
use jsonschema.Eval.Report.{add_error, append_annotation, should_stop}
use jsonschema.Eval.Combine.{require_all, required_of}
use jsonschema.Eval.Objects.{Properties}
use jsonschema.Eval.Unique.{eval_unique_items, first_duplicate, duplicate_message}
use jsonschema.Eval.Asserts.{
  eval_type, in_values, eval_enum, eval_const, multiple_verdict, eval_multiple_of, out_of_range,
  relation, eval_range, check_count, eval_length, eval_pattern, directed_away, eval_required,
  eval_dependent_required, eval_annotation,
}
use jsonschema.Eval.Ledger.{Holding-refl, Extends, Extends-trans}
use jsonschema.Eval.Ledger.Steps.{add_error-Extends, Holding→Extends, Extends-refl, quiet-Holding}
use jsonschema.Eval.Ledger.Walks.{append_annotation-Holding}
use jsonschema.Eval.Ledger.Combining.{require_all-Extends}

module _ {B : ℕ} where
  -- A test that reports an error on one branch.
  error_if-Extends :
      (b : Bool) (loc keyword message : Bytes) (c : RunCtx)
      → Extends B c (if b then add_error loc keyword message c else c)
  error_if-Extends true loc keyword message c =
      add_error-Extends loc keyword message (Holding-refl c)
  error_if-Extends false loc keyword message c = Extends-refl c

  error_unless-Extends :
      (b : Bool) (loc keyword message : Bytes) (c : RunCtx)
      → Extends B c (if b then c else add_error loc keyword message c)
  error_unless-Extends true loc keyword message c = Extends-refl c
  error_unless-Extends false loc keyword message c =
      add_error-Extends loc keyword message (Holding-refl c)

  pub eval_type-Extends :
      (loc : Bytes) (allowed : List TypeName) (msg : Bytes) (draft4 : Bool) (v : Value) (c : RunCtx)
      → Extends B c (eval_type loc allowed msg draft4 v c)
  unfolding eval_type
  eval_type-Extends loc allowed msg draft4 v c =
      error_unless-Extends (type_allowed draft4 v allowed) loc _ msg c

  pub eval_enum-Extends :
      (loc : Bytes) (vals : List Value) (v : Value) (c : RunCtx)
      → Extends B c (eval_enum loc vals v c)
  unfolding eval_enum
  eval_enum-Extends loc vals v c = error_unless-Extends (in_values v vals) loc _ _ c

  pub eval_const-Extends :
      (loc : Bytes) (val v : Value) (c : RunCtx) → Extends B c (eval_const loc val v c)
  unfolding eval_const
  eval_const-Extends loc val v c = error_unless-Extends (canonical_equal v val) loc _ _ c

  multiple_verdict-Extends :
      (loc text : Bytes) (r : Divides) (c : RunCtx) → Extends B c (multiple_verdict loc text r c)
  unfolding multiple_verdict
  multiple_verdict-Extends loc text unchecked c = add_error-Extends loc _ _ (Holding-refl c)
  multiple_verdict-Extends loc text panic c =
      Holding→Extends (quiet-Holding _ (Holding-refl c) refl refl refl refl refl refl refl)
  multiple_verdict-Extends loc text (answer true) c = Extends-refl c
  multiple_verdict-Extends loc text (answer false) c = add_error-Extends loc _ _ (Holding-refl c)

  pub eval_multiple_of-Extends :
      (loc : Bytes) (val : Divisor) (text : Bytes) (v : Value) (c : RunCtx)
      → Extends B c (eval_multiple_of loc val text v c)
  unfolding eval_multiple_of
  eval_multiple_of-Extends loc val text v c =
      if_cases (Extends B c) (not (is_json_number v)) (λ _. Extends-refl c)
        (λ _. parsed (parse_number v))
    where
      parsed :
          (o : Option Decimal)
          → Extends B c (elim o [
            | none ↦ add_error loc (codes "multipleOf") (codes "value is not a valid number") c
            | some x ↦ multiple_verdict loc text (divides val x) c
          ])
      parsed none = add_error-Extends loc _ _ (Holding-refl c)
      parsed (some x) = multiple_verdict-Extends loc text (divides val x) c

  -- The part of rangeEval behind the comparison.
  compared-Extends :
      (loc kw text : Bytes) (exclusive upper : Bool) (o : Option Sign) (c : RunCtx)
      → Extends B c (elim o [
        | none ↦ add_error loc kw (codes "value cannot be compared with " ++ text) c
        | some order ↦
            if out_of_range upper exclusive order
            then add_error loc kw (relation upper exclusive ++ text) c
            else c
      ])
  compared-Extends loc kw text exclusive upper none c = add_error-Extends loc kw _ (Holding-refl c)
  compared-Extends loc kw text exclusive upper (some order) c =
      error_if-Extends (out_of_range upper exclusive order) loc kw _ c

  pub eval_range-Extends :
      (loc kw : Bytes) (val : Decimal) (text : Bytes) (exclusive upper : Bool) (v : Value)
      (c : RunCtx)
      → Extends B c (eval_range loc kw val text exclusive upper v c)
  unfolding eval_range
  eval_range-Extends loc kw val text exclusive upper v c =
      if_cases (Extends B c) (not (is_json_number v)) (λ _. Extends-refl c)
        (λ _. parsed (parse_number v))
    where
      parsed :
          (o : Option Decimal)
          → Extends B c (elim o [
            | none ↦ add_error loc kw (codes "value is not a valid number") c
            | some x ↦ elim (cmp x val) [
              | none ↦ add_error loc kw (codes "value cannot be compared with " ++ text) c
              | some order ↦
                  if out_of_range upper exclusive order
                  then add_error loc kw (relation upper exclusive ++ text) c
                  else c
            ]
          ])
      parsed none = add_error-Extends loc kw _ (Holding-refl c)
      parsed (some x) = compared-Extends loc kw text exclusive upper (cmp x val) c

  pub check_count-Extends :
      (loc kw : Bytes) (upper : Bool) (bound : ℕ) (what : Bytes) (n : ℕ) (c : RunCtx)
      → Extends B c (check_count loc kw upper bound what n c)
  unfolding check_count
  check_count-Extends loc kw true bound what n c = error_if-Extends (ltb bound n) loc kw _ c
  check_count-Extends loc kw false bound what n c = error_if-Extends (ltb n bound) loc kw _ c

  pub eval_length-Extends :
      (loc kw : Bytes) (upper : Bool) (bound : ℕ) (v : Value) (c : RunCtx)
      → Extends B c (eval_length loc kw upper bound v c)
  unfolding eval_length
  eval_length-Extends loc kw upper bound v c = text (as_string v)
    where
      text :
          (o : Option Bytes)
          → Extends B c (elim o [
            | none ↦ c
            | some s ↦ check_count loc kw upper bound (codes "string length ") (rune_count s) c
          ])
      text none = Extends-refl c
      text (some s) =
          check_count-Extends loc kw upper bound (codes "string length ") (rune_count s) c

  pub eval_pattern-Extends :
      (loc : Bytes) (re : Bytes → Bool) (src : Bytes) (v : Value) (c : RunCtx)
      → Extends B c (eval_pattern loc re src v c)
  unfolding eval_pattern
  eval_pattern-Extends loc re src v c = text (as_string v)
    where
      text :
          (o : Option Bytes)
          → Extends B c (elim o [
            | none ↦ c
            | some s ↦
                if re s
                then c
                else add_error loc
                    (codes "pattern")
                    (codes "value does not match pattern " ++ c.library.quote src)
                    c
          ])
      text none = Extends-refl c
      text (some s) = error_unless-Extends (re s) loc _ _ c

  missing-Extends :
      (loc k : Bytes) (o : Option Value) (c : RunCtx)
      → Extends B c (elim o [
        | none ↦
            add_error loc
              (codes "required")
              (codes "missing required property " ++ c.library.quote k)
              c
        | some _ ↦ c
      ])
  missing-Extends loc k none c = add_error-Extends loc _ _ (Holding-refl c)
  missing-Extends loc k (some _) c = Extends-refl c

  pub eval_required-Extends :
      (loc : Bytes) (ks ro wo : List Bytes) (obj : Properties) (c : RunCtx)
      → Extends B c (eval_required loc ks ro wo obj c)
  unfolding eval_required
  eval_required-Extends loc [] ro wo obj c = Extends-refl c
  eval_required-Extends loc (k ∷ ks) ro wo obj c =
      if_cases (Extends B c) (should_stop c) (λ _. Extends-refl c)
        (λ _.
          Extends-trans
            (if_cases (Extends B c) (directed_away c ro wo k) (λ _. Extends-refl c)
              (λ _. missing-Extends loc k (lookup obj k) c))
            (eval_required-Extends loc ks ro wo obj _))

  dependent-Extends :
      (loc k : Bytes) (deps : List (Bytes × List Bytes)) (obj : Properties) (o : Option Value)
      (c : RunCtx)
      → Extends B c (elim o [
        | none ↦ c
        | some _ ↦ require_all loc (codes "dependentRequired") k (required_of deps k) obj c
      ])
  dependent-Extends loc k deps obj none c = Extends-refl c
  dependent-Extends loc k deps obj (some _) c =
      require_all-Extends loc _ k (required_of deps k) obj c

  pub eval_dependent_required-Extends :
      (loc : Bytes) (ks : List Bytes) (deps : List (Bytes × List Bytes)) (obj : Properties)
      (c : RunCtx)
      → Extends B c (eval_dependent_required loc ks deps obj c)
  unfolding eval_dependent_required
  eval_dependent_required-Extends loc [] deps obj c = Extends-refl c
  eval_dependent_required-Extends loc (k ∷ ks) deps obj c =
      Extends-trans (dependent-Extends loc k deps obj (lookup obj k) c)
        (eval_dependent_required-Extends loc ks deps obj _)

  pub eval_unique_items-Extends :
      (loc : Bytes) (on : Bool) (arr : List Value) (c : RunCtx)
      → Extends B c (eval_unique_items loc on arr c)
  unfolding eval_unique_items
  eval_unique_items-Extends loc on arr c =
      if_cases (Extends B c) on (λ _. found (first_duplicate arr)) (λ _. Extends-refl c)
    where
      found :
          (o : Option (ℕ × ℕ))
          → Extends B c (elim o [
            | none ↦ c
            | some (i, j) ↦ add_error loc (codes "uniqueItems") (duplicate_message i j) c
          ])
      found none = Extends-refl c
      found (some (i, j)) = add_error-Extends loc _ _ (Holding-refl c)

  pub eval_annotation-Extends :
      (loc kw : Bytes) (value : Value) (string_only : Bool) (v : Value) (c : RunCtx)
      → Extends B c (eval_annotation loc kw value string_only v c)
  unfolding eval_annotation
  eval_annotation-Extends loc kw value string_only v c =
      if_cases (Extends B c) string_only (λ _. text (as_string v)) (λ _. logged)
    where
      logged : Extends B c (append_annotation loc kw (raw value) c)
      logged = Holding→Extends (append_annotation-Holding loc kw (raw value) c)

      text :
          (o : Option Bytes)
          → Extends B c (elim o [ none ↦ c | some _ ↦ append_annotation loc kw (raw value) c ])
      text none = Extends-refl c
      text (some s) = logged
