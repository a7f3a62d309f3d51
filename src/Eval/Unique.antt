-- ===== src/Eval/Unique.antt =====
-- uniqueItems of eval_validation.go: canonicalKey, firstDuplicate and uniqueItemsEval.
use jsonschema.Prelude.{
  ℕ, ◌+◌, Bool, false, List, [], ◌∷◌, ◌++◌, Option, none, some, length, ltb, if◌then◌else◌,
}
use jsonschema.Prelude.Bytes.{Bytes, codes, itoa, str_lt, lookup}
use jsonschema.Value.{
  Value, Number, Items, Fields, null, boolean, number, string, array, object, opaque, nil, item,
  end, field, json_number,
}
use jsonschema.Num.Decimal.{Decimal}
use jsonschema.Num.Parse.{parse_number}
use jsonschema.Num.Compare.{key}
use jsonschema.Eval.Types.{RunCtx}
use jsonschema.Eval.Equal.{canonical_equal}
use jsonschema.Eval.Report.{add_error}

-- What canonicalKey appends to its builder, if the value has a key, from the number of NaNs met.
abbrev pub KeyWriter : Type 0
KeyWriter = ℕ → Option Bytes × ℕ

-- A text with its length in front.
unfoldable pub sized : Bytes → Bytes
sized s = itoa (length s) ++ b':' ∷ s

unfoldable pub text_of : Number → Bytes
text_of (json_number s) = s
text_of _ = []

unfoldable pub number_key : Number → Option Decimal → KeyWriter
number_key n none nan = (some (b'u' ∷ sized (text_of n)), nan)
number_key n (some d) nan =
    if d.nan
    then (some (b'N' ∷ (itoa nan ++ b';' ∷ [])), nan + 1)
    else (some (b'n' ∷ (key d ++ b';' ∷ [])), nan)

-- One writer behind another; a failure stops the writing.
unfoldable pub then_write : Option Bytes × ℕ → KeyWriter → Option Bytes × ℕ
then_write (none, nan) next = (none, nan)
then_write (some front, nan) next =
    let (back, nan') = next nan in (elim back [ none ↦ none | some s ↦ some (front ++ s) ], nan')

unfoldable pub insert_entry :
    Bytes × KeyWriter → List (Bytes × KeyWriter) → List (Bytes × KeyWriter)
insert_entry e [] = e ∷ []
insert_entry e (f ∷ fs) = if str_lt f.0 e.0 then f ∷ insert_entry e fs else e ∷ f ∷ fs

-- The entries of an object in the order of orderKeys.
unfoldable pub sort_entries : List (Bytes × KeyWriter) → List (Bytes × KeyWriter)
sort_entries [] = []
sort_entries (e ∷ es) = insert_entry e (sort_entries es)

unfoldable pub write_entries : List (Bytes × KeyWriter) → KeyWriter
write_entries [] nan = (some (b'}' ∷ []), nan)
write_entries ((k, w) ∷ es) nan =
    then_write (then_write (some (sized k), nan) w) (λ n. write_entries es n)

-- canonicalKey
unfoldable mutual
  unfolding sized text_of number_key then_write insert_entry sort_entries write_entries

  pub canonical_key : Value → KeyWriter
  canonical_key null nan = (some (b'z' ∷ []), nan)
  canonical_key (boolean b) nan = (some ((if b then b't' else b'f') ∷ []), nan)
  canonical_key (string s) nan = (some (b's' ∷ sized s), nan)
  canonical_key (array vs) nan = then_write (some (b'[' ∷ []), nan) (λ n. items_key vs n)
  canonical_key (object fs) nan =
      then_write (some (b'{' ∷ []), nan) (λ n. write_entries (sort_entries (field_writers fs)) n)
  canonical_key (number n) nan = number_key n (parse_number (number n)) nan
  canonical_key (opaque i) nan = (none, nan)

  pub items_key : Items → KeyWriter
  items_key nil nan = (some (b']' ∷ []), nan)
  items_key (item v vs) nan = then_write (canonical_key v nan) (λ n. items_key vs n)

  pub field_writers : Fields → List (Bytes × KeyWriter)
  field_writers end = []
  field_writers (field k v fs) = (k, λ n. canonical_key v n) ∷ field_writers fs

-- The state of the first loop of firstDuplicate.
pub record Seen : Type 0 where
  pub first : List (Bytes × ℕ)
  pub best : Option (ℕ × ℕ)
  pub unkeyed : List (ℕ × Value)
  pub nan : ℕ

-- A pair replaces the best one if its first index is smaller.
unfoldable pub better : Option (ℕ × ℕ) → ℕ → ℕ → Option (ℕ × ℕ)
better none i j = some (i, j)
better (some (bi, bj)) i j = if ltb i bi then some (i, j) else some (bi, bj)

unfoldable pub note_key : ℕ → Value → Seen → Option Bytes × ℕ → Seen
note_key j v s (none, nan) = record s { unkeyed = s.unkeyed ++ (j, v) ∷ []; nan = nan }
note_key j v s (some k, nan) = elim (lookup s.first k) [
  | none ↦ record s { first = (k, j) ∷ s.first; nan = nan }
  | some i ↦ record s { best = better s.best i j; nan = nan }
]

unfoldable pub note_items : ℕ → List Value → Seen → Seen
note_items j [] s = s
note_items j (v ∷ vs) s = note_items (j + 1) vs (note_key j v s (canonical_key v s.nan))

-- The first later item without a key that equals `v`.
unfoldable pub equal_later : Value → List (ℕ × Value) → Option ℕ
equal_later v [] = none
equal_later v ((j, w) ∷ rest) = if canonical_equal v w then some j else equal_later v rest

unfoldable pub past_best : Option (ℕ × ℕ) → ℕ → Bool
past_best none i = false
past_best (some (bi, bj)) i = ltb bi i

-- The second loop of firstDuplicate.
unfoldable pub compare_unkeyed : Option (ℕ × ℕ) → List (ℕ × Value) → Option (ℕ × ℕ)
compare_unkeyed best [] = best
compare_unkeyed best ((i, v) ∷ rest) =
    let later : Option (ℕ × ℕ) = elim (equal_later v rest) [
      | some j ↦ some (i, j)
      | none ↦ compare_unkeyed best rest
    ] in
    if past_best best i then best else later

-- firstDuplicate
unfoldable pub first_duplicate : List Value → Option (ℕ × ℕ)
unfolding note_items note_key better compare_unkeyed past_best equal_later lookup canonical_key
    canonical_equal
first_duplicate arr =
    let s = note_items 0 arr (record { first = []; best = none; unkeyed = []; nan = 0 }) in
    compare_unkeyed s.best s.unkeyed

unfoldable pub duplicate_message : ℕ → ℕ → Bytes
duplicate_message i j =
    codes "array items " ++ (itoa i ++ (codes " and " ++ (itoa j ++ codes " are not unique")))

-- uniqueItemsEval
unfoldable pub eval_unique_items : Bytes → Bool → List Value → RunCtx → RunCtx
unfolding first_duplicate duplicate_message add_error
eval_unique_items loc on arr c =
    let verdict : RunCtx = elim (first_duplicate arr) [
      | none ↦ c
      | some (i, j) ↦ add_error loc (codes "uniqueItems") (duplicate_message i j) c
    ] in
    if on then verdict else c
