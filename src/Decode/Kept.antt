-- ===== src/Decode/Kept.antt =====
-- What a decoding of fastjson.go leaves behind: the stacks as they were, and a count of the values.
use jsonschema.Prelude.{
  ℕ, zero, suc, ◌+◌, ◌-◌, Bool, true, false, not, ◌&&◌, List, [], ◌∷◌, ◌++◌, Option, none, some,
  ◌≡◌, refl, sym, ap, ◌∙◌, length, take, drop, arith, length-append,
}
use jsonschema.Prelude.Bytes.{Bytes}
use jsonschema.Value.{Value, array, object, Items, nil, item, Fields, end, field}
use jsonschema.Decode.Scan.{Scanned, done, refused, starved}
use mathlib.Core.Option.{some-injective}
use jsonschema.Decode.Fast.{
  ValueDecoder, FastDecoder, fast_decode_max_depth, has_field, to_items, to_fields, close_array,
  close_object, closed_object,
}

-- The number of values in a value, itself included.
unfoldable mutual
  pub values : Value → ℕ
  values (array vs) = 1 + values_items vs
  values (object fs) = 1 + values_fields fs
  values _ = 1

  pub values_items : Items → ℕ
  values_items nil = 0
  values_items (item v vs) = values v + values_items vs

  pub values_fields : Fields → ℕ
  values_fields end = 0
  values_fields (field k v fs) = values v + values_fields fs

-- No deeper than the room allows, and no object repeats a name.
unfoldable mutual
  pub sound : ℕ → Value → Bool
  sound zero (array vs) = false
  sound (suc r) (array vs) = sound_items r vs
  sound zero (object fs) = false
  sound (suc r) (object fs) = sound_fields r fs
  sound r _ = true

  pub sound_items : ℕ → Items → Bool
  sound_items r nil = true
  sound_items r (item v vs) = sound r v && sound_items r vs

  pub sound_fields : ℕ → Fields → Bool
  sound_fields r end = true
  sound_fields r (field k v fs) = not (has_field fs k) && (sound r v && sound_fields r fs)

unfoldable pub sum_values : List Value → ℕ
sum_values [] = 0
sum_values (v ∷ vs) = values v + sum_values vs

unfoldable pub all_sound : ℕ → List Value → Bool
all_sound r [] = true
all_sound r (v ∷ vs) = sound r v && all_sound r vs

values-to_items :
    (vs : List Value) (acc : Items)
    → values_items (to_items vs acc) ≡ sum_values vs + values_items acc
unfolding to_items sum_values values_items
values-to_items [] acc = omega arith
values-to_items (v ∷ vs) acc = omega (arith, values-to_items vs (item v acc))

swapped : (a b c : Bool) → a ≡ true → b ≡ true → c ≡ true → a && (b && c) ≡ true
swapped a b c x y z = ground arith

split_and : (a b : Bool) → a && b ≡ true → (a ≡ true) × (b ≡ true)
split_and a b h = (ground arith, ground arith)

pub join_and : (a b : Bool) → a ≡ true → b ≡ true → a && b ≡ true
join_and a b x y = ground arith

sound-to_items :
    (r : ℕ) (vs : List Value) (acc : Items)
    → all_sound r vs ≡ true
    → sound_items r acc ≡ true
    → sound_items r (to_items vs acc) ≡ true
unfolding to_items all_sound sound_items
sound-to_items r [] acc h k = k
sound-to_items r (v ∷ vs) acc h k =
    let (here, there) = split_and (sound r v) (all_sound r vs) h in
    sound-to_items r vs (item v acc) there (join_and (sound r v) (sound_items r acc) here k)

-- What filling a map with as many names as values keeps.
to_fields-kept :
    (r : ℕ) (ks : List Bytes) (vs : List Value) (acc fs : Fields)
    → length ks ≡ length vs
    → all_sound r vs ≡ true
    → sound_fields r acc ≡ true
    → to_fields ks vs acc ≡ some fs
    → (values_fields fs ≡ sum_values vs + values_fields acc) × (sound_fields r fs ≡ true)
unfolding to_fields all_sound sound_fields sum_values values_fields
to_fields-kept r [] [] acc fs e h k got = (
  omega (arith, ap values_fields (some-injective acc fs got)),
  sym (ap (sound_fields r) (some-injective acc fs got)) ∙ k,
)
to_fields-kept r [] (v ∷ vs) acc fs e h k got = absurd (omega arith)
to_fields-kept r (x ∷ ks) [] acc fs e h k got = absurd (omega arith)
to_fields-kept r (x ∷ ks) (v ∷ vs) acc fs e h k got =
    let (here, there) = split_and (sound r v) (all_sound r vs) h in
    go (has_field acc x) refl
      (λ fresh got.
        to_fields-kept r ks vs (field x v acc) fs (omega arith) there
          (swapped (not (has_field acc x)) (sound r v) (sound_fields r acc) (ap not fresh) here k)
          got)
      got
  where
    go :
        (b : Bool)
        → has_field acc x ≡ b
        → (has_field acc x ≡ false
            → to_fields ks vs (field x v acc) ≡ some fs
            → (values_fields fs ≡ sum_values vs + (values v + values_fields acc))
              × (sound_fields r fs ≡ true))
        → elim b [ true ↦ none | false ↦ to_fields ks vs (field x v acc) ] ≡ some fs
        → (values_fields fs ≡ values v + sum_values vs + values_fields acc)
          × (sound_fields r fs ≡ true)
    go true eq rest got = absurd (ground arith)
    go false eq rest got = let (counted, ok) = rest eq got in (omega (arith, counted), ok)

-- What decoding a value keeps of the decoder, at a depth that leaves some room: the result is a
-- value and the decoder behind it.
pub record Kept (room : ℕ) (d : FastDecoder) (r : Value × FastDecoder) : Type 0 where
  pub stack_kept : r.1.stack ≡ d.stack
  pub keys_kept : r.1.keys ≡ d.keys
  pub counted : r.1.count ≡ d.count + values r.0
  pub is_sound : sound room r.0 ≡ true

-- A decoder of values that keeps all that at each depth.
abbrev pub Keeps : ValueDecoder → Type 0
Keeps value =
    (room depth : ℕ) (d : FastDecoder) (r : Value × FastDecoder)
    → room + depth ≡ fast_decode_max_depth
    → value depth d ≡ done r
    → Kept room d r

-- What a container keeps of the stacks below its elements, which are counted, and it with them.
pub record Closed (room : ℕ) (st : List Value) (ks : List Bytes) (before : ℕ)
    (r : Value × FastDecoder) : Type 0 where
  pub stack_back : r.1.stack ≡ st
  pub keys_back : r.1.keys ≡ ks
  pub all_counted : r.1.count + 1 ≡ before + values r.0
  pub closed_sound : sound (suc room) r.0 ≡ true

-- Inside a container: what it pushed lies above the stacks that it started with.
pub record Inside (room : ℕ) (st : List Value) (ks : List Bytes) (before : ℕ) (top : List Value)
    (names : List Bytes) (d : FastDecoder) : Type 0 where
  pub stacked : d.stack ≡ top ++ st
  pub named : d.keys ≡ names ++ ks
  pub tops_sound : all_sound room top ≡ true
  pub so_far : d.count ≡ before + sum_values top

take-append : {A : Type 0} (xs ys : List A) → take (length xs) (xs ++ ys) ≡ xs
take-append [] ys = refl
take-append (x ∷ xs) ys = ap (λ t. x ∷ t) (take-append xs ys)

drop-append : {A : Type 0} (xs ys : List A) → drop (length xs) (xs ++ ys) ≡ ys
drop-append [] ys = refl
drop-append (x ∷ xs) ys = drop-append xs ys

above : (xs ys zs : List Value) → zs ≡ xs ++ ys → length zs - length ys ≡ length xs
above xs ys zs e = omega (arith, ap length e, length-append xs ys)

pub close_array-Closed :
    (room before : ℕ) (st top : List Value) (ks : List Bytes) (d : FastDecoder)
    → Inside room st ks before top [] d
    → Closed room st ks before (close_array (length st) d)
unfolding close_array values sound
close_array-Closed room before st top ks d h =
    let height = above top st d.stack h.stacked in
    let taken = (λ i. take (height i) (h.stacked i)) ∙ take-append top st in
    record {
      stack_back = (λ i. drop (height i) (h.stacked i)) ∙ drop-append top st;
      keys_back = h.named;
      all_counted =
          omega (
            arith,
            h.so_far,
            ap (λ t. values_items (to_items t nil)) taken,
            values-to_items top nil,
          );
      closed_sound =
          ap (λ t. sound_items room (to_items t nil)) taken
          ∙ sound-to_items room top nil h.tops_sound refl;
    }

pub done-injective : {A : Type 0} (a b : A) → done a ≡ done b → a ≡ b
done-injective {A} a b e = ap from e
  where
    from : Scanned A → A
    from (done x) = x
    from refused = a
    from starved = a

closed_object-Closed :
    (room before : ℕ) (st top : List Value) (ks names : List Bytes) (o : Option Fields)
    (d : FastDecoder) (r : Value × FastDecoder)
    → to_fields names top end ≡ o
    → length names ≡ length top
    → all_sound room top ≡ true
    → d.stack ≡ st
    → d.keys ≡ ks
    → d.count ≡ before + sum_values top
    → closed_object o d ≡ done r
    → Closed room st ks before r
unfolding closed_object values sound
closed_object-Closed room before st top ks names none d r e l h s k c got = absurd (ground arith)
closed_object-Closed room before st top ks names (some fs) d r e l h s k c got =
    let (counted, ok) = to_fields-kept room names top end fs l h refl e in
    rw (sym (done-injective (object fs, d) r got)) (closed fs (omega (arith, c, counted)) ok)
  where
    closed :
        (fs : Fields)
        → d.count + 1 ≡ before + (1 + values_fields fs)
        → sound_fields room fs ≡ true
        → Closed room st ks before (object fs, d)
    closed fs n ok = record { stack_back = s; keys_back = k; all_counted = n; closed_sound = ok }

pub close_object-Closed :
    (room before : ℕ) (st top : List Value) (ks names : List Bytes) (d : FastDecoder)
    (r : Value × FastDecoder)
    → Inside room st ks before top names d
    → length names ≡ length top
    → close_object (length st) d ≡ done r
    → Closed room st ks before r
unfolding close_object
close_object-Closed room before st top ks names d r h l got =
    let height = above top st d.stack h.stacked in
    let high = height ∙ sym l in
    closed_object-Closed room before st top ks names _ _ r
      (λ i. to_fields (sym (taken_names high) i) (sym (taken height) i) end) l h.tops_sound
      ((λ i. drop (height i) (h.stacked i)) ∙ drop-append top st)
      ((λ i. drop (high i) (h.named i)) ∙ drop-append names ks) h.so_far got
  where
    taken :
        length d.stack - length st ≡ length top → take (length d.stack - length st) d.stack ≡ top
    taken e = (λ i. take (e i) (h.stacked i)) ∙ take-append top st

    taken_names :
        length d.stack - length st ≡ length names → take (length d.stack - length st) d.keys ≡ names
    taken_names e = (λ i. take (e i) (h.named i)) ∙ take-append names ks
