-- ===== src/Decode/Loops.antt =====
-- The loops over arrays and objects of fastjson.go, from their elements to the whole container.
use jsonschema.Prelude.{
  ℕ, zero, suc, ◌+◌, Bool, true, false, List, [], ◌∷◌, ◌≡◌, refl, sym, ap, ◌∙◌, ◌==◌, if◌then◌else◌,
  length, arith,
}
use jsonschema.Prelude.Bytes.{Bytes}
use jsonschema.Value.{Value}
use jsonschema.Decode.Scan.{Scanned, done, refused, starved, skip_space, str}
use jsonschema.Decode.Fast.{
  ValueDecoder, FastDecoder, Decoded, at, fast_decode_max_depth, close_array, close_object,
  behind_element, push_element, array_loop, behind_member, push_member, colon, behind_name, member,
  object_loop,
}
use jsonschema.Decode.Kept.{
  sound, sum_values, all_sound, join_and, Kept, Keeps, Closed, Inside, close_array-Closed,
  close_object-Closed, done-injective,
}

-- A container's loop from a decoder inside of it.
abbrev pub Closes :
    ℕ
    → List Value
    → List Bytes
    → ℕ
    → (Value × FastDecoder)
    → List Value
    → List Bytes
    → (FastDecoder → Decoded)
    → Type 0
Closes room st ks before r top names loop =
    (d : FastDecoder)
    → Inside room st ks before top names d
    → loop d ≡ done r
    → Closed room st ks before r

pushed :
    (room before : ℕ) (st top : List Value) (ks names : List Bytes) (d : FastDecoder) (s : Bytes)
    (v : Value) (d' : FastDecoder)
    → Inside room st ks before top names d
    → Kept room (at d s) (v, d')
    → Inside room st ks before (v ∷ top) names (record d' { stack = v ∷ d'.stack })
unfolding all_sound sum_values
pushed room before st top ks names d s v d' h k = record {
  stacked = ap (λ t. v ∷ t) (k.stack_kept ∙ h.stacked);
  named = k.keys_kept ∙ h.named;
  tops_sound = join_and (sound room v) (all_sound room top) k.is_sound h.tops_sound;
  so_far = omega (arith, k.counted, h.so_far);
}

module _ (value : ValueDecoder) (keeps : Keeps value) (room depth before : ℕ) (st : List Value)
    (ks : List Bytes) (r : Value × FastDecoder) (fits : room + depth ≡ fast_decode_max_depth) where
  behind_element-Closed :
      (top : List Value) (again : FastDecoder → Decoded) (s : Bytes) (d : FastDecoder)
      → Closes room st ks before r top [] again
      → Inside room st ks before top [] d
      → behind_element value depth (length st) again s d ≡ done r
      → Closed room st ks before r
  unfolding behind_element
  behind_element-Closed top again [] d more h got = absurd (ground arith)
  behind_element-Closed top again (c ∷ s) d more h got = go (c == b']') (c == b',') got
    where
      inside : Inside room st ks before top [] (at d s)
      inside = record {
        stacked = h.stacked;
        named = h.named;
        tops_sound = h.tops_sound;
        so_far = h.so_far;
      }

      go :
          (close next : Bool)
          → (if close
              then done (close_array (length st) (at d s))
              else if next
              then again (at d s)
              else refused)
            ≡ done r
          → Closed room st ks before r
      go true next got =
          rw (sym (done-injective _ r got))
            (close_array-Closed room before st top ks (at d s) inside)
      go false true got = more (at d s) inside got
      go false false got = absurd (ground arith)

  push_element-Closed :
      (top : List Value) (again : FastDecoder → Decoded) (o : Decoded) (d : FastDecoder) (s : Bytes)
      → ((v : Value) → Closes room st ks before r (v ∷ top) [] again)
      → Inside room st ks before top [] d
      → ((x : Value × FastDecoder) → o ≡ done x → Kept room (at d s) x)
      → push_element value depth (length st) again o ≡ done r
      → Closed room st ks before r
  unfolding push_element
  push_element-Closed top again (done (v, d')) d s more h kept got =
      behind_element-Closed (v ∷ top) again (skip_space d'.rest) _ (more v)
        (pushed room before st top ks [] d s v d' h (kept (v, d') refl)) got
  push_element-Closed top again refused d s more h kept got = absurd (ground arith)
  push_element-Closed top again starved d s more h kept got = absurd (ground arith)

  pub array_loop-Closed :
      (fuel : ℕ) (top : List Value)
      → Closes room st ks before r top [] (array_loop value depth (length st) fuel)
  unfolding array_loop
  array_loop-Closed zero top d h got = absurd (ground arith)
  array_loop-Closed (suc fuel) top d h got =
      push_element-Closed top (array_loop value depth (length st) fuel)
        (value depth (at d (skip_space d.rest))) d (skip_space d.rest)
        (λ v. array_loop-Closed fuel (v ∷ top)) h
        (λ x e. keeps room depth (at d (skip_space d.rest)) x fits e) got

  behind_member-Closed :
      (top : List Value) (names : List Bytes) (again : FastDecoder → Decoded) (s : Bytes)
      (d : FastDecoder)
      → length names ≡ length top
      → Closes room st ks before r top names again
      → Inside room st ks before top names d
      → behind_member value depth (length st) again s d ≡ done r
      → Closed room st ks before r
  unfolding behind_member
  behind_member-Closed top names again [] d l more h got = absurd (ground arith)
  behind_member-Closed top names again (c ∷ s) d l more h got = go (c == b'}') (c == b',') got
    where
      inside : Inside room st ks before top names (at d s)
      inside = record {
        stacked = h.stacked;
        named = h.named;
        tops_sound = h.tops_sound;
        so_far = h.so_far;
      }

      go :
          (close next : Bool)
          → (if close
              then close_object (length st) (at d s)
              else if next
              then again (at d s)
              else refused)
            ≡ done r
          → Closed room st ks before r
      go true next got = close_object-Closed room before st top ks names (at d s) r inside l got
      go false true got = more (at d s) inside got
      go false false got = absurd (ground arith)

  push_member-Closed :
      (top : List Value) (names : List Bytes) (again : FastDecoder → Decoded) (k : Bytes)
      (o : Decoded) (d : FastDecoder) (s : Bytes)
      → length names ≡ length top
      → ((v : Value) → Closes room st ks before r (v ∷ top) (k ∷ names) again)
      → Inside room st ks before top names d
      → ((x : Value × FastDecoder) → o ≡ done x → Kept room (at d s) x)
      → push_member value depth (length st) again k o ≡ done r
      → Closed room st ks before r
  unfolding push_member
  push_member-Closed top names again k (done (v, d')) d s l more h kept got =
      behind_member-Closed (v ∷ top) (k ∷ names) again (skip_space d'.rest) _ (omega (arith, l))
        (more v) (named_too (pushed room before st top ks names d s v d' h (kept (v, d') refl))) got
    where
      named_too :
          Inside room st ks before (v ∷ top) names (record d' { stack = v ∷ d'.stack })
          → Inside room st ks before
              (v ∷ top)
              (k ∷ names)
              (record d' { stack = v ∷ d'.stack; keys = k ∷ d'.keys })
      named_too i = record {
        stacked = i.stacked;
        named = ap (λ t. k ∷ t) i.named;
        tops_sound = i.tops_sound;
        so_far = i.so_far;
      }
  push_member-Closed top names again k refused d s l more h kept got = absurd (ground arith)
  push_member-Closed top names again k starved d s l more h kept got = absurd (ground arith)

  colon-Closed :
      (top : List Value) (names : List Bytes) (again : FastDecoder → Decoded) (k s : Bytes)
      (d : FastDecoder)
      → length names ≡ length top
      → ((v : Value) → Closes room st ks before r (v ∷ top) (k ∷ names) again)
      → Inside room st ks before top names d
      → colon value depth (length st) again k s d ≡ done r
      → Closed room st ks before r
  unfolding colon
  colon-Closed top names again k [] d l more h got = absurd (ground arith)
  colon-Closed top names again k (c ∷ s) d l more h got = go (c == b':') got
    where
      go :
          (here : Bool)
          → (if here
              then push_member value depth (length st) again k (value depth (at d (skip_space s)))
              else refused)
            ≡ done r
          → Closed room st ks before r
      go true got =
          push_member-Closed top names again k (value depth (at d (skip_space s))) d (skip_space s)
            l more h (λ x e. keeps room depth (at d (skip_space s)) x fits e) got
      go false got = absurd (ground arith)

  member-Closed :
      (top : List Value) (names : List Bytes) (again : FastDecoder → Decoded) (s : Bytes)
      (d : FastDecoder)
      → length names ≡ length top
      → ((k : Bytes) (v : Value) → Closes room st ks before r (v ∷ top) (k ∷ names) again)
      → Inside room st ks before top names d
      → member value depth (length st) again d s ≡ done r
      → Closed room st ks before r
  unfolding member behind_name
  member-Closed top names again [] d l more h got = absurd (ground arith)
  member-Closed top names again (c ∷ s) d l more h got = go (c == b'"') got
    where
      named :
          (o : Scanned (Bytes × Bytes))
          → behind_name value depth (length st) again d o ≡ done r
          → Closed room st ks before r
      named (done (k, s)) got = colon-Closed top names again k (skip_space s) d l (more k) h got
      named refused got = absurd (ground arith)
      named starved got = absurd (ground arith)

      go :
          (here : Bool)
          → (if here then behind_name value depth (length st) again d (str s) else refused) ≡ done r
          → Closed room st ks before r
      go true got = named (str s) got
      go false got = absurd (ground arith)

  pub object_loop-Closed :
      (fuel : ℕ) (top : List Value) (names : List Bytes)
      → length names ≡ length top
      → Closes room st ks before r top names (object_loop value depth (length st) fuel)
  unfolding object_loop
  object_loop-Closed zero top names l d h got = absurd (ground arith)
  object_loop-Closed (suc fuel) top names l d h got =
      member-Closed top names (object_loop value depth (length st) fuel) (skip_space d.rest) d l
        (λ k v. object_loop-Closed fuel (v ∷ top) (k ∷ names) (omega (arith, l))) h got
