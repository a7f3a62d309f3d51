-- ===== src/Eval/Paths.antt =====
-- Locations: JSON Pointers of instances, evaluation paths through references (eval.go) and the
-- escaping of pointer tokens (compile.go, ref.go). Stacks are lists with the innermost first, and
-- the source's caches of built pointers are left out: they hold the values computed here.
use jsonschema.Prelude.{
  ℕ, zero, suc, Bool, true, List, [], ◌∷◌, ◌++◌, Option, none, some, if◌then◌else◌, ◌==◌,
}
use Prim.Native.Nat.{pred}
use jsonschema.Prelude.Bytes.{Bytes, contains_any, cut_prefix, itoa}
use jsonschema.Prelude.Utf8.{rune_width}
use jsonschema.Eval.Types.{InstanceStep, key, index, RefFrame}

-- The loop of `escapePointerToken`: `for i := range s` visits the first byte of each rune, and the
-- first argument counts the bytes of the rune that are still to be passed over.
unfoldable pub escape_runes : ℕ → Bytes → Bytes
unfolding rune_width
escape_runes k [] = []
escape_runes zero (c ∷ s) =
    let rest = escape_runes (pred (rune_width (c ∷ s))) s in
    if c == b'~' then b'~' ∷ b'0' ∷ rest else if c == b'/' then b'~' ∷ b'1' ∷ rest else c ∷ rest
escape_runes (suc k) (c ∷ s) = escape_runes k s

unfoldable pub escape_pointer_token : Bytes → Bytes
unfolding escape_runes contains_any
escape_pointer_token s = if contains_any s (b'~' ∷ b'/' ∷ []) then escape_runes 0 s else s

-- strings.ReplaceAll of "~" followed by `d`.
unfoldable pub replace_escape : ℕ → ℕ → Bytes → Bytes
replace_escape d to [] = []
replace_escape d to (c ∷ []) = c ∷ []
replace_escape d to (c ∷ e ∷ s) =
    let replaced = to ∷ replace_escape d to s in
    let kept = c ∷ replace_escape d to (e ∷ s) in
    if c == b'~' then (if e == d then replaced else kept) else kept

unfoldable pub unescape_pointer_token : Bytes → Bytes
unfolding replace_escape
unescape_pointer_token s = replace_escape b'0' b'~' (replace_escape b'1' b'/' s)

-- instanceLocation, and the token that a step adds.
unfoldable pub step_token : InstanceStep → Bytes
unfolding escape_pointer_token itoa
step_token (index i) = itoa i
step_token (key k) = escape_pointer_token k

unfoldable pub instance_pointer : List InstanceStep → Bytes
unfolding step_token
instance_pointer [] = []
instance_pointer (s ∷ steps) = instance_pointer steps ++ b'/' ∷ step_token s

starts_slash : Bytes → Bool
starts_slash [] = true
starts_slash (c ∷ _) = c == b'/'

-- pathRest
unfoldable pub path_rest : Bytes → Bytes → Option Bytes
unfolding starts_slash cut_prefix
path_rest loc root = elim (cut_prefix loc root) [
  | none ↦ none
  | some rest ↦ if starts_slash rest then some rest else none
]

-- anchorPath, of the frame at the head.
unfoldable pub anchor_path : RefFrame → List RefFrame → Bytes
unfolding path_rest
anchor_path f [] = f.from
anchor_path f (g ∷ outer) =
    let above = anchor_path g outer in
    elim (path_rest f.from g.root) [ none ↦ f.from | some rest ↦ above ++ rest ]

-- keywordPath
unfoldable pub keyword_path : List RefFrame → Bytes → Bytes
unfolding anchor_path path_rest
keyword_path [] loc = loc
keyword_path (f ∷ outer) loc = elim (path_rest loc f.root) [
  | none ↦ loc
  | some rest ↦ anchor_path f outer ++ rest
]
