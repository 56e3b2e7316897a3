-- ===== src/Runner/Params.antt =====
-- The parameters of a step on their way to the registrar: `deepMerge` (scenario.go),
-- `interpolateParams` and `injectRunIDPrefix` (interpolate.go), `stringParam`, `intParam` and
-- `anyStrings` (executor.go). All build new maps, so a map is a value.
pub mod Merge
pub mod Interpolate
pub mod Prefix
mod Tests
use epp_test.Base.{
  ℕ, zero, suc, Bool, true, false, ◌&&◌, ◌||◌, not, List, [], ◌∷◌, ◌++◌, Option, none, some, leb,
  ◌==◌, if◌then◌else◌, ◌-◌, length,
}
use epp_test.Base.Int.{ℤ, pos}
use epp_test.Base.Text.{Bytes, codes, text_eq, has_prefix}
use epp_test.Base.Dict.{Dict, lookup}
use epp_test.Registrar.Value.{
  Value, null, str, int, float, scalar, list, dict, Items, nil, item, Fields, end, field, get, put,
  render,
}

-- `deepMerge`. The recursion is on the override; `merge_at` is what one of its values makes of
-- the value that stood there.
unfoldable mutual
  pub deep_merge : Fields → Fields → Fields
  deep_merge base end = base
  deep_merge base (field k ov rest) = deep_merge (put k (merge_at (get k base) ov) base) rest

  pub merge_at : Option Value → Value → Value
  merge_at (some (dict old)) (dict d) = dict (deep_merge old d)
  merge_at _ ov = ov

-- What earlier steps left: the fields of their results, by step name.
abbrev pub Captured : Type 0
Captured = Dict Fields

-- The class `[a-zA-Z0-9_]`.
unfoldable pub is_word : ℕ → Bool
is_word c =
    (leb b'a' c && leb c b'z')
    || (leb b'A' c && leb c b'Z')
    || (leb b'0' c && leb c b'9')
    || (c == b'_')

-- The longest run of the class in front, and what follows it.
unfoldable pub take_word : Bytes → Bytes × Bytes
take_word [] = ([], [])
take_word (c ∷ cs) =
    let (w, rest) = take_word cs in if is_word c then (c ∷ w, rest) else ([], c ∷ cs)

word_ends : ℕ → Bytes × Bytes → Option (Bytes × Bytes)
word_ends stop ([], rest) = none
word_ends stop (c ∷ w, []) = none
word_ends stop (c ∷ w, d ∷ rest) = if d == stop then some (c ∷ w, rest) else none

-- A group of the pattern, `[a-zA-Z0-9_]+`, and the byte that must follow it.
unfoldable pub word_then : ℕ → Bytes → Option (Bytes × Bytes)
unfolding word_ends
word_then stop s = word_ends stop (take_word s)

abbrev field_then : Option (Bytes × Bytes) → Option (Bytes × Bytes × Bytes)
field_then none = none
field_then (some (step, s)) = elim (word_then b'}' s) [
  | none ↦ none
  | some (name, rest) ↦ some (step, name, rest)
]

-- `refPattern` at the front of a text: the two groups and what follows the match.
unfoldable pub match_ref : Bytes → Option (Bytes × Bytes × Bytes)
match_ref (c ∷ d ∷ s) = if (c == b'$') && (d == b'{') then field_then (word_then b'.' s) else none
match_ref _ = none

-- The text of a reference, `${step.name}`.
abbrev pub token : Bytes → Bytes → Bytes
token step name = b'$' ∷ b'{' ∷ (step ++ (b'.' ∷ (name ++ (b'}' ∷ []))))

-- What replaces a reference: its value's text, or itself where nothing was captured for it.
unfoldable pub replacement : Captured → Bytes → Bytes → Bytes
replacement captured step name = elim (lookup step captured) [
  | none ↦ token step name
  | some fields ↦ elim (get name fields) [ none ↦ token step name | some v ↦ render v ]
]

-- `ReplaceAllStringFunc`: from the left, each match is replaced and passed over. The number counts
-- the bytes of a match that are still to be passed over.
unfoldable pub interpolate_from : Captured → ℕ → Bytes → Bytes
interpolate_from captured skip [] = []
interpolate_from captured (suc skip) (c ∷ cs) = interpolate_from captured skip cs
interpolate_from captured zero (c ∷ cs) = elim (match_ref (c ∷ cs)) [
  | none ↦ c ∷ interpolate_from captured 0 cs
  | some (step, name, rest) ↦
      replacement captured step name ++ interpolate_from captured (length (token step name) - 1) cs
]

-- `interpolateString`
unfoldable pub interpolate_string : Bytes → Captured → Bytes
unfolding interpolate_from
interpolate_string s captured = interpolate_from captured 0 s

-- One element of a list, which is looked into only if it is a string.
abbrev interpolate_item : Captured → Value → Value
interpolate_item captured (str s) = str (interpolate_string s captured)
interpolate_item captured v = v

abbrev interpolate_items : Captured → Items → Items
interpolate_items captured nil = nil
interpolate_items captured (item v vs) =
    item (interpolate_item captured v) (interpolate_items captured vs)

unfoldable pub interpolate_value : Captured → Value → Value
interpolate_value captured (list vs) = list (interpolate_items captured vs)
interpolate_value captured v = interpolate_item captured v

-- `interpolateParams`
unfoldable pub interpolate_params : Fields → Captured → Fields
interpolate_params end captured = end
interpolate_params (field k v d) captured =
    field k (interpolate_value captured v) (interpolate_params d captured)

-- The prefix in front of a string that is no reference.
unfoldable pub prefixed : Bytes → Value → Value
prefixed prefix (str s) = if has_prefix s (codes "${") then str s else str (prefix ++ (b'-' ∷ s))
prefixed prefix v = v

abbrev prefix_key : Bytes → Bytes → Fields → Fields
prefix_key prefix key d = elim (get key d) [ none ↦ d | some v ↦ put key (prefixed prefix v) d ]

-- `injectRunIDPrefix`. Writing back a value that is not prefixed changes nothing.
unfoldable pub inject_run_id_prefix : Bytes → Fields → Bytes → Fields
inject_run_id_prefix op params prefix =
    if has_prefix op (codes "create_")
    then prefix_key prefix (codes "id") (prefix_key prefix (codes "name") params)
    else params

-- `stringParam`
unfoldable pub string_param : Fields → Bytes → Bytes
string_param params key = elim (get key params) [ some (str s) ↦ s | _ ↦ [] ]

-- `intParam`; `fmt.Sscan` into an int is a parameter, with 0 for its failures.
unfoldable pub int_param : (Bytes → ℤ) → Fields → Bytes → ℤ
int_param sscan params key = elim (get key params) [
  | some (int n) ↦ n
  | some (float n text) ↦ n
  | some (str s) ↦ sscan s
  | _ ↦ pos 0
]

-- `anyStrings`
unfoldable pub any_strings : Items → List Bytes
any_strings nil = []
any_strings (item v vs) = render v ∷ any_strings vs
