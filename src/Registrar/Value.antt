-- ===== src/Registrar/Value.antt =====
-- The values of type `any` that YAML and JSON give, with the maps from strings to them. Go's maps
-- have no order; a map of the model lists its entries, each key once.
use epp_test.Base.{
  ◌+◌, ◌≡◌, refl, Bool, true, false, List, [], ◌∷◌, ◌++◌, Option, none, some, arith, ltb, ◌==◌,
  if◌then◌else◌,
}
use epp_test.Base.Int.{ℤ, pos, negsuc}
use epp_test.Base.Text.{Bytes, codes, text_eq, text_eq_iff}
use epp_test.Base.Decimal.{decimal}

-- A `float64` comes with what `int(x)` makes of it and with its text under `%v`; so do the
-- scalars that the code only prints.
mutual
  pub data Value : Type 0 where
    null : Value
    str : Bytes → Value
    int : ℤ → Value
    float : ℤ → Bytes → Value
    scalar : Bytes → Value
    list : Items → Value
    dict : Fields → Value

  pub data Items : Type 0 where
    nil : Items
    item : Value → Items → Items

  pub data Fields : Type 0 where
    end : Fields
    field : Bytes → Value → Fields → Fields

unfoldable pub get : Bytes → Fields → Option Value
get k end = none
get k (field j v d) = if text_eq j k then some v else get k d

-- `m[k] = v`
unfoldable pub put : Bytes → Value → Fields → Fields
put k v end = field k v end
put k v (field j w d) = if text_eq j k then field j v d else field j w (put k v d)

pub get-put :
    (k j : Bytes) (v : Value) (d : Fields)
    → get j (put k v d) ≡ (if text_eq k j then some v else get j d)
unfolding get put
get-put k j v end = refl
get-put k j v (field i w d) =
    ground (arith, text_eq_iff k j, text_eq_iff i k, text_eq_iff i j, get-put k j v d)

-- Each key once.
abbrev pub DistinctKeys : Fields → Type 0
DistinctKeys end = Unit
DistinctKeys (field k v d) = (get k d ≡ none) × DistinctKeys d

unfoldable pub format_int : ℤ → Bytes
format_int (pos n) = decimal n
format_int (negsuc n) = b'-' ∷ decimal (n + 1)

-- The order of Go strings, by bytes.
unfoldable pub text_le : Bytes → Bytes → Bool
text_le [] b = true
text_le (x ∷ a) [] = false
text_le (x ∷ a) (y ∷ b) =
    let rest = text_le a b in if ltb x y then true else if x == y then rest else false

place : Bytes × Bytes → List (Bytes × Bytes) → List (Bytes × Bytes)
place (k, s) [] = (k, s) ∷ []
place (k, s) ((j, t) ∷ l) = if text_le k j then (k, s) ∷ (j, t) ∷ l else (j, t) ∷ place (k, s) l

-- Pieces with a space between them.
spaced : List Bytes → Bytes
spaced [] = []
spaced (t ∷ []) = t
spaced (t ∷ u ∷ l) = t ++ (b' ' ∷ spaced (u ∷ l))

entries : List (Bytes × Bytes) → List Bytes
entries [] = []
entries ((k, t) ∷ l) = (k ++ (b':' ∷ t)) ∷ entries l

-- `fmt.Sprintf("%v", v)`; `fmt` prints a map in the order of its keys.
unfoldable mutual
  unfolding format_int text_le place spaced entries

  pub render : Value → Bytes
  render null = codes "<nil>"
  render (str s) = s
  render (int n) = format_int n
  render (float n text) = text
  render (scalar text) = text
  render (list vs) = b'[' ∷ (spaced (render_items vs) ++ b']' ∷ [])
  render (dict d) = codes "map[" ++ (spaced (entries (render_fields d)) ++ b']' ∷ [])

  render_items : Items → List Bytes
  render_items nil = []
  render_items (item v vs) = render v ∷ render_items vs

  render_fields : Fields → List (Bytes × Bytes)
  render_fields end = []
  render_fields (field k v d) = place (k, render v) (render_fields d)
