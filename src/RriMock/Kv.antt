-- ===== src/RriMock/Kv.antt =====
-- pkg/mock/rri/kv.go: the `key: value` lines of RRI messages, for ASCII text.
pub mod Values
pub mod RoundTrip
mod Tests
use epp_test.Base.{ℕ, List, [], ◌∷◌, ◌++◌, Option, none, some, if◌then◌else◌}
use epp_test.Base.Text.{Bytes, codes, text_eq, to_lower, trim_space, split, cut}
use epp_test.Base.Dict.{Dict, lookup, insert}

abbrev pub or_nil : Option (List Bytes) → List Bytes
or_nil none = []
or_nil (some vs) = vs

-- A Go map's value where a missing key gives the nil slice.
abbrev pub values : Dict (List Bytes) → Bytes → List Bytes
values fields key = or_nil (lookup key fields)

-- The key and value of a line; `none` for an empty line and for one without a colon.
unfoldable pub parse_line : Bytes → Option (Bytes × Bytes)
parse_line line =
    let trimmed = trim_space line in
    if text_eq trimmed [] then none else elim (cut b':' trimmed) [
      | none ↦ none
      | some (key, val) ↦ some (to_lower (trim_space key), trim_space val)
    ]

-- The loop of `ParseKV` over the lines.
unfoldable pub parse_lines : List Bytes → Dict (List Bytes) → Dict (List Bytes)
parse_lines [] result = result
parse_lines (line ∷ lines) result = elim (parse_line line) [
  | none ↦ parse_lines lines result
  | some (key, val) ↦ parse_lines lines (insert key (values result key ++ (val ∷ [])) result)
]

-- `ParseKV`
unfoldable pub parse_kv : Bytes → Dict (List Bytes)
parse_kv msg = parse_lines (split b'\n' msg) []

-- The loops of `FormatKV`; a map's order is that of the list.
format_values : Bytes → List Bytes → Bytes
format_values key [] = []
format_values key (v ∷ vs) = key ++ (codes ": " ++ (v ++ (b'\n' ∷ format_values key vs)))

-- `FormatKV`
unfoldable pub format_kv : Dict (List Bytes) → Bytes
unfolding format_values
format_kv [] = []
format_kv ((key, vs) ∷ fields) = format_values key vs ++ format_kv fields

-- `firstField`
unfoldable pub first_field : Dict (List Bytes) → Bytes → Bytes
first_field fields key = elim (values fields (to_lower key)) [ [] ↦ [] | v ∷ vs ↦ v ]
