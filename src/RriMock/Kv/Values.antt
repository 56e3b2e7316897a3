-- ===== src/RriMock/Kv/Values.antt =====
-- What a parsed RRI message holds, said of its lines.
use epp_test.Base.{
  ◌≡◌, refl, sym, ap, ◌∙◌, List, [], ◌∷◌, ◌++◌, append-nil, append_assoc, Option-cases, Bool-cases,
  none, some, arith, inl, inr, if◌then◌else◌,
}
use epp_test.Base.Text.{Bytes, text_eq, text_eq_iff, split}
use epp_test.Base.Dict.{Dict, lookup, insert, lookup-insert}
use epp_test.RriMock.Kv.{or_nil, values, parse_line, parse_lines, parse_kv}

-- The values that the lines give a key, in their order.
unfoldable pub values_in : Bytes → List Bytes → List Bytes
values_in key [] = []
values_in key (line ∷ lines) = elim (parse_line line) [
  | none ↦ values_in key lines
  | some (k, v) ↦ if text_eq k key then v ∷ values_in key lines else values_in key lines
]

values-insert :
    (k j : Bytes) (vs : List Bytes) (d : Dict (List Bytes))
    → values (insert k vs d) j ≡ (if text_eq k j then vs else values d j)
values-insert k j vs d = ap or_nil (lookup-insert k j vs d) ∙ ground arith

appended :
    (k key : Bytes) (v : Bytes) (d : Dict (List Bytes)) (more : List Bytes)
    → values (insert k (values d k ++ (v ∷ [])) d) key ++ more
      ≡ values d key ++ (if text_eq k key then v ∷ more else more)
appended k key v d more =
    rw (values-insert k key (values d k ++ (v ∷ [])) d) (elim (Bool-cases (text_eq k key)) [
      | inl same ↦ rw (same, (text_eq_iff k key).0 same) (append_assoc (values d key) (v ∷ []) more)
      | inr other ↦ rw other refl
    ])

values-parse_lines :
    (lines : List Bytes) (key : Bytes) (d : Dict (List Bytes))
    → values (parse_lines lines d) key ≡ values d key ++ values_in key lines
unfolding parse_lines values_in
values-parse_lines [] key d = sym (append-nil (values d key))
values-parse_lines (line ∷ lines) key d = elim (Option-cases (parse_line line)) [
  | inl skipped ↦ rw (skipped, parse_lines, values_in) (values-parse_lines lines key d)
  | inr ((k, v), read) ↦
      rw (read, parse_lines, values_in)
        (values-parse_lines lines key (insert k (values d k ++ (v ∷ [])) d)
          ∙ appended k key v d (values_in key lines))
]

-- A parsed message has for each key exactly the values that its lines give that key, repeated ones
-- too, in the order of the lines.
pub values-parse_kv :
    (msg key : Bytes) → values (parse_kv msg) key ≡ values_in key (split b'\n' msg)
unfolding parse_kv lookup
values-parse_kv msg key = values-parse_lines (split b'\n' msg) key []
