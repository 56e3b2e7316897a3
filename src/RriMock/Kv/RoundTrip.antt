-- ===== src/RriMock/Kv/RoundTrip.antt =====
-- `ParseKV` behind `FormatKV`.
use epp_test.Base.{
  ℕ, ◌≡◌, ◌≢◌, refl, sym, ap, ◌∙◌, false, List, [], ◌∷◌, ◌++◌, append-nil, append_assoc, Bool-cases,
  inl, inr, some, if◌then◌else◌, All,
}
use epp_test.Base.Text.{
  Bytes, codes, text_eq, text_eq_iff, to_lower, trim_left, trim_right, trim_space, split,
}
use epp_test.Base.Text.Laws.{Lacks, split-append}
use epp_test.Base.Text.Trim.{
  IsTrimmed, trim_right-append, trim_right-visible, trim_space-blank, trim_left-visible,
  trim_left-append, cut-append,
}
use epp_test.Base.Dict.{Dict, lookup}
use epp_test.RriMock.Kv.{values, parse_line, parse_kv, format_values, format_kv}
use epp_test.RriMock.Kv.Values.{values_in, values-parse_kv}

-- A key as `ParseKV` gives it: not empty, in lower case, on one line and without a colon.
pub record IsKey (k : Bytes) : Type 0 where
  pub trimmed : IsTrimmed k
  pub some_text : k ≢ []
  pub lower : to_lower k ≡ k
  pub no_colon : Lacks b':' k
  pub one_line : Lacks b'\n' k

pub record IsValue (v : Bytes) : Type 0 where
  pub trimmed : IsTrimmed v
  pub one_line : Lacks b'\n' v

abbrev pub IsEntry : Bytes × List Bytes → Type 0
IsEntry (k, vs) = IsKey k × All IsValue vs

-- No two entries have the same key.
abbrev pub HasKeysOnce : Dict (List Bytes) → Type 0
HasKeysOnce [] = Unit
HasKeysOnce ((k, vs) ∷ d) = All (λ (e : Bytes × List Bytes). e.0 ≢ k) d × HasKeysOnce d

abbrev line : Bytes → Bytes → Bytes
line k v = k ++ (codes ": " ++ v)

trim_space-line :
    (k v : Bytes) → IsKey k → trim_space (line k v) ≡ k ++ (b':' ∷ trim_right (b' ' ∷ v))
unfolding trim_space
trim_space-line [] v key = absurd (key.some_text refl)
trim_space-line (c ∷ k) v key =
    ap trim_right (trim_left-append c k (b':' ∷ b' ' ∷ v) (trim_left-visible c k key.trimmed.left))
    ∙ trim_right-append (c ∷ k) b':' (b':' ∷ b' ' ∷ v) (trim_right (b' ' ∷ v))
        (trim_right-visible b':' (b' ' ∷ v) refl)

trim_space-trimmed : (s : Bytes) → IsTrimmed s → trim_space s ≡ s
unfolding trim_space
trim_space-trimmed s h = ap trim_right h.left ∙ h.right

not_empty : (k t : Bytes) (c : ℕ) → text_eq (k ++ (c ∷ t)) [] ≡ false
unfolding text_eq
not_empty [] t c = refl
not_empty (x ∷ k) t c = refl

parse_line-line : (k v : Bytes) → IsKey k → IsValue v → parse_line (line k v) ≡ some (k, v)
unfolding parse_line
parse_line-line k v key value =
    let tail = trim_right (b' ' ∷ v) in
    rw (trim_space-line k v key, not_empty k tail b':', cut-append b':' k tail key.no_colon)
      (rw (trim_space-trimmed k key.trimmed, key.lower, trim_space-blank v value.trimmed) refl)

Lacks-append : (c : ℕ) (a b : Bytes) → Lacks c a → Lacks c b → Lacks c (a ++ b)
Lacks-append c [] b h k = k
Lacks-append c (x ∷ a) b h k = (h.0, Lacks-append c a b h.1 k)

split-line :
    (k v rest : Bytes)
    → IsKey k
    → IsValue v
    → split b'\n' (line k v ++ (b'\n' ∷ rest)) ≡ line k v ∷ split b'\n' rest
split-line k v rest key value =
    split-append b'\n' (line k v) rest
      (Lacks-append b'\n' k (codes ": " ++ v) key.one_line (λ e. cc, (λ e. cc, value.one_line)))

format_values-first :
    (k v : Bytes) (vs : List Bytes) (rest : Bytes)
    → format_values k (v ∷ vs) ++ rest ≡ line k v ++ (b'\n' ∷ (format_values k vs ++ rest))
unfolding format_values
format_values-first k v vs rest = simp append_assoc

-- The values that the lines of one entry give a key.
values_in-entry :
    (key k : Bytes) (vs : List Bytes) (rest : Bytes)
    → IsKey k
    → All IsValue vs
    → values_in key (split b'\n' (format_values k vs ++ rest))
      ≡ (if text_eq k key then vs else []) ++ values_in key (split b'\n' rest)
unfolding format_values values_in
values_in-entry key k [] rest is_key fit = elim (Bool-cases (text_eq k key)) [
  | inl same ↦ rw same refl
  | inr other ↦ rw other refl
]
values_in-entry key k (v ∷ vs) rest is_key (value, fit) =
    let more = format_values k vs ++ rest in
    let pieces = format_values-first k v vs rest in
    let later = values_in-entry key k vs rest is_key fit in
    rw (pieces, split-line k v more is_key value, values_in, parse_line-line k v is_key value)
      (elim (Bool-cases (text_eq k key)) [
        | inl same ↦ rw same (ap (λ l. v ∷ l) (later ∙ rw same refl))
        | inr other ↦ rw other (later ∙ rw other refl)
      ])

values-absent :
    (k : Bytes) (d : Dict (List Bytes))
    → All (λ (e : Bytes × List Bytes). e.0 ≢ k) d
    → values d k ≡ []
unfolding lookup
values-absent k [] h = refl
values-absent k ((j, vs) ∷ d) (ne, h) = elim (Bool-cases (text_eq j k)) [
  | inl same ↦ absurd (ne ((text_eq_iff j k).0 same))
  | inr other ↦ rw other (values-absent k d h)
]

values_in-format_kv :
    (key : Bytes) (d : Dict (List Bytes))
    → All IsEntry d
    → HasKeysOnce d
    → values_in key (split b'\n' (format_kv d)) ≡ values d key
unfolding format_kv lookup
values_in-format_kv key [] fit once =
    unfold split values_in parse_line trim_space trim_left trim_right text_eq in refl
values_in-format_kv key ((k, vs) ∷ d) ((is_key, entry), fit) (fresh, once) =
    let later = values_in-format_kv key d fit once in
    values_in-entry key k vs (format_kv d) is_key entry
    ∙ ap (λ l. (if text_eq k key then vs else []) ++ l) later
    ∙ elim (Bool-cases (text_eq k key)) [
      | inl same ↦ rw same (
          ap (λ j. vs ++ values d j) (sym ((text_eq_iff k key).0 same))
          ∙ ap (λ l. vs ++ l) (values-absent k d fresh)
          ∙ append-nil vs)
      | inr other ↦ rw other refl
    ]

-- A message that `FormatKV` writes, in whatever order it takes the keys, is parsed back: under
-- every key stand the values that stood there, in their order, if each key stands once, is as
-- `ParseKV` gives keys (not empty, without blanks around it, in lower case, with no colon and no
-- line break), and each value has no blanks around it and no line break.
pub parse_kv-format_kv :
    (d : Dict (List Bytes)) (key : Bytes)
    → All IsEntry d
    → HasKeysOnce d
    → values (parse_kv (format_kv d)) key ≡ values d key
parse_kv-format_kv d key fit once =
    values-parse_kv (format_kv d) key ∙ values_in-format_kv key d fit once
