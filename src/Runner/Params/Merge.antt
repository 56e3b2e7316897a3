-- ===== src/Runner/Params/Merge.antt =====
-- What `deepMerge` puts under each key and at the end of each path.
use epp_test.Base.{
  ◌≡◌, refl, sym, ap, subst, ◌∙◌, ◌⊎◌, ◌↔◌, List, [], ◌∷◌, Option, none, some, arith, Bool-cases,
  Option-cases, inl, inr,
}
use epp_test.Base.Text.{Bytes, text_eq, text_eq_iff}
use epp_test.Registrar.Value.{Value, dict, Fields, end, field, get, put, get-put, DistinctKeys}
use epp_test.Runner.Params.{deep_merge, merge_at}

-- A key of the merged map.
abbrev merged : Option Value → Option Value → Option Value
merged old none = old
merged old (some ov) = some (merge_at old ov)

-- What the merge has under a key.
get-deep_merge :
    (base override : Fields) (k : Bytes)
    → DistinctKeys override
    → get k (deep_merge base override) ≡ merged (get k base) (get k override)
unfolding deep_merge get
get-deep_merge base end k h = refl
get-deep_merge base (field j ov rest) k h =
    get-deep_merge (put j (merge_at (get j base) ov) base) rest k h.1
    ∙ (let at_j : j ≡ k → get k rest ≡ none = λ e. ap (λ x. get x rest) (sym e) ∙ h.0 in
        let same : j ≡ k → get j base ≡ get k base = λ e. ap (λ x. get x base) e in
        ground (arith, get-put j k (merge_at (get j base) ov) base, text_eq_iff j k))

-- Every map of a value, at any depth, has each key once, as Go's maps have.
unfoldable mutual
  pub ProperValue : Value → Type 0
  ProperValue (dict d) = Proper d
  ProperValue _ = Unit

  pub Proper : Fields → Type 0
  Proper end = Unit
  Proper (field k v d) = (get k d ≡ none) × ProperValue v × Proper d

Proper-DistinctKeys : (d : Fields) → Proper d → DistinctKeys d
unfolding Proper
Proper-DistinctKeys end h = tt
Proper-DistinctKeys (field k v d) h = (h.0, Proper-DistinctKeys d h.2)

Proper-get : (d : Fields) (k : Bytes) (v : Value) → Proper d → get k d ≡ some v → ProperValue v
unfolding Proper get
Proper-get end k v h e = absurd (ground arith)
Proper-get (field j w d) k v h e = elim (Bool-cases (text_eq j k)) [
  | inl same ↦ subst ProperValue (let e' : w ≡ v = ground arith in e') h.1
  | inr other ↦ Proper-get d k v h.2 (rw other at e)
]

-- The value at the end of a path of keys.
abbrev pub walk : List Bytes → Value → Option Value
walk [] v = some v
walk (k ∷ ks) (dict d) = elim (get k d) [ none ↦ none | some v ↦ walk ks v ]
walk (k ∷ ks) _ = none

abbrev pub IsDict : Value → Type 0
IsDict v = (d : Fields) × (v ≡ dict d)

-- The override reaches no value along the path: it has maps, and then nothing.
abbrev pub Untouched : List Bytes → Fields → Type 0
Untouched [] d = ⊥
Untouched (k ∷ ks) d =
    (get k d ≡ none) ⊎ ((e : Fields) × (get k d ≡ some (dict e)) × Untouched ks e)

-- A property of the merge of two maps holds of `merge_at`, if it holds where nothing is merged.
merge_at-cases :
    (P : Value → Type 0) (old : Option Value) (ov : Value)
    → P ov
    → ((b d : Fields) → old ≡ some (dict b) → ov ≡ dict d → P (dict (deep_merge b d)))
    → P (merge_at old ov)
unfolding deep_merge
merge_at-cases P (some (dict b)) (dict d) alone both = both b d refl refl
merge_at-cases P (some (dict b)) _ alone both = alone
merge_at-cases P none _ alone both = alone
merge_at-cases P (some _) _ alone both = alone

get-deep_merge-some :
    (base override : Fields) (k : Bytes) (ov : Value)
    → Proper override
    → get k override ≡ some ov
    → get k (deep_merge base override) ≡ some (merge_at (get k base) ov)
get-deep_merge-some base override k ov h e =
    get-deep_merge base override k (Proper-DistinctKeys override h) ∙ ap (merged (get k base)) e

walk-cons :
    (d : Fields) (k : Bytes) (ks : List Bytes) {v : Value}
    → get k d ≡ some v
    → walk (k ∷ ks) (dict d) ≡ walk ks v
walk-cons d k ks e = rw (e, walk)

walk-cons_some :
    (d : Fields) (k : Bytes) (ks : List Bytes) (x : Value)
    → walk (k ∷ ks) (dict d) ≡ some x
    → (v : Value) × (get k d ≡ some v) × (walk ks v ≡ some x)
walk-cons_some d k ks x e = elim (Option-cases (get k d)) [
  | inl missing ↦ absurd (let never : none ≡ some x = rw (missing, walk) at e in cc)
  | inr (v, found) ↦ (v, found, sym (walk-cons d k ks found) ∙ e)
]

override_wins :
    (base override : Fields) (ks : List Bytes) (leaf : Value)
    → Proper override
    → ¬ IsDict leaf
    → walk ks (dict override) ≡ some leaf
    → walk ks (dict (deep_merge base override)) ≡ some leaf
override_wins base override [] leaf h plain e = absurd (plain (override, ground arith))
override_wins base override (k ∷ ks) leaf h plain e =
    let (ov, found, below) = walk-cons_some override k ks leaf e in
    walk-cons (deep_merge base override) k ks (get-deep_merge-some base override k ov h found)
    ∙ merge_at-cases (λ v. walk ks v ≡ some leaf) (get k base) ov below
        (λ b d _ is.
          override_wins b d ks leaf
            (unfold Proper in subst ProperValue is (Proper-get override k ov h found)) plain
            (ap (walk ks) (sym is) ∙ below))

base_under :
    (v : Value) (d : Fields) (ks : List Bytes) (old : Value)
    → Untouched ks d
    → walk ks v ≡ some old
    → ((b : Fields) → walk ks (dict b) ≡ some old → walk ks (dict (deep_merge b d)) ≡ some old)
    → walk ks (merge_at (some v) (dict d)) ≡ some old
unfolding deep_merge
base_under (dict b) d ks old u e below = below b e
base_under _ d [] old u e below = absurd u
base_under _ d (k ∷ ks) old u e below = absurd cc

base_stays :
    (base override : Fields) (ks : List Bytes) (old : Value)
    → Proper override
    → Untouched ks override
    → walk ks (dict base) ≡ some old
    → walk ks (dict (deep_merge base override)) ≡ some old
base_stays base override [] old h u e = absurd u
base_stays base override (k ∷ ks) old h (inl absent) e =
    let (v, found, below) = walk-cons_some base k ks old e in
    walk-cons (deep_merge base override) k ks (
      get-deep_merge base override k (Proper-DistinctKeys override h)
      ∙ ap (merged (get k base)) absent
      ∙ found)
    ∙ below
base_stays base override (k ∷ ks) old h (inr (d, is, u)) e =
    let (v, found, below) = walk-cons_some base k ks old e in
    walk-cons (deep_merge base override) k ks (get-deep_merge-some base override k (dict d) h is)
    ∙ ap (λ o. walk ks (merge_at o (dict d))) found
    ∙ base_under v d ks old u below
        (λ b e'. base_stays b d ks old (unfold Proper in Proper-get override k (dict d) h is) u e')

from_either :
    (base override : Fields) (ks : List Bytes) (leaf : Value)
    → Proper override
    → ¬ IsDict leaf
    → walk ks (dict (deep_merge base override)) ≡ some leaf
    → (walk ks (dict override) ≡ some leaf)
      ⊎ (Untouched ks override × (walk ks (dict base) ≡ some leaf))
from_either base override [] leaf h plain e =
    absurd (plain (deep_merge base override, ground arith))
from_either base override (k ∷ ks) leaf h plain e =
    let merge = get-deep_merge base override k (Proper-DistinctKeys override h) in
    let (v, found, below) = walk-cons_some (deep_merge base override) k ks leaf e in
    elim (Option-cases (get k override)) [
      | inl absent ↦ inr (
        inl absent,
        walk-cons base k ks (sym (ap (merged (get k base)) absent) ∙ sym merge ∙ found) ∙ below,
      )
      | inr (ov, there) ↦
          let From : Value → Type 0 = λ v.
            walk ks v ≡ some leaf
            → (walk (k ∷ ks) (dict override) ≡ some leaf)
              ⊎ (Untouched (k ∷ ks) override × (walk (k ∷ ks) (dict base) ≡ some leaf)) in
          let whole : From (merge_at (get k base) ov) =
            merge_at-cases From (get k base) ov (λ w. inl (walk-cons override k ks there ∙ w))
              (λ b d in_base is w.
                elim (from_either b d ks leaf
                  (unfold Proper in subst ProperValue is (Proper-get override k ov h there)) plain
                  w) [
                    | inl o ↦ inl (walk-cons override k ks (there ∙ ap some is) ∙ o)
                    | inr (u, o) ↦
                        inr (inr (d, there ∙ ap some is, u), walk-cons base k ks in_base ∙ o)
                  ]) in
          let same : v ≡ merge_at (get k base) ov =
            let both = sym found ∙ get-deep_merge-some base override k ov h there in cc in
          whole (ap (walk ks) (sym same) ∙ below)
    ]

-- If each key stands once in every map of the override, then for any path of keys a value that is
-- no map stands at its end in the merge exactly if it stands there in the override, or the override
-- has maps along the path and then nothing, and it stands there in the base.
pub walk-deep_merge_iff :
    (base override : Fields) (ks : List Bytes) (leaf : Value)
    → Proper override
    → ¬ IsDict leaf
    → (walk ks (dict (deep_merge base override)) ≡ some leaf) ↔ (
        (walk ks (dict override) ≡ some leaf)
        ⊎ (Untouched ks override × (walk ks (dict base) ≡ some leaf)))
walk-deep_merge_iff base override ks leaf h plain = (
  from_either base override ks leaf h plain,
  λ side. elim side [
    | inl o ↦ override_wins base override ks leaf h plain o
    | inr (u, o) ↦ base_stays base override ks leaf h u o
  ],
)
