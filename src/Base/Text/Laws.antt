-- ===== src/Base/Text/Laws.antt =====
-- Laws of the text operations: what `contains`, `has_prefix` and `split` decide.
use epp_test.Base.{
  ℕ, ◌≡◌, ◌≢◌, ◌↔◌, inl, inr, refl, sym, ap, ap₂, ◌∙◌, ==_iff, true, List, [], ◌∷◌, ◌++◌, arith,
  ◌==◌, All, Bool-cases,
}
use epp_test.Base.Text.{Bytes, has_prefix, contains, split, onto_first}

-- A text without the byte `c`.
abbrev pub Lacks : ℕ → Bytes → Type 0
Lacks c s = All (λ b. b ≢ c) s

pub has_prefix_iff : (s p : Bytes) → (has_prefix s p ≡ true) ↔ ((t : Bytes) × (s ≡ p ++ t))
unfolding has_prefix
has_prefix_iff s [] = (λ h. (s, refl), λ h. refl)
has_prefix_iff [] (y ∷ p) = (λ h. cc, λ (t, e). cc)
has_prefix_iff (x ∷ s) (y ∷ p) = (
  λ h. let (t, e) = (has_prefix_iff s p).0 (ground arith) in (t, ground arith),
  λ (t, e). ground (arith, (has_prefix_iff s p).1 (t, ground arith)),
)

contains_sound :
    (s sub : Bytes) → contains s sub ≡ true → (a : Bytes) × (b : Bytes) × (s ≡ a ++ (sub ++ b))
unfolding contains
contains_sound [] sub h = let (b, e) = (has_prefix_iff [] sub).0 h in ([], b, e)
contains_sound (x ∷ s) sub h = elim (Bool-cases (has_prefix (x ∷ s) sub)) [
  | inl here ↦ let (b, e) = (has_prefix_iff (x ∷ s) sub).0 here in ([], b, e)
  | inr later ↦ let (a, b, e) = contains_sound s sub (rw later at h) in (x ∷ a, b, ap (◌∷◌ x) e)
]

has_prefix-contains : (s sub : Bytes) → has_prefix s sub ≡ true → contains s sub ≡ true
unfolding contains
has_prefix-contains [] sub h = h
has_prefix-contains (x ∷ s) sub h = rw h

contains_middle : (a sub b : Bytes) → contains (a ++ (sub ++ b)) sub ≡ true
unfolding contains
contains_middle [] sub b =
    has_prefix-contains (sub ++ b) sub ((has_prefix_iff (sub ++ b) sub).1 (b, refl))
contains_middle (x ∷ a) sub b = ground (arith, contains_middle a sub b)

-- `strings.Contains` tells whether the text stands somewhere in the other.
pub contains_iff :
    (s sub : Bytes) → (contains s sub ≡ true) ↔ ((a : Bytes) × (b : Bytes) × (s ≡ a ++ (sub ++ b)))
contains_iff s sub =
    (contains_sound s sub, λ (a, b, e). ap (λ t. contains t sub) e ∙ contains_middle a sub b)

-- Pieces with the separator between them.
unfoldable pub join : ℕ → List Bytes → Bytes
join sep [] = []
join sep (p ∷ []) = p
join sep (p ∷ q ∷ ps) = p ++ (sep ∷ join sep (q ∷ ps))

join-onto_first : (sep c : ℕ) (ps : List Bytes) → join sep (onto_first c ps) ≡ c ∷ join sep ps
unfolding join onto_first
join-onto_first sep c [] = refl
join-onto_first sep c (p ∷ []) = refl
join-onto_first sep c (p ∷ q ∷ ps) = refl

abbrev pub IsCons : List Bytes → Type 0
IsCons ps = (p : Bytes) × (qs : List Bytes) × (ps ≡ p ∷ qs)

onto_first-IsCons : (c : ℕ) (ps : List Bytes) → IsCons (onto_first c ps)
unfolding onto_first
onto_first-IsCons c [] = (c ∷ [], [], refl)
onto_first-IsCons c (p ∷ ps) = (c ∷ p, ps, refl)

pub split-IsCons : (sep : ℕ) (s : Bytes) → IsCons (split sep s)
unfolding split
split-IsCons sep [] = ([], [], refl)
split-IsCons sep (c ∷ s) = elim (Bool-cases (c == sep)) [
  | inl e ↦ rw e ([], split sep s, refl)
  | inr e ↦ rw e (onto_first-IsCons c (split sep s))
]

pub join-split : (sep : ℕ) (s : Bytes) → join sep (split sep s) ≡ s
unfolding split join
join-split sep [] = refl
join-split sep (c ∷ s) = elim (Bool-cases (c == sep)) [
  | inl e ↦
      let (p, qs, parts) = split-IsCons sep s in
      rw e (
        rw parts
          (ap₂ ◌∷◌ (sym ((==_iff c sep).0 e)) (ap (join sep) (sym parts) ∙ join-split sep s)))
  | inr e ↦ rw e (join-onto_first sep c (split sep s) ∙ ap (◌∷◌ c) (join-split sep s))
]

onto_first-Lacks :
    (sep c : ℕ) (ps : List Bytes) → c ≢ sep → All (Lacks sep) ps → All (Lacks sep) (onto_first c ps)
unfolding onto_first
onto_first-Lacks sep c [] ne h = ((ne, tt), tt)
onto_first-Lacks sep c (p ∷ ps) ne h = ((ne, h.0), h.1)

pub split-Lacks : (sep : ℕ) (s : Bytes) → All (Lacks sep) (split sep s)
unfolding split
split-Lacks sep [] = (tt, tt)
split-Lacks sep (c ∷ s) = elim (Bool-cases (c == sep)) [
  | inl e ↦ rw e (tt, split-Lacks sep s)
  | inr e ↦ rw e (onto_first-Lacks sep c (split sep s) (ground arith) (split-Lacks sep s))
]

split-piece : (sep : ℕ) (p : Bytes) → Lacks sep p → split sep p ≡ p ∷ []
unfolding split onto_first
split-piece sep [] h = refl
split-piece sep (c ∷ p) h = ground (arith, split-piece sep p h.1, h.0)

pub split-append :
    (sep : ℕ) (p rest : Bytes) → Lacks sep p → split sep (p ++ (sep ∷ rest)) ≡ p ∷ split sep rest
unfolding split onto_first
split-append sep [] rest h = ground arith
split-append sep (c ∷ p) rest h = ground (arith, split-append sep p rest h.1, h.0)

pub split-join :
    (sep : ℕ) (p : Bytes) (ps : List Bytes)
    → All (Lacks sep) (p ∷ ps)
    → split sep (join sep (p ∷ ps)) ≡ p ∷ ps
unfolding join
split-join sep p [] h = split-piece sep p h.0
split-join sep p (q ∷ ps) h =
    split-append sep p (join sep (q ∷ ps)) h.0 ∙ ap (◌∷◌ p) (split-join sep q ps h.1)
