-- ===== src/Base/Text/Trim.antt =====
-- Laws of `trim_space` and `cut`: what they leave alone.
use epp_test.Base.{
  ℕ, ◌≤◌, ◌≡◌, refl, ap, ◌∙◌, false, [], ◌∷◌, ◌++◌, Bool-cases, inl, inr, arith, some, length,
}
use epp_test.Base.Text.{
  Bytes, trim_left, trim_right, trim_space, trim_onto, is_space, cut, onto_head,
}
use epp_test.Base.Text.Laws.{Lacks}

-- A text without blanks around it.
pub record IsTrimmed (s : Bytes) : Type 0 where
  pub left : trim_left s ≡ s
  pub right : trim_right s ≡ s

pub trim_right-append :
    (a : Bytes) (c : ℕ) (t u : Bytes) → trim_right t ≡ c ∷ u → trim_right (a ++ t) ≡ a ++ (c ∷ u)
unfolding trim_right trim_onto
trim_right-append [] c t u h = h
trim_right-append (x ∷ []) c t u h = rw h refl
trim_right-append (x ∷ y ∷ a) c t u h = rw (trim_right-append (y ∷ a) c t u h) refl

pub trim_right-visible :
    (c : ℕ) (t : Bytes) → is_space c ≡ false → trim_right (c ∷ t) ≡ c ∷ trim_right t
unfolding trim_right
trim_right-visible c t h = onto (trim_right t)
  where
    onto : (u : Bytes) → trim_onto c u ≡ c ∷ u
    onto [] = rw (h, trim_onto) refl
    onto (d ∷ ds) = unfold trim_onto in refl

-- A blank in front of a trimmed text is all that is trimmed.
pub trim_space-blank : (v : Bytes) → IsTrimmed v → trim_space (trim_right (b' ' ∷ v)) ≡ v
unfolding trim_space trim_right trim_onto trim_left
trim_space-blank [] h = refl
trim_space-blank (c ∷ v) h = rw h.right (ap trim_right h.left ∙ h.right)

length-trim_left : (s : Bytes) → length (trim_left s) ≤ length s
unfolding trim_left
length-trim_left [] = omega arith
length-trim_left (c ∷ s) = ground (arith, length-trim_left s)

-- A trimmed text begins with no blank.
pub trim_left-visible : (c : ℕ) (s : Bytes) → trim_left (c ∷ s) ≡ c ∷ s → is_space c ≡ false
unfolding trim_left
trim_left-visible c s h = elim (Bool-cases (is_space c)) [
  | inr visible ↦ visible
  | inl blank ↦
      let shorter : trim_left s ≡ c ∷ s = rw blank at h in
      absurd (omega (arith, length-trim_left s, ap length shorter))
]

pub trim_left-append :
    (c : ℕ) (s t : Bytes) → is_space c ≡ false → trim_left (c ∷ s ++ t) ≡ c ∷ s ++ t
unfolding trim_left
trim_left-append c s t h = rw h refl

pub cut-append :
    (sep : ℕ) (a rest : Bytes) → Lacks sep a → cut sep (a ++ (sep ∷ rest)) ≡ some (a, rest)
unfolding cut onto_head
cut-append sep [] rest h = ground arith
cut-append sep (c ∷ a) rest h = ground (arith, cut-append sep a rest h.1, h.0)
