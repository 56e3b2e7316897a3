-- ===== src/Runner/Params/Interpolate.antt =====
-- `interpolateString` on texts that are put together from plain text and references.
use mathlib.Core.List.{append_assoc}
use epp_test.Base.{
  ℕ, zero, suc, ◌-◌, ◌≡◌, ◌≢◌, refl, sym, ap, ap₂, ◌∙◌, true, false, ◌&&◌, List, [], ◌∷◌, ◌++◌,
  Option, none, some, arith, ◌==◌, Bool-cases, Option-cases, inl, inr, length, drop, drop-append,
  All,
}
use epp_test.Base.Text.{Bytes}
use epp_test.Base.Dict.{lookup}
use epp_test.Base.Text.Laws.{Lacks}
use epp_test.Runner.Params.{
  Captured, is_word, take_word, word_ends, word_then, field_then, match_ref, token, replacement,
  interpolate_from, interpolate_string,
}

-- A name that the pattern's groups match whole.
abbrev pub IsWord : Bytes → Type 0
IsWord w = (w ≢ []) × All (λ c. is_word c ≡ true) w

-- Plain text has no dollar sign, and a reference names a step and a field.
pub data Piece : Type 0 where
  plain : Bytes → Piece
  ref : Bytes → Bytes → Piece

abbrev pub IsPiece : Piece → Type 0
IsPiece (plain s) = Lacks b'$' s
IsPiece (ref step name) = IsWord step × IsWord name

-- The text of a template, and the text that it stands for.
abbrev pub template : List Piece → Bytes
template [] = []
template (plain s ∷ ps) = s ++ template ps
template (ref step name ∷ ps) = token step name ++ template ps

abbrev pub expansion : Captured → List Piece → Bytes
expansion captured [] = []
expansion captured (plain s ∷ ps) = s ++ expansion captured ps
expansion captured (ref step name ∷ ps) = replacement captured step name ++ expansion captured ps

take_word-append :
    (w : Bytes) (c : ℕ) (rest : Bytes)
    → All (λ b. is_word b ≡ true) w
    → is_word c ≡ false
    → take_word (w ++ (c ∷ rest)) ≡ (w, c ∷ rest)
unfolding take_word
take_word-append [] c rest h n = ground arith
take_word-append (b ∷ w) c rest h n = ground (arith, take_word-append w c rest h.1 n)

word_then-append :
    (stop : ℕ) (w rest : Bytes)
    → IsWord w
    → is_word stop ≡ false
    → word_then stop (w ++ (stop ∷ rest)) ≡ some (w, rest)
unfolding word_then
word_then-append stop [] rest h n = absurd (h.0 refl)
word_then-append stop (c ∷ w) rest h n =
    rw (take_word-append (c ∷ w) stop rest h.1 n) (ground arith)

-- What follows the `${` of a reference, bracketed as the pattern reads it.
token-append :
    (step name rest : Bytes)
    → (step ++ (b'.' ∷ (name ++ (b'}' ∷ [])))) ++ rest ≡ step ++ (b'.' ∷ (name ++ (b'}' ∷ rest)))
token-append step name rest =
    append_assoc step _ rest ∙ ap (λ t. step ++ (b'.' ∷ t)) (append_assoc name (b'}' ∷ []) rest)

pub match_ref-token :
    (step name rest : Bytes)
    → IsWord step
    → IsWord name
    → match_ref (token step name ++ rest) ≡ some (step, name, rest)
unfolding match_ref is_word
match_ref-token step name rest s n =
    ap (λ t. field_then (word_then b'.' t)) (token-append step name rest)
    ∙ ap field_then (word_then-append b'.' step (name ++ (b'}' ∷ rest)) s refl)
    ∙ rw (word_then-append b'}' name rest n refl, field_then)

interpolate_from-skip :
    (captured : Captured) (s rest : Bytes)
    → interpolate_from captured (length s) (s ++ rest) ≡ interpolate_from captured 0 rest
unfolding interpolate_from
interpolate_from-skip captured [] rest = refl
interpolate_from-skip captured (c ∷ s) rest = interpolate_from-skip captured s rest

match_ref-plain : (c : ℕ) (s : Bytes) → c ≢ b'$' → match_ref (c ∷ s) ≡ none
unfolding match_ref
match_ref-plain c [] h = refl
match_ref-plain c (d ∷ s) h = ground arith

interpolate_from-plain :
    (captured : Captured) (s rest : Bytes)
    → Lacks b'$' s
    → interpolate_from captured 0 (s ++ rest) ≡ s ++ interpolate_from captured 0 rest
unfolding interpolate_from
interpolate_from-plain captured [] rest h = refl
interpolate_from-plain captured (c ∷ s) rest h =
    rw (match_ref-plain c (s ++ rest) h.0, interpolate_from)
      (ap (◌∷◌ c) (interpolate_from-plain captured s rest h.1))

interpolate_from-token :
    (captured : Captured) (step name rest : Bytes)
    → IsWord step
    → IsWord name
    → interpolate_from captured 0 (token step name ++ rest)
      ≡ replacement captured step name ++ interpolate_from captured 0 rest
unfolding interpolate_from
interpolate_from-token captured step name rest s n =
    let inner = step ++ (b'.' ∷ (name ++ (b'}' ∷ []))) in
    let passed : length (token step name) - 1 ≡ length (b'{' ∷ inner) = omega arith in
    rw (match_ref-token step name rest s n, interpolate_from)
      (ap (λ t. replacement captured step name ++ t)
        (ap (λ k. interpolate_from captured k ((b'{' ∷ inner) ++ rest)) passed
          ∙ interpolate_from-skip captured (b'{' ∷ inner) rest))

interpolate_from-template :
    (captured : Captured) (ps : List Piece)
    → All IsPiece ps
    → interpolate_from captured 0 (template ps) ≡ expansion captured ps
interpolate_from-template captured [] h = unfold interpolate_from in refl
interpolate_from-template captured (plain s ∷ ps) h =
    interpolate_from-plain captured s (template ps) h.0
    ∙ ap (λ t. s ++ t) (interpolate_from-template captured ps h.1)
interpolate_from-template captured (ref step name ∷ ps) h =
    interpolate_from-token captured step name (template ps) h.0.0 h.0.1
    ∙ ap (λ t. replacement captured step name ++ t) (interpolate_from-template captured ps h.1)

-- A template, of plain text without dollar signs and of references, becomes its pieces with each
-- reference replaced once: by the captured value's text, which is not looked into again, or by
-- itself where its step or its field was not captured.
pub interpolate-template :
    (captured : Captured) (ps : List Piece)
    → All IsPiece ps
    → interpolate_string (template ps) captured ≡ expansion captured ps
unfolding interpolate_string
interpolate-template captured ps h = interpolate_from-template captured ps h

take_word_sound : (s : Bytes) → (take_word s).0 ++ (take_word s).1 ≡ s
unfolding take_word
take_word_sound [] = refl
take_word_sound (c ∷ s) = ground (arith, take_word_sound s)

word_then_sound :
    (stop : ℕ) (s : Bytes) {w rest : Bytes}
    → word_then stop s ≡ some (w, rest)
    → s ≡ w ++ (stop ∷ rest)
unfolding word_then
word_then_sound stop s {w} {rest} h =
    sym (take_word_sound s) ∙ ends (take_word s).0 (take_word s).1 h
  where
    ends : (u t : Bytes) → word_ends stop (u, t) ≡ some (w, rest) → u ++ t ≡ w ++ (stop ∷ rest)
    ends [] t h = absurd cc
    ends (c ∷ u) [] h = absurd cc
    ends (c ∷ u) (d ∷ t) h = ground arith

field_then_sound :
    (o : Option (Bytes × Bytes)) {step name rest : Bytes}
    → field_then o ≡ some (step, name, rest)
    → (s : Bytes) × (o ≡ some (step, s)) × (word_then b'}' s ≡ some (name, rest))
field_then_sound none h = absurd cc
field_then_sound (some (step', s)) {step} {name} {rest} h = elim (Option-cases (word_then b'}' s)) [
  | inl missing ↦
      absurd (let never : none ≡ some (step, name, rest) = rw (missing, field_then) at h in cc)
  | inr (found, is) ↦
      let same : ◌≡◌ {A = Option (Bytes × Bytes × Bytes)} (some (step', found.0, found.1))
          (some (step, name, rest)) =
        rw (is, field_then) at h in
      (s, cc, is ∙ cc)
]

match_ref_sound :
    (s : Bytes) {step name rest : Bytes}
    → match_ref s ≡ some (step, name, rest)
    → s ≡ token step name ++ rest
unfolding match_ref
match_ref_sound (c ∷ d ∷ s) {step} {name} {rest} h =
    elim (Bool-cases ((c == b'$') && (d == b'{'))) [
      | inr other ↦ absurd (ground arith)
      | inl opens ↦
          let groups : field_then (word_then b'.' s) ≡ some (step, name, rest) = rw opens at h in
          let (t, first, second) = field_then_sound (word_then b'.' s) groups in
          ap₂ (λ x y. x ∷ y ∷ s) (let e : c ≡ b'$' = ground arith in e)
            (let e : d ≡ b'{' = ground arith in e)
          ∙ ap (λ u. b'$' ∷ b'{' ∷ u)
              (word_then_sound b'.' s first
                ∙ ap (λ u. step ++ (b'.' ∷ u)) (word_then_sound b'}' t second)
                ∙ sym (token-append step name rest))
    ]
match_ref_sound (c ∷ []) h = absurd cc
match_ref_sound [] h = absurd cc

-- A prefix that is passed over, and the text behind it: nothing captured changes nothing.
interpolate_from-nothing : (skip : ℕ) (s : Bytes) → interpolate_from [] skip s ≡ drop skip s
unfolding interpolate_from replacement lookup
interpolate_from-nothing zero [] = refl
interpolate_from-nothing (suc skip) [] = refl
interpolate_from-nothing (suc skip) (c ∷ s) = interpolate_from-nothing skip s
interpolate_from-nothing zero (c ∷ s) = elim (Option-cases (match_ref (c ∷ s))) [
  | inl none_here ↦ rw (none_here, interpolate_from) (ap (◌∷◌ c) (interpolate_from-nothing 0 s))
  | inr ((step, name, rest), found) ↦
      rw (found, interpolate_from)
        (let inner = step ++ (b'.' ∷ (name ++ (b'}' ∷ []))) in
          let whole = match_ref_sound (c ∷ s) found in
          let behind : s ≡ (b'{' ∷ inner) ++ rest = ap (drop 1) whole in
          let passed : length (token step name) - 1 ≡ length (b'{' ∷ inner) = omega arith in
          let left : interpolate_from [] (length (token step name) - 1) s ≡ rest =
            interpolate_from-nothing (length (token step name) - 1) s
            ∙ ap₂ drop passed behind
            ∙ drop-append (b'{' ∷ inner) rest in
          ap (λ t. token step name ++ t) left ∙ sym whole)
]

-- Before any step was captured every text stays as it is, references and all.
pub interpolate_uncaptured : (s : Bytes) → interpolate_string s [] ≡ s
unfolding interpolate_string
interpolate_uncaptured s = interpolate_from-nothing 0 s
