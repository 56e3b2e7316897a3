-- ===== src/Registrar/Validate/Accepts.antt =====
-- What the validators accept, against descriptions that do not run their loops.
use mathlib.Core.Option
use epp_test.Base.{
  ℕ, ◌≤◌, ◌≡◌, ◌≢◌, ◌↔◌, ◌⊎◌, inl, inr, refl, sym, ap, subst, ◌∙◌, Bool, true, false, ◌||◌, List,
  [], ◌∷◌, ◌++◌, Option, none, some, arith, ◌==◌, length, All, Bool-cases,
}
use epp_test.Base.Text.{Bytes, codes, text_eq, text_eq_iff, has_prefix, to_lower, split}
use epp_test.Base.Text.Laws.{
  Lacks, join, join-split, split-Lacks, split-join, has_prefix_iff, split-IsCons,
}
use epp_test.Registrar.Validate.{
  LabelError, Violation, is_ldh, first_bad, last_of, check_label, validate_label, validate_labels,
  validate_domain_name, validate_contact_handle, is_printable, validate_auth_info,
}

-- An ASCII letter, a digit or a hyphen.
abbrev pub IsLdh : ℕ → Type 0
IsLdh c =
    ((b'a' ≤ c) × (c ≤ b'z')) ⊎ ((b'A' ≤ c) × (c ≤ b'Z')) ⊎ ((b'0' ≤ c) × (c ≤ b'9')) ⊎ (c ≡ b'-')

is_ldh_iff : (c : ℕ) → (is_ldh c ≡ true) ↔ IsLdh c
unfolding is_ldh
is_ldh_iff c = (λ h. ground arith, λ h. ground arith)

first_bad_iff {κ} :
    (good : ℕ → Bool) (P : ℕ → Type κ)
    → ((c : ℕ) → (good c ≡ true) ↔ P c)
    → (s : Bytes) → (first_bad good s ≡ none) ↔ All P s
unfolding first_bad
first_bad_iff good P decides [] = (λ h. tt, λ h. refl)
first_bad_iff good P decides (c ∷ s) =
    let rest = first_bad_iff good P decides s in
    elim (Bool-cases (good c)) [
      | inl fine ↦ (λ h. ((decides c).0 fine, rest.0 (rw fine at h)), λ h. rw fine (rest.1 h.1))
      | inr bad ↦
          (λ h. absurd (ground arith), λ h. absurd (let e = (decides c).1 h.0 in ground arith))
    ]

-- Upper or lower case `xn--` in front.
abbrev pub IsAce : Bytes → Type 0
IsAce label = (t : Bytes) × (to_lower label ≡ codes "xn--" ++ t)

-- A label of 1 to 63 bytes that is ACE, or LDH with no hyphen at either end.
abbrev pub IsLabel : Bytes → Type 0
IsLabel [] = ⊥
IsLabel (c ∷ cs) =
    (length (c ∷ cs) ≤ 63)
    × (IsAce (c ∷ cs) ⊎ (All IsLdh (c ∷ cs) × (c ≢ b'-') × (last_of c cs ≢ b'-')))

map-eq-none {ℓ} : {A B : Type ℓ} (f : A → B) (o : Option A) → (Option.map f o ≡ none) ↔ (o ≡ none)
map-eq-none f none = (λ h. refl, λ h. refl)
map-eq-none f (some a) = (λ h. cc, λ h. cc)

check_label_iff :
    (c : ℕ) (cs : Bytes)
    → (check_label c cs ≡ none)
      ↔ (IsAce (c ∷ cs) ⊎ (All IsLdh (c ∷ cs) × (c ≢ b'-') × (last_of c cs ≢ b'-')))
unfolding check_label
check_label_iff c cs =
    let ace = has_prefix_iff (to_lower (c ∷ cs)) (codes "xn--") in
    let plain = map-eq-none LabelError.bad_character (first_bad is_ldh (c ∷ cs)) in
    let ldh = first_bad_iff is_ldh IsLdh is_ldh_iff (c ∷ cs) in
    elim (Bool-cases (has_prefix (to_lower (c ∷ cs)) (codes "xn--"))) [
      | inl marked ↦ (λ h. inl (ace.0 marked), λ h. rw marked)
      | inr unmarked ↦ elim (Bool-cases ((c == b'-') || (last_of c cs == b'-'))) [
        | inl hyphen ↦
            rw (unmarked, hyphen)
              (
                λ h. cc,
                λ h. elim h [
                  | inl marked ↦ absurd (let e = ace.1 marked in ground arith)
                  | inr (all, first, last) ↦ absurd (ground arith)
                ],
              )
        | inr inner ↦
            rw (unmarked, inner)
              (
                λ h. inr (ldh.0 (plain.0 h), ground arith, ground arith),
                λ h. elim h [
                  | inl marked ↦ absurd (let e = ace.1 marked in ground arith)
                  | inr (all, first, last) ↦ plain.1 (ldh.1 all)
                ],
              )
      ]
    ]

pub validate_label_iff : (l : Bytes) → (validate_label l ≡ none) ↔ IsLabel l
unfolding validate_label
validate_label_iff [] = (λ h. cc, λ h. absurd h)
validate_label_iff (c ∷ cs) = (
  λ h. (ground arith, (check_label_iff c cs).0 (ground arith)),
  λ (fits, h). let e = (check_label_iff c cs).1 h in ground arith,
)

validate_labels_iff : (ls : List Bytes) → (validate_labels ls ≡ none) ↔ All IsLabel ls
unfolding validate_labels
validate_labels_iff [] = (λ h. tt, λ h. refl)
validate_labels_iff (l ∷ ls) =
    let (label, label') = validate_label_iff l in
    let (rest, rest') = validate_labels_iff ls in
    (
      λ h. (label (ground arith), rest (ground arith)),
      λ (p, ps). rw (label' p, validate_labels) (rest' ps),
    )

-- A name is one label, or several with dots between them.
abbrev pub IsDomainName : Bytes → Type 0
IsDomainName name =
    (length name ≤ 255)
    × (l : Bytes) × (ls : List Bytes) × (name ≡ join b'.' (l ∷ ls))
    × All (Lacks b'.') (l ∷ ls)
    × All IsLabel (l ∷ ls)

validate_domain_name_sound :
    (name : Bytes) → validate_domain_name name ≡ none → (name ≡ []) ⊎ IsDomainName name
unfolding validate_domain_name
validate_domain_name_sound name h = elim (Bool-cases (text_eq name [])) [
  | inl empty ↦ inl ((text_eq_iff name []).0 empty)
  | inr filled ↦
      let (l, ls, parts) = split-IsCons b'.' name in
      let joined = ap (join b'.') (sym parts) ∙ join-split b'.' name in
      inr (
        ground arith,
        l,
        ls,
        sym joined,
        subst (All (Lacks b'.')) parts (split-Lacks b'.' name),
        (validate_labels_iff (l ∷ ls)).0 (ap validate_labels (sym parts) ∙ ground arith),
      )
]

validate_domain_name_complete :
    (name : Bytes) → (name ≡ []) ⊎ IsDomainName name → validate_domain_name name ≡ none
unfolding validate_domain_name
validate_domain_name_complete name (inl empty) = let e = (text_eq_iff name []).1 empty in rw e
validate_domain_name_complete name (inr (fits, l, ls, joined, dotless, labels)) =
    let parts = ap (split b'.') joined ∙ split-join b'.' l ls dotless in
    let good = ap validate_labels parts ∙ (validate_labels_iff (l ∷ ls)).1 labels in ground arith

-- `ValidateDomainName` (and `ValidateHostName`) accepts exactly the empty text and the texts of at
-- most 255 bytes that are labels joined by dots, where a label has 1 to 63 bytes and either
-- begins with `xn--` in any case, or consists of ASCII letters, digits and hyphens with no hyphen
-- at its ends.
pub validate_domain_name_iff :
    (name : Bytes) → (validate_domain_name name ≡ none) ↔ ((name ≡ []) ⊎ IsDomainName name)
validate_domain_name_iff name =
    (validate_domain_name_sound name, validate_domain_name_complete name)

-- `ValidateContactHandle` accepts exactly the texts of at most 64 bytes that consist of ASCII
-- letters, digits and hyphens, the empty one included.
pub validate_contact_handle_iff :
    (id : Bytes) → (validate_contact_handle id ≡ none) ↔ ((length id ≤ 64) × All IsLdh id)
unfolding validate_contact_handle
validate_contact_handle_iff [] = (λ h. (omega arith, tt), λ h. unfold text_eq in refl)
validate_contact_handle_iff (c ∷ cs) =
    let chars = map-eq-none Violation.handle_character (first_bad is_ldh (c ∷ cs)) in
    let ldh = first_bad_iff is_ldh IsLdh is_ldh_iff (c ∷ cs) in
    let filled : text_eq (c ∷ cs) [] ≡ false = unfold text_eq in refl in
    (
      λ h. (ground arith, ldh.0 (chars.0 (ground arith))),
      λ (fits, all). let e = chars.1 (ldh.1 all) in ground arith,
    )

-- `ValidateAuthInfo` accepts exactly the empty text and the texts of 6 to 64 bytes that are
-- printable ASCII, 0x20 to 0x7E.
pub validate_auth_info_iff :
    (auth : Bytes)
    → (validate_auth_info auth ≡ none) ↔ (
        (auth ≡ [])
        ⊎ ((6 ≤ length auth) × (length auth ≤ 64) × All (λ c. (0x20 ≤ c) × (c ≤ 0x7E)) auth))
unfolding validate_auth_info
validate_auth_info_iff [] = (λ h. inl refl, λ h. unfold text_eq in refl)
validate_auth_info_iff (c ∷ cs) =
    let chars = map-eq-none Violation.auth_character (first_bad is_printable (c ∷ cs)) in
    let printable =
      first_bad_iff is_printable (λ c. (0x20 ≤ c) × (c ≤ 0x7E))
        (λ c. (λ h. ground arith, λ h. ground arith)) (c ∷ cs) in
    let filled : text_eq (c ∷ cs) [] ≡ false = unfold text_eq in refl in
    (
      λ h. inr (ground arith, ground arith, printable.0 (chars.0 (ground arith))),
      λ h. elim h [
        | inl empty ↦ absurd (cc)
        | inr (low, high, all) ↦ let e = chars.1 (printable.1 all) in ground arith
      ],
    )
