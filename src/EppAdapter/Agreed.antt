-- ===== src/EppAdapter/Agreed.antt =====
-- The extensions that a session agrees on (`readGreeting` of pkg/registrar/epp/connect.go).
use epp_test.Base.{◌≡◌, refl, true, List, [], ◌∷◌, All, Bool-cases, inl, inr}
use epp_test.Base.Text.{Bytes, text_eq, text_eq_refl}
use epp_test.EppAdapter.{Setup, is_member, intersection}

-- Each of the extensions is configured.
abbrev pub Configured : Setup → List Bytes → Type 0
Configured setup = All (λ uri. is_member uri setup.extensions ≡ true)

member_cons : (x y : Bytes) (ys : List Bytes) → is_member x ys ≡ true → is_member x (y ∷ ys) ≡ true
unfolding is_member
member_cons x y ys h = elim (Bool-cases (text_eq y x)) [ inl e ↦ rw e refl | inr e ↦ rw e h ]

member_head : (x : Bytes) (ys : List Bytes) → is_member x (x ∷ ys) ≡ true
unfolding is_member
member_head x ys = rw (text_eq_refl x) refl

widen :
    (y : Bytes) (ys us : List Bytes)
    → All (λ u. is_member u ys ≡ true) us
    → All (λ u. is_member u (y ∷ ys) ≡ true) us
widen y ys [] h = tt
widen y ys (u ∷ us) (h, hs) = (member_cons u y ys h, widen y ys us hs)

-- The intersection takes its members from the configuration.
pub intersection-configured :
    (cfg advertised : List Bytes) → All (λ u. is_member u cfg ≡ true) (intersection cfg advertised)
unfolding intersection
intersection-configured [] advertised = tt
intersection-configured (u ∷ us) advertised =
    let rest = widen u us (intersection us advertised) (intersection-configured us advertised) in
    elim (Bool-cases (is_member u advertised)) [
      | inl e ↦ rw e (member_head u us, rest)
      | inr e ↦ rw e rest
    ]

-- And each is one of those that the server advertises.
pub intersection-advertised :
    (cfg advertised : List Bytes)
    → All (λ u. is_member u advertised ≡ true) (intersection cfg advertised)
unfolding intersection
intersection-advertised [] advertised = tt
intersection-advertised (u ∷ us) advertised = elim (Bool-cases (is_member u advertised)) [
  | inl e ↦ rw e (e, intersection-advertised us advertised)
  | inr e ↦ rw e (intersection-advertised us advertised)
]
