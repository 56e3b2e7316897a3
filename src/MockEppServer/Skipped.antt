-- ===== src/MockEppServer/Skipped.antt =====
-- Texts in which the scan of cmd/mock-epp-server/main.go finds no end of a name.
use epp_test.Base.{
  ℕ, ◌≡◌, refl, sym, ap, ◌∙◌, false, [], ◌∷◌, ◌++◌, append_assoc, Option, none, some, Option-cases,
  inl, inr, ◌==◌,
}
use epp_test.Base.Text.{Bytes, codes}
use epp_test.MockEppServer.Text.{strip_prefix, split_at}
use epp_test.MockEppServer.Answers.{success_head}
use epp_test.MockEppServer.Echo.{IsPlain}

abbrev pub end_tag : Bytes
end_tag = codes "</domain:name>"

-- The texts in front of which the scan for the end tag goes on.
abbrev pub before_of : Bytes → Option (Bytes × Bytes) → Option (Bytes × Bytes)
before_of u none = none
before_of u (some (b, r)) = some (u ++ b, r)

abbrev pub Skipped : Bytes → Type 0
Skipped u = (t : Bytes) → split_at end_tag (u ++ t) ≡ before_of u (split_at end_tag t)

before_of-append :
    (u v : Bytes) (o : Option (Bytes × Bytes)) → before_of u (before_of v o) ≡ before_of (u ++ v) o
before_of-append u v none = refl
before_of-append u v (some (b, r)) = ap (λ x. some (x, r)) (sym (append_assoc u v b))

before_of-nil : (o : Option (Bytes × Bytes)) → o ≡ before_of [] o
before_of-nil none = refl
before_of-nil (some (b, r)) = refl

Skipped-append : (u v : Bytes) → Skipped u → Skipped v → Skipped (u ++ v)
Skipped-append u v hu hv t =
    rw (append_assoc u v t)
      (hu (v ++ t) ∙ ap (before_of u) (hv t) ∙ before_of-append u v (split_at end_tag t))

no_tag_here : (c : ℕ) (cs : Bytes) → (c == b'<') ≡ false → strip_prefix end_tag (c ∷ cs) ≡ none
unfolding strip_prefix
no_tag_here c cs h = rw h refl

pub plain-Skipped : (u : Bytes) → IsPlain u → Skipped u
unfolding split_at strip_prefix
plain-Skipped [] h t = before_of-nil (split_at end_tag t)
plain-Skipped (c ∷ cs) (h, hs) t = elim (Option-cases (split_at end_tag t)) [
  | inl e ↦ rw (no_tag_here c (cs ++ t) h, split_at, plain-Skipped cs hs t, e) refl
  | inr (p, e) ↦ rw (no_tag_here c (cs ++ t) h, split_at, plain-Skipped cs hs t, e) refl
]

pub cd_end-Skipped : Skipped (codes "</domain:cd>")
unfolding split_at strip_prefix
cd_end-Skipped t = elim (Option-cases (split_at end_tag t)) [
  | inl e ↦ rw e refl
  | inr (p, e) ↦ rw e refl
]

pub cd_start-Skipped : Skipped (codes "<domain:cd><domain:name avail=\"1\">")
unfolding split_at strip_prefix
cd_start-Skipped t = elim (Option-cases (split_at end_tag t)) [
  | inl e ↦ rw e refl
  | inr (p, e) ↦ rw e refl
]

abbrev pub check_head : Bytes
check_head =
    success_head
    ++ codes "<resData><domain:chkData xmlns:domain=\"urn:ietf:params:xml:ns:domain-1.0\">"

pub head-Skipped : Skipped check_head
unfolding split_at strip_prefix
head-Skipped t = elim (Option-cases (split_at end_tag t)) [
  | inl e ↦ rw e refl
  | inr (p, e) ↦ rw e refl
]
