-- ===== src/MockEppServer/Found.antt =====
-- The names that the scan of cmd/mock-epp-server/main.go finds are new ones, and not empty.
use epp_test.Base.{
  ℕ, zero, suc, ◌≡◌, sym, subst, false, List, [], ◌∷◌, ◌++◌, append_assoc, append-nil, Option, none,
  some, Option-cases, Bool-cases, inl, inr, All,
}
use epp_test.Base.Text.{Bytes, text_eq, trim_space}
use epp_test.MockEppServer.Text.{
  split_at, after_last_gt, is_seen, add_name, add_segment, names_loop,
}
use epp_test.MockEppServer.Skipped.{end_tag}

-- Each name of the list is new to the list and to those before it.
unfoldable pub Fresh : List Bytes → List Bytes → Type 0
Fresh before [] = Unit
Fresh before (n ∷ ns) = (is_seen n before ≡ false) × Fresh (before ++ n ∷ []) ns

Fresh-append :
    (before ns : List Bytes) (n : Bytes)
    → Fresh before ns
    → is_seen n (before ++ ns) ≡ false
    → Fresh before (ns ++ n ∷ [])
unfolding Fresh
Fresh-append before [] n h new = (subst (λ l. is_seen n l ≡ false) (append-nil before) new, tt)
Fresh-append before (m ∷ ns) n (h, hs) new = (
  h,
  Fresh-append (before ++ m ∷ []) ns n hs
      (subst (λ l. is_seen n l ≡ false) (sym (append_assoc before (m ∷ []) ns)) new),
)

-- The names that the scan has found so far.
unfoldable pub Found : List Bytes → Type 0
Found names = Fresh [] names × All (λ n. text_eq n [] ≡ false) names

All-append :
    (P : Bytes → Type 0) (ns : List Bytes) (n : Bytes) → All P ns → P n → All P (ns ++ n ∷ [])
All-append P [] n h p = (p, tt)
All-append P (m ∷ ns) n (h, hs) p = (h, All-append P ns n hs p)

add_name-Found : (n : Bytes) (names : List Bytes) → Found names → Found (add_name n names)
unfolding Found add_name
add_name-Found n names (fresh, some_text) = elim (Bool-cases (text_eq n [])) [
  | inl e ↦ rw (e, add_name) (fresh, some_text)
  | inr e ↦ elim (Bool-cases (is_seen n names)) [
    | inl old ↦ rw (e, old, add_name) (fresh, some_text)
    | inr new ↦
        rw (e, new, add_name) (Fresh-append [] names n fresh new, All-append _ names n some_text e)
  ]
]

add_segment-Found :
    (s : Option Bytes) (names : List Bytes) → Found names → Found (add_segment s names)
unfolding add_segment
add_segment-Found none names h = h
add_segment-Found (some s) names h = add_name-Found (trim_space s) names h

pub names_loop-Found :
    (fuel : ℕ) (rest : Bytes) (names : List Bytes)
    → Found names
    → Found (names_loop fuel rest names)
unfolding names_loop
names_loop-Found zero rest names h = h
names_loop-Found (suc fuel) rest names h = elim (Option-cases (split_at end_tag rest)) [
  | inl e ↦ rw (e, names_loop) h
  | inr ((segment, rest'), e) ↦
      rw (e, names_loop)
        (names_loop-Found fuel rest' _ (add_segment-Found (after_last_gt segment) names h))
]
