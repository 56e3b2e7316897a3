-- ===== src/MockEppServer/Echo.antt =====
-- The transaction ID of a command in its response (`echoCltrid` and `buildResp` of
-- cmd/mock-epp-server/main.go).
use epp_test.Base.{
  ℕ, ◌≡◌, refl, ap, subst, ◌∙◌, Bool, true, false, not, ◌&&◌, List, [], ◌∷◌, ◌++◌, append_assoc,
  Option, none, some, Option-cases, Bool-cases, inl, inr, All, arith, ◌==◌,
}
use epp_test.Base.Text.{Bytes, codes}
use epp_test.Base.Decimal.{decimal, decimal-IsDigit, IsDigit}
use epp_test.MockEppServer.Text.{
  is_name_start, is_name_char, strip_prefix, skip_name, skip_namespace, at_element, find_element,
  up_to_end_tag, cl_trid_text, echo_cl_trid, extract_domain_names,
}
use epp_test.MockEppServer.Answers.{
  xml_head, cl_trid_element, response_end, build_resp, resp_2000, domain_check_resp, or_example,
  cd_items,
}

-- A text that opens no element.
abbrev pub IsPlain : Bytes → Type 0
IsPlain = All (λ c. (c == b'<') ≡ false)

-- The same as a test.
unfoldable pub is_plain : Bytes → Bool
is_plain [] = true
is_plain (c ∷ cs) = not (c == b'<') && is_plain cs

pub IsPlain-checked : (bs : Bytes) → is_plain bs ≡ true → IsPlain bs
unfolding is_plain
IsPlain-checked [] h = tt
IsPlain-checked (c ∷ cs) h = elim (Bool-cases (c == b'<')) [
  | inl lt ↦ absurd (let clash = rw lt at h in cc)
  | inr other ↦ (other, IsPlain-checked cs (rw other at h))
]

pub digit-IsPlain : (bs : Bytes) → All IsDigit bs → IsPlain bs
digit-IsPlain [] h = tt
digit-IsPlain (c ∷ cs) (h, hs) = (ground arith, digit-IsPlain cs hs)

find_element-plain :
    {A : Type 0} (found : Bytes → Option A) (u t : Bytes)
    → IsPlain u
    → find_element found (u ++ t) ≡ find_element found t
unfolding find_element
find_element-plain found [] t h = refl
find_element-plain found (c ∷ cs) t (h, hs) = rw h (find_element-plain found cs t hs)

up_to_end_tag-plain : (u t : Bytes) → IsPlain u → up_to_end_tag (u ++ b'<' ∷ b'/' ∷ t) ≡ some u
unfolding up_to_end_tag strip_prefix
up_to_end_tag-plain [] t h = refl
up_to_end_tag-plain (c ∷ cs) t (h, hs) = rw (h, up_to_end_tag-plain cs t hs) refl

head_found : (t : Bytes) → find_element cl_trid_text (xml_head ++ t) ≡ find_element cl_trid_text t
unfolding find_element at_element skip_namespace skip_name is_name_char is_name_start strip_prefix
    cl_trid_text
head_found t = refl

end_found : (n : ℕ) → find_element cl_trid_text (response_end [] n) ≡ none
unfolding find_element at_element skip_namespace skip_name is_name_char is_name_start strip_prefix
    cl_trid_text response_end cl_trid_element
end_found n =
    find_element-plain cl_trid_text (decimal n) (codes "</svTRID></trID></response></epp>")
      (digit-IsPlain (decimal n) (decimal-IsDigit n))

element_found :
    {A : Type 0} (found : Bytes → Option A) (cs : Bytes) (a : A)
    → found cs ≡ some a
    → find_element found (b'<' ∷ cs) ≡ some a
unfolding find_element at_element
element_found found cs a h = rw (h, at_element) refl

abbrev id_rest : ℕ → Bytes
id_rest n = codes "<svTRID>mock-" ++ (decimal n ++ codes "</svTRID></trID></response></epp>")

id_found :
    (c : ℕ) (cs : Bytes) (n : ℕ)
    → IsPlain (c ∷ cs)
    → find_element cl_trid_text (response_end (c ∷ cs) n) ≡ some (c ∷ cs)
unfolding find_element at_element skip_namespace skip_name is_name_char is_name_start strip_prefix
    cl_trid_text response_end cl_trid_element
id_found c cs n plain =
    element_found cl_trid_text (codes "clTRID>" ++ (((c ∷ cs) ++ codes "</clTRID>") ++ id_rest n))
      (c ∷ cs)
      (ap up_to_end_tag (append_assoc (c ∷ cs) (codes "</clTRID>") (id_rest n))
        ∙ up_to_end_tag-plain (c ∷ cs) (codes "clTRID>" ++ id_rest n) plain)

resp_found :
    (code : ℕ) (message cl_trid : Bytes) (n : ℕ)
    → IsPlain message
    → find_element cl_trid_text (build_resp code message cl_trid n)
      ≡ find_element cl_trid_text (response_end cl_trid n)
unfolding find_element at_element skip_namespace skip_name is_name_char is_name_start strip_prefix
    cl_trid_text build_resp
resp_found code message cl_trid n plain =
    find_element-plain cl_trid_text (decimal code) _
      (digit-IsPlain (decimal code) (decimal-IsDigit code))
    ∙ find_element-plain cl_trid_text message _ plain

at_element-sound :
    {A : Type 0} (P : A → Type 0) (found : Bytes → Option A)
    → ((cs : Bytes) (a : A) → found cs ≡ some a → P a)
    → (cs : Bytes) (a : A) → at_element found cs ≡ some a
    → P a
unfolding at_element
at_element-sound P found sound cs a h = elim (Option-cases (found cs)) [
  | inr (b, e) ↦ sound cs a (e ∙ (rw (e, at_element) at h))
  | inl e ↦ elim (Option-cases (skip_namespace cs)) [
    | inl f ↦ absurd (let g = rw (e, f, at_element) at h in cc)
    | inr (local, f) ↦ sound local a (rw (e, f, at_element) at h)
  ]
]

-- What an element search finds is found somewhere.
find_element-sound :
    {A : Type 0} (P : A → Type 0) (found : Bytes → Option A)
    → ((cs : Bytes) (a : A) → found cs ≡ some a → P a)
    → (xml : Bytes) (a : A) → find_element found xml ≡ some a
    → P a
unfolding find_element at_element
find_element-sound P found sound [] a h = absurd cc
find_element-sound P found sound (c ∷ cs) a h =
    let later = find_element-sound P found sound cs a in
    elim (Bool-cases (c == b'<')) [
      | inr other ↦ later (rw other at h)
      | inl lt ↦ elim (Option-cases (at_element found cs)) [
        | inl none_here ↦ later (rw (lt, none_here) at h)
        | inr (b, here) ↦
            let same : b ≡ a = let g = rw (lt, here) at h in cc in
            subst P same (at_element-sound P found sound cs b here)
      ]
    ]

up_to_end_tag-IsPlain : (s id : Bytes) → up_to_end_tag s ≡ some id → IsPlain id
unfolding up_to_end_tag
up_to_end_tag-IsPlain [] id h = absurd cc
up_to_end_tag-IsPlain (c ∷ cs) id h = elim (Bool-cases (c == b'<')) [
  | inl lt ↦ elim (Option-cases (strip_prefix (codes "/") cs)) [
    | inl e ↦ absurd (let g = rw (lt, e) at h in cc)
    | inr (x, e) ↦ let same : [] ≡ id = let g = rw (lt, e) at h in cc in subst IsPlain same tt
  ]
  | inr other ↦ elim (Option-cases (up_to_end_tag cs)) [
    | inl e ↦ absurd (let g = rw (other, e) at h in cc)
    | inr (text, e) ↦
        let same : c ∷ text ≡ id = let g = rw (other, e) at h in cc in
        subst IsPlain same (other, up_to_end_tag-IsPlain cs text e)
  ]
]

cl_trid_text-IsPlain : (cs id : Bytes) → cl_trid_text cs ≡ some id → IsPlain id
unfolding cl_trid_text
cl_trid_text-IsPlain cs id h = elim (Option-cases (strip_prefix (codes "clTRID>") cs)) [
  | inl e ↦ absurd (let g = rw (e, cl_trid_text) at h in cc)
  | inr (rest, e) ↦ up_to_end_tag-IsPlain rest id (rw (e, cl_trid_text) at h)
]

-- A response whose message opens no element holds a transaction ID without `<`.
echo_built :
    (code : ℕ) (message id : Bytes) (n : ℕ)
    → IsPlain message
    → IsPlain id
    → echo_cl_trid (build_resp code message id n) ≡ id
unfolding echo_cl_trid
echo_built code message [] n plain h =
    rw (resp_found code message [] n plain ∙ end_found n, echo_cl_trid) refl
echo_built code message (c ∷ cs) n plain h =
    rw (resp_found code message (c ∷ cs) n plain ∙ id_found c cs n h, echo_cl_trid) refl

echo_cl_trid-IsPlain : (xml : Bytes) → IsPlain (echo_cl_trid xml)
unfolding echo_cl_trid
echo_cl_trid-IsPlain xml = elim (Option-cases (find_element cl_trid_text xml)) [
  | inl e ↦ rw (e, echo_cl_trid) tt
  | inr (id, e) ↦
      rw (e, echo_cl_trid) (find_element-sound IsPlain cl_trid_text cl_trid_text-IsPlain xml id e)
]

-- A text behind which the search for an ID goes on as if it was not there.
abbrev pub HoldsNoId : Bytes → Type 0
HoldsNoId u = (t : Bytes) → find_element cl_trid_text (u ++ t) ≡ find_element cl_trid_text t

echo_found :
    (u id t : Bytes)
    → HoldsNoId u
    → IsPlain id
    → echo_cl_trid (u ++ (codes "<clTRID>" ++ (id ++ (codes "</clTRID>" ++ t)))) ≡ id
unfolding echo_cl_trid strip_prefix cl_trid_text
echo_found u id t none_before plain =
    rw
      (
        none_before (codes "<clTRID>" ++ (id ++ (codes "</clTRID>" ++ t)))
            ∙ element_found cl_trid_text (codes "clTRID>" ++ (id ++ (codes "</clTRID>" ++ t))) id
                (up_to_end_tag-plain id (codes "clTRID>" ++ t) plain),
        echo_cl_trid,
      )
      refl

HoldsNoId-append : (u v : Bytes) → HoldsNoId u → HoldsNoId v → HoldsNoId (u ++ v)
HoldsNoId-append u v hu hv t =
    ap (find_element cl_trid_text) (append_assoc u v t) ∙ hu (v ++ t) ∙ hv t

cd_items-HoldsNoId : (names : List Bytes) → All IsPlain names → HoldsNoId (cd_items names)
unfolding cd_items find_element at_element skip_namespace skip_name is_name_char is_name_start
    strip_prefix cl_trid_text
cd_items-HoldsNoId [] h = λ t. refl
cd_items-HoldsNoId (name ∷ names) (h, hs) =
    HoldsNoId-append (codes "<domain:cd><domain:name avail=\"1\">")
      (name ++ (codes "</domain:name></domain:cd>" ++ cd_items names)) (λ t. refl)
      (HoldsNoId-append name (codes "</domain:name></domain:cd>" ++ cd_items names)
        (λ t. find_element-plain cl_trid_text name t h)
        (HoldsNoId-append (codes "</domain:name></domain:cd>") (cd_items names) (λ t. refl)
          (cd_items-HoldsNoId names hs)))

echo_check :
    (check : Bytes) (n : ℕ)
    → All IsPlain (or_example (extract_domain_names check))
    → echo_cl_trid (domain_check_resp check n) ≡ []
unfolding domain_check_resp echo_cl_trid find_element at_element skip_namespace skip_name
    is_name_char is_name_start strip_prefix cl_trid_text
echo_check check n plain =
    let names = or_example (extract_domain_names check) in
    rw
      (
        cd_items-HoldsNoId names plain (
              codes "</domain:chkData></resData><trID><svTRID>mock-"
              ++ (decimal n ++ codes "</svTRID></trID></response></epp>"))
            ∙ find_element-plain cl_trid_text (decimal n)
                (codes "</svTRID></trID></response></epp>")
                (digit-IsPlain (decimal n) (decimal-IsDigit n)),
        echo_cl_trid,
      )
      refl

-- Let a command hold an ID without `<` in a `clTRID` element, behind a text in which the search for
-- an ID finds and begins nothing. Then the server reads this ID from it, and every response that
-- `buildResp` makes with it, with any code and number and a message without `<`, holds the same
-- ID, the empty one included. The response to an unknown command and, where no name of the check
-- has a `<`, the one to a check of domains hold no ID at all, whatever the command had.
pub echo_cl_trid-responses :
    (u id t message check : Bytes) (code n : ℕ)
    → HoldsNoId u
    → IsPlain id
    → IsPlain message
    → All IsPlain (or_example (extract_domain_names check))
    → (echo_cl_trid (u ++ (codes "<clTRID>" ++ (id ++ (codes "</clTRID>" ++ t)))) ≡ id)
      × (echo_cl_trid (build_resp code message id n) ≡ id)
      × (echo_cl_trid (resp_2000 n) ≡ [])
      × (echo_cl_trid (domain_check_resp check n) ≡ [])
unfolding resp_2000 is_plain
echo_cl_trid-responses u id t message check code n before plain quiet names = (
  echo_found u id t before plain,
  echo_built code message id n quiet plain,
  echo_built 2000 (codes "Unknown command") [] n (IsPlain-checked (codes "Unknown command") refl)
      tt,
  echo_check check n names,
)
