-- ===== src/MockEppServer/Names.antt =====
-- The names of a check in its response (`extractDomainNames` and `domainCheckResp` of
-- cmd/mock-epp-server/main.go).
use epp_test.Base.{
  ℕ, zero, suc, ◌<◌, ◌≤◌, ◌≡◌, refl, sym, ap, ◌∙◌, false, List, [], ◌∷◌, ◌++◌, append_assoc,
  append-nil, none, some, Option-cases, inl, inr, All, arith, ◌==◌, length, length-append,
}
use epp_test.Base.Text.{Bytes, codes, text_eq, trim_space, trim_left, trim_right}
use epp_test.Base.Decimal.{decimal, decimal-IsDigit}
use epp_test.MockEppServer.Text.{
  strip_prefix, split_at, after_last_gt, is_seen, add_name, add_segment, names_loop,
  extract_domain_names,
}
use epp_test.MockEppServer.Answers.{cd_items, or_example, domain_check_resp}
use epp_test.MockEppServer.Echo.{IsPlain, digit-IsPlain}
use epp_test.MockEppServer.Skipped.{
  end_tag, before_of, Skipped, plain-Skipped, cd_end-Skipped, cd_start-Skipped, check_head,
  head-Skipped,
}
use epp_test.MockEppServer.Found.{Fresh, Found, names_loop-Found}

-- A name that a response shows as it is: no angle brackets, and no blanks around it.
pub record IsName (n : Bytes) : Type 0 where
  pub no_lt : IsPlain n
  pub no_gt : All (λ c. (c == b'>') ≡ false) n
  pub trimmed : trim_space n ≡ n

after_last_gt-none : (n : Bytes) → All (λ c. (c == b'>') ≡ false) n → after_last_gt n ≡ none
unfolding after_last_gt
after_last_gt-none [] h = refl
after_last_gt-none (c ∷ cs) (h, hs) = rw (after_last_gt-none cs hs, h) refl

after_last_gt-append : (u s r : Bytes) → after_last_gt s ≡ some r → after_last_gt (u ++ s) ≡ some r
unfolding after_last_gt
after_last_gt-append [] s r h = h
after_last_gt-append (c ∷ cs) s r h = rw (after_last_gt-append cs s r h) refl

after_last_gt-name : (n : Bytes) → IsName n → after_last_gt (b'>' ∷ n) ≡ some n
unfolding after_last_gt
after_last_gt-name n name = rw (after_last_gt-none n name.no_gt) refl

abbrev cd_start : Bytes
cd_start = codes "<domain:cd><domain:name avail=\"1\">"

tag_found : (t : Bytes) → split_at end_tag (end_tag ++ t) ≡ some ([], t)
unfolding split_at strip_prefix
tag_found t = refl

item_found :
    (v n t : Bytes)
    → Skipped v
    → IsName n
    → split_at end_tag (v ++ (cd_start ++ (n ++ (end_tag ++ t))))
      ≡ some (v ++ (cd_start ++ (n ++ [])), t)
item_found v n t hv name =
    hv (cd_start ++ (n ++ (end_tag ++ t)))
    ∙ ap (before_of v) (
        cd_start-Skipped (n ++ (end_tag ++ t))
        ∙ ap (before_of cd_start)
            (plain-Skipped n name.no_lt (end_tag ++ t) ∙ ap (before_of n) (tag_found t)))

item_added :
    (v n : Bytes) (done : List Bytes)
    → IsName n
    → text_eq n [] ≡ false
    → is_seen n done ≡ false
    → add_segment (after_last_gt (v ++ (cd_start ++ (n ++ [])))) done ≡ done ++ n ∷ []
unfolding add_segment add_name
item_added v n done name some_text new =
    let last = after_last_gt-append v _ n (
      after_last_gt-append (codes "<domain:cd><domain:name avail=\"1\"") _ n
        (after_last_gt-name n name)) in
    ap (λ m. add_segment (after_last_gt (v ++ (cd_start ++ m))) done) (append-nil n)
    ∙ ap (λ o. add_segment o done) last
    ∙ rw (name.trimmed, some_text, new) refl

names_loop-items :
    (ns : List Bytes) (fuel : ℕ) (v tail : Bytes) (done : List Bytes)
    → Skipped v
    → split_at end_tag tail ≡ none
    → All IsName ns
    → All (λ n. text_eq n [] ≡ false) ns
    → Fresh done ns
    → length ns < fuel
    → names_loop fuel (v ++ (cd_items ns ++ tail)) done ≡ done ++ ns
unfolding names_loop cd_items Fresh
names_loop-items ns zero v tail done hv end names texts new enough = elim enough [ ]
names_loop-items [] (suc fuel) v tail done hv end names texts new enough =
    rw (hv tail ∙ ap (before_of v) end, names_loop) (sym (append-nil done))
names_loop-items (n ∷ ns) (suc fuel) v tail done hv end (name, names) (text, texts) (new, news)
      enough =
    let rest = codes "</domain:cd>" ++ (cd_items ns ++ tail) in
    let shape : v ++ (cd_items (n ∷ ns) ++ tail) ≡ v ++ (cd_start ++ (n ++ (end_tag ++ rest))) =
      ap (λ x. v ++ (cd_start ++ x))
        (append_assoc n (end_tag ++ (codes "</domain:cd>" ++ cd_items ns)) tail) in
    ap (λ x. names_loop (suc fuel) x done) shape
    ∙ rw (item_found v n rest hv name, names_loop)
        (ap (names_loop fuel rest) (item_added v n done name text new)
          ∙ names_loop-items ns fuel (codes "</domain:cd>") tail (done ++ n ∷ []) cd_end-Skipped end
              names texts news (omega arith)
          ∙ append_assoc done (n ∷ []) ns)

length-cd_items : (ns : List Bytes) → length ns ≤ length (cd_items ns)
unfolding cd_items
length-cd_items [] = omega arith
length-cd_items (n ∷ ns) =
    omega (
      arith,
      length-append n (end_tag ++ (codes "</domain:cd>" ++ cd_items ns)),
      length-cd_items ns,
    )

abbrev tail_head : Bytes
tail_head = codes "</domain:chkData></resData><trID><svTRID>mock-"

abbrev check_tail : ℕ → Bytes
check_tail n = tail_head ++ (decimal n ++ codes "</svTRID></trID></response></epp>")

tail_head-Skipped : Skipped tail_head
unfolding split_at strip_prefix
tail_head-Skipped t = elim (Option-cases (split_at end_tag t)) [
  | inl e ↦ rw e refl
  | inr (p, e) ↦ rw e refl
]

tail_end : split_at end_tag (codes "</svTRID></trID></response></epp>") ≡ none
unfolding split_at strip_prefix
tail_end = refl

no_tag_behind : (n : ℕ) → split_at end_tag (check_tail n) ≡ none
no_tag_behind n =
    tail_head-Skipped (decimal n ++ codes "</svTRID></trID></response></epp>")
    ∙ ap (before_of tail_head) (
        plain-Skipped (decimal n) (digit-IsPlain (decimal n) (decimal-IsDigit n)) _
        ∙ ap (before_of (decimal n)) tail_end)

listed :
    (ns : List Bytes) (n : ℕ)
    → All IsName ns
    → Found ns
    → extract_domain_names (check_head ++ (cd_items ns ++ check_tail n)) ≡ ns
unfolding extract_domain_names Found
listed ns n names (fresh, texts) =
    names_loop-items ns (suc (length (check_head ++ (cd_items ns ++ check_tail n)))) check_head
      (check_tail n) [] head-Skipped (no_tag_behind n) names texts fresh
      (omega (
        arith,
        length-cd_items ns,
        length-append check_head (cd_items ns ++ check_tail n),
        length-append (cd_items ns) (check_tail n),
      ))

or_example-Found : (ns : List Bytes) → Found ns → Found (or_example ns)
unfolding Found or_example Fresh is_seen text_eq
or_example-Found [] h = ((refl, tt), (refl, tt))
or_example-Found (n ∷ ns) h = h

or_example-IsName : (ns : List Bytes) → All IsName ns → All IsName (or_example ns)
unfolding or_example trim_space trim_left trim_right
or_example-IsName [] h = (
  record {
    no_lt =
        (refl, (refl, (refl, (refl, (refl, (refl, (refl, (refl, (refl, (refl, (refl, tt)))))))))));
    no_gt =
        (refl, (refl, (refl, (refl, (refl, (refl, (refl, (refl, (refl, (refl, (refl, tt)))))))))));
    trimmed = refl;
  },
  tt,
)
or_example-IsName (n ∷ ns) h = h

-- The response to a check lists the names that were found in the command, in their order and each
-- once: the same scan finds them in the response, or `example.com` where the command has none, if
-- the names have no angle brackets and no blanks around them.
pub extract_domain_names-domain_check_resp :
    (xml : Bytes) (n : ℕ)
    → All IsName (extract_domain_names xml)
    → extract_domain_names (domain_check_resp xml n) ≡ or_example (extract_domain_names xml)
unfolding domain_check_resp Fresh
extract_domain_names-domain_check_resp xml n names =
    listed (or_example (extract_domain_names xml)) n (or_example-IsName _ names) (
      or_example-Found _ (
        unfold extract_domain_names in
        names_loop-Found (suc (length xml)) xml [] (unfold Found in (tt, tt))))
