-- ===== src/RriAdapter/Checks.antt =====
-- What a domain check through the RRI adapter can say.
use epp_test.Base.{
  ℕ, suc, ◌+◌, ◌≡◌, refl, sym, ap, subst, ◌∙◌, true, List, [], ◌∷◌, ◌++◌, none, some, arith,
  Bool-cases, inl, inr, All, length, length-append,
}
use epp_test.Base.Text.{Bytes}
use epp_test.Base.Result.{ok, Result-cases}
use epp_test.Registrar.{Reply, DomainResult}
use epp_test.Registrar.Validate.{normalize_to_ace}
use epp_test.RriAdapter.{Client, Response, check_domain, named_domain, resp_to_error}
use epp_test.RriAdapter.Commands.{Credentials, check_names, rri_registrar}

abbrev SaysFree : DomainResult → Type 0
SaysFree r = r.available ≡ some true

All-append :
    (rs : List DomainResult) (r : DomainResult)
    → All SaysFree rs
    → SaysFree r
    → All SaysFree (rs ++ (r ∷ []))
All-append [] r free one = (one, tt)
All-append (x ∷ rs) r (here, free) one = (here, All-append rs r free one)

-- One result for each name, where there is no error, and all of them free.
Honest : ℕ → Reply (List DomainResult) → Type 0
Honest n r = All SaysFree r.value × (r.error ≡ none → length r.value ≡ n)

module _ (C : Client) where
  check_names-step :
      (name : Bytes) (names : List Bytes) (results : List DomainResult) (s : C.Conn) (ace : Bytes)
      (resp : Response)
      → normalize_to_ace C.to_ascii name ≡ ok ace
      → (C.send_query (check_domain ace) s).0 ≡ ok resp
      → resp.is_successful ≡ true
      → check_names C (name ∷ names) results s
        ≡ check_names C names
            (results ++ (record (named_domain ace) { available = some true } ∷ []))
            (C.send_query (check_domain ace) s).1
  unfolding check_names resp_to_error
  check_names-step name names results s ace resp good got success =
      rw (good, check_names, got, resp_to_error, success)
        (ap
          (λ b.
            check_names C names (results ++ (record (named_domain ace) { available = some b } ∷ []))
              (C.send_query (check_domain ace) s).1)
          success)

  check_names-Honest :
      (names : List Bytes) (results : List DomainResult) (s : C.Conn)
      → All SaysFree results
      → Honest (length names + length results) (check_names C names results s).0
  unfolding check_names Honest resp_to_error
  check_names-Honest [] results s free = (free, λ e. omega arith)
  check_names-Honest (name ∷ names) results s free =
      elim (Result-cases (normalize_to_ace C.to_ascii name)) [
        | inr (e, bad) ↦ rw (bad, check_names) (tt, λ h. cc)
        | inl (ace, good) ↦ elim (Result-cases (C.send_query (check_domain ace) s).0) [
          | inr (m, lost) ↦ rw (good, check_names, lost) (tt, λ h. cc)
          | inl (resp, got) ↦ elim (Bool-cases resp.is_successful) [
            | inr taken ↦ rw (good, check_names, got, taken, resp_to_error) (tt, λ h. cc)
            | inl success ↦
                subst (λ r. Honest (suc (length names) + length results) r.0)
                  (sym (check_names-step name names results s ace resp good got success))
                  (let said = record (named_domain ace) { available = some true } in
                    let (free', count) =
                      check_names-Honest names (results ++ (said ∷ []))
                        (C.send_query (check_domain ace) s).1 (All-append results said free refl) in
                    (free', λ e. count e ∙ omega (arith, length-append results (said ∷ []))))
          ]
        ]
      ]

  -- A domain check never says of a domain that it is taken: each result that it gives says that the
  -- domain is free, and without an error there is one for each name that was asked for.
  pub check_domain_says_free :
      (cfg : Credentials) (names : List Bytes) (s : C.Conn)
      → All (λ r. r.available ≡ some true) ((rri_registrar C cfg).check_domain names s).0.value
        × (((rri_registrar C cfg).check_domain names s).0.error ≡ none
            → length ((rri_registrar C cfg).check_domain names s).0.value ≡ length names)
  unfolding Honest
  check_domain_says_free cfg names s =
      let (free, count) = check_names-Honest names [] s tt in (free, λ e. count e ∙ omega arith)
