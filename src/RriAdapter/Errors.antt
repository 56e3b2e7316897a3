-- ===== src/RriAdapter/Errors.antt =====
-- How the failures of the RRI client show in a step of a scenario.
use epp_test.Base.{
  ◌≡◌, refl, sym, ap, ◌∙◌, ◌↔◌, true, false, none, arith, Bool-cases, inl, inr, List, [], ◌∷◌,
}
use epp_test.Base.Int.{ℤ}
use epp_test.Base.Text.{Bytes}
use epp_test.Base.Result.{Result, ok, Result-cases}
use epp_test.Registrar.Value.{Fields}
use epp_test.Runner.Step.{StepValue}
use epp_test.Runner.Expect.{assert_expect, assert_unexpected, is_success_code}
use epp_test.RriAdapter.{
  Client, Response, Query, Message, ask, resp_to_error, first_message, map_rri_code_to_epp,
}

map_rri_code_to_epp-fails : (c : ℤ) → is_success_code (map_rri_code_to_epp c) ≡ false
unfolding map_rri_code_to_epp
map_rri_code_to_epp-fails c = ground arith

first_message-fails :
    (ms : List Message) (command : Bytes) → is_success_code (first_message ms command).code ≡ false
first_message-fails [] command = refl
first_message-fails (m ∷ ms) command = map_rri_code_to_epp-fails m.id

ok_inj : {E A : Type 0} {a b : A} → ◌≡◌ {A = Result E A} (ok a) (ok b) → a ≡ b
ok_inj e = cc

module _ (C : Client) (capture : StepValue → Fields) where
  open C use {Conn, send_query}

  pub response_passes_iff :
      (resp : Response) (command : Bytes) (v : StepValue)
      → (assert_expect capture none v (resp_to_error resp command) ≡ none)
        ↔ (resp.is_successful ≡ true)
  unfolding assert_expect assert_unexpected resp_to_error
  response_passes_iff resp command v =
      let fails = first_message-fails resp.error_messages command in
      (λ h. ground (arith, fails), λ h. ground arith)

  ask_got :
      {A : Type 0} (zero : A) (command : Bytes) (q : Query) (parse : Response → A) (s : Conn)
      (resp : Response)
      → (send_query q s).0 ≡ ok resp
      → (ask C zero command q parse s).0.error ≡ resp_to_error resp command
  unfolding ask resp_to_error
  ask_got zero command q parse s resp e = elim (Bool-cases resp.is_successful) [
    | inl good ↦ rw (e, ask, resp_to_error, good) refl
    | inr bad ↦ rw (e, ask, resp_to_error, bad) refl
  ]

  -- What a command gives passes a step without an expectation exactly if the client got a response
  -- and the response is a success.
  pub ask_passes_iff :
      {A : Type 0} (zero : A) (command : Bytes) (q : Query) (parse : Response → A) (s : Conn)
      (v : StepValue)
      → (assert_expect capture none v (ask C zero command q parse s).0.error ≡ none)
        ↔ ((resp : Response) × ((send_query q s).0 ≡ ok resp) × (resp.is_successful ≡ true))
  unfolding ask assert_expect assert_unexpected
  ask_passes_iff zero command q parse s v = elim (Result-cases (send_query q s).0) [
    | inl (resp, e) ↦
        let (to, from) = response_passes_iff resp command v in
        let same = ask_got zero command q parse s resp e in
        (
          λ h. (resp, e, to (sym (ap (assert_expect capture none v) same) ∙ h)),
          λ (r, f, good).
              ap (assert_expect capture none v) same
              ∙ from (ap (λ x. x.is_successful) (ok_inj (sym e ∙ f)) ∙ good),
        )
    | inr (m, e) ↦ rw (e, ask) (λ h. cc, λ (r, f, good). cc)
  ]
