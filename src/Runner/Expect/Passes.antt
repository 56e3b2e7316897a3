-- ===== src/Runner/Expect/Passes.antt =====
-- When a step passes, said without the order of the tests.
use epp_test.Base.{
  ◌≡◌, ◌↔◌, ◌⊎◌, inl, inr, refl, subst, false, ◌&&◌, not, Option, none, some, arith, if◌then◌else◌,
  Bool-cases, Option-cases,
}
use epp_test.Base.Int.{ℤ, pos, eqb_ℤ, eqb_ℤ_iff}
use epp_test.Base.Text.{Bytes, text_eq_iff}
use epp_test.Registrar.{RegError, epp, plain}
use epp_test.Registrar.Value.{Value, Fields, end, field, render}
use epp_test.Runner.Step.{StepValue, single_result}
use epp_test.Runner.Expect.{
  Expect, find_field, check_field, check_fields, is_success_code, late_error, assert_code,
  assert_expect,
}

-- The expected value of one field has the text of the captured one.
abbrev pub Matches : Fields → Bytes → Value → Type 0
Matches captured key want =
    (actual : Value) × (find_field captured key ≡ some actual) × (render want ≡ render actual)

abbrev pub AllMatch : Fields → Fields → Type 0
AllMatch captured end = Unit
AllMatch captured (field key want rest) = Matches captured key want × AllMatch captured rest

check_field_iff :
    (captured : Fields) (key : Bytes) (want : Value)
    → (check_field captured key want ≡ none) ↔ Matches captured key want
unfolding check_field
check_field_iff captured key want = elim (Option-cases (find_field captured key)) [
  | inl missing ↦ rw missing (λ h. cc, λ (v, e, t). cc)
  | inr (v, found) ↦ rw found (
    λ h. (v, refl, ground (arith, text_eq_iff (render want) (render v))),
    λ (w, e, t). ground (arith, text_eq_iff (render want) (render v)),
  )
]

check_fields_iff :
    (captured wanted : Fields) → (check_fields captured wanted ≡ none) ↔ AllMatch captured wanted
unfolding check_fields
check_fields_iff captured end = (λ h. tt, λ h. refl)
check_fields_iff captured (field key want rest) =
    let (one, one') = check_field_iff captured key want in
    let (more, more') = check_fields_iff captured rest in
    (
      λ h. (one (ground arith), more (ground arith)),
      λ (p, ps). rw (one' p, check_fields) (more' ps),
    )

-- The result code that a step answers with: 1000 with no error, or its EPP error's code.
abbrev pub Answers : Option RegError → ℤ → Type 0
Answers none c = c ≡ pos 1000
Answers (some (epp e)) c = c ≡ e.code
Answers (some (plain m)) c = ⊥

code_accepted :
    (want c : ℤ)
    → (not (eqb_ℤ want (pos 0)) && not (eqb_ℤ c want)) ≡ false
    → (want ≡ pos 0) ⊎ (c ≡ want)
code_accepted want c h = elim (Bool-cases (eqb_ℤ want (pos 0))) [
  | inl unset ↦ inl ((eqb_ℤ_iff want (pos 0)).0 unset)
  | inr set ↦ inr ((eqb_ℤ_iff c want).0 (ground arith))
]

module _ (capture : StepValue → Fields) where
  assert_code_iff :
      (x : Expect) (v : StepValue) (e : Option RegError) (c : ℤ)
      → late_error e ≡ none
      → (assert_code capture x v e c ≡ none)
        ↔ (((x.code ≡ pos 0) ⊎ (c ≡ x.code)) × AllMatch (capture (single_result v)) x.fields)
  unfolding assert_code
  assert_code_iff x v e c timely =
      let (fields, fields') = check_fields_iff (capture (single_result v)) x.fields in
      elim (Bool-cases (not (eqb_ℤ x.code (pos 0)) && not (eqb_ℤ c x.code))) [
        | inl wrong ↦ rw wrong (
          λ h. cc,
          λ (h, _). absurd (ground (arith, eqb_ℤ_iff x.code (pos 0), eqb_ℤ_iff c x.code)),
        )
        | inr right ↦
            let in_time : (if is_success_code x.code then late_error e else none) ≡ none =
              ground arith in
            rw (right, in_time) (λ h. (code_accepted x.code c right, fields h), λ (h, m). fields' m)
      ]

  -- A step that has an expectation passes exactly if its error, if any, is an EPP error, its result
  -- code (1000 without an error) is the expected one where one is given, and every expected field
  -- is found among the captured ones with the same text.
  pub assert_expect_iff :
      (x : Expect) (v : StepValue) (e : Option RegError)
      → (assert_expect capture (some x) v e ≡ none) ↔ (
          (c : ℤ) × Answers e c
          × ((x.code ≡ pos 0) ⊎ (c ≡ x.code))
          × AllMatch (capture (single_result v)) x.fields)
  unfolding assert_expect
  assert_expect_iff x v none =
      let (to, from) = assert_code_iff x v none (pos 1000) refl in
      (
        λ h. (pos 1000, refl, (to h).0, (to h).1),
        λ (c, is, h, m). from (subst (λ d. (x.code ≡ pos 0) ⊎ (d ≡ x.code)) is h, m),
      )
  assert_expect_iff x v (some (epp e)) =
      let (to, from) = assert_code_iff x v (some (epp e)) e.code refl in
      (
        λ h. (e.code, refl, (to h).0, (to h).1),
        λ (c, is, h, m). from (subst (λ d. (x.code ≡ pos 0) ⊎ (d ≡ x.code)) is h, m),
      )
  assert_expect_iff x v (some (plain m)) = (λ h. cc, λ (c, never, _, _). absurd never)
