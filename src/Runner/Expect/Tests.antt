-- ===== src/Runner/Expect/Tests.antt =====
-- Concrete assertions, and the theorem at one of them.
use epp_test.Base.{◌≡◌, ◌↔◌, ◌⊎◌, refl, [], ◌∷◌, none, some}
use epp_test.Base.Int.{ℤ, pos}
use epp_test.Base.Text.{codes, text_eq, to_lower}
use epp_test.Registrar.Value.{str, Fields, end, field, render}
use epp_test.Runner.Step.{StepValue, nothing, domain, domains, single_result}
use epp_test.Runner.Expect.{
  Expect, wrong_code, assert_expect, assert_code, check_fields, check_field, find_field,
}
use epp_test.Runner.Expect.Passes.{assert_expect_iff, Answers, AllMatch}
use epp_test.Runner.Sample.{domain_of, refusal}

abbrev captured_name : StepValue → Fields
captured_name (domain d) = field (codes "Name") (str d.name) end
captured_name _ = end

abbrev named : Expect
named = record { code = pos 1000; fields = field (codes "name") (str (codes "a.de")) end }

assert_expect_iff_example :
    (assert_expect captured_name (some named) (domains (domain_of (codes "a.de") ∷ [])) none ≡ none)
    ↔ ((c : ℤ) × Answers none c
        × ((named.code ≡ pos 0) ⊎ (c ≡ named.code))
        × AllMatch
            (captured_name (single_result (domains (domain_of (codes "a.de") ∷ []))))
            named.fields)
assert_expect_iff_example =
    assert_expect_iff captured_name named (domains (domain_of (codes "a.de") ∷ [])) none

found_in_first :
    assert_expect captured_name (some named) (domains (domain_of (codes "a.de") ∷ [])) none ≡ none
unfolding assert_expect assert_code check_fields check_field find_field text_eq to_lower
    single_result render
found_in_first = refl

refused :
    assert_expect captured_name (some named) nothing (some (refusal 2303))
    ≡ some (wrong_code (pos 1000) (pos 2303))
unfolding assert_expect assert_code
refused = refl

-- An expectation without a code lets an EPP error through that a step without any expectation
-- does not.
no_code :
    assert_expect captured_name
      (some (record { code = pos 0; fields = end }))
      nothing
      (some (refusal 2303))
    ≡ none
unfolding assert_expect assert_code check_fields
no_code = refl
