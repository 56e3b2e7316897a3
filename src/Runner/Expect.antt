-- ===== src/Runner/Expect.antt =====
-- `assertExpect` and `findField` of pkg/runner/runner.go.
pub mod Passes
mod Tests
use epp_test.Base.{
  ℕ, Bool, true, false, ◌&&◌, not, List, [], ◌∷◌, Option, none, some, if◌then◌else◌,
}
use epp_test.Base.Int.{ℤ, pos, leb_ℤ, ltb_ℤ, eqb_ℤ}
use epp_test.Base.Text.{Bytes, text_eq, to_lower}
use epp_test.Registrar.{EppError, RegError, epp, plain}
use epp_test.Registrar.Value.{Value, Fields, end, field, render}
use epp_test.Runner.Step.{StepValue, single_result}

-- `Expect`; a code of 0 is a code that is not given.
pub record Expect : Type 0 where
  pub code : ℤ
  pub fields : Fields

pub data ExpectError : Type 0 where
  epp_failure : EppError → ExpectError
  unexpected_error : RegError → ExpectError
  non_epp_error : RegError → ExpectError
  wrong_code : ℤ → ℤ → ExpectError
  error_on_success : RegError → ExpectError
  field_missing : Bytes → ExpectError
  field_differs : Bytes → Bytes → Bytes → ExpectError

-- `findField`: the first key that is the same but for its case.
unfoldable pub find_field : Fields → Bytes → Option Value
find_field end want = none
find_field (field k v d) want =
    if text_eq (to_lower k) (to_lower want) then some v else find_field d want

-- One expected field against the captured ones; `none` is a success.
unfoldable pub check_field : Fields → Bytes → Value → Option ExpectError
check_field captured key want = elim (find_field captured key) [
  | none ↦ some (field_missing key)
  | some actual ↦
      if text_eq (render want) (render actual)
      then none
      else some (field_differs key (render want) (render actual))
]

-- The loop over the expected fields.
unfoldable pub check_fields : Fields → Fields → Option ExpectError
check_fields captured end = none
check_fields captured (field key want rest) = elim (check_field captured key want) [
  | none ↦ check_fields captured rest
  | some e ↦ some e
]

abbrev pub is_success_code : ℤ → Bool
is_success_code c = leb_ℤ (pos 1000) c && ltb_ℤ c (pos 2000)

-- The result code of a step; `none` for an error that is no EPP error.
abbrev pub actual_code : Option RegError → Option ℤ
actual_code none = some (pos 1000)
actual_code (some (epp e)) = some e.code
actual_code (some (plain m)) = none

-- A step with no expectation.
unfoldable pub assert_unexpected : Option RegError → Option ExpectError
assert_unexpected none = none
assert_unexpected (some (epp e)) = if is_success_code e.code then none else some (epp_failure e)
assert_unexpected (some (plain m)) = some (unexpected_error (plain m))

-- An error that stays on an expected success; EPP errors are let through.
abbrev pub late_error : Option RegError → Option ExpectError
late_error (some (plain m)) = some (error_on_success (plain m))
late_error _ = none

-- `captureResult`, the JSON of a result read back as a map, is a parameter.
module _ (capture : StepValue → Fields) where
  -- The tests behind the code of a step that has an expectation.
  unfoldable pub assert_code : Expect → StepValue → Option RegError → ℤ → Option ExpectError
  assert_code expect result e actual =
      if not (eqb_ℤ expect.code (pos 0)) && not (eqb_ℤ actual expect.code)
      then some (wrong_code expect.code actual)
      else elim (if is_success_code expect.code then late_error e else none) [
        | some late ↦ some late
        | none ↦ check_fields (capture (single_result result)) expect.fields
      ]

  -- `assertExpect`; `none` is a pass.
  unfoldable pub assert_expect : Option Expect → StepValue → Option RegError → Option ExpectError
  unfolding assert_code
  assert_expect none result e = assert_unexpected e
  assert_expect (some expect) result none = assert_code expect result none (pos 1000)
  assert_expect (some expect) result (some (epp e)) =
      assert_code expect result (some (epp e)) e.code
  assert_expect (some expect) result (some (plain m)) = some (non_epp_error (plain m))
