-- ===== src/Report/Counts.antt =====
-- The counts of the JUnit report and of the text report are the same.
use epp_test.Base.{
  ℕ, suc, ◌+◌, ◌≡◌, refl, sym, ◌∙◌, Bool, List, [], ◌∷◌, ◌++◌, Option, if◌then◌else◌, length, All,
  arith,
}
use epp_test.Base.Text.{Bytes}
use epp_test.Runner.Expect.{ExpectError}
use epp_test.Runner.Scenario.{Scenario, Outside, Step, StepResult, ScenarioResult, run_scenario}
use epp_test.Registrar.{Registrar}
use epp_test.Runner.Scenario.Stops.{
  Listed, Ran-Listed, run_scenario-Ran, listed_all, listed_passed, listed_failed,
}
use epp_test.Report.{
  TestCase, TestSuite, test_case, case_loop, suite_loop, junit_report, text_loop, scenario_lines,
}

-- A result as `RunScenario` reports it for some steps.
abbrev pub IsReported : ScenarioResult → Type 0
IsReported r = (steps : List Step) × Listed r.passed steps r.steps

-- Every result that `RunScenario` appends to the collector is one.
run_scenario-IsReported :
    (R : Registrar) (outside : Outside) (scenario : Scenario) (prefix file : Bytes) (s : R.State)
    → IsReported (run_scenario R outside scenario file prefix s).0
run_scenario-IsReported R outside scenario prefix file s = (
  scenario.steps,
  Ran-Listed R outside scenario prefix (run_scenario-Ran R outside scenario prefix file s),
)

module _ (show : Option ExpectError → Bytes) where
  case_loop-failures :
      (passed : Bool) (steps : List Step) (scenario : Bytes) (results : List StepResult)
      → Listed passed steps results
      → (cases : List TestCase) (n : ℕ)
      → (case_loop show scenario results cases n).1 ≡ (if passed then n else suc n)
  unfolding case_loop
  case_loop-failures passed steps scenario [] listed_all cases n = refl
  case_loop-failures passed (_ ∷ steps) scenario (r ∷ rs) (listed_passed ran) cases n =
      case_loop-failures passed steps scenario rs ran (cases ++ test_case show scenario r ∷ []) n
  case_loop-failures passed steps scenario (r ∷ []) listed_failed cases n = refl

  -- How many scenarios failed.
  failing : List ScenarioResult → ℕ
  failing [] = 0
  failing (r ∷ rs) = if r.passed then failing rs else suc (failing rs)

  suite_loop-failures :
      (rs : List ScenarioResult) (suites : List TestSuite) (tests failures : ℕ)
      → All IsReported rs
      → (suite_loop show rs suites tests failures).2 ≡ failures + failing rs
  unfolding suite_loop failing
  suite_loop-failures [] suites tests failures h = omega arith
  suite_loop-failures (r ∷ rs) suites tests failures ((steps, ran), h) =
      let one = case_loop-failures r.passed steps r.name r.steps ran [] 0 in
      suite_loop-failures rs _ _ _ h ∙ ground (arith, one)

  module _ (seconds : ScenarioResult → Bytes) where
    text_loop-counts :
        (rs : List ScenarioResult) (out : Bytes) (passed failed : ℕ)
        → ((text_loop show seconds rs out passed failed).2 ≡ failed + failing rs)
          × ((text_loop show seconds rs out passed failed).1 + failing rs ≡ passed + length rs)
    unfolding text_loop failing
    text_loop-counts [] out passed failed = (omega arith, omega arith)
    text_loop-counts (r ∷ rs) out passed failed = ground (
      arith,
      text_loop-counts rs (out ++ scenario_lines show seconds r)
          (if r.passed then suc passed else passed) (if r.passed then failed else suc failed),
    )

    -- For results as `RunScenario` reports them, the failures that the JUnit report counts over
    -- the steps of all scenarios are as many as the failed scenarios that the text report counts,
    -- which together with the passed ones make up all of them.
    pub junit_report-text_report :
        (rs : List ScenarioResult)
        → All IsReported rs
        → ((junit_report show rs).failures ≡ (text_loop show seconds rs [] 0 0).2)
          × ((text_loop show seconds rs [] 0 0).1 + (text_loop show seconds rs [] 0 0).2
              ≡ length rs)
    unfolding junit_report
    junit_report-text_report rs h =
        let (failed, passed) = text_loop-counts rs [] 0 0 in
        (suite_loop-failures rs [] 0 0 h ∙ sym failed, omega (arith, failed, passed))
