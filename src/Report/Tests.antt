-- ===== src/Report/Tests.antt =====
-- A small report.
use epp_test.Base.{◌+◌, ◌≡◌, Bool, true, false, List, [], ◌∷◌, Option, none, some, length}
use epp_test.Base.Text.{Bytes, codes}
use epp_test.Registrar.Value.{end}
use epp_test.Runner.Expect.{ExpectError, field_missing}
use epp_test.Runner.Scenario.{Step, StepResult, ScenarioResult}
use epp_test.Runner.Scenario.Stops.{listed_all, listed_passed, listed_failed}
use epp_test.Report.{junit_report, text_loop}
use epp_test.Report.Counts.{junit_report-text_report}

abbrev step : Step
step = record { name = codes "check"; op = codes "check_domain"; params = end; expect = none }

abbrev result_of : Bool → Option ExpectError → StepResult
result_of passed failure = record {
  name = step.name;
  op = step.op;
  passed = passed;
  failure = failure;
}

abbrev scenario_result : Bool → List StepResult → ScenarioResult
scenario_result passed steps = record {
  name = codes "domain/check";
  registrar = codes "denic";
  file = [];
  rfc = [];
  passed = passed;
  steps = steps;
}

-- One scenario that passed, and one that failed in its second step.
abbrev results : List ScenarioResult
results =
    scenario_result true (result_of true none ∷ [])
    ∷ scenario_result false
        (result_of true none ∷ result_of false (some (field_missing (codes "status"))) ∷ [])
    ∷ []

abbrev show : Option ExpectError → Bytes
show none = []
show (some e) = codes "failed"

junit_report-text_report_example :
    ((junit_report show results).failures ≡ (text_loop show (λ r. codes "0.100") results [] 0 0).2)
    × ((text_loop show (λ r. codes "0.100") results [] 0 0).1
          + (text_loop show (λ r. codes "0.100") results [] 0 0).2
        ≡ length results)
junit_report-text_report_example =
    junit_report-text_report show (λ r. codes "0.100") results
      ((step ∷ [], listed_passed listed_all), ((step ∷ step ∷ [], listed_passed listed_failed), tt))
