-- ===== src/Report.antt =====
-- pkg/report: report.go, text.go and the contents of the JUnit report of junit.go. Times are left
-- out of the JUnit report, and a parameter of the text; `show` gives the text of an error. The XML,
-- JSON and HTML encoders, and the file system, are parameters.
pub mod Counts
mod Tests
use epp_test.Base.{
  ℕ, zero, suc, ◌+◌, Bool, true, false, List, [], ◌∷◌, ◌++◌, map, Option, none, some, ◌==◌,
  if◌then◌else◌, length,
}
use epp_test.Base.Text.{Bytes, codes, text_eq, split, trim_space}
use epp_test.Base.Decimal.{decimal}
use epp_test.Runner.Expect.{ExpectError}
use epp_test.Runner.Scenario.{StepResult, ScenarioResult}

-- `xmlFailure`, `xmlTestCase`, `xmlTestSuite` and `xmlTestSuites`; `Errors` and `Skipped` are 0.
pub record Failure : Type 0 where
  pub message : Bytes
  pub kind : Bytes
  pub body : Bytes

pub record TestCase : Type 0 where
  pub name : Bytes
  pub classname : Bytes
  pub failure : Option Failure

pub record TestSuite : Type 0 where
  pub name : Bytes
  pub tests : ℕ
  pub failures : ℕ
  pub cases : List TestCase

pub record TestSuites : Type 0 where
  pub name : Bytes
  pub tests : ℕ
  pub failures : ℕ
  pub suites : List TestSuite

-- `sanitizeClassname`
unfoldable pub sanitize_classname : Bytes → Bytes
sanitize_classname = map (λ c. if (c == b'/') then b'_' else if c == b' ' then b'_' else c)

module _ (show : Option ExpectError → Bytes) where
  -- A step as a test case.
  unfoldable pub test_case : Bytes → StepResult → TestCase
  unfolding sanitize_classname
  test_case scenario step = record {
    name = step.name;
    classname = codes "conformance." ++ sanitize_classname scenario;
    failure =
        if step.passed
        then none
        else some (record {
          message = show step.failure;
          kind = codes "AssertionError";
          body = codes "step: " ++ (step.name ++ (codes " op: " ++ step.op));
        });
  }

  -- The loop over the steps: the cases and the count of failures so far.
  unfoldable pub case_loop : Bytes → List StepResult → List TestCase → ℕ → List TestCase × ℕ
  case_loop scenario [] cases failures = (cases, failures)
  case_loop scenario (step ∷ steps) cases failures =
      case_loop scenario steps (cases ++ test_case scenario step ∷ [])
        (if step.passed then failures else suc failures)

  -- The loop over the scenarios, with the suites and the two totals so far.
  unfoldable pub suite_loop : List ScenarioResult → List TestSuite → ℕ → ℕ → List TestSuite × ℕ × ℕ
  suite_loop [] suites tests failures = (suites, tests, failures)
  suite_loop (r ∷ rs) suites tests failures =
      let (cases, failed) = case_loop r.name r.steps [] 0 in
      let suite : TestSuite = record {
        name = r.name;
        tests = length r.steps;
        failures = failed;
        cases = cases;
      } in
      suite_loop rs (suites ++ suite ∷ []) (tests + length r.steps) (failures + failed)

  -- What `writeJUnit` hands to the XML encoder.
  unfoldable pub junit_report : List ScenarioResult → TestSuites
  junit_report results =
      let (suites, tests, failures) = suite_loop results [] 0 0 in
      record { name = codes "epp-conformance"; tests = tests; failures = failures; suites = suites }

  -- The line of a failed step.
  unfoldable pub step_line : StepResult → Bytes
  step_line step =
      if step.passed
      then []
      else codes "  FAIL step="
        ++ (step.name
            ++ (codes " op=" ++ (step.op ++ (codes " err=" ++ (show step.failure ++ codes "\n")))))

  unfoldable pub step_lines : List StepResult → Bytes
  unfolding step_line
  step_lines [] = []
  step_lines (step ∷ steps) = step_line step ++ step_lines steps

  module _ (seconds : ScenarioResult → Bytes) where
    -- The lines of a scenario.
    unfoldable pub scenario_lines : ScenarioResult → Bytes
    unfolding step_lines
    scenario_lines r =
        codes "["
        ++ ((if r.passed then codes "PASS" else codes "FAIL")
            ++ (codes "] "
                ++ (r.name
                    ++ (codes " ("
                        ++ (r.registrar
                            ++ (codes ") "
                                ++ (seconds r ++ (codes "s\n" ++ step_lines r.steps))))))))

    -- The loop of `writeText`: what is written, and the two counts.
    unfoldable pub text_loop : List ScenarioResult → Bytes → ℕ → ℕ → Bytes × ℕ × ℕ
    unfolding scenario_lines
    text_loop [] out passed failed = (out, passed, failed)
    text_loop (r ∷ rs) out passed failed =
        text_loop rs (out ++ scenario_lines r) (if r.passed then suc passed else passed)
          (if r.passed then failed else suc failed)

    -- What `writeText` writes to a file that takes it all.
    unfoldable pub text_report : List ScenarioResult → Bytes
    text_report results =
        let (out, passed, failed) = text_loop results [] 0 0 in
        out
        ++ (codes "Total: "
            ++ (decimal (length results)
                ++ (codes "  Passed: "
                    ++ (decimal passed ++ (codes "  Failed: " ++ (decimal failed ++ codes "\n"))))))

pub data ReportError : Type 0 where
  create_dir : ReportError
  unknown_format : Bytes → ReportError
  write_failed : Bytes → ReportError

-- The file of each format.
unfoldable pub file_of : Bytes → Option Bytes
file_of f =
    if text_eq f (codes "junit")
    then some (codes "junit.xml")
    else if text_eq f (codes "json")
    then some (codes "report.json")
    else if text_eq f (codes "text")
    then some (codes "report.txt")
    else if text_eq f (codes "html")
    then some (codes "report.html")
    else none

-- The file system: making a directory, and writing the report of a format to a file in it.
module _ {S : Type 0} (mkdir : Bytes → S → Bool × S)
    (write_file : Bytes → Bytes → Bytes → S → Bool × S) where
  -- The loop of `Write` over the formats.
  unfoldable pub write_formats : Bytes → List Bytes → List ReportError → S → List ReportError × S
  unfolding file_of
  write_formats dir [] errs s = (errs, s)
  write_formats dir (token ∷ tokens) errs s =
      let f = trim_space token in
      if text_eq f [] then write_formats dir tokens errs s else elim (file_of f) [
        | none ↦ write_formats dir tokens (errs ++ unknown_format f ∷ []) s
        | some file ↦
            let (written, s') = write_file dir file f s in
            write_formats dir tokens (if written then errs else errs ++ write_failed file ∷ []) s'
      ]

  -- `Write`
  unfoldable pub write_reports : Bytes → Bytes → S → List ReportError × S
  write_reports dir formats s =
      let (made, s') = mkdir dir s in
      if made
      then write_formats dir
          (split b',' (if text_eq formats [] then codes "junit,json,text,html" else formats)) [] s'
      else (create_dir ∷ [], s')
