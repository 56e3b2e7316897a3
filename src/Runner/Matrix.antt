-- ===== src/Runner/Matrix.antt =====
-- `RunMatrix` of pkg/runner/runner.go and the collector of collector.go. A subtest runs with its
-- cleanup before the next one begins; each registrar has a state of its own.
pub mod Selected
mod Tests
use epp_test.Base.{
  ◌≡◌, refl, sym, ap, ◌∙◌, Bool, true, false, List, [], ◌∷◌, ◌++◌, map, append-nil, append_assoc,
  Option, Option-cases, Bool-cases, subst, ℕ, suc, ◌+◌, length, none, some, inl, inr, if◌then◌else◌,
  All,
}
use epp_test.Base.Text.{Bytes, text_eq, text_eq_iff}
use epp_test.Base.Dict.{Dict, lookup, insert, lookup-insert}
use epp_test.Registrar.{Registrar}
use epp_test.Registrar.Value.{text_le}
use epp_test.Runner.Scenario.{Scenario, ScenarioResult, Outside, run_scenario, run_cleanup}

place_name : Bytes → List Bytes → List Bytes
place_name n [] = n ∷ []
place_name n (m ∷ ms) = if text_le n m then n ∷ m ∷ ms else m ∷ place_name n ms

-- `sort.Strings`
unfoldable pub sort_names : List Bytes → List Bytes
unfolding place_name
sort_names [] = []
sort_names (n ∷ ns) = place_name n (sort_names ns)

-- The names to run: those of the matrix, and without one all registrars in order.
unfoldable pub matrix_names {ℓ} : {A : Type ℓ} → List Bytes → Dict A → List Bytes
matrix_names [] regs = sort_names (map (λ r. r.0) regs)
matrix_names (n ∷ ns) regs = n ∷ ns

-- `Append`
unfoldable pub append_result : ScenarioResult → List ScenarioResult → List ScenarioResult
append_result r results = results ++ (r ∷ [])

-- `Flush`: the collected results, and the collector behind it.
unfoldable pub flush_results : List ScenarioResult → List ScenarioResult × List ScenarioResult
flush_results results = (results, [])

-- A registrar in its present state.
pub record Started : Type 1 where
  pub registrar : Registrar
  pub state : registrar.State

-- `run_id` gives the run ID of each subtest.
module _ (outside : Outside) (scenario : Scenario) (file : Bytes) (run_id : Bytes → Bytes) where
  -- A subtest with its cleanup: the result, and the registrar as it is left.
  unfoldable pub run_subtest : Bytes → Started → ScenarioResult × Started
  run_subtest n r =
      let (result, end) = run_scenario r.registrar outside scenario file (run_id n) r.state in
      (result, record { registrar = r.registrar; state = run_cleanup r.registrar end })

  -- The loop over the names: the registrars as they are left, and the collector. A name that no
  -- registrar has is skipped.
  unfoldable pub run_names :
      List Bytes → Dict Started → List ScenarioResult → Dict Started × List ScenarioResult
  run_names [] regs results = (regs, results)
  run_names (n ∷ ns) regs results = elim (lookup n regs) [
    | none ↦ run_names ns regs results
    | some r ↦
        run_names ns (insert n (run_subtest n r).1 regs) (append_result (run_subtest n r).0 results)
  ]

  -- `RunMatrix`
  unfoldable pub run_matrix :
      Dict Started → List ScenarioResult → Dict Started × List ScenarioResult
  run_matrix regs results = run_names (matrix_names scenario.matrix regs) regs results
