-- ===== src/Runner/Scenario/Stops.antt =====
-- The loop over the steps in `RunScenario` of pkg/runner/runner.go.
use epp_test.Base.{
  ◌≡◌, refl, sym, ap, ◌∙◌, Bool, true, false, List, [], ◌∷◌, ◌++◌, append-nil, append_assoc, Option,
  none, some, if◌then◌else◌, Bool-cases, ◌⊎◌, inl, inr,
}
use epp_test.Base.Text.{Bytes}
use epp_test.Registrar.{Registrar}
use epp_test.Registrar.Value.{Fields}
use epp_test.Runner.Step.{StepValue}
use epp_test.Runner.Expect.{ExpectError, assert_expect}
use epp_test.Runner.Scenario.{
  Step, Scenario, StepResult, Outside, RunState, run_step, run_steps, run_scenario, settle,
  override_params, dispatch,
}
use epp_test.Runner.Params.{inject_run_id_prefix, interpolate_params}

-- The shape of what a run reports, whatever its registrar: passed steps, and one that failed last
-- where the run did not pass.
pub data Listed : Bool → List Step → List StepResult → Type 0 where
  listed_all : Listed true [] []
  listed_passed :
      {passed : Bool} {step : Step} {steps : List Step} {results : List StepResult}
      → Listed passed steps results
      → Listed passed
          (step ∷ steps)
          (record { name = step.name; op = step.op; passed = true; failure = none } ∷ results)
  listed_failed :
      {step : Step} {steps : List Step} {e : ExpectError}
      → Listed false
          (step ∷ steps)
          (record { name = step.name; op = step.op; passed = false; failure = some e } ∷ [])

module _ (R : Registrar) (outside : Outside) (scenario : Scenario) (prefix : Bytes) where
  open R use {State}

  -- Running two lists of steps one behind the other is running the first and, only if it passed,
  -- the second from the state that the first left: no step runs behind one that failed.
  pub run_steps-append :
      (before after : List Step) (r : RunState State)
      → run_steps R outside scenario prefix (before ++ after) r ≡ (
          if (run_steps R outside scenario prefix before r).0
          then run_steps R outside scenario prefix after
              (run_steps R outside scenario prefix before r).1
          else run_steps R outside scenario prefix before r)
  unfolding run_steps
  run_steps-append [] after r = refl
  run_steps-append (step ∷ before) after r =
      let r' = (run_step R outside scenario prefix step r).1 in
      let rest = run_steps-append before after r' in
      elim (Bool-cases (run_step R outside scenario prefix step r).0) [
        | inl e ↦ rw e rest
        | inr e ↦ rw e refl
      ]

  -- What the step's expectation says of the registrar's reply, in the state before the step.
  abbrev pub verdict : Step → RunState State → Option ExpectError
  verdict step r =
      let merged = override_params scenario R.name step in
      let params = inject_run_id_prefix step.op (interpolate_params merged r.captured) prefix in
      let (reply, _) = dispatch R outside step.op params r.session in
      assert_expect outside.capture step.expect reply.value reply.error

  -- What a run from a state reports: `Ran r passed steps results` when it passed or not with these
  -- results.
  pub data Ran : RunState State → Bool → List Step → List StepResult → Type 0 where
    ran_all : {r : RunState State} → Ran r true [] []
    ran_passed :
        {r : RunState State} {passed : Bool} {step : Step} {steps : List Step}
        {results : List StepResult}
        → verdict step r ≡ none
        → Ran (run_step R outside scenario prefix step r).1 passed steps results
        → Ran r passed
            (step ∷ steps)
            (record { name = step.name; op = step.op; passed = true; failure = none } ∷ results)
    ran_failed :
        {r : RunState State} {step : Step} {steps : List Step} {e : ExpectError}
        → verdict step r ≡ some e
        → Ran r false
            (step ∷ steps)
            (record { name = step.name; op = step.op; passed = false; failure = some e } ∷ [])

  pub Ran-Listed :
      {r : RunState State} {passed : Bool} {steps : List Step} {results : List StepResult}
      → Ran r passed steps results
      → Listed passed steps results
  Ran-Listed ran_all = listed_all
  Ran-Listed (ran_passed fine ran) = listed_passed (Ran-Listed ran)
  Ran-Listed (ran_failed bad) = listed_failed

  RanFrom : List Step → RunState State → Type 0
  RanFrom steps r =
      (new : List StepResult) × ((run_steps R outside scenario prefix steps r).1.results
        ≡ r.results ++ new)
      × Ran r (run_steps R outside scenario prefix steps r).0 steps new

  -- The step has one result more, and its outcome is the one that it returns.
  OneResult : Step → RunState State → Option ExpectError → Bool × RunState State → Type 0
  OneResult step r said (passed, r') =
      ((said ≡ none)
        × (passed ≡ true)
        × (r'.results
            ≡ r.results
              ++ (record { name = step.name; op = step.op; passed = true; failure = none } ∷ [])))
      ⊎ ((e : ExpectError) × (said ≡ some e)
          × (passed ≡ false)
          × (r'.results
              ≡ r.results
                ++ (record { name = step.name; op = step.op; passed = false; failure = some e }
                    ∷ [])))

  settle-OneResult :
      (step : Step) (params : Fields) (v : StepValue) (s' : State) (r : RunState State)
      (e : Option ExpectError)
      → OneResult step r e (settle R outside step params v s' r e)
  unfolding settle OneResult
  settle-OneResult step params v s' r none = inl (refl, refl, refl)
  settle-OneResult step params v s' r (some e) = inr (e, refl, refl, refl)

  run_step-OneResult :
      (step : Step) (r : RunState State)
      → OneResult step r (verdict step r) (run_step R outside scenario prefix step r)
  unfolding run_step
  run_step-OneResult step r = settle-OneResult step _ _ _ r _

  run_steps-Ran : (steps : List Step) (r : RunState State) → RanFrom steps r
  unfolding run_steps RanFrom OneResult
  run_steps-Ran [] r = ([], sym (append-nil r.results), ran_all)
  run_steps-Ran (step ∷ steps) r =
      let r' = (run_step R outside scenario prefix step r).1 in
      let (new, e, ran) = run_steps-Ran steps r' in
      elim (run_step-OneResult step r) [
        | inl (fine, passed, kept) ↦
            rw passed (
              _,
              e ∙ (ap (λ ys. ys ++ new) kept ∙ append_assoc r.results _ new),
              ran_passed fine ran,
            )
        | inr (e, bad, stopped, kept) ↦ rw stopped (_, kept, ran_failed bad)
      ]

  -- The result that a scenario reports lists its steps in their order, by name and operation. A
  -- step is listed as passed exactly if its expectation accepts the registrar's reply in the state
  -- in which the step runs, and as failed with the error of the expectation otherwise. The list
  -- ends with the scenario, which has then passed, or with the first step that failed, and the
  -- scenario has then failed.
  pub run_scenario-Ran :
      (file : Bytes) (s : State)
      → Ran
          (record { session = s; captured = []; cleanups = []; results = [] })
          (run_scenario R outside scenario file prefix s).0.passed
          scenario.steps
          (run_scenario R outside scenario file prefix s).0.steps
  unfolding run_scenario RanFrom
  run_scenario-Ran file s =
      let (new, e, ran) =
        run_steps-Ran scenario.steps
          (record { session = s; captured = []; cleanups = []; results = [] }) in
      rw e ran
