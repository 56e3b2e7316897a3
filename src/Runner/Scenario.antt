-- ===== src/Runner/Scenario.antt =====
-- `RunScenario` of pkg/runner/runner.go with its cleanup, and the types of scenario.go and
-- collector.go. Times are left out of the results. Loading the file is left to the caller: a
-- scenario that cannot be loaded stops the test before anything runs.
pub mod Stops
pub mod Teardown
pub mod Restores
mod Tests
use epp_test.Base.{
  ℕ, zero, suc, ◌-◌, Bool, true, false, List, [], ◌∷◌, ◌++◌, Option, none, some, if◌then◌else◌,
  length, get_elem?,
}
use epp_test.Base.Int.{ℤ}
use epp_test.Base.Text.{Bytes, codes, text_eq}
use epp_test.Base.Dict.{Dict, lookup, insert}
use epp_test.Registrar.{Registrar, Method, Reply, RegError}
use epp_test.Registrar.Value.{Fields, end}
use epp_test.Runner.Params.{
  Captured, deep_merge, interpolate_params, inject_run_id_prefix, string_param,
}
use epp_test.Runner.Step.{StepValue, nothing, domain, contact, host, single_result}
use epp_test.Runner.Expect.{Expect, ExpectError, assert_expect}
use epp_test.Runner.Executor.{Decoder, exec_op}
use epp_test.Runner.Poll.{wait_for_poll, as_reply}

-- A nil map of parameters is the empty one.
pub record Step : Type 0 where
  pub name : Bytes
  pub op : Bytes
  pub params : Fields
  pub expect : Option Expect

-- The overrides: for each registrar, the parameters of the steps that it overrides.
pub record Scenario : Type 0 where
  pub name : Bytes
  pub rfc : Bytes
  pub matrix : List Bytes
  pub steps : List Step
  pub overrides : Dict (Dict Fields)

pub record StepResult : Type 0 where
  pub name : Bytes
  pub op : Bytes
  pub passed : Bool
  pub failure : Option ExpectError

pub record ScenarioResult : Type 0 where
  pub name : Bytes
  pub registrar : Bytes
  pub file : Bytes
  pub rfc : Bytes
  pub passed : Bool
  pub steps : List StepResult

-- A closure of the cleanup stack: the call that it makes.
pub data Cleanup : Type 0 where
  delete_domain : Bytes → Cleanup
  delete_contact : Bytes → Cleanup
  delete_host : Bytes → Cleanup

-- The name of the created object, else the one that was asked for.
abbrev or_param : Bytes → Bytes → Bytes
or_param given param = if text_eq given [] then param else given

abbrev created_name : StepValue → Bytes → Bytes
created_name (domain d) param = or_param d.name param
created_name _ param = param

abbrev created_id : StepValue → Bytes → Bytes
created_id (contact c) param = or_param c.id param
created_id _ param = param

abbrev created_host : StepValue → Bytes → Bytes
created_host (host h) param = or_param h.name param
created_host _ param = param

abbrev unless_empty : Bytes → (Bytes → Cleanup) → List Cleanup
unless_empty name f = if text_eq name [] then [] else f name ∷ []

-- `registerCleanup`: what it appends to the stack.
unfoldable pub cleanup_for : Bytes → Fields → StepValue → List Cleanup
cleanup_for op params result =
    if text_eq op (codes "create_domain")
    then unless_empty (created_name result (string_param params (codes "name"))) delete_domain
    else if text_eq op (codes "create_contact")
    then unless_empty (created_id result (string_param params (codes "id"))) delete_contact
    else if text_eq op (codes "create_host")
    then unless_empty (created_host result (string_param params (codes "name"))) delete_host
    else []

-- The parameters of a step before its references are filled in.
unfoldable pub override_params : Scenario → Bytes → Step → Fields
override_params scenario registrar step = elim (lookup registrar scenario.overrides) [
  | none ↦ step.params
  | some steps ↦ elim (lookup step.name steps) [
    | none ↦ step.params
    | some params ↦ deep_merge step.params params
  ]
]

-- What the runner calls outside this repository: the JSON of results, mapstructure,
-- `time.ParseDuration` and the clock (how often a loop finds the time before its deadline).
pub record Outside : Type 0 where
  pub capture : StepValue → Fields
  pub decoder : Decoder
  pub parse_duration : Bytes → Option ℤ
  pub rounds : ℤ → ℕ

-- The variables of a run.
pub record RunState (S : Type 0) : Type 0 where
  pub session : S
  pub captured : Captured
  pub cleanups : List Cleanup
  pub results : List StepResult

module _ (R : Registrar) (outside : Outside) where
  open R use {State}

  -- The dispatch of one step.
  unfoldable pub dispatch : Bytes → Fields → Method State StepValue
  dispatch op params s =
      if text_eq op (codes "wait_for_poll")
      then (let (outcome, s') = wait_for_poll R outside.parse_duration outside.rounds params s in
          (as_reply outcome, s'))
      else exec_op R outside.decoder op params s

  -- A result is captured under its step's name unless there is none.
  unfoldable pub capture_step : Bytes → StepValue → Captured → Captured
  capture_step name nothing captured = captured
  capture_step name v captured = insert name (outside.capture v) captured

  -- What the loop keeps of a step that has run: whether it passed, and the state behind it.
  unfoldable pub settle :
      Step
      → Fields
      → StepValue
      → State
      → RunState State
      → Option ExpectError
      → Bool × RunState State
  settle step params v s' r (some e) = (
    false,
    record r {
      session = s';
      results =
          r.results
          ++ (record { name = step.name; op = step.op; passed = false; failure = some e } ∷ []);
    },
  )
  settle step params v s' r none = (
    true,
    record {
      session = s';
      captured = capture_step step.name (single_result v) r.captured;
      cleanups = r.cleanups ++ cleanup_for step.op params v;
      results =
          r.results
          ++ (record { name = step.name; op = step.op; passed = true; failure = none } ∷ []);
    },
  )

  -- The body of the loop.
  unfoldable pub run_step : Scenario → Bytes → Step → RunState State → Bool × RunState State
  run_step scenario prefix step r =
      let merged = override_params scenario R.name step in
      let params = inject_run_id_prefix step.op (interpolate_params merged r.captured) prefix in
      let (reply, s') = dispatch step.op params r.session in
      settle step params reply.value s' r
        (assert_expect outside.capture step.expect reply.value reply.error)

  -- The loop: the first step that fails ends it.
  unfoldable pub run_steps : Scenario → Bytes → List Step → RunState State → Bool × RunState State
  run_steps scenario prefix [] r = (true, r)
  run_steps scenario prefix (step ∷ steps) r =
      let (passed, r') = run_step scenario prefix step r in
      let rest = run_steps scenario prefix steps r' in if passed then rest else (false, r')

  -- `RunScenario`: the result that it appends to the collector, and the state for the cleanup.
  unfoldable pub run_scenario : Scenario → Bytes → Bytes → State → ScenarioResult × RunState State
  run_scenario scenario file prefix s =
      let (passed, r) =
        run_steps scenario prefix scenario.steps
          (record { session = s; captured = []; cleanups = []; results = [] }) in
      (
        record {
          name = scenario.name;
          registrar = R.name;
          file = file;
          rfc = scenario.rfc;
          passed = passed;
          steps = r.results;
        },
        r,
      )

module _ (R : Registrar) where
  open R use {State}

  -- One closure of the cleanup; its error is only logged.
  unfoldable pub clean : Cleanup → State → State
  clean (delete_domain name) s = (R.delete_domain name s).1
  clean (delete_contact id) s = (R.delete_contact id s).1
  clean (delete_host name) s = (R.delete_host name s).1

  -- The loop of `t.Cleanup` over the indices below the given one, from the last down to 0.
  unfoldable pub clean_from : ℕ → List Cleanup → State → State
  clean_from zero stack s = s
  clean_from (suc i) stack s =
      clean_from i stack (elim (get_elem? stack i) [ none ↦ s | some c ↦ clean c s ])

  -- The function that `RunScenario` registers with `t.Cleanup`.
  unfoldable pub run_cleanup : RunState State → State
  unfolding clean_from
  run_cleanup r = clean_from (length r.cleanups) r.cleanups r.session
