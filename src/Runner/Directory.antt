-- ===== src/Runner/Directory.antt =====
-- `LoadScenario` of scenario.go, `runID` of interpolate.go and `RunDir` of runner.go. The files,
-- their YAML, the environment and the random bytes are parameters. A subtest runs with its cleanup
-- before the next one begins, and one whose scenario cannot be loaded stops alone.
mod Tests
use epp_test.Base.{
  ℕ, ◌+◌, ◌-◌, ◌/◌, ◌%◌, ◌≡◌, refl, sym, ap, ◌∙◌, List, [], ◌∷◌, ◌++◌, map, append-nil,
  append_assoc, Option, Option-cases, none, some, inl, inr, if◌then◌else◌, ltb,
}
use epp_test.Base.Text.{Bytes, codes, text_eq}
use epp_test.Base.Result.{Result, ok, err, Result-cases}
use epp_test.Registrar.{Registrar}
use epp_test.Runner.Scenario.{
  Scenario, ScenarioResult, Outside, RunState, run_scenario, run_cleanup,
}
use epp_test.Runner.Matrix.{append_result}

pub data LoadError : Type 0 where
  unreadable unparsable : LoadError

-- `LoadScenario`
unfoldable pub load_scenario :
    (Bytes → Option Bytes) → (Bytes → Option Scenario) → Bytes → Result LoadError Scenario
load_scenario read_file unmarshal path = elim (read_file path) [
  | none ↦ err unreadable
  | some text ↦ elim (unmarshal text) [ none ↦ err unparsable | some s ↦ ok s ]
]

hex_digit : ℕ → ℕ
hex_digit d = if ltb d 10 then b'0' + d else b'a' + (d - 10)

-- `%x` of some bytes.
unfoldable pub hex : Bytes → Bytes
unfolding hex_digit
hex [] = []
hex (b ∷ bs) = hex_digit (b / 16) ∷ hex_digit (b % 16) ∷ hex bs

-- `runID`: the variable RUN_ID (empty if it is not set), else four random bytes if there are any.
unfoldable pub run_id : Bytes → Option Bytes → Bytes
unfolding hex
run_id [] none = codes "fallback"
run_id [] (some bytes) = hex bytes
run_id (c ∷ cs) random = c ∷ cs

-- `ids` gives the run ID of the subtest of a file.
module _ (R : Registrar) (outside : Outside) (load : Bytes → Result LoadError Scenario)
    (ids : Bytes → Bytes) where
  open R use {State}

  -- One subtest: the results with its own, and the registrar as its cleanup leaves it.
  unfoldable pub run_file : Bytes → State × List ScenarioResult → State × List ScenarioResult
  run_file file (s, results) = elim (load file) [
    | err e ↦ (s, results)
    | ok scenario ↦
        let (result, end) = run_scenario R outside scenario file (ids file) s in
        (run_cleanup R end, append_result result results)
  ]

  -- The loop of `RunDir`.
  unfoldable pub run_files : List Bytes → State × List ScenarioResult → State × List ScenarioResult
  run_files [] p = p
  run_files (file ∷ files) p = run_files files (run_file file p)

  -- `RunDir` on what the glob finds; an invalid pattern stops it.
  unfoldable pub run_dir :
      Option (List Bytes) → State × List ScenarioResult → State × List ScenarioResult
  run_dir none p = p
  run_dir (some files) p = run_files files p

  -- The scenarios that can be loaded, with their files.
  unfoldable pub loaded : List Bytes → List (Bytes × Bytes)
  loaded [] = []
  loaded (file ∷ files) = elim (load file) [
    | err e ↦ loaded files
    | ok scenario ↦ (file, scenario.name) ∷ loaded files
  ]

  abbrev pub labels : List ScenarioResult → List (Bytes × Bytes)
  labels results = map (λ r. (r.file, r.name)) results

  run_file-skips :
      (file : Bytes) (e : LoadError) (p : State × List ScenarioResult)
      → load file ≡ err e
      → run_file file p ≡ p
  unfolding run_file
  run_file-skips file e p bad = rw (bad, run_file) refl

  run_file-runs :
      (file : Bytes) (scenario : Scenario) (s : State) (results : List ScenarioResult)
      → load file ≡ ok scenario
      → run_file file (s, results) ≡ (
        run_cleanup R (run_scenario R outside scenario file (ids file) s).1,
        append_result (run_scenario R outside scenario file (ids file) s).0 results,
      )
  unfolding run_file
  run_file-runs file scenario s results good = rw (good, run_file) refl

  run_files-results :
      (files : List Bytes) (p : State × List ScenarioResult)
      → (new : List ScenarioResult) × ((run_files files p).1 ≡ p.1 ++ new)
        × (labels new ≡ loaded files)
  unfolding run_files loaded run_scenario append_result
  run_files-results [] p = ([], sym (append-nil p.1), refl)
  run_files-results (file ∷ files) (s, results) = elim (Result-cases (load file)) [
    | inr (e, bad) ↦
        let (new, added, named) = run_files-results files (s, results) in
        let skips = ap (λ q. (run_files files q).1) (run_file-skips file e (s, results) bad) in
        (new, skips ∙ added, named ∙ sym (rw (bad, loaded) refl))
    | inl (scenario, good) ↦
        let (result, end) = run_scenario R outside scenario file (ids file) s in
        let (new, added, named) =
          run_files-results files (run_cleanup R end, append_result result results) in
        let runs = ap (λ q. (run_files files q).1) (run_file-runs file scenario s results good) in
        (
          result ∷ new,
          runs ∙ added ∙ append_assoc results (result ∷ []) new,
          ap (λ l. (file, scenario.name) ∷ l) named ∙ sym (rw (good, loaded) refl),
        )
  ]

  -- A run of a directory keeps what was collected before, and adds one result for each file whose
  -- scenario can be loaded, under that file and the name of its scenario, in the order of the
  -- files: neither a scenario that fails nor a file that cannot be loaded keeps the later ones from
  -- running.
  pub run_dir-results :
      (files : List Bytes) (s : State) (results : List ScenarioResult)
      → (new : List ScenarioResult) × ((run_dir (some files) (s, results)).1 ≡ results ++ new)
        × (labels new ≡ loaded files)
  unfolding run_dir
  run_dir-results files s results = run_files-results files (s, results)
