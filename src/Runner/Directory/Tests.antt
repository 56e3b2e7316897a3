-- ===== src/Runner/Directory/Tests.antt =====
-- A directory with a file that cannot be read between two scenarios.
use epp_test.Base.{◌≡◌, refl, List, [], ◌∷◌, ◌++◌, Option, none, some, if◌then◌else◌}
use epp_test.Base.Int.{pos}
use epp_test.Base.Text.{Bytes, codes, text_eq}
use epp_test.Base.Result.{Result}
use epp_test.Registrar.Value.{end}
use epp_test.Runner.Scenario.{Scenario, ScenarioResult, Outside}
use epp_test.Runner.Directory.{
  LoadError, load_scenario, run_id, run_dir, loaded, labels, run_dir-results,
}
use epp_test.Runner.Sample.{Registry, sample}

abbrev outside : Outside
outside = record {
  capture = λ v. end;
  decoder = record {
    domain_create = λ p. none;
    domain_update = λ p. none;
    domain_transfer = λ p. none;
    contact_create = λ p. none;
    contact_update = λ p. none;
    host_create = λ p. none;
    host_update = λ p. none;
    sscan = λ t. pos 0;
  };
  parse_duration = λ t. none;
  rounds = λ d. 0;
}

-- A file holds the name of its scenario, which pings.
abbrev parsed : Bytes → Option Scenario
parsed name = some (record {
  name = name;
  rfc = [];
  matrix = [];
  steps = record { name = codes "p"; op = codes "ping"; params = end; expect = none } ∷ [];
  overrides = [];
})

abbrev load_file : Bytes → Result LoadError Scenario
load_file = load_scenario (λ path. if text_eq path (codes "b") then none else some path) parsed

abbrev files : List Bytes
files = codes "a" ∷ codes "b" ∷ codes "c" ∷ []

abbrev registry : Registry
registry = record { domains = []; messages = [] }

run_dir-results_example :
    (new : List ScenarioResult) × ((run_dir sample outside load_file
        (λ f. codes "r")
        (some files)
        (registry, [])).1
      ≡ [] ++ new)
    × (labels sample outside load_file (λ f. codes "r") new
        ≡ loaded sample outside load_file (λ f. codes "r") files)
run_dir-results_example =
    run_dir-results sample outside load_file (λ f. codes "r") files registry []

skipped :
    loaded sample outside load_file (λ f. codes "r") files
    ≡ (codes "a", codes "a") ∷ (codes "c", codes "c") ∷ []
unfolding loaded load_scenario text_eq
skipped = refl

random_id : run_id [] (some (0x0F ∷ 0xA0 ∷ 7 ∷ 255 ∷ [])) ≡ codes "0fa007ff"
unfolding run_id
random_id = refl
