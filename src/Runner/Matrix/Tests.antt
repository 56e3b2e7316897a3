-- ===== src/Runner/Matrix/Tests.antt =====
-- A concrete matrix run, and the theorem at it.
use epp_test.Base.{◌≡◌, refl, List, [], ◌∷◌, ◌++◌, none}
use epp_test.Base.Int.{pos}
use epp_test.Base.Text.{Bytes, codes}
use epp_test.Base.Dict.{Dict}
use epp_test.Registrar.Value.{end, text_le}
use epp_test.Runner.Scenario.{Scenario, ScenarioResult, Outside}
use epp_test.Runner.Matrix.{Started, sort_names, run_matrix}
use epp_test.Runner.Matrix.Selected.{Results, Selected, run_matrix-Selected}
use epp_test.Runner.Sample.{sample}

abbrev outside : Outside
outside = record {
  capture = λ v. end;
  decoder = record {
    domain_create = λ p. none;
    domain_update = λ p. none;
    domain_transfer = λ p. none;
    contact_create = λ p. none;
    contact_update = λ p. none;
    host_create = λ p. none;
    host_update = λ p. none;
    sscan = λ t. pos 0;
  };
  parse_duration = λ t. none;
  rounds = λ d. 0;
}

abbrev pinged : Scenario
pinged = record {
  name = codes "s";
  rfc = [];
  matrix = [];
  steps = record { name = codes "p"; op = codes "ping"; params = end; expect = none } ∷ [];
  overrides = [];
}

abbrev started : Started
started = record { registrar = sample; state = record { domains = []; messages = [] } }

abbrev registrars : Dict Started
registrars = (codes "nicat", started) ∷ (codes "denic", started) ∷ []

abbrev run_id : Bytes → Bytes
run_id n = codes "r"

run_matrix-Selected_example :
    (names : List Bytes) × (new : List ScenarioResult) × ((run_matrix outside pinged
        (codes "f")
        run_id
        registrars
        []).1
      ≡ [] ++ new)
    × Results outside pinged (codes "f") run_id registrars names new
    × Selected pinged.matrix registrars names
run_matrix-Selected_example = run_matrix-Selected outside pinged (codes "f") run_id registrars []

sorted :
    sort_names (codes "nicat" ∷ codes "denic" ∷ codes "eurid" ∷ [])
    ≡ codes "denic" ∷ codes "eurid" ∷ codes "nicat" ∷ []
unfolding sort_names text_le
sorted = refl
