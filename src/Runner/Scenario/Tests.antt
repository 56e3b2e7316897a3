-- ===== src/Runner/Scenario/Tests.antt =====
-- Concrete scenarios, and the theorems at them.
use epp_test.Base.{
  false, arith, sym, ap, ◌∙◌, append-nil, Bool-cases, inl, inr, ◌≡◌, refl, Bool, true, List, [],
  ◌∷◌, ◌++◌, Option, none, some, if◌then◌else◌,
}
use epp_test.Base.Int.{pos}
use epp_test.Base.Text.{Bytes, codes, text_eq, text_eq_refl, has_prefix}
use epp_test.Base.Dict.{lookup}
use epp_test.Registrar.Value.{str, end, field, get, put}
use epp_test.Runner.Step.{single_result}
use epp_test.Runner.Params.{
  string_param, interpolate_params, interpolate_value, interpolate_string, inject_run_id_prefix,
  prefixed, match_ref,
}
use epp_test.Runner.Expect.{Expect, assert_unexpected, assert_expect, assert_code, check_fields}
use epp_test.Runner.Executor.{Decoder, exec_op, exec, op_table}
use epp_test.Runner.Scenario.{
  Step, Scenario, Outside, RunState, delete_domain, delete_contact, delete_host, run_step,
  run_steps, run_scenario, run_cleanup, dispatch, settle, capture_step, cleanup_for,
  override_params, clean, clean_from,
}
use epp_test.Runner.Scenario.Stops.{Ran, run_scenario-Ran, run_steps-append}
use epp_test.Runner.Scenario.Restores.{Respects, IsUndone, run_cleanup-restores}
use epp_test.Runner.Scenario.Teardown.{clean_all, newest_first, run_cleanup-newest_first}
use epp_test.Runner.Sample.{Registry, sample, mem, remove}

abbrev decoder : Decoder
decoder = record {
  domain_create = λ p. some (record {
    name = string_param p (codes "name");
    registrant = [];
    nameservers = [];
    auth_info = [];
    period = pos 1;
    extensions = end;
  });
  domain_update = λ p. none;
  domain_transfer = λ p. none;
  contact_create = λ p. none;
  contact_update = λ p. none;
  host_create = λ p. none;
  host_update = λ p. none;
  sscan = λ t. pos 0;
}

abbrev outside : Outside
outside = record {
  capture = λ v. end;
  decoder = decoder;
  parse_duration = λ t. none;
  rounds = λ d. 0;
}

abbrev create : Bytes → Option Expect → Step
create n x = record {
  name = n;
  op = codes "create_domain";
  params = field (codes "name") (str n) end;
  expect = x;
}

abbrev unknown : Step
unknown = record { name = codes "u"; op = codes "drop"; params = end; expect = none }

abbrev scenario : Scenario
scenario = record {
  name = codes "s";
  rfc = [];
  matrix = [];
  steps = create (codes "a") none ∷ unknown ∷ create (codes "b") none ∷ [];
  overrides = [];
}

abbrev empty : Registry
empty = record { domains = []; messages = [] }

abbrev begin : Registry → RunState Registry
begin s = record { session = s; captured = []; cleanups = []; results = [] }

run_scenario-Ran_example :
    Ran sample outside scenario
      (codes "r")
      (begin empty)
      (run_scenario sample outside scenario (codes "f") (codes "r") empty).0.passed
      scenario.steps
      (run_scenario sample outside scenario (codes "f") (codes "r") empty).0.steps
run_scenario-Ran_example = run_scenario-Ran sample outside scenario (codes "r") (codes "f") empty

run_steps-append_example :
    run_steps sample outside scenario
      (codes "r")
      ((unknown ∷ []) ++ (create (codes "b") none ∷ []))
      (begin empty)
    ≡ (if (run_steps sample outside scenario (codes "r") (unknown ∷ []) (begin empty)).0
        then run_steps sample outside scenario
            (codes "r")
            (create (codes "b") none ∷ [])
            (run_steps sample outside scenario (codes "r") (unknown ∷ []) (begin empty)).1
        else run_steps sample outside scenario (codes "r") (unknown ∷ []) (begin empty))
run_steps-append_example =
    run_steps-append sample outside scenario (codes "r") (unknown ∷ [])
      (create (codes "b") none ∷ []) (begin empty)

abbrev two_created : RunState Registry
two_created = record {
  session = record { domains = codes "b" ∷ codes "a" ∷ []; messages = [] };
  captured = [];
  cleanups = delete_domain (codes "a") ∷ delete_domain (codes "b") ∷ [];
  results = [];
}

run_cleanup-newest_first_example :
    run_cleanup sample two_created
    ≡ clean_all sample (newest_first two_created.cleanups) two_created.session
run_cleanup-newest_first_example = run_cleanup-newest_first sample two_created

abbrev taken : Registry
taken = record { domains = codes "r-a" ∷ []; messages = [] }

abbrev refused : Scenario
refused = record {
  name = codes "s";
  rfc = [];
  matrix = [];
  steps = create (codes "a") (some (record { code = pos 2302; fields = end })) ∷ [];
  overrides = [];
}

-- The domain existed before the run, whose only step expects to be refused and passes; the cleanup
-- of the run deletes it all the same.
refused_create : Bool × List Bytes
refused_create = (
  (run_scenario sample outside refused (codes "f") (codes "r") taken).0.passed,
  (run_cleanup sample
      (run_scenario sample outside refused (codes "f") (codes "r") taken).1).domains,
)

refused_create_deletes : refused_create ≡ (true, [])
unfolding refused_create run_scenario run_steps run_step dispatch exec_op exec op_table settle
    capture_step cleanup_for override_params interpolate_params interpolate_value
    inject_run_id_prefix prefixed string_param lookup get put text_eq has_prefix run_cleanup
    clean_from clean assert_expect assert_code check_fields mem remove single_result
    interpolate_string match_ref
refused_create_deletes = refl

remove_absent : (n : Bytes) (ns : List Bytes) → mem n ns ≡ false → remove n ns ≡ ns
unfolding mem remove
remove_absent n [] absent = refl
remove_absent n (m ∷ ns) absent = ground (arith, remove_absent n ns)

remove_first : (n : Bytes) (ns : List Bytes) → remove n (n ∷ ns) ≡ remove n ns
unfolding remove
remove_first n ns = rw (text_eq_refl n) refl

abbrev names : Registry → List Bytes
names s = s.domains

names-Respects : Respects sample names
unfolding clean
names-Respects (delete_domain n) s t same = ap (remove n) same
names-Respects (delete_contact id) s t same = same
names-Respects (delete_host n) s t same = same

abbrev created : Scenario
created = record scenario { steps = create (codes "a") none ∷ [] }

create-IsUndone : IsUndone sample names outside created (codes "r") (create (codes "a") none)
unfolding run_step dispatch exec_op exec op_table settle capture_step cleanup_for override_params
    interpolate_params interpolate_value inject_run_id_prefix prefixed string_param lookup get put
    text_eq has_prefix clean assert_expect single_result interpolate_string match_ref clean_all
    newest_first assert_unexpected
create-IsUndone r = elim (Bool-cases (mem (codes "r-a") r.session.domains)) [
  | inl taken ↦ rw taken ([], sym (append-nil r.cleanups), refl)
  | inr free ↦ rw free (
    delete_domain (codes "r-a") ∷ [],
    refl,
    remove_first (codes "r-a") r.session.domains
        ∙ remove_absent (codes "r-a") r.session.domains free,
  )
]

run_cleanup-restores_example :
    names (run_cleanup sample (run_scenario sample outside created (codes "f") (codes "r") empty).1)
    ≡ names empty
run_cleanup-restores_example =
    run_cleanup-restores sample names outside created (codes "r") names-Respects
      (create-IsUndone, tt) (codes "f") empty
