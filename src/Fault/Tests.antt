-- ===== src/Fault/Tests.antt =====
-- Profiles of concrete connections, and the theorems at them.
use epp_test.Base.{◌≡◌, refl, true, false, List, [], ◌∷◌, Option, none, some, arith}
use epp_test.Base.Int.{ℤ, pos}
use epp_test.Base.Text.{Bytes, codes}
use epp_test.Frame.{fresh}
use epp_test.Fault.{FaultAction, allow, disconnect, PerOpRule, FaultProfile, no_faults}
use epp_test.Fault.Engine.{on_login_attempt, on_operation, apply_response_fault}
use epp_test.Fault.History.{
  EngineEvent, login, operation, response, engine_after, flap_denies_first_logins,
  disconnect_after_operations,
}
use epp_test.Fault.Response.{malformed_frame_once}

abbrev check_op : Bytes
check_op = codes "<domain:check>"

abbrev slow_rule : PerOpRule
slow_rule = record {
  match = codes "domain:";
  delay_text = codes "4";
  result_code = pos 0;
  mismatches = true;
  disconnects = false;
  delay = pos 4;
}

abbrev host_rule : PerOpRule
host_rule = record slow_rule { match = codes "host:"; disconnects = true }

abbrev flapping : FaultProfile
flapping = record no_faults {
  login_mode = codes "flap";
  login_fail_count = pos 2;
  disconnect_after = pos 1;
  malformed_frame = codes "length_overflow";
  per_op = host_rule ∷ slow_rule ∷ [];
  response_delay = pos 3;
}

abbrev events : List EngineEvent
events = login ∷ operation check_op ∷ response fresh check_op ∷ login ∷ []

third_login : (on_login_attempt (engine_after flapping events)).1 ≡ allow
third_login = flap_denies_first_logins flapping events refl

disconnect_after_operations_example :
    let result = on_operation (engine_after flapping events) check_op in
    ◌≡◌ {A = FaultAction × ℤ} (result.1, result.2) (disconnect, pos 0)
disconnect_after_operations_example = disconnect_after_operations flapping events check_op

malformed_frame_once_example :
    let e = engine_after flapping events in
    apply_response_fault e fresh check_op ≡ (e, fresh, some check_op, allow)
malformed_frame_once_example = malformed_frame_once flapping events fresh check_op (omega arith)

-- Durations of one digit.
abbrev one_digit : Bytes → Option ℤ
one_digit (c ∷ []) = some (pos c)
one_digit _ = none

abbrev texts : FaultProfile
texts = record no_faults { connect_delay_text = codes "2"; per_op = slow_rule ∷ [] }

abbrev bad_rule : FaultProfile
bad_rule = record texts { per_op = slow_rule ∷ record slow_rule { delay_text = codes "xyz" } ∷ [] }
