-- ===== src/MockRriServer/Tests.antt =====
-- Concrete connections, and the theorem at one of them.
use epp_test.Base.{◌≡◌, refl, ◌+◌, [], ◌∷◌, none, some, length, arith, min}
use epp_test.Base.Int.{pos}
use epp_test.Base.Text.{
  Bytes, codes, to_upper, to_lower, trim_space, trim_left, trim_right, cut, split, lower_byte,
  upper_byte, text_eq,
}
use epp_test.Base.Dict.{lookup, insert}
use epp_test.Frame.{fresh}
use epp_test.Fault.{FaultProfile, no_faults, load_profile, parse_durations, resolve, resolve_rules}
use epp_test.RriMock.Kv.{parse_kv, parse_lines, parse_line}
use epp_test.RriMock.Server.Session.{wire}
use epp_test.MockRriServer.{run_session, first_action, load_fault_profile, apply_flags}
use epp_test.MockRriServer.Budget.{run_session-budget}
use epp_test.MockRriServer.Query.{IsQuery}

abbrev info : Bytes
info = codes "action: INFO\n"

abbrev two_operations : FaultProfile
two_operations = record no_faults { disconnect_after = pos 2 }

info-IsQuery : IsQuery info
unfolding first_action parse_kv parse_lines parse_line lookup insert to_upper to_lower trim_space
    trim_left trim_right cut split lower_byte upper_byte text_eq
info-IsQuery = (refl, refl)

run_session-budget_example :
    (run_session two_operations (wire (info ∷ info ∷ info ∷ [])) fresh 7).stid
    ≡ 7 + min 2 (length (info ∷ info ∷ info ∷ []))
run_session-budget_example =
    run_session-budget 2 two_operations (info ∷ info ∷ info ∷ []) 7 refl (omega arith) refl refl
      ((omega arith, omega arith), ((omega arith, omega arith), ((omega arith, omega arith), tt)))
      (info-IsQuery, (info-IsQuery, (info-IsQuery, tt)))

flag_wins :
    load_fault_profile
      (λ p. some [])
      (λ b. some two_operations)
      (λ t. none)
      (codes "f")
      (record {
        connect_delay = none;
        login_mode = none;
        login_fail_count = none;
        response_delay = none;
        disconnect_after = some (pos 5);
      })
    ≡ (record no_faults { disconnect_after = pos 5 }, none)
unfolding load_fault_profile apply_flags load_profile parse_durations resolve resolve_rules text_eq
flag_wins = refl
