-- ===== src/Fault.antt =====
-- Fault simulation of the standalone mock servers: pkg/fault (action.go, profile.go).
-- `Engine` is engine.go, and `History` what a whole connection does to it.
pub mod Engine
pub mod Durations
pub mod History
pub mod Rules
pub mod Response
mod Tests
use epp_test.Base.{ℕ, zero, suc, Bool, false, List, [], ◌∷◌, Option, none, some, if◌then◌else◌}
use epp_test.Base.Int.{ℤ, pos}
use epp_test.Base.Text.{Bytes, text_eq}

pub data FaultAction : Type 0 where
  allow deny hang disconnect mismatch : FaultAction

-- A duration is a number of nanoseconds. `Delay` is the text, `delay` what it stands for.
pub record PerOpRule : Type 0 where
  pub match : Bytes
  pub delay_text : Bytes
  pub result_code : ℤ
  pub mismatches : Bool
  pub disconnects : Bool
  pub delay : ℤ

pub record FaultProfile : Type 0 where
  pub connect_delay_text : Bytes
  pub response_delay_text : Bytes
  pub login_mode : Bytes
  pub login_fail_count : ℤ
  pub disconnect_at : Bytes
  pub disconnect_after : ℤ
  pub malformed_frame : Bytes
  pub fault_mismatch : Bytes
  pub per_op : List PerOpRule
  pub connect_delay : ℤ
  pub response_delay : ℤ

-- `FaultProfile{}`
abbrev pub no_faults : FaultProfile
no_faults = record {
  connect_delay_text = [];
  response_delay_text = [];
  login_mode = [];
  login_fail_count = pos 0;
  disconnect_at = [];
  disconnect_after = pos 0;
  malformed_frame = [];
  fault_mismatch = [];
  per_op = [];
  connect_delay = pos 0;
  response_delay = pos 0;
}

pub data ProfileError : Type 0 where
  bad_connect_delay bad_response_delay : ProfileError
  bad_rule_delay : ℕ → ProfileError
  unreadable unparsable : ProfileError

-- `time.ParseDuration`, with `none` for its error, is a parameter.
module _ (parse_duration : Bytes → Option ℤ) where
  -- One text field: an empty text keeps the duration that was there.
  unfoldable pub resolve : Bytes → ℤ → Option ℤ
  resolve text old = if text_eq text [] then some old else parse_duration text

  -- The loop over `p.PerOp` from index `i`; rules behind a bad one are left as they are.
  unfoldable pub resolve_rules : ℕ → List PerOpRule → List PerOpRule × Option ProfileError
  resolve_rules i [] = ([], none)
  resolve_rules i (r ∷ rs) =
      let (rs', e) = resolve_rules (suc i) rs in
      elim (resolve r.delay_text r.delay) [
        | none ↦ (r ∷ rs, some (bad_rule_delay i))
        | some d ↦ (record r { delay = d } ∷ rs', e)
      ]

  -- `ParseDurations`: the profile as it is left, and the error if there is one.
  unfoldable pub parse_durations : FaultProfile → FaultProfile × Option ProfileError
  unfolding resolve_rules
  parse_durations p = elim (resolve p.connect_delay_text p.connect_delay) [
    | none ↦ (p, some bad_connect_delay)
    | some c ↦ elim (resolve p.response_delay_text p.response_delay) [
      | none ↦ (record p { connect_delay = c }, some bad_response_delay)
      | some r ↦
          let (rules, e) = resolve_rules 0 p.per_op in
          (record p { connect_delay = c; response_delay = r; per_op = rules }, e)
    ]
  ]

-- `LoadProfile`: reading the file and its YAML are parameters.
unfoldable pub load_profile :
    (Bytes → Option Bytes)
    → (Bytes → Option FaultProfile)
    → Bytes
    → FaultProfile × Option ProfileError
load_profile read_file unmarshal path =
    if text_eq path [] then (no_faults, none) else elim (read_file path) [
      | none ↦ (no_faults, some unreadable)
      | some bytes ↦ elim (unmarshal bytes) [
        | none ↦ (no_faults, some unparsable)
        | some p ↦ (p, none)
      ]
    ]
