-- ===== src/MockRriServer.antt =====
-- The standalone RRI mock server: cmd/mock-rri-server/main.go, over the fault engine. The STID
-- counter is the program's; a connection has it to itself here. Deadlines and logging are left out.
pub mod Query
pub mod Budget
mod Tests
use epp_test.Base.{
  ℕ, zero, suc, Bool, true, false, List, [], ◌∷◌, ◌++◌, Option, none, some, if◌then◌else◌, length,
}
use epp_test.Base.Int.{ℤ}
use epp_test.Base.Text.{Bytes, codes, text_eq, to_upper}
use epp_test.Base.Decimal.{decimal}
use epp_test.Base.Result.{ok, err}
use epp_test.Frame.{Writer, read_rri_frame, write_rri_frame}
use epp_test.Fault.{
  FaultAction, allow, deny, hang, disconnect, mismatch, FaultProfile, ProfileError, load_profile,
  parse_durations, no_faults,
}
use epp_test.Fault.Engine.{
  FaultEngine, new_engine, on_connect, after_greeting, on_login_attempt, on_operation,
}
use epp_test.RriMock.Kv.{parse_kv, values}

-- The command line flags that were set, each with its value.
pub record Flags : Type 0 where
  pub connect_delay : Option Bytes
  pub login_mode : Option Bytes
  pub login_fail_count : Option ℤ
  pub response_delay : Option Bytes
  pub disconnect_after : Option ℤ

abbrev or_else : {A : Type 0} → Option A → A → A
or_else none old = old
or_else (some new) old = new

-- `flag.Visit` with the switch of `loadFaultProfile`.
unfoldable pub apply_flags : Flags → FaultProfile → FaultProfile
apply_flags flags p = record p {
  connect_delay_text = or_else flags.connect_delay p.connect_delay_text;
  login_mode = or_else flags.login_mode p.login_mode;
  login_fail_count = or_else flags.login_fail_count p.login_fail_count;
  response_delay_text = or_else flags.response_delay p.response_delay_text;
  disconnect_after = or_else flags.disconnect_after p.disconnect_after;
}

-- `loadFaultProfile`; the file system, its YAML and `time.ParseDuration` are parameters.
unfoldable pub load_fault_profile :
    (Bytes → Option Bytes)
    → (Bytes → Option FaultProfile)
    → (Bytes → Option ℤ)
    → Bytes
    → Flags
    → FaultProfile × Option ProfileError
load_fault_profile read_file unmarshal parse_duration path flags =
    let (profile, e) = load_profile read_file unmarshal path in
    elim e [
      | some failed ↦ (no_faults, some failed)
      | none ↦ parse_durations parse_duration (apply_flags flags profile)
    ]

-- `firstAction`
unfoldable pub first_action : Bytes → Bytes
first_action frame = elim (values (parse_kv frame) (codes "action")) [ [] ↦ [] | v ∷ vs ↦ v ]

-- A connection: whether its handler goes on, the engine, the client's side, and the STID counter.
pub record Session : Type 0 where
  pub serving : Bool
  pub engine : FaultEngine
  pub writer : Writer
  pub stid : ℕ

abbrev stop : Session → Session
stop s = record s { serving = false }

-- A response with the next STID; an error of the writer ends the handler.
unfoldable pub reply : Bytes → Session → Session
reply result s =
    let stid = suc s.stid in
    let (w, e) =
      write_rri_frame s.writer
        (codes "RESULT: " ++ (result ++ (codes "\nSTID: " ++ (decimal stid ++ codes "\n")))) in
    record s { serving = elim e [ none ↦ true | some _ ↦ false ]; writer = w; stid = stid }

-- The case LOGIN behind `OnLoginAttempt`; with `hang` the client gets no answer.
unfoldable pub answer_login : FaultAction → Session → Session
answer_login hang s = s
answer_login disconnect s = stop s
answer_login deny s = reply (codes "failed") s
answer_login allow s = reply (codes "success") s
answer_login mismatch s = reply (codes "success") s

-- The default case behind `OnOperation`.
unfoldable pub answer_query : FaultAction → Session → Session
answer_query disconnect s = stop s
answer_query allow s = reply (codes "success") s
answer_query deny s = reply (codes "success") s
answer_query hang s = reply (codes "success") s
answer_query mismatch s = reply (codes "success") s

-- The switch of the loop, on whether the action is LOGIN or LOGOUT.
unfoldable pub serve_action : Bool → Bool → Bytes → Session → Session
serve_action true logout frame s =
    let (engine, action) = on_login_attempt s.engine in
    answer_login action (record s { engine = engine })
serve_action false true frame s = stop (reply (codes "success") s)
serve_action false false frame s =
    let (engine, action, delay) = on_operation s.engine frame in
    answer_query action (record s { engine = engine })

-- The body of the loop in `handleConn`, for one frame.
unfoldable pub serve_frame : Bytes → Session → Session
serve_frame frame s =
    let action = to_upper (first_action frame) in
    serve_action (text_eq action (codes "LOGIN")) (text_eq action (codes "LOGOUT")) frame s

-- The loop of `handleConn` over the bytes that the client sends; a frame has at least four.
unfoldable pub session_loop : ℕ → Bytes → Session → Session
session_loop zero input s = stop s
session_loop (suc fuel) input s = elim (read_rri_frame input) [
  | err e ↦ stop s
  | ok (frame, rest) ↦
      let s' = serve_frame frame s in
      let after = session_loop fuel rest s' in if s'.serving then after else s'
]

is_disconnect : FaultAction → Bool
is_disconnect disconnect = true
is_disconnect _ = false

abbrev pub new_session : FaultProfile → Writer → ℕ → Session
new_session profile w stid = record {
  serving = true;
  engine = new_engine profile;
  writer = w;
  stid = stid;
}

-- `handleConn`
unfoldable pub run_session : FaultProfile → Bytes → Writer → ℕ → Session
unfolding is_disconnect
run_session profile input w stid =
    let s = new_session profile w stid in
    let served = session_loop (suc (length input)) input s in
    if is_disconnect (on_connect s.engine).1
    then stop s
    else if is_disconnect (after_greeting s.engine)
    then stop s
    else served
