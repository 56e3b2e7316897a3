-- ===== src/MockEppServer.antt =====
-- The standalone EPP mock server: cmd/mock-epp-server/main.go, over the fault engine. `Text` finds
-- elements in a command, `Answers` builds the responses. The counter of the transaction IDs is the
-- program's; a connection has it to itself here. The clock is a parameter, and stands still during
-- a connection. Deadlines, delays, logging, the certificate and the listener are left out.
pub mod Text
pub mod Answers
pub mod Echo
pub mod Skipped
pub mod Found
pub mod Names
pub mod Greets
pub mod Dialogue
pub mod Sans
mod Tests
use epp_test.Base.{
  ℕ, zero, suc, Bool, true, false, ◌||◌, List, [], ◌∷◌, ◌++◌, Option, none, some, if◌then◌else◌,
  length,
}
use epp_test.Base.Int.{ℤ}
use epp_test.Base.Text.{Bytes, codes, contains}
use epp_test.Base.Result.{ok, err}
use epp_test.Frame.{Writer, read_frame, write_frame}
use epp_test.Fault.{
  FaultAction, allow, deny, hang, disconnect, mismatch, FaultProfile, ProfileError, load_profile,
  parse_durations, no_faults,
}
use epp_test.Fault.Engine.{
  FaultEngine, new_engine, on_connect, after_greeting, on_login_attempt, on_operation,
  apply_response_fault,
}
use Text.{has_element, echo_cl_trid}
use Answers.{
  Clock, greeting, build_resp, resp_1000, resp_1500, resp_2000, domain_mismatch_resp,
  contact_mismatch_resp, domain_check_resp,
}

-- The command line flags that were set, each with its value.
pub record Flags : Type 0 where
  pub connect_delay : Option Bytes
  pub login_mode : Option Bytes
  pub login_fail_count : Option ℤ
  pub response_delay : Option Bytes
  pub disconnect_after : Option ℤ
  pub malformed_frame : Option Bytes
  pub fault_mismatch : Option Bytes

abbrev or_else : {A : Type 0} → Option A → A → A
or_else none old = old
or_else (some new) old = new

-- `flag.Visit` with the switch of `loadFaultProfile`.
unfoldable pub apply_flags : Flags → FaultProfile → FaultProfile
apply_flags flags p = record p {
  connect_delay_text = or_else flags.connect_delay p.connect_delay_text;
  login_mode = or_else flags.login_mode p.login_mode;
  login_fail_count = or_else flags.login_fail_count p.login_fail_count;
  response_delay_text = or_else flags.response_delay p.response_delay_text;
  disconnect_after = or_else flags.disconnect_after p.disconnect_after;
  malformed_frame = or_else flags.malformed_frame p.malformed_frame;
  fault_mismatch = or_else flags.fault_mismatch p.fault_mismatch;
}

-- `loadFaultProfile`; the file system, its YAML and `time.ParseDuration` are parameters.
unfoldable pub load_fault_profile :
    (Bytes → Option Bytes)
    → (Bytes → Option FaultProfile)
    → (Bytes → Option ℤ)
    → Bytes
    → Flags
    → FaultProfile × Option ProfileError
load_fault_profile read_file unmarshal parse_duration path flags =
    let (profile, e) = load_profile read_file unmarshal path in
    elim e [
      | some failed ↦ (no_faults, some failed)
      | none ↦ parse_durations parse_duration (apply_flags flags profile)
    ]

-- A connection: whether its handler goes on, the engine, the client's side, and the counter.
pub record Session : Type 0 where
  pub serving : Bool
  pub engine : FaultEngine
  pub writer : Writer
  pub sv_trid : ℕ

abbrev stop : Session → Session
stop s = record s { serving = false }

-- Writes a frame; an error of the writer ends the handler.
unfoldable pub write_answer : Bytes → Session → Session
write_answer body s =
    let (w, e) = write_frame s.writer body in
    record s { serving = elim e [ none ↦ true | some _ ↦ false ]; writer = w }

-- Writes a response that draws the next transaction ID.
unfoldable pub reply : (ℕ → Bytes) → Session → Session
unfolding write_answer
reply build s = let n = suc s.sv_trid in write_answer (build n) (record s { sv_trid = n })

-- The answer to a login behind `OnLoginAttempt`; with `hang` the client gets none.
unfoldable pub answer_login : FaultAction → Bytes → Session → Session
answer_login hang id s = s
answer_login disconnect id s = stop s
answer_login deny id s =
    reply (build_resp 2200 (codes "Authentication error; server closing connection") id) s
answer_login allow id s = reply (resp_1000 id) s
answer_login mismatch id s = reply (resp_1000 id) s

is_disconnect : FaultAction → Bool
is_disconnect disconnect = true
is_disconnect _ = false

abbrev or_no_body : Option Bytes → Bytes
or_no_body none = []
or_no_body (some body) = body

module _ (clock : Clock) where
  -- The response to a mismatch.
  unfoldable pub mismatch_response : Bytes → ℕ → Bytes
  mismatch_response xml n =
      if contains xml (codes "domain:create")
      then domain_mismatch_resp clock (echo_cl_trid xml) n
      else if contains xml (codes "contact:create")
      then contact_mismatch_resp clock (echo_cl_trid xml) n
      else resp_1000 (echo_cl_trid xml) n

  -- The dispatch table, with the counter behind it: a greeting draws no transaction ID.
  unfoldable pub dispatched : Bytes → ℕ → Bytes × ℕ
  dispatched xml n =
      if has_element (codes "hello") xml
      then (greeting clock, n)
      else if contains xml (codes "domain:check")
      then (domain_check_resp xml (suc n), suc n)
      else if contains xml (codes "domain:")
          || contains xml (codes "contact:")
          || contains xml (codes "host:")
      then (resp_1000 (echo_cl_trid xml) (suc n), suc n)
      else (resp_2000 (suc n), suc n)

  -- The response body of an operation that `OnOperation` let through.
  unfoldable pub operation_response : FaultAction → Bytes → ℕ → Bytes × ℕ
  operation_response mismatch xml n = (mismatch_response xml (suc n), suc n)
  operation_response allow xml n = dispatched xml n
  operation_response deny xml n = dispatched xml n
  operation_response hang xml n = dispatched xml n
  operation_response disconnect xml n = dispatched xml n

  -- The end of the loop's body: the fault of the response, and writing what it leaves.
  unfoldable pub send_response : Bytes → Session → Session
  unfolding is_disconnect
  send_response body s =
      let (engine, w, faulty, action) = apply_response_fault s.engine s.writer body in
      let s' = record s { engine = engine; writer = w } in
      if is_disconnect action then stop s' else write_answer (or_no_body faulty) s'

  -- An operation that is neither a login nor a logout.
  unfoldable pub serve_operation : Bytes → Session → Session
  unfolding is_disconnect
  serve_operation xml s =
      let (engine, action, delay) = on_operation s.engine xml in
      let s1 = record s { engine = engine } in
      let (body, n) = operation_response action xml s.sv_trid in
      if is_disconnect action then stop s1 else send_response body (record s1 { sv_trid = n })

  -- The body of the loop in `handleConn`, for one frame.
  unfoldable pub serve_frame : Bytes → Session → Session
  serve_frame xml s =
      if has_element (codes "login") xml
      then (let (engine, action) = on_login_attempt s.engine in
          answer_login action (echo_cl_trid xml) (record s { engine = engine }))
      else if has_element (codes "logout") xml
      then stop (reply (resp_1500 (echo_cl_trid xml)) s)
      else serve_operation xml s

  -- The loop of `handleConn` over the bytes that the client sends; a frame has at least four.
  unfoldable pub session_loop : ℕ → Bytes → Session → Session
  session_loop zero input s = stop s
  session_loop (suc fuel) input s = elim (read_frame input) [
    | err e ↦ stop s
    | ok (frame, rest) ↦
        let s' = serve_frame frame s in
        let after = session_loop fuel rest s' in if s'.serving then after else s'
  ]

  abbrev pub new_session : FaultProfile → Writer → ℕ → Session
  new_session profile w n = record {
    serving = true;
    engine = new_engine profile;
    writer = w;
    sv_trid = n;
  }

  -- `handleConn` before its loop
  unfoldable pub greet : FaultProfile → Writer → ℕ → Session
  unfolding is_disconnect
  greet profile w n =
      let s = new_session profile w n in
      let greeted = write_answer (greeting clock) s in
      if is_disconnect (on_connect s.engine).1
      then stop s
      else if greeted.serving
      then (if is_disconnect (after_greeting s.engine) then stop greeted else greeted)
      else greeted

  -- `handleConn`
  unfoldable pub run_session : FaultProfile → Bytes → Writer → ℕ → Session
  run_session profile input w n =
      let s = greet profile w n in
      let served = session_loop (suc (length input)) input s in if s.serving then served else s
