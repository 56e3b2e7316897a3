-- ===== src/Fault/Engine.antt =====
-- pkg/fault/engine.go: the state of one connection. The two counters start at 0 and grow by one
-- for each frame, so the wrap of a Go `int` is out of their reach and they are plain numbers.
use epp_test.Base.{
  ℕ, ◌+◌, Bool, true, false, ◌&&◌, ◌||◌, not, List, [], ◌∷◌, Option, none, some, if◌then◌else◌,
  length,
}
use epp_test.Base.Int.{ℤ, pos, ltb_ℤ, leb_ℤ, add_i64}
use epp_test.Base.Text.{Bytes, codes, text_eq, contains}
use epp_test.Frame.{Writer, write, put_u32, u32, header_len}
use epp_test.Fault.{FaultAction, allow, deny, hang, disconnect, mismatch, PerOpRule, FaultProfile}

pub record FaultEngine : Type 0 where
  pub profile : FaultProfile
  pub login_attempts : ℕ
  pub op_count : ℕ
  pub fault_fired : Bool

-- `NewFaultEngine`
abbrev pub new_engine : FaultProfile → FaultEngine
new_engine p = record { profile = p; login_attempts = 0; op_count = 0; fault_fired = false }

-- `OnConnect`: how long it sleeps, if it does, and the action.
unfoldable pub on_connect : FaultEngine → Option ℤ × FaultAction
on_connect e = (
  if ltb_ℤ (pos 0) e.profile.connect_delay then some e.profile.connect_delay else none,
  if text_eq e.profile.disconnect_at (codes "pre-greeting") then disconnect else allow,
)

-- `AfterGreeting`
unfoldable pub after_greeting : FaultEngine → FaultAction
after_greeting e =
    if text_eq e.profile.disconnect_at (codes "post-greeting") then disconnect else allow

-- The switch of `OnLoginAttempt` at the given number of attempts.
unfoldable pub login_action : FaultProfile → ℕ → FaultAction
login_action p attempts =
    if text_eq p.login_mode (codes "always")
    then deny
    else if text_eq p.login_mode (codes "flap")
    then (if leb_ℤ (pos attempts) p.login_fail_count then deny else allow)
    else if text_eq p.login_mode (codes "hang")
    then hang
    else if text_eq p.login_mode (codes "disconnect")
    then disconnect
    else allow

-- `OnLoginAttempt`
unfoldable pub on_login_attempt : FaultEngine → FaultEngine × FaultAction
on_login_attempt e =
    let attempts = e.login_attempts + 1 in
    (record e { login_attempts = attempts }, login_action e.profile attempts)

-- The loop over `PerOp`, the first match ending it.
unfoldable pub scan_rules : List PerOpRule → Bytes → ℤ → Option (FaultAction × ℤ)
scan_rules [] op total = none
scan_rules (r ∷ rs) op total =
    let rest = scan_rules rs op total in
    if text_eq r.match [] || not (contains op r.match)
    then rest
    else if r.disconnects
    then some (disconnect, pos 0)
    else some (if r.mismatches then mismatch else allow, add_i64 total r.delay)

-- What `OnOperation` does once the count has let the operation through.
unfoldable pub operation_action : FaultProfile → Bytes → FaultAction × ℤ
operation_action p op = elim (scan_rules p.per_op op p.response_delay) [
  | some hit ↦ hit
  | none ↦
      if not (text_eq p.fault_mismatch []) && contains op p.fault_mismatch
      then (mismatch, p.response_delay)
      else (allow, p.response_delay)
]

-- `OnOperation`
unfoldable pub on_operation : FaultEngine → Bytes → FaultEngine × FaultAction × ℤ
on_operation e op =
    let count = e.op_count + 1 in
    let (action, delay) = operation_action e.profile op in
    if ltb_ℤ (pos 0) e.profile.disconnect_after && ltb_ℤ e.profile.disconnect_after (pos count)
    then (record e { op_count = count }, disconnect, pos 0)
    else (record e { op_count = count }, action, delay)

abbrev pub invalid_xml_body : Bytes
invalid_xml_body = codes "<?xml version=\"1.0\"?><not valid xml<<<"

abbrev pub garbage_body : Bytes
garbage_body = 0xFF ∷ 0xFE ∷ 0x00 ∷ 0x01 ∷ 0xDE ∷ 0xAD ∷ 0xBE ∷ 0xEF ∷ []

-- The header and the body that `length_overflow` writes; a failed header stops it.
overflow_written : Writer × Bool → Bytes → Writer
overflow_written (w, sent) body = if sent then (write w body).0 else w

-- `ApplyResponseFault`: the engine, the connection, and the body (`none` for nil) with the action.
unfoldable pub apply_response_fault :
    FaultEngine → Writer → Bytes → FaultEngine × Writer × Option Bytes × FaultAction
unfolding overflow_written
apply_response_fault e conn body =
    let fired = record e { fault_fired = true } in
    if e.fault_fired || text_eq e.profile.malformed_frame []
    then (e, conn, some body, allow)
    else if text_eq e.profile.malformed_frame (codes "length_overflow")
    then (
      fired,
      overflow_written (write conn (put_u32 (u32 (length body + header_len + 100)))) body,
      none,
      disconnect,
    )
    else if text_eq e.profile.malformed_frame (codes "invalid_xml")
    then (fired, conn, some invalid_xml_body, allow)
    else if text_eq e.profile.malformed_frame (codes "garbage")
    then (fired, conn, some garbage_body, allow)
    else (e, conn, some body, allow)
