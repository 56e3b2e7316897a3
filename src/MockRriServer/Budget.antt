-- ===== src/MockRriServer/Budget.antt =====
-- A connection to the standalone RRI mock server whose profile closes it after some operations.
use epp_test.Base.{
  ℕ, zero, suc, ◌+◌, ◌-◌, ◌<◌, ◌≡◌, refl, ap, ◌∙◌, List, [], ◌∷◌, none, arith, All, if◌then◌else◌,
  length, Bool-cases, inl, inr, ltb, min,
}
use epp_test.Base.Int.{pos}
use epp_test.Base.Text.{Bytes, codes, text_eq}
use epp_test.Frame.{fresh}
use epp_test.Fault.{FaultProfile, allow, disconnect}
use epp_test.Fault.Engine.{FaultEngine, on_connect, after_greeting}
use epp_test.RriMock.Server.Session.{wire, IsPayload, read_one, read_nothing, length-wire}
use epp_test.MockRriServer.{Session, serve_frame, session_loop, run_session, new_session}
use epp_test.MockRriServer.Query.{IsQuery, IsLimited, counted, serve_frame-within, serve_frame-over}

IsLimited-next :
    (n : ℕ) (s s' : Session)
    → IsLimited n s
    → s.engine.op_count < n
    → s'.engine ≡ counted s.engine
    → s'.writer.calls_left ≡ none
    → IsLimited n s'
unfolding counted
IsLimited-next n s s' lim room same open_end = record {
  limit = ap (λ e. e.profile.disconnect_after) same ∙ lim.limit;
  positive = lim.positive;
  no_rules = ap (λ e. e.profile.per_op) same ∙ lim.no_rules;
  within = omega (arith, ap (λ e. e.op_count) same);
  open_end = open_end;
}

session_loop-step :
    (fuel : ℕ) (f : Bytes) (fs : List Bytes) (s : Session)
    → IsPayload f
    → (session_loop (suc fuel) (wire (f ∷ fs)) s).stid ≡ (
        if (serve_frame f s).serving
        then (session_loop fuel (wire fs) (serve_frame f s)).stid
        else (serve_frame f s).stid)
unfolding session_loop wire
session_loop-step fuel f fs s one = rw (read_one f (wire fs) one, session_loop) (ground arith)

session_loop-stid :
    (n : ℕ) (fs : List Bytes) (fuel : ℕ) (s : Session)
    → IsLimited n s
    → All IsPayload fs
    → All IsQuery fs
    → length fs < fuel
    → (session_loop fuel (wire fs) s).stid ≡ s.stid + min (n - s.engine.op_count) (length fs)
unfolding session_loop wire counted
session_loop-stid n fs zero s lim fit queries enough = elim enough [ ]
session_loop-stid n [] (suc fuel) s lim fit queries enough =
    rw (read_nothing, session_loop) (omega arith)
session_loop-stid n (f ∷ fs) (suc fuel) s lim (one, fit) (query, queries) enough =
    elim (Bool-cases (ltb s.engine.op_count n)) [
      | inl room ↦
          let (on, next, counts, open_end) = serve_frame-within n f s lim query (ground arith) in
          let s' = serve_frame f s in
          let later =
            session_loop-stid n fs fuel s'
              (IsLimited-next n s s' lim (ground arith) counts open_end) fit queries
              (omega arith) in
          session_loop-step fuel f fs s one
          ∙ ap (λ b. if b then (session_loop fuel (wire fs) s').stid else s'.stid) on
          ∙ later
          ∙ ground (arith, ap (λ e. e.op_count) counts)
      | inr full ↦
          let (off, same) = serve_frame-over n f s lim query (ground arith) in
          let s' = serve_frame f s in
          session_loop-step fuel f fs s one
          ∙ ap (λ b. if b then (session_loop fuel (wire fs) s').stid else s'.stid) off
          ∙ same
          ∙ ground arith
    ]

connects : (e : FaultEngine) → e.profile.disconnect_at ≡ [] → (on_connect e).1 ≡ allow
unfolding on_connect text_eq
connects e never = ap (λ t. if text_eq t (codes "pre-greeting") then disconnect else allow) never

goes_on : (e : FaultEngine) → e.profile.disconnect_at ≡ [] → after_greeting e ≡ allow
unfolding after_greeting text_eq
goes_on e never = ap (λ t. if text_eq t (codes "post-greeting") then disconnect else allow) never

-- Under a profile with `DisconnectAfter` set to a positive `n`, no rules and no disconnection at
-- the start, for a client that sends queries, each of 1 to 65536 bytes and none of them a LOGIN or
-- a LOGOUT, over a connection that takes all writes: the server draws as many STIDs, one for each
-- response, as there are queries, or `n` where there are more.
pub run_session-budget :
    (n : ℕ) (p : FaultProfile) (fs : List Bytes) (stid : ℕ)
    → p.disconnect_after ≡ pos n
    → 0 < n
    → p.per_op ≡ []
    → p.disconnect_at ≡ []
    → All IsPayload fs
    → All IsQuery fs
    → (run_session p (wire fs) fresh stid).stid ≡ stid + min n (length fs)
unfolding run_session
run_session-budget n p fs stid limit positive no_rules never fit queries =
    let s = new_session p fresh stid in
    let served =
      session_loop-stid n fs (suc (length (wire fs))) s
        (record {
          limit = limit;
          positive = positive;
          no_rules = no_rules;
          within = omega arith;
          open_end = refl;
        })
        fit queries (omega (arith, length-wire fs)) in
    rw (connects s.engine never, goes_on s.engine never, run_session) (served ∙ omega arith)
