-- ===== src/MockEppServer/Dialogue.antt =====
-- What a client of the standalone EPP mock server reads, where the profile simulates no faults but
-- refused logins.
use epp_test.Base.{
  ℕ, zero, suc, ◌+◌, ◌-◌, ◌<◌, ◌≡◌, refl, sym, ap, ◌∙◌, ◌⊎◌, inl, inr, Bool, true, false, List, [],
  ◌∷◌, ◌++◌, append-nil, append_assoc, none, some, if◌then◌else◌, Bool-cases, length, All, arith,
}
use epp_test.Base.Int.{pos}
use epp_test.Base.Text.{Bytes, codes, text_eq}
use epp_test.Frame.{Writer, fresh, write_frame}
use epp_test.Frame.RoundTrip.{write_frame-written, write_frame-open}
use epp_test.Fault.{FaultProfile, allow, deny}
use epp_test.Fault.Engine.{
  FaultEngine, new_engine, on_connect, after_greeting, on_login_attempt, login_action, on_operation,
  operation_action, scan_rules, apply_response_fault,
}
use epp_test.EppMock.Sent.{framed, Sent}
use epp_test.EppMock.Stream.{wire, FitsFrame, read_framed, read_nothing, length-wire}
use epp_test.MockEppServer.Text.{has_element, echo_cl_trid}
use epp_test.MockEppServer.Answers.{Clock, greeting, build_resp, resp_1000, resp_1500}
use epp_test.MockEppServer.{
  Session, is_disconnect, write_answer, reply, answer_login, operation_response, send_response,
  serve_operation, serve_frame, session_loop, new_session, greet, run_session, dispatched,
}

-- A profile without faults but for the first `k` logins.
pub record IsCalm (p : FaultProfile) (k : ℕ) : Type 0 where
  pub keeps_on : p.disconnect_at ≡ []
  pub never_after : p.disconnect_after ≡ pos 0
  pub no_rules : p.per_op ≡ []
  pub no_mismatch : p.fault_mismatch ≡ []
  pub well_formed : p.malformed_frame ≡ []
  pub logins :
      ((p.login_mode ≡ codes "flap") × (p.login_fail_count ≡ pos k))
      ⊎ ((p.login_mode ≡ []) × (k ≡ 0))

-- The answer to a login while `k` more are refused.
abbrev pub login_answer : ℕ → Bytes → ℕ → Bytes
login_answer zero id n = resp_1000 id n
login_answer (suc k) id n =
    build_resp 2200 (codes "Authentication error; server closing connection") id n

abbrev pred : ℕ → ℕ
pred zero = zero
pred (suc k) = k

pred-sub : (k a k0 : ℕ) → k ≡ k0 - a → pred k ≡ k0 - (a + 1)
pred-sub zero a k0 e = omega arith
pred-sub (suc k) a k0 e = omega arith

-- What the server sends for some frames, with `k` logins to refuse and the counter at `n`: one
-- response for each, up to a logout.
unfoldable pub answers : Clock → ℕ → ℕ → List Bytes → Bytes
unfolding framed
answers clock k n [] = []
answers clock k n (f ∷ fs) =
    let after_login = answers clock (pred k) (suc n) fs in
    let (body, n') = dispatched clock f n in
    let after_command = answers clock k n' fs in
    if has_element (codes "login") f
    then framed (login_answer k (echo_cl_trid f) (suc n)) ++ after_login
    else if has_element (codes "logout") f
    then framed (resp_1500 (echo_cl_trid f) (suc n))
    else framed body ++ after_command

pub write_answer-Sent :
    (body : Bytes) (s : Session)
    → s.writer.calls_left ≡ none
    → (w' : Writer) × (write_answer body s ≡ record s { serving = true; writer = w' })
      × Sent s.writer w' (framed body)
unfolding write_answer framed
write_answer-Sent body s h =
    let (stays, clean) = write_frame-open s.writer body h in
    let (out, _) = write_frame-written s.writer body h in
    let (out', _) = write_frame-written fresh body refl in
    (
      (write_frame s.writer body).0,
      rw (clean, write_answer) refl,
      record { is_open = stays; behind = out ∙ ap (λ x. s.writer.written ++ x) (sym out') },
    )

module _ (p : FaultProfile) (k0 : ℕ) (calm : IsCalm p k0) where
  abbrev pub engine_at : ℕ → ℕ → Bool → FaultEngine
  engine_at a o f = record { profile = p; login_attempts = a; op_count = o; fault_fired = f }

  on_operation-calm :
      (a o : ℕ) (f : Bool) (xml : Bytes)
      → on_operation (engine_at a o f) xml ≡ (engine_at a (o + 1) f, allow, p.response_delay)
  unfolding on_operation operation_action scan_rules text_eq
  on_operation-calm a o f xml = simp (calm.never_after, calm.no_rules, calm.no_mismatch)

  response-calm :
      (a o : ℕ) (f : Bool) (w : Writer) (body : Bytes)
      → apply_response_fault (engine_at a o f) w body ≡ (engine_at a o f, w, some body, allow)
  unfolding apply_response_fault text_eq
  response-calm a o true w body = refl
  response-calm a o false w body = simp (calm.well_formed)

  login-calm :
      (a k o : ℕ) (f : Bool)
      → k ≡ k0 - a
      → on_login_attempt (engine_at a o f)
        ≡ (engine_at (a + 1) o f, elim k [ zero ↦ allow | suc left ↦ deny ])
  unfolding on_login_attempt login_action text_eq
  login-calm a zero o f e = elim calm.logins [
    | inl (flap, limit) ↦ rw (flap, limit) (ground arith)
    | inr (plain, nothing) ↦ rw plain refl
  ]
  login-calm a (suc k) o f e = elim calm.logins [
    | inl (flap, limit) ↦ rw (flap, limit) (ground arith)
    | inr (plain, nothing) ↦ absurd (omega (arith, e, nothing))
  ]

  module _ (clock : Clock) where
    abbrev pub at : FaultEngine → Writer → ℕ → Session
    at e w n = record { serving = true; engine = e; writer = w; sv_trid = n }

    pub one_login :
        (f : Bytes) (a k o n : ℕ) (b : Bool) (w : Writer)
        → k ≡ k0 - a
        → w.calls_left ≡ none
        → has_element (codes "login") f ≡ true
        → (w' : Writer) × (serve_frame clock f (at (engine_at a o b) w n)
            ≡ at (engine_at (a + 1) o b) w' (suc n))
          × Sent w w' (framed (login_answer k (echo_cl_trid f) (suc n)))
    unfolding serve_frame reply answer_login
    one_login f a zero o n b w e h login =
        let (w', run, sent) =
          write_answer-Sent (resp_1000 (echo_cl_trid f) (suc n))
            (at (engine_at (a + 1) o b) w (suc n)) h in
        (w', rw (login, login-calm a zero o b e) run, sent)
    one_login f a (suc k) o n b w e h login =
        let (w', run, sent) =
          write_answer-Sent (login_answer (suc k) (echo_cl_trid f) (suc n))
            (at (engine_at (a + 1) o b) w (suc n)) h in
        (w', rw (login, login-calm a (suc k) o b e) run, sent)

    one_logout :
        (f : Bytes) (e : FaultEngine) (n : ℕ) (w : Writer)
        → w.calls_left ≡ none
        → has_element (codes "login") f ≡ false
        → has_element (codes "logout") f ≡ true
        → (w' : Writer) × (serve_frame clock f (at e w n)
            ≡ record { serving = false; engine = e; writer = w'; sv_trid = suc n })
          × Sent w w' (framed (resp_1500 (echo_cl_trid f) (suc n)))
    unfolding serve_frame reply
    one_logout f e n w h other logout =
        let (w', run, sent) =
          write_answer-Sent (resp_1500 (echo_cl_trid f) (suc n)) (at e w (suc n)) h in
        (w', rw (other, logout) (ap (λ (s : Session). record s { serving = false }) run), sent)

    pub one_command :
        (f : Bytes) (a o n : ℕ) (b : Bool) (w : Writer)
        → w.calls_left ≡ none
        → has_element (codes "login") f ≡ false
        → has_element (codes "logout") f ≡ false
        → (w' : Writer) × (serve_frame clock f (at (engine_at a o b) w n)
            ≡ at (engine_at a (o + 1) b) w' (dispatched clock f n).1)
          × Sent w w' (framed (dispatched clock f n).0)
    unfolding serve_frame serve_operation send_response is_disconnect operation_response
    one_command f a o n b w h other stays =
        let (body, n') = dispatched clock f n in
        let (w', run, sent) = write_answer-Sent body (at (engine_at a (o + 1) b) w n') h in
        (
          w',
          rw (other, stays, on_operation-calm a o b f) (rw (response-calm a (o + 1) b w body) run),
          sent,
        )

    loop-end : (fuel : ℕ) (s : Session) → (session_loop clock (suc fuel) [] s).writer ≡ s.writer
    unfolding session_loop
    loop-end fuel s = rw (read_nothing, session_loop) refl

    -- The loop at a frame, once it is known what the frame makes of the session.
    loop-frame :
        (fuel : ℕ) (f rest : Bytes) (s s' : Session)
        → FitsFrame f
        → serve_frame clock f s ≡ s'
        → session_loop clock (suc fuel) (framed f ++ rest) s
          ≡ (if s'.serving then session_loop clock fuel rest s' else s')
    unfolding session_loop
    loop-frame fuel f rest s s' fits e = rw (read_framed f rest fits, session_loop, e) refl

    Sent-on :
        {w w' : Writer} {xs out : Bytes} (ys : Bytes)
        → Sent w w' xs
        → out ≡ w'.written ++ ys
        → out ≡ w.written ++ (xs ++ ys)
    Sent-on {w} {xs} ys sent h = h ∙ ap (λ x. x ++ ys) sent.behind ∙ append_assoc w.written xs ys

    session_loop-answers :
        (fs : List Bytes) (fuel a k o n : ℕ) (b : Bool) (w : Writer)
        → All FitsFrame fs
        → k ≡ k0 - a
        → w.calls_left ≡ none
        → length fs < fuel
        → (session_loop clock fuel (wire fs) (at (engine_at a o b) w n)).writer.written
          ≡ w.written ++ answers clock k n fs
    unfolding wire answers
    session_loop-answers fs zero a k o n b w fit e h enough = elim enough [ ]
    session_loop-answers [] (suc fuel) a k o n b w fit e h enough =
        ap (λ v. v.written) (loop-end fuel (at (engine_at a o b) w n)) ∙ sym (append-nil w.written)
    session_loop-answers (f ∷ fs) (suc fuel) a k o n b w (one, fit) e h enough =
        let s = at (engine_at a o b) w n in
        elim (Bool-cases (has_element (codes "login") f)) [
          | inl login ↦
              let (w', run, sent) = one_login f a k o n b w e h login in
              let later =
                session_loop-answers fs fuel (a + 1) (pred k) o (suc n) b w' fit (pred-sub k a k0 e)
                  sent.is_open (omega arith) in
              rw login (
                ap (λ r. r.writer.written) (loop-frame fuel f (wire fs) s _ one run)
                ∙ Sent-on _ sent later)
          | inr other ↦ elim (Bool-cases (has_element (codes "logout") f)) [
            | inl logout ↦
                let (w', run, sent) = one_logout f (engine_at a o b) n w h other logout in
                rw (other, logout)
                  (ap (λ r. r.writer.written) (loop-frame fuel f (wire fs) s _ one run)
                    ∙ sent.behind)
            | inr stays ↦
                let (w', run, sent) = one_command f a o n b w h other stays in
                let later =
                  session_loop-answers fs fuel a k (o + 1) (dispatched clock f n).1 b w' fit e
                    sent.is_open (omega arith) in
                rw (other, stays)
                  (ap (λ r. r.writer.written) (loop-frame fuel f (wire fs) s _ one run)
                    ∙ Sent-on _ sent later)
          ]
        ]

stays_on :
    (p : FaultProfile)
    → p.disconnect_at ≡ []
    → ((on_connect (new_engine p)).1 ≡ allow) × (after_greeting (new_engine p) ≡ allow)
unfolding on_connect after_greeting text_eq
stays_on p e = (rw e refl, rw e refl)

pub greet-calm :
    (clock : Clock) (p : FaultProfile) (k n : ℕ)
    → IsCalm p k
    → (w' : Writer) × (greet clock p fresh n
        ≡ record (new_session clock p fresh n) { serving = true; writer = w' })
      × Sent fresh w' (framed (greeting clock))
unfolding greet is_disconnect
greet-calm clock p k n calm =
    let (w', run, sent) = write_answer-Sent (greeting clock) (new_session clock p fresh n) refl in
    let (opened, greeted) = stays_on p calm.keeps_on in (w', rw (opened, greeted, run) refl, sent)

-- Over a connection that takes all writes, with a profile that simulates no faults but the refusal
-- of the first `k` logins, a client that sends frames, each of which fits its header, gets the
-- greeting and then one response for each frame, in their order: 2200 for the first `k` logins and
-- 1000 for the later ones, the response of the dispatch table for each command, and 1500 for a
-- logout, behind which it gets nothing more.
pub run_session-answers :
    (clock : Clock) (p : FaultProfile) (k : ℕ) (fs : List Bytes) (n : ℕ)
    → IsCalm p k
    → All FitsFrame fs
    → (run_session clock p (wire fs) fresh n).writer.written
      ≡ framed (greeting clock) ++ answers clock k n fs
unfolding run_session
run_session-answers clock p k fs n calm fit =
    let (w', run, sent) = greet-calm clock p k n calm in
    let later =
      session_loop-answers p k calm clock fs (suc (length (wire fs))) 0 k 0 n false w' fit
        (omega arith) sent.is_open (omega (arith, length-wire fs)) in
    rw run (later ∙ ap (λ x. x ++ answers clock k n fs) sent.behind)
