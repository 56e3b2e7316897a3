-- ===== src/MockEppServer/Greets.antt =====
-- What the standalone EPP mock server writes goes behind its greeting.
use epp_test.Base.{
  ℕ, zero, suc, ◌+◌, ◌<◌, ◌^◌, ◌≡◌, refl, sym, ap, subst, ◌∙◌, Bool, true, false, ◌||◌, [], ◌++◌,
  append-nil, append_assoc, Option, none, inl, inr, arith, if◌then◌else◌, length,
}
use epp_test.Base.Text.{Bytes, codes, text_eq}
use epp_test.Base.Result.{ok, Result-cases}
use epp_test.Frame.{Writer, fresh, write, write_frame, read_frame, put_u32, u32, header_len}
use epp_test.Frame.RoundTrip.{write_frame-written, write_frame-open, read_frame-write_frame}
use epp_test.Fault.{FaultAction, FaultProfile, allow, deny, hang, disconnect, mismatch}
use epp_test.Fault.Engine.{
  FaultEngine, new_engine, on_connect, after_greeting, on_login_attempt, on_operation,
  apply_response_fault,
}
use epp_test.MockEppServer.Text.{has_element, echo_cl_trid}
use epp_test.MockEppServer.Answers.{Clock, greeting, resp_1500}
use epp_test.MockEppServer.{
  Session, is_disconnect, write_answer, reply, answer_login, operation_response, send_response,
  serve_operation, serve_frame, session_loop, new_session, greet, run_session, or_no_body,
}

-- A connection that takes all writes still does, and has some more bytes.
record Grown (w w' : Writer) : Type 0 where
  more : Bytes
  is_open : w'.calls_left ≡ none
  behind : w'.written ≡ w.written ++ more

abbrev Grows : Session → Session → Type 0
Grows s s' = s.writer.calls_left ≡ none → Grown s.writer s'.writer

-- Both branches of a test.
either : {A : Type 0} (P : A → Type 0) (b : Bool) {x y : A} → P x → P y → P (if b then x else y)
either P true px py = px
either P false px py = py

Grown-nothing : (w : Writer) → w.calls_left ≡ none → Grown w w
Grown-nothing w h = record { more = []; is_open = h; behind = sym (append-nil w.written) }

Grown-then : {u v w : Writer} → Grown u v → Grown v w → Grown u w
Grown-then {u} {v} {w} first second = record {
  more = first.more ++ second.more;
  is_open = second.is_open;
  behind =
      second.behind
      ∙ ap (λ x. x ++ second.more) first.behind
      ∙ append_assoc u.written first.more second.more;
}

Grown-write :
    (w : Writer) (bs : Bytes)
    → w.calls_left ≡ none
    → Grown w (write w bs).0 × ((write w bs).1 ≡ true)
unfolding write
Grown-write w bs h =
    (record { more = bs; is_open = ground arith; behind = ground arith }, ground arith)

Grown-frame : (w : Writer) (bs : Bytes) → w.calls_left ≡ none → Grown w (write_frame w bs).0
Grown-frame w bs h = record {
  more = put_u32 (u32 (length bs + header_len)) ++ bs;
  is_open = (write_frame-open w bs h).0;
  behind = (write_frame-written w bs h).0;
}

write_answer-Grows : (body : Bytes) (s : Session) → Grows s (write_answer body s)
unfolding write_answer
write_answer-Grows body s h = Grown-frame s.writer body h

reply-Grows : (build : ℕ → Bytes) (s : Session) → Grows s (reply build s)
unfolding reply
reply-Grows build s h = Grown-frame s.writer (build (suc s.sv_trid)) h

answer_login-Grows : (a : FaultAction) (id : Bytes) (s : Session) → Grows s (answer_login a id s)
unfolding answer_login
answer_login-Grows hang id s h = Grown-nothing s.writer h
answer_login-Grows disconnect id s h = Grown-nothing s.writer h
answer_login-Grows deny id s h = reply-Grows _ s h
answer_login-Grows allow id s h = reply-Grows _ s h
answer_login-Grows mismatch id s h = reply-Grows _ s h

fault-Grown :
    (e : FaultEngine) (w : Writer) (body : Bytes)
    → w.calls_left ≡ none
    → Grown w (apply_response_fault e w body).1
unfolding apply_response_fault
fault-Grown e w body h =
    let same = Grown-nothing w h in
    let (header, _) = Grown-write w (put_u32 (u32 (length body + header_len + 100))) h in
    let (both, _) =
      Grown-write (write w (put_u32 (u32 (length body + header_len + 100)))).0 body
        header.is_open in
    either {A = FaultEngine × Writer × Option Bytes × FaultAction} (λ r. Grown w r.1)
      (e.fault_fired || text_eq e.profile.malformed_frame []) same
      (either {A = FaultEngine × Writer × Option Bytes × FaultAction} (λ r. Grown w r.1)
        (text_eq e.profile.malformed_frame (codes "length_overflow"))
        (either (Grown w) (write w (put_u32 (u32 (length body + header_len + 100)))).1
          (Grown-then header both) header)
        (either {A = FaultEngine × Writer × Option Bytes × FaultAction} (λ r. Grown w r.1)
          (text_eq e.profile.malformed_frame (codes "invalid_xml")) same
          (either {A = FaultEngine × Writer × Option Bytes × FaultAction} (λ r. Grown w r.1)
            (text_eq e.profile.malformed_frame (codes "garbage")) same same)))

-- What is written behind a frame does not change that it is read first.
read_first :
    (bs : Bytes) (w : Writer)
    → length bs + header_len < 2 ^ 32
    → Grown (write_frame fresh bs).0 w
    → (rest : Bytes) × (read_frame w.written ≡ ok (bs, rest))
read_first bs w fits grown =
    let (sent, e, clean, read) = read_frame-write_frame fresh bs refl grown.more fits in
    (grown.more, ap read_frame (grown.behind ∙ ap (λ x. x ++ grown.more) e) ∙ read)

module _ (clock : Clock) where
  send_response-Grows : (body : Bytes) (s : Session) → Grows s (send_response clock body s)
  unfolding send_response is_disconnect
  send_response-Grows body s h =
      let (engine, w, faulty, action) = apply_response_fault s.engine s.writer body in
      let first = fault-Grown s.engine s.writer body h in
      either (λ (t : Session). Grown s.writer t.writer) (is_disconnect action) first
        (Grown-then first (
          write_answer-Grows (or_no_body faulty) (record s { engine = engine; writer = w })
            first.is_open))

  serve_operation-Grows : (xml : Bytes) (s : Session) → Grows s (serve_operation clock xml s)
  unfolding serve_operation is_disconnect
  serve_operation-Grows xml s h =
      let (engine, action, delay) = on_operation s.engine xml in
      let (body, n) = operation_response clock action xml s.sv_trid in
      either (λ (t : Session). Grown s.writer t.writer) (is_disconnect action)
        (Grown-nothing s.writer h)
        (send_response-Grows body (record s { engine = engine; sv_trid = n }) h)

  serve_frame-Grows : (xml : Bytes) (s : Session) → Grows s (serve_frame clock xml s)
  unfolding serve_frame
  serve_frame-Grows xml s h =
      let (engine, action) = on_login_attempt s.engine in
      either (λ (t : Session). Grown s.writer t.writer) (has_element (codes "login") xml)
        (answer_login-Grows action (echo_cl_trid xml) (record s { engine = engine }) h)
        (either (λ (t : Session). Grown s.writer t.writer) (has_element (codes "logout") xml)
          (reply-Grows (resp_1500 (echo_cl_trid xml)) s h) (serve_operation-Grows xml s h))

  session_loop-Grows :
      (fuel : ℕ) (input : Bytes) (s : Session) → Grows s (session_loop clock fuel input s)
  unfolding session_loop
  session_loop-Grows zero input s h = Grown-nothing s.writer h
  session_loop-Grows (suc fuel) input s h = elim (Result-cases (read_frame input)) [
    | inr (e, failed) ↦ rw (failed, session_loop) (Grown-nothing s.writer h)
    | inl ((f, rest), read) ↦
        let s' = serve_frame clock f s in
        let one = serve_frame-Grows f s h in
        rw (read, session_loop)
          (either (λ (t : Session). Grown s.writer t.writer) s'.serving
            (Grown-then one (session_loop-Grows fuel rest s' one.is_open)) one)
  ]

  -- The greeting is what a client reads first of the bytes that the connection has written.
  Reads : Session → Type 0
  Reads t = (rest : Bytes) × (read_frame t.writer.written ≡ ok (greeting clock, rest))

  greet_writer :
      (p : FaultProfile) (n : ℕ)
      → (on_connect (new_engine p)).1 ≡ allow
      → (greet clock p fresh n).writer
        ≡ (write_answer (greeting clock) (new_session clock p fresh n)).writer
  unfolding greet is_disconnect
  greet_writer p n connects =
      let s = new_session clock p fresh n in
      let w = (write_answer (greeting clock) s).writer in
      let Kept : Session → Type 0 = λ t. t.writer ≡ w in
      rw (connects, greet)
        (either Kept (write_answer (greeting clock) s).serving
          (either Kept (is_disconnect (after_greeting s.engine)) refl refl) refl)

  -- Over a connection that takes all writes, and unless the profile closes it before the greeting,
  -- what a client reads first is the greeting, whatever it sent and however the connection goes
  -- on, if the greeting fits a frame.
  pub run_session-greets_first :
      (p : FaultProfile) (input : Bytes) (n : ℕ)
      → (on_connect (new_engine p)).1 ≡ allow
      → length (greeting clock) + header_len < 2 ^ 32
      → (rest : Bytes) × (read_frame (run_session clock p input fresh n).writer.written
          ≡ ok (greeting clock, rest))
  unfolding run_session Reads write_answer
  run_session-greets_first p input n connects fits =
      let s = new_session clock p fresh n in
      let greeted = write_answer (greeting clock) s in
      let t = greet clock p fresh n in
      let sent = (write_answer-Grows (greeting clock) s refl).is_open in
      let first : Grown greeted.writer t.writer =
        subst (Grown greeted.writer) (sym (greet_writer p n connects))
          (Grown-nothing greeted.writer sent) in
      let later = session_loop-Grows (suc (length input)) input t first.is_open in
      either Reads t.serving
        (read_first (greeting clock) (session_loop clock (suc (length input)) input t).writer fits
          (Grown-then first later))
        (read_first (greeting clock) t.writer fits first)
