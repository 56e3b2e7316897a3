-- ===== src/RriMock/Server/Session.antt =====
-- What a whole connection to the RRI mock server does.
use epp_test.Base.{
  ℕ, zero, suc, ◌≤◌, ◌<◌, ◌≡◌, refl, ◌∙◌, Bool, true, false, List, [], ◌∷◌, ◌++◌, arith,
  if◌then◌else◌, Bool-cases, inl, inr, length, length-append, All,
}
use epp_test.Base.Text.{Bytes}
use epp_test.Base.Result.{ok, err, Result-cases}
use epp_test.Frame.RoundTrip.{write_rri_frame-written, read_rri_frame-write_rri_frame}
use epp_test.Frame.{
  Writer, fresh, max_payload, write_rri_frame, read_rri_frame, read_full, put_u32, read_header, eof,
}
use epp_test.RriMock.Server.{
  Item, Server, Conn, receive, build_success_response, build_failure_response, serve_script,
  handle_frame, answer, conn_loop, handle_conn,
}

pub receive-expect : (f : Bytes) (s : Server) → (receive f s).expect ≡ s.expect
unfolding receive
receive-expect f s = ground arith

-- Logged out means logged out before, and the script untouched.
StaysOut : Bool → Server → Conn → Type 0
StaysOut l s c = c.logged_in ≡ false → (l ≡ false) × (c.server.expect ≡ s.expect)

serve_script_in :
    (b : Bool) (w : Writer) (s : Server) (items : List Item)
    → (serve_script b w s items).logged_in ≡ true
unfolding serve_script
serve_script_in b w s [] = refl
serve_script_in b w s (i ∷ items) = refl

answer_out :
    (login logout accepted l : Bool) (w : Writer) (s : Server)
    → StaysOut l s (answer login logout accepted l w s)
unfolding StaysOut answer build_success_response build_failure_response
answer_out false logout accepted false w s h = (refl, refl)
answer_out true logout true l w s h = absurd cc
answer_out true logout false l w s h = (h, refl)
answer_out false logout accepted true w s h = absurd (cc (serve_script_in logout w s s.expect))

-- What each frame keeps, the loop keeps.
pub conn_loop-keeps :
    (P : Conn → Type 0)
    → ((c : Conn) → P c → P (record c { serving = false }))
    → ((f : Bytes) (c : Conn) → P c → P (handle_frame f c.logged_in c.writer c.server))
    → (fuel : ℕ) (input : Bytes) (c : Conn) → P c
    → P (conn_loop fuel input c)
unfolding conn_loop handle_frame answer
conn_loop-keeps P stop frame zero input c p = stop c p
conn_loop-keeps P stop frame (suc fuel) input c p = elim (Result-cases (read_rri_frame input)) [
  | inr (e, failed) ↦ rw (failed, conn_loop) (stop c p)
  | inl ((f, rest), read) ↦
      let c' = handle_frame f c.logged_in c.writer c.server in
      let one = frame f c p in
      elim (Bool-cases c'.serving) [
        | inl on ↦ rw (read, conn_loop, on) (conn_loop-keeps P stop frame fuel rest c' one)
        | inr off ↦ rw (read, conn_loop, off) one
      ]
]

-- A client that has not logged in by the end of the connection has consumed no item of the script,
-- whatever it sent.
pub handle_conn_logged_out :
    (input : Bytes) (w : Writer) (s : Server)
    → (handle_conn input w s).logged_in ≡ false
    → (handle_conn input w s).server.expect ≡ s.expect
unfolding handle_conn StaysOut handle_frame
handle_conn_logged_out input w s h =
    conn_loop-keeps (λ c. c.logged_in ≡ false → c.server.expect ≡ s.expect) (λ c p. p)
      (λ f c p q.
        let (out, kept) = answer_out _ _ _ c.logged_in c.writer (receive f c.server) q in
        kept ∙ receive-expect f c.server ∙ p out)
      (suc (length input)) input _ (λ _. refl) h

-- The frames that a client sends, in their wire format.
unfoldable pub wire : List Bytes → Bytes
wire [] = []
wire (f ∷ fs) = (write_rri_frame fresh f).0.written ++ wire fs

-- The handler on frames that are read already: it ends with the frame that makes it stop, else with
-- the end of the connection.
unfoldable pub serve_frames : List Bytes → Conn → Conn
serve_frames [] c = record c { serving = false }
serve_frames (f ∷ fs) c =
    let c' = handle_frame f c.logged_in c.writer c.server in
    let rest = serve_frames fs c' in if c'.serving then rest else c'

-- A payload that the reader accepts.
abbrev pub IsPayload : Bytes → Type 0
IsPayload f = (1 ≤ length f) × (length f ≤ max_payload)

pub read_one :
    (f rest : Bytes)
    → IsPayload f
    → read_rri_frame ((write_rri_frame fresh f).0.written ++ rest) ≡ ok (f, rest)
read_one f rest (some_bytes, fits) =
    let (sent, e, clean, read) = read_rri_frame-write_rri_frame fresh f refl rest (omega arith) in
    rw e (read ∙ ground arith)

pub read_nothing : read_rri_frame [] ≡ err (read_header eof)
unfolding read_rri_frame read_full
read_nothing = refl

conn_loop-wire :
    (fs : List Bytes) (fuel : ℕ) (c : Conn)
    → All IsPayload fs
    → length fs < fuel
    → conn_loop fuel (wire fs) c ≡ serve_frames fs c
unfolding conn_loop wire serve_frames
conn_loop-wire fs zero c fit enough = elim enough [ ]
conn_loop-wire [] (suc fuel) c fit enough = rw (read_nothing, conn_loop) refl
conn_loop-wire (f ∷ fs) (suc fuel) c (one, fit) enough =
    let c' = handle_frame f c.logged_in c.writer c.server in
    let later = conn_loop-wire fs fuel c' fit (omega arith) in
    rw (read_one f (wire fs) one, conn_loop, later) refl

pub length-wire : (fs : List Bytes) → length fs ≤ length (wire fs)
unfolding wire put_u32
length-wire [] = omega arith
length-wire (f ∷ fs) =
    rw (write_rri_frame-written fresh f refl).0
      (omega (arith, length-append f (wire fs), length-wire fs))

-- The handler serves the frames that a client sends, each of 1 to 65536 bytes, one by one in their
-- order, until one ends the connection: it neither loses a frame nor runs out of fuel.
pub handle_conn-wire :
    (fs : List Bytes) (w : Writer) (s : Server)
    → All IsPayload fs
    → handle_conn (wire fs) w s
      ≡ serve_frames fs (record { serving = true; logged_in = false; writer = w; server = s })
unfolding handle_conn
handle_conn-wire fs w s fit =
    conn_loop-wire fs (suc (length (wire fs))) _ fit (omega (arith, length-wire fs))
