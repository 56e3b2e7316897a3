-- ===== src/Together/Logins.antt =====
-- `Login` of the EPP adapter at the standalone EPP mock server, which refuses the first logins of
-- every connection.
use epp_test.Base.{
  ℕ, suc, ◌≤◌, ◌≡◌, refl, sym, ap, ap₂, ◌∙◌, true, false, List, [], ◌++◌, append-nil, none, some,
  arith, length,
}
use epp_test.Base.Text.{Bytes, codes}
use epp_test.Base.Decimal.{decimal}
use epp_test.Fault.{FaultProfile}
use epp_test.Registrar.{RegError}
use epp_test.EppXml.{EppEnvelope, EppResponse, Greeting}
use epp_test.EppMock.Sent.{framed}
use epp_test.EppMock.Stream.{FitsFrame}
use epp_test.MockEppServer.{Session}
use epp_test.MockEppServer.Text.{has_element, echo_cl_trid}
use epp_test.MockEppServer.Answers.{Clock, greeting}
use epp_test.MockEppServer.Dialogue.{IsCalm, login_answer, engine_at, one_login, greet-calm}
use epp_test.EppAdapter.{
  World, Setup, Adapter, success, failure, required, checked, no_extension, intersection,
  or_no_uris, result_to_error,
}
use epp_test.EppAdapter.Connect.{
  read_frame_on, write_frame_on, send_and_receive, next_cl_trid, respond, exchange, read_greeting,
  login_command, send_login,
}
use epp_test.EppAdapter.Runs.{bind_run, fail_run, required-some}
use epp_test.Together.{Net, next_connection, together}
use epp_test.Together.Wires.{read_frame_on-framed, write_frame_on-served}

module _ (clock : Clock) (profile : FaultProfile) (k : ℕ) (calm : IsCalm profile k)
    (outside : World) (setup : Setup) where
  abbrev W : World
  W = together clock profile outside

  -- The handler with what the client has to read, at the given counters.
  abbrev pub net_at : ℕ → Bytes → ℕ → Net
  net_at logins bs n = record {
    session = record {
      serving = true;
      engine = engine_at profile k calm logins 0 false;
      writer = record { written = bs; calls_left = none };
      sv_trid = n;
    };
    pending = [];
  }

  abbrev pub online : List Bytes → ℕ → Net → Adapter W
  online ext id net = record { conn = some tt; advertised_ext = ext; cl_trid = id; net = net }

  pub accepted_lem :
      (net : Net)
      → next_connection clock profile net ≡ net_at 0 (framed (greeting clock)) net.session.sv_trid
  accepted_lem net =
      let n = net.session.sv_trid in
      let (w', run, sent) = greet-calm clock profile k n calm in
      ap (λ (s : Session). record { session = s; pending = [] }) run
      ∙ ap₂
          (λ bs left. record (net_at 0 [] n) {
            session = record (net_at 0 [] n).session {
              writer = record { written = bs; calls_left = left };
            };
          })
          sent.behind sent.is_open

  -- The extensions that the adapter agrees on.
  abbrev pub agreed : Greeting → List Bytes
  agreed g = intersection setup.extensions (or_no_uris g.svc_menu.svc_extension)

  pub read_greeting-read :
      (ext : List Bytes) (id n : ℕ) (env : EppEnvelope) (g : Greeting)
      → FitsFrame (greeting clock)
      → outside.unmarshal (greeting clock) ≡ some env
      → env.greeting ≡ some g
      → read_greeting W setup (online ext id (net_at 0 (framed (greeting clock)) n))
        ≡ (success tt, online (agreed g) id (net_at 0 [] n))
  unfolding read_greeting
  read_greeting-read ext id n env g fits parsed greets =
      let s = online ext id (net_at 0 (framed (greeting clock)) n) in
      let s1 = online ext id (net_at 0 [] n) in
      bind_run (read_frame_on W (some tt)) _ s (
        read_frame_on-framed clock profile outside (greeting clock) [] s fits
          (sym (append-nil (framed (greeting clock)))))
      ∙ bind_run
          (required (codes "unmarshal greeting envelope") (outside.unmarshal (greeting clock))) _ s1
          (required-some _ (outside.unmarshal (greeting clock)) s1 parsed)
      ∙ bind_run (required (codes "server sent frame without <epp:greeting>") env.greeting) _ s1
          (required-some _ env.greeting s1 greets)

  -- The transaction ID of the next command, and the envelope of the login.
  abbrev pub id_text : ℕ → Bytes
  id_text n = codes "gsd-" ++ (setup.name ++ (codes "-" ++ decimal n))

  abbrev pub login_envelope : List Bytes → ℕ → EppEnvelope
  login_envelope ext id = record {
    command = some (record {
      command = login_command W setup ext;
      extension = none;
      cl_trid = id_text (suc id);
    });
    response = none;
    greeting = none;
  }

  -- What the handler answers to the login.
  abbrev pub login_reply : Bytes → ℕ → Bytes
  login_reply xml n = login_answer k (echo_cl_trid xml) (suc n)

  module _ (ext : List Bytes) (id n : ℕ) (xml : Bytes) (env : EppEnvelope) (r : EppResponse)
      (made : outside.marshal (login_envelope ext id) ≡ some xml)
      (is_login : has_element (codes "login") xml ≡ true) (fits : FitsFrame xml)
      (some_bytes : 1 ≤ length xml) (reply_fits : FitsFrame (login_reply xml n))
      (parsed : outside.unmarshal (login_reply xml n) ≡ some env)
      (responds : env.response ≡ some r) where
    served_login :
        (s : Adapter W)
        → s ≡ online ext (suc id) (net_at 0 [] n)
        → write_frame_on W (some tt) xml s
          ≡ (success tt, online ext (suc id) (net_at 1 (framed (login_reply xml n)) (suc n)))
    served_login s e =
        let before = net_at 0 [] n in
        let (w', run, sent) =
          one_login profile k calm clock xml 0 k 0 n false before.session.writer (omega arith) refl
            is_login in
        ap (write_frame_on W (some tt) xml) e
        ∙ write_frame_on-served clock profile outside xml (online ext (suc id) before) fits
            some_bytes refl refl
        ∙ ap
            (λ (session : Session).
              (success tt, online ext (suc id) (record { session = session; pending = [] })))
            run
        ∙ ap₂
            (λ bs left. (
              success tt,
              online ext (suc id) (record (net_at 1 [] (suc n)) {
                session = record (net_at 1 [] (suc n)).session {
                  writer = record { written = bs; calls_left = left };
                };
              }),
            ))
            sent.behind sent.is_open

    -- The state behind the exchange: one login more, and nothing left to read.
    abbrev behind : Adapter W
    behind = online ext (suc id) (net_at 1 [] (suc n))

    login_exchanged :
        send_and_receive W (some tt) (login_envelope ext id) (online ext (suc id) (net_at 0 [] n))
        ≡ (success env, behind)
    unfolding send_and_receive
    login_exchanged =
        let s = online ext (suc id) (net_at 0 [] n) in
        let s1 = online ext (suc id) (net_at 1 (framed (login_reply xml n)) (suc n)) in
        bind_run (required (codes "marshal") (outside.marshal (login_envelope ext id))) _ s
          (required-some _ (outside.marshal (login_envelope ext id)) s made)
        ∙ bind_run (write_frame_on W (some tt) xml) _ s (served_login s refl)
        ∙ bind_run (read_frame_on W (some tt)) _ s1 (
            read_frame_on-framed clock profile outside (login_reply xml n) [] s1 reply_fits
              (sym (append-nil (framed (login_reply xml n)))))
        ∙ required-some _ (outside.unmarshal (login_reply xml n)) behind parsed

    login_responded :
        respond W setup
          (some tt)
          (login_command W setup ext)
          no_extension
          (online ext id (net_at 0 [] n))
        ≡ (success r, behind)
    unfolding respond next_cl_trid
    login_responded =
        let s = online ext id (net_at 0 [] n) in
        let s1 = online ext (suc id) (net_at 0 [] n) in
        bind_run (next_cl_trid W setup) _ s refl
        ∙ bind_run no_extension _ s1 refl
        ∙ bind_run (send_and_receive W (some tt) (login_envelope ext id)) _ s1 login_exchanged
        ∙ required-some _ env.response behind responds

    pub send_login-accepted :
        result_to_error r.result (codes "epp:login") ≡ none
        → send_login W setup (online ext id (net_at 0 [] n)) ≡ (success tt, behind)
    unfolding send_login exchange
    send_login-accepted fine =
        let s = online ext id (net_at 0 [] n) in
        let exchanged : exchange W setup (some tt) (codes "epp:login") (login_command W setup ext)
              no_extension s
            ≡ (success r, behind) =
          bind_run (respond W setup (some tt) (login_command W setup ext) no_extension) _ s
            login_responded
          ∙ bind_run (checked r.result (codes "epp:login")) _ behind (rw (checked, fine) refl) in
        bind_run
          (exchange W setup (some tt) (codes "epp:login") (login_command W setup ext) no_extension)
          _ s exchanged

    pub send_login-refused :
        (e : RegError)
        → result_to_error r.result (codes "epp:login") ≡ some e
        → send_login W setup (online ext id (net_at 0 [] n)) ≡ (failure e, behind)
    unfolding send_login exchange
    send_login-refused e bad =
        let s = online ext id (net_at 0 [] n) in
        let exchanged : exchange W setup (some tt) (codes "epp:login") (login_command W setup ext)
              no_extension s
            ≡ (failure e, behind) =
          bind_run (respond W setup (some tt) (login_command W setup ext) no_extension) _ s
            login_responded
          ∙ fail_run (checked r.result (codes "epp:login")) _ behind (rw (checked, bad) refl) in
        fail_run
          (exchange W setup (some tt) (codes "epp:login") (login_command W setup ext) no_extension)
          _ s exchanged
