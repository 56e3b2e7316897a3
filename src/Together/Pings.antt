-- ===== src/Together/Pings.antt =====
-- `Ping` of the EPP adapter at the standalone EPP mock server: a hello is answered by the greeting.
use epp_test.Base.{
  ℕ, zero, suc, ◌+◌, ◌≡◌, refl, sym, ap, ap₂, ◌∙◌, Bool, true, false, List, [], append-nil, none,
  some, arith,
}
use epp_test.Base.Text.{Bytes, codes}
use epp_test.Fault.{FaultProfile}
use epp_test.EppMock.Sent.{framed}
use epp_test.EppMock.Stream.{FitsFrame}
use epp_test.MockEppServer.{Session, dispatched}
use epp_test.MockEppServer.Text.{
  has_element, opens, at_element, find_element, strip_prefix, skip_namespace, skip_name,
  is_name_start, is_name_char, ends_name,
}
use epp_test.MockEppServer.Answers.{Clock, greeting}
use epp_test.MockEppServer.Dialogue.{IsCalm, engine_at, one_command}
use epp_test.EppAdapter.{
  World, Setup, Adapter, Run, Outcome, success, ◌>>=◌, return, intersection, or_no_uris,
}
use epp_test.EppAdapter.Connect.{read_frame_on, write_frame_on, dial_and_login}
use epp_test.EppAdapter.Messages.{hello, ping}
use epp_test.EppAdapter.Runs.{bind_run, with_conn_success}
use epp_test.Together.{together}
use epp_test.Together.Flap.{Understood, login_done}
use epp_test.Together.Wires.{read_frame_on-framed, write_frame_on-served}

hello_element :
    (has_element (codes "login") hello ≡ false)
    × (has_element (codes "logout") hello ≡ false)
    × (has_element (codes "hello") hello ≡ true)
unfolding has_element opens at_element find_element strip_prefix skip_namespace skip_name
    is_name_start is_name_char ends_name
hello_element = (refl, refl, refl)

dispatched-hello : (clock : Clock) (n : ℕ) → dispatched clock hello n ≡ (greeting clock, n)
unfolding dispatched
dispatched-hello clock n = rw (hello_element.2) refl

module _ (clock : Clock) (profile : FaultProfile) (k : ℕ) (calm : IsCalm profile k)
    (outside : World) (setup : Setup) where
  abbrev W : World
  W = together clock profile outside

  -- A connection between two commands, behind `a` logins and `o` operations.
  abbrev pub idle : List Bytes → ℕ → ℕ → ℕ → ℕ → Bool → Adapter W
  idle ext id n a o b = record {
    conn = some tt;
    advertised_ext = ext;
    cl_trid = id;
    net = record {
      session = record {
        serving = true;
        engine = engine_at profile k calm a o b;
        writer = record { written = []; calls_left = none };
        sv_trid = n;
      };
      pending = [];
    };
  }

  -- The same with the greeting to be read.
  abbrev greeted : Adapter W → Adapter W
  greeted s = record s {
    net = record s.net {
      session = record s.net.session {
        writer = record { written = framed (greeting clock); calls_left = none };
      };
    };
  }

  served_hello :
      (ext : List Bytes) (id n a o : ℕ) (b : Bool)
      → write_frame_on W (some tt) hello (idle ext id n a o b)
        ≡ (success tt, greeted (idle ext id n a (o + 1) b))
  served_hello ext id n a o b =
      let s = idle ext id n a o b in
      let (w', run, sent) =
        one_command profile k calm clock hello a o n b s.net.session.writer refl hello_element.0
          hello_element.1 in
      write_frame_on-served clock profile outside hello s (omega arith) (omega arith) refl refl
      ∙ ap
          (λ (session : Session).
            (success tt, record s { net = record { session = session; pending = [] } }))
          run
      ∙ ap₂
          (λ bs left. (
            success tt,
            record (idle ext id n a (o + 1) b) {
              net = record (idle ext id n a (o + 1) b).net {
                session = record (idle ext id n a (o + 1) b).net.session {
                  writer = record { written = bs; calls_left = left };
                  sv_trid = (dispatched clock hello n).1;
                };
              };
            },
          ))
          sent.behind sent.is_open
      ∙ ap
          (λ (answer : Bytes × ℕ). (
            success tt,
            record (idle ext id n a (o + 1) b) {
              net = record (idle ext id n a (o + 1) b).net {
                session = record (idle ext id n a (o + 1) b).net.session {
                  writer = record { written = framed answer.0; calls_left = none };
                  sv_trid = answer.1;
                };
              };
            },
          ))
          (dispatched-hello clock n)

  -- At a profile whose only fault is refused logins, `Ping` on a connection between two commands
  -- succeeds, and leaves the connection between two commands, with nothing left to read; neither
  -- side draws a transaction ID for it, and the server counts one operation.
  pub ping-served :
      (ext : List Bytes) (id n a o : ℕ) (b : Bool)
      → FitsFrame (greeting clock)
      → ping W setup (idle ext id n a o b) ≡ (success tt, idle ext id n a (o + 1) b)
  unfolding ping
  ping-served ext id n a o b fits =
      let s = idle ext id n a o b in
      let s' = idle ext id n a (o + 1) b in
      let tried : (write_frame_on W (some tt) hello >>= λ _.
      read_frame_on W (some tt) >>= λ _. return tt)
            s
          ≡ (success tt, s') =
        bind_run (write_frame_on W (some tt) hello) _ s (served_hello ext id n a o b)
        ∙ bind_run (read_frame_on W (some tt)) _ (greeted s') (
            read_frame_on-framed clock profile outside (greeting clock) [] (greeted s') fits
              (sym (append-nil (framed (greeting clock))))) in
      with_conn_success setup
        (λ conn. write_frame_on W conn hello >>= λ _. read_frame_on W conn >>= λ _. return tt) s
        (ap (λ p. p.0) tried)
      ∙ ap (λ (p : Outcome (Unit {0}) × Adapter W). (success tt, p.1)) tried

  -- `Ping` so many times, up to one that fails.
  unfoldable pub pings : ℕ → Run W (Unit {0})
  pings zero = return tt
  pings (suc m) = ping W setup >>= λ _. pings m

  pings-served :
      (m : ℕ) (ext : List Bytes) (id n a o : ℕ) (b : Bool)
      → FitsFrame (greeting clock)
      → pings m (idle ext id n a o b) ≡ (success tt, idle ext id n a (o + m) b)
  unfolding pings
  pings-served zero ext id n a o b fits = ap (λ c. (success tt, idle ext id n a c b)) (omega arith)
  pings-served (suc m) ext id n a o b fits =
      bind_run (ping W setup) _ (idle ext id n a o b) (ping-served ext id n a o b fits)
      ∙ pings-served m ext id n a (o + 1) b fits
      ∙ ap (λ c. (success tt, idle ext id n a c b)) (omega arith)

-- At a profile without faults, from any state of the adapter and of the server's counter whose
-- login the XML library understands: `Login` and any number of `Ping`s behind it all succeed, on
-- one connection, which is left between two commands with nothing to read. The login has drawn one
-- transaction ID on each side and the pings none, the server has counted one login and every ping
-- as an operation, and the extensions are those that the greeting allows.
pub dial_and_login-pings :
    (clock : Clock) (profile : FaultProfile) (calm : IsCalm profile 0) (outside : World)
    (setup : Setup) (s : Adapter (together clock profile outside))
    (u : Understood clock profile 0 calm outside setup s) (m : ℕ)
    → (dial_and_login (together clock profile outside) setup >>= λ _.
          pings clock profile 0 calm outside setup m)
        s
      ≡ (
        success tt,
        idle clock profile 0 calm outside setup
            (intersection setup.extensions (or_no_uris u.g.svc_menu.svc_extension))
            (suc s.cl_trid)
            (suc s.net.session.sv_trid)
            1
            m
            false,
      )
dial_and_login-pings clock profile calm outside setup s u m =
    bind_run (dial_and_login (together clock profile outside) setup) _ s
      (login_done clock profile 0 calm outside setup s u u.code)
    ∙ pings-served clock profile 0 calm outside setup m
        (intersection setup.extensions (or_no_uris u.g.svc_menu.svc_extension)) (suc s.cl_trid)
        (suc s.net.session.sv_trid) 1 0 false u.greeting_fits
    ∙ ap
        (λ o. (
          success tt,
          idle clock profile 0 calm outside setup
              (intersection setup.extensions (or_no_uris u.g.svc_menu.svc_extension))
              (suc s.cl_trid) (suc s.net.session.sv_trid) 1 o false,
        ))
        (omega arith)
