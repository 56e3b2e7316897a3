-- ===== src/Together/Flap.antt =====
-- `Login` of the EPP adapter at a standalone EPP mock server in the login mode `flap`: handleConn
-- of cmd/mock-epp-server/main.go counts the logins of one connection, and the adapter gives up a
-- connection whose login is refused.
use epp_test.Base.{
  ℕ, zero, suc, ◌≤◌, ◌≡◌, refl, ap, ◌∙◌, ◌⊎◌, inl, inr, true, [], none, some, arith, length,
}
use epp_test.Base.Int.{pos}
use epp_test.Base.Text.{Bytes, codes}
use epp_test.Fault.{FaultProfile}
use epp_test.Registrar.{EppError, RegError, epp}
use epp_test.EppXml.{EppEnvelope, EppResponse, EppResult, Greeting}
use epp_test.EppMock.Sent.{framed}
use epp_test.EppMock.Stream.{FitsFrame}
use epp_test.MockEppServer.Text.{has_element}
use epp_test.MockEppServer.Answers.{Clock, greeting}
use epp_test.MockEppServer.Dialogue.{IsCalm}
use epp_test.EppAdapter.{
  World, Setup, Adapter, Run, Outcome, success, failure, ◌>>=◌, result_to_error,
}
use epp_test.EppAdapter.Connect.{read_greeting, send_login, or_hang_up, dial_and_login, hang_up}
use epp_test.Together.{together}
use epp_test.EppAdapter.Runs.{bind_run}
use epp_test.EppAdapter.Lost.{or_hang_up_success, or_hang_up_failure}
use epp_test.Together.Logins.{
  net_at, online, agreed, accepted_lem, read_greeting-read, send_login-accepted, send_login-refused,
  login_envelope, login_reply,
}

-- The code of the answer to the first login of a connection.
abbrev pub login_code : ℕ → ℕ
login_code zero = 1000
login_code (suc k) = 2200

login_cases : (k : ℕ) → ((k ≡ 0) × (login_code k ≡ 1000)) ⊎ ((1 ≤ k) × (login_code k ≡ 2200))
login_cases zero = inl (refl, refl)
login_cases (suc k) = inr (omega arith, refl)

module _ {W : World} (setup : Setup) (m : Run W (Unit {0})) (s : Adapter W) where
  or_hang_up_done :
      {s' : Adapter W} → m s ≡ (success tt, s') → or_hang_up W setup m s ≡ (success tt, s')
  unfolding or_hang_up
  or_hang_up_done h =
      or_hang_up_success W setup m s (ap (λ p. p.0) h)
      ∙ ap (λ (p : Outcome (Unit {0}) × Adapter W). (success tt, p.1)) h

  or_hang_up_refused :
      {s' : Adapter W} {e : RegError}
      → m s ≡ (failure e, s')
      → or_hang_up W setup m s ≡ (failure e, hang_up W s')
  or_hang_up_refused {e = e} h =
      or_hang_up_failure W setup m s (ap (λ p. p.0) h)
      ∙ ap (λ (p : Outcome (Unit {0}) × Adapter W). (failure e, hang_up W p.1)) h

module _ (clock : Clock) (profile : FaultProfile) (k : ℕ) (calm : IsCalm profile k)
    (outside : World) (setup : Setup) where
  abbrev W : World
  W = together clock profile outside

  -- What the XML library makes of the three documents of a login in the state `s`, which fit into
  -- frames: it reads the greeting, it writes a command with a `login` element, and it finds in the
  -- answer the code that the server wrote there.
  pub record Understood (s : Adapter W) : Type 0 where
    pub hello : EppEnvelope
    pub g : Greeting
    pub greeting_fits : FitsFrame (greeting clock)
    pub greeting_read : outside.unmarshal (greeting clock) ≡ some hello
    pub greets : hello.greeting ≡ some g
    pub xml : Bytes
    pub made :
        outside.marshal (
          login_envelope clock profile k calm outside setup
            (agreed clock profile k calm outside setup g)
            s.cl_trid)
        ≡ some xml
    pub is_login : has_element (codes "login") xml ≡ true
    pub fits : FitsFrame xml
    pub some_bytes : 1 ≤ length xml
    pub env : EppEnvelope
    pub r : EppResponse
    pub reply_fits :
        FitsFrame (login_reply clock profile k calm outside setup xml s.net.session.sv_trid)
    pub reply_read :
        outside.unmarshal (login_reply clock profile k calm outside setup xml s.net.session.sv_trid)
        ≡ some env
    pub responds : env.response ≡ some r
    pub code : r.result.code ≡ pos (login_code k)

  fine_code : (r : EppResult) (c : Bytes) → r.code ≡ pos 1000 → result_to_error r c ≡ none
  unfolding result_to_error
  fine_code r c h = rw (h, result_to_error) refl

  -- The error that the adapter makes of the answer.
  abbrev refusal : EppResult → EppError
  refusal r = record {
    code = r.code;
    message = r.msg;
    reason = r.reason;
    command = codes "epp:login";
  }

  refused_code :
      (r : EppResult)
      → r.code ≡ pos 2200
      → result_to_error r (codes "epp:login") ≡ some (epp (refusal r))
  unfolding result_to_error
  refused_code r h = rw (h, result_to_error) refl

  -- The state at the login, and the one behind its answer.
  abbrev waiting : (s : Adapter W) → Understood s → Adapter W
  waiting s u =
      online clock profile k calm outside setup (agreed clock profile k calm outside setup u.g)
        s.cl_trid (net_at clock profile k calm outside setup 0 [] s.net.session.sv_trid)

  abbrev logged_in : (s : Adapter W) → Understood s → Adapter W
  logged_in s u =
      online clock profile k calm outside setup (agreed clock profile k calm outside setup u.g)
        (suc s.cl_trid) (net_at clock profile k calm outside setup 1 [] (suc s.net.session.sv_trid))

  greeted :
      (s : Adapter W) (u : Understood s)
      → dial_and_login W setup s ≡ or_hang_up W setup (send_login W setup) (waiting s u)
  unfolding dial_and_login
  greeted s u =
      let n = s.net.session.sv_trid in
      let at_greeting : Adapter W =
        online clock profile k calm outside setup s.advertised_ext s.cl_trid
          (net_at clock profile k calm outside setup 0 (framed (greeting clock)) n) in
      ap
        (λ net.
          (or_hang_up W setup (read_greeting W setup) >>= λ _.
          or_hang_up W setup (send_login W setup))
            (online clock profile k calm outside setup s.advertised_ext s.cl_trid net))
        (accepted_lem clock profile k calm outside setup s.net)
      ∙ bind_run (or_hang_up W setup (read_greeting W setup)) _ at_greeting (
          or_hang_up_done setup (read_greeting W setup) at_greeting (
            read_greeting-read clock profile k calm outside setup s.advertised_ext s.cl_trid n
              u.hello u.g u.greeting_fits u.greeting_read u.greets))

  pub login_done :
      (s : Adapter W) (u : Understood s)
      → u.r.result.code ≡ pos 1000
      → dial_and_login W setup s ≡ (success tt, logged_in s u)
  login_done s u c =
      let before = waiting s u in
      greeted s u
      ∙ or_hang_up_done setup (send_login W setup) before (
          send_login-accepted clock profile k calm outside setup
            (agreed clock profile k calm outside setup u.g) s.cl_trid s.net.session.sv_trid u.xml
            u.env u.r u.made u.is_login u.fits u.some_bytes u.reply_fits u.reply_read u.responds
            (fine_code u.r.result (codes "epp:login") c))

  login_refused :
      (s : Adapter W) (u : Understood s)
      → u.r.result.code ≡ pos 2200
      → dial_and_login W setup s ≡ (failure (epp (refusal u.r.result)), hang_up W (logged_in s u))
  login_refused s u c =
      let before = waiting s u in
      greeted s u
      ∙ or_hang_up_refused setup (send_login W setup) before (
          send_login-refused clock profile k calm outside setup
            (agreed clock profile k calm outside setup u.g) s.cl_trid s.net.session.sv_trid u.xml
            u.env u.r u.made u.is_login u.fits u.some_bytes u.reply_fits u.reply_read u.responds
            (epp (refusal u.r.result)) (refused_code u.r.result c))

  -- At a profile whose only fault is that it refuses the first `k` logins of a connection, from
  -- any state of the adapter and of the server's counter whose login the XML library understands:
  -- `Login` succeeds and keeps its connection where `k` is 0, and fails with the code 2200 and has
  -- no connection any more where `k` is at least 1. Either way the transaction IDs of the adapter
  -- and of the server have gone on by one.
  pub dial_and_login-flap :
      (s : Adapter W)
      → Understood s
      → (((k ≡ 0)
            × ((dial_and_login W setup s).0 ≡ success tt)
            × ((dial_and_login W setup s).1.conn ≡ some tt))
          ⊎ ((1 ≤ k)
              × (e : EppError) × ((dial_and_login W setup s).0 ≡ failure (epp e))
              × (e.code ≡ pos 2200)
              × ((dial_and_login W setup s).1.conn ≡ none)))
        × ((dial_and_login W setup s).1.cl_trid ≡ suc s.cl_trid)
        × ((dial_and_login W setup s).1.net.session.sv_trid ≡ suc s.net.session.sv_trid)
  unfolding hang_up
  dial_and_login-flap s u = elim (login_cases k) [
    | inl (none_refused, c) ↦
        rw (login_done s u (u.code ∙ ap pos c)) (inl (none_refused, refl, refl), refl, refl)
    | inr (some_refused, c) ↦
        rw (login_refused s u (u.code ∙ ap pos c))
          (inr (some_refused, _, refl, u.code ∙ ap pos c, refl), refl, refl)
  ]
