-- ===== src/EppAdapter/Lost.antt =====
-- A connection that is lost, and the retry of `withConn` (pkg/registrar/epp/connect.go).
use epp_test.Base.{◌≡◌, refl, sym, ap, subst, ◌∙◌, Option, none, some, Option-cases, inl, inr}
use epp_test.Base.Text.{Bytes}
use epp_test.Registrar.{RegError, plain}
use epp_test.EppAdapter.{World, Setup, Adapter, Run, success, failure, panic, Outcome-cases, ◌>>=◌}
use epp_test.EppAdapter.Connect.{
  hang_up, write_frame_on, read_greeting, send_login, or_hang_up, dial_and_login, reconnect,
  with_conn,
}
use epp_test.EppAdapter.Runs.{
  bind-failed, bind_panic, bind_failure, with_conn_panic, with_conn_again,
}
use epp_test.EppAdapter.Messages.{hello, ping}

abbrev IsLost : {W : World} → Adapter W → Type 0
IsLost s = s.conn ≡ none

module _ (W : World) (setup : Setup) where
  hung_up-conn :
      (o : Option W.Conn) (s : Adapter W)
      → s.conn ≡ o
      → IsLost (elim o as (λ _. Adapter W) [
        | none ↦ s
        | some c ↦ record s { conn = none; net = W.close c s.net }
      ])
  hung_up-conn none s e = e
  hung_up-conn (some c) s e = refl

  hang_up-IsLost : (s : Adapter W) → IsLost (hang_up W s)
  unfolding hang_up
  hang_up-IsLost s = hung_up-conn s.conn s refl

  module _ (m : Run W (Unit {0})) (s : Adapter W) where
    pub or_hang_up_success : (m s).0 ≡ success tt → or_hang_up W setup m s ≡ (success tt, (m s).1)
    unfolding or_hang_up
    or_hang_up_success h = rw (h, or_hang_up) refl

    pub or_hang_up_failure :
        {e : RegError}
        → (m s).0 ≡ failure e
        → or_hang_up W setup m s ≡ (failure e, hang_up W (m s).1)
    unfolding or_hang_up
    or_hang_up_failure h = rw (h, or_hang_up) refl

    or_hang_up_panic : (m s).0 ≡ panic → or_hang_up W setup m s ≡ (panic, (m s).1)
    unfolding or_hang_up
    or_hang_up_panic h = rw (h, or_hang_up) refl

    or_hang_up-failed :
        {e : RegError} → (or_hang_up W setup m s).0 ≡ failure e → IsLost (or_hang_up W setup m s).1
    or_hang_up-failed h = elim (Outcome-cases (m s).0) [
      | inl (tt, f) ↦ let clash = sym (ap (λ p. p.0) (or_hang_up_success f)) ∙ h in cc
      | inr (inl (x, f)) ↦
          subst IsLost (sym (ap (λ p. p.1) (or_hang_up_failure f))) (hang_up-IsLost (m s).1)
      | inr (inr f) ↦ let clash = sym (ap (λ p. p.0) (or_hang_up_panic f)) ∙ h in cc
    ]

  dialled_none :
      (s : Adapter W)
      → (W.dial s.net).0 ≡ none
      → (dial_and_login W setup s).1 ≡ record s { net = (W.dial s.net).1 }
  unfolding dial_and_login
  dialled_none s h = rw (h, dial_and_login) refl

  dialled_some :
      (s : Adapter W) {c : W.Conn}
      → (W.dial s.net).0 ≡ some c
      → dial_and_login W setup s
        ≡ (or_hang_up W setup (read_greeting W setup) >>= λ _.
              or_hang_up W setup (send_login W setup))
            (record s { conn = some c; net = (W.dial s.net).1 })
  unfolding dial_and_login
  dialled_some s h = rw (h, dial_and_login) refl

  -- A failure to connect again leaves no connection.
  reconnect-failed :
      (s : Adapter W) {e : RegError}
      → (reconnect W setup s).0 ≡ failure e
      → IsLost (reconnect W setup s).1
  unfolding reconnect
  reconnect-failed s h =
      let closed = hang_up W s in
      elim (Option-cases (W.dial closed.net).0) [
        | inl f ↦ subst IsLost (sym (dialled_none closed f)) (hang_up-IsLost s)
        | inr (c, f) ↦
            let run = dialled_some closed f in
            subst IsLost (sym (ap (λ p. p.1) run)) (
              bind-failed _ _ _ IsLost (or_hang_up-failed _ _) (λ _. or_hang_up-failed _ _)
                (sym (ap (λ p. p.0) run) ∙ h))
      ]

  write_frame_on-none :
      (conn : Option W.Conn) (bs : Bytes) (s : Adapter W)
      → conn ≡ none
      → (write_frame_on W conn bs s).0 ≡ panic
  unfolding write_frame_on
  write_frame_on-none none bs s e = refl
  write_frame_on-none (some c) bs s e = cc

  ping_lost : (s : Adapter W) → IsLost s → (ping W setup s).0 ≡ panic
  unfolding ping
  ping_lost s lost =
      let first =
        bind_panic (write_frame_on W s.conn hello) _ s (write_frame_on-none s.conn hello s lost) in
      ap (λ p. p.0) (with_conn_panic setup _ s (ap (λ p. p.0) first))

  -- Where an operation fails with an error that is no EPP error, and connecting again fails too,
  -- the error of the second is returned and the connection is gone: the next `Ping` panics.
  pub lost_connection-panics :
      {A : Type 0} (fn : Option W.Conn → Run W A) (s : Adapter W) (m : Bytes) (e : RegError)
      → (fn s.conn s).0 ≡ failure (plain m)
      → (reconnect W setup (fn s.conn s).1).0 ≡ failure e
      → ((with_conn W setup fn s).0 ≡ failure e)
        × ((ping W setup (with_conn W setup fn s).1).0 ≡ panic)
  lost_connection-panics fn s m e failed gone =
      let run = with_conn_again setup fn s failed ∙ bind_failure _ _ (fn s.conn s).1 gone in
      (
        ap (λ p. p.0) run,
        ap (λ p. (ping W setup p.1).0) run
            ∙ ping_lost (reconnect W setup (fn s.conn s).1).1
                (reconnect-failed (fn s.conn s).1 gone),
      )
