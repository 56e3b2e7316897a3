-- ===== src/EppAdapter/Runs.antt =====
-- How the calls of the adapter are composed: the outcome of each part decides which parts run.
use epp_test.Base.{◌≡◌, refl, sym, ap, subst, ◌∙◌, Option, some, inl, inr}
use epp_test.Base.Text.{Bytes}
use epp_test.Registrar.{RegError, epp, plain}
use epp_test.EppAdapter.{
  World, Setup, Adapter, Run, Outcome, success, failure, panic, Outcome-cases, ◌>>=◌, required,
}
use epp_test.EppAdapter.Connect.{reconnect, with_conn}

failure_inj : {A : Type 0} {d e : RegError} → ◌≡◌ {A = Outcome A} (failure d) (failure e) → d ≡ e
failure_inj h = cc

module _ {W : World} {A B : Type 0} (m : Run W A) (f : A → Run W B) (s : Adapter W) where
  pub bind_success : {a : A} → (m s).0 ≡ success a → (m >>= f) s ≡ f a (m s).1
  unfolding ◌>>=◌
  bind_success h = rw (h, ◌>>=◌) refl

  pub bind_failure : {e : RegError} → (m s).0 ≡ failure e → (m >>= f) s ≡ (failure e, (m s).1)
  unfolding ◌>>=◌
  bind_failure h = rw (h, ◌>>=◌) refl

  pub bind_panic : (m s).0 ≡ panic → (m >>= f) s ≡ (panic, (m s).1)
  unfolding ◌>>=◌
  bind_panic h = rw (h, ◌>>=◌) refl

  -- A sequence fails where one of its parts does.
  pub bind-failed :
      {e : RegError} (Lost : Adapter W → Type 0)
      → ((m s).0 ≡ failure e → Lost (m s).1)
      → ((a : A) → (f a (m s).1).0 ≡ failure e → Lost (f a (m s).1).1)
      → ((m >>= f) s).0 ≡ failure e
      → Lost ((m >>= f) s).1
  bind-failed Lost first second h = elim (Outcome-cases (m s).0) [
    | inl (a, g) ↦
        let run = bind_success g in
        subst Lost (sym (ap (λ p. p.1) run)) (second a (sym (ap (λ p. p.0) run) ∙ h))
    | inr (inl (x, g)) ↦
        let run = bind_failure g in
        let same = failure_inj (sym (ap (λ p. p.0) run) ∙ h) in
        subst Lost (sym (ap (λ p. p.1) run)) (first (g ∙ ap failure same))
    | inr (inr g) ↦ let clash = sym (ap (λ p. p.0) (bind_panic g)) ∙ h in cc
  ]

  -- And succeeds only where all of them do.
  pub bind-succeeded :
      {b : B}
      → ((m >>= f) s).0 ≡ success b
      → (a : A) × ((m s).0 ≡ success a) × ((f a (m s).1).0 ≡ success b)
  bind-succeeded h = elim (Outcome-cases (m s).0) [
    | inl (a, g) ↦ (a, g, sym (ap (λ p. p.0) (bind_success g)) ∙ h)
    | inr (inl (x, g)) ↦ let clash = sym (ap (λ p. p.0) (bind_failure g)) ∙ h in cc
    | inr (inr g) ↦ let clash = sym (ap (λ p. p.0) (bind_panic g)) ∙ h in cc
  ]

module _ {W : World} (setup : Setup) {A : Type 0} (fn : Option W.Conn → Run W A)
    (s : Adapter W) where
  pub with_conn_success :
      {a : A} → (fn s.conn s).0 ≡ success a → with_conn W setup fn s ≡ (success a, (fn s.conn s).1)
  unfolding with_conn
  with_conn_success h = rw (h, with_conn) refl

  pub with_conn_refused :
      {e : _}
      → (fn s.conn s).0 ≡ failure (epp e)
      → with_conn W setup fn s ≡ (failure (epp e), (fn s.conn s).1)
  unfolding with_conn
  with_conn_refused h = rw (h, with_conn) refl

  pub with_conn_panic : (fn s.conn s).0 ≡ panic → with_conn W setup fn s ≡ (panic, (fn s.conn s).1)
  unfolding with_conn
  with_conn_panic h = rw (h, with_conn) refl

  pub with_conn_again :
      {m : Bytes}
      → (fn s.conn s).0 ≡ failure (plain m)
      → with_conn W setup fn s ≡ (reconnect W setup >>= λ _ t. fn t.conn t) (fn s.conn s).1
  unfolding with_conn
  with_conn_again h = rw (h, with_conn) refl

  -- An operation that succeeds did so in the first try or in the second.
  pub with_conn-succeeded :
      {a : A}
      → (with_conn W setup fn s).0 ≡ success a
      → (conn : Option W.Conn) × (t : Adapter W) × ((fn conn t).0 ≡ success a)
  with_conn-succeeded h = elim (Outcome-cases (fn s.conn s).0) [
    | inl (a, g) ↦ (s.conn, s, g ∙ sym (ap (λ p. p.0) (with_conn_success g)) ∙ h)
    | inr (inl (epp x, g)) ↦ let clash = sym (ap (λ p. p.0) (with_conn_refused g)) ∙ h in cc
    | inr (inl (plain x, g)) ↦
        let again = sym (ap (λ p. p.0) (with_conn_again g)) ∙ h in
        let (_, _, good) = bind-succeeded (reconnect W setup) _ (fn s.conn s).1 again in
        (_, _, good)
    | inr (inr g) ↦ let clash = sym (ap (λ p. p.0) (with_conn_panic g)) ∙ h in cc
  ]

-- A part of a run whose end is known.
pub bind_run :
    {W : World} {A B : Type 0} (m : Run W A) (f : A → Run W B) (s : Adapter W) {a : A}
    {s' : Adapter W}
    → m s ≡ (success a, s')
    → (m >>= f) s ≡ f a s'
bind_run m f s {a = a} h = bind_success m f s (ap (λ p. p.0) h) ∙ ap (λ p. f a p.1) h

pub fail_run :
    {W : World} {A B : Type 0} (m : Run W A) (f : A → Run W B) (s : Adapter W) {e : RegError}
    {s' : Adapter W}
    → m s ≡ (failure e, s')
    → (m >>= f) s ≡ (failure e, s')
fail_run m f s {e = e} h = bind_failure m f s (ap (λ p. p.0) h) ∙ ap (λ p. (failure e, p.1)) h

pub required-some :
    {W : World} {A : Type 0} (message : Bytes) (o : Option A) (s : Adapter W) {a : A}
    → o ≡ some a
    → required {W = W} message o s ≡ (success a, s)
required-some message o s h = rw h refl
