-- ===== src/EppAdapter/Once.antt =====
-- How often the EPP adapter connects: connect.go allows one retry of an operation.
use epp_test.Base.{ℕ, suc, ◌+◌, ◌≤◌, ◌≡◌, refl, ap, ◌∙◌, arith, inl, inr, Option, Option-cases}
use epp_test.Base.Text.{Bytes}
use epp_test.Registrar.{epp, plain}
use epp_test.EppAdapter.{World, Setup, Adapter, Run, Outcome-cases, ◌>>=◌}
use epp_test.EppAdapter.Connect.{hang_up, dial_and_login, reconnect, with_conn}
use epp_test.EppAdapter.Session.{
  Law, Calling, Steady, bind-Steady, hang_up-Steady, or_hang_up-Steady, read_greeting-Steady,
  send_login-Steady,
}
use epp_test.EppAdapter.Calls.{Reaches, here, and_then, step-Call}

-- A count of the attempts to connect: dialling adds one, whether it succeeds or not, and nothing
-- else that is done with a connection changes it.
pub record DialCounter (W : World) : Type 0 where
  pub dials : W.Net → ℕ
  pub on_dial : (net : W.Net) → dials (W.dial net).1 ≡ suc (dials net)
  pub on_write : (c : W.Conn) (bs : Bytes) (net : W.Net) → dials (W.write c bs net).1 ≡ dials net
  pub on_read : (c : W.Conn) (n : ℕ) (net : W.Net) → dials (W.read_full c n net).1 ≡ dials net
  pub on_close : (c : W.Conn) (net : W.Net) → dials (W.close c net) ≡ dials net

-- The calls that lead from one state to another.
unfoldable pub count_calls : {W : World} {setup : Setup} {s t : Adapter W} → Reaches W setup s t → ℕ
count_calls here = 0
count_calls (and_then run step) = suc (count_calls run)

module _ {W : World} (counter : DialCounter W) (setup : Setup) where
  open counter use {dials, on_dial, on_write, on_read, on_close}

  -- What a command does on the connection that it has dials nothing.
  abbrev undialled : Law W setup
  undialled = record {
    Rel = λ s t. dials t.net ≡ dials s.net;
    nothing = λ s. refl;
    and_then = λ a b. b ∙ a;
    writes = λ c bs s. on_write c bs s.net;
    reads = λ c n s. on_read c n s.net;
    ends = λ c s. on_close c s.net;
    counts = λ s. refl;
    agrees = λ uris s. refl;
  }

  dial_and_login-dials :
      (s : Adapter W) → dials (dial_and_login W setup s).1.net ≡ suc (dials s.net)
  unfolding dial_and_login
  dial_and_login-dials s = elim (Option-cases (W.dial s.net).0) [
    | inl e ↦ rw (e, dial_and_login) (on_dial s.net)
    | inr (c, e) ↦
        rw (e, dial_and_login)
          (bind-Steady undialled _ _
              (or_hang_up-Steady undialled _ (read_greeting-Steady undialled))
              (λ _. or_hang_up-Steady undialled _ (send_login-Steady undialled)) _
            ∙ on_dial s.net)
  ]

  reconnect-dials : (s : Adapter W) → dials (reconnect W setup s).1.net ≡ suc (dials s.net)
  unfolding reconnect
  reconnect-dials s = dial_and_login-dials (hang_up W s) ∙ ap suc (hang_up-Steady undialled s)

  module _ {A : Type 0} (fn : Option W.Conn → Run W A)
      (steady : (conn : Option W.Conn) → Steady undialled (fn conn)) where
    -- The second try.
    retry-dials :
        (s : Adapter W)
        → dials ((reconnect W setup >>= λ _ t. fn t.conn t) s).1.net ≡ suc (dials s.net)
    unfolding ◌>>=◌
    retry-dials s = elim (Outcome-cases (reconnect W setup s).0) [
      | inl (a, e) ↦
          let t = (reconnect W setup s).1 in rw (e, ◌>>=◌) (steady t.conn t ∙ reconnect-dials s)
      | inr (inl (x, e)) ↦ rw (e, ◌>>=◌) (reconnect-dials s)
      | inr (inr e) ↦ rw (e, ◌>>=◌) (reconnect-dials s)
    ]

    with_conn-dials : (s : Adapter W) → dials (with_conn W setup fn s).1.net ≤ dials s.net + 1
    unfolding with_conn
    with_conn-dials s = elim (Outcome-cases (fn s.conn s).0) [
      | inl (a, e) ↦ rw (e, with_conn) (omega (arith, steady s.conn s))
      | inr (inl (epp x, e)) ↦ rw (e, with_conn) (omega (arith, steady s.conn s))
      | inr (inl (plain m, e)) ↦
          rw (e, with_conn) (omega (arith, steady s.conn s, retry-dials (fn s.conn s).1))
      | inr (inr e) ↦ rw (e, with_conn) (omega (arith, steady s.conn s))
    ]

  abbrev once : Calling undialled
  once = record {
    Call = λ s t. dials t.net ≤ dials s.net + 1;
    quiet = λ e. omega (arith, e);
    behind = λ e c. omega (arith, e, c);
    tries = with_conn-dials;
    logs_in = λ s. omega (arith, dial_and_login-dials s);
  }

  -- Whatever calls of its methods follow one another, and however the network answers, an adapter
  -- tries to connect at most once in each call: never more often than there are calls.
  pub Reaches-dials :
      {s t : Adapter W} (run : Reaches W setup s t) → dials t.net ≤ dials s.net + count_calls run
  unfolding count_calls
  Reaches-dials here = omega arith
  Reaches-dials (and_then run step) = omega (arith, Reaches-dials run, step-Call once step)
