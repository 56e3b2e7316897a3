-- ===== src/EppAdapter/Secured.antt =====
-- `dial` of connect.go with the configuration that it dials under. `tls.Dialer` is a parameter.
use epp_test.Base.{◌≡◌, refl, ap, ◌∙◌, Option-cases, ◌⊎◌, inl, inr, Option, none, some}
use epp_test.Base.Text.{codes}
use epp_test.Base.Result.{ok, err, Result-cases}
use epp_test.Registrar.{plain}
use epp_test.Config.{RegistrarConfig}
use epp_test.EppAdapter.{World, Setup, Adapter, Outcome, failure, ◌>>=◌}
use epp_test.EppAdapter.Connect.{read_greeting, send_login, or_hang_up, dial_and_login}
use epp_test.EppAdapter.Tls.{
  Files, TlsConfig, build_tls_config, OfConfig, Unusable, build_tls_config_sound,
  build_tls_config-Unusable,
}

module _ (F : Files) (W : World) (dialer : TlsConfig F → W.Net → Option W.Conn × W.Net)
    (injected : Option (TlsConfig F)) (cfg : RegistrarConfig) where
  -- The first part of `dial`: the configuration, and the connection under it.
  unfoldable pub dial_tls : W.Net → Option W.Conn × W.Net
  dial_tls net = elim (build_tls_config F injected cfg) [
    | err e ↦ (none, net)
    | ok tls ↦ dialer tls net
  ]

  -- The world in which the adapter dials so.
  abbrev pub secured : World
  secured = record W { dial = dial_tls }

module _ (F : Files) (W : World) (dialer : TlsConfig F → W.Net → Option W.Conn × W.Net)
    (cfg : RegistrarConfig) where
  abbrev V : World
  V = secured F W dialer none cfg

  -- `Login` behind the answer of the dialer: it fails, or goes on to the greeting and the login.
  abbrev pub behind_dialer :
      Setup → Adapter V → Option W.Conn × W.Net → Outcome (Unit {0}) × Adapter V
  behind_dialer setup s (none, net) = (failure (plain (codes "dial")), record s { net = net })
  behind_dialer setup s (some c, net) =
      (or_hang_up V setup (read_greeting V setup) >>= λ _. or_hang_up V setup (send_login V setup))
        (record s { conn = some c; net = net })

  login_dialled :
      (setup : Setup) (s : Adapter V)
      → dial_and_login V setup s ≡ behind_dialer setup s (dial_tls F W dialer none cfg s.net)
  unfolding dial_and_login
  login_dialled setup s = elim (Option-cases (dial_tls F W dialer none cfg s.net).0) [
    | inl missing ↦ rw (missing, dial_and_login) refl
    | inr (c, found) ↦ rw (found, dial_and_login) refl
  ]

  login_at :
      (setup : Setup) (s : Adapter V) (answer : Option W.Conn × W.Net)
      → dial_tls F W dialer none cfg s.net ≡ answer
      → dial_and_login V setup s ≡ behind_dialer setup s answer
  login_at setup s answer h = login_dialled setup s ∙ ap (behind_dialer setup s) h

  -- Without an injected configuration, `Login` asks the dialer for a connection only under one that
  -- is made of the adapter's own, and once: at least TLS 1.2; the configured host as the server's
  -- name; the roots of the CA file, and the system's only where no such file is given; the client's
  -- certificate of the two files, and none only where one of them is not given. Otherwise a file
  -- that is given cannot be used, and `Login` fails and changes neither the adapter nor the network.
  pub dial_and_login-secured :
      (setup : Setup) (s : Adapter V)
      → (Unusable F cfg × (dial_and_login V setup s ≡ (failure (plain (codes "dial")), s)))
        ⊎ ((tls : TlsConfig F) × OfConfig F cfg tls
            × (dial_and_login V setup s ≡ behind_dialer setup s (dialer tls s.net)))
  unfolding dial_tls
  dial_and_login-secured setup s = elim (Result-cases (build_tls_config F none cfg)) [
    | inr (e, bad) ↦ inl (
      build_tls_config-Unusable F cfg e bad,
      login_at setup s (none, s.net) (rw (bad, dial_tls) refl),
    )
    | inl (tls, built) ↦ inr (
      tls,
      build_tls_config_sound F cfg tls built,
      login_at setup s (dialer tls s.net) (rw (built, dial_tls) refl),
    )
  ]
