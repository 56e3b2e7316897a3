-- ===== src/Together/Tests.antt =====
-- Logins at a server that refuses the first two of a connection, and at one that refuses none.
use epp_test.Base.{
  ℕ, ◌≤◌, ◌≡◌, refl, inl, inr, false, ◌⊎◌, true, [], ◌∷◌, none, some, arith, if◌then◌else◌,
}
use epp_test.Base.Int.{pos}
use epp_test.Base.Text.{Bytes, codes}
use epp_test.Base.Decimal.{decimal}
use epp_test.Fault.{FaultProfile, no_faults}
use epp_test.Registrar.{EppError, epp}
use epp_test.EppXml.{EppEnvelope, EppResponse, Greeting}
use epp_test.MockEppServer.{new_session}
use epp_test.MockEppServer.Text.{
  has_element, opens, at_element, find_element, strip_prefix, skip_namespace, skip_name,
  is_name_start, is_name_char, ends_name, echo_cl_trid, cl_trid_text, up_to_end_tag,
}
use epp_test.MockEppServer.Answers.{Clock, greeting, build_resp, resp_1000, cl_trid_element}
use epp_test.MockEppServer.Dialogue.{IsCalm}
use epp_test.Frame.{fresh}
use epp_test.EppAdapter.{World, Setup, Adapter, success, failure, ◌>>=◌, intersection, or_no_uris}
use epp_test.EppAdapter.Connect.{dial_and_login}
use epp_test.Together.{together}
use epp_test.Together.Flap.{Understood, dial_and_login-flap}
use epp_test.Together.Pings.{idle, pings, dial_and_login-pings}

abbrev clock : Clock
clock = record { now = codes "2026-01-01T00:00:00Z"; in_a_year = codes "2027-01-01T00:00:00Z" }

abbrev refusals : ℕ
refusals = 2

abbrev flapping : FaultProfile
flapping = record no_faults { login_mode = codes "flap"; login_fail_count = pos refusals }

abbrev calm : IsCalm flapping refusals
calm = record {
  keeps_on = refl;
  never_after = refl;
  no_rules = refl;
  no_mismatch = refl;
  well_formed = refl;
  logins = inl (refl, refl);
}

abbrev hello : Greeting
hello = record {
  sv_id = codes "s";
  svc_menu = record {
    version = codes "1.0" ∷ [];
    lang = codes "en" ∷ [];
    obj_uri = [];
    svc_extension = none;
  };
}

abbrev refused : EppResponse
refused = record {
  result = record { code = pos 2200; msg = codes "Authentication error"; reason = [] };
  msg_q = none;
  res_data = none;
  extension = none;
}

abbrev completed : EppResponse
completed = record refused {
  result = record { code = pos 1000; msg = codes "Command completed successfully"; reason = [] };
}

abbrev parsed : Bytes → EppEnvelope
parsed bs =
    if has_element (codes "greeting") bs
    then record { command = none; response = none; greeting = some hello }
    else record { command = none; response = some refused; greeting = none }

abbrev outside : World
outside = record {
  Net = Unit {0};
  Conn = Unit {0};
  dial = λ net. (none, net);
  write = λ c bs net. (true, net);
  read_full = λ c n net. (none, net);
  close = λ c net. net;
  marshal = λ env. some (codes "<login>");
  unmarshal = λ bs. some (parsed bs);
  domain_infos = λ bs. none;
  domain_checks = λ bs. none;
  contact_infos = λ bs. none;
  host_infos = λ bs. none;
  to_ascii = λ n. some n;
  parse_time = λ t. some t;
  parse_ip = λ t. none;
}

abbrev setup : Setup
setup = record {
  name = codes "nicat";
  username = codes "u";
  password = codes "p";
  extensions = [];
  on_build_domain_create = none;
  on_build_domain_update = none;
  on_build_contact_create = none;
  on_parse_domain_info = none;
  on_parse_contact_info = none;
}

abbrev both : World
both = together clock flapping outside

abbrev start : Adapter both
start = record {
  conn = none;
  advertised_ext = [];
  cl_trid = 0;
  net = record { session = new_session clock flapping fresh 41; pending = [] };
}

abbrev reply_envelope : EppEnvelope
reply_envelope = record { command = none; response = some refused; greeting = none }

understood : Understood clock flapping refusals calm outside setup start
unfolding greeting build_resp has_element opens at_element find_element strip_prefix skip_namespace
    skip_name is_name_start is_name_char ends_name echo_cl_trid cl_trid_text up_to_end_tag
    cl_trid_element decimal
understood = record {
  hello = record { command = none; response = none; greeting = some hello };
  g = hello;
  greeting_fits = omega arith;
  greeting_read = refl;
  greets = refl;
  xml = codes "<login>";
  made = refl;
  is_login = refl;
  fits = omega arith;
  some_bytes = omega arith;
  env = reply_envelope;
  r = refused;
  reply_fits = omega arith;
  reply_read = refl;
  responds = refl;
  code = refl;
}

dial_and_login-flap_example :
    (((refusals ≡ 0)
        × ((dial_and_login both setup start).0 ≡ success tt)
        × ((dial_and_login both setup start).1.conn ≡ some tt))
      ⊎ ((1 ≤ refusals)
          × (e : EppError) × ((dial_and_login both setup start).0 ≡ failure (epp e))
          × (e.code ≡ pos 2200)
          × ((dial_and_login both setup start).1.conn ≡ none)))
    × ((dial_and_login both setup start).1.cl_trid ≡ 1)
    × ((dial_and_login both setup start).1.net.session.sv_trid ≡ 42)
dial_and_login-flap_example =
    dial_and_login-flap clock flapping refusals calm outside setup start understood

abbrev calm_always : IsCalm no_faults 0
calm_always = record {
  keeps_on = refl;
  never_after = refl;
  no_rules = refl;
  no_mismatch = refl;
  well_formed = refl;
  logins = inr (refl, refl);
}

-- The responses of this world have the code 1000.
abbrev welcoming : World
welcoming = record outside {
  unmarshal = λ bs. some (
      if has_element (codes "greeting") bs
      then record { command = none; response = none; greeting = some hello }
      else record { command = none; response = some completed; greeting = none });
}

abbrev fault_free : World
fault_free = together clock no_faults welcoming

abbrev before : Adapter fault_free
before = record {
  conn = none;
  advertised_ext = [];
  cl_trid = 0;
  net = record { session = new_session clock no_faults fresh 41; pending = [] };
}

understood_always : Understood clock no_faults 0 calm_always welcoming setup before
unfolding greeting resp_1000 build_resp has_element opens at_element find_element strip_prefix
    skip_namespace skip_name is_name_start is_name_char ends_name echo_cl_trid cl_trid_text
    up_to_end_tag cl_trid_element decimal
understood_always = record {
  hello = record { command = none; response = none; greeting = some hello };
  g = hello;
  greeting_fits = omega arith;
  greeting_read = refl;
  greets = refl;
  xml = codes "<login>";
  made = refl;
  is_login = refl;
  fits = omega arith;
  some_bytes = omega arith;
  env = record { command = none; response = some completed; greeting = none };
  r = completed;
  reply_fits = omega arith;
  reply_read = refl;
  responds = refl;
  code = refl;
}

dial_and_login-pings_example :
    (dial_and_login fault_free setup >>= λ _. pings clock no_faults 0 calm_always welcoming setup 3)
      before
    ≡ (
      success tt,
      idle clock no_faults 0 calm_always welcoming setup
          (intersection setup.extensions (or_no_uris understood_always.g.svc_menu.svc_extension))
          1
          42
          1
          3
          false,
    )
dial_and_login-pings_example =
    dial_and_login-pings clock no_faults calm_always welcoming setup before understood_always 3
