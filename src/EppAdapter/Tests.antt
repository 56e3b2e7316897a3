-- ===== src/EppAdapter/Tests.antt =====
-- An EPP server in a few lines, and the theorems at it.
use epp_test.Base.Result.{Result, ok, err}
use epp_test.Base.{
  ℕ, zero, suc, ◌≡◌, ◌+◌, ◌≤◌, ◌≢◌, ◌⊎◌, refl, true, [], ◌∷◌, Option, none, some, ◌==◌,
  if◌then◌else◌,
}
use epp_test.Base.Int.{pos}
use epp_test.Base.Text.{Bytes, codes, text_eq}
use epp_test.Registrar.{plain, PollMessage}
use epp_test.EppXml.{EppEnvelope}
use epp_test.EppAdapter.{
  World, Setup, Adapter, failure, panic, ◌>>=◌, result_to_error, intersection, is_member,
}
use epp_test.EppAdapter.Connect.{
  next_cl_trid, dial_and_login, reconnect, with_conn, read_frame_on, or_hang_up, read_greeting,
  read_bytes, send_login, exchange, respond, send_and_receive, write_frame_on, write_bytes, hang_up,
  login_command,
}
use epp_test.Frame.{get_u32, put_u32}
use epp_test.Base.Decimal.{decimal}
use epp_test.Frame.{ReadError, read_full}
use epp_test.EppAdapter.Agreed.{Configured}
use epp_test.EppAdapter.Messages.{ping, log_out}
use epp_test.EppAdapter.Calls.{Reaches, here, and_then, logs_in, logs_out, pings, Reaches-Sound}
use epp_test.Config.{RegistrarConfig}
use epp_test.EppAdapter.Tls.{Files, TlsConfig, OfConfig, Unusable}
use epp_test.EppAdapter.Secured.{secured, behind_dialer, dial_and_login-secured}
use epp_test.EppAdapter.Once.{DialCounter, count_calls, Reaches-dials}
use epp_test.EppAdapter.Lost.{lost_connection-panics}

-- The bytes `1` are a greeting, any other is a response with a message.
abbrev greeting_text : EppEnvelope
greeting_text = record {
  command = none;
  response = none;
  greeting = some (record {
    sv_id = codes "s";
    svc_menu = record {
      version = codes "1.0" ∷ [];
      lang = codes "en" ∷ [];
      obj_uri = [];
      svc_extension = some (codes "a" ∷ codes "b" ∷ []);
    };
  });
}

abbrev response_text : EppEnvelope
response_text = record {
  command = none;
  response = some (record {
    result = record { code = pos 1301; msg = codes "ok"; reason = [] };
    msg_q = some (record { count = pos 1; id = codes "7"; msg = codes "transfer" });
    res_data = none;
    extension = none;
  });
  greeting = none;
}

abbrev parsed : Bytes → Option EppEnvelope
parsed [] = none
parsed (b ∷ bs) = if b == 1 then some greeting_text else some response_text

-- How many connections are accepted still, and what is to be read of the one in use.
abbrev Net : Type 0
Net = ℕ × Bytes

abbrev session : Bytes
session = 0 ∷ 0 ∷ 0 ∷ 5 ∷ 1 ∷ 0 ∷ 0 ∷ 0 ∷ 5 ∷ 2 ∷ 0 ∷ 0 ∷ 0 ∷ 5 ∷ 1 ∷ []

abbrev dialled : Net → Option (Unit {0}) × Net
dialled (zero, bs) = (none, (zero, bs))
dialled (suc n, bs) = (some tt, (n, session))

abbrev as_read : ℕ → Result ReadError (Bytes × Bytes) → Bytes → Option Bytes × Net
as_read left (ok (got, rest)) bs = (some got, (left, rest))
as_read left (err e) bs = (none, (left, bs))

abbrev read_some : Unit {0} → ℕ → Net → Option Bytes × Net
read_some c n (left, bs) = as_read left (read_full n bs) bs

abbrev world : World
world = record {
  Net = Net;
  Conn = Unit {0};
  dial = dialled;
  write = λ c bs n. (true, n);
  read_full = read_some;
  close = λ c n. (n.0, []);
  marshal = λ env. some [];
  unmarshal = parsed;
  domain_infos = λ bs. none;
  domain_checks = λ bs. none;
  contact_infos = λ bs. none;
  host_infos = λ bs. none;
  to_ascii = λ n. some n;
  parse_time = λ t. some t;
  parse_ip = λ t. none;
}

abbrev setup : Setup
setup = record {
  name = codes "nicat";
  username = codes "u";
  password = codes "p";
  extensions = codes "b" ∷ codes "c" ∷ [];
  on_build_domain_create = none;
  on_build_domain_update = none;
  on_build_contact_create = none;
  on_parse_domain_info = none;
  on_parse_contact_info = none;
}

abbrev fresh : ℕ → Adapter world
fresh n = record { conn = none; advertised_ext = []; cl_trid = 0; net = (n, []) }

abbrev logged_in : Adapter world
logged_in = (dial_and_login world setup (fresh 1)).1

-- A login reads the greeting and the response, and agrees on the one extension of both.
logged_in_extensions : logged_in.advertised_ext ≡ codes "b" ∷ []
unfolding dial_and_login ◌>>=◌ or_hang_up read_greeting read_frame_on read_bytes read_full get_u32
    send_login exchange respond next_cl_trid send_and_receive write_frame_on write_bytes
    result_to_error intersection is_member text_eq decimal hang_up login_command put_u32
logged_in_extensions = refl

abbrev pinged : Adapter world
pinged = (ping world setup (dial_and_login world setup (next_cl_trid world setup (fresh 1)).1).1).1

Reaches-Sound_example :
    Configured setup pinged.advertised_ext
    × ((next_cl_trid world setup (fresh 1)).0 ≢ (next_cl_trid world setup pinged).0)
Reaches-Sound_example =
    Reaches-Sound setup (fresh 1) pinged (and_then (and_then here logs_in) pings) tt

lost_connection-panics_example :
    ((with_conn world setup (read_frame_on world) (record (fresh 0) { conn = some tt })).0
      ≡ failure (plain (codes "dial")))
    × ((ping world setup
          (with_conn world setup (read_frame_on world) (record (fresh 0) { conn = some tt })).1).0
        ≡ panic)
unfolding read_frame_on ◌>>=◌ read_bytes read_full reconnect dial_and_login hang_up
lost_connection-panics_example =
    lost_connection-panics world setup (read_frame_on world) (record (fresh 0) { conn = some tt })
      (codes "read frame header") (plain (codes "dial")) refl refl

abbrev transfer_message : PollMessage
transfer_message = record {
  id = codes "7";
  kind = [];
  content = codes "transfer";
  queue_depth = pos 1;
}

-- The world above, which counts how often it was dialled.
abbrev counting : World
counting = record world {
  Net = Net × ℕ;
  dial = λ net. ((dialled net.0).0, ((dialled net.0).1, suc net.1));
  write = λ c bs net. (true, net);
  read_full = λ c n net. ((read_some c n net.0).0, ((read_some c n net.0).1, net.1));
  close = λ c net. ((net.0.0, []), net.1);
}

abbrev dial_count : DialCounter counting
dial_count = record {
  dials = λ net. net.1;
  on_dial = λ net. refl;
  on_write = λ c bs net. refl;
  on_read = λ c n net. refl;
  on_close = λ c net. refl;
}

abbrev offline : Adapter counting
offline = record { conn = none; advertised_ext = []; cl_trid = 0; net = ((2, []), 0) }

-- A login, a ping whose first try fails, and a logout.
retried :
    Reaches counting setup offline
      (log_out counting setup (ping counting setup (dial_and_login counting setup offline).1).1).1
retried = and_then (and_then (and_then here logs_in) pings) logs_out

Reaches-dials_example :
    (log_out counting setup
      (ping counting setup (dial_and_login counting setup offline).1).1).1.net.1
    ≤ offline.net.1 + count_calls retried
Reaches-dials_example = Reaches-dials dial_count setup retried

-- Every file holds its own name, and the libraries take any text.
abbrev files : Files
files = record {
  Pool = Bytes;
  KeyPair = Bytes × Bytes;
  read_file = λ name. some name;
  pool_of = λ pem. some pem;
  load_key_pair = λ cert key. some (cert, key);
}

abbrev mutual_tls : RegistrarConfig
mutual_tls = record {
  host = codes "epp.example";
  port = pos 700;
  username = codes "u";
  password = codes "p";
  cert_file = codes "c.pem";
  key_file = codes "k.pem";
  ca_file = codes "ca.pem";
  extensions = [];
}

-- The library dials under any configuration that names a server.
abbrev dialer : TlsConfig files → Net → Option (Unit {0}) × Net
dialer tls net = if text_eq tls.server_name [] then (none, net) else dialled net

abbrev tls_world : World
tls_world = secured files world dialer none mutual_tls

abbrev off : Adapter tls_world
off = record { conn = none; advertised_ext = []; cl_trid = 0; net = (1, []) }

dial_and_login-secured_example :
    (Unusable files mutual_tls
      × (dial_and_login tls_world setup off ≡ (failure (plain (codes "dial")), off)))
    ⊎ ((tls : TlsConfig files) × OfConfig files mutual_tls tls
        × (dial_and_login tls_world setup off
            ≡ behind_dialer files world dialer mutual_tls setup off (dialer tls off.net)))
dial_and_login-secured_example = dial_and_login-secured files world dialer mutual_tls setup off
