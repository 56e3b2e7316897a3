-- ===== src/EppAdapter/Connect.antt =====
-- pkg/registrar/epp/connect.go, and from adapter.go what all commands share.
use epp_test.Base.{
  ℕ, suc, ◌-◌, ◌+◌, List, [], ◌∷◌, ◌++◌, Option, none, some, if◌then◌else◌, ltb, length,
}
use epp_test.Base.Text.{Bytes, codes}
use epp_test.Base.Decimal.{decimal}
use epp_test.Frame.{put_u32, get_u32, u32, header_len}
use epp_test.Registrar.{epp, plain}
use epp_test.EppXml.{EppEnvelope, Command, EppResponse, login}
use epp_test.EppAdapter.{
  World, Setup, Adapter, Run, ◌>>=◌, return, broken, required, no_extension, checked, intersection,
  or_no_uris, success, failure, panic,
}

module _ (W : World) where
  open W use {Net, Conn, dial, write, read_full, close, marshal, unmarshal}

  -- `WriteFrame` and `ReadFrame` on a connection; a nil one panics.
  unfoldable pub write_bytes : Conn → Bytes → Bytes → Run W (Unit {0})
  write_bytes c message bs s =
      let (sent, net) = write c bs s.net in
      (if sent then success tt else failure (plain message), record s { net = net })

  unfoldable pub write_frame_on : Option Conn → Bytes → Run W (Unit {0})
  write_frame_on none bs = λ s. (panic, s)
  write_frame_on (some c) bs =
      write_bytes c (codes "write frame header") (put_u32 (u32 (length bs + header_len))) >>= λ _.
      write_bytes c (codes "write frame body") bs

  unfoldable pub read_bytes : Conn → Bytes → ℕ → Run W Bytes
  read_bytes c message n s =
      let (got, net) = read_full c n s.net in
      (elim got [ none ↦ failure (plain message) | some bs ↦ success bs ], record s { net = net })

  unfoldable pub read_frame_on : Option Conn → Run W Bytes
  read_frame_on none = λ s. (panic, s)
  read_frame_on (some c) = read_bytes c (codes "read frame header") header_len >>= λ hdr.
      if ltb (get_u32 hdr) header_len
      then broken (codes "invalid frame length")
      else read_bytes c (codes "read frame body") (get_u32 hdr - header_len)

  -- `sendAndReceive`
  unfoldable pub send_and_receive : Option Conn → EppEnvelope → Run W EppEnvelope
  send_and_receive conn env = required (codes "marshal") (marshal env) >>= λ payload.
      write_frame_on conn payload >>= λ _.
      read_frame_on conn >>= λ resp. required (codes "unmarshal response") (unmarshal resp)

  -- `a.conn.Close()` and `a.conn = nil`.
  unfoldable pub hang_up : Adapter W → Adapter W
  hang_up s = elim s.conn [ none ↦ s | some c ↦ record s { conn = none; net = close c s.net } ]

  module _ (setup : Setup) where
    -- `nextClTRID`
    unfoldable pub next_cl_trid : Run W Bytes
    next_cl_trid s =
        let n = suc s.cl_trid in
        (
          success (codes "gsd-" ++ (setup.name ++ (codes "-" ++ decimal n))),
          record s { cl_trid = n },
        )

    -- What all commands share: the transaction ID, the extension, the exchange, and the result.
    unfoldable pub respond : Option Conn → Command → Run W (Option Bytes) → Run W EppResponse
    respond conn command build = next_cl_trid >>= λ id. build >>= λ extension.
        send_and_receive conn (record {
          command = some (record { command = command; extension = extension; cl_trid = id });
          response = none;
          greeting = none;
        })
        >>= λ env. required (codes "response missing <epp:response>") env.response

    unfoldable pub exchange :
        Option Conn → Bytes → Command → Run W (Option Bytes) → Run W EppResponse
    exchange conn label command build =
        respond conn command build >>= λ resp. checked resp.result label >>= λ _. return resp

    -- `readGreeting`
    unfoldable pub read_greeting : Run W (Unit {0})
    read_greeting s =
        (read_frame_on s.conn >>= λ raw.
        required (codes "unmarshal greeting envelope") (unmarshal raw) >>= λ env.
        required (codes "server sent frame without <epp:greeting>") env.greeting >>= λ g t. (
          success tt,
          record t {
            advertised_ext = intersection setup.extensions (or_no_uris g.svc_menu.svc_extension);
          },
        ))
          s

    -- The login command for these extensions.
    unfoldable pub login_command : List Bytes → Command
    login_command extensions = login (record {
      cl_id = setup.username;
      pw = setup.password;
      options = record { version = codes "1.0"; lang = codes "en" };
      svcs = record {
        obj_uri =
            codes "urn:ietf:params:xml:ns:domain-1.0"
            ∷ codes "urn:ietf:params:xml:ns:contact-1.0"
            ∷ codes "urn:ietf:params:xml:ns:host-1.0"
            ∷ [];
        svc_extension = elim extensions [ [] ↦ none | uri ∷ uris ↦ some (uri ∷ uris) ];
      };
    })

    -- `sendLogin`
    unfoldable pub send_login : Run W (Unit {0})
    send_login s =
        (exchange s.conn (codes "epp:login") (login_command s.advertised_ext) no_extension >>= λ _.
        return tt)
          s

    -- A step of `dial`: where it fails the connection is closed.
    unfoldable pub or_hang_up : Run W (Unit {0}) → Run W (Unit {0})
    or_hang_up m s =
        let (o, s') = m s in
        elim o [
          | success _ ↦ (success tt, s')
          | failure e ↦ (failure e, hang_up s')
          | panic ↦ (panic, s')
        ]

    -- `dial`, which is `Login`.
    unfoldable pub dial_and_login : Run W (Unit {0})
    dial_and_login s =
        let (conn, net) = dial s.net in
        elim conn [
          | none ↦ (failure (plain (codes "dial")), record s { net = net })
          | some c ↦
              (or_hang_up read_greeting >>= λ _. or_hang_up send_login)
                (record s { conn = some c; net = net })
        ]

    -- `reconnect`, without the pause.
    unfoldable pub reconnect : Run W (Unit {0})
    reconnect s = dial_and_login (hang_up s)

    -- `withConn`: an operation, tried a second time on a new connection where the first try failed
    -- with an error that is no `*EPPError`.
    unfoldable pub with_conn : {A : Type 0} → (Option Conn → Run W A) → Run W A
    with_conn fn s =
        let (o, s') = fn s.conn s in
        elim o [
          | success a ↦ (success a, s')
          | panic ↦ (panic, s')
          | failure (epp e) ↦ (failure (epp e), s')
          | failure (plain m) ↦ (reconnect >>= λ _ t. fn t.conn t) s'
        ]

    -- One command under `withConn`, and what is made of its response.
    unfoldable pub commanded :
        {A : Type 0} → Bytes → Command → Run W (Option Bytes) → (EppResponse → Run W A) → Run W A
    commanded label command build parse =
        with_conn (λ conn. exchange conn label command build >>= parse)
