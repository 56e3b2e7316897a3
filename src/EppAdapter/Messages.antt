-- ===== src/EppAdapter/Messages.antt =====
-- The poll queue and the end of a session of `GenericEPPAdapter`, pkg/registrar/epp/adapter.go.
use epp_test.Base.{[], Option, none, some, if◌then◌else◌}
use epp_test.Base.Int.{pos, eqb_ℤ}
use epp_test.Base.Text.{Bytes, codes}
use epp_test.Registrar.{epp, EppError, PollMessage}
use epp_test.EppXml.{EppResponse, EppEnvelope, EppResult, MsgQ, poll, logout}
use epp_test.EppAdapter.{
  World, Setup, Adapter, Run, ◌>>=◌, return, fail, broken, required, checked, no_extension,
}
use epp_test.EppAdapter.Connect.{
  next_cl_trid, send_and_receive, respond, hang_up, write_frame_on, read_frame_on, with_conn,
  commanded,
}

-- The message of a response; its type is never set.
unfoldable pub message_of : Option MsgQ → PollMessage
message_of none = record { id = []; kind = []; content = []; queue_depth = pos 0 }
message_of (some q) = record { id = q.id; kind = []; content = q.msg; queue_depth = q.count }

-- The error of an empty queue.
abbrev pub queue_empty : EppResult → EppError
queue_empty r = record { code = pos 1300; message = r.msg; reason = []; command = codes "epp:poll" }

abbrev pub hello : Bytes
hello =
    codes
      "<?xml version=\"1.0\" encoding=\"UTF-8\" standalone=\"no\"?><epp xmlns=\"urn:ietf:params:xml:ns:epp-1.0\" xmlns:epp=\"urn:ietf:params:xml:ns:epp-1.0\"><hello/></epp>"

module _ (W : World) (setup : Setup) where
  -- What `PollRead` makes of a response.
  unfoldable pub read_message : EppResponse → Run W PollMessage
  read_message resp =
      if eqb_ℤ resp.result.code (pos 1300)
      then fail (epp (queue_empty resp.result))
      else (checked resp.result (codes "epp:poll") >>= λ _. return (message_of resp.msg_q))

  -- `PollRead`
  unfoldable pub poll_read : Run W PollMessage
  poll_read = with_conn W setup (λ conn.
      respond W setup conn (poll (record { op = codes "req"; msg_id = [] })) no_extension
      >>= read_message)

  -- `PollAck`
  unfoldable pub poll_ack : Bytes → Run W (Unit {0})
  poll_ack id =
      commanded W setup (codes "epp:poll:ack") (poll (record { op = codes "ack"; msg_id = id }))
        no_extension (λ _. return tt)

  -- `Ping`
  unfoldable pub ping : Run W (Unit {0})
  ping =
      with_conn W setup
        (λ conn. write_frame_on W conn hello >>= λ _. read_frame_on W conn >>= λ _. return tt)

  -- The end of `Logout`: the connection goes with the response, whatever it says.
  unfoldable pub end_session : EppEnvelope → Run W (Unit {0})
  end_session env s =
      (required (codes "response missing <epp:response>") env.response >>= λ resp.
      checked resp.result (codes "epp:logout"))
        (hang_up W s)

  -- `Logout` on the connection that it finds.
  unfoldable pub log_out_on : Option W.Conn → Run W (Unit {0})
  log_out_on none = broken (codes "epp: logout: not connected")
  log_out_on (some c) = next_cl_trid W setup >>= λ id.
      send_and_receive W (some c) (record {
        command = some (record { command = logout; extension = none; cl_trid = id });
        response = none;
        greeting = none;
      })
      >>= end_session

  -- `Logout`
  unfoldable pub log_out : Run W (Unit {0})
  log_out s = log_out_on s.conn s

  -- `Close`
  unfoldable pub close : Adapter W → Adapter W
  close s = hang_up W s
