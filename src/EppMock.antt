-- ===== src/EppMock.antt =====
-- pkg/mock/epp/server.go and fault.go: the handler of a connection. The channels become fields:
-- `expect` holds the items that were pushed, `polls` the messages of `InjectPoll`, `received` the
-- frames that the test has not taken yet. A handler that waits on an empty queue ends with the
-- test, so it ends there. Locks, deadlines, delays and the listener are left out.
pub mod Sent
pub mod Stream
mod Tests
use epp_test.Base.{
  ℕ, zero, suc, ◌+◌, Bool, true, false, List, [], ◌∷◌, ◌++◌, Option, none, some, if◌then◌else◌,
  length, ltb,
}
use epp_test.Base.Int.{ℤ}
use epp_test.Base.Decimal.{decimal_ℤ}
use epp_test.Base.Text.{Bytes, codes}
use epp_test.Base.Result.{ok, err}
use epp_test.Frame.{Writer, write, read_frame, write_frame}

-- An item of the queue `Expect`: the kinds that `dispatch` knows, and any other Go value.
pub data Item : Type 0 where
  scripted : Bytes → Item
  malformed_frame : Item
  wrong_result_code : ℤ → Item
  unknown : Item

pub record Server : Type 0 where
  pub expect : List Item
  pub received : List Bytes
  pub polls : List Bytes

abbrev pub received_capacity : ℕ
received_capacity = 32

-- `buildResultCodeResponse`
unfoldable pub build_result_code_response : ℤ → Bytes
unfolding decimal_ℤ
build_result_code_response code =
    codes
      "<?xml version=\"1.0\" encoding=\"UTF-8\" standalone=\"no\"?><epp xmlns=\"urn:ietf:params:xml:ns:epp-1.0\"><response><result code=\""
    ++ (decimal_ℤ code
        ++ (codes "\"><msg>Mock result code "
            ++ (decimal_ℤ code
                ++ codes
                    "</msg></result><trID><svTRID>mock-svtrid-001</svTRID></trID></response></epp>")))

-- `WriteFrame`; the flag tells a success.
unfoldable pub send : Writer → Bytes → Writer × Bool
send w bs = let (w', e) = write_frame w bs in (w', elim e [ none ↦ true | some _ ↦ false ])

-- `dispatch`; the flag tells a success.
unfoldable pub dispatch : Writer → Item → Writer × Bool
unfolding build_result_code_response
dispatch w (scripted bs) = send w bs
dispatch w malformed_frame = write w (0 ∷ 0 ∷ 0 ∷ 1 ∷ [])
dispatch w (wrong_result_code code) = send w (build_result_code_response code)
dispatch w unknown = (w, false)

-- A connection: whether the handler goes on, what it wrote, and the server's queues.
pub record Conn : Type 0 where
  pub serving : Bool
  pub writer : Writer
  pub server : Server

-- The send that drops the frame when the buffer is full.
unfoldable pub receive : Bytes → Server → Server
receive frame s =
    if ltb (length s.received) received_capacity
    then record s { received = s.received ++ (frame ∷ []) }
    else s

-- The message that waits in `pollCh`, if one does, is sent before the next frame is read.
unfoldable pub send_poll : List Bytes → Conn → Conn
send_poll [] c = c
send_poll (p ∷ ps) c =
    let (w, sent) = send c.writer p in
    record { serving = sent; writer = w; server = record c.server { polls = ps } }

-- The next item of the script.
unfoldable pub serve_item : List Item → Conn → Conn
serve_item [] c = record c { serving = false }
serve_item (item ∷ items) c =
    let (w, sent) = dispatch c.writer item in
    record { serving = sent; writer = w; server = record c.server { expect = items } }

-- A frame that was read: it is captured, and answered by the script.
unfoldable pub handle_frame : Bytes → Conn → Conn
handle_frame frame c =
    let s = receive frame c.server in serve_item s.expect (record c { server = s })

-- The rest of the loop's body, behind the poll queue; `next` is the loop.
unfoldable pub serve_next : (Bytes → Conn → Conn) → Bytes → Conn → Conn
serve_next next input c =
    if c.serving
    then elim (read_frame input) [
      | err e ↦ record c { serving = false }
      | ok (frame, rest) ↦
          let c' = handle_frame frame c in
          let after = next rest c' in if c'.serving then after else c'
    ]
    else c

-- The loop of `handleConn` over the bytes that the client sends; a frame has at least four.
unfoldable pub conn_loop : ℕ → Bytes → Conn → Conn
unfolding serve_next
conn_loop zero input c = record c { serving = false }
conn_loop (suc fuel) input c = serve_next (conn_loop fuel) input (send_poll c.server.polls c)

-- `handleConn`
unfoldable pub handle_conn : Bytes → Writer → Server → Conn
handle_conn input w s =
    conn_loop (suc (length input)) input (record { serving = true; writer = w; server = s })
