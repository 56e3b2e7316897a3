-- ===== src/RriMock/Server.antt =====
-- pkg/mock/rri/server.go and fault.go: the handler of a connection. The locks and the channels
-- become fields: `expect` holds the items that were pushed, `received` the frames that the test has
-- not taken yet. A handler that waits on an empty queue ends with the test, so it ends there.
-- The MD5 hash is a parameter. Deadlines, delays and the listener are left out.
pub mod Session
pub mod Capture
pub mod Script
pub mod Shared
mod Tests
use epp_test.Base.{
  ℕ, zero, suc, ◌+◌, Bool, true, false, ◌&&◌, not, List, [], ◌∷◌, ◌++◌, Option, none, some,
  if◌then◌else◌, length, ltb,
}
use epp_test.Base.Text.{Bytes, codes, text_eq, to_upper}
use epp_test.Base.Dict.{Dict, lookup, insert}
use epp_test.Base.Decimal.{decimal}
use epp_test.Base.Result.{ok, err}
use epp_test.Frame.{Writer, write, read_rri_frame, write_rri_frame}
use epp_test.RriMock.Kv.{parse_kv, first_field}

-- An item of the queue `Expect`: the two kinds that `dispatch` knows, and any other Go value.
pub data Item : Type 0 where
  scripted : Bytes → Item
  malformed_frame : Item
  unknown : Item

pub record Server : Type 0 where
  pub expect : List Item
  pub received : List Bytes
  pub users : Dict Bytes
  pub stid_counter : ℕ

abbrev pub channel_capacity : ℕ
channel_capacity = 32

-- `AddUser`
unfoldable pub add_user : (Bytes → Bytes) → Bytes → Bytes → Server → Server
add_user md5_hex user password s = record s { users = insert user (md5_hex password) s.users }

-- The send that drops the frame when the buffer is full.
unfoldable pub receive : Bytes → Server → Server
receive frame s =
    if ltb (length s.received) channel_capacity
    then record s { received = s.received ++ (frame ∷ []) }
    else s

-- `handleLogin`
unfoldable pub handle_login : Dict (List Bytes) → Server → Bool
handle_login fields s = elim (lookup (first_field fields (codes "user")) s.users) [
  | none ↦ false
  | some stored ↦ text_eq stored (first_field fields (codes "password"))
]

-- `s.stidCounter.Add(1)`
abbrev next_stid : Server → Server
next_stid s = record s { stid_counter = suc s.stid_counter }

-- `buildSuccessResponse`
unfoldable pub build_success_response : Server → Bytes × Server
build_success_response s =
    let s' = next_stid s in
    (codes "RESULT: success\nSTID: mock-" ++ (decimal s'.stid_counter ++ codes "\n"), s')

-- `buildFailureResponse`
unfoldable pub build_failure_response : Bytes → Server → Bytes × Server
build_failure_response message s =
    let s' = next_stid s in
    (
      codes "RESULT: failed\nSTID: mock-"
          ++ (decimal s'.stid_counter ++ (codes "\nERROR: " ++ (message ++ codes "\n"))),
      s',
    )

-- `dispatch`; the flag tells a success.
unfoldable pub dispatch : Writer → Item → Writer × Bool
dispatch w (scripted bs) =
    let (w', e) = write_rri_frame w bs in (w', elim e [ none ↦ true | some _ ↦ false ])
dispatch w malformed_frame = write w (0 ∷ 0 ∷ 0 ∷ 0 ∷ [])
dispatch w unknown = (w, false)

-- A connection after a frame: whether the handler goes on, and whether the client is logged in.
pub record Conn : Type 0 where
  pub serving : Bool
  pub logged_in : Bool
  pub writer : Writer
  pub server : Server

-- Writes a response of the server's own; an error of the writer ends the handler.
abbrev respond : Bool → Writer → Bytes × Server → Conn
respond logged_in w (bs, s) =
    let (w', e) = write_rri_frame w bs in
    record {
      serving = elim e [ none ↦ true | some _ ↦ false ];
      logged_in = logged_in;
      writer = w';
      server = s;
    }

-- The default case: the next item of the script. A LOGOUT ends the handler behind it.
unfoldable pub serve_script : Bool → Writer → Server → List Item → Conn
serve_script logout w s [] = record { serving = false; logged_in = true; writer = w; server = s }
serve_script logout w s (item ∷ items) =
    let (w', sent) = dispatch w item in
    record {
      serving = sent && not logout;
      logged_in = true;
      writer = w';
      server = record s { expect = items };
    }

-- The switch of `handleConn`: whether the action is LOGIN or LOGOUT, whether `handleLogin`
-- accepts the fields, and whether the client is logged in.
unfoldable pub answer : Bool → Bool → Bool → Bool → Writer → Server → Conn
answer false logout accepted false w s =
    respond false w (build_failure_response (codes "83000000010 Please login first") s)
answer true logout true logged_in w s = respond true w (build_success_response s)
answer true logout false logged_in w s =
    respond logged_in w (build_failure_response (codes "83000000010 Authentication failed") s)
answer false logout accepted true w s = serve_script logout w s s.expect

-- The body of the loop in `handleConn`, for one frame.
unfoldable pub handle_frame : Bytes → Bool → Writer → Server → Conn
handle_frame frame logged_in w s0 =
    let s = receive frame s0 in
    let fields = parse_kv frame in
    let action = to_upper (first_field fields (codes "action")) in
    answer (text_eq action (codes "LOGIN")) (text_eq action (codes "LOGOUT"))
      (handle_login fields s) logged_in w s

-- The loop of `handleConn` over the bytes that the client sends; a frame has at least four.
unfoldable pub conn_loop : ℕ → Bytes → Conn → Conn
conn_loop zero input c = record c { serving = false }
conn_loop (suc fuel) input c = elim (read_rri_frame input) [
  | err e ↦ record c { serving = false }
  | ok (frame, rest) ↦
      let c' = handle_frame frame c.logged_in c.writer c.server in
      let after = conn_loop fuel rest c' in if c'.serving then after else c'
]

-- `handleConn`
unfoldable pub handle_conn : Bytes → Writer → Server → Conn
handle_conn input w s =
    conn_loop (suc (length input)) input
      (record { serving = true; logged_in = false; writer = w; server = s })
