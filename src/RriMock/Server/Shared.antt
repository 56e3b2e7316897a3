-- ===== src/RriMock/Server/Shared.antt =====
-- pkg/mock/rri/server.go: `acceptLoop` gives every connection a handler of its own, and all of them
-- share the server. A handler advances by one access to the shared state at a time, in any order
-- with the others: capturing a frame, looking a user up, and answering, which draws an STID or
-- takes an item of the script. A handler also ends when its deadline passes, when `DropConnection`
-- closes its connection, and with the test. The log tells what the accesses did, in their order.
pub mod Moves
pub mod Interleaved
use epp_test.Base.{
  ℕ, zero, suc, ◌<◌, ◌≡◌, Bool, true, false, List, [], ◌∷◌, ◌++◌, none, if◌then◌else◌, length, ◌==◌,
}
use epp_test.Base.Text.{Bytes, codes, text_eq, to_upper}
use epp_test.Base.Result.{ok, err}
use epp_test.Base.Decimal.{decimal}
use epp_test.Frame.{Writer, fresh, read_rri_frame, write_rri_frame}
use epp_test.RriMock.Kv.{parse_kv, first_field}
use epp_test.RriMock.Server.{
  Item, scripted, malformed_frame, unknown, Server, Conn, channel_capacity, add_user, receive,
  handle_login, answer,
}

-- Where a handler stands between two accesses: `judged` tells whether the action is LOGIN or
-- LOGOUT, and whether `handleLogin` accepts the fields.
pub data Phase : Type 0 where
  reading closed : Phase
  captured : Bytes → Phase
  judged : Bool → Bool → Bool → Phase

-- `input` is what the client sends that the handler has not read.
pub record Handler : Type 0 where
  pub phase : Phase
  pub logged_in : Bool
  pub input : Bytes
  pub writer : Writer

-- A response of the server's own, with the connection and its STID; an item that a connection took;
-- and an item that the test pushed.
pub data Event : Type 0 where
  own : ℕ → ℕ → Bytes → Event
  took : ℕ → Item → Event
  pushed : Item → Event

pub record Moved : Type 0 where
  pub handler : Handler
  pub server : Server
  pub events : List Event

-- The text of a success and of a failure with the given STID.
abbrev pub success_text : ℕ → Bytes
success_text n = codes "RESULT: success\nSTID: mock-" ++ (decimal n ++ codes "\n")

abbrev pub failure_text : Bytes → ℕ → Bytes
failure_text message n =
    codes "RESULT: failed\nSTID: mock-"
    ++ (decimal n ++ (codes "\nERROR: " ++ (message ++ codes "\n")))

-- What the server says by itself to a LOGIN, and to anything else of a client that is not in.
abbrev pub own_text : Bool → Bool → ℕ → Bytes
own_text true true n = success_text n
own_text true false n = failure_text (codes "83000000010 Authentication failed") n
own_text false accepted n = failure_text (codes "83000000010 Please login first") n

abbrev pub first_taken : ℕ → List Item → List Event
first_taken i [] = []
first_taken i (item ∷ items) = took i item ∷ []

-- What an answer on connection `i` does to the shared state: whether the action is LOGIN, whether
-- the fields are accepted, and whether the client is logged in.
abbrev pub answer_events : ℕ → Bool → Bool → Bool → Server → List Event
answer_events i false accepted true s = first_taken i s.expect
answer_events i false accepted false s =
    own i (suc s.stid_counter) (own_text false accepted (suc s.stid_counter)) ∷ []
answer_events i true accepted l s =
    own i (suc s.stid_counter) (own_text true accepted (suc s.stid_counter)) ∷ []

-- The handler behind an answer.
abbrev pub answered : Handler → Conn → Handler
answered h c = record h {
  phase = if c.serving then reading else closed;
  logged_in = c.logged_in;
  writer = c.writer;
}

-- Reading a frame and capturing it.
unfoldable pub advance_reading : Handler → Server → Moved
advance_reading h s = elim (read_rri_frame h.input) [
  | err e ↦ record { handler = record h { phase = closed }; server = s; events = [] }
  | ok (frame, rest) ↦ record {
    handler = record h { phase = captured frame; input = rest };
    server = receive frame s;
    events = [];
  }
]

-- The next access of the handler of connection `i`, which stands at the given phase.
unfoldable pub advance : ℕ → Phase → Handler → Server → Moved
unfolding advance_reading
advance i closed h s = record { handler = h; server = s; events = [] }
advance i reading h s = advance_reading h s
advance i (captured frame) h s =
    let fields = parse_kv frame in
    let action = to_upper (first_field fields (codes "action")) in
    record {
      handler = record h {
        phase =
            judged (text_eq action (codes "LOGIN")) (text_eq action (codes "LOGOUT"))
              (handle_login fields s);
      };
      server = s;
      events = [];
    }
advance i (judged login logout accepted) h s =
    let c = answer login logout accepted h.logged_in h.writer s in
    record {
      handler = answered h c;
      server = c.server;
      events = answer_events i login accepted h.logged_in s;
    }

-- The handlers are numbered in the order in which their connections are accepted.
pub record World : Type 0 where
  pub server : Server
  pub handlers : ℕ → Handler
  pub log : List Event

abbrev pub update : (ℕ → Handler) → ℕ → Handler → ℕ → Handler
update handlers i h j = if i == j then h else handlers j

-- Steps of the handlers, and of the test that owns the server. A push waits for room.
pub data Step (w : World) : World → Type 0 where
  moves :
      (i : ℕ)
      → Step w (
          let m = advance i (w.handlers i).phase (w.handlers i) w.server in
          record {
            server = m.server;
            handlers = update w.handlers i m.handler;
            log = w.log ++ m.events;
          })
  ends :
      (i : ℕ)
      → Step w
          (record w { handlers = update w.handlers i (record (w.handlers i) { phase = closed }) })
  pushes :
      (item : Item)
      → length w.server.expect < channel_capacity
      → Step w (record w {
        server = record w.server { expect = w.server.expect ++ (item ∷ []) };
        log = w.log ++ (pushed item ∷ []);
      })
  adds_user :
      (md5_hex : Bytes → Bytes) (user password : Bytes)
      → Step w (record w { server = add_user md5_hex user password w.server })
  receives :
      (frame : Bytes) (frames : List Bytes)
      → w.server.received ≡ frame ∷ frames
      → Step w (record w { server = record w.server { received = frames } })

pub data Reaches (w : World) : World → Type 0 where
  here : Reaches w w
  next : {u v : World} → Reaches w u → Step u v → Reaches w v

-- A server whose clients are going to send the given bytes, over connections that take all writes.
abbrev pub start : Server → (ℕ → Bytes) → World
start s inputs = record {
  server = s;
  handlers = λ i. record { phase = reading; logged_in = false; input = inputs i; writer = fresh };
  log = [];
}

-- The STIDs of the server's own responses, the items taken, and the items pushed.
abbrev pub stid_of : Event → List ℕ
stid_of (own i n text) = n ∷ []
stid_of (took i item) = []
stid_of (pushed item) = []

abbrev pub taken_of : Event → List Item
taken_of (own i n text) = []
taken_of (took i item) = item ∷ []
taken_of (pushed item) = []

abbrev pub pushed_of : Event → List Item
pushed_of (own i n text) = []
pushed_of (took i item) = []
pushed_of (pushed item) = item ∷ []

abbrev pub item_bytes : Item → Bytes
item_bytes (scripted bs) = (write_rri_frame fresh bs).0.written
item_bytes malformed_frame = 0 ∷ 0 ∷ 0 ∷ 0 ∷ []
item_bytes unknown = []

-- What the client of connection `j` gets of it.
abbrev pub bytes_of : ℕ → Event → Bytes
bytes_of j (own i n text) = if i == j then (write_rri_frame fresh text).0.written else []
bytes_of j (took i item) = if i == j then item_bytes item else []
bytes_of j (pushed item) = []

pub gather {ℓ} : {A : Type ℓ} → (Event → List A) → List Event → List A
gather f [] = []
gather f (e ∷ es) = f e ++ gather f es

-- The `k` numbers behind `n`.
pub count_up : ℕ → ℕ → List ℕ
count_up n zero = []
count_up n (suc k) = suc n ∷ count_up (suc n) k
