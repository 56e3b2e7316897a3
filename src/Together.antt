-- ===== src/Together.antt =====
-- The EPP adapter of pkg/registrar/epp connected to the standalone EPP mock server of
-- cmd/mock-epp-server: the network of the one is a handler of the other.
pub mod Wires
pub mod Logins
pub mod Flap
pub mod Pings
mod Tests
use epp_test.Base.{ℕ, Bool, false, List, [], ◌∷◌, ◌++◌, Option, none, some, if◌then◌else◌}
use epp_test.Base.Text.{Bytes}
use epp_test.Base.Result.{ok, err}
use epp_test.Frame.{
  fresh, read_full, read_frame, invalid_length, read_header, read_body, empty_message, too_large,
  write_header, write_body,
}
use epp_test.Fault.{FaultProfile}
use epp_test.EppAdapter.{World}
use epp_test.MockEppServer.{Session, greet, serve_frame}
use epp_test.MockEppServer.Answers.{Clock}

-- The handler, whose writer holds what the client has not read yet, and what the client wrote of a
-- frame that is not complete.
pub record Net : Type 0 where
  pub session : Session
  pub pending : Bytes

-- The rest of what the client has to read.
abbrev pub unread : Net → Bytes → Net
unread net rest = record net {
  session = record net.session { writer = record net.session.writer { written = rest } };
}

module _ (clock : Clock) (profile : FaultProfile) where
  -- A new connection, of which the handler goes as far as its loop. It has an engine of its own,
  -- and goes on with the program's counter of transaction IDs.
  abbrev pub next_connection : Net → Net
  next_connection net = record {
    session = greet clock profile fresh net.session.sv_trid;
    pending = [];
  }

  -- The loop of the handler serves a frame as soon as it is complete; a write of the client
  -- completes one at most. A length that cannot be ends the handler.
  unfoldable pub served : Session → Bytes → Net
  served session pending =
      let idle : Net = record { session = session; pending = pending } in
      let next : Net = elim (read_frame pending) [
        | ok (frame, rest) ↦ record { session = serve_frame clock frame session; pending = rest }
        | err (invalid_length n) ↦ record {
          session = record session { serving = false };
          pending = [];
        }
        | err (read_header e) ↦ idle
        | err (read_body e) ↦ idle
        | err empty_message ↦ idle
        | err (too_large n) ↦ idle
        | err write_header ↦ idle
        | err write_body ↦ idle
      ] in
      if session.serving then next else idle

  -- The client's `io.ReadFull`.
  unfoldable pub delivered : ℕ → Net → Option Bytes × Net
  delivered n net = elim (read_full n net.session.writer.written) [
    | err e ↦ (none, net)
    | ok (got, rest) ↦ (some got, unread net rest)
  ]

  -- The adapter's world: the XML library and the other parameters are those of the given one.
  abbrev pub together : World → World
  together outside = record outside {
    Net = Net;
    Conn = Unit {0};
    dial = λ net. (some tt, next_connection net);
    write = λ c bs net. (net.session.serving, served net.session (net.pending ++ bs));
    read_full = λ c n net. delivered n net;
    close = λ c net. net;
  }
