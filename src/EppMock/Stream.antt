-- ===== src/EppMock/Stream.antt =====
-- What a client of the in-process EPP mock server receives.
use epp_test.Base.{
  ℕ, zero, suc, ◌+◌, ◌^◌, ◌≤◌, ◌<◌, ◌≡◌, refl, true, List, [], ◌∷◌, ◌++◌, length, length-append,
  arith, drop,
}
use epp_test.Base.Text.{Bytes}
use epp_test.Base.Result.{ok, err}
use epp_test.Frame.{Writer, fresh, read_frame, read_full, read_header, eof, put_u32, header_len}
use epp_test.Frame.RoundTrip.{write_frame-written, read_frame-write_frame}
use epp_test.EppMock.{Item, Conn}
use epp_test.EppMock.Sent.{framed, item_bytes, Sent}

abbrev pub FitsFrame : Bytes → Type 0
FitsFrame f = length f + header_len < 2 ^ 32

-- The first of the messages that wait.
unfoldable pub first_poll : List Bytes → Bytes
unfolding framed
first_poll [] = []
first_poll (p ∷ ps) = framed p

-- What the server sends to a client that sends so many frames: before it waits for a frame one
-- message of the poll queue, behind it the next item of the script.
unfoldable pub stream : ℕ → List Bytes → List Item → Bytes
unfolding first_poll item_bytes
stream zero polls items = first_poll polls
stream (suc n) polls [] = first_poll polls
stream (suc n) polls (item ∷ items) =
    first_poll polls ++ (item_bytes item ++ stream n (drop 1 polls) items)

unfoldable pub wire : List Bytes → Bytes
unfolding framed
wire [] = []
wire (f ∷ fs) = framed f ++ wire fs

-- The handler that goes on, with this writer and these queues.
abbrev conn_at : Writer → List Item → List Bytes → List Bytes → Conn
conn_at w items taken polls = record {
  serving = true;
  writer = w;
  server = record { expect = items; received = taken; polls = polls };
}

pub read_framed : (f rest : Bytes) → FitsFrame f → read_frame (framed f ++ rest) ≡ ok (f, rest)
unfolding framed
read_framed f rest fits =
    let (sent, e, clean, read) = read_frame-write_frame fresh f refl rest fits in rw e read

pub read_nothing : read_frame [] ≡ err (read_header eof)
unfolding read_frame read_full
read_nothing = refl

pub length-wire : (fs : List Bytes) → length fs ≤ length (wire fs)
unfolding wire framed put_u32
length-wire [] = omega arith
length-wire (f ∷ fs) =
    rw (write_frame-written fresh f refl).0
      (omega (arith, length-append f (wire fs), length-wire fs))
