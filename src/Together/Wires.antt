-- ===== src/Together/Wires.antt =====
-- Frames between the adapter and the handler.
use epp_test.Base.{
  ℕ, ◌+◌, ◌-◌, ◌≤◌, ◌≡◌, refl, sym, ap, ◌∙◌, true, false, [], ◌++◌, append-nil, append_assoc, some,
  arith, length, ltb, if◌then◌else◌,
}
use epp_test.Base.Text.{Bytes, codes}
use epp_test.Base.Result.{ok, err}
use epp_test.Frame.{
  ReadError, eof, fresh, read_full, read_frame, read_body, put_u32, get_u32, u32, header_len,
}
use epp_test.Frame.RoundTrip.{
  write_frame-written, read_full-append, read_full-put_u32, get_u32-put_u32, read_frame-put_u32,
}
use epp_test.Fault.{FaultProfile}
use epp_test.EppMock.Sent.{framed}
use epp_test.EppMock.Stream.{FitsFrame, read_framed}
use epp_test.MockEppServer.{Session, serve_frame}
use epp_test.MockEppServer.Answers.{Clock}
use epp_test.EppAdapter.{World, Adapter, Run, success, broken}
use epp_test.EppAdapter.Runs.{bind_run}
use epp_test.EppAdapter.Connect.{read_bytes, read_frame_on, write_bytes, write_frame_on}
use epp_test.Together.{Net, unread, served, delivered, together}

framed_lem : (bs : Bytes) → framed bs ≡ put_u32 (u32 (length bs + header_len)) ++ bs
unfolding framed
framed_lem bs = (write_frame-written fresh bs refl).0

-- The header of a frame alone is no frame.
header_incomplete :
    (bs : Bytes)
    → FitsFrame bs
    → 1 ≤ length bs
    → read_frame (put_u32 (u32 (length bs + header_len))) ≡ err (read_body eof)
header_incomplete bs fits some_bytes =
    ap read_frame (sym (append-nil (put_u32 (u32 (length bs + header_len)))))
    ∙ read_frame-put_u32 (u32 (length bs + header_len)) []
    ∙ unfold read_full in ground arith

module _ (clock : Clock) (profile : FaultProfile) (outside : World) where
  abbrev W : World
  W = together clock profile outside

  read_bytes-delivered :
      (message got rest : Bytes) (n : ℕ) (s : Adapter W)
      → read_full n s.net.session.writer.written ≡ ok (got, rest)
      → read_bytes W tt message n s ≡ (success got, record s { net = unread s.net rest })
  unfolding read_bytes delivered
  read_bytes-delivered message got rest n s h = rw (h, delivered) refl

  -- The reader behind a header.
  abbrev body_of : ℕ → Run W Bytes
  body_of total =
      if ltb total header_len
      then broken (codes "invalid frame length")
      else read_bytes W tt (codes "read frame body") (total - header_len)

  body_enough :
      (bs : Bytes) (s : Adapter W)
      → body_of (length bs + header_len) s ≡ read_bytes W tt (codes "read frame body") (length bs) s
  body_enough bs s =
      let size : (length bs + header_len) - header_len ≡ length bs = omega arith in
      let long : ltb (length bs + header_len) header_len ≡ false = ground arith in
      rw (long, size) refl

  -- A frame that the handler wrote is read.
  pub read_frame_on-framed :
      (bs rest : Bytes) (s : Adapter W)
      → FitsFrame bs
      → s.net.session.writer.written ≡ framed bs ++ rest
      → read_frame_on W (some tt) s ≡ (success bs, record s { net = unread s.net rest })
  unfolding read_frame_on
  read_frame_on-framed bs rest s fits h =
      let n = u32 (length bs + header_len) in
      let size : get_u32 (put_u32 n) ≡ length bs + header_len =
        get_u32-put_u32 n ∙ omega (arith, fits) in
      let all : s.net.session.writer.written ≡ put_u32 n ++ (bs ++ rest) =
        h ∙ ap (λ x. x ++ rest) (framed_lem bs) ∙ append_assoc (put_u32 n) bs rest in
      let header =
        read_bytes-delivered (codes "read frame header") (put_u32 n) (bs ++ rest) header_len s
          (ap (read_full header_len) all ∙ read_full-put_u32 n (bs ++ rest)) in
      let s1 : Adapter W = record s { net = unread s.net (bs ++ rest) } in
      let body =
        read_bytes-delivered (codes "read frame body") bs rest (length bs) s1
          (read_full-append bs rest) in
      bind_run (read_bytes W tt (codes "read frame header") header_len) _ s header
      ∙ ap (λ m. body_of m s1) size
      ∙ body_enough bs s1
      ∙ body

  write_bytes-served :
      (message bs : Bytes) (s : Adapter W)
      → s.net.session.serving ≡ true
      → write_bytes W tt message bs s
        ≡ (success tt, record s { net = served clock profile s.net.session (s.net.pending ++ bs) })
  unfolding write_bytes
  write_bytes-served message bs s on = rw on refl

  served_nothing :
      (session : Session) (p : Bytes) (e : ReadError)
      → session.serving ≡ true
      → read_frame p ≡ err (read_body e)
      → served clock profile session p ≡ record { session = session; pending = p }
  unfolding served
  served_nothing session p e on h = simp (on, h, served)

  served_frame :
      (session : Session) (p f rest : Bytes)
      → session.serving ≡ true
      → read_frame p ≡ ok (f, rest)
      → served clock profile session p
        ≡ record { session = serve_frame clock f session; pending = rest }
  unfolding served
  served_frame session p f rest on h = simp (on, h, served)

  -- A frame that the adapter writes is served.
  pub write_frame_on-served :
      (bs : Bytes) (s : Adapter W)
      → FitsFrame bs
      → 1 ≤ length bs
      → s.net.session.serving ≡ true
      → s.net.pending ≡ []
      → write_frame_on W (some tt) bs s ≡ (
        success tt,
        record s { net = record { session = serve_frame clock bs s.net.session; pending = [] } },
      )
  unfolding write_frame_on
  write_frame_on-served bs s fits some_bytes on idle =
      let session = s.net.session in
      let hdr = put_u32 (u32 (length bs + header_len)) in
      let s1 : Adapter W = record s { net = record { session = session; pending = hdr } } in
      let first : served clock profile session (s.net.pending ++ hdr)
          ≡ record { session = session; pending = hdr } =
        ap (λ p. served clock profile session (p ++ hdr)) idle
        ∙ served_nothing session hdr eof on (header_incomplete bs fits some_bytes) in
      let complete : read_frame (hdr ++ bs) ≡ ok (bs, []) =
        ap read_frame (sym (append-nil (framed bs) ∙ framed_lem bs)) ∙ read_framed bs [] fits in
      let header =
        write_bytes-served (codes "write frame header") hdr s on
        ∙ ap (λ (net : Net). (success tt, record s { net = net })) first in
      bind_run (write_bytes W tt (codes "write frame header") hdr) _ s header
      ∙ write_bytes-served (codes "write frame body") bs s1 on
      ∙ ap (λ (net : Net). (success tt, record s { net = net }))
          (served_frame session (hdr ++ bs) bs [] on complete)
