-- ===== src/Frame/Cross.antt =====
-- The two framings differ by the four bytes of the header: what each reader makes of the other's
-- frames.
use epp_test.Base.{
  ◌+◌, ◌-◌, ◌^◌, ◌≤◌, ◌<◌, ◌≡◌, ◌∙◌, arith, ltb, ◌==◌, if◌then◌else◌, length, take, drop,
}
use epp_test.Base.Text.{Bytes}
use epp_test.Base.Result.{ok, err}
use epp_test.Frame.{
  invalid_length, read_body, unexpected_eof, eof, read_full, u32, header_len, max_payload,
  read_frame, read_rri_frame, fresh, write_frame, write_rri_frame,
}
use epp_test.Frame.RoundTrip.{read_frame-put_u32, read_rri_frame-put_u32}

-- `ReadFrame` on an RRI frame, for data whose length fits a uint32: it loses the last four bytes
-- of the data to the next frame, and rejects data of fewer than four bytes by its length.
pub read_frame-write_rri_frame :
    (bs : Bytes)
    → length bs < 2 ^ 32
    → read_frame (write_rri_frame fresh bs).0.written ≡ (
        if ltb (length bs) header_len
        then err (invalid_length (length bs))
        else ok (take (length bs - header_len) bs, drop (length bs - header_len) bs))
unfolding write_rri_frame
read_frame-write_rri_frame bs h =
    read_frame-put_u32 (u32 (length bs)) bs ∙ unfold read_full in ground arith

-- `ReadRRIFrame` on an EPP frame, for data of at most 65532 bytes: it waits for four bytes more
-- than were sent, so it never returns a message.
pub read_rri_frame-write_frame :
    (bs : Bytes)
    → length bs + header_len ≤ max_payload
    → read_rri_frame (write_frame fresh bs).0.written
      ≡ err (read_body (if length bs == 0 then eof else unexpected_eof))
unfolding write_frame
read_rri_frame-write_frame bs h =
    read_rri_frame-put_u32 (u32 (length bs + header_len)) bs ∙ unfold read_full in ground arith
