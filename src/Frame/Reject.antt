-- ===== src/Frame/Reject.antt =====
-- Frames that arrive cut short, and writers that fail.
use epp_test.Base.{
  ℕ, ◌+◌, ◌-◌, ◌^◌, ◌<◌, ◌≡◌, ap, ◌∙◌, List, [], ◌∷◌, ◌++◌, arith, ltb, ◌==◌, if◌then◌else◌, length,
  take, length-append, length-take,
}
use native.Mathlib.Nat.{zero-add, suc-add}
use native.Mathlib.Decide.{dec_lt}
use epp_test.Base.Text.{Bytes}
use epp_test.Base.Result.{err}
use epp_test.Frame.{
  read_header, read_body, ReadError, eof, unexpected_eof, read_full, put_u32, u32, header_len,
  read_frame, fresh, write_frame,
}
use epp_test.Frame.RoundTrip.{read_frame-put_u32}

-- The error of `io.ReadFull` on too few bytes.
abbrev pub short_read : ℕ → ReadError
short_read k = if k == 0 then eof else unexpected_eof

read_full_short : (n : ℕ) (s : Bytes) → length s < n → read_full n s ≡ err (short_read (length s))
unfolding read_full
read_full_short n s h = ground arith

take-append_le {ℓ} :
    {A : Type ℓ} (n : ℕ) (xs ys : List A) → take (length xs + n) (xs ++ ys) ≡ xs ++ take n ys
take-append_le n [] ys = rw zero-add
take-append_le n (x ∷ xs) ys = rw suc-add (ap (◌∷◌ x) (take-append_le n xs ys))

read_frame_short :
    (s : Bytes) → length s < header_len → read_frame s ≡ err (read_header (short_read (length s)))
unfolding read_frame
read_frame_short s h = rw (read_full_short header_len s h)

-- A whole header for `n` bytes, and `k` of the bytes behind it.
read_frame_cut :
    (bs : Bytes) (k : ℕ)
    → length bs + header_len < 2 ^ 32
    → k < length bs
    → read_frame (put_u32 (u32 (length bs + header_len)) ++ take k bs)
      ≡ err (read_body (short_read k))
read_frame_cut bs k h short =
    read_frame-put_u32 (u32 (length bs + header_len)) (take k bs)
    ∙ ground (arith, read_full_short (length bs) (take k bs), length-take {0} k bs)

-- `ReadFrame` on a frame of which only the first `n` bytes arrived: it never returns a body. It
-- fails in the header if fewer than four bytes arrived, and in the body otherwise; the cause is
-- `EOF` if none of that part arrived, and `ErrUnexpectedEOF` if some of it did.
pub read_frame_truncated :
    (bs : Bytes) (n : ℕ)
    → length bs + header_len < 2 ^ 32
    → n < length bs + header_len
    → read_frame (take n (write_frame fresh bs).0.written) ≡ (
        if ltb n header_len
        then err (read_header (short_read n))
        else err (read_body (short_read (n - header_len))))
unfolding write_frame put_u32
read_frame_truncated bs n h short =
    let hdr = put_u32 (u32 (length bs + header_len)) in
    let len : length (take n (hdr ++ bs)) ≡ n =
      omega (arith, length-take {0} n (hdr ++ bs), length-append {0} hdr bs) in
    elim (dec_lt n header_len) [
      | yes few ↦ read_frame_short (take n (hdr ++ bs)) (omega arith) ∙ ground arith
      | no enough ↦
          ap (λ m. read_frame (take m (hdr ++ bs)))
            (let whole : n ≡ length hdr + (n - header_len) = omega arith in whole)
          ∙ ap read_frame (take-append_le (n - header_len) hdr bs)
          ∙ read_frame_cut bs (n - header_len) h (omega arith)
          ∙ ground arith
    ]
