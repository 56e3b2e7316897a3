-- ===== src/Frame.antt =====
-- The two wire framings: pkg/epp/frame/frame.go (EPP, RFC 5734) and pkg/mock/rri/frame.go (RRI).
-- A reader is the bytes that arrive before the connection ends. A writer keeps what was written,
-- and the number of `Write` calls that still succeed (`none`: all of them).
pub mod RoundTrip
pub mod Reject
pub mod Cross
mod Tests
use epp_test.Base.{
  ℕ, zero, suc, ◌+◌, ◌-◌, ◌*◌, ◌/◌, ◌%◌, ◌^◌, Bool, true, false, List, [], ◌∷◌, ◌++◌, Option, none,
  some, ltb, leb, ◌==◌, if◌then◌else◌, length, take, drop,
}
use epp_test.Base.Text.{Bytes}
use epp_test.Base.Result.{Result, ok, err, ◌>>=◌, map_err}

pub data ReadError : Type 0 where
  eof unexpected_eof : ReadError

pub data FrameError : Type 0 where
  read_header : ReadError → FrameError
  invalid_length : ℕ → FrameError
  empty_message : FrameError
  too_large : ℕ → FrameError
  read_body : ReadError → FrameError
  write_header write_body : FrameError

abbrev pub header_len : ℕ
header_len = 4

abbrev pub max_payload : ℕ
max_payload = 65536

-- `io.ReadFull` into a buffer of `n` bytes.
unfoldable pub read_full : ℕ → Bytes → Result ReadError (Bytes × Bytes)
read_full n s =
    if leb n (length s)
    then ok (take n s, drop n s)
    else if length s == 0
    then err eof
    else err unexpected_eof

-- `binary.BigEndian.PutUint32` of a `uint32`.
unfoldable pub put_u32 : ℕ → Bytes
put_u32 n = (n / 2 ^ 24 % 256) ∷ (n / 2 ^ 16 % 256) ∷ (n / 2 ^ 8 % 256) ∷ (n % 256) ∷ []

abbrev u32_from : ℕ → Bytes → ℕ
u32_from v [] = v
u32_from v (b ∷ bs) = u32_from (v * 256 + b) bs

-- `binary.BigEndian.Uint32`
unfoldable pub get_u32 : Bytes → ℕ
get_u32 = u32_from 0

-- A conversion to `uint32`.
abbrev pub u32 : ℕ → ℕ
u32 n = n % 2 ^ 32

-- `ReadFrame`: the header counts itself.
unfoldable pub read_frame : Bytes → Result FrameError (Bytes × Bytes)
unfolding read_full get_u32
read_frame s = do
  (hdr, rest) ← map_err read_header (read_full header_len s)
  let total = get_u32 hdr
  if ltb total header_len
      then err (invalid_length total)
      else map_err read_body (read_full (total - header_len) rest)

-- `ReadRRIFrame`: the header counts the payload only.
unfoldable pub read_rri_frame : Bytes → Result FrameError (Bytes × Bytes)
unfolding read_full get_u32
read_rri_frame s = do
  (hdr, rest) ← map_err read_header (read_full header_len s)
  let payload_len = get_u32 hdr
  if payload_len == 0
      then err empty_message
      else if ltb max_payload payload_len
      then err (too_large payload_len)
      else map_err read_body (read_full payload_len rest)

pub record Writer : Type 0 where
  pub written : Bytes
  pub calls_left : Option ℕ

abbrev pub fresh : Writer
fresh = record { written = []; calls_left = none }

write_left : Option ℕ → Writer → Bytes → Writer × Bool
write_left none w bs = (record w { written = w.written ++ bs }, true)
write_left (some zero) w bs = (w, false)
write_left (some (suc n)) w bs = (record { written = w.written ++ bs; calls_left = some n }, true)

-- `w.Write(bs)`; the flag tells a success.
unfoldable pub write : Writer → Bytes → Writer × Bool
unfolding write_left
write w bs = write_left w.calls_left w bs

-- The second call of a writer, and the error that it reports.
write_rest : Writer × Bool → Bytes → Writer × Option FrameError
unfolding write
write_rest (w, sent) bs =
    let (last, done) = write w bs in
    if sent then (last, if done then none else some write_body) else (w, some write_header)

-- `WriteFrame`
unfoldable pub write_frame : Writer → Bytes → Writer × Option FrameError
unfolding write_rest
write_frame w bs = write_rest (write w (put_u32 (u32 (length bs + header_len)))) bs

-- `WriteRRIFrame`
unfoldable pub write_rri_frame : Writer → Bytes → Writer × Option FrameError
unfolding write_rest
write_rri_frame w bs = write_rest (write w (put_u32 (u32 (length bs)))) bs
