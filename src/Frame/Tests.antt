-- ===== src/Frame/Tests.antt =====
-- Frames of concrete data, and the theorems at them.
use epp_test.Base.{◌≡◌, refl, some, take, [], ◌∷◌, ◌++◌, none, arith}
use epp_test.Base.Text.{Bytes, codes}
use epp_test.Base.Result.{ok, err}
use epp_test.Frame.{
  read_header, invalid_length, too_large, write_body, unexpected_eof, read_body, empty_message,
  read_frame, read_rri_frame, Writer, fresh, put_u32, write_frame, write_rri_frame,
}
use epp_test.Frame.RoundTrip.{
  read_frame-write_frame, read_rri_frame-write_rri_frame, read_frame_sound,
}
use epp_test.Frame.Reject.{read_frame_truncated}

abbrev hello : Bytes
hello = codes "<hello/>"

hello_frame : (write_frame fresh hello).0.written ≡ 0 ∷ 0 ∷ 0 ∷ 12 ∷ hello
unfolding write_frame put_u32
hello_frame = refl

hello_rri_frame : (write_rri_frame fresh hello).0.written ≡ 0 ∷ 0 ∷ 0 ∷ 8 ∷ hello
unfolding write_rri_frame put_u32
hello_rri_frame = refl

reads :
    (read_frame (0 ∷ 0 ∷ 0 ∷ 3 ∷ []) ≡ err (invalid_length 3))
    × (read_rri_frame (0 ∷ 0 ∷ 0 ∷ 0 ∷ hello) ≡ err empty_message)
    × (read_rri_frame (0 ∷ 1 ∷ 0 ∷ 1 ∷ hello) ≡ err (too_large 65537))
    × (read_frame (0 ∷ 0 ∷ []) ≡ err (read_header unexpected_eof))
unfolding read_frame read_rri_frame
reads = (refl, refl, refl, refl)

abbrev partial : Writer
partial = record { written = []; calls_left = some 1 }

half_written :
    write_frame partial hello
    ≡ (record { written = 0 ∷ 0 ∷ 0 ∷ 12 ∷ []; calls_left = some 0 }, some write_body)
unfolding write_frame put_u32
half_written = refl

read_frame-write_frame_example :
    (wire : Bytes) × ((write_frame fresh hello).0.written ≡ [] ++ wire)
    × ((write_frame fresh hello).1 ≡ none)
    × (read_frame (wire ++ hello) ≡ ok (hello, hello))
read_frame-write_frame_example = read_frame-write_frame fresh hello refl hello (omega arith)

read_rri_frame-write_rri_frame_example :
    (wire : Bytes) × ((write_rri_frame fresh hello).0.written ≡ [] ++ wire)
    × ((write_rri_frame fresh hello).1 ≡ none)
    × (read_rri_frame (wire ++ []) ≡ ok (hello, []))
read_rri_frame-write_rri_frame_example =
    read_rri_frame-write_rri_frame fresh hello refl [] (omega arith)

stream_reads : read_frame (0 ∷ 0 ∷ 0 ∷ 12 ∷ codes "<hello/>0") ≡ ok (hello, b'0' ∷ [])
unfolding read_frame
stream_reads = refl

read_frame_sound_example :
    0 ∷ 0 ∷ 0 ∷ 12 ∷ codes "<hello/>0" ≡ (write_frame fresh hello).0.written ++ b'0' ∷ []
read_frame_sound_example =
    read_frame_sound (0 ∷ 0 ∷ 0 ∷ 12 ∷ codes "<hello/>0") (omega arith) stream_reads

read_frame_truncated_example :
    read_frame (take 9 (write_frame fresh hello).0.written) ≡ err (read_body unexpected_eof)
read_frame_truncated_example = read_frame_truncated hello 9 (omega arith) (omega arith)
