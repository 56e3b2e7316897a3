-- ===== src/Frame/RoundTrip.antt =====
-- What a framing writes, it reads back, and it reads nothing else.
use epp_test.Base.{
  ℕ, ◌+◌, ◌-◌, ◌^◌, ◌<◌, ◌≡◌, refl, sym, ap, ◌∙◌, [], ◌∷◌, ◌++◌, none, arith, ltb, ◌==◌,
  if◌then◌else◌, length, All, take-append, drop-append, take-append-drop, length-take,
  length-append, append_assoc, ap₂,
}
use epp_test.Base.Text.{Bytes}
use epp_test.Base.Result.{ok, err, map_err}
use epp_test.Frame.{
  read_body, invalid_length, empty_message, too_large, read_full, put_u32, get_u32, u32, header_len,
  max_payload, read_frame, read_rri_frame, Writer, fresh, write_frame, write_rri_frame,
}

abbrev pub IsByte : ℕ → Type 0
IsByte b = b < 256

pub get_u32-put_u32 : (n : ℕ) → get_u32 (put_u32 n) ≡ u32 n
unfolding get_u32 put_u32
get_u32-put_u32 n = omega arith

pub put_u32-get_u32 :
    (a b c d : ℕ)
    → All IsByte (a ∷ b ∷ c ∷ d ∷ [])
    → put_u32 (get_u32 (a ∷ b ∷ c ∷ d ∷ [])) ≡ a ∷ b ∷ c ∷ d ∷ []
unfolding get_u32 put_u32
put_u32-get_u32 a b c d h = ground arith

pub read_full-append : (xs ys : Bytes) → read_full (length xs) (xs ++ ys) ≡ ok (xs, ys)
unfolding read_full
read_full-append xs ys =
    ground (arith, length-append {0} xs ys, take-append {0} xs ys, drop-append {0} xs ys)

pub read_full-put_u32 :
    (n : ℕ) (rest : Bytes) → read_full 4 (put_u32 n ++ rest) ≡ ok (put_u32 n, rest)
unfolding put_u32
read_full-put_u32 n rest = read_full-append (put_u32 n) rest

-- The readers behind a header, with the header's number in place of its bytes.
pub read_frame-put_u32 :
    (n : ℕ) (rest : Bytes)
    → read_frame (put_u32 n ++ rest) ≡ (
        if ltb (u32 n) header_len
        then err (invalid_length (u32 n))
        else map_err read_body (read_full (u32 n - header_len) rest))
unfolding read_frame
read_frame-put_u32 n rest = rw (read_full-put_u32 n rest) (rw (get_u32-put_u32 n))

pub read_rri_frame-put_u32 :
    (n : ℕ) (rest : Bytes)
    → read_rri_frame (put_u32 n ++ rest) ≡ (
        if u32 n == 0
        then err empty_message
        else if ltb max_payload (u32 n)
        then err (too_large (u32 n))
        else map_err read_body (read_full (u32 n) rest))
unfolding read_rri_frame
read_rri_frame-put_u32 n rest = rw (read_full-put_u32 n rest) (rw (get_u32-put_u32 n))

module _ (w : Writer) (bs : Bytes) (open_end : w.calls_left ≡ none) where
  -- On a connection that takes all its writes, each writer appends the header and the data.
  pub write_frame-written :
      ((write_frame w bs).0.written ≡ w.written ++ (put_u32 (u32 (length bs + header_len)) ++ bs))
      × ((write_frame w bs).1 ≡ none)
  unfolding write_frame
  write_frame-written =
      ground (arith, append_assoc w.written (put_u32 (u32 (length bs + header_len))) bs)

  pub write_rri_frame-written :
      ((write_rri_frame w bs).0.written ≡ w.written ++ (put_u32 (u32 (length bs)) ++ bs))
      × ((write_rri_frame w bs).1 ≡ none)
  unfolding write_rri_frame
  write_rri_frame-written = ground (arith, append_assoc w.written (put_u32 (u32 (length bs))) bs)

  -- `WriteFrame` on a connection that takes all its writes succeeds and appends bytes from which
  -- `ReadFrame` gives the data back, leaving what follows, if the length of the data with its
  -- header fits a uint32.
  pub read_frame-write_frame :
      (rest : Bytes)
      → length bs + header_len < 2 ^ 32
      → (wire : Bytes) × ((write_frame w bs).0.written ≡ w.written ++ wire)
        × ((write_frame w bs).1 ≡ none)
        × (read_frame (wire ++ rest) ≡ ok (bs, rest))
  read_frame-write_frame rest h = (
    put_u32 (u32 (length bs + header_len)) ++ bs,
    write_frame-written.0,
    write_frame-written.1,
    rw append_assoc (read_frame-put_u32 _ (bs ++ rest) ∙ ground (arith, read_full-append bs rest)),
  )

  -- What `ReadRRIFrame` makes of the bytes that `WriteRRIFrame` appends, for data whose length
  -- fits a uint32: the data if it has 1 to 65536 bytes, and otherwise the error that says why
  -- not. The writer reports no error in any of these cases.
  pub read_rri_frame-write_rri_frame :
      (rest : Bytes)
      → length bs < 2 ^ 32
      → (wire : Bytes) × ((write_rri_frame w bs).0.written ≡ w.written ++ wire)
        × ((write_rri_frame w bs).1 ≡ none)
        × (read_rri_frame (wire ++ rest) ≡ (
            if length bs == 0
            then err empty_message
            else if ltb max_payload (length bs)
            then err (too_large (length bs))
            else ok (bs, rest)))
  read_rri_frame-write_rri_frame rest h = (
    put_u32 (u32 (length bs)) ++ bs,
    write_rri_frame-written.0,
    write_rri_frame-written.1,
    rw append_assoc
        (read_rri_frame-put_u32 _ (bs ++ rest) ∙ ground (arith, read_full-append bs rest)),
  )

-- A connection that takes all its writes goes on to do so.
pub write_frame-open :
    (w : Writer) (bs : Bytes)
    → w.calls_left ≡ none
    → ((write_frame w bs).0.calls_left ≡ none) × ((write_frame w bs).1 ≡ none)
unfolding write_frame
write_frame-open w bs h = ground arith

pub write_rri_frame-open :
    (w : Writer) (bs : Bytes)
    → w.calls_left ≡ none
    → ((write_rri_frame w bs).0.calls_left ≡ none) × ((write_rri_frame w bs).1 ≡ none)
unfolding write_rri_frame
write_rri_frame-open w bs h = ground arith

-- A read that gives a whole buffer took its bytes from the front of the stream.
read_full_sound :
    (n : ℕ) (s : Bytes) {got rest : Bytes}
    → read_full n s ≡ ok (got, rest)
    → (s ≡ got ++ rest) × (length got ≡ n)
unfolding read_full
read_full_sound n s h = ground (arith, take-append-drop n s, length-take n s)

read_body_sound :
    (n : ℕ) (t : Bytes) {bs rest : Bytes}
    → n < 2 ^ 32
    → read_frame (put_u32 n ++ t) ≡ ok (bs, rest)
    → (t ≡ bs ++ rest) × (n ≡ u32 (length bs + header_len))
read_body_sound n t {bs} {rest} small h =
    let same : u32 n ≡ n = omega arith in
    let tested = rw same at (sym (read_frame-put_u32 n t) ∙ h) in
    ground (arith, read_full_sound (n - header_len) t {got = bs} {rest = rest})

-- `ReadFrame` accepts only what `WriteFrame` writes: if it returns `bs` from a stream of bytes,
-- the stream is the frame of `bs` followed by what it left.
pub read_frame_sound :
    (s : Bytes) {bs rest : Bytes}
    → All IsByte s
    → read_frame s ≡ ok (bs, rest)
    → s ≡ (write_frame fresh bs).0.written ++ rest
read_frame_sound (a ∷ b ∷ c ∷ d ∷ t) {bs} {rest} h e =
    let hdr = put_u32-get_u32 a b c d (h.0, (h.1.0, (h.1.1.0, (h.1.1.1.0, tt)))) in
    let n = get_u32 (a ∷ b ∷ c ∷ d ∷ []) in
    let small : n < 2 ^ 32 = unfold get_u32 in omega arith in
    let wire : put_u32 n ++ t ≡ a ∷ b ∷ c ∷ d ∷ t = ap (λ x. x ++ t) hdr in
    let (body, len) = read_body_sound n t small (ap read_frame wire ∙ e) in
    sym wire
    ∙ ap₂ (λ x y. put_u32 x ++ y) len body
    ∙ sym (append_assoc _ bs rest)
    ∙ ap (λ x. x ++ rest) (sym (write_frame-written fresh bs refl).0)
read_frame_sound _ h e = unfold read_frame in ground arith
