-- ===== src/EppMock/Sent.antt =====
-- What the writes of the in-process EPP mock server put on the wire.
use epp_test.Base.{◌≡◌, refl, sym, ap, ◌∙◌, true, [], ◌∷◌, ◌++◌, none, arith}
use epp_test.Base.Text.{Bytes}
use epp_test.Frame.{Writer, fresh, write, write_frame}
use epp_test.Frame.RoundTrip.{write_frame-written, write_frame-open}
use epp_test.EppMock.{
  Item, scripted, malformed_frame, wrong_result_code, unknown, build_result_code_response, send,
  dispatch,
}

-- The frame of a message.
unfoldable pub framed : Bytes → Bytes
framed bs = (write_frame fresh bs).0.written

-- The bytes that an item stands for.
unfoldable pub item_bytes : Item → Bytes
unfolding framed
item_bytes (scripted bs) = framed bs
item_bytes malformed_frame = 0 ∷ 0 ∷ 0 ∷ 1 ∷ []
item_bytes (wrong_result_code code) = framed (build_result_code_response code)
item_bytes unknown = []

abbrev pub IsKnown : Item → Type 0
IsKnown unknown = ⊥
IsKnown _ = Unit

-- A writer that takes all its writes, behind some more bytes.
pub record Sent (w w' : Writer) (bs : Bytes) : Type 0 where
  pub is_open : w'.calls_left ≡ none
  pub behind : w'.written ≡ w.written ++ bs

write-Sent :
    (w : Writer) (bs : Bytes)
    → w.calls_left ≡ none
    → Sent w (write w bs).0 bs × ((write w bs).1 ≡ true)
unfolding write
write-Sent w bs h = (record { is_open = ground arith; behind = ground arith }, ground arith)

pub send-Sent :
    (w : Writer) (bs : Bytes)
    → w.calls_left ≡ none
    → Sent w (send w bs).0 (framed bs) × ((send w bs).1 ≡ true)
unfolding send framed
send-Sent w bs h =
    let (stays, clean) = write_frame-open w bs h in
    let (out, _) = write_frame-written w bs h in
    let (out', _) = write_frame-written fresh bs refl in
    (
      record { is_open = stays; behind = out ∙ ap (λ x. w.written ++ x) (sym out') },
      rw (clean, send) refl,
    )

pub dispatch-Sent :
    (w : Writer) (item : Item)
    → IsKnown item
    → w.calls_left ≡ none
    → Sent w (dispatch w item).0 (item_bytes item) × ((dispatch w item).1 ≡ true)
unfolding dispatch item_bytes
dispatch-Sent w (scripted bs) known h = send-Sent w bs h
dispatch-Sent w malformed_frame known h = write-Sent w (0 ∷ 0 ∷ 0 ∷ 1 ∷ []) h
dispatch-Sent w (wrong_result_code code) known h = send-Sent w (build_result_code_response code) h
dispatch-Sent w unknown known h = absurd known
