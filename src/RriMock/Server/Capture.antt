-- ===== src/RriMock/Server/Capture.antt =====
-- The frames that the RRI mock server keeps for the test: the channel `Received`.
use epp_test.Base.{
  suc, ◌≤◌, ◌≡◌, refl, sym, ap, ◌∙◌, Bool, true, false, List, [], ◌∷◌, ◌++◌, append-nil,
  append_assoc, Bool-cases, inl, inr, arith, length, length-append, ltb,
}
use epp_test.Base.Text.{Bytes}
use epp_test.Frame.{Writer}
use epp_test.RriMock.Server.{
  Item, Server, channel_capacity, receive, serve_script, build_success_response,
  build_failure_response, answer, handle_frame, handle_conn,
}
use epp_test.RriMock.Server.Session.{conn_loop-keeps}

-- The first capture with frames behind it, within the capacity of the channel.
Extends : Server → Server → Type 0
Extends s t =
    (length t.received ≤ channel_capacity) × (more : List Bytes) × (t.received ≡ s.received ++ more)

receive-Extends : (f : Bytes) (s t : Server) → Extends s t → Extends s (receive f t)
unfolding Extends receive
receive-Extends f s t (fits, more, e) =
    elim (Bool-cases (ltb (length t.received) channel_capacity)) [
      | inl room ↦
          rw (room, receive)
            (
              ground (arith, length-append t.received (f ∷ [])),
              more ++ (f ∷ []),
              ap (λ r. r ++ (f ∷ [])) e ∙ append_assoc s.received more (f ∷ []),
            )
      | inr full ↦ rw (full, receive) (fits, more, e)
    ]

serve_script-received :
    (b : Bool) (w : Writer) (s : Server) (items : List Item)
    → (serve_script b w s items).server.received ≡ s.received
unfolding serve_script
serve_script-received b w s [] = refl
serve_script-received b w s (i ∷ items) = refl

answer-received :
    (login logout accepted l : Bool) (w : Writer) (s : Server)
    → (answer login logout accepted l w s).server.received ≡ s.received
unfolding answer build_success_response build_failure_response
answer-received false logout accepted false w s = refl
answer-received true logout true l w s = refl
answer-received true logout false l w s = refl
answer-received false logout accepted true w s = serve_script-received logout w s s.expect

Extends-same : (s t u : Server) → u.received ≡ t.received → Extends s t → Extends s u
unfolding Extends
Extends-same s t u same (fits, more, e) = (rw same fits, more, same ∙ e)

-- A connection never captures more frames than the channel holds, and it never loses or reorders
-- those that were captured before it, whatever the client sends.
handle_conn-received :
    (input : Bytes) (w : Writer) (s : Server)
    → length s.received ≤ channel_capacity
    → (length (handle_conn input w s).server.received ≤ channel_capacity)
      × (more : List Bytes) × ((handle_conn input w s).server.received ≡ s.received ++ more)
unfolding handle_conn Extends handle_frame
handle_conn-received input w s fits =
    conn_loop-keeps (λ c. Extends s c.server) (λ c p. p)
      (λ f c p.
        Extends-same s (receive f c.server) (handle_frame f c.logged_in c.writer c.server).server
          (answer-received _ _ _ c.logged_in c.writer (receive f c.server))
          (receive-Extends f s c.server p))
      (suc (length input)) input _ (fits, [], sym (append-nil s.received))
