-- ===== src/EppAdapter/Kinds.antt =====
-- Waiting for a type of message over an EPP session.
use epp_test.Base.{
  ◌≡◌, ◌≢◌, refl, sym, ap, ◌∙◌, true, false, Bool-cases, Option, none, some, [], ◌∷◌, inl, inr,
  arith,
}
use epp_test.Base.Int.{pos, eqb_ℤ}
use epp_test.Base.Text.{Bytes, codes, text_eq}
use epp_test.Registrar.{PollMessage, epp}
use epp_test.Runner.Poll.{wanted}
use epp_test.EppXml.{EppResponse, MsgQ}
use epp_test.EppAdapter.{World, Setup, Adapter, success, failure, ◌>>=◌, checked, return}
use epp_test.EppAdapter.Runs.{with_conn-succeeded, bind-succeeded}
use epp_test.EppAdapter.Messages.{message_of, read_message, poll_read, queue_empty}

message_of-kind : (q : Option MsgQ) → (message_of q).kind ≡ []
unfolding message_of
message_of-kind none = refl
message_of-kind (some q) = refl

unwanted : (t : Bytes) (m : PollMessage) → m.kind ≡ [] → t ≢ [] → wanted t m ≡ false
unfolding text_eq
unwanted [] m e given = ground arith
unwanted (b ∷ bs) m e given = ap (λ k. text_eq k (b ∷ bs)) e

module _ (W : World) (setup : Setup) where
  module _ (resp : EppResponse) (s : Adapter W) where
    read_message_empty :
        eqb_ℤ resp.result.code (pos 1300) ≡ true
        → read_message W setup resp s ≡ (failure (epp (queue_empty resp.result)), s)
    unfolding read_message
    read_message_empty h = rw (h, read_message) refl

    read_message_given :
        eqb_ℤ resp.result.code (pos 1300) ≡ false
        → read_message W setup resp s
          ≡ (checked resp.result (codes "epp:poll") >>= λ _. return (message_of resp.msg_q)) s
    unfolding read_message
    read_message_given h = rw (h, read_message) refl

    read_message-kind :
        (m : PollMessage) → (read_message W setup resp s).0 ≡ success m → m.kind ≡ []
    read_message-kind m h = elim (Bool-cases (eqb_ℤ resp.result.code (pos 1300))) [
      | inl e ↦ let clash = sym (ap (λ p. p.0) (read_message_empty e)) ∙ h in cc
      | inr e ↦
          let (_, _, good) =
            bind-succeeded _ _ s (sym (ap (λ p. p.0) (read_message_given e)) ∙ h) in
          let same : message_of resp.msg_q ≡ m = cc in
          ap (λ x. x.kind) (sym same) ∙ message_of-kind resp.msg_q
    ]

  -- A message that `PollRead` gives has no type, so that a wait for any type of message passes
  -- over it.
  pub poll_read-unwanted :
      (s : Adapter W) (m : PollMessage) (match_type : Bytes)
      → (poll_read W setup s).0 ≡ success m
      → match_type ≢ []
      → wanted match_type m ≡ false
  unfolding poll_read
  poll_read-unwanted s m match_type h given =
      let (_, t, tried) = with_conn-succeeded setup _ s h in
      let (resp, _, answered) = bind-succeeded _ (read_message W setup) t tried in
      unwanted match_type m (read_message-kind resp _ m answered) given
