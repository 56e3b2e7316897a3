-- ===== src/RriAdapter/Queue.antt =====
-- The message queue of DENIC through the adapter, against the contract of `Poller`.
use epp_test.Base.{
  ◌≡◌, ◌≢◌, ◌↔◌, refl, sym, ap, ◌∙◌, true, false, List, [], ◌∷◌, none, arith, Bool-cases, inl, inr,
}
use epp_test.Base.Int.{pos}
use epp_test.Base.Text.{Bytes, codes}
use epp_test.Base.Result.{ok}
use epp_test.Registrar.{PollMessage}
use epp_test.Runner.Poll.{is_queue_empty}
use epp_test.Runner.Poll.Queue.{IsQueue}
use epp_test.RriAdapter.{
  Client, Response, Message, queue_read, queue_delete, first_of, ask, resp_to_error, parse_message,
  failing, giving, no_message,
}
use epp_test.RriAdapter.Commands.{
  Credentials, rri_registrar, rri_poll_read, rri_poll_ack, queue_empty, ping,
}

-- The response shows the message in its fields.
pub record Shows (resp : Response) (m : PollMessage) : Type 0 where
  pub good : resp.is_successful ≡ true
  pub shows_id : first_of (resp.values (codes "MSGID")) ≡ m.id
  pub shows_kind : first_of (resp.values (codes "MSGTYPE")) ≡ m.kind
  pub shows_content : first_of (resp.values (codes "INFO")) ≡ m.content
  pub no_depth : m.queue_depth ≡ pos 0

-- A queue behind the client: reading it shows its head and changes nothing, and deleting the head
-- by its id removes it. Whether the answer is a success where the queue is empty is left open: the
-- comments of the adapter's `Ping` and `PollRead` disagree on it.
pub record ServesQueue (C : Client) (queue : C.Conn → List PollMessage) : Type 0 where
  pub read_empty :
      (s : C.Conn)
      → queue s ≡ []
      → (resp : Response) × ((C.send_query queue_read s).0 ≡ ok resp)
        × (queue (C.send_query queue_read s).1 ≡ [])
  pub read_head :
      (s : C.Conn) (m : PollMessage) (ms : List PollMessage)
      → queue s ≡ m ∷ ms
      → (resp : Response) × ((C.send_query queue_read s).0 ≡ ok resp)
        × Shows resp m
        × (queue (C.send_query queue_read s).1 ≡ m ∷ ms)
  pub delete_head :
      (s : C.Conn) (m : PollMessage) (ms : List PollMessage)
      → queue s ≡ m ∷ ms
      → (resp : Response) × ((C.send_query (queue_delete m.id) s).0 ≡ ok resp)
        × (resp.is_successful ≡ true)
        × (queue (C.send_query (queue_delete m.id) s).1 ≡ ms)

parse_message-Shows : (resp : Response) (m : PollMessage) → Shows resp m → parse_message resp ≡ m
unfolding parse_message
parse_message-Shows resp m shows = ground arith

module _ (C : Client) (cfg : Credentials) where
  open C use {Conn, send_query}

  read_success :
      (s : Conn) (resp : Response)
      → (send_query queue_read s).0 ≡ ok resp
      → resp.is_successful ≡ true
      → rri_poll_read C s ≡ giving (parse_message resp) (send_query queue_read s).1
  unfolding rri_poll_read
  read_success s resp e good = rw (e, rri_poll_read, good) refl

  read_failure :
      (s : Conn) (resp : Response)
      → (send_query queue_read s).0 ≡ ok resp
      → resp.is_successful ≡ false
      → rri_poll_read C s
        ≡ failing no_message (queue_empty C resp.error_messages) (send_query queue_read s).1
  unfolding rri_poll_read
  read_failure s resp e bad = rw (e, rri_poll_read, bad) refl

  ack_success :
      (s : Conn) (id : Bytes) (resp : Response)
      → (send_query (queue_delete id) s).0 ≡ ok resp
      → resp.is_successful ≡ true
      → rri_poll_ack C id s ≡ giving tt (send_query (queue_delete id) s).1
  unfolding rri_poll_ack ask resp_to_error
  ack_success s id resp e good = rw (e, ask, good, resp_to_error) refl

  queue_empty-1300 : (ms : List Message) → is_queue_empty (queue_empty C ms) ≡ true
  unfolding queue_empty
  queue_empty-1300 [] = refl
  queue_empty-1300 (m ∷ ms) = refl

  ping_success :
      (s : Conn) (resp : Response)
      → (send_query queue_read s).0 ≡ ok resp
      → resp.is_successful ≡ true
      → (ping C s).0.error ≡ none
  unfolding ping ask resp_to_error
  ping_success s resp e good = rw (e, ask, good, resp_to_error) refl

  ping_failure :
      (s : Conn) (resp : Response)
      → (send_query queue_read s).0 ≡ ok resp
      → resp.is_successful ≡ false
      → (ping C s).0.error ≢ none
  unfolding ping ask resp_to_error
  ping_failure s resp e bad = rw (e, ask, bad, resp_to_error) (λ h. cc)

  read_success_error :
      (s : Conn) (resp : Response)
      → (send_query queue_read s).0 ≡ ok resp
      → resp.is_successful ≡ true
      → (rri_poll_read C s).0.error ≡ none
  read_success_error s resp e good = ap (λ p. p.0.error) (read_success s resp e good)

  pub rri_registrar-IsQueue_iff :
      (queue : Conn → List PollMessage)
      → ServesQueue C queue
      → IsQueue (rri_registrar C cfg) queue
        ↔ ((s : Conn) → queue s ≡ [] → ((rri_registrar C cfg).ping s).0.error ≢ none)
  rri_registrar-IsQueue_iff queue serves = (
    λ lawful s e pinged.
        let (resp, got, _) = serves.read_empty s e in
        elim (Bool-cases resp.is_successful) [
          | inl good ↦
              let (_, bad, _, _) = lawful.read_empty s e in
              let clash = sym (read_success_error s resp got good) ∙ bad in cc
          | inr bad ↦ ping_failure s resp got bad pinged
        ],
    λ fails. record {
      read_empty = λ s e.
          let (resp, got, still) = serves.read_empty s e in
          elim (Bool-cases resp.is_successful) [
            | inl good ↦ absurd (fails s e (ping_success s resp got good))
            | inr bad ↦
                let run = read_failure s resp got bad in
                (
                  queue_empty C resp.error_messages,
                  ap (λ p. p.0.error) run,
                  queue_empty-1300 resp.error_messages,
                  ap (λ p. queue p.1) run ∙ still,
                )
          ];
      read_head = λ s m ms e.
          let (resp, got, shows, still) = serves.read_head s m ms e in
          let run = read_success s resp got shows.good in
          (
            ap (λ p. p.0) run
                ∙ ap (λ v. record { value = v; error = none }) (parse_message-Shows resp m shows),
            ap (λ p. queue p.1) run ∙ still,
          );
      ack_head = λ s m ms e.
          let (resp, got, good, rest) = serves.delete_head s m ms e in
          let run = ack_success s m.id resp got good in
          (ap (λ p. p.0.error) run, ap (λ p. queue p.1) run ∙ rest);
    },
  )
