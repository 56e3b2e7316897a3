-- ===== src/RriAdapter/Tests.antt =====
-- A client over a small registry, and the theorems at it.
use epp_test.Base.{
  ◌≡◌, refl, subst, true, false, List, [], ◌∷◌, none, some, All, length, if◌then◌else◌,
}
use epp_test.Base.Int.{pos}
use epp_test.Base.Text.{Bytes, codes, text_eq, text_eq_refl}
use epp_test.Base.Result.{Result, ok, err}
use epp_test.Registrar.{PollMessage}
use epp_test.Runner.Poll.Queue.{IsQueue}
use epp_test.RriAdapter.{
  Client, Response, Query, queue_read, queue_delete, check_domain, ask, resp_to_error, join_strings,
}
use epp_test.RriAdapter.Commands.{Credentials, rri_registrar, ping}
use epp_test.RriAdapter.Queue.{Shows, ServesQueue, rri_registrar-IsQueue_iff}
use epp_test.RriAdapter.Checks.{check_domain_says_free}

abbrev Stored : Type 0
Stored = List (Bytes × Bytes)

abbrev message_of : Bytes × Bytes → PollMessage
message_of (id, kind) = record { id = id; kind = kind; content = codes "text"; queue_depth = pos 0 }

abbrev messages : Stored → List PollMessage
messages [] = []
messages (m ∷ ms) = message_of m ∷ messages ms

abbrev good : (Bytes → List Bytes) → Response
good values = record { is_successful = true; error_messages = []; values = values }

abbrev bad : Response
bad = record {
  is_successful = false;
  error_messages = record { id = pos 83000000002; text = codes "exists" } ∷ [];
  values = λ k. [];
}

abbrev fields_of : Bytes × Bytes → Bytes → List Bytes
fields_of (id, kind) key =
    if text_eq key (codes "MSGID")
    then id ∷ []
    else if text_eq key (codes "MSGTYPE")
    then kind ∷ []
    else codes "text" ∷ []

-- The first argument is the answer for an empty queue.
unfoldable answer : Response → Query → Stored → Result Bytes Response × Stored
answer none_left queue_read [] = (ok none_left, [])
answer none_left queue_read (m ∷ ms) = (ok (good (fields_of m)), m ∷ ms)
answer none_left (queue_delete id) [] = (ok bad, [])
answer none_left (queue_delete id) (m ∷ ms) =
    if text_eq m.0 id then (ok (good (λ k. [])), ms) else (ok bad, m ∷ ms)
answer none_left (check_domain n) s =
    (ok (if text_eq n (codes "taken.de") then bad else good (λ k. [])), s)
answer none_left _ s = (err (codes "closed"), s)

abbrev client : Response → Client
client none_left = record {
  Conn = Stored;
  send_query = answer none_left;
  login = λ user password s. (none, s);
  logout = λ s. (none, s);
  parse_handle = λ h. some h;
  md5_hex = λ p. p;
  to_ascii = λ n. some n;
  in_five_days = λ s. codes "2026-01-06";
}

abbrev cfg : Credentials
cfg = record { username = codes "u"; password = codes "p" }

client-ServesQueue : (none_left : Response) → ServesQueue (client none_left) messages
unfolding answer text_eq
client-ServesQueue none_left = record { read_empty = empty; read_head = head; delete_head = delete }
  where
    empty :
        (s : Stored)
        → messages s ≡ []
        → (resp : Response) × ((answer none_left queue_read s).0 ≡ ok resp)
          × (messages (answer none_left queue_read s).1 ≡ [])
    empty [] e = (none_left, refl, refl)
    empty (m ∷ ms) e = cc

    head :
        (s : Stored) (m : PollMessage) (ms : List PollMessage)
        → messages s ≡ m ∷ ms
        → (resp : Response) × ((answer none_left queue_read s).0 ≡ ok resp)
          × Shows resp m
          × (messages (answer none_left queue_read s).1 ≡ m ∷ ms)
    head [] m ms e = cc
    head (x ∷ xs) m ms e = (
      good (fields_of x),
      refl,
      record { good = refl; shows_id = cc; shows_kind = cc; shows_content = cc; no_depth = cc },
      e,
    )

    delete :
        (s : Stored) (m : PollMessage) (ms : List PollMessage)
        → messages s ≡ m ∷ ms
        → (resp : Response) × ((answer none_left (queue_delete m.id) s).0 ≡ ok resp)
          × (resp.is_successful ≡ true)
          × (messages (answer none_left (queue_delete m.id) s).1 ≡ ms)
    delete [] m ms e = cc
    delete (x ∷ xs) m ms e =
        let same : text_eq x.0 m.id ≡ true =
          let id : x.0 ≡ m.id = cc in subst (λ i. text_eq x.0 i ≡ true) id (text_eq_refl x.0) in
        (good (λ k. []), rw same refl, refl, rw same cc)

-- A server that answers as the comment of `Ping` says: `PollRead` finds no end of the queue.
ping_passes : ((rri_registrar (client (good (λ k. []))) cfg).ping []).0.error ≡ none
unfolding ping ask resp_to_error answer
ping_passes = refl

quiet-not-IsQueue : ¬ IsQueue (rri_registrar (client (good (λ k. []))) cfg) messages
quiet-not-IsQueue lawful =
    (rri_registrar-IsQueue_iff (client (good (λ k. []))) cfg messages
        (client-ServesQueue (good (λ k. [])))).0
      lawful [] refl ping_passes

check_domain_says_free_example :
    All
      (λ r. r.available ≡ some true)
      ((rri_registrar (client bad) cfg).check_domain
        (codes "a.de" ∷ codes "taken.de" ∷ [])
        []).0.value
    × (((rri_registrar (client bad) cfg).check_domain
            (codes "a.de" ∷ codes "taken.de" ∷ [])
            []).0.error
          ≡ none
        → length
            ((rri_registrar (client bad) cfg).check_domain
              (codes "a.de" ∷ codes "taken.de" ∷ [])
              []).0.value
          ≡ length (codes "a.de" ∷ codes "taken.de" ∷ []))
check_domain_says_free_example =
    check_domain_says_free (client bad) cfg (codes "a.de" ∷ codes "taken.de" ∷ []) []

-- A client whose server refuses everything.
abbrev refused : Client
refused = record (client bad) { send_query = λ q s. (ok bad, s) }

address_lines : join_strings (codes "a" ∷ [] ∷ codes "b" ∷ []) ≡ codes "a\n\nb"
unfolding join_strings
address_lines = refl
