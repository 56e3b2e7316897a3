-- ===== src/Runner/Sample.antt =====
-- A small registrar for the tests: registered domain names and a queue of poll messages.
use epp_test.Base.{
  ◌≡◌, ℕ, refl, ap, ◌∙◌, map, Bool, true, false, List, [], ◌∷◌, none, some, if◌then◌else◌,
}
use epp_test.Base.Int.{pos}
use epp_test.Base.Text.{Bytes, codes, text_eq, text_eq_refl}
use epp_test.Registrar.{
  Registrar, Method, RegError, epp, DomainResult, ContactResult, HostResult, PollMessage,
}
use epp_test.Registrar.Value.{end}
use epp_test.Runner.Poll.Queue.{IsQueue}

pub record Registry : Type 0 where
  pub domains : List Bytes
  pub messages : List PollMessage

abbrev pub domain_of : Bytes → DomainResult
domain_of n = record {
  name = n;
  available = none;
  status = [];
  registrant = [];
  roid = [];
  created_at = [];
  expires_at = [];
  extensions = end;
}

abbrev pub no_contact : ContactResult
no_contact = record { id = []; name = []; org = []; email = []; status = []; extensions = end }

abbrev pub no_host : HostResult
no_host = record { name = []; addrs = []; status = []; extensions = end }

abbrev pub message_of : Bytes → Bytes → PollMessage
message_of id kind = record { id = id; kind = kind; content = []; queue_depth = pos 1 }

abbrev pub refusal : ℕ → RegError
refusal c = epp (record { code = pos c; message = []; reason = []; command = [] })

abbrev answer : {A : Type 0} → A → Method Registry A
answer v s = (record { value = v; error = none }, s)

unfoldable pub mem : Bytes → List Bytes → Bool
mem n [] = false
mem n (m ∷ ms) = if text_eq m n then true else mem n ms

unfoldable pub remove : Bytes → List Bytes → List Bytes
remove n [] = []
remove n (m ∷ ms) = if text_eq m n then remove n ms else m ∷ remove n ms

unfoldable pub read_message : Method Registry PollMessage
read_message s = elim s.messages [
  | [] ↦ (record { value = message_of [] []; error = some (refusal 1300) }, s)
  | m ∷ ms ↦ (record { value = m; error = none }, s)
]

unfoldable pub ack_message : Bytes → Method Registry (Unit {0})
ack_message id s = elim s.messages [
  | [] ↦ (record { value = tt; error = some (refusal 2303) }, s)
  | m ∷ ms ↦
      if text_eq m.id id
      then (record { value = tt; error = none }, record s { messages = ms })
      else (record { value = tt; error = some (refusal 2303) }, s)
]

abbrev pub sample : Registrar
sample = record {
  State = Registry;
  name = codes "denic";
  login = answer tt;
  logout = answer tt;
  ping = answer tt;
  check_domain = λ names. answer (map domain_of names);
  info_domain = λ n. answer (domain_of n);
  create_domain = λ req s.
      if mem req.name s.domains
      then (record { value = domain_of []; error = some (refusal 2302) }, s)
      else (
        record { value = domain_of req.name; error = none },
        record s { domains = req.name ∷ s.domains },
      );
  update_domain = λ req. answer (domain_of req.name);
  delete_domain =
      λ n s. (record { value = tt; error = none }, record s { domains = remove n s.domains });
  renew_domain = λ n period. answer (domain_of n);
  transfer_domain = λ req. answer (domain_of req.name);
  check_contact = λ ids. answer [];
  info_contact = λ id. answer no_contact;
  create_contact = λ req. answer no_contact;
  update_contact = λ req. answer no_contact;
  delete_contact = λ id. answer tt;
  check_host = λ names. answer [];
  info_host = λ n. answer no_host;
  create_host = λ req. answer no_host;
  update_host = λ req. answer no_host;
  delete_host = λ n. answer tt;
  poll_read = read_message;
  poll_ack = ack_message;
}

read_none :
    (s : Registry)
    → s.messages ≡ []
    → read_message s ≡ (record { value = message_of [] []; error = some (refusal 1300) }, s)
unfolding read_message
read_none s e = rw e refl

read_some :
    (s : Registry) (m : PollMessage) (ms : List PollMessage)
    → s.messages ≡ m ∷ ms
    → read_message s ≡ (record { value = m; error = none }, s)
unfolding read_message
read_some s m ms e = rw e refl

ack_some :
    (s : Registry) (m : PollMessage) (ms : List PollMessage)
    → s.messages ≡ m ∷ ms
    → ack_message m.id s ≡ (record { value = tt; error = none }, record s { messages = ms })
unfolding ack_message
ack_some s m ms e = rw (e, text_eq_refl m.id) refl

pub sample-IsQueue : IsQueue sample (λ s. s.messages)
sample-IsQueue = record {
  read_empty = λ s e. (
    refusal 1300,
    ap (λ p. p.0.error) (read_none s e),
    refl,
    ap (λ p. p.1.messages) (read_none s e) ∙ e,
  );
  read_head = λ s m ms e.
      (ap (λ p. p.0) (read_some s m ms e), ap (λ p. p.1.messages) (read_some s m ms e) ∙ e);
  ack_head = λ s m ms e.
      (ap (λ p. p.0.error) (ack_some s m ms e), ap (λ p. p.1.messages) (ack_some s m ms e));
}
