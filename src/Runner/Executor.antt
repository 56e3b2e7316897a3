-- ===== src/Runner/Executor.antt =====
-- pkg/runner/executor.go: the table of operations and their executors.
use epp_test.Base.{List, [], ◌∷◌, Option, none, some, if◌then◌else◌}
use epp_test.Base.Int.{ℤ}
use epp_test.Base.Text.{Bytes, codes, text_eq}
use epp_test.Base.Dict.{Dict, lookup}
use epp_test.Registrar.{
  Registrar, Method, plain, DomainCreateRequest, DomainUpdateRequest, DomainTransferRequest,
  ContactCreateRequest, ContactUpdateRequest, HostCreateRequest, HostUpdateRequest,
}
use epp_test.Registrar.Value.{str, list, Fields, get}
use epp_test.Runner.Params.{string_param, int_param, any_strings}
use epp_test.Runner.Step.{
  StepValue, nothing, domain, domains, contact, contacts, host, hosts, message,
}

pub data Op : Type 0 where
  check_domain create_domain info_domain update_domain delete_domain : Op
  renew_domain transfer_domain : Op
  check_contact create_contact info_contact update_contact delete_contact : Op
  check_host create_host info_host update_host delete_host : Op
  poll poll_ack login logout ping : Op

-- The keys of `opTable`.
unfoldable pub op_table : Dict Op
op_table =
    (codes "check_domain", check_domain)
    ∷ (codes "create_domain", create_domain)
    ∷ (codes "info_domain", info_domain)
    ∷ (codes "update_domain", update_domain)
    ∷ (codes "delete_domain", delete_domain)
    ∷ (codes "renew_domain", renew_domain)
    ∷ (codes "transfer_domain", transfer_domain)
    ∷ (codes "check_contact", check_contact)
    ∷ (codes "create_contact", create_contact)
    ∷ (codes "info_contact", info_contact)
    ∷ (codes "update_contact", update_contact)
    ∷ (codes "delete_contact", delete_contact)
    ∷ (codes "check_host", check_host)
    ∷ (codes "create_host", create_host)
    ∷ (codes "info_host", info_host)
    ∷ (codes "update_host", update_host)
    ∷ (codes "delete_host", delete_host)
    ∷ (codes "poll", poll)
    ∷ (codes "poll_ack", poll_ack)
    ∷ (codes "login", login)
    ∷ (codes "logout", logout)
    ∷ (codes "ping", ping)
    ∷ []

-- `decodeParams` into each request: the library mapstructure, with `none` for its errors; and
-- `fmt.Sscan` into an int, with 0 for its failures.
pub record Decoder : Type 0 where
  pub domain_create : Fields → Option DomainCreateRequest
  pub domain_update : Fields → Option DomainUpdateRequest
  pub domain_transfer : Fields → Option DomainTransferRequest
  pub contact_create : Fields → Option ContactCreateRequest
  pub contact_update : Fields → Option ContactUpdateRequest
  pub host_create : Fields → Option HostCreateRequest
  pub host_update : Fields → Option HostUpdateRequest
  pub sscan : Bytes → ℤ

-- The list of names or ids of a check.
unfoldable pub names_param : Fields → Bytes → List Bytes
names_param params key = elim (get key params) [
  | some (list vs) ↦ any_strings vs
  | some (str s) ↦ s ∷ []
  | _ ↦ []
]

module _ {S : Type 0} where
  -- A method's value as a value of type `any`.
  abbrev pub giving : {A : Type 0} → (A → StepValue) → Method S A → Method S StepValue
  giving f m s = let (r, s') = m s in (record { value = f r.value; error = r.error }, s')

  -- A failed decoding returns before the registrar is called.
  abbrev pub decoded : {Q : Type 0} → Option Q → (Q → Method S StepValue) → Method S StepValue
  decoded none call s =
      (record { value = nothing; error = some (plain (codes "decode params")) }, s)
  decoded (some q) call s = call q s

module _ (R : Registrar) (decoder : Decoder) where
  open R use {State}

  -- The executors. `poll_ack` takes its message from `id`, and from `msg_id` where that is empty.
  unfoldable pub exec : Op → Fields → Method State StepValue
  exec check_domain p = giving domains (R.check_domain (names_param p (codes "names")))
  exec create_domain p = decoded (decoder.domain_create p) (λ q. giving domain (R.create_domain q))
  exec info_domain p = giving domain (R.info_domain (string_param p (codes "name")))
  exec update_domain p = decoded (decoder.domain_update p) (λ q. giving domain (R.update_domain q))
  exec delete_domain p = giving (λ _. nothing) (R.delete_domain (string_param p (codes "name")))
  exec renew_domain p =
      giving domain
        (R.renew_domain (string_param p (codes "name")) (int_param decoder.sscan p (codes "years")))
  exec transfer_domain p =
      decoded (decoder.domain_transfer p) (λ q. giving domain (R.transfer_domain q))
  exec check_contact p = giving contacts (R.check_contact (names_param p (codes "ids")))
  exec create_contact p =
      decoded (decoder.contact_create p) (λ q. giving contact (R.create_contact q))
  exec info_contact p = giving contact (R.info_contact (string_param p (codes "id")))
  exec update_contact p =
      decoded (decoder.contact_update p) (λ q. giving contact (R.update_contact q))
  exec delete_contact p = giving (λ _. nothing) (R.delete_contact (string_param p (codes "id")))
  exec check_host p = giving hosts (R.check_host (names_param p (codes "names")))
  exec create_host p = decoded (decoder.host_create p) (λ q. giving host (R.create_host q))
  exec info_host p = giving host (R.info_host (string_param p (codes "name")))
  exec update_host p = decoded (decoder.host_update p) (λ q. giving host (R.update_host q))
  exec delete_host p = giving (λ _. nothing) (R.delete_host (string_param p (codes "name")))
  exec poll p = giving message R.poll_read
  exec poll_ack p =
      let id = string_param p (codes "id") in
      giving (λ _. nothing)
        (R.poll_ack (if text_eq id [] then string_param p (codes "msg_id") else id))
  exec login p = giving (λ _. nothing) R.login
  exec logout p = giving (λ _. nothing) R.logout
  exec ping p = giving (λ _. nothing) R.ping

  -- The dispatch of `RunScenario` through `opTable`.
  unfoldable pub exec_op : Bytes → Fields → Method State StepValue
  exec_op name p s = elim (lookup name op_table) [
    | none ↦ (record { value = nothing; error = some (plain (codes "unknown op")) }, s)
    | some op ↦ exec op p s
  ]
