-- ===== src/RriAdapter.antt =====
-- pkg/registrar/rri/adapter.go: the registrar of DENIC, over the client library go-rriclient, which
-- is a parameter, as are MD5 and the library idna. The connection is the client's state.
pub mod Commands
pub mod Errors
pub mod Refused
pub mod Queue
pub mod Checks
mod Tests
use epp_test.Base.{
  ℕ, Bool, true, false, not, List, [], ◌∷◌, ◌++◌, Option, none, some, if◌then◌else◌,
}
use epp_test.Base.Int.{ℤ, pos, eqb_ℤ}
use epp_test.Base.Text.{Bytes, codes, text_eq}
use epp_test.Base.Result.{Result, ok, err}
use epp_test.Registrar.{
  Registrar, Reply, Method, RegError, epp, plain, EppError, DomainResult, ContactResult, HostResult,
  PollMessage, DomainCreateRequest, DomainUpdateRequest, DomainTransferRequest,
  ContactCreateRequest, ContactUpdateRequest, HostCreateRequest, HostUpdateRequest,
}
use epp_test.Registrar.Value.{Fields, end, field, scalar}
use epp_test.Registrar.Validate.{normalize_to_ace}

-- A business message of a response: its number and its text.
pub record Message : Type 0 where
  pub id : ℤ
  pub text : Bytes

-- What the adapter reads of a `gorri.Response`.
pub record Response : Type 0 where
  pub is_successful : Bool
  pub error_messages : List Message
  pub values : Bytes → List Bytes

-- `FirstField`
abbrev pub first_of : List Bytes → Bytes
first_of [] = []
first_of (v ∷ vs) = v

abbrev pub DenicHandle : Type 0
DenicHandle = Bytes

-- `gorri.DomainData` and `gorri.ContactData`, as far as the adapter fills them.
pub record DomainData : Type 0 where
  pub name_servers : List Bytes
  pub holder_handles : List DenicHandle

pub record ContactData : Type 0 where
  pub name : Bytes
  pub organisation : Bytes
  pub address : Bytes
  pub postal_code : Bytes
  pub city : Bytes
  pub country_code : Bytes
  pub email : List Bytes
  pub phone : Bytes

-- The queries that the library builds, each with the arguments of its constructor function.
pub data Query : Type 0 where
  queue_read : Query
  queue_delete : Bytes → Query
  check_domain info_domain delete_domain : Bytes → Query
  create_domain update_domain : Bytes → DomainData → Query
  transit_domain : Bytes → Bool → Query
  create_auth_info1 : Bytes → Bytes → Bytes → Query
  create_auth_info2 : Bytes → Query
  check_handle info_handle : DenicHandle → Query
  create_contact : DenicHandle → ContactData → Query

-- go-rriclient with its connection, and the functions outside the repository.
pub record Client : Type 1 where
  pub Conn : Type 0
  pub send_query : Query → Conn → Result Bytes Response × Conn
  pub login : Bytes → Bytes → Conn → Option Bytes × Conn
  pub logout : Conn → Option Bytes × Conn
  pub parse_handle : Bytes → Option DenicHandle
  pub md5_hex : Bytes → Bytes
  pub to_ascii : Bytes → Option Bytes
  pub in_five_days : Conn → Bytes

-- `mapRRICodeToEPP`
unfoldable pub map_rri_code_to_epp : ℤ → ℤ
map_rri_code_to_epp c =
    if eqb_ℤ c (pos 83000000001)
    then pos 2303
    else if eqb_ℤ c (pos 83000000002)
    then pos 2302
    else if eqb_ℤ c (pos 83000000010)
    then pos 2201
    else pos 2400

abbrev pub rri_error : ℤ → Bytes → Bytes → EppError
rri_error code message command = record {
  code = code;
  message = message;
  reason = [];
  command = command;
}

abbrev first_message : List Message → Bytes → EppError
first_message [] command =
    rri_error (pos 2400) (codes "RRI command failed (no error details)") command
first_message (m ∷ ms) command = rri_error (map_rri_code_to_epp m.id) m.text command

-- `respToError`
unfoldable pub resp_to_error : Response → Bytes → Option RegError
unfolding map_rri_code_to_epp
resp_to_error resp command =
    if resp.is_successful then none else some (epp (first_message resp.error_messages command))

-- `joinStrings`; the flag tells the first element.
join_from : Bool → List Bytes → Bytes
join_from first [] = []
join_from true (s ∷ ss) = s ++ join_from false ss
join_from false (s ∷ ss) = b'\n' ∷ (s ++ join_from false ss)

unfoldable pub join_strings : List Bytes → Bytes
unfolding join_from
join_strings ss = join_from true ss

abbrev pub named_domain : Bytes → DomainResult
named_domain n = record {
  name = n;
  available = none;
  status = [];
  registrant = [];
  roid = [];
  created_at = [];
  expires_at = [];
  extensions = end;
}

abbrev pub no_contact : ContactResult
no_contact = record { id = []; name = []; org = []; email = []; status = []; extensions = end }

abbrev pub no_host : HostResult
no_host = record { name = []; addrs = []; status = []; extensions = end }

abbrev pub no_message : PollMessage
no_message = record { id = []; kind = []; content = []; queue_depth = pos 0 }

-- `parseDomainResult`
unfoldable pub parse_domain_result : Bytes → Response → DomainResult
parse_domain_result name resp = record (named_domain name) {
  registrant = first_of (resp.values (codes "HOLDER"));
  status = codes "ok" ∷ [];
}

-- `parseContactResult`
unfoldable pub parse_contact_result : Bytes → Response → ContactResult
parse_contact_result id resp = record no_contact {
  id = id;
  name = first_of (resp.values (codes "NAME"));
  org = first_of (resp.values (codes "ORGANISATION"));
  email = first_of (resp.values (codes "EMAIL"));
}

-- The result of a contact check: the handle exists where the response is a success.
unfoldable pub checked_contact : Bytes → Response → ContactResult
checked_contact id resp = record no_contact {
  id = id;
  status = if resp.is_successful then codes "found" ∷ [] else codes "not-found" ∷ [];
  extensions =
      field (codes "available")
        (scalar (if resp.is_successful then codes "false" else codes "true")) end;
}

-- A message that was read from the queue.
unfoldable pub parse_message : Response → PollMessage
parse_message resp = record {
  id = first_of (resp.values (codes "MSGID"));
  kind = first_of (resp.values (codes "MSGTYPE"));
  content = first_of (resp.values (codes "INFO"));
  queue_depth = pos 0;
}

abbrev pub failing : {A S : Type 0} → A → RegError → Method S A
failing zero e s = (record { value = zero; error = some e }, s)

abbrev pub giving : {A S : Type 0} → A → Method S A
giving v s = (record { value = v; error = none }, s)

-- A command that DENIC does not have; nothing is sent.
unfoldable pub not_implemented : {A S : Type 0} → A → Bytes → Bytes → Method S A
not_implemented zero message command = failing zero (epp (rri_error (pos 2101) message command))

module _ (C : Client) where
  open C use {Conn, send_query, parse_handle, to_ascii}

  -- The query of a command, its errors, and what is made of a successful response.
  unfoldable pub ask : {A : Type 0} → A → Bytes → Query → (Response → A) → Method Conn A
  ask zero command query parse s =
      let (r, s') = send_query query s in
      elim r [
        | err m ↦ failing zero (plain m) s'
        | ok resp ↦ elim (resp_to_error resp command) [
          | some e ↦ failing zero e s'
          | none ↦ giving (parse resp) s'
        ]
      ]

  -- The name of a domain in its ACE form, before anything is sent.
  unfoldable pub with_ace : {A : Type 0} → A → Bytes → (Bytes → Method Conn A) → Method Conn A
  with_ace zero name command s = elim (normalize_to_ace to_ascii name) [
    | err e ↦ failing zero e s
    | ok ace ↦ command ace s
  ]

  unfoldable pub with_handle :
      {A : Type 0} → A → Bytes → (DenicHandle → Method Conn A) → Method Conn A
  with_handle zero id command s = elim (parse_handle id) [
    | none ↦ failing zero (plain (codes "invalid handle")) s
    | some h ↦ command h s
  ]

  abbrev pub as_unit : Option Bytes × Conn → Reply (Unit {0}) × Conn
  as_unit (none, s) = giving tt s
  as_unit (some m, s) = failing tt (plain m) s
