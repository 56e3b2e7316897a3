-- ===== src/RriAdapter/Commands.antt =====
-- The methods of `RRIAdapter`, pkg/registrar/rri/adapter.go, as a registrar.
use epp_test.Base.{false, List, [], ◌∷◌, ◌++◌, none, some, if◌then◌else◌}
use epp_test.Base.Int.{pos}
use epp_test.Base.Text.{Bytes, codes, text_eq}
use epp_test.Base.Result.{ok, err}
use epp_test.Registrar.{
  Registrar, Method, RegError, epp, plain, DomainResult, ContactResult, PollMessage,
  DomainCreateRequest, DomainUpdateRequest, DomainTransferRequest, ContactCreateRequest,
}
use epp_test.Registrar.Validate.{normalize_to_ace}
use epp_test.RriAdapter.{
  Message, queue_read, queue_delete, check_domain, info_domain, delete_domain, create_domain,
  update_domain, transit_domain, create_auth_info1, create_auth_info2, check_handle, info_handle,
  create_contact, Client, rri_error, resp_to_error, join_strings, named_domain, no_contact, no_host,
  no_message, parse_domain_result, parse_contact_result, checked_contact, parse_message, failing,
  giving, not_implemented, ask, with_ace, with_handle, as_unit,
}

-- The configuration that a session takes.
pub record Credentials : Type 0 where
  pub username : Bytes
  pub password : Bytes

module _ (C : Client) where
  open C use {Conn, send_query, parse_handle, md5_hex, to_ascii, in_five_days}

  -- `Login`: the password is hashed once, here.
  unfoldable pub log_in : Credentials → Method Conn (Unit {0})
  log_in cfg s = as_unit C (C.login cfg.username (md5_hex cfg.password) s)

  -- `Logout`
  unfoldable pub log_out : Method Conn (Unit {0})
  log_out s = as_unit C (C.logout s)

  -- `Ping`
  unfoldable pub ping : Method Conn (Unit {0})
  ping = ask C tt (codes "ping") queue_read (λ _. tt)

  -- The loop of `CheckDomain`.
  unfoldable pub check_names : List Bytes → List DomainResult → Method Conn (List DomainResult)
  check_names [] results s = giving results s
  check_names (name ∷ names) results s = elim (normalize_to_ace to_ascii name) [
    | err e ↦ failing [] e s
    | ok ace ↦
        let (r, s') = send_query (check_domain ace) s in
        elim r [
          | err m ↦ failing [] (plain m) s'
          | ok resp ↦ elim (resp_to_error resp (codes "domain:check")) [
            | some e ↦ failing [] e s'
            | none ↦
                check_names names
                  (results
                    ++ (record (named_domain ace) { available = some resp.is_successful } ∷ []))
                  s'
          ]
        ]
  ]

  -- The loop of `CheckContact`.
  unfoldable pub check_handles : List Bytes → List ContactResult → Method Conn (List ContactResult)
  check_handles [] results s = giving results s
  check_handles (id ∷ ids) results s = elim (parse_handle id) [
    | none ↦ failing [] (plain (codes "invalid handle")) s
    | some h ↦
        let (r, s') = send_query (check_handle h) s in
        elim r [
          | err m ↦ failing [] (plain m) s'
          | ok resp ↦ check_handles ids (results ++ (checked_contact id resp ∷ [])) s'
        ]
  ]

  -- `InfoDomain`
  unfoldable pub rri_info_domain : Bytes → Method Conn DomainResult
  rri_info_domain name = with_ace C (named_domain []) name (λ ace.
      ask C (named_domain []) (codes "domain:info") (info_domain ace) (parse_domain_result ace))

  -- The holder handle of a new domain: none where it is empty or not a handle.
  unfoldable pub holder_handles : Bytes → List Bytes
  holder_handles registrant =
      if text_eq registrant []
      then []
      else elim (parse_handle registrant) [ none ↦ [] | some h ↦ h ∷ [] ]

  -- `CreateDomain`
  unfoldable pub rri_create_domain : DomainCreateRequest → Method Conn DomainResult
  rri_create_domain req = with_ace C (named_domain []) req.name (λ ace.
      ask C (named_domain []) (codes "domain:create")
        (create_domain ace (record {
          name_servers = req.nameservers;
          holder_handles = holder_handles req.registrant;
        }))
        (λ _. named_domain ace))

  -- `UpdateDomain`
  unfoldable pub rri_update_domain : DomainUpdateRequest → Method Conn DomainResult
  rri_update_domain req = with_ace C (named_domain []) req.name (λ ace.
      ask C (named_domain []) (codes "domain:update")
        (update_domain ace (record { name_servers = req.add_nameservers; holder_handles = [] }))
        (λ _. named_domain ace))

  -- `DeleteDomain`
  unfoldable pub rri_delete_domain : Bytes → Method Conn (Unit {0})
  rri_delete_domain name =
      with_ace C tt name (λ ace. ask C tt (codes "domain:delete") (delete_domain ace) (λ _. tt))

  -- The switch of `TransferDomain`.
  unfoldable pub transfer_op : Bytes → Bytes → Bytes → Method Conn DomainResult
  transfer_op op auth_info ace s =
      if text_eq op (codes "request")
      then ask C (named_domain []) (codes "domain:transfer/transit") (transit_domain ace false)
          (λ _. named_domain ace) s
      else if text_eq op (codes "authinfo1")
      then ask C (named_domain []) (codes "domain:transfer/authinfo1")
          (create_auth_info1 ace auth_info (in_five_days s)) (λ _. named_domain ace) s
      else if text_eq op (codes "authinfo2")
      then ask C (named_domain []) (codes "domain:transfer/authinfo2") (create_auth_info2 ace)
          (λ _. named_domain ace) s
      else not_implemented (named_domain []) (codes "transfer op not implemented in DENIC RRI")
          (codes "domain:transfer") s

  -- `TransferDomain`
  unfoldable pub rri_transfer_domain : DomainTransferRequest → Method Conn DomainResult
  rri_transfer_domain req = with_ace C (named_domain []) req.name (transfer_op req.op req.auth_info)

  -- `InfoContact`
  unfoldable pub rri_info_contact : Bytes → Method Conn ContactResult
  rri_info_contact id =
      with_handle C no_contact id
        (λ h. ask C no_contact (codes "contact:info") (info_handle h) (parse_contact_result id))

  -- `CreateContact`
  unfoldable pub rri_create_contact : ContactCreateRequest → Method Conn ContactResult
  rri_create_contact req = with_handle C no_contact req.id (λ h.
      ask C no_contact (codes "contact:create")
        (create_contact h (record {
          name = req.name;
          organisation = req.org;
          address = join_strings req.street;
          postal_code = req.postal_code;
          city = req.city;
          country_code = req.country_code;
          email = req.email ∷ [];
          phone = req.phone;
        }))
        (λ _. record no_contact { id = req.id; name = req.name; email = req.email }))

  -- What `PollRead` makes of a failure: every one of them is an empty queue.
  unfoldable pub queue_empty : List Message → RegError
  queue_empty [] = epp (rri_error (pos 1300) (codes "no messages in queue") (codes "poll:read"))
  queue_empty (m ∷ ms) = epp (rri_error (pos 1300) m.text (codes "poll:read"))

  -- `PollRead`
  unfoldable pub rri_poll_read : Method Conn PollMessage
  rri_poll_read s =
      let (r, s') = send_query queue_read s in
      elim r [
        | err m ↦ failing no_message (plain m) s'
        | ok resp ↦
            if resp.is_successful
            then giving (parse_message resp) s'
            else failing no_message (queue_empty resp.error_messages) s'
      ]

  -- `PollAck`
  unfoldable pub rri_poll_ack : Bytes → Method Conn (Unit {0})
  rri_poll_ack id = ask C tt (codes "poll:ack") (queue_delete id) (λ _. tt)

  abbrev pub no_hosts : {A : Type 0} → A → Bytes → Method Conn A
  no_hosts zero command =
      not_implemented zero (codes "host operations not supported by DENIC RRI") command

  -- The adapter as a registrar. Renewals, updates and deletions of contacts, and hosts are commands
  -- that DENIC does not have.
  abbrev pub rri_registrar : Credentials → Registrar
  rri_registrar cfg = record {
    State = Conn;
    name = codes "denic";
    login = log_in cfg;
    logout = log_out;
    ping = ping;
    check_domain = λ names. check_names names [];
    info_domain = rri_info_domain;
    create_domain = rri_create_domain;
    update_domain = rri_update_domain;
    delete_domain = rri_delete_domain;
    renew_domain = λ name years.
        not_implemented (named_domain []) (codes "command not implemented in DENIC RRI")
          (codes "domain:renew");
    transfer_domain = rri_transfer_domain;
    check_contact = λ ids. check_handles ids [];
    info_contact = rri_info_contact;
    create_contact = rri_create_contact;
    update_contact = λ req.
        not_implemented no_contact (codes "contact update not supported in DENIC RRI")
          (codes "contact:update");
    delete_contact = λ id.
        not_implemented tt (codes "contact delete not supported in DENIC RRI")
          (codes "contact:delete");
    check_host = λ names. no_hosts [] (codes "host:check");
    info_host = λ name. no_hosts no_host (codes "host:info");
    create_host = λ req. no_hosts no_host (codes "host:create");
    update_host = λ req. no_hosts no_host (codes "host:update");
    delete_host = λ name. no_hosts tt (codes "host:delete");
    poll_read = rri_poll_read;
    poll_ack = rri_poll_ack;
  }
