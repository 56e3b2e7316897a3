-- ===== src/EppAdapter/Calls.antt =====
-- The life of an EPP adapter: calls of its methods one after the other.
use epp_test.Base.{suc, ◌≡◌, ◌≢◌, List, [], ◌∷◌, ◌++◌, arith}
use epp_test.Base.Int.{ℤ}
use epp_test.Base.Text.{Bytes}
use epp_test.Base.Decimal.{decimal, decimal_inj}
use epp_test.Registrar.{
  DomainCreateRequest, DomainUpdateRequest, DomainTransferRequest, ContactCreateRequest,
  ContactUpdateRequest, HostCreateRequest, HostUpdateRequest,
}
use epp_test.Registrar.Validate.{validate_contact_handle, validate_auth_info}
use epp_test.EppAdapter.{World, Setup, Adapter}
use epp_test.EppAdapter.Connect.{next_cl_trid, dial_and_login}
use epp_test.EppAdapter.Domain.{
  check_domain, info_domain, create_domain, update_domain, delete_domain, renew_domain,
  transfer_domain,
}
use epp_test.EppAdapter.Contact.{
  check_contact, info_contact, create_contact, update_contact, delete_contact,
}
use epp_test.EppAdapter.Host.{check_host, info_host, create_host, update_host, delete_host}
use epp_test.EppAdapter.Messages.{poll_read, poll_ack, ping, log_out, close}
use epp_test.EppAdapter.Agreed.{Configured}
use epp_test.EppAdapter.Session.{Law, Calling, Later, later, later_calls, hang_up-Steady}
use epp_test.EppAdapter.Methods.{
  ace_of-Steady, aces_of-Steady, accepted-Steady, handles_accepted-Steady, data-Steady,
  log_out-Steady, ping-Call, poll_read-Call, bind-Call, told-Call, sent-Call,
}

-- One call of a method by its client.
pub data Step (W : World) (setup : Setup) (s : Adapter W) : Adapter W → Type 1 where
  logs_in : Step W setup s (dial_and_login W setup s).1
  logs_out : Step W setup s (log_out W setup s).1
  closes : Step W setup s (close W setup s)
  pings : Step W setup s (ping W setup s).1
  checks_domain : (names : List Bytes) → Step W setup s (check_domain W setup names s).1
  asks_domain : (name : Bytes) → Step W setup s (info_domain W setup name s).1
  creates_domain : (req : DomainCreateRequest) → Step W setup s (create_domain W setup req s).1
  updates_domain : (req : DomainUpdateRequest) → Step W setup s (update_domain W setup req s).1
  deletes_domain : (name : Bytes) → Step W setup s (delete_domain W setup name s).1
  renews_domain : (name : Bytes) (years : ℤ) → Step W setup s (renew_domain W setup name years s).1
  transfers_domain :
      (req : DomainTransferRequest) → Step W setup s (transfer_domain W setup req s).1
  checks_contact : (ids : List Bytes) → Step W setup s (check_contact W setup ids s).1
  asks_contact : (id : Bytes) → Step W setup s (info_contact W setup id s).1
  creates_contact : (req : ContactCreateRequest) → Step W setup s (create_contact W setup req s).1
  updates_contact : (req : ContactUpdateRequest) → Step W setup s (update_contact W setup req s).1
  deletes_contact : (id : Bytes) → Step W setup s (delete_contact W setup id s).1
  checks_host : (names : List Bytes) → Step W setup s (check_host W setup names s).1
  asks_host : (name : Bytes) → Step W setup s (info_host W setup name s).1
  creates_host : (req : HostCreateRequest) → Step W setup s (create_host W setup req s).1
  updates_host : (req : HostUpdateRequest) → Step W setup s (update_host W setup req s).1
  deletes_host : (name : Bytes) → Step W setup s (delete_host W setup name s).1
  reads_message : Step W setup s (poll_read W setup s).1
  acknowledges : (id : Bytes) → Step W setup s (poll_ack W setup id s).1

-- The states that calls lead to.
pub data Reaches (W : World) (setup : Setup) (s : Adapter W) : Adapter W → Type 1 where
  here : Reaches W setup s s
  and_then : {t u : Adapter W} → Reaches W setup s t → Step W setup t u → Reaches W setup s u

same_end : (xs a b : Bytes) → xs ++ a ≡ xs ++ b → a ≡ b
same_end [] a b h = h
same_end (x ∷ xs) a b h = same_end xs a b cc

module _ {W : World} {setup : Setup} {law : Law W setup} (calls : Calling law) where
  pub step-Call : {s t : Adapter W} → Step W setup s t → calls.Call s t
  unfolding close check_domain info_domain create_domain update_domain delete_domain renew_domain
      transfer_domain check_contact info_contact create_contact update_contact delete_contact
      check_host info_host create_host update_host delete_host poll_ack
  step-Call {s} logs_in = calls.logs_in s
  step-Call {s} logs_out = calls.quiet (log_out-Steady law s)
  step-Call {s} closes = calls.quiet (hang_up-Steady law s)
  step-Call {s} pings = ping-Call law calls s
  step-Call {s} (checks_domain names) =
      bind-Call law calls _ _ (aces_of-Steady law names)
        (λ aces.
          told-Call law calls _ _ _ (λ resp. data-Steady law _ _ resp.res_data W.domain_checks _))
        s
  step-Call {s} (asks_domain name) =
      bind-Call law calls _ _ (ace_of-Steady law name)
        (λ ace.
          told-Call law calls _ _ _ (λ resp. data-Steady law _ _ resp.res_data W.domain_infos _))
        s
  step-Call {s} (creates_domain req) =
      bind-Call law calls _ _ (ace_of-Steady law req.name)
        (λ ace.
          bind-Call law calls _ _ (accepted-Steady law (validate_auth_info req.auth_info))
            (λ _. sent-Call law calls _ _ setup.on_build_domain_create _ _))
        s
  step-Call {s} (updates_domain req) =
      bind-Call law calls _ _ (ace_of-Steady law req.name)
        (λ ace. sent-Call law calls _ _ setup.on_build_domain_update _ _) s
  step-Call {s} (deletes_domain name) =
      bind-Call law calls _ _ (ace_of-Steady law name)
        (λ ace. told-Call law calls _ _ _ (λ _. law.nothing)) s
  step-Call {s} (renews_domain name years) =
      bind-Call law calls _ _ (ace_of-Steady law name)
        (λ ace. told-Call law calls _ _ _ (λ _. law.nothing)) s
  step-Call {s} (transfers_domain req) =
      bind-Call law calls _ _ (ace_of-Steady law req.name)
        (λ ace.
          bind-Call law calls _ _ (accepted-Steady law (validate_auth_info req.auth_info))
            (λ _. told-Call law calls _ _ _ (λ _. law.nothing)))
        s
  step-Call {s} (checks_contact ids) =
      bind-Call law calls _ _ (handles_accepted-Steady law ids)
        (λ _. told-Call law calls _ _ _ (λ _. law.nothing)) s
  step-Call {s} (asks_contact id) =
      bind-Call law calls _ _ (accepted-Steady law (validate_contact_handle id))
        (λ _.
          told-Call law calls _ _ _ (λ resp. data-Steady law _ _ resp.res_data W.contact_infos _))
        s
  step-Call {s} (creates_contact req) =
      bind-Call law calls _ _ (accepted-Steady law (validate_contact_handle req.id))
        (λ _.
          bind-Call law calls _ _ (accepted-Steady law (validate_auth_info req.auth_info))
            (λ _. sent-Call law calls _ _ setup.on_build_contact_create req _))
        s
  step-Call {s} (updates_contact req) =
      bind-Call law calls _ _ (accepted-Steady law (validate_contact_handle req.id))
        (λ _. told-Call law calls _ _ _ (λ _. law.nothing)) s
  step-Call {s} (deletes_contact id) =
      bind-Call law calls _ _ (accepted-Steady law (validate_contact_handle id))
        (λ _. told-Call law calls _ _ _ (λ _. law.nothing)) s
  step-Call {s} (checks_host names) =
      bind-Call law calls _ _ (aces_of-Steady law names)
        (λ _. told-Call law calls _ _ _ (λ _. law.nothing)) s
  step-Call {s} (asks_host name) =
      bind-Call law calls _ _ (ace_of-Steady law name)
        (λ ace.
          told-Call law calls _ _ _ (λ resp. data-Steady law _ _ resp.res_data W.host_infos _))
        s
  step-Call {s} (creates_host req) =
      bind-Call law calls _ _ (ace_of-Steady law req.name)
        (λ _. told-Call law calls _ _ _ (λ _. law.nothing)) s
  step-Call {s} (updates_host req) =
      bind-Call law calls _ _ (ace_of-Steady law req.name)
        (λ _. told-Call law calls _ _ _ (λ _. law.nothing)) s
  step-Call {s} (deletes_host name) =
      bind-Call law calls _ _ (ace_of-Steady law name)
        (λ _. told-Call law calls _ _ _ (λ _. law.nothing)) s
  step-Call {s} reads_message = poll_read-Call law calls s
  step-Call {s} (acknowledges id) = told-Call law calls _ _ _ (λ _. law.nothing) s

module _ {W : World} (setup : Setup) where
  Reaches-Later : {s t : Adapter W} → Reaches W setup s t → Later setup s t
  Reaches-Later {s} here = (later setup).nothing s
  Reaches-Later (and_then run step) =
      (later setup).and_then (Reaches-Later run) (step-Call (later_calls setup) step)

  -- Whatever calls of its methods follow when an adapter has taken a transaction ID: it still uses
  -- only extensions of its configuration, if it did before, and the ID that it takes next differs
  -- from that one.
  pub Reaches-Sound :
      (s t : Adapter W)
      → Reaches W setup (next_cl_trid W setup s).1 t
      → Configured setup s.advertised_ext
      → Configured setup t.advertised_ext
        × ((next_cl_trid W setup s).0 ≢ (next_cl_trid W setup t).0)
  unfolding next_cl_trid
  Reaches-Sound s t run agreed =
      let later = Reaches-Later run in
      (
        later.configured agreed,
        λ e.
            let texts : setup.name ++ b'-' ∷ decimal (suc s.cl_trid)
                ≡ setup.name ++ b'-' ∷ decimal (suc t.cl_trid) =
              cc in
            let ends : b'-' ∷ decimal (suc s.cl_trid) ≡ b'-' ∷ decimal (suc t.cl_trid) =
              same_end setup.name _ _ texts in
            let numbers : decimal (suc s.cl_trid) ≡ decimal (suc t.cl_trid) = cc in
            omega (arith, decimal_inj (suc s.cl_trid) (suc t.cl_trid) numbers, later.counted),
      )
