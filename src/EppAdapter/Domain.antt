-- ===== src/EppAdapter/Domain.antt =====
-- The methods on domains of `GenericEPPAdapter`, pkg/registrar/epp/adapter.go.
use epp_test.Base.{List, [], ◌∷◌, Option, none, some, if◌then◌else◌}
use epp_test.Base.Int.{ℤ, pos, ltb_ℤ}
use epp_test.Base.Text.{Bytes, codes, text_eq}
use epp_test.Registrar.{
  DomainResult, DomainCreateRequest, DomainUpdateRequest, DomainTransferRequest,
}
use epp_test.Registrar.Validate.{validate_auth_info}
use epp_test.Registrar.Value.{end}
use epp_test.EppXml.{
  DomainInfoResponse, DomainCheckName, DomainUpdateAddRem, domain_check, domain_info, domain_create,
  domain_update, domain_delete, domain_renew, domain_transfer,
}
use epp_test.EppAdapter.{World, Setup, Run, ◌>>=◌, return, required, no_extension, extension_of}
use epp_test.EppAdapter.Connect.{commanded}
use epp_test.EppAdapter.Params.{ace_of, aces_of, accepted}

abbrev pub domain_named : Bytes → DomainResult
domain_named n = record {
  name = n;
  available = none;
  status = [];
  registrant = [];
  roid = [];
  created_at = [];
  expires_at = [];
  extensions = end;
}

-- The results of a check, one for each `cd`.
unfoldable pub checked_domains : List DomainCheckName → List DomainResult
checked_domains [] = []
checked_domains (cd ∷ cds) =
    record (domain_named cd.value) { available = some cd.avail } ∷ checked_domains cds

-- A time of the answer, where it can be parsed; the zero time is the empty text.
abbrev pub time_or_zero : Option Bytes → Bytes
time_or_zero none = []
time_or_zero (some t) = t

unfoldable pub time_of : (Bytes → Option Bytes) → Bytes → Bytes
time_of parse_time date = if text_eq date [] then [] else time_or_zero (parse_time date)

-- The result of `InfoDomain`.
unfoldable pub domain_of : (Bytes → Option Bytes) → DomainInfoResponse → DomainResult
unfolding time_of
domain_of parse_time inf = record {
  name = inf.name;
  available = none;
  status = inf.statuses;
  registrant = inf.registrant;
  roid = inf.roid;
  created_at = time_of parse_time inf.cr_date;
  expires_at = time_of parse_time inf.ex_date;
  extensions = end;
}

-- A hook that reads an extension, where it is set.
unfoldable pub hooked : {A : Type 0} → Option (Bytes → A → A) → Bytes → A → A
hooked none inner a = a
hooked (some hook) inner a = hook inner a

-- An `add` or `rem` block, where it is not empty.
unfoldable pub domain_change : List Bytes → List Bytes → Option DomainUpdateAddRem
domain_change [] [] = none
domain_change [] (t ∷ ts) = some (record { nameservers = []; statuses = t ∷ ts })
domain_change (n ∷ ns) statuses = some (record { nameservers = n ∷ ns; statuses = statuses })

module _ (W : World) (setup : Setup) where
  -- `CheckDomain`
  unfoldable pub check_domain : List Bytes → Run W (List DomainResult)
  check_domain names = aces_of names >>= λ aces.
      commanded W setup (codes "domain:check") (domain_check aces) no_extension (λ resp.
        required (codes "response missing <epp:resData>") resp.res_data >>= λ inner.
        required (codes "unmarshal chkData") (W.domain_checks inner) >>= λ cds.
        return (checked_domains cds))

  -- `InfoDomain`
  unfoldable pub info_domain : Bytes → Run W DomainResult
  info_domain name = ace_of name >>= λ ace.
      commanded W setup (codes "domain:info") (domain_info (record { value = ace; hosts = [] }))
        no_extension
        (λ resp. required (codes "response missing <epp:resData>") resp.res_data >>= λ inner.
          required (codes "unmarshal infData") (W.domain_infos inner) >>= λ inf.
          return (hooked setup.on_parse_domain_info inner (domain_of W.parse_time inf)))

  -- `CreateDomain`
  unfoldable pub create_domain : DomainCreateRequest → Run W DomainResult
  create_domain req = ace_of req.name >>= λ ace.
      accepted (validate_auth_info req.auth_info) >>= λ _.
      commanded W setup (codes "domain:create")
        (domain_create (record {
          name = ace;
          period =
              if ltb_ℤ (pos 0) req.period
              then some (record { unit = codes "y"; value = req.period })
              else none;
          nameservers = req.nameservers;
          registrant = req.registrant;
          auth_info = some (record { pw = req.auth_info });
        }))
        (extension_of setup.on_build_domain_create (record req { name = ace }))
        (λ _. return (domain_named ace))

  -- `UpdateDomain`
  unfoldable pub update_domain : DomainUpdateRequest → Run W DomainResult
  update_domain req = ace_of req.name >>= λ ace.
      commanded W setup (codes "domain:update")
        (domain_update (record {
          name = ace;
          add = domain_change req.add_nameservers req.add_statuses;
          rem = domain_change req.remove_nameservers req.remove_statuses;
        }))
        (extension_of setup.on_build_domain_update (record req { name = ace }))
        (λ _. return (domain_named ace))

  -- `DeleteDomain`
  unfoldable pub delete_domain : Bytes → Run W (Unit {0})
  delete_domain name = ace_of name >>= λ ace.
      commanded W setup (codes "domain:delete") (domain_delete ace) no_extension (λ _. return tt)

  -- `RenewDomain`
  unfoldable pub renew_domain : Bytes → ℤ → Run W DomainResult
  renew_domain name years = ace_of name >>= λ ace.
      commanded W setup (codes "domain:renew")
        (domain_renew (record {
          name = ace;
          cur_exp_date = [];
          period = some (record { unit = codes "y"; value = years });
        }))
        no_extension (λ _. return (domain_named ace))

  -- `TransferDomain`
  unfoldable pub transfer_domain : DomainTransferRequest → Run W DomainResult
  transfer_domain req = ace_of req.name >>= λ ace.
      accepted (validate_auth_info req.auth_info) >>= λ _.
      commanded W setup (codes "domain:transfer")
        (domain_transfer (record {
          op = req.op;
          command = record {
            name = ace;
            auth_info =
                if text_eq req.auth_info [] then none else some (record { pw = req.auth_info });
          };
        }))
        no_extension (λ _. return (domain_named ace))
