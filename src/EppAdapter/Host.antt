-- ===== src/EppAdapter/Host.antt =====
-- The methods on hosts of `GenericEPPAdapter`, pkg/registrar/epp/adapter.go.
use epp_test.Base.{List, [], ◌∷◌, Option, none, some, if◌then◌else◌}
use epp_test.Base.Text.{Bytes, codes}
use epp_test.Registrar.{HostResult, HostCreateRequest, HostUpdateRequest}
use epp_test.Registrar.Value.{end}
use epp_test.EppXml.{
  HostInfoResponse, HostAddr, HostUpdateAddRem, host_check, host_info, host_create, host_update,
  host_delete,
}
use epp_test.EppAdapter.{World, IpAddress, Setup, Run, ◌>>=◌, return, required, no_extension}
use epp_test.EppAdapter.Connect.{commanded}
use epp_test.EppAdapter.Params.{ace_of, aces_of}

abbrev pub host_named : Bytes → HostResult
host_named n = record { name = n; addrs = []; status = []; extensions = end }

-- The results of a check: one for each name that was asked for, whatever the answer holds.
unfoldable pub asked_hosts : List Bytes → List HostResult
asked_hosts [] = []
asked_hosts (n ∷ ns) = host_named n ∷ asked_hosts ns

module _ (parse_ip : Bytes → Option IpAddress) where
  -- The addresses of an answer; what is no address is left out.
  unfoldable pub addrs_of : List HostAddr → List Bytes
  addrs_of [] = []
  addrs_of (a ∷ rest) = elim (parse_ip a.ip) [
    | none ↦ addrs_of rest
    | some ip ↦ ip.text ∷ addrs_of rest
  ]

  -- The result of `InfoHost`.
  unfoldable pub host_of : HostInfoResponse → HostResult
  host_of inf = record (host_named inf.name) { status = inf.statuses; addrs = addrs_of inf.addrs }

  -- The addresses of `CreateHost`; what is no address is left out.
  unfoldable pub created_addrs : List Bytes → List HostAddr
  created_addrs [] = []
  created_addrs (a ∷ rest) = elim (parse_ip a) [
    | none ↦ created_addrs rest
    | some ip ↦
        record { ip = a; ip_version = if ip.is_v4 then codes "v4" else codes "v6" }
        ∷ created_addrs rest
  ]

  -- The addresses of `UpdateHost`; what is no address is kept as an IPv4 address.
  unfoldable pub updated_addrs : List Bytes → List HostAddr
  updated_addrs [] = []
  updated_addrs (a ∷ rest) =
      record {
        ip = a;
        ip_version = elim (parse_ip a) [
          | none ↦ codes "v4"
          | some ip ↦ if ip.is_v4 then codes "v4" else codes "v6"
        ];
      }
      ∷ updated_addrs rest

  -- An `add` or `rem` block, where it is not empty.
  unfoldable pub host_change : List Bytes → List Bytes → Option HostUpdateAddRem
  host_change [] [] = none
  host_change [] (t ∷ ts) = some (record { addrs = []; statuses = t ∷ ts })
  host_change (a ∷ rest) statuses =
      some (record { addrs = updated_addrs (a ∷ rest); statuses = statuses })

module _ (W : World) (setup : Setup) where
  -- `CheckHost`
  unfoldable pub check_host : List Bytes → Run W (List HostResult)
  check_host names = aces_of names >>= λ aces.
      commanded W setup (codes "host:check") (host_check aces) no_extension
        (λ _. return (asked_hosts aces))

  -- `InfoHost`
  unfoldable pub info_host : Bytes → Run W HostResult
  info_host name = ace_of name >>= λ ace.
      commanded W setup (codes "host:info") (host_info ace) no_extension (λ resp.
        required (codes "response missing <epp:resData>") resp.res_data >>= λ inner.
        required (codes "unmarshal infData") (W.host_infos inner) >>= λ inf.
        return (host_of W.parse_ip inf))

  -- `CreateHost`
  unfoldable pub create_host : HostCreateRequest → Run W HostResult
  create_host req = ace_of req.name >>= λ ace.
      commanded W setup (codes "host:create")
        (host_create (record { name = ace; addrs = created_addrs W.parse_ip req.addrs }))
        no_extension (λ _. return (host_named ace))

  -- `UpdateHost`
  unfoldable pub update_host : HostUpdateRequest → Run W HostResult
  update_host req = ace_of req.name >>= λ ace.
      commanded W setup (codes "host:update")
        (host_update (record {
          name = ace;
          add = host_change W.parse_ip req.add_addrs req.add_statuses;
          rem = host_change W.parse_ip req.remove_addrs req.remove_statuses;
        }))
        no_extension (λ _. return (host_named ace))

  -- `DeleteHost`
  unfoldable pub delete_host : Bytes → Run W (Unit {0})
  delete_host name = ace_of name >>= λ ace.
      commanded W setup (codes "host:delete") (host_delete ace) no_extension (λ _. return tt)
