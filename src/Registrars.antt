-- ===== src/Registrars.antt =====
-- The registrars that wrap the EPP adapter: pkg/registrar/internetx, nicat and eurid. Their adapters
-- are the EPP adapter with a name and hooks. A hook encodes elements without content; `encode` is
-- the XML encoder on a list of them. pkg/registrar/denic is the RRI adapter as it is.
use epp_test.Base.{List, [], ◌∷◌, Option, none, some}
use epp_test.Base.Text.{Bytes, codes}
use epp_test.Config.{RegistrarConfig}
use epp_test.Registrar.{DomainResult, ContactCreateRequest, DomainCreateRequest}
use epp_test.EppAdapter.{World, Setup, Adapter}

-- A start element with its one attribute, and its end.
pub record Element : Type 0 where
  pub space : Bytes
  pub local : Bytes
  pub attr_name : Bytes
  pub attr_value : Bytes

abbrev pub create_element : Bytes → Bytes → Element
create_element space attr_name = record {
  space = space;
  local = codes "create";
  attr_name = attr_name;
  attr_value = space;
}

-- `NewGenericEPPAdapter`: the session settings of an adapter without hooks.
unfoldable pub generic_setup : Bytes → RegistrarConfig → Setup
generic_setup name cfg = record {
  name = name;
  username = cfg.username;
  password = cfg.password;
  extensions = cfg.extensions;
  on_build_domain_create = none;
  on_build_domain_update = none;
  on_build_contact_create = none;
  on_parse_domain_info = none;
  on_parse_contact_info = none;
}

-- The adapter that `NewGenericEPPAdapter` returns: it has not dialled yet.
unfoldable pub new_adapter : (W : World) → W.Net → Adapter W
new_adapter W net = record { conn = none; advertised_ext = []; cl_trid = 0; net = net }

-- `NewInternetXAdapter`
unfoldable pub internetx_setup : RegistrarConfig → Setup
unfolding generic_setup
internetx_setup cfg = generic_setup (codes "internetx") cfg

module _ (encode : List Element → Option Bytes) where
  -- `buildVerificationExt`
  unfoldable pub build_verification_ext : ContactCreateRequest → Option Bytes
  build_verification_ext req = encode (
      create_element (codes "urn:ietf:params:xml:ns:at-ext-verification-1.0") (codes "xmlns:ax")
      ∷ [])

  -- `NewNiCATAdapter`
  unfoldable pub nicat_setup : RegistrarConfig → Setup
  unfolding generic_setup build_verification_ext
  nicat_setup cfg = record (generic_setup (codes "nicat") cfg) {
    on_build_contact_create = some build_verification_ext;
  }

  -- `buildContactExt`
  unfoldable pub build_contact_ext : ContactCreateRequest → Option Bytes
  build_contact_ext req = encode (
      create_element (codes "urn:ietf:params:xml:ns:contact-ext-1.3") (codes "xmlns:contact-ext")
      ∷ [])

  -- `buildDomainExt`
  unfoldable pub build_domain_ext : DomainCreateRequest → Option Bytes
  build_domain_ext req = encode (
      create_element (codes "urn:ietf:params:xml:ns:domain-ext-2.4") (codes "xmlns:domain-ext")
      ∷ create_element (codes "urn:ietf:params:xml:ns:nsgroup-1.1") (codes "xmlns:nsgroup")
      ∷ [])

  -- `parseDomainExt`: a nil map and an empty one are the same here.
  unfoldable pub parse_domain_ext : Bytes → DomainResult → DomainResult
  parse_domain_ext raw result = result

  -- `NewEURidAdapter`
  unfoldable pub eurid_setup : RegistrarConfig → Setup
  unfolding generic_setup build_contact_ext build_domain_ext parse_domain_ext
  eurid_setup cfg = record (generic_setup (codes "eurid") cfg) {
    on_build_contact_create = some build_contact_ext;
    on_build_domain_create = some build_domain_ext;
    on_parse_domain_info = some parse_domain_ext;
  }
