-- ===== src/EppAdapter.antt =====
-- pkg/registrar/epp: the EPP client that all EPP registrars share. This file has its
-- types, `Connect` is connect.go with the exchange of one command, and `Domain`, `Contact`, `Host`
-- and `Messages` are the methods of adapter.go.
-- The mutex only keeps operations apart, so each operation is one step of the adapter's state.
-- Parameters are the network (with TLS and the files of its certificates), the XML library, the
-- library idna, the parsing of times and addresses, and the hooks of the registrars.
pub mod Connect
pub mod Params
pub mod Domain
pub mod Contact
pub mod Host
pub mod Messages
pub mod Agreed
pub mod Session
pub mod Methods
pub mod Calls
pub mod Runs
pub mod Lost
pub mod Kinds
pub mod Once
pub mod Tls
pub mod Secured
mod Tests
use epp_test.Base.{
  ℕ, suc, ◌-◌, ◌+◌, Bool, true, false, not, List, [], ◌∷◌, ◌++◌, Option, none, some, if◌then◌else◌,
  ltb, length, ◌≡◌, refl, ◌⊎◌, inl, inr,
}
use epp_test.Base.Int.{ℤ, pos, ltb_ℤ}
use epp_test.Base.Text.{Bytes, codes, text_eq}
use epp_test.Base.Decimal.{decimal}
use epp_test.Base.Result.{Result, ok, err}
use epp_test.Frame.{put_u32, get_u32, u32, header_len}
use epp_test.Registrar.{
  EppError, RegError, epp, plain, DomainResult, ContactResult, DomainCreateRequest,
  DomainUpdateRequest, ContactCreateRequest,
}
use epp_test.EppXml.{
  EppEnvelope, EppCommand, Command, EppResponse, EppResult, Login, login, Greeting,
  DomainInfoResponse, DomainCheckName, ContactInfoResponse, HostInfoResponse,
}

-- A parsed `net.IP`: its text, and whether `To4` gives it as an IPv4 address.
pub record IpAddress : Type 0 where
  pub text : Bytes
  pub is_v4 : Bool

-- The network as the adapter sees it: dialling gives a connection; a `Write` of bytes and an
-- `io.ReadFull` of so many bytes may fail; an end is closed for good.
pub record World : Type 1 where
  pub Net : Type 0
  pub Conn : Type 0
  pub dial : Net → Option Conn × Net
  pub write : Conn → Bytes → Net → Bool × Net
  pub read_full : Conn → ℕ → Net → Option Bytes × Net
  pub close : Conn → Net → Net
  pub marshal : EppEnvelope → Option Bytes
  pub unmarshal : Bytes → Option EppEnvelope
  pub domain_infos : Bytes → Option DomainInfoResponse
  pub domain_checks : Bytes → Option (List DomainCheckName)
  pub contact_infos : Bytes → Option ContactInfoResponse
  pub host_infos : Bytes → Option HostInfoResponse
  pub to_ascii : Bytes → Option Bytes
  pub parse_time : Bytes → Option Bytes
  pub parse_ip : Bytes → Option IpAddress

-- The parts of `RegistrarConfig` that a session uses, with the adapter's name and hooks. A hook
-- builds the inner XML of an extension (`none`: its encoder fails), or reads one.
pub record Setup : Type 0 where
  pub name : Bytes
  pub username : Bytes
  pub password : Bytes
  pub extensions : List Bytes
  pub on_build_domain_create : Option (DomainCreateRequest → Option Bytes)
  pub on_build_domain_update : Option (DomainUpdateRequest → Option Bytes)
  pub on_build_contact_create : Option (ContactCreateRequest → Option Bytes)
  pub on_parse_domain_info : Option (Bytes → DomainResult → DomainResult)
  pub on_parse_contact_info : Option (Bytes → ContactResult → ContactResult)

-- How a call ends: Go's nil error, an error, or a panic, which is what a nil connection gives.
pub data Outcome (A : Type 0) : Type 0 where
  success : A → Outcome A
  failure : RegError → Outcome A
  panic : Outcome A

pub Outcome-cases :
    {A : Type 0} (o : Outcome A)
    → ((a : A) × (o ≡ success a)) ⊎ (((e : RegError) × (o ≡ failure e)) ⊎ (o ≡ panic))
Outcome-cases (success a) = inl (a, refl)
Outcome-cases (failure e) = inr (inl (e, refl))
Outcome-cases panic = inr (inr refl)

-- The fields of `GenericEPPAdapter` that change, and the world.
pub record Adapter (W : World) : Type 0 where
  pub conn : Option W.Conn
  pub advertised_ext : List Bytes
  pub cl_trid : ℕ
  pub net : W.Net

abbrev pub Run : World → Type 0 → Type 0
Run W A = Adapter W → Outcome A × Adapter W

module _ {W : World} {A B : Type 0} where
  infixl 5 ◌>>=◌
  -- The next call, unless this one failed.
  unfoldable pub ◌>>=◌ : Run W A → (A → Run W B) → Run W B
  ◌>>=◌ m f s =
      let (o, s') = m s in
      elim o [ success a ↦ f a s' | failure e ↦ (failure e, s') | panic ↦ (panic, s') ]

abbrev pub return : {W : World} {A : Type 0} → A → Run W A
return a s = (success a, s)

abbrev pub fail : {W : World} {A : Type 0} → RegError → Run W A
fail e s = (failure e, s)

-- An error of the repository's own, that holds no `*EPPError`.
abbrev pub broken : {W : World} {A : Type 0} → Bytes → Run W A
broken message = fail (plain message)

abbrev pub required : {W : World} {A : Type 0} → Bytes → Option A → Run W A
required message none = broken message
required message (some a) = return a

abbrev pub no_extension : {W : World} → Run W (Option Bytes)
no_extension = return none

-- `buildExtensionBytes`, and the test for an empty extension.
unfoldable pub extension_of :
    {W : World} {A : Type 0} → Option (A → Option Bytes) → A → Run W (Option Bytes)
extension_of none req = return none
extension_of (some hook) req = elim (hook req) [
  | none ↦ broken (codes "encode extension")
  | some [] ↦ return none
  | some (b ∷ bs) ↦ return (some (b ∷ bs))
]

-- `resultToError`
unfoldable pub result_to_error : EppResult → Bytes → Option RegError
result_to_error r command =
    if ltb_ℤ r.code (pos 2000)
    then none
    else some
        (epp (record { code = r.code; message = r.msg; reason = r.reason; command = command }))

abbrev pub checked : {W : World} → EppResult → Bytes → Run W (Unit {0})
checked r command s = elim (result_to_error r command) [
  | none ↦ (success tt, s)
  | some e ↦ (failure e, s)
]

unfoldable pub is_member : Bytes → List Bytes → Bool
is_member x [] = false
is_member x (y ∷ ys) = if text_eq y x then true else is_member x ys

-- The configured extensions that the server advertises.
unfoldable pub intersection : List Bytes → List Bytes → List Bytes
unfolding is_member
intersection [] advertised = []
intersection (uri ∷ uris) advertised =
    if is_member uri advertised
    then uri ∷ intersection uris advertised
    else intersection uris advertised

abbrev pub or_no_uris : Option (List Bytes) → List Bytes
or_no_uris none = []
or_no_uris (some uris) = uris
