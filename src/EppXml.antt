-- ===== src/EppXml.antt =====
-- pkg/epp/xml: the messages of EPP as the adapter builds and reads them. The XML names and tags
-- belong to the encoding, which is left to the XML library. A pointer that may be nil is an
-- `Option`; of the commands of an `EPPCommand` exactly one is set, so that it is one of a sum.
use epp_test.Base.{Bool, List, Option}
use epp_test.Base.Int.{ℤ}
use epp_test.Base.Text.{Bytes}

pub record Period : Type 0 where
  pub unit : Bytes
  pub value : ℤ

-- `AuthInfo` and `ContactAuthInfo`.
pub record AuthInfo : Type 0 where
  pub pw : Bytes

pub record DomainCreateCommand : Type 0 where
  pub name : Bytes
  pub period : Option Period
  pub nameservers : List Bytes
  pub registrant : Bytes
  pub auth_info : Option AuthInfo

pub record DomainInfoName : Type 0 where
  pub value : Bytes
  pub hosts : Bytes

-- `DomainUpdateAddRem`; a status is the text of its attribute.
pub record DomainUpdateAddRem : Type 0 where
  pub nameservers : List Bytes
  pub statuses : List Bytes

pub record DomainUpdateCommand : Type 0 where
  pub name : Bytes
  pub add : Option DomainUpdateAddRem
  pub rem : Option DomainUpdateAddRem

pub record DomainRenewCommand : Type 0 where
  pub name : Bytes
  pub cur_exp_date : Bytes
  pub period : Option Period

pub record DomainTransferCommand : Type 0 where
  pub name : Bytes
  pub auth_info : Option AuthInfo

pub record DomainTransfer : Type 0 where
  pub op : Bytes
  pub command : DomainTransferCommand

pub record ContactAddr : Type 0 where
  pub street : List Bytes
  pub city : Bytes
  pub sp : Bytes
  pub pc : Bytes
  pub cc : Bytes

pub record ContactPostalInfo : Type 0 where
  pub kind : Bytes
  pub name : Bytes
  pub org : Bytes
  pub addr : ContactAddr

pub record ContactCreateCommand : Type 0 where
  pub id : Bytes
  pub postal_info : ContactPostalInfo
  pub voice : Bytes
  pub fax : Bytes
  pub email : Bytes
  pub auth_info : AuthInfo

pub record ContactChange : Type 0 where
  pub postal_info : Option ContactPostalInfo
  pub email : Bytes

pub record ContactUpdateCommand : Type 0 where
  pub id : Bytes
  pub chg : Option ContactChange

pub record HostAddr : Type 0 where
  pub ip : Bytes
  pub ip_version : Bytes

pub record HostCreateCommand : Type 0 where
  pub name : Bytes
  pub addrs : List HostAddr

pub record HostUpdateAddRem : Type 0 where
  pub addrs : List HostAddr
  pub statuses : List Bytes

pub record HostUpdateCommand : Type 0 where
  pub name : Bytes
  pub add : Option HostUpdateAddRem
  pub rem : Option HostUpdateAddRem

pub record LoginOptions : Type 0 where
  pub version : Bytes
  pub lang : Bytes

pub record LoginSvcs : Type 0 where
  pub obj_uri : List Bytes
  pub svc_extension : Option (List Bytes)

pub record Login : Type 0 where
  pub cl_id : Bytes
  pub pw : Bytes
  pub options : LoginOptions
  pub svcs : LoginSvcs

pub record Poll : Type 0 where
  pub op : Bytes
  pub msg_id : Bytes

-- The command that an `EPPCommand` holds. A check has the names or ids, an info and a deletion the
-- name or id.
pub data Command : Type 0 where
  domain_check contact_check host_check : List Bytes → Command
  domain_create : DomainCreateCommand → Command
  domain_info : DomainInfoName → Command
  domain_update : DomainUpdateCommand → Command
  domain_renew : DomainRenewCommand → Command
  domain_transfer : DomainTransfer → Command
  domain_delete contact_delete host_delete contact_info host_info : Bytes → Command
  contact_create : ContactCreateCommand → Command
  contact_update : ContactUpdateCommand → Command
  host_create : HostCreateCommand → Command
  host_update : HostUpdateCommand → Command
  login : Login → Command
  logout : Command
  poll : Poll → Command

pub record EppCommand : Type 0 where
  pub command : Command
  pub extension : Option Bytes
  pub cl_trid : Bytes

pub record EppResult : Type 0 where
  pub code : ℤ
  pub msg : Bytes
  pub reason : Bytes

pub record MsgQ : Type 0 where
  pub count : ℤ
  pub id : Bytes
  pub msg : Bytes

pub record EppResponse : Type 0 where
  pub result : EppResult
  pub msg_q : Option MsgQ
  pub res_data : Option Bytes
  pub extension : Option Bytes

pub record SvcMenu : Type 0 where
  pub version : List Bytes
  pub lang : List Bytes
  pub obj_uri : List Bytes
  pub svc_extension : Option (List Bytes)

pub record Greeting : Type 0 where
  pub sv_id : Bytes
  pub svc_menu : SvcMenu

pub record EppEnvelope : Type 0 where
  pub command : Option EppCommand
  pub response : Option EppResponse
  pub greeting : Option Greeting

pub record DomainInfoResponse : Type 0 where
  pub name : Bytes
  pub roid : Bytes
  pub statuses : List Bytes
  pub registrant : Bytes
  pub cr_date : Bytes
  pub ex_date : Bytes

-- One `cd` of a `DomainCheckResponse`.
pub record DomainCheckName : Type 0 where
  pub value : Bytes
  pub avail : Bool

pub record ContactInfoResponse : Type 0 where
  pub id : Bytes
  pub postal_info : ContactPostalInfo
  pub email : Bytes
  pub statuses : List Bytes

pub record HostInfoResponse : Type 0 where
  pub name : Bytes
  pub addrs : List HostAddr
  pub statuses : List Bytes
