-- ===== src/Registrar.antt =====
-- The client interface of all registrars: pkg/registrar (types.go, request.go, registrar.go,
-- errors.go). `Validate` is validate.go.
pub mod Value
pub mod Validate
pub mod Errors
use epp_test.Base.{ℕ, Bool, List, Option}
use epp_test.Base.Int.{ℤ}
use epp_test.Base.Text.{Bytes}
use Value.{Fields}

-- A Go error that holds an `*EPPError`, as `errors.As` finds it, or one that holds none.
pub record EppError : Type 0 where
  pub code : ℤ
  pub message : Bytes
  pub reason : Bytes
  pub command : Bytes

pub data RegError : Type 0 where
  epp : EppError → RegError
  plain : Bytes → RegError

-- Go's pair of a value and an error; the value is there also beside an error.
pub record Reply (A : Type 0) : Type 0 where
  pub value : A
  pub error : Option RegError

-- A `time.Time` is its text.
pub record DomainResult : Type 0 where
  pub name : Bytes
  pub available : Option Bool
  pub status : List Bytes
  pub registrant : Bytes
  pub roid : Bytes
  pub created_at : Bytes
  pub expires_at : Bytes
  pub extensions : Fields

pub record ContactResult : Type 0 where
  pub id : Bytes
  pub name : Bytes
  pub org : Bytes
  pub email : Bytes
  pub status : List Bytes
  pub extensions : Fields

pub record HostResult : Type 0 where
  pub name : Bytes
  pub addrs : List Bytes
  pub status : List Bytes
  pub extensions : Fields

pub record PollMessage : Type 0 where
  pub id : Bytes
  pub kind : Bytes
  pub content : Bytes
  pub queue_depth : ℤ

pub record DomainCreateRequest : Type 0 where
  pub name : Bytes
  pub registrant : Bytes
  pub nameservers : List Bytes
  pub auth_info : Bytes
  pub period : ℤ
  pub extensions : Fields

pub record DomainUpdateRequest : Type 0 where
  pub name : Bytes
  pub add_nameservers : List Bytes
  pub remove_nameservers : List Bytes
  pub add_statuses : List Bytes
  pub remove_statuses : List Bytes
  pub extensions : Fields

pub record DomainTransferRequest : Type 0 where
  pub name : Bytes
  pub op : Bytes
  pub auth_info : Bytes
  pub extensions : Fields

pub record ContactCreateRequest : Type 0 where
  pub id : Bytes
  pub name : Bytes
  pub org : Bytes
  pub email : Bytes
  pub street : List Bytes
  pub city : Bytes
  pub state_province : Bytes
  pub postal_code : Bytes
  pub country_code : Bytes
  pub phone : Bytes
  pub fax : Bytes
  pub auth_info : Bytes
  pub extensions : Fields

pub record ContactUpdateRequest : Type 0 where
  pub id : Bytes
  pub name : Bytes
  pub org : Bytes
  pub email : Bytes
  pub extensions : Fields

pub record HostCreateRequest : Type 0 where
  pub name : Bytes
  pub addrs : List Bytes

pub record HostUpdateRequest : Type 0 where
  pub name : Bytes
  pub add_addrs : List Bytes
  pub remove_addrs : List Bytes
  pub add_statuses : List Bytes
  pub remove_statuses : List Bytes

-- A method that changes the session or the registry behind it.
abbrev pub Method : Type 0 → Type 0 → Type 0
Method S A = S → Reply A × S

-- The aggregate interface `Registrar`: its implementation keeps a state of its own.
pub record Registrar : Type 1 where
  pub State : Type 0
  pub name : Bytes
  pub login : Method State (Unit {0})
  pub logout : Method State (Unit {0})
  pub ping : Method State (Unit {0})
  pub check_domain : List Bytes → Method State (List DomainResult)
  pub info_domain : Bytes → Method State DomainResult
  pub create_domain : DomainCreateRequest → Method State DomainResult
  pub update_domain : DomainUpdateRequest → Method State DomainResult
  pub delete_domain : Bytes → Method State (Unit {0})
  pub renew_domain : Bytes → ℤ → Method State DomainResult
  pub transfer_domain : DomainTransferRequest → Method State DomainResult
  pub check_contact : List Bytes → Method State (List ContactResult)
  pub info_contact : Bytes → Method State ContactResult
  pub create_contact : ContactCreateRequest → Method State ContactResult
  pub update_contact : ContactUpdateRequest → Method State ContactResult
  pub delete_contact : Bytes → Method State (Unit {0})
  pub check_host : List Bytes → Method State (List HostResult)
  pub info_host : Bytes → Method State HostResult
  pub create_host : HostCreateRequest → Method State HostResult
  pub update_host : HostUpdateRequest → Method State HostResult
  pub delete_host : Bytes → Method State (Unit {0})
  pub poll_read : Method State PollMessage
  pub poll_ack : Bytes → Method State (Unit {0})
