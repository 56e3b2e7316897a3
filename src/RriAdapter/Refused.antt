-- ===== src/RriAdapter/Refused.antt =====
-- The steps of a scenario against an RRI server that refuses every query.
use epp_test.Base.{◌≡◌, ◌≢◌, false, List, [], Option, none, All}
use epp_test.Base.Text.{Bytes}
use epp_test.Base.Result.{ok}
use epp_test.Registrar.{
  Method, RegError, DomainCreateRequest, DomainUpdateRequest, DomainTransferRequest,
  ContactCreateRequest,
}
use epp_test.Registrar.Value.{Fields}
use epp_test.Runner.Step.{StepValue}
use epp_test.Runner.Expect.{assert_expect}
use epp_test.RriAdapter.{Client, Response, Query, check_domain}
use epp_test.RriAdapter.Commands.{Credentials, rri_registrar, ping}

-- The calls of the adapter that send queries of their own; logins have theirs in the library.
pub data Call : Type 0 where
  pinging reading : Call
  acknowledging informing deleting informing_contact : Bytes → Call
  creating : DomainCreateRequest → Call
  updating : DomainUpdateRequest → Call
  transferring : DomainTransferRequest → Call
  creating_contact : ContactCreateRequest → Call
  checking checking_contacts : List Bytes → Call

module _ (C : Client) (cfg : Credentials) (capture : StepValue → Fields) where
  open C use {Conn, send_query, parse_handle}

  -- The error of a call.
  abbrev pub error_of : Call → Conn → Option RegError
  error_of pinging s = ((rri_registrar C cfg).ping s).0.error
  error_of reading s = ((rri_registrar C cfg).poll_read s).0.error
  error_of (acknowledging id) s = ((rri_registrar C cfg).poll_ack id s).0.error
  error_of (informing name) s = ((rri_registrar C cfg).info_domain name s).0.error
  error_of (deleting name) s = ((rri_registrar C cfg).delete_domain name s).0.error
  error_of (informing_contact id) s = ((rri_registrar C cfg).info_contact id s).0.error
  error_of (creating req) s = ((rri_registrar C cfg).create_domain req s).0.error
  error_of (updating req) s = ((rri_registrar C cfg).update_domain req s).0.error
  error_of (transferring req) s = ((rri_registrar C cfg).transfer_domain req s).0.error
  error_of (creating_contact req) s = ((rri_registrar C cfg).create_contact req s).0.error
  error_of (checking names) s = ((rri_registrar C cfg).check_domain names s).0.error
  error_of (checking_contacts ids) s = ((rri_registrar C cfg).check_contact ids s).0.error

  -- The calls that a step takes for successes all the same: reading the queue, checking nothing,
  -- and checking contacts whose names are handles.
  abbrev pub Lenient : Call → Type 0
  Lenient reading = Unit
  Lenient (checking names) = names ≡ []
  Lenient (checking_contacts ids) = All (λ id. parse_handle id ≢ none) ids
  Lenient _ = ⊥

  -- A step without an expectation passes.
  abbrev pub Passes : StepValue → Option RegError → Type 0
  Passes v e = assert_expect capture none v e ≡ none

  abbrev pub Refusing : Type 0
  Refusing =
      (q : Query) (s : Conn)
      → (resp : Response) × ((send_query q s).0 ≡ ok resp) × (resp.is_successful ≡ false)

  module _ (refusing : Refusing) (v : StepValue) where
    Stops : {A : Type 0} → Method Conn A → Type 0
    Stops m = (s : Conn) → ¬ Passes v (m s).0.error
