-- ===== src/EppAdapter/Methods.antt =====
-- The parts of the methods of pkg/registrar/epp/adapter.go keep the state of an adapter steady.
use epp_test.Base.{List, [], ◌∷◌, Option, none, some, Bool-cases, inl, inr}
use epp_test.Base.Int.{pos, eqb_ℤ}
use epp_test.Base.Text.{Bytes}
use epp_test.Base.Result.{Result-cases}
use epp_test.Registrar.Validate.{Violation, normalize_to_ace, validate_contact_handle}
use epp_test.EppXml.{EppEnvelope, EppResponse, Command}
use epp_test.EppAdapter.{
  World, Setup, Adapter, Run, Outcome-cases, ◌>>=◌, return, extension_of, no_extension, required,
}
use epp_test.EppAdapter.Connect.{commanded}
use epp_test.EppAdapter.Params.{ace_of, aces_of, accepted, handles_accepted}
use epp_test.EppAdapter.Messages.{poll_read, read_message, ping, end_session, log_out_on, log_out}
use epp_test.EppAdapter.Session.{
  Law, Calling, Steady, bind-Steady, required-Steady, checked-Steady, extension_of-Steady,
  next_cl_trid-Steady, hang_up-Steady, write_frame_on-Steady, read_frame_on-Steady,
  send_and_receive-Steady, respond-Steady, exchange-Steady,
}

module _ {W : World} {setup : Setup} (law : Law W setup) where
  pub ace_of-Steady : (name : Bytes) → Steady law (ace_of {W = W} name)
  unfolding ace_of
  ace_of-Steady name s = elim (Result-cases (normalize_to_ace W.to_ascii name)) [
    | inl (ace, e) ↦ rw (e, ace_of) (law.nothing s)
    | inr (x, e) ↦ rw (e, ace_of) (law.nothing s)
  ]

  pub aces_of-Steady : (names : List Bytes) → Steady law (aces_of {W = W} names)
  unfolding aces_of
  aces_of-Steady [] = law.nothing
  aces_of-Steady (name ∷ names) =
      bind-Steady law _ _ (ace_of-Steady name)
        (λ ace. bind-Steady law _ _ (aces_of-Steady names) (λ aces. law.nothing))

  pub accepted-Steady : (v : Option Violation) → Steady law (accepted {W = W} v)
  unfolding accepted
  accepted-Steady none = law.nothing
  accepted-Steady (some v) = law.nothing

  pub handles_accepted-Steady : (ids : List Bytes) → Steady law (handles_accepted {W = W} ids)
  unfolding handles_accepted
  handles_accepted-Steady [] = law.nothing
  handles_accepted-Steady (id ∷ ids) =
      bind-Steady law _ _ (accepted-Steady (validate_contact_handle id))
        (λ _. handles_accepted-Steady ids)

  pub data-Steady :
      {X A : Type 0} (missing bad : Bytes) (res : Option Bytes) (read : Bytes → Option X)
      (make : Bytes → X → A)
      → Steady law (
          required {W = W} missing res >>= λ inner.
          required bad (read inner) >>= λ x. return (make inner x))
  data-Steady missing bad res read make =
      bind-Steady law _ _ (required-Steady law missing res)
        (λ inner. bind-Steady law _ _ (required-Steady law bad (read inner)) (λ x. law.nothing))

  pub read_message-Steady : (resp : EppResponse) → Steady law (read_message W setup resp)
  unfolding read_message
  read_message-Steady resp = elim (Bool-cases (eqb_ℤ resp.result.code (pos 1300))) [
    | inl e ↦ rw (e, read_message) (law.nothing)
    | inr e ↦
        rw (e, read_message)
          (bind-Steady law _ _ (checked-Steady law resp.result _) (λ _. law.nothing))
  ]

  pub end_session-Steady : (env : EppEnvelope) → Steady law (end_session W setup env)
  unfolding end_session
  end_session-Steady env s = law.and_then (hang_up-Steady law s) (
      bind-Steady law _ _ (required-Steady law _ env.response)
        (λ resp. checked-Steady law resp.result _) _)

  pub log_out_on-Steady : (conn : Option W.Conn) → Steady law (log_out_on W setup conn)
  unfolding log_out_on
  log_out_on-Steady none = law.nothing
  log_out_on-Steady (some c) =
      bind-Steady law _ _ (next_cl_trid-Steady law)
        (λ id. bind-Steady law _ _ (send_and_receive-Steady law (some c) _) end_session-Steady)

  pub log_out-Steady : Steady law (log_out W setup)
  unfolding log_out
  log_out-Steady s = log_out_on-Steady s.conn s

  module _ (calls : Calling law) where
    pub ping-Call : (s : Adapter W) → calls.Call s (ping W setup s).1
    unfolding ping
    ping-Call = calls.tries _ (λ conn.
        bind-Steady law _ _ (write_frame_on-Steady law conn _)
          (λ _. bind-Steady law _ _ (read_frame_on-Steady law conn) (λ _. law.nothing)))

    pub poll_read-Call : (s : Adapter W) → calls.Call s (poll_read W setup s).1
    unfolding poll_read
    poll_read-Call =
        calls.tries _ (λ conn.
          bind-Steady law _ _ (respond-Steady law conn _ _ law.nothing) read_message-Steady)

    -- A check of the arguments, and the call behind it.
    pub bind-Call :
        {A B : Type 0} (m : Run W A) (f : A → Run W B)
        → Steady law m
        → ((a : A) (s : Adapter W) → calls.Call s (f a s).1)
        → (s : Adapter W) → calls.Call s ((m >>= f) s).1
    unfolding ◌>>=◌
    bind-Call m f hm hf s = elim (Outcome-cases (m s).0) [
      | inl (a, e) ↦ rw (e, ◌>>=◌) (calls.behind (hm s) (hf a (m s).1))
      | inr (inl (x, e)) ↦ rw (e, ◌>>=◌) (calls.quiet (hm s))
      | inr (inr e) ↦ rw (e, ◌>>=◌) (calls.quiet (hm s))
    ]

    commanded-Call :
        {A : Type 0} (label : Bytes) (command : Command) (build : Run W (Option Bytes))
        (parse : EppResponse → Run W A)
        → Steady law build
        → ((resp : EppResponse) → Steady law (parse resp))
        → (s : Adapter W) → calls.Call s (commanded W setup label command build parse s).1
    unfolding commanded
    commanded-Call label command build parse steady parsed =
        calls.tries _
          (λ conn. bind-Steady law _ _ (exchange-Steady law conn label command build steady) parsed)

    -- A command without an extension whose response gives its result.
    pub told-Call :
        {A : Type 0} (label : Bytes) (command : Command) (parse : EppResponse → Run W A)
        → ((resp : EppResponse) → Steady law (parse resp))
        → (s : Adapter W) → calls.Call s (commanded W setup label command no_extension parse s).1
    told-Call label command parse = commanded-Call label command no_extension parse law.nothing

    -- A command whose result is known when it is sent.
    pub sent-Call :
        {A B : Type 0} (label : Bytes) (command : Command) (hook : Option (B → Option Bytes))
        (req : B) (result : A) (s : Adapter W)
        → calls.Call s
            (commanded W setup label command (extension_of hook req) (λ _. return result) s).1
    sent-Call label command hook req result =
        commanded-Call label command _ _ (extension_of-Steady law hook req) (λ _. law.nothing)
