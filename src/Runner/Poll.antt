-- ===== src/Runner/Poll.antt =====
-- `execWaitForPoll` of pkg/runner/runner.go. The clock is a parameter: `rounds` is how often the
-- loop finds the time before its deadline, given the timeout.
pub mod Queue
pub mod Arrives
mod Tests
use epp_test.Base.{ℕ, zero, suc, Bool, true, false, ◌||◌, Option, none, some, [], if◌then◌else◌}
use epp_test.Base.Int.{ℤ, pos, eqb_ℤ}
use epp_test.Base.Text.{Bytes, codes, text_eq}
use epp_test.Registrar.{Registrar, Method, Reply, RegError, epp, plain, PollMessage}
use epp_test.Registrar.Value.{Fields}
use epp_test.Runner.Params.{string_param}
use epp_test.Runner.Step.{StepValue, nothing, message}

pub data PollError : Type 0 where
  invalid_timeout : Bytes → PollError
  read_error : RegError → PollError
  ack_error : RegError → PollError
  timed_out : PollError

pub data PollOutcome : Type 0 where
  got : PollMessage → PollOutcome
  failed : PollError → PollOutcome

-- EPP 1300: the queue is empty.
abbrev pub is_queue_empty : RegError → Bool
is_queue_empty (epp e) = eqb_ℤ e.code (pos 1300)
is_queue_empty (plain m) = false

abbrev pub wanted : Bytes → PollMessage → Bool
wanted match_type m = text_eq match_type [] || text_eq m.kind match_type

module _ (R : Registrar) where
  open R use {State}

  -- A matching message is acknowledged and returned.
  unfoldable pub accept : PollMessage → State → PollOutcome × State
  accept m s =
      let (ack, s') = R.poll_ack m.id s in
      elim ack.error [ none ↦ (got m, s') | some e ↦ (failed (ack_error e), s') ]

  -- The loop. The error of acknowledging a message that does not match is dropped.
  unfoldable pub poll_loop : ℕ → Bytes → State → PollOutcome × State
  poll_loop zero match_type s = (failed timed_out, s)
  poll_loop (suc rounds) match_type s =
      let (r, s') = R.poll_read s in
      let again = poll_loop rounds match_type s' in
      let past = poll_loop rounds match_type (R.poll_ack r.value.id s').1 in
      elim r.error [
        | some e ↦ if is_queue_empty e then again else (failed (read_error e), s')
        | none ↦ if wanted match_type r.value then accept r.value s' else past
      ]

  -- `execWaitForPoll`; the timeout is 30s where none is given.
  unfoldable pub wait_for_poll : (Bytes → Option ℤ) → (ℤ → ℕ) → Fields → State → PollOutcome × State
  wait_for_poll parse_duration rounds params s =
      let given = string_param params (codes "timeout") in
      let timeout = if text_eq given [] then codes "30s" else given in
      elim (parse_duration timeout) [
        | none ↦ (failed (invalid_timeout timeout), s)
        | some d ↦ poll_loop (rounds d) (string_param params (codes "match_type")) s
      ]

-- The error of a failed wait as the runner sees it: those of the registrar are wrapped, so that
-- an EPP error inside is still found.
abbrev pub poll_error : PollError → RegError
poll_error (invalid_timeout t) = plain (codes "invalid timeout")
poll_error (read_error e) = e
poll_error (ack_error e) = e
poll_error timed_out = plain (codes "timeout")

abbrev pub as_reply : PollOutcome → Reply StepValue
as_reply (got m) = record { value = message m; error = none }
as_reply (failed e) = record { value = nothing; error = some (poll_error e) }
