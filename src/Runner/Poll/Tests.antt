-- ===== src/Runner/Poll/Tests.antt =====
-- Concrete waits, and the theorems at them.
use epp_test.Base.{ℕ, ◌≤◌, ◌↔◌, ◌≡◌, refl, [], ◌∷◌, none, some, arith, if◌then◌else◌}
use epp_test.Base.Int.{pos}
use epp_test.Base.Text.{codes, text_eq}
use epp_test.Registrar.Value.{end, get}
use epp_test.Runner.Params.{string_param}
use epp_test.Runner.Poll.{got, poll_loop, wait_for_poll, accept}
use epp_test.Runner.Poll.Queue.{poll_loop_first_match}
use epp_test.Runner.Poll.Arrives.{Arrives, poll_loop_iff}
use epp_test.Runner.Sample.{Registry, message_of, sample, sample-IsQueue, read_message, ack_message}

abbrev two : Registry
two = record {
  domains = [];
  messages =
      message_of (codes "1") (codes "transfer") ∷ message_of (codes "2") (codes "expiry") ∷ [];
}

poll_loop_first_match_example :
    (poll_loop sample 3 (codes "expiry") two).0 ≡ got (message_of (codes "2") (codes "expiry"))
    × ((poll_loop sample 3 (codes "expiry") two).1.messages ≡ [])
unfolding text_eq
poll_loop_first_match_example =
    poll_loop_first_match sample (λ s. s.messages) sample-IsQueue
      (message_of (codes "1") (codes "transfer") ∷ []) (message_of (codes "2") (codes "expiry")) []
      3 (codes "expiry") two refl (refl, tt) refl (omega arith)

default_timeout :
    wait_for_poll sample
      (λ t. if text_eq t (codes "30s") then some (pos 30) else none)
      (λ d. 5)
      end
      two
    ≡ (
      got (message_of (codes "1") (codes "transfer")),
      record { domains = []; messages = message_of (codes "2") (codes "expiry") ∷ [] },
    )
unfolding wait_for_poll poll_loop accept text_eq string_param get read_message ack_message
default_timeout = refl

poll_loop_iff_example :
    (poll_loop sample 3 (codes "expiry") two
      ≡ (got (message_of (codes "2") (codes "expiry")), record two { messages = [] }))
    ↔ ((k : ℕ) × (k ≤ 3)
        × Arrives sample
            (codes "expiry")
            (message_of (codes "2") (codes "expiry"))
            (record two { messages = [] })
            k
            two)
poll_loop_iff_example =
    poll_loop_iff sample (codes "expiry") {m = message_of (codes "2") (codes "expiry")}
      {s' = record two { messages = [] }} 3 two
