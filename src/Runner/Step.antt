-- ===== src/Runner/Step.antt =====
-- What a step gives: the Go values of type `any` that operations return, and `singleResult` of
-- runner.go.
use epp_test.Base.{List, [], ◌∷◌}
use epp_test.Registrar.{DomainResult, ContactResult, HostResult, PollMessage}

pub data StepValue : Type 0 where
  nothing : StepValue
  domain : DomainResult → StepValue
  domains : List DomainResult → StepValue
  contact : ContactResult → StepValue
  contacts : List ContactResult → StepValue
  host : HostResult → StepValue
  hosts : List HostResult → StepValue
  message : PollMessage → StepValue

-- `singleResult`
unfoldable pub single_result : StepValue → StepValue
single_result (domains []) = nothing
single_result (domains (d ∷ ds)) = domain d
single_result (contacts []) = nothing
single_result (contacts (c ∷ cs)) = contact c
single_result (hosts []) = nothing
single_result (hosts (h ∷ hs)) = host h
single_result v = v
