-- ===== src/EppAdapter/Params.antt =====
-- The checks of parameters in pkg/registrar/epp/adapter.go, which come before anything is sent.
use epp_test.Base.{List, [], ◌∷◌, Option, none, some}
use epp_test.Base.Text.{Bytes}
use epp_test.Base.Result.{ok, err}
use epp_test.Registrar.Validate.{
  Violation, violation_error, normalize_to_ace, validate_contact_handle,
}
use epp_test.EppAdapter.{World, Run, success, failure, ◌>>=◌, return}

module _ {W : World} where
  -- The call of `NormalizeToACE`.
  unfoldable pub ace_of : Bytes → Run W Bytes
  ace_of name s = elim (normalize_to_ace W.to_ascii name) [
    | err e ↦ (failure e, s)
    | ok ace ↦ (success ace, s)
  ]

  -- The loop over the names of a check.
  unfoldable pub aces_of : List Bytes → Run W (List Bytes)
  unfolding ace_of
  aces_of [] = return []
  aces_of (name ∷ names) = ace_of name >>= λ ace. aces_of names >>= λ aces. return (ace ∷ aces)

  -- A validation, whose error ends the operation.
  unfoldable pub accepted : Option Violation → Run W (Unit {0})
  accepted v s = elim (violation_error v) [ none ↦ (success tt, s) | some e ↦ (failure e, s) ]

  -- The loop over the handles of a check.
  unfoldable pub handles_accepted : List Bytes → Run W (Unit {0})
  unfolding accepted
  handles_accepted [] = return tt
  handles_accepted (id ∷ ids) = accepted (validate_contact_handle id) >>= λ _. handles_accepted ids
