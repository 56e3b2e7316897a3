-- ===== src/Registrar/Errors.antt =====
-- The methods of `EPPError` in errors.go.
use epp_test.Base.{
  ◌≡◌, ◌↔◌, ◌⊎◌, inl, inr, refl, Bool, true, false, ◌||◌, [], ◌++◌, if◌then◌else◌, Bool-cases,
  arith,
}
use epp_test.Base.Int.{pos, eqb_ℤ, eqb_ℤ_iff}
use epp_test.Base.Text.{Bytes, codes, text_eq}
use epp_test.Base.Decimal.{decimal_ℤ}
use epp_test.Registrar.{EppError, RegError, epp, plain}

-- `Error`
unfoldable pub error_text : EppError → Bytes
error_text e =
    if text_eq e.reason []
    then codes "EPP " ++ (decimal_ℤ e.code ++ (codes ": " ++ e.message))
    else codes "EPP "
      ++ (decimal_ℤ e.code
          ++ (codes ": " ++ (e.message ++ (codes " (" ++ (e.reason ++ codes ")")))))

-- `Is`, where the target is itself an `*EPPError` or not.
unfoldable pub is_target : EppError → RegError → Bool
is_target e (plain m) = false
is_target e (epp t) = eqb_ℤ t.code (pos 0) || eqb_ℤ t.code e.code

-- `errors.Is` finds the error exactly for an `*EPPError` with its code or with none.
pub is_target_iff :
    (e t : EppError) → (is_target e (epp t) ≡ true) ↔ ((t.code ≡ pos 0) ⊎ (t.code ≡ e.code))
unfolding is_target
is_target_iff e t = (
  λ h. elim (Bool-cases (eqb_ℤ t.code (pos 0))) [
    | inl none_given ↦ inl ((eqb_ℤ_iff t.code (pos 0)).0 none_given)
    | inr given ↦ inr ((eqb_ℤ_iff t.code e.code).0 (rw given at h))
  ],
  λ h. elim h [
    | inl none_given ↦ rw ((eqb_ℤ_iff t.code (pos 0)).1 none_given) refl
    | inr same ↦ ground (arith, (eqb_ℤ_iff t.code e.code).1 same)
  ],
)
