-- ===== src/Registrar/Validate.antt =====
-- pkg/registrar/validate.go. An error is `EPPError{Code: 2005}` with the cause in place of its
-- message. The loops run over bytes: Go's run over runes, and every byte of a rune that is not
-- ASCII is refused where the rune is.
pub mod Accepts
mod Tests
use epp_test.Base.{
  ℕ, Bool, true, false, ◌&&◌, ◌||◌, not, List, [], ◌∷◌, Option, none, some, leb, ltb, ◌==◌,
  if◌then◌else◌, length,
}
use mathlib.Core.Option
use epp_test.Base.Int.{pos}
use epp_test.Base.Result.{Result, ok, err}
use epp_test.Registrar.{EppError, RegError, epp}
use epp_test.Base.Text.{Bytes, codes, text_eq, has_prefix, to_lower, split}

pub data LabelError : Type 0 where
  bad_length : ℕ → LabelError
  hyphen_end : LabelError
  bad_character : ℕ → LabelError

pub data Violation : Type 0 where
  name_too_long : ℕ → Violation
  bad_label : Bytes → LabelError → Violation
  handle_too_long : ℕ → Violation
  handle_character : ℕ → Violation
  auth_length : ℕ → Violation
  auth_character : ℕ → Violation

-- `isLDH`
unfoldable pub is_ldh : ℕ → Bool
is_ldh c =
    (leb b'a' c && leb c b'z')
    || (leb b'A' c && leb c b'Z')
    || (leb b'0' c && leb c b'9')
    || (c == b'-')

-- The first character of a loop that fails its test.
unfoldable pub first_bad : (ℕ → Bool) → Bytes → Option ℕ
first_bad good [] = none
first_bad good (c ∷ cs) = if good c then first_bad good cs else some c

-- The last byte of a text that begins with `c`.
unfoldable pub last_of : ℕ → Bytes → ℕ
last_of c [] = c
last_of c (d ∷ ds) = last_of d ds

-- `validateLabel` behind the test of the length, on the first byte and the rest.
unfoldable pub check_label : ℕ → Bytes → Option LabelError
check_label c cs =
    if has_prefix (to_lower (c ∷ cs)) (codes "xn--")
    then none
    else if (c == b'-') || (last_of c cs == b'-')
    then some hyphen_end
    else Option.map bad_character (first_bad is_ldh (c ∷ cs))

-- `validateLabel`
unfoldable pub validate_label : Bytes → Option LabelError
unfolding check_label
validate_label [] = some (bad_length 0)
validate_label (c ∷ cs) =
    if ltb 63 (length (c ∷ cs)) then some (bad_length (length (c ∷ cs))) else check_label c cs

-- The loop over the labels.
unfoldable pub validate_labels : List Bytes → Option Violation
validate_labels [] = none
validate_labels (l ∷ ls) = elim (validate_label l) [
  | none ↦ validate_labels ls
  | some e ↦ some (bad_label l e)
]

-- `ValidateDomainName`, and `ValidateHostName`, which calls it.
unfoldable pub validate_domain_name : Bytes → Option Violation
validate_domain_name name =
    if text_eq name []
    then none
    else if ltb 255 (length name)
    then some (name_too_long (length name))
    else validate_labels (split b'.' name)

-- `ValidateContactHandle`
unfoldable pub validate_contact_handle : Bytes → Option Violation
validate_contact_handle id =
    if text_eq id []
    then none
    else if ltb 64 (length id)
    then some (handle_too_long (length id))
    else Option.map handle_character (first_bad is_ldh id)

abbrev pub is_printable : ℕ → Bool
is_printable c = not (ltb c 0x20 || ltb 0x7E c)

-- `ValidateAuthInfo`
unfoldable pub validate_auth_info : Bytes → Option Violation
validate_auth_info auth =
    if text_eq auth []
    then none
    else if ltb (length auth) 6 || ltb 64 (length auth)
    then some (auth_length (length auth))
    else Option.map auth_character (first_bad is_printable auth)

-- The `*EPPError` of a parameter that is refused; its text is left out.
abbrev pub refused_param : EppError
refused_param = record { code = pos 2005; message = []; reason = []; command = [] }

-- A validation as an error of a registrar.
abbrev pub violation_error : Option Violation → Option RegError
violation_error none = none
violation_error (some v) = some (epp refused_param)

-- `NormalizeToACE`; the conversion of the library idna is a parameter.
unfoldable pub normalize_to_ace : (Bytes → Option Bytes) → Bytes → Result RegError Bytes
normalize_to_ace to_ascii name =
    if text_eq name []
    then ok []
    else elim (to_ascii name) [ none ↦ err (epp refused_param) | some ace ↦ ok ace ]
