-- ===== src/Registrar/Validate/Tests.antt =====
-- Names, handles and codes at the edges of what the validators accept.
use epp_test.Base.{◌≡◌, ◌↔◌, ◌⊎◌, refl, [], none, some}
use epp_test.Base.Text.{codes, text_eq, has_prefix, to_lower, split}
use epp_test.Registrar.Validate.{
  bad_label, hyphen_end, bad_length, bad_character, auth_length, handle_character,
  validate_domain_name, validate_contact_handle, validate_auth_info, first_bad, is_ldh, last_of,
  validate_label, validate_labels,
}
use epp_test.Registrar.Validate.Accepts.{IsDomainName, validate_domain_name_iff}

domain_names :
    (validate_domain_name (codes "Example.com") ≡ none)
    × (validate_domain_name (codes "XN--a_b.de") ≡ none)
    × (validate_domain_name (codes "a..de") ≡ some (bad_label [] (bad_length 0)))
    × (validate_domain_name (codes "a.-b") ≡ some (bad_label (codes "-b") hyphen_end))
    × (validate_domain_name (codes "a_b") ≡ some (bad_label (codes "a_b") (bad_character b'_')))
unfolding validate_domain_name validate_labels validate_label split text_eq has_prefix to_lower
    first_bad is_ldh last_of
domain_names = (refl, refl, refl, refl, refl)

handles_and_codes :
    (validate_contact_handle (codes "DENIC-1") ≡ none)
    × (validate_contact_handle (codes "a b") ≡ some (handle_character b' '))
    × (validate_auth_info (codes "short") ≡ some (auth_length 5))
unfolding validate_contact_handle validate_auth_info text_eq first_bad is_ldh
handles_and_codes = (refl, refl, refl)

validate_domain_name_iff_example :
    (validate_domain_name (codes "a.de") ≡ none)
    ↔ ((codes "a.de" ≡ []) ⊎ IsDomainName (codes "a.de"))
validate_domain_name_iff_example = validate_domain_name_iff (codes "a.de")
