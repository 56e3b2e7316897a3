-- ===== src/EppAdapter/Contact.antt =====
-- The methods on contacts of `GenericEPPAdapter`, pkg/registrar/epp/adapter.go.
use epp_test.Base.{◌||◌, not, List, [], ◌∷◌, Option, none, some, if◌then◌else◌}
use epp_test.Base.Text.{Bytes, codes, text_eq}
use epp_test.Registrar.{ContactResult, ContactCreateRequest, ContactUpdateRequest}
use epp_test.Registrar.Validate.{validate_contact_handle, validate_auth_info}
use epp_test.Registrar.Value.{end}
use epp_test.EppXml.{
  ContactInfoResponse, ContactAddr, ContactChange, contact_check, contact_info, contact_create,
  contact_update, contact_delete,
}
use epp_test.EppAdapter.{World, Setup, Run, ◌>>=◌, return, required, no_extension, extension_of}
use epp_test.EppAdapter.Connect.{commanded}
use epp_test.EppAdapter.Params.{accepted, handles_accepted}
use epp_test.EppAdapter.Domain.{hooked}

abbrev pub contact_with_id : Bytes → ContactResult
contact_with_id id = record {
  id = id;
  name = [];
  org = [];
  email = [];
  status = [];
  extensions = end;
}

-- The results of a check: one for each id that was asked for, whatever the answer holds.
unfoldable pub asked_contacts : List Bytes → List ContactResult
asked_contacts [] = []
asked_contacts (id ∷ ids) = contact_with_id id ∷ asked_contacts ids

-- The result of `InfoContact`.
unfoldable pub contact_of : ContactInfoResponse → ContactResult
contact_of inf = record {
  id = inf.id;
  name = inf.postal_info.name;
  org = inf.postal_info.org;
  email = inf.email;
  status = inf.statuses;
  extensions = end;
}

abbrev pub no_address : ContactAddr
no_address = record { street = []; city = []; sp = []; pc = []; cc = [] }

-- The changes that `UpdateContact` asks for, where there are any.
unfoldable pub contact_change : Bytes → Bytes → Bytes → Option ContactChange
contact_change name org email =
    let named = not (text_eq name []) || not (text_eq org []) in
    if named || not (text_eq email [])
    then some (record {
      postal_info =
          if named
          then some (record { kind = codes "int"; name = name; org = org; addr = no_address })
          else none;
      email = email;
    })
    else none

module _ (W : World) (setup : Setup) where
  -- `CheckContact`
  unfoldable pub check_contact : List Bytes → Run W (List ContactResult)
  check_contact ids = handles_accepted ids >>= λ _.
      commanded W setup (codes "contact:check") (contact_check ids) no_extension
        (λ _. return (asked_contacts ids))

  -- `InfoContact`
  unfoldable pub info_contact : Bytes → Run W ContactResult
  info_contact id = accepted (validate_contact_handle id) >>= λ _.
      commanded W setup (codes "contact:info") (contact_info id) no_extension (λ resp.
        required (codes "response missing <epp:resData>") resp.res_data >>= λ inner.
        required (codes "unmarshal infData") (W.contact_infos inner) >>= λ inf.
        return (hooked setup.on_parse_contact_info inner (contact_of inf)))

  -- `CreateContact`
  unfoldable pub create_contact : ContactCreateRequest → Run W ContactResult
  create_contact req = accepted (validate_contact_handle req.id) >>= λ _.
      accepted (validate_auth_info req.auth_info) >>= λ _.
      commanded W setup (codes "contact:create")
        (contact_create (record {
          id = req.id;
          postal_info = record {
            kind = codes "int";
            name = req.name;
            org = req.org;
            addr = record {
              street = req.street;
              city = req.city;
              sp = req.state_province;
              pc = req.postal_code;
              cc = req.country_code;
            };
          };
          voice = req.phone;
          fax = req.fax;
          email = req.email;
          auth_info = record { pw = req.auth_info };
        }))
        (extension_of setup.on_build_contact_create req) (λ _. return (contact_with_id req.id))

  -- `UpdateContact`
  unfoldable pub update_contact : ContactUpdateRequest → Run W ContactResult
  update_contact req = accepted (validate_contact_handle req.id) >>= λ _.
      commanded W setup (codes "contact:update")
        (contact_update (record { id = req.id; chg = contact_change req.name req.org req.email }))
        no_extension (λ _. return (contact_with_id req.id))

  -- `DeleteContact`
  unfoldable pub delete_contact : Bytes → Run W (Unit {0})
  delete_contact id = accepted (validate_contact_handle id) >>= λ _.
      commanded W setup (codes "contact:delete") (contact_delete id) no_extension (λ _. return tt)
