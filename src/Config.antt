-- ===== src/Config.antt =====
-- pkg/config: the structures of config.go, and validate.go. `Load` is config.go's reader.
pub mod Load
mod Tests
use epp_test.Base.{
  ◌≡◌, ◌≢◌, ◌↔◌, refl, Bool, true, false, not, List, [], ◌∷◌, ◌++◌, All, arith, if◌then◌else◌,
}
use epp_test.Base.Int.{ℤ, pos, eqb_ℤ, eqb_ℤ_iff}
use epp_test.Base.Text.{Bytes, codes, text_eq, text_eq_iff}
use epp_test.Base.Dict.{Dict}

pub record RegistrarConfig : Type 0 where
  pub host : Bytes
  pub port : ℤ
  pub username : Bytes
  pub password : Bytes
  pub cert_file : Bytes
  pub key_file : Bytes
  pub ca_file : Bytes
  pub extensions : List Bytes

-- A required field that is missing: the registrar and the field.
abbrev pub Missing : Type 0
Missing = Bytes × Bytes

-- One of the tests.
unfoldable pub require : Bool → Bytes → Bytes → List Missing
require absent name field = if absent then (name, field) ∷ [] else []

-- The body of the loop.
unfoldable pub missing_fields : Bytes → RegistrarConfig → List Missing
unfolding require
missing_fields name r =
    require (text_eq r.host []) name (codes "host")
    ++ (require (eqb_ℤ r.port (pos 0)) name (codes "port")
        ++ (require (text_eq r.username []) name (codes "username")
            ++ require (text_eq r.password []) name (codes "password")))

-- `validate`: the errors in the order of the loop; there are none where it returns nil.
unfoldable pub validate : Dict RegistrarConfig → List Missing
unfolding missing_fields
validate [] = []
validate ((name, r) ∷ rest) = missing_fields name r ++ validate rest

-- The registrar has all that a connection needs.
pub record IsComplete (r : RegistrarConfig) : Type 0 where
  pub host : r.host ≢ []
  pub port : r.port ≢ pos 0
  pub username : r.username ≢ []
  pub password : r.password ≢ []

empty_append : {A : Type 0} (xs ys : List A) → xs ++ ys ≡ [] → (xs ≡ []) × (ys ≡ [])
empty_append [] ys h = (refl, h)
empty_append (x ∷ xs) ys h = absurd cc

require_iff : (b : Bool) (name field : Bytes) → (require b name field ≡ []) ↔ (b ≡ false)
unfolding require
require_iff true name field = (λ h. absurd cc, λ h. absurd cc)
require_iff false name field = (λ h. refl, λ h. refl)

is_set : (t : Bytes) → (text_eq t [] ≡ false) ↔ (t ≢ [])
is_set t = (λ h e. ground (arith, text_eq_iff t []), λ h. ground (arith, text_eq_iff t []))

port_is_set : (p : ℤ) → (eqb_ℤ p (pos 0) ≡ false) ↔ (p ≢ pos 0)
port_is_set p =
    (λ h e. ground (arith, eqb_ℤ_iff p (pos 0)), λ h. ground (arith, eqb_ℤ_iff p (pos 0)))

missing_fields_iff :
    (name : Bytes) (r : RegistrarConfig) → (missing_fields name r ≡ []) ↔ IsComplete r
unfolding missing_fields
missing_fields_iff name r = (
  λ h.
      let (host, h1) = empty_append _ _ h in
      let (port, h2) = empty_append _ _ h1 in
      let (username, password) = empty_append _ _ h2 in
      record {
        host = (is_set r.host).0 ((require_iff _ name _).0 host);
        port = (port_is_set r.port).0 ((require_iff _ name _).0 port);
        username = (is_set r.username).0 ((require_iff _ name _).0 username);
        password = (is_set r.password).0 ((require_iff _ name _).0 password);
      },
  λ c.
      let host = (is_set r.host).1 c.host in
      let port = (port_is_set r.port).1 c.port in
      let username = (is_set r.username).1 c.username in
      let password = (is_set r.password).1 c.password in
      rw (host, port, username, password, missing_fields) (unfold require in refl),
)

-- A configuration is accepted, with no error, exactly if every registrar in it has a host, a port
-- other than 0, a user and a password.
pub validate_iff :
    (cfg : Dict RegistrarConfig) → (validate cfg ≡ []) ↔ All (λ e. IsComplete e.1) cfg
unfolding validate
validate_iff [] = (λ h. tt, λ h. refl)
validate_iff ((name, r) ∷ rest) = (
  λ h.
      let (one, more) = empty_append _ _ h in
      ((missing_fields_iff name r).0 one, (validate_iff rest).0 more),
  λ (one, more). rw ((missing_fields_iff name r).1 one) ((validate_iff rest).1 more),
)
