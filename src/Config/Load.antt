-- ===== src/Config/Load.antt =====
-- `Load` of config.go over the library viper, which is a parameter: its state, what it does with an
-- environment variable, a file and the structure. Search paths and the environment's prefix are
-- fixed settings of viper and left out.
use epp_test.Base.{◌≡◌, ◌↔◌, refl, sym, ap, ◌∙◌, List, [], ◌∷◌, ◌++◌, Option, none, some, All}
use epp_test.Base.Text.{Bytes, codes}
use epp_test.Base.Dict.{Dict}
use epp_test.Base.Result.{Result, ok, err}
use epp_test.Config.{RegistrarConfig, Missing, validate, validate_iff, IsComplete}

-- What `ReadInConfig` returns: nil, `ConfigFileNotFoundError`, or another error.
pub data FileOutcome : Type 0 where
  found not_found broken : FileOutcome

pub record Viper : Type 1 where
  pub State : Type 0
  pub new : State
  pub bind_env : Bytes → State → State
  pub read_in_config : State → FileOutcome × State
  pub unmarshal : State → Option (Dict RegistrarConfig)

pub data LoadError : Type 0 where
  reading unmarshalling : LoadError
  invalid : List Missing → LoadError

abbrev pub registrar_names : List Bytes
registrar_names = codes "internetx" ∷ codes "nicat" ∷ codes "eurid" ∷ codes "denic" ∷ []

abbrev pub field_names : List Bytes
field_names =
    codes "host"
    ∷ codes "port"
    ∷ codes "username"
    ∷ codes "password"
    ∷ codes "cert_file"
    ∷ codes "key_file"
    ∷ codes "ca_file"
    ∷ []

module _ (viper : Viper) where
  open viper use {State}

  -- The loops over the names and the fields.
  unfoldable pub bind_fields : Bytes → List Bytes → State → State
  bind_fields name [] v = v
  bind_fields name (field ∷ fields) v =
      bind_fields name fields
        (viper.bind_env (codes "registrars." ++ (name ++ (codes "." ++ field))) v)

  unfoldable pub bind_names : List Bytes → State → State
  unfolding bind_fields
  bind_names [] v = v
  bind_names (name ∷ names) v = bind_names names (bind_fields name field_names v)

  -- viper with everything bound, and its file read.
  unfoldable pub configured : FileOutcome × State
  configured = viper.read_in_config (bind_names registrar_names viper.new)

  abbrev checked : Dict RegistrarConfig → List Missing → Result LoadError (Dict RegistrarConfig)
  checked cfg [] = ok cfg
  checked cfg (m ∷ ms) = err (invalid (m ∷ ms))

  abbrev parsed : Option (Dict RegistrarConfig) → Result LoadError (Dict RegistrarConfig)
  parsed none = err unmarshalling
  parsed (some cfg) = checked cfg (validate cfg)

  abbrev read_as : FileOutcome × State → Result LoadError (Dict RegistrarConfig)
  read_as (broken, v) = err reading
  read_as (found, v) = parsed (viper.unmarshal v)
  read_as (not_found, v) = parsed (viper.unmarshal v)

  -- `Load`
  unfoldable pub load : Result LoadError (Dict RegistrarConfig)
  load = read_as configured

  -- That the file was read, or that there is none.
  abbrev pub IsUsable : FileOutcome → Type 0
  IsUsable broken = ⊥
  IsUsable found = Unit
  IsUsable not_found = Unit

  checked_iff :
      (cfg c : Dict RegistrarConfig) (ms : List Missing)
      → (checked c ms ≡ ok cfg) ↔ ((c ≡ cfg) × (ms ≡ []))
  checked_iff cfg c [] = (λ h. (cc, refl), λ (e, n). ap ok e)
  checked_iff cfg c (m ∷ ms) = (λ h. cc, λ (e, n). cc)

  parsed_iff :
      (cfg : Dict RegistrarConfig) (o : Option (Dict RegistrarConfig))
      → (parsed o ≡ ok cfg) ↔ ((o ≡ some cfg) × All (λ e. IsComplete e.1) cfg)
  parsed_iff cfg none = (λ h. cc, λ (e, n). cc)
  parsed_iff cfg (some c) = (
    λ h.
        let (same, clean) = (checked_iff cfg c (validate c)).0 h in
        (ap some same, (validate_iff cfg).0 (sym (ap validate same) ∙ clean)),
    λ (e, complete).
        let same : c ≡ cfg = cc in
        (checked_iff cfg c (validate c)).1 (same, ap validate same ∙ (validate_iff cfg).1 complete),
  )

  read_as_iff :
      (cfg : Dict RegistrarConfig) (r : FileOutcome × State)
      → (read_as r ≡ ok cfg)
        ↔ (IsUsable r.0 × (viper.unmarshal r.1 ≡ some cfg) × All (λ e. IsComplete e.1) cfg)
  read_as_iff cfg (broken, v) = (λ h. cc, λ (n, e, c). absurd n)
  read_as_iff cfg (found, v) =
      let (there, back) = parsed_iff cfg (viper.unmarshal v) in
      (λ h. (tt, (there h).0, (there h).1), λ (n, e, c). back (e, c))
  read_as_iff cfg (not_found, v) =
      let (there, back) = parsed_iff cfg (viper.unmarshal v) in
      (λ h. (tt, (there h).0, (there h).1), λ (n, e, c). back (e, c))

  -- `Load` gives a configuration exactly if its file was read or is missing, what viper makes of
  -- the file and the environment is that configuration, and every registrar in it has a host, a
  -- port other than 0, a user and a password.
  pub load_iff :
      (cfg : Dict RegistrarConfig)
      → (load ≡ ok cfg) ↔ (
          IsUsable configured.0
          × (viper.unmarshal configured.1 ≡ some cfg)
          × All (λ e. IsComplete e.1) cfg)
  unfolding load
  load_iff cfg = read_as_iff cfg configured
