-- ===== src/Config/Tests.antt =====
-- A configuration with one registrar.
use epp_test.Base.{◌≡◌, ◌↔◌, refl, [], ◌∷◌, All, some}
use epp_test.Base.Int.{pos}
use epp_test.Base.Text.{codes, text_eq}
use epp_test.Base.Result.{ok, err}
use epp_test.Base.Dict.{Dict}
use epp_test.Config.Load.{
  Viper, not_found, invalid, IsUsable, load, load_iff, configured, bind_names,
}
use epp_test.Config.{RegistrarConfig, IsComplete, validate}

abbrev cfg : Dict RegistrarConfig
cfg =
    (
      codes "nicat",
      record {
        host = codes "epp.example";
        port = pos 700;
        username = codes "u";
        password = [];
        cert_file = [];
        key_file = [];
        ca_file = [];
        extensions = [];
      },
    )
    ∷ []

-- A viper without a file, whose environment gives the configuration above once a key is bound.
abbrev viper : Viper
viper = record {
  State = Dict RegistrarConfig;
  new = [];
  bind_env = λ key v. cfg;
  read_in_config = λ v. (not_found, v);
  unmarshal = λ v. some v;
}

load_iff_example : (load viper ≡ ok cfg) ↔ (
    IsUsable viper (configured viper).0
    × (viper.unmarshal (configured viper).1 ≡ some cfg)
    × All (λ e. IsComplete e.1) cfg)
load_iff_example = load_iff viper cfg

-- Without a password it is refused.
refused : load viper ≡ err (invalid ((codes "nicat", codes "password") ∷ []))
unfolding load configured bind_names validate text_eq
refused = refl
