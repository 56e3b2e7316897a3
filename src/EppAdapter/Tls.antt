-- ===== src/EppAdapter/Tls.antt =====
-- `buildTLSConfig` of connect.go. The file system and the libraries that read certificates are
-- parameters; a pool and a key pair are what they give.
use epp_test.Base.{
  ℕ, ◌≡◌, ◌≢◌, sym, ap, subst, ◌∙◌, false, ◌||◌, [], Option, none, some, inl, inr, Option-cases,
  Bool-cases, if◌then◌else◌, ◌⊎◌,
}
use epp_test.Base.Text.{Bytes, text_eq, text_eq_iff}
use epp_test.Base.Result.{Result, ok, err, Result-cases}
use epp_test.Config.{RegistrarConfig}

pub data TlsError : Type 0 where
  unreadable_ca no_certificate bad_key_pair : TlsError

pub record Files : Type 1 where
  pub Pool : Type 0
  pub KeyPair : Type 0
  pub read_file : Bytes → Option Bytes
  pub pool_of : Bytes → Option Pool
  pub load_key_pair : Bytes → Bytes → Option KeyPair

-- `tls.VersionTLS12`
abbrev pub version_tls12 : ℕ
version_tls12 = 771

-- The fields of `tls.Config` that are set; without a pool the system's is used.
pub record TlsConfig (F : Files) : Type 0 where
  pub min_version : ℕ
  pub server_name : Bytes
  pub root_cas : Option F.Pool
  pub certificate : Option F.KeyPair

module _ (F : Files) where
  -- The pool of the server's CA.
  unfoldable pub load_roots : Bytes → Result TlsError (Option F.Pool)
  load_roots ca_file = if text_eq ca_file [] then ok none else elim (F.read_file ca_file) [
    | none ↦ err unreadable_ca
    | some pem ↦ elim (F.pool_of pem) [ none ↦ err no_certificate | some pool ↦ ok (some pool) ]
  ]

  -- The client's certificate.
  unfoldable pub load_certificate : Bytes → Bytes → Result TlsError (Option F.KeyPair)
  load_certificate cert_file key_file =
      if text_eq cert_file [] || text_eq key_file []
      then ok none
      else elim (F.load_key_pair cert_file key_file) [
        | none ↦ err bad_key_pair
        | some pair ↦ ok (some pair)
      ]

  -- `buildTLSConfig`, with the configuration of `WithTLSConfig` if there is one.
  unfoldable pub build_tls_config :
      Option (TlsConfig F) → RegistrarConfig → Result TlsError (TlsConfig F)
  build_tls_config (some injected) cfg = ok injected
  build_tls_config none cfg = elim (load_roots cfg.ca_file) [
    | err e ↦ err e
    | ok roots ↦ elim (load_certificate cfg.cert_file cfg.key_file) [
      | err e ↦ err e
      | ok pair ↦ ok (record {
        min_version = version_tls12;
        server_name = cfg.host;
        root_cas = roots;
        certificate = pair;
      })
    ]
  ]

  -- The roots are those of the configured file, and the system's only without one.
  pub record FromFile (ca_file : Bytes) (roots : Option F.Pool) : Type 0 where
    pub none_given : ca_file ≡ [] → roots ≡ none
    pub given :
        ca_file ≢ []
        → (pem : Bytes) × (pool : F.Pool) × (F.read_file ca_file ≡ some pem)
          × (F.pool_of pem ≡ some pool)
          × (roots ≡ some pool)

  -- The certificate is that of the two files, and there is none only if one of them is not given.
  pub record FromPair (cert_file key_file : Bytes) (pair : Option F.KeyPair) : Type 0 where
    pub one_missing : (cert_file ≡ []) ⊎ (key_file ≡ []) → pair ≡ none
    pub both :
        cert_file ≢ []
        → key_file ≢ []
        → (loaded : F.KeyPair) × (F.load_key_pair cert_file key_file ≡ some loaded)
          × (pair ≡ some loaded)

  load_roots_sound :
      (ca_file : Bytes) (roots : Option F.Pool)
      → load_roots ca_file ≡ ok roots
      → FromFile ca_file roots
  unfolding load_roots
  load_roots_sound ca_file roots h = elim (Bool-cases (text_eq ca_file [])) [
    | inl empty ↦
        let same : ◌≡◌ {A = Result TlsError (Option F.Pool)} (ok none) (ok roots) = rw empty at h in
        record {
          none_given = λ e. cc;
          given = λ ne. absurd (ne ((text_eq_iff ca_file []).0 empty));
        }
    | inr given ↦ elim (Option-cases (F.read_file ca_file)) [
      | inl missing ↦ let bad = rw (given, missing) at h in absurd cc
      | inr (pem, read) ↦ elim (Option-cases (F.pool_of pem)) [
        | inl none_there ↦ let bad = rw (given, read, none_there) at h in absurd cc
        | inr (pool, parsed) ↦
            let same : ◌≡◌ {A = Result TlsError (Option F.Pool)} (ok (some pool)) (ok roots) =
              rw (given, read, parsed) at h in
            record {
              none_given = λ e. let yes_empty = (text_eq_iff ca_file []).1 e in absurd cc;
              given = λ ne. (pem, pool, read, parsed, cc);
            }
      ]
    ]
  ]

  not_empty : (s t : Bytes) → text_eq s [] ≡ false → text_eq t [] ≡ false → (s ≡ []) ⊎ (t ≡ []) → ⊥
  not_empty s t f g (inl e) = let empty = (text_eq_iff s []).1 e in cc
  not_empty s t f g (inr e) = let empty = (text_eq_iff t []).1 e in cc

  ok_inj : {a b : TlsConfig F} → ◌≡◌ {A = Result TlsError (TlsConfig F)} (ok a) (ok b) → a ≡ b
  ok_inj e = cc

  load_certificate_sound :
      (cert_file key_file : Bytes) (pair : Option F.KeyPair)
      → load_certificate cert_file key_file ≡ ok pair
      → FromPair cert_file key_file pair
  unfolding load_certificate
  load_certificate_sound cert_file key_file pair h = elim (Bool-cases (text_eq cert_file [])) [
    | inl no_cert ↦
        let same : ◌≡◌ {A = Result TlsError (Option F.KeyPair)} (ok none) (ok pair) =
          rw no_cert at h in
        record {
          one_missing = λ e. cc;
          both = λ nc nk. absurd (nc ((text_eq_iff cert_file []).0 no_cert));
        }
    | inr cert ↦ elim (Bool-cases (text_eq key_file [])) [
      | inl no_key ↦
          let same : ◌≡◌ {A = Result TlsError (Option F.KeyPair)} (ok none) (ok pair) =
            rw (cert, no_key) at h in
          record {
            one_missing = λ e. cc;
            both = λ nc nk. absurd (nk ((text_eq_iff key_file []).0 no_key));
          }
      | inr key ↦ elim (Option-cases (F.load_key_pair cert_file key_file)) [
        | inl bad ↦ let clash = rw (cert, key, bad) at h in absurd cc
        | inr (loaded, found) ↦
            let same : ◌≡◌ {A = Result TlsError (Option F.KeyPair)} (ok (some loaded)) (ok pair) =
              rw (cert, key, found) at h in
            record {
              one_missing = λ e. absurd (not_empty cert_file key_file cert key e);
              both = λ nc nk. (loaded, found, cc);
            }
      ]
    ]
  ]

  -- A configuration that is made of the adapter's own.
  pub record OfConfig (cfg : RegistrarConfig) (tls : TlsConfig F) : Type 0 where
    pub modern : tls.min_version ≡ version_tls12
    pub host : tls.server_name ≡ cfg.host
    pub roots : FromFile cfg.ca_file tls.root_cas
    pub pair : FromPair cfg.cert_file cfg.key_file tls.certificate

  pub build_tls_config_sound :
      (cfg : RegistrarConfig) (tls : TlsConfig F)
      → build_tls_config none cfg ≡ ok tls
      → OfConfig cfg tls
  unfolding build_tls_config
  build_tls_config_sound cfg tls h = elim (Result-cases (load_roots cfg.ca_file)) [
    | inr (e, bad) ↦ let clash = rw (bad, build_tls_config) at h in absurd cc
    | inl (roots, rooted) ↦ elim (Result-cases (load_certificate cfg.cert_file cfg.key_file)) [
      | inr (e, bad) ↦ let clash = rw (rooted, bad, build_tls_config) at h in absurd cc
      | inl (pair, paired) ↦
          let same : ◌≡◌ {A = Result TlsError (TlsConfig F)}
              (ok (record {
                min_version = version_tls12;
                server_name = cfg.host;
                root_cas = roots;
                certificate = pair;
              }))
              (ok tls) =
            rw (rooted, paired, build_tls_config) at h in
          let fields = ok_inj same in
          record {
            modern = ap (λ c. c.min_version) (sym fields);
            host = ap (λ c. c.server_name) (sym fields);
            roots =
                subst (FromFile cfg.ca_file) (ap (λ c. c.root_cas) fields)
                  (load_roots_sound cfg.ca_file roots rooted);
            pair =
                subst (FromPair cfg.cert_file cfg.key_file) (ap (λ c. c.certificate) fields)
                  (load_certificate_sound cfg.cert_file cfg.key_file pair paired);
          }
    ]
  ]

  -- A given file that cannot be used.
  pub data Unusable (cfg : RegistrarConfig) : Type 0 where
    bad_ca :
        cfg.ca_file ≢ []
        → ((pem : Bytes) → F.read_file cfg.ca_file ≡ some pem → F.pool_of pem ≡ none)
        → Unusable cfg
    bad_pair :
        cfg.cert_file ≢ []
        → cfg.key_file ≢ []
        → F.load_key_pair cfg.cert_file cfg.key_file ≡ none
        → Unusable cfg

  given : (name : Bytes) → text_eq name [] ≡ false → name ≢ []
  given name other e = let empty = (text_eq_iff name []).1 e in cc

  load_roots-Unusable :
      (cfg : RegistrarConfig) (e : TlsError) → load_roots cfg.ca_file ≡ err e → Unusable cfg
  unfolding load_roots
  load_roots-Unusable cfg e h = elim (Bool-cases (text_eq cfg.ca_file [])) [
    | inl empty ↦ absurd (let clash = rw empty at h in cc)
    | inr other ↦ elim (Option-cases (F.read_file cfg.ca_file)) [
      | inl missing ↦ bad_ca (given cfg.ca_file other) (λ pem read. cc)
      | inr (pem, read) ↦ elim (Option-cases (F.pool_of pem)) [
        | inl none_there ↦
            bad_ca (given cfg.ca_file other)
              (λ p again. let same : p ≡ pem = cc in ap F.pool_of same ∙ none_there)
        | inr (pool, parsed) ↦ absurd (let clash = rw (other, read, parsed) at h in cc)
      ]
    ]
  ]

  load_certificate-Unusable :
      (cfg : RegistrarConfig) (e : TlsError)
      → load_certificate cfg.cert_file cfg.key_file ≡ err e
      → Unusable cfg
  unfolding load_certificate
  load_certificate-Unusable cfg e h = elim (Bool-cases (text_eq cfg.cert_file [])) [
    | inl no_cert ↦ absurd (let clash = rw no_cert at h in cc)
    | inr cert ↦ elim (Bool-cases (text_eq cfg.key_file [])) [
      | inl no_key ↦ absurd (let clash = rw (cert, no_key) at h in cc)
      | inr key ↦ elim (Option-cases (F.load_key_pair cfg.cert_file cfg.key_file)) [
        | inl bad ↦ bad_pair (given cfg.cert_file cert) (given cfg.key_file key) bad
        | inr (loaded, found) ↦ absurd (let clash = rw (cert, key, found) at h in cc)
      ]
    ]
  ]

  pub build_tls_config-Unusable :
      (cfg : RegistrarConfig) (e : TlsError) → build_tls_config none cfg ≡ err e → Unusable cfg
  unfolding build_tls_config
  build_tls_config-Unusable cfg e h = elim (Result-cases (load_roots cfg.ca_file)) [
    | inr (x, bad) ↦ load_roots-Unusable cfg x bad
    | inl (roots, rooted) ↦ elim (Result-cases (load_certificate cfg.cert_file cfg.key_file)) [
      | inr (x, bad) ↦ load_certificate-Unusable cfg x bad
      | inl (pair, paired) ↦ absurd (let clash = rw (rooted, paired, build_tls_config) at h in cc)
    ]
  ]
