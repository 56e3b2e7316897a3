-- ===== src/MockEppServer/Sans.antt =====
-- The names in the server's certificate: `splitSANs` and the loop of `genSelfSignedCert`. The
-- parsing of an address, and whatever x509 makes of the names, belong to the libraries.
use epp_test.Base.{
  ◌≡◌, ◌≢◌, refl, sym, ap, ap₂, ◌∙◌, List, [], ◌∷◌, ◌++◌, append-nil, append_assoc, Option, none,
  some, All, Option-cases, if◌then◌else◌, Bool-cases, inl, inr,
}
use epp_test.Base.Text.{
  Bytes, codes, text_eq, text_eq_iff, trim_space, trim_left, trim_right, split,
}
use epp_test.Base.Text.Laws.{Lacks, join, split-join}
use epp_test.Base.Text.Trim.{IsTrimmed}

-- The loop of `splitSANs`.
unfoldable pub non_empty : List Bytes → List Bytes
non_empty [] = []
non_empty (s ∷ ss) =
    let entry = trim_space s in
    let rest = non_empty ss in if text_eq entry [] then rest else entry ∷ rest

-- `splitSANs`
unfoldable pub split_sans : Bytes → List Bytes
unfolding non_empty
split_sans v = non_empty (split b',' v)

pub record CertNames (Ip : Type 0) : Type 0 where
  pub ip_addresses : List Ip
  pub dns_names : List Bytes

module _ {Ip : Type 0} (parse_ip : Bytes → Option Ip) where
  -- The loop over the extra names.
  unfoldable pub add_sans : List Bytes → CertNames Ip → CertNames Ip
  add_sans [] c = c
  add_sans (s ∷ ss) c = elim (parse_ip s) [
    | some ip ↦ add_sans ss (record c { ip_addresses = c.ip_addresses ++ (ip ∷ []) })
    | none ↦ add_sans ss (record c { dns_names = c.dns_names ++ (s ∷ []) })
  ]

  -- The names of the certificate's template, where the loopback address is what `ParseIP` makes of
  -- `127.0.0.1`.
  unfoldable pub cert_names : Ip → List Bytes → CertNames Ip
  unfolding add_sans
  cert_names loopback sans =
      add_sans sans (record { ip_addresses = loopback ∷ []; dns_names = codes "localhost" ∷ [] })

-- An entry that the flag can hold.
pub record IsEntry (s : Bytes) : Type 0 where
  pub trimmed : IsTrimmed s
  pub some_text : s ≢ []
  pub no_comma : Lacks b',' s

non_empty-entries : (ss : List Bytes) → All IsEntry ss → non_empty ss ≡ ss
unfolding non_empty trim_space
non_empty-entries [] h = refl
non_empty-entries (s ∷ ss) (entry, h) =
    let same : trim_right (trim_left s) ≡ s =
      ap trim_right entry.trimmed.left ∙ entry.trimmed.right in
    elim (Bool-cases (text_eq s [])) [
      | inl empty ↦ absurd (entry.some_text ((text_eq_iff s []).0 empty))
      | inr given ↦ rw (same, given, non_empty-entries ss h) refl
    ]

entries-Lacks : (ss : List Bytes) → All IsEntry ss → All (Lacks b',') ss
entries-Lacks [] h = tt
entries-Lacks (s ∷ ss) (entry, h) = (entry.no_comma, entries-Lacks ss h)

-- The flag that holds some names with commas between them is split into exactly these names, in
-- their order, if none is empty, has blanks around it or holds a comma.
split_sans-join :
    (s : Bytes) (ss : List Bytes) → All IsEntry (s ∷ ss) → split_sans (join b',' (s ∷ ss)) ≡ s ∷ ss
unfolding split_sans
split_sans-join s ss h =
    ap non_empty (split-join b',' s ss (entries-Lacks (s ∷ ss) h)) ∙ non_empty-entries (s ∷ ss) h

module _ {Ip : Type 0} (parse_ip : Bytes → Option Ip) where
  -- The addresses among some names, and the names that are none.
  unfoldable pub addresses : List Bytes → List Ip
  addresses [] = []
  addresses (s ∷ ss) = elim (parse_ip s) [ none ↦ addresses ss | some ip ↦ ip ∷ addresses ss ]

  unfoldable pub other_names : List Bytes → List Bytes
  other_names [] = []
  other_names (s ∷ ss) = elim (parse_ip s) [ none ↦ s ∷ other_names ss | some ip ↦ other_names ss ]

  add_sans-sorted :
      (ss : List Bytes) (c : CertNames Ip)
      → add_sans parse_ip ss c ≡ record {
        ip_addresses = c.ip_addresses ++ addresses ss;
        dns_names = c.dns_names ++ other_names ss;
      }
  unfolding add_sans addresses other_names
  add_sans-sorted [] c =
      ap₂ (λ (x : List Ip) (y : List Bytes). record { ip_addresses = x; dns_names = y })
        (sym (append-nil c.ip_addresses)) (sym (append-nil c.dns_names))
  add_sans-sorted (s ∷ ss) c = elim (Option-cases (parse_ip s)) [
    | inl name ↦
        rw (name, add_sans, addresses, other_names)
          (add_sans-sorted ss (record c { dns_names = c.dns_names ++ (s ∷ []) })
            ∙ ap
                (λ (y : List Bytes). record {
                  ip_addresses = c.ip_addresses ++ addresses ss;
                  dns_names = y;
                })
                (append_assoc c.dns_names (s ∷ []) (other_names ss)))
    | inr (ip, address) ↦
        rw (address, add_sans, addresses, other_names)
          (add_sans-sorted ss (record c { ip_addresses = c.ip_addresses ++ (ip ∷ []) })
            ∙ ap
                (λ (x : List Ip). record {
                  ip_addresses = x;
                  dns_names = c.dns_names ++ other_names ss;
                })
                (append_assoc c.ip_addresses (ip ∷ []) (addresses ss)))
  ]

  -- For a flag that holds some names with commas between them, none of them empty, with blanks
  -- around it or with a comma, the certificate is made for the loopback address, `localhost`, and
  -- exactly these names in their order: those that are addresses as addresses, the others as DNS
  -- names.
  pub cert_names-split_sans :
      (loopback : Ip) (s : Bytes) (ss : List Bytes)
      → All IsEntry (s ∷ ss)
      → cert_names parse_ip loopback (split_sans (join b',' (s ∷ ss))) ≡ record {
        ip_addresses = loopback ∷ addresses (s ∷ ss);
        dns_names = codes "localhost" ∷ other_names (s ∷ ss);
      }
  unfolding cert_names
  cert_names-split_sans loopback s ss h =
      ap (λ names. cert_names parse_ip loopback names) (split_sans-join s ss h)
      ∙ add_sans-sorted (s ∷ ss)
          (record { ip_addresses = loopback ∷ []; dns_names = codes "localhost" ∷ [] })
