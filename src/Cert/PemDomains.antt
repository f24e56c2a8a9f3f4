-- ===== src/Cert/PemDomains.antt =====
-- internal/cert/manager.go: `ParsePEMCertDomains`. Go's `pem.Decode` and `x509.ParseCertificate`
-- are parameters.
use hermes_waf.Prelude.{
  Str, bytes, ◌≡◌, refl, not, ◌&&◌, ◌||◌, Option, none, some, List, [], ◌∷◌, ◌++◌, ◌==◌, arith,
  if◌then◌else◌, eq_iff,
}
use hermes_waf.Prelude.Dict.{contains}
use hermes_waf.Prelude.Results.{Result, ok, err}
use hermes_waf.Cert.{X509}

pub data PemError : Type 0 where
  no_pem_block : PemError
  parse_failed : Str → PemError

-- The common name behind the others, where it is not among them.
unfoldable pub with_common_name : Str → List Str → List Str
with_common_name name domains =
    if name == bytes ""
    then domains
    else if contains name domains
    then domains
    else domains ++ name ∷ []

module _ (decode_pem : Str → Option Str) (parse_certificate : Str → Result Str X509) where
  abbrev names_of : Result Str X509 → Result PemError (List Str)
  names_of (err e) = err (parse_failed e)
  names_of (ok x) = ok (with_common_name x.subject_common_name x.dns_names)

  abbrev names_in : Option Str → Result PemError (List Str)
  names_in none = err no_pem_block
  names_in (some block) = names_of (parse_certificate block)

  -- `ParsePEMCertDomains`
  unfoldable pub parse_pem_cert_domains : Str → Result PemError (List Str)
  parse_pem_cert_domains cert_pem = names_in (decode_pem cert_pem)

contains-append :
    (d : Str) (xs ys : List Str) → contains d (xs ++ ys) ≡ (contains d xs || contains d ys)
unfolding contains
contains-append d [] ys = ground arith
contains-append d (x ∷ xs) ys = ground (arith, contains-append d xs ys)

-- The domains are the certificate's names and its common name, where it has one.
abbrev pub IsNames : Option Str → (Str → Result Str X509) → Result PemError (List Str) → Type 0
IsNames none parse (err no_pem_block) = Unit {0}
IsNames (some block) parse (ok domains) =
    (x : X509) × (parse block ≡ ok x)
    × ((d : Str)
        → contains d domains
          ≡ (contains d x.dns_names || (x.subject_common_name == d && not (d == bytes ""))))
IsNames (some block) parse (err (parse_failed e)) = parse block ≡ err e
IsNames _ parse _ = ⊥

contains-with_common_name :
    (d name : Str) (domains : List Str)
    → contains d (with_common_name name domains)
      ≡ (contains d domains || (name == d && not (d == bytes "")))
unfolding with_common_name contains
contains-with_common_name d name domains = ground (
  arith,
  contains-append d domains (name ∷ []),
  eq_iff name d,
  eq_iff name (bytes ""),
  eq_iff d (bytes ""),
)

-- `ParsePEMCertDomains` fails without a PEM block or with the error of its certificate. Otherwise a
-- domain is in the result exactly if it is one of the certificate's names, or its common name and not
-- empty.
pub parse_pem_cert_domains-IsNames :
    (decode : Str → Option Str) (parse : Str → Result Str X509) (cert_pem : Str)
    → IsNames (decode cert_pem) parse (parse_pem_cert_domains decode parse cert_pem)
unfolding parse_pem_cert_domains
parse_pem_cert_domains-IsNames decode parse cert_pem = go (decode cert_pem)
  where
    known :
        (block : Str) (r : Result Str X509)
        → parse block ≡ r
        → IsNames (some block) parse (names_of decode parse r)
    known block (err e) h = h
    known block (ok x) h =
        (x, h, λ d. contains-with_common_name d x.subject_common_name x.dns_names)

    go : (o : Option Str) → IsNames o parse (names_in decode parse o)
    go none = tt
    go (some block) = known block (parse block) refl
