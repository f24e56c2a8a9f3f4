-- ===== src/Cert/Storing.antt =====
-- internal/cert/manager.go: what `AddUploadedCert` leaves of the two maps, step by step.
use hermes_waf.Prelude.{ℕ, Str, ◌≡◌, refl, Option, none, some, List}
use hermes_waf.Prelude.Dict.{insert}
use hermes_waf.Prelude.Results.{Result, ok, err}
use hermes_waf.Cert.{StoredCert, X509, World, CertManager, CertError, index_domains, index}
use hermes_waf.Cert.Upload.{
  indexed, add_meta, add_cert, add_key, parse_first, add_parsed, add_uploaded_cert, write_meta,
  atomic_write, stored_cert,
}

module _ {w : World} (P : StoredCert → Type 0) where
  -- A certificate with `P` is put into both maps, or both stay.
  abbrev pub IsStoring : CertManager w → Result CertError StoredCert × CertManager w → Type 0
  IsStoring m (err e, m') = (m'.certs ≡ m.certs) × (m'.domain_index ≡ m.domain_index)
  IsStoring m (ok sc, m') =
      P sc
      × (m'.certs ≡ insert sc.id sc m.certs)
      × (m'.domain_index ≡ index_domains w.unicode sc.id sc.domains m.domain_index)

  indexed-IsStoring :
      (sc : StoredCert) (r : Option Str × w.Files) (m : CertManager w)
      → P sc
      → IsStoring m (indexed w sc r m)
  unfolding indexed index
  indexed-IsStoring sc (some e, fs) m p = (refl, refl)
  indexed-IsStoring sc (none, fs) m p = (p, refl, refl)

  add_meta-IsStoring :
      (sc : StoredCert) (r : Option Str × w.Files) (m : CertManager w)
      → P sc
      → IsStoring m (add_meta w sc r m)
  unfolding add_meta
  add_meta-IsStoring sc (some e, fs) m p = (refl, refl)
  add_meta-IsStoring sc (none, fs) m p = indexed-IsStoring sc (write_meta w sc fs) m p

  add_cert-IsStoring :
      (sc : StoredCert) (pem : Str) (r : Option Str × w.Files) (m : CertManager w)
      → P sc
      → IsStoring m (add_cert w sc pem r m)
  unfolding add_cert
  add_cert-IsStoring sc pem (some e, fs) m p = (refl, refl)
  add_cert-IsStoring sc pem (none, fs) m p =
      add_meta-IsStoring sc (atomic_write w sc.cert_path pem fs) m p

  add_key-IsStoring :
      (sc : StoredCert) (pem key : Str) (r : Option Str × w.Files) (m : CertManager w)
      → P sc
      → IsStoring m (add_key w sc pem key r m)
  unfolding add_key
  add_key-IsStoring sc pem key (some e, fs) m p = (refl, refl)
  add_key-IsStoring sc pem key (none, fs) m p =
      add_cert-IsStoring sc pem (atomic_write w sc.key_path key fs) m p

  pub add_uploaded_cert-IsStoring :
      (tenant_id : Str) (domains : List Str) (cert_pem key_pem : Str) (created : ℕ)
      (m : CertManager w)
      → ((x : X509) → P (stored_cert w tenant_id domains x created m.data_dir))
      → IsStoring m (add_uploaded_cert w tenant_id domains cert_pem key_pem created m)
  unfolding add_uploaded_cert add_parsed
  add_uploaded_cert-IsStoring tenant_id domains cert_pem key_pem created m h =
      go (parse_first w (w.key_pair cert_pem key_pem))
    where
      go :
          (r : Result CertError X509)
          → IsStoring m (add_parsed w tenant_id domains cert_pem key_pem created r m)
      go (err e) = (refl, refl)
      go (ok x) =
          add_key-IsStoring (stored_cert w tenant_id domains x created m.data_dir) cert_pem key_pem
            (w.mkdir_all (w.join_path m.data_dir tenant_id) m.files) m (h x)
