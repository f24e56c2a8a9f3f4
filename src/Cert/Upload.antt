-- ===== src/Cert/Upload.antt =====
-- internal/cert/manager.go: `AddUploadedCert`.
use hermes_waf.Prelude.{
  ℕ, ◌-◌, Str, bytes, Bool, true, false, Option, none, some, List, [], ◌∷◌, ◌++◌, ◌==◌, ◌||◌, ltb,
  length, drop, if◌then◌else◌,
}
use hermes_waf.Prelude.Results.{Result, ok, err}
use hermes_waf.Text.{has_infix}
use hermes_waf.Cert.{
  CertSource, uploaded, letsencrypt, selfsigned, StoredCert, X509, World, CertManager, CertError,
  invalid_pair, parse_failed, mkdir_failed, key_failed, cert_failed, meta_failed, index,
}

-- `len(names) == 0 || (len(names) == 1 && names[0] == "")`
abbrev no_names : List Str → Bool
no_names [] = true
no_names (d ∷ []) = d == bytes ""
no_names (d ∷ e ∷ ds) = false

-- "Determine source"
unfoldable pub source_of : X509 → CertSource
source_of x =
    if x.issuer_common_name == bytes "R3" || has_infix x.issuer (bytes "Let's Encrypt")
    then letsencrypt
    else if no_names x.dns_names
    then (if x.issuer == x.subject then selfsigned else uploaded)
    else uploaded

abbrev pub last_twelve : Str → Str
last_twelve serial = if ltb 12 (length serial) then drop (length serial - 12) serial else serial

-- `generateCertID`
unfoldable pub generate_cert_id : Str → X509 → Str
generate_cert_id tenant_id x = tenant_id ++ (bytes "-" ++ last_twelve x.serial_number)

-- "If domains not provided, use SANs from cert"
abbrev pub or_names : List Str → List Str → List Str
or_names [] names = names
or_names (d ∷ ds) names = d ∷ ds

abbrev pub common_name : X509 → List Str
common_name x = if x.subject_common_name == bytes "" then [] else x.subject_common_name ∷ []

unfoldable pub domains_of : List Str → X509 → List Str
domains_of domains x = or_names (or_names domains x.dns_names) (common_name x)

module _ (w : World) where
  abbrev rename_after : Str → Str → Option Str × w.Files → Option Str × w.Files
  rename_after tmp path (some e, fs) = (some e, fs)
  rename_after tmp path (none, fs) = w.rename tmp path fs

  -- `atomicWrite`
  unfoldable pub atomic_write : Str → Str → w.Files → Option Str × w.Files
  atomic_write path text fs =
      let tmp = path ++ bytes ".tmp" in rename_after tmp path (w.write_file tmp text fs)

  abbrev write_encoded : Str → Result Str Str → w.Files → Option Str × w.Files
  write_encoded path (err e) fs = (some e, fs)
  write_encoded path (ok text) fs = atomic_write path text fs

  -- `writeMeta`
  unfoldable pub write_meta : StoredCert → w.Files → Option Str × w.Files
  write_meta sc fs = write_encoded (sc.cert_path ++ bytes ".json") (w.encode sc) fs

  -- The record that is stored; `created` is the reading of the clock.
  unfoldable pub stored_cert : Str → List Str → X509 → ℕ → Str → StoredCert
  stored_cert tenant_id domains x created data_dir =
      let dir = w.join_path data_dir tenant_id in
      let id = generate_cert_id tenant_id x in
      record {
        id = id;
        tenant_id = tenant_id;
        domains = domains_of domains x;
        source = source_of x;
        issuer = x.issuer_common_name;
        not_before = x.not_before;
        not_after = x.not_after;
        serial = x.serial_number;
        cert_path = w.join_path dir (id ++ bytes ".crt");
        key_path = w.join_path dir (id ++ bytes ".key");
        created_at = created;
        auto_renew = false;
      }

  -- After the metadata was written.
  unfoldable pub indexed :
      StoredCert
      → Option Str × w.Files
      → CertManager w
      → Result CertError StoredCert × CertManager w
  indexed sc (some e, fs) m =
      (err (meta_failed e), record m { files = w.remove sc.key_path (w.remove sc.cert_path fs) })
  indexed sc (none, fs) m = (ok sc, index w sc (record m { files = fs }))

  -- After the certificate was written.
  unfoldable pub add_meta :
      StoredCert
      → Option Str × w.Files
      → CertManager w
      → Result CertError StoredCert × CertManager w
  add_meta sc (some e, fs) m = (err (cert_failed e), record m { files = w.remove sc.key_path fs })
  add_meta sc (none, fs) m = indexed sc (write_meta sc fs) m

  -- After the key was written.
  unfoldable pub add_cert :
      StoredCert
      → Str
      → Option Str × w.Files
      → CertManager w
      → Result CertError StoredCert × CertManager w
  add_cert sc cert_pem (some e, fs) m = (err (key_failed e), record m { files = fs })
  add_cert sc cert_pem (none, fs) m = add_meta sc (atomic_write sc.cert_path cert_pem fs) m

  -- After the tenant's directory was made.
  unfoldable pub add_key :
      StoredCert
      → Str
      → Str
      → Option Str × w.Files
      → CertManager w
      → Result CertError StoredCert × CertManager w
  add_key sc cert_pem key_pem (some e, fs) m = (err (mkdir_failed e), record m { files = fs })
  add_key sc cert_pem key_pem (none, fs) m =
      add_cert sc cert_pem (atomic_write sc.key_path key_pem fs) m

  abbrev parsed_leaf : Result Str X509 → Result CertError X509
  parsed_leaf (err e) = err (parse_failed e)
  parsed_leaf (ok x) = ok x

  -- "Validate the cert/key pair"
  abbrev pub parse_first : Result Str Str → Result CertError X509
  parse_first (err e) = err (invalid_pair e)
  parse_first (ok der) = parsed_leaf (w.parse_certificate der)

  -- Once the pair was read.
  unfoldable pub add_parsed :
      Str
      → List Str
      → Str
      → Str
      → ℕ
      → Result CertError X509
      → CertManager w
      → Result CertError StoredCert × CertManager w
  add_parsed tenant_id domains cert_pem key_pem created (err e) m = (err e, m)
  add_parsed tenant_id domains cert_pem key_pem created (ok x) m =
      add_key (stored_cert tenant_id domains x created m.data_dir) cert_pem key_pem
        (w.mkdir_all (w.join_path m.data_dir tenant_id) m.files) m

  -- `AddUploadedCert`
  unfoldable pub add_uploaded_cert :
      Str → List Str → Str → Str → ℕ → CertManager w → Result CertError StoredCert × CertManager w
  unfolding add_parsed
  add_uploaded_cert tenant_id domains cert_pem key_pem created m =
      add_parsed tenant_id domains cert_pem key_pem created
        (parse_first (w.key_pair cert_pem key_pem)) m
