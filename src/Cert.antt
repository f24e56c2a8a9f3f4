-- ===== src/Cert.antt =====
-- internal/cert/manager.go: the certificate manager. Each method is a call at one moment. Files,
-- X.509, PEM and JSON are parameters: `World` has the calls of Go's library that the source makes.
-- Log lines are left out; a failed call's error is kept as its text.
pub mod Upload
pub mod Loading
pub mod Storing
pub mod Manual
pub mod Indexed
pub mod Serving
pub mod Handshakes
pub mod Starting
pub mod Acme
pub mod SelfSigned
pub mod PemDomains
use hermes_waf.Prelude.{
  ℕ, ◌+◌, Str, bytes, Bool, true, false, Option, none, some, List, [], ◌∷◌, ◌++◌, ◌==◌, ◌&&◌, ◌||◌,
  ltb, map, if◌then◌else◌,
}
use hermes_waf.Prelude.Dict.{Dict, lookup, insert, delete, values}
use hermes_waf.Prelude.Results.{Result, ok, err, Outcome, returned, failed, panicked}
use hermes_waf.Text.{Unicode, to_lower, trim_space, cut_at}

pub data CertSource : Type 0 where
  uploaded letsencrypt selfsigned : CertSource

pub record StoredCert : Type 0 where
  pub id : Str
  pub tenant_id : Str
  pub domains : List Str
  pub source : CertSource
  pub issuer : Str
  pub not_before : ℕ
  pub not_after : ℕ
  pub serial : Str
  pub cert_path : Str
  pub key_path : Str
  pub created_at : ℕ
  pub auto_renew : Bool

-- What the source reads from a `x509.Certificate`; `issuer` and `subject` are their `String()`.
pub record X509 : Type 0 where
  pub issuer : Str
  pub issuer_common_name : Str
  pub subject : Str
  pub subject_common_name : Str
  pub dns_names : List Str
  pub not_before : ℕ
  pub not_after : ℕ
  pub serial_number : Str

-- An entry of `os.ReadDir`.
pub record DirEntry : Type 0 where
  pub name : Str
  pub is_dir : Bool

-- A write returns its error, if any, and the files that it leaves.
pub record World : Type 1 where
  pub Files : Type 0
  pub Certificate : Type 0
  pub mkdir_all : Str → Files → Option Str × Files
  pub write_file : Str → Str → Files → Option Str × Files
  pub rename : Str → Str → Files → Option Str × Files
  pub remove : Str → Files → Files
  pub stat : Str → Files → Option Str
  pub read_dir : Str → Files → Result Str (List DirEntry)
  pub read_file : Str → Files → Result Str Str
  -- `filepath.Join` of two parts
  pub join_path : Str → Str → Str
  -- `tls.LoadX509KeyPair`
  pub load_key_pair : Str → Str → Files → Result Str Certificate
  -- `tls.X509KeyPair`: its `Certificate[0]`
  pub key_pair : Str → Str → Result Str Str
  -- `x509.ParseCertificate`
  pub parse_certificate : Str → Result Str X509
  -- `json.MarshalIndent` and `json.Unmarshal` into a zero `StoredCert`
  pub encode : StoredCert → Result Str Str
  pub decode : Str → Result Str StoredCert
  pub unicode : Unicode

pub data CertError : Type 0 where
  invalid_pair parse_failed mkdir_failed key_failed cert_failed meta_failed : Str → CertError
  cert_not_found : Str → Str → CertError
  load_failed : Str → Str → CertError
  no_certificates : CertError
  no_certificate_for : Str → CertError
  acme_failed : Str → CertError

pub record CertManager (w : World) : Type 0 where
  pub certs : Dict StoredCert
  pub domain_index : Dict Str
  pub data_dir : Str
  -- `GetCertificate` of the ACME manager, by server name, where there is one
  pub acme : Option (Str → Result Str w.Certificate)
  pub files : w.Files

-- `for _, d := range domains { m.domainIndex[strings.ToLower(d)] = id }`
unfoldable pub index_domains : Unicode → Str → List Str → Dict Str → Dict Str
index_domains u id [] m = m
index_domains u id (d ∷ ds) m = index_domains u id ds (insert (to_lower u d) id m)

abbrev pub points_to : Str → Option Str → Bool
points_to id none = false
points_to id (some i) = i == id

-- "Remove from index"
unfoldable pub unindex_domains : Unicode → Str → List Str → Dict Str → Dict Str
unindex_domains u id [] m = m
unindex_domains u id (d ∷ ds) m =
    unindex_domains u id ds
      (if points_to id (lookup (to_lower u d) m) then delete (to_lower u d) m else m)

-- "*.example.com" for "foo.example.com": the first dot is not the first byte.
abbrev sni_wildcard_of_cut : Option (Str × Str) → Option Str
sni_wildcard_of_cut none = none
sni_wildcard_of_cut (some ([], rest)) = none
sni_wildcard_of_cut (some (c ∷ s, rest)) = some (bytes "*" ++ rest)

unfoldable pub sni_wildcard : Str → Option Str
unfolding cut_at
sni_wildcard name = sni_wildcard_of_cut (cut_at b'.' name)

abbrev pub lookup_wildcard : Option Str → Dict Str → Option Str
lookup_wildcard none m = none
lookup_wildcard (some d) m = lookup d m

-- The ID that the index has for a server name or for its wildcard.
abbrev first_found : Option Str → Option Str → Option Str
first_found (some id) o = some id
first_found none o = o

unfoldable pub find_cert_id : Str → Dict Str → Option Str
find_cert_id name m = first_found (lookup name m) (lookup_wildcard (sni_wildcard name) m)

abbrev pub owned_by : Str → Option StoredCert → Option StoredCert
owned_by tenant_id none = none
owned_by tenant_id (some sc) = if sc.tenant_id == tenant_id then some sc else none

unfoldable pub select : (StoredCert → Bool) → List StoredCert → List StoredCert
select p [] = []
select p (sc ∷ scs) = let rest = select p scs in if p sc then sc ∷ rest else rest

module _ (w : World) where
  -- `index`
  unfoldable pub index : StoredCert → CertManager w → CertManager w
  index sc m = record m {
    certs = insert sc.id sc m.certs;
    domain_index = index_domains w.unicode sc.id sc.domains m.domain_index;
  }

  abbrev pub loaded : StoredCert → Result Str w.Certificate → Outcome CertError w.Certificate
  loaded sc (ok c) = returned c
  loaded sc (err e) = failed (load_failed sc.id e)

  -- `loadTLSCert`; a `nil` certificate is dereferenced
  unfoldable pub load_tls_cert : Option StoredCert → CertManager w → Outcome CertError w.Certificate
  load_tls_cert none m = panicked
  load_tls_cert (some sc) m = loaded sc (w.load_key_pair sc.cert_path sc.key_path m.files)

  abbrev pub from_acme : Result Str w.Certificate → Outcome CertError w.Certificate
  from_acme (ok c) = returned c
  from_acme (err e) = failed (acme_failed e)

  -- "Fall back to ACME auto-cert if configured"
  abbrev pub fall_back :
      Str → Str → Option (Str → Result Str w.Certificate) → Outcome CertError w.Certificate
  fall_back server_name name none = failed (no_certificate_for name)
  fall_back server_name name (some f) = from_acme (f server_name)

  unfoldable pub serve_id : Str → Str → Option Str → CertManager w → Outcome CertError w.Certificate
  serve_id server_name name (some id) m = load_tls_cert (lookup id m.certs) m
  serve_id server_name name none m = fall_back server_name name m.acme

  -- "Fall back to first available cert": the representation's first, where Go's order is random
  unfoldable pub serve_any : List StoredCert → CertManager w → Outcome CertError w.Certificate
  serve_any [] m = failed no_certificates
  serve_any (sc ∷ scs) m = load_tls_cert (some sc) m

  abbrev pub server_name_of : Str → Str
  server_name_of server_name = to_lower w.unicode (trim_space w.unicode server_name)

  -- `GetCertificate`
  unfoldable pub get_certificate : Str → CertManager w → Outcome CertError w.Certificate
  get_certificate server_name m =
      let name = server_name_of server_name in
      if name == bytes ""
      then serve_any (values m.certs) m
      else serve_id server_name name (find_cert_id name m.domain_index) m

  abbrev cert_found : Str → Str → Option StoredCert → Result CertError StoredCert
  cert_found tenant_id cert_id none = err (cert_not_found cert_id tenant_id)
  cert_found tenant_id cert_id (some sc) = ok sc

  -- `GetCert`
  unfoldable pub get_cert : Str → Str → CertManager w → Result CertError StoredCert
  get_cert tenant_id cert_id m =
      cert_found tenant_id cert_id (owned_by tenant_id (lookup cert_id m.certs))

  -- `ListCerts`, in the representation's order
  unfoldable pub list_certs : Str → CertManager w → List StoredCert
  list_certs tenant_id m = select (λ sc. sc.tenant_id == tenant_id) (values m.certs)

  -- `ExpiringSoon` at the time `now`
  unfoldable pub expiring_soon : ℕ → ℕ → CertManager w → List StoredCert
  expiring_soon within now m =
      select (λ sc. sc.auto_renew && ltb sc.not_after (now + within)) (values m.certs)

  -- "Remove files"
  abbrev pub remove_files : StoredCert → w.Files → w.Files
  remove_files sc fs =
      w.remove (sc.cert_path ++ bytes ".json") (w.remove sc.key_path (w.remove sc.cert_path fs))

  unfoldable pub delete_found :
      Str → Str → Option StoredCert → CertManager w → Option CertError × CertManager w
  delete_found tenant_id cert_id none m = (some (cert_not_found cert_id tenant_id), m)
  delete_found tenant_id cert_id (some sc) m = (
    none,
    record m {
      certs = delete cert_id m.certs;
      domain_index = unindex_domains w.unicode cert_id sc.domains m.domain_index;
      files = remove_files sc m.files;
    },
  )

  -- `DeleteCert`
  unfoldable pub delete_cert : Str → Str → CertManager w → Option CertError × CertManager w
  unfolding delete_found
  delete_cert tenant_id cert_id m =
      delete_found tenant_id cert_id (owned_by tenant_id (lookup cert_id m.certs)) m

  -- `SetACMEManager`
  unfoldable pub set_acme_manager :
      Option (Str → Result Str w.Certificate) → CertManager w → CertManager w
  set_acme_manager acme m = record m { acme = acme }
