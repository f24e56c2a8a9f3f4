-- ===== src/Cert/Handshakes.antt =====
-- internal/cert/manager.go: the TLS handshakes that follow an upload.
use hermes_waf.Prelude.{
  ℕ, Str, bytes, ◌≡◌, ◌≢◌, ◌↔◌, refl, false, true, List, arith, eq_iff, eq_refl, ◌==◌, some,
}
use hermes_waf.Prelude.Dict.{lookup}
use hermes_waf.Prelude.Results.{Result, ok, err, returned}
use hermes_waf.Cert.{
  StoredCert, World, CertManager, CertError, find_cert_id, loaded, load_tls_cert, serve_id,
  server_name_of, get_certificate,
}
use hermes_waf.Cert.Upload.{add_uploaded_cert}
use hermes_waf.Cert.Indexed.{lists, IsUploaded, add_uploaded_cert-IsUploaded}

loaded-returned :
    (w : World) (sc : StoredCert) (r : Result Str w.Certificate) (c : w.Certificate)
    → (loaded w sc r ≡ returned c) ↔ (r ≡ ok c)
loaded-returned w sc (ok x) c = (λ e. cc, λ e. cc)
loaded-returned w sc (err x) c = (λ e. cc, λ e. cc)

module _ {w : World} where
  -- The manager has the certificate, and the name leads to it.
  abbrev IsAtHand : Str → StoredCert → CertManager w → Type 0
  IsAtHand name sc m = (lookup name m.domain_index ≡ some sc.id) × (lookup sc.id m.certs ≡ some sc)

  uploaded-IsAtHand :
      (name : Str) (sc : StoredCert) (m : CertManager w)
      (r : Result CertError StoredCert × CertManager w)
      → IsUploaded m r
      → r.0 ≡ ok sc
      → lists w.unicode name sc.domains ≡ true
      → IsAtHand name sc r.1
  uploaded-IsAtHand name sc m (err e, m') u p listed = cc
  uploaded-IsAtHand name sc m (ok x, m') (certs, domains) p listed =
      let same : x ≡ sc = cc in
      (rw (domains name, same, listed) refl, rw (certs sc.id, same, eq_refl sc.id) refl)

  get_certificate-loaded :
      (server_name : Str) (sc : StoredCert) (m : CertManager w)
      → server_name_of w server_name ≢ bytes ""
      → IsAtHand (server_name_of w server_name) sc m
      → get_certificate w server_name m
        ≡ loaded w sc (w.load_key_pair sc.cert_path sc.key_path m.files)
  unfolding get_certificate serve_id find_cert_id load_tls_cert
  get_certificate-loaded server_name sc m named (leads, there) =
      let name = server_name_of w server_name in
      let unnamed : (name == bytes "") ≡ false = ground (arith, eq_iff name (bytes ""), named) in
      rw (unnamed, leads, there) refl

  -- After an `AddUploadedCert` that succeeds, whatever the manager had before, `GetCertificate` for
  -- a server name that the stored certificate lists, in lower case and without the space around it,
  -- returns a certificate exactly when it is the one that is read from the stored certificate's
  -- files. The server name is not blank.
  pub get_certificate-add_uploaded_cert :
      (tenant_id : Str) (domains : List Str) (cert_pem key_pem : Str) (created : ℕ)
      (m : CertManager w) (sc : StoredCert) (server_name : Str) (c : w.Certificate)
      → (add_uploaded_cert w tenant_id domains cert_pem key_pem created m).0 ≡ ok sc
      → server_name_of w server_name ≢ bytes ""
      → lists w.unicode (server_name_of w server_name) sc.domains ≡ true
      → (get_certificate w server_name
            (add_uploaded_cert w tenant_id domains cert_pem key_pem created m).1
          ≡ returned c)
        ↔ (w.load_key_pair sc.cert_path sc.key_path
              (add_uploaded_cert w tenant_id domains cert_pem key_pem created m).1.files
            ≡ ok c)
  get_certificate-add_uploaded_cert tenant_id domains cert_pem key_pem created m sc server_name c
        stored named listed =
      let r = add_uploaded_cert w tenant_id domains cert_pem key_pem created m in
      let at_hand =
        uploaded-IsAtHand (server_name_of w server_name) sc m r
          (add_uploaded_cert-IsUploaded tenant_id domains cert_pem key_pem created m) stored
          listed in
      rw (get_certificate-loaded server_name sc r.1 named at_hand)
        (loaded-returned w sc (w.load_key_pair sc.cert_path sc.key_path r.1.files) c)
