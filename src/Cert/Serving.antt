-- ===== src/Cert/Serving.antt =====
-- Which certificate a TLS handshake is served.
use hermes_waf.Prelude.{
  Str, bytes, ◌≡◌, ◌≢◌, refl, ◌⊎◌, ◌↔◌, inl, inr, true, false, Option, none, some, arith, eq_iff,
  eq_refl, ◌==◌, Option-cases,
}
use hermes_waf.Prelude.Dict.{lookup, lookup-insert, lookup-delete}
use hermes_waf.Prelude.Results.{Result, ok, err, returned, panicked}
use hermes_waf.Cert.{
  StoredCert, World, CertManager, sni_wildcard, find_cert_id, index, delete_cert, delete_found,
  load_tls_cert, loaded, fall_back, serve_id, server_name_of, get_certificate,
}
use hermes_waf.Cert.Indexed.{lists, IsSound, lookup-index_domains, lookup-unindex_domains}

-- A domain stands for a server name: it is the name, or the wildcard of the name.
abbrev pub StandsFor : Str → Str → Type 0
StandsFor d name = (d ≡ name) ⊎ (sni_wildcard name ≡ some d)

module _ (w : World) where
  -- The certificate that the index has for a name.
  abbrev pub IsCovered : Str → Str → CertManager w → Type 0
  IsCovered name id m =
      (sc : StoredCert) × (d : Str) × (lookup id m.certs ≡ some sc)
      × StandsFor d name
      × (lists w.unicode d sc.domains ≡ true)

  IsCovered-find_cert_id :
      (name id : Str) (m : CertManager w)
      → IsSound m
      → find_cert_id name m.domain_index ≡ some id
      → IsCovered name id m
  unfolding find_cert_id
  IsCovered-find_cert_id name id m h e = elim (Option-cases (lookup name m.domain_index)) [
    | inr (i, p) ↦
        let (sc, there, listed) = h.covered name id (ground (arith, p)) in
        (sc, name, there, inl refl, listed)
    | inl p ↦ elim (Option-cases (sni_wildcard name)) [
      | inr (d, q) ↦
          let (sc, there, listed) = h.covered d id (ground (arith, p, q)) in
          (sc, d, there, inr q, listed)
      | inl q ↦ absurd (ground (arith, p, q))
    ]
  ]

  loaded-returned :
      (sc : StoredCert) (r : Result Str w.Certificate) (c : w.Certificate)
      → loaded w sc r ≡ returned c
      → r ≡ ok c
  loaded-returned sc (ok x) c e = ground arith
  loaded-returned sc (err x) c e = cc

  load_tls_cert-returned :
      (o : Option StoredCert) (sc : StoredCert) (m : CertManager w) (c : w.Certificate)
      → o ≡ some sc
      → load_tls_cert w o m ≡ returned c
      → w.load_key_pair sc.cert_path sc.key_path m.files ≡ ok c
  unfolding load_tls_cert
  load_tls_cert-returned none sc m c p e = cc
  load_tls_cert-returned (some x) sc m c p e =
      let same : sc ≡ x = cc in
      rw same (loaded-returned x (w.load_key_pair x.cert_path x.key_path m.files) c e)

  no_fall_back :
      (s name : Str) (a : Option (Str → Result Str w.Certificate)) (c : w.Certificate)
      → a ≡ none
      → fall_back w s name a ≢ returned c
  no_fall_back s name none c off = λ e. cc
  no_fall_back s name (some f) c off = λ e. cc

  -- The index leads from the name to the ID: by the name, or, only if the name is not in it, by the
  -- name's wildcard.
  abbrev pub LeadsTo : Str → Str → CertManager w → Type 0
  LeadsTo name id m =
      (lookup name m.domain_index ≡ some id)
      ⊎ ((lookup name m.domain_index ≡ none)
          × ((d : Str) × (sni_wildcard name ≡ some d) × (lookup d m.domain_index ≡ some id)))

  -- The certificate is the file of the one that the manager has under the ID, which lists the name
  -- or its wildcard.
  abbrev pub IsStored : Str → w.Certificate → CertManager w → Type 0
  IsStored name c m =
      (id : Str) × (sc : StoredCert) × (d : Str) × LeadsTo name id m
      × (lookup id m.certs ≡ some sc)
      × StandsFor d name
      × (lists w.unicode d sc.domains ≡ true)
      × (w.load_key_pair sc.cert_path sc.key_path m.files ≡ ok c)

  LeadsTo-find_cert_id :
      (name id : Str) (m : CertManager w)
      → find_cert_id name m.domain_index ≡ some id
      → LeadsTo name id m
  unfolding find_cert_id
  LeadsTo-find_cert_id name id m e = elim (Option-cases (lookup name m.domain_index)) [
    | inr (i, p) ↦ inl (ground (arith, p))
    | inl p ↦ elim (Option-cases (sni_wildcard name)) [
      | inr (d, q) ↦ inr (p, (d, q, ground (arith, p, q)))
      | inl q ↦ absurd (ground (arith, p, q))
    ]
  ]

  find_cert_id-of_LeadsTo :
      (name id : Str) (m : CertManager w)
      → LeadsTo name id m
      → find_cert_id name m.domain_index ≡ some id
  unfolding find_cert_id
  find_cert_id-of_LeadsTo name id m (inl p) = rw p
  find_cert_id-of_LeadsTo name id m (inr (p, (d, q, r))) = rw (p, q, r)

  returned-of_IsStored :
      (server_name : Str) (m : CertManager w) (c : w.Certificate)
      → server_name_of w server_name ≢ bytes ""
      → IsStored (server_name_of w server_name) c m
      → get_certificate w server_name m ≡ returned c
  unfolding get_certificate serve_id load_tls_cert
  returned-of_IsStored server_name m c named (id, sc, d, leads, there, stands, listed, file) =
      let name = server_name_of w server_name in
      let unnamed : (name == bytes "") ≡ false = ground (arith, eq_iff name (bytes ""), named) in
      rw (unnamed, find_cert_id-of_LeadsTo name id m leads, there, file) refl

  -- Without ACME, `GetCertificate` for a server name that is not blank returns a certificate
  -- exactly when the index leads from the name, in lower case and without the space around it, to
  -- the ID of a stored certificate whose files are read as that certificate: by the name itself,
  -- or, if the name is not in the index, by its wildcard. The stored certificate lists the name or
  -- the wildcard. Every domain in the index leads to a certificate that lists it.
  pub get_certificate-IsStored :
      (server_name : Str) (m : CertManager w) (c : w.Certificate)
      → IsSound m
      → m.acme ≡ none
      → server_name_of w server_name ≢ bytes ""
      → (get_certificate w server_name m ≡ returned c) ↔ IsStored (server_name_of w server_name) c m
  unfolding get_certificate serve_id
  get_certificate-IsStored server_name m c h off named =
      let name = server_name_of w server_name in
      (
        λ e.
            go (find_cert_id name m.domain_index) refl
              (ground (arith, eq_iff name (bytes ""), named, e)),
        returned-of_IsStored server_name m c named,
      )
    where
      go :
          (o : Option Str)
          → find_cert_id (server_name_of w server_name) m.domain_index ≡ o
          → serve_id w server_name (server_name_of w server_name) o m ≡ returned c
          → IsStored (server_name_of w server_name) c m
      go none p q = absurd (no_fall_back server_name (server_name_of w server_name) m.acme c off q)
      go (some id) p q =
          let (sc, d, there, stands, listed) =
            IsCovered-find_cert_id (server_name_of w server_name) id m h p in
          let served = load_tls_cert-returned (lookup id m.certs) sc m c there q in
          let leads = LeadsTo-find_cert_id (server_name_of w server_name) id m p in
          (id, sc, d, leads, there, stands, listed, served)

  -- A dangling ID is dereferenced.
  dangling-panicked :
      (server_name id : Str) (m : CertManager w)
      → server_name_of w server_name ≢ bytes ""
      → lookup (server_name_of w server_name) m.domain_index ≡ some id
      → lookup id m.certs ≡ none
      → get_certificate w server_name m ≡ panicked
  unfolding get_certificate serve_id load_tls_cert find_cert_id
  dangling-panicked server_name id m named p q =
      let name = server_name_of w server_name in ground (arith, eq_iff name (bytes ""), named, p, q)

  -- Deleting a certificate that has just been indexed, and a domain that it does not list.
  dangling-delete_cert :
      (name : Str) (sc : StoredCert) (m : CertManager w)
      → lookup name m.domain_index ≡ some sc.id
      → lists w.unicode name sc.domains ≡ false
      → (lookup name (delete_cert w sc.tenant_id sc.id (index w sc m)).1.domain_index ≡ some sc.id)
        × (lookup sc.id (delete_cert w sc.tenant_id sc.id (index w sc m)).1.certs ≡ none)
  unfolding delete_cert delete_found index
  dangling-delete_cert name sc m old dropped =
      rw
        (
          lookup-insert,
          eq_refl sc.id,
          eq_refl sc.tenant_id,
          lookup-unindex_domains,
          lookup-index_domains,
          lookup-delete,
          dropped,
          old,
          eq_refl sc.id,
        )
        (refl, refl)

  -- A certificate that takes the ID of another over without listing one of the old domains leaves
  -- that domain in the index: once the certificate is deleted, `GetCertificate` for the domain
  -- panics.
  pub get_certificate-panicked :
      (server_name : Str) (sc : StoredCert) (m : CertManager w)
      → server_name_of w server_name ≢ bytes ""
      → lookup (server_name_of w server_name) m.domain_index ≡ some sc.id
      → lists w.unicode (server_name_of w server_name) sc.domains ≡ false
      → get_certificate w server_name (delete_cert w sc.tenant_id sc.id (index w sc m)).1 ≡ panicked
  get_certificate-panicked server_name sc m named old dropped =
      let (stays, gone) = dangling-delete_cert (server_name_of w server_name) sc m old dropped in
      dangling-panicked server_name sc.id (delete_cert w sc.tenant_id sc.id (index w sc m)).1 named
        stays gone
