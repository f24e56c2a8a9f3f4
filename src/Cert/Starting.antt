-- ===== src/Cert/Starting.antt =====
-- internal/cert/manager.go: what `NewManager` finds on disk, and that no handshake panics after it.
use hermes_waf.Prelude.{
  Str, bytes, ◌≡◌, ◌≢◌, refl, inl, inr, true, false, Option, none, some, List, [], ◌∷◌, arith, ◌==◌,
  eq_iff, Bool-cases, Option-cases, ◌||◌, Bool, not, if◌then◌else◌,
}
use hermes_waf.Prelude.Dict.{Dict, lookup, values, is_some, lookup-insert}
use hermes_waf.Prelude.Results.{Result, ok, err, panicked}
use hermes_waf.Text.{ends_with}
use hermes_waf.Cert.{
  StoredCert, World, CertManager, DirEntry, sni_wildcard, find_cert_id, index, load_tls_cert,
  loaded, fall_back, from_acme, serve_id, serve_any, server_name_of, get_certificate,
}
use hermes_waf.Cert.Indexed.{lookup-index_domains}
use hermes_waf.Cert.Loading.{
  read_meta, index_read, load_files, load_dir, load_entries, load_listed, load_from_disk, opened,
  new_cert_manager,
}

-- Every domain in the index leads to a certificate that is there.
record IsHeld (certs : Dict StoredCert) (domains : Dict Str) : Type 0 where
  held : (d id : Str) → lookup d domains ≡ some id → (sc : StoredCert) × (lookup id certs ≡ some sc)

module _ (w : World) where
  loaded-ne-panicked : (sc : StoredCert) (r : Result Str w.Certificate) → loaded w sc r ≢ panicked
  loaded-ne-panicked sc (ok c) = λ e. cc
  loaded-ne-panicked sc (err e) = λ e. cc

  load_tls_cert-ne-panicked :
      (o : Option StoredCert) (sc : StoredCert) (m : CertManager w)
      → o ≡ some sc
      → load_tls_cert w o m ≢ panicked
  unfolding load_tls_cert
  load_tls_cert-ne-panicked o sc m e =
      rw e (loaded-ne-panicked sc (w.load_key_pair sc.cert_path sc.key_path m.files))

  fall_back-ne-panicked :
      (s name : Str) (a : Option (Str → Result Str w.Certificate)) → fall_back w s name a ≢ panicked
  fall_back-ne-panicked s name none = λ e. cc
  fall_back-ne-panicked s name (some f) = go (f s)
    where
      go : (r : Result Str w.Certificate) → from_acme w r ≢ panicked
      go (ok c) = λ e. cc
      go (err e) = λ e. cc

  serve_any-ne-panicked : (scs : List StoredCert) (m : CertManager w) → serve_any w scs m ≢ panicked
  unfolding serve_any
  serve_any-ne-panicked [] m = λ e. cc
  serve_any-ne-panicked (sc ∷ scs) m = load_tls_cert-ne-panicked (some sc) sc m refl

  abbrev Holds : CertManager w → Type 0
  Holds m = IsHeld m.certs m.domain_index

  found-there :
      (name id : Str) (m : CertManager w)
      → Holds m
      → find_cert_id name m.domain_index ≡ some id
      → (sc : StoredCert) × (lookup id m.certs ≡ some sc)
  unfolding find_cert_id
  found-there name id m h e = elim (Option-cases (lookup name m.domain_index)) [
    | inr (i, p) ↦ h.held name id (ground (arith, p))
    | inl p ↦ elim (Option-cases (sni_wildcard name)) [
      | inr (d, q) ↦ h.held d id (ground (arith, p, q))
      | inl q ↦ absurd (ground (arith, p, q))
    ]
  ]

  serve_id-ne-panicked :
      (s name : Str) (o : Option Str) (m : CertManager w)
      → Holds m
      → find_cert_id name m.domain_index ≡ o
      → serve_id w s name o m ≢ panicked
  unfolding serve_id
  serve_id-ne-panicked s name none m h e = fall_back-ne-panicked s name m.acme
  serve_id-ne-panicked s name (some id) m h e =
      let (sc, there) = found-there name id m h e in
      load_tls_cert-ne-panicked (lookup id m.certs) sc m there

  get_certificate-Holds :
      (server_name : Str) (m : CertManager w) → Holds m → get_certificate w server_name m ≢ panicked
  unfolding get_certificate
  get_certificate-Holds server_name m h =
      let name = server_name_of w server_name in
      let any = serve_any-ne-panicked (values m.certs) m in
      let one = serve_id-ne-panicked server_name name (find_cert_id name m.domain_index) m h refl in
      elim (Bool-cases (name == bytes "")) [ inl e ↦ rw e any | inr e ↦ rw e one ]

  -- Whatever the new certificate lists and whomever it replaces.
  index-Holds : (sc : StoredCert) (m : CertManager w) → Holds m → Holds (index w sc m)
  unfolding index
  index-Holds sc m h = record {
    held = λ d id e. elim (Bool-cases (sc.id == id)) [
      | inl same ↦ (sc, ground (arith, lookup-insert id sc.id sc m.certs))
      | inr other ↦
          let was : lookup d m.domain_index ≡ some id = ground (
            arith,
            lookup-index_domains d w.unicode sc.id sc.domains m.domain_index,
            eq_iff sc.id id,
          ) in
          let (old, there) = h.held d id was in
          (old, ground (arith, lookup-insert id sc.id sc m.certs, there))
    ];
  }

  index_read-Holds :
      (r : Result Str StoredCert) (m : CertManager w) → Holds m → Holds (index_read w r m)
  index_read-Holds (err e) m h = h
  index_read-Holds (ok sc) m h =
      elim (Bool-cases
        (is_some (w.stat sc.cert_path m.files) || is_some (w.stat sc.key_path m.files))) [
          | inl gone ↦ rw gone h
          | inr there ↦ rw there (index-Holds sc m h)
        ]

  either-Holds :
      (b : Bool) (m m' : CertManager w) → Holds m → Holds m' → Holds (if b then m else m')
  either-Holds true m m' h h' = h
  either-Holds false m m' h h' = h'

  load_files-Holds :
      (dir : Str) (fs : List DirEntry) (m : CertManager w) → Holds m → Holds (load_files w dir fs m)
  unfolding load_files
  load_files-Holds dir [] m h = h
  load_files-Holds dir (f ∷ fs) m h =
      let r = read_meta w (w.join_path dir f.name) m.files in
      load_files-Holds dir fs (if ends_with f.name (bytes ".json") then index_read w r m else m) (
        either-Holds (ends_with f.name (bytes ".json")) (index_read w r m) m
          (index_read-Holds r m h) h)

  load_dir-Holds :
      (dir : Str) (r : Result Str (List DirEntry)) (m : CertManager w)
      → Holds m
      → Holds (load_dir w dir r m)
  load_dir-Holds dir (err e) m h = h
  load_dir-Holds dir (ok fs) m h = load_files-Holds dir fs m h

  load_entries-Holds :
      (es : List DirEntry) (m : CertManager w) → Holds m → Holds (load_entries w es m)
  unfolding load_entries
  load_entries-Holds [] m h = h
  load_entries-Holds (e ∷ es) m h =
      let dir = w.join_path m.data_dir e.name in
      let r = w.read_dir dir m.files in
      load_entries-Holds es (if not e.is_dir then m else load_dir w dir r m)
        (either-Holds (not e.is_dir) m (load_dir w dir r m) h (load_dir-Holds dir r m h))

  load_listed-Holds :
      (r : Result Str (List DirEntry)) (m : CertManager w) → Holds m → Holds (load_listed w r m).1
  load_listed-Holds (err e) m h = h
  load_listed-Holds (ok es) m h = load_entries-Holds es m h

  load_from_disk-Holds : (m : CertManager w) → Holds m → Holds (load_from_disk w m).1
  unfolding load_from_disk
  load_from_disk-Holds m h = load_listed-Holds (w.read_dir m.data_dir m.files) m h

  opened-Holds :
      (dir : Str) (r : Option Str × w.Files) (m : CertManager w) → opened w dir r ≡ ok m → Holds m
  unfolding lookup
  opened-Holds dir (some x, fs) m e = cc
  opened-Holds dir (none, fs) m e =
      let start : CertManager w = record {
        certs = [];
        domain_index = [];
        data_dir = dir;
        acme = none;
        files = fs;
      } in
      let read : (load_from_disk w start).1 ≡ m = cc in
      rw (← read) (load_from_disk-Holds start (record { held = λ d id p. cc }))

  -- Whatever `NewManager` finds on disk, records that repeat an ID or a domain included: no handshake
  -- panics in the manager that it makes.
  pub new_cert_manager-ne-panicked :
      (data_dir : Str) (fs : w.Files) (m : CertManager w)
      → new_cert_manager w data_dir fs ≡ ok m
      → (server_name : Str) → get_certificate w server_name m ≢ panicked
  unfolding new_cert_manager
  new_cert_manager-ne-panicked data_dir fs m e server_name =
      let dir = w.join_path data_dir (bytes "certs") in
      get_certificate-Holds server_name m (opened-Holds dir (w.mkdir_all dir fs) m e)
