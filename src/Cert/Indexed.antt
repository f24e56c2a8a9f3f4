-- ===== src/Cert/Indexed.antt =====
-- internal/cert/manager.go: the index from domains to certificates: what an upload and a deletion
-- do to it.
use hermes_waf.Prelude.{
  ℕ, Str, ◌≡◌, ◌≢◌, refl, Bool, true, false, Option, none, some, List, [], ◌∷◌, arith, ◌==◌, ◌||◌,
  ◌&&◌, eq_iff, eq_refl, if◌then◌else◌, Bool-cases, inl, inr,
}
use hermes_waf.Prelude.Dict.{Dict, lookup, insert, delete, lookup-insert, lookup-delete}
use hermes_waf.Prelude.Results.{Result, ok, err}
use hermes_waf.Text.{Unicode, to_lower}
use hermes_waf.Cert.{
  StoredCert, World, CertManager, CertError, cert_not_found, remove_files, index_domains,
  unindex_domains, points_to, owned_by, delete_found, delete_cert,
}
use hermes_waf.Cert.Upload.{add_uploaded_cert}
use hermes_waf.Cert.Storing.{IsStoring, add_uploaded_cert-IsStoring}

-- `d` is one of the domains in lower case.
unfoldable pub lists : Unicode → Str → List Str → Bool
lists u d [] = false
lists u d (e ∷ es) = to_lower u e == d || lists u d es

pub lookup-index_domains :
    (j : Str) (u : Unicode) (id : Str) (ds : List Str) (m : Dict Str)
    → lookup j (index_domains u id ds m) ≡ (if lists u j ds then some id else lookup j m)
unfolding index_domains lists
lookup-index_domains j u id [] m = refl
lookup-index_domains j u id (d ∷ ds) m = ground (
  arith,
  lookup-index_domains j u id ds (insert (to_lower u d) id m),
  lookup-insert j (to_lower u d) id m,
)

lookup-unindex_step :
    (j k id : Str) (m : Dict Str)
    → lookup j (if points_to id (lookup k m) then delete k m else m)
      ≡ (if (k == j) && points_to id (lookup j m) then none else lookup j m)
lookup-unindex_step j k id m = ground (arith, lookup-delete j k m, eq_iff k j)

pub lookup-unindex_domains :
    (j : Str) (u : Unicode) (id : Str) (ds : List Str) (m : Dict Str)
    → lookup j (unindex_domains u id ds m)
      ≡ (if lists u j ds && points_to id (lookup j m) then none else lookup j m)
unfolding unindex_domains lists
lookup-unindex_domains j u id [] m = refl
lookup-unindex_domains j u id (d ∷ ds) m =
    let k = to_lower u d in
    let m' = if points_to id (lookup k m) then delete k m else m in
    ground (arith, lookup-unindex_domains j u id ds m', lookup-unindex_step j k id m)

-- Every domain in the index leads to a certificate that lists it.
pub record IsIndexed (u : Unicode) (certs : Dict StoredCert) (domains : Dict Str) : Type 0 where
  pub covered :
      (d id : Str)
      → lookup d domains ≡ some id
      → (sc : StoredCert) × (lookup id certs ≡ some sc) × (lists u d sc.domains ≡ true)

module _ {w : World} where
  abbrev pub IsSound : CertManager w → Type 0
  IsSound m = IsIndexed w.unicode m.certs m.domain_index

  -- What reading the maps shows after an upload.
  abbrev pub IsUploaded : CertManager w → Result CertError StoredCert × CertManager w → Type 0
  IsUploaded m (err e, m') = (m'.certs ≡ m.certs) × (m'.domain_index ≡ m.domain_index)
  IsUploaded m (ok sc, m') =
      ((j : Str) → lookup j m'.certs ≡ (if sc.id == j then some sc else lookup j m.certs))
      × ((d : Str)
          → lookup d m'.domain_index
            ≡ (if lists w.unicode d sc.domains then some sc.id else lookup d m.domain_index))

  IsUploaded-IsStoring :
      (m : CertManager w) (r : Result CertError StoredCert × CertManager w)
      → IsStoring (λ sc. Unit {0}) m r
      → IsUploaded m r
  IsUploaded-IsStoring m (err e, m') p = p
  IsUploaded-IsStoring m (ok sc, m') (_, p, q) = (
    λ j. rw p (lookup-insert j sc.id sc m.certs),
    λ d. rw q (lookup-index_domains d w.unicode sc.id sc.domains m.domain_index),
  )

  -- `AddUploadedCert`: when it returns a certificate, that is under its ID and each of its domains,
  -- in lower case, leads to it, while the other IDs and domains read as before. When it fails, at
  -- whichever step, no certificate and no domain has changed.
  pub add_uploaded_cert-IsUploaded :
      (tenant_id : Str) (domains : List Str) (cert_pem key_pem : Str) (created : ℕ)
      (m : CertManager w)
      → IsUploaded m (add_uploaded_cert w tenant_id domains cert_pem key_pem created m)
  add_uploaded_cert-IsUploaded tenant_id domains cert_pem key_pem created m =
      IsUploaded-IsStoring m (add_uploaded_cert w tenant_id domains cert_pem key_pem created m) (
        add_uploaded_cert-IsStoring (λ sc. Unit {0}) tenant_id domains cert_pem key_pem created m
          (λ x. tt))

  -- A certificate that takes an ID over lists all that the old one lists.
  abbrev pub Extends : CertManager w → StoredCert → Type 0
  Extends m sc =
      (old : StoredCert) (d : Str)
      → lookup sc.id m.certs ≡ some old
      → lists w.unicode d old.domains ≡ true
      → lists w.unicode d sc.domains ≡ true

  IsSound-IsUploaded :
      (m : CertManager w) (r : Result CertError StoredCert × CertManager w)
      → IsSound m
      → IsUploaded m r
      → ((sc : StoredCert) → r.0 ≡ ok sc → Extends m sc)
      → IsSound r.1
  IsSound-IsUploaded m (err e, m') h (p, q) k = rw (p, q) h
  IsSound-IsUploaded m (ok sc, m') h (p, q) k = record {
    covered = λ d id e. elim (Bool-cases (lists w.unicode d sc.domains)) [
      | inl listed ↦
          let same : sc.id ≡ id = ground (arith, q d) in (sc, rw (p, ← same, eq_refl), listed)
      | inr unlisted ↦
          let (old, there, was) = h.covered d id (ground (arith, q d)) in
          elim (Bool-cases (sc.id == id)) [
            | inl same ↦ (sc, rw (p, same), k sc refl old d (ground (arith, eq_iff sc.id id)) was)
            | inr other ↦ (old, rw (p, other, there), was)
          ]
    ];
  }

  -- Every domain in the index still leads to a certificate that lists it after `AddUploadedCert`,
  -- whatever it returns, if a stored certificate that takes an ID over lists every domain of the
  -- one before it.
  pub add_uploaded_cert-IsSound :
      (tenant_id : Str) (domains : List Str) (cert_pem key_pem : Str) (created : ℕ)
      (m : CertManager w)
      → IsSound m
      → ((sc : StoredCert)
          → (add_uploaded_cert w tenant_id domains cert_pem key_pem created m).0 ≡ ok sc
          → Extends m sc)
      → IsSound (add_uploaded_cert w tenant_id domains cert_pem key_pem created m).1
  add_uploaded_cert-IsSound tenant_id domains cert_pem key_pem created m h k =
      IsSound-IsUploaded m (add_uploaded_cert w tenant_id domains cert_pem key_pem created m) h
        (add_uploaded_cert-IsUploaded tenant_id domains cert_pem key_pem created m) k

  -- All that leads to a certificate is in its own list.
  lookup-unindex_all :
      (id : Str) (sc : StoredCert) (m : CertManager w)
      → IsSound m
      → lookup id m.certs ≡ some sc
      → (d : Str) (o : Option Str) → lookup d m.domain_index ≡ o
      → lookup d (unindex_domains w.unicode id sc.domains m.domain_index)
        ≡ (if points_to id (lookup d m.domain_index) then none else lookup d m.domain_index)
  lookup-unindex_all id sc m h e d none k =
      ground (arith, lookup-unindex_domains d w.unicode id sc.domains m.domain_index)
  lookup-unindex_all id sc m h e d (some i) k =
      let (sc', there, listed) = h.covered d i k in
      let same : i ≡ id → lists w.unicode d sc.domains ≡ true = λ p. cc in
      ground
        (arith, lookup-unindex_domains d w.unicode id sc.domains m.domain_index, eq_iff i id, same)

  -- What reading the maps shows after a deletion, and for whom a certificate is deleted.
  abbrev pub IsDeleted : Str → Str → CertManager w → Option CertError × CertManager w → Type 0
  IsDeleted tenant_id id m (some e, m') =
      ((sc : StoredCert) → lookup id m.certs ≡ some sc → sc.tenant_id ≢ tenant_id)
      × (e ≡ cert_not_found id tenant_id)
      × (m' ≡ m)
  IsDeleted tenant_id id m (none, m') =
      ((sc : StoredCert) × (lookup id m.certs ≡ some sc)
        × (sc.tenant_id ≡ tenant_id)
        × (m'.files ≡ remove_files w sc m.files))
      × ((j : Str) → lookup j m'.certs ≡ (if id == j then none else lookup j m.certs))
      × ((d : Str)
          → lookup d m'.domain_index
            ≡ (if points_to id (lookup d m.domain_index) then none else lookup d m.domain_index))

  IsSound-IsDeleted :
      (tenant_id id : Str) (m : CertManager w) (r : Option CertError × CertManager w)
      → IsSound m
      → IsDeleted tenant_id id m r
      → IsSound r.1
  IsSound-IsDeleted tenant_id id m (some e, m') h (_, _, p) = rw p h
  IsSound-IsDeleted tenant_id id m (none, m') h (_, p, q) = record {
    covered = λ d i e.
        let (sc, there, listed) = h.covered d i (ground (arith, q d)) in
        (sc, ground (arith, p i, q d, eq_iff id i, eq_iff i id), listed);
  }

  -- `DeleteCert` fails only if the tenant has no certificate of that ID: it returns that the
  -- certificate was not found, and changes nothing. When it returns no error, the tenant had the
  -- certificate, its files are removed, it is gone and no domain leads to it, while the other IDs
  -- and domains read as before. Every domain in the index led to a certificate that lists it.
  pub delete_cert-IsDeleted :
      (tenant_id id : Str) (m : CertManager w)
      → IsSound m
      → IsDeleted tenant_id id m (delete_cert w tenant_id id m)
  unfolding delete_cert delete_found
  delete_cert-IsDeleted tenant_id id m h = go (lookup id m.certs) refl
    where
      go :
          (o : Option StoredCert)
          → lookup id m.certs ≡ o
          → IsDeleted tenant_id id m (delete_found w tenant_id id (owned_by tenant_id o) m)
      go none e = (λ sc there. cc, refl, refl)
      go (some sc) e = elim (Bool-cases (sc.tenant_id == tenant_id)) [
        | inr foreign ↦
            rw foreign (λ sc' there own. ground (arith, eq_iff sc.tenant_id tenant_id), refl, refl)
        | inl own ↦ rw own (
          (sc, e, (eq_iff sc.tenant_id tenant_id).0 own, refl),
          λ j. lookup-delete j id m.certs,
          λ d. lookup-unindex_all id sc m h e d (lookup d m.domain_index) refl,
        )
      ]

  -- Every domain in the index still leads to a certificate that lists it after `DeleteCert`,
  -- whatever it returns.
  pub delete_cert-IsSound :
      (tenant_id id : Str) (m : CertManager w)
      → IsSound m
      → IsSound (delete_cert w tenant_id id m).1
  delete_cert-IsSound tenant_id id m h =
      IsSound-IsDeleted tenant_id id m (delete_cert w tenant_id id m) h
        (delete_cert-IsDeleted tenant_id id m h)
