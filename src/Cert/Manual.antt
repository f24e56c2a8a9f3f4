-- ===== src/Cert/Manual.antt =====
-- internal/cert/manager.go: `AddUploadedCert` and `DeleteCert` never leave a certificate to be
-- renewed.
use hermes_waf.Prelude.{
  ℕ, Str, ◌≡◌, refl, false, Option, none, some, List, [], ◌∷◌, ◌==◌, ◌&&◌, arith, Bool-cases, inl,
  inr, ltb,
}
use hermes_waf.Prelude.Dict.{Dict, lookup, insert, delete, values}
use hermes_waf.Prelude.Results.{Result, ok, err}
use hermes_waf.Cert.{
  StoredCert, World, CertManager, CertError, owned_by, select, delete_found, delete_cert,
}
use hermes_waf.Cert.Upload.{add_uploaded_cert, stored_cert}
use hermes_waf.Cert.Storing.{IsStoring, add_uploaded_cert-IsStoring}

-- No certificate is to be renewed.
unfoldable pub AllManual : Dict StoredCert → Type 0
AllManual [] = Unit {0}
AllManual ((j, sc) ∷ m) = (sc.auto_renew ≡ false) × AllManual m

pub insert-AllManual :
    (id : Str) (sc : StoredCert) (m : Dict StoredCert)
    → sc.auto_renew ≡ false
    → AllManual m
    → AllManual (insert id sc m)
unfolding AllManual insert
insert-AllManual id sc [] e h = (e, tt)
insert-AllManual id sc ((j, sc') ∷ m) e (p, h) = elim (Bool-cases (j == id)) [
  | inl same ↦ rw same (e, h)
  | inr other ↦ rw other (p, insert-AllManual id sc m e h)
]

delete-AllManual : (id : Str) (m : Dict StoredCert) → AllManual m → AllManual (delete id m)
unfolding AllManual delete
delete-AllManual id [] h = tt
delete-AllManual id ((j, sc) ∷ m) (p, h) = elim (Bool-cases (j == id)) [
  | inl same ↦ rw same (delete-AllManual id m h)
  | inr other ↦ rw other (p, delete-AllManual id m h)
]

pub select-AllManual :
    (limit : ℕ) (m : Dict StoredCert)
    → AllManual m
    → select (λ sc. sc.auto_renew && ltb sc.not_after limit) (values m) ≡ []
unfolding AllManual select
select-AllManual limit [] h = refl
select-AllManual limit ((j, sc) ∷ m) (p, h) = ground (arith, select-AllManual limit m h)

module _ {w : World} where
  AllManual-IsStoring :
      (m : CertManager w) (r : Result CertError StoredCert × CertManager w)
      → AllManual m.certs
      → IsStoring (λ sc. sc.auto_renew ≡ false) m r
      → AllManual r.1.certs
  AllManual-IsStoring m (err e, m') h (p, q) = rw p h
  AllManual-IsStoring m (ok sc, m') h (e, p, q) = rw p (insert-AllManual sc.id sc m.certs e h)

  pub add_uploaded_cert-AllManual :
      (tenant_id : Str) (domains : List Str) (cert_pem key_pem : Str) (created : ℕ)
      (m : CertManager w)
      → AllManual m.certs
      → AllManual (add_uploaded_cert w tenant_id domains cert_pem key_pem created m).1.certs
  unfolding stored_cert
  add_uploaded_cert-AllManual tenant_id domains cert_pem key_pem created m h =
      AllManual-IsStoring m (add_uploaded_cert w tenant_id domains cert_pem key_pem created m) h (
        add_uploaded_cert-IsStoring (λ sc. sc.auto_renew ≡ false) tenant_id domains cert_pem key_pem
          created m (λ x. refl))

  pub delete_cert-AllManual :
      (tenant_id id : Str) (m : CertManager w)
      → AllManual m.certs
      → AllManual (delete_cert w tenant_id id m).1.certs
  unfolding delete_cert delete_found
  delete_cert-AllManual tenant_id id m h = go (owned_by tenant_id (lookup id m.certs))
    where
      go : (o : Option StoredCert) → AllManual (delete_found w tenant_id id o m).1.certs
      go none = h
      go (some sc) = delete-AllManual id m.certs h
