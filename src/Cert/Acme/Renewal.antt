-- ===== src/Cert/Acme/Renewal.antt =====
-- internal/cert/acme.go: `checkAndRenew` and the loop around it, over what `AddUploadedCert`
-- stores.
use hermes_waf.Prelude.{ℕ, Str, ◌≡◌, refl, List, [], ◌∷◌, ◌+◌}
use hermes_waf.Prelude.Results.{Result, ok, err}
use hermes_waf.Cert.{CertManager, World, expiring_soon, delete_cert}
use hermes_waf.Cert.Upload.{add_uploaded_cert}
use hermes_waf.Cert.Acme.{Acme, AcmeManager, AcmeError, provision_cert}
use hermes_waf.Cert.Acme.Checker.{
  renewal_window, renew_certs, check_and_renew, Event, tick, cancelled, run_checker,
}
use hermes_waf.Cert.Acme.Provisioning.{IsIssued, provision_cert-IsIssued}
use hermes_waf.Cert.Manual.{
  AllManual, insert-AllManual, select-AllManual, add_uploaded_cert-AllManual, delete_cert-AllManual,
}

module _ {w : World} {a : Acme w} where
  IsIssued-AllManual :
      (domain : Str) (m : CertManager w) (r : Result AcmeError (Unit {0}) × AcmeManager w a)
      → AllManual m.certs
      → IsIssued domain m r
      → AllManual r.1.cert_manager.certs
  IsIssued-AllManual domain m (err e, am) h (p, q) = rw p h
  IsIssued-AllManual domain m (ok x, am) h (sc, (_, _, manual), p, q) =
      rw p (insert-AllManual sc.id sc m.certs manual h)

  -- The states that the program reaches from a manager without certificates.
  pub data Reach : AcmeManager w a → Type 0 where
    start : {am : AcmeManager w a} → am.cert_manager.certs ≡ [] → Reach am
    upload :
        {am : AcmeManager w a} (tenant_id : Str) (domains : List Str) (cert_pem key_pem : Str)
        (created : ℕ)
        → Reach am
        → Reach (record am {
          cert_manager =
              (add_uploaded_cert w tenant_id domains cert_pem key_pem created am.cert_manager).1;
        })
    removal :
        {am : AcmeManager w a} (tenant_id id : Str)
        → Reach am
        → Reach (record am { cert_manager = (delete_cert w tenant_id id am.cert_manager).1 })
    provisioning :
        {am : AcmeManager w a} (domain : Str) (created : ℕ)
        → Reach am
        → Reach (provision_cert w a domain created am).1
    events : {am : AcmeManager w a} (es : List Event) → Reach am → Reach (run_checker w a es am)

  check_and_renew-AllManual :
      (now : ℕ) (am : AcmeManager w a)
      → AllManual am.cert_manager.certs
      → check_and_renew w a now am ≡ am
  unfolding check_and_renew expiring_soon renew_certs
  check_and_renew-AllManual now am h =
      rw (select-AllManual (now + renewal_window) am.cert_manager.certs h) refl

  run_checker-AllManual :
      (es : List Event) (am : AcmeManager w a)
      → AllManual am.cert_manager.certs
      → run_checker w a es am ≡ am
  unfolding run_checker
  run_checker-AllManual [] am h = refl
  run_checker-AllManual (cancelled ∷ es) am h = refl
  run_checker-AllManual (tick now ∷ es) am h =
      rw (check_and_renew-AllManual now am h) (run_checker-AllManual es am h)

  Reach-AllManual : {am : AcmeManager w a} → Reach am → AllManual am.cert_manager.certs
  unfolding AllManual
  Reach-AllManual {am} (start e) = rw e tt
  Reach-AllManual (upload {am} tenant_id domains cert_pem key_pem created r) =
      add_uploaded_cert-AllManual tenant_id domains cert_pem key_pem created am.cert_manager
        (Reach-AllManual r)
  Reach-AllManual (removal {am} tenant_id id r) =
      delete_cert-AllManual tenant_id id am.cert_manager (Reach-AllManual r)
  Reach-AllManual (provisioning {am} domain created r) =
      IsIssued-AllManual domain am.cert_manager (provision_cert w a domain created am)
        (Reach-AllManual r) (provision_cert-IsIssued domain created am).0
  Reach-AllManual (events {am} es r) =
      rw (run_checker-AllManual es am (Reach-AllManual r)) (Reach-AllManual r)

  -- In every state that uploads, deletions, provisioned domains and the renewal loop reach from a
  -- manager without certificates, the renewal loop changes nothing, whatever it waits for: it
  -- renews no certificate, those of Let's Encrypt included.
  pub run_checker-Reach :
      {am : AcmeManager w a} → Reach am → (es : List Event) → run_checker w a es am ≡ am
  run_checker-Reach {am} r es = run_checker-AllManual es am (Reach-AllManual r)
