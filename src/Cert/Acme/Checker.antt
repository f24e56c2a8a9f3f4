-- ===== src/Cert/Acme/Checker.antt =====
-- internal/cert/acme.go: `checkAndRenew`, and the loop of `StartRenewalChecker`.
use hermes_waf.Prelude.{ℕ, ◌*◌, Str, Bool, true, false, List, [], ◌∷◌, if◌then◌else◌}
use hermes_waf.Cert.{
  CertSource, letsencrypt, uploaded, selfsigned, StoredCert, World, expiring_soon,
}
use hermes_waf.Cert.Acme.{Acme, AcmeManager, provision_cert}

abbrev is_letsencrypt : CertSource → Bool
is_letsencrypt letsencrypt = true
is_letsencrypt uploaded = false
is_letsencrypt selfsigned = false

-- `30 * 24 * time.Hour`, in nanoseconds
abbrev pub renewal_window : ℕ
renewal_window = 30 * 24 * 3600 * 1000000000

module _ (w : World) (a : Acme w) where
  -- The loop over the domains of a certificate; an error is only logged.
  unfoldable pub renew_domains : List Str → ℕ → AcmeManager w a → AcmeManager w a
  renew_domains [] created am = am
  renew_domains (d ∷ ds) created am = renew_domains ds created (provision_cert w a d created am).1

  -- The loop over the expiring certificates.
  unfoldable pub renew_certs : List StoredCert → ℕ → AcmeManager w a → AcmeManager w a
  renew_certs [] created am = am
  renew_certs (sc ∷ scs) created am =
      renew_certs scs created
        (if is_letsencrypt sc.source then renew_domains sc.domains created am else am)

  -- `checkAndRenew` at the time `now`; without an expiring certificate the loop has no round
  unfoldable pub check_and_renew : ℕ → AcmeManager w a → AcmeManager w a
  check_and_renew now am = renew_certs (expiring_soon w renewal_window now am.cert_manager) now am

-- A turn of the `select` in `StartRenewalChecker`: a tick at a time, or the context's end.
pub data Event : Type 0 where
  tick : ℕ → Event
  cancelled : Event

-- The loop of `StartRenewalChecker`, over the events that it waits for.
unfoldable pub run_checker :
    (w : World) (a : Acme w) → List Event → AcmeManager w a → AcmeManager w a
run_checker w a [] am = am
run_checker w a (cancelled ∷ es) am = am
run_checker w a (tick now ∷ es) am = run_checker w a es (check_and_renew w a now am)
