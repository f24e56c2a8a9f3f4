-- ===== src/Cert/Acme/Provisioning.antt =====
-- internal/cert/acme.go: what `provisionCert` leaves in the certificate manager and of the
-- challenges.
use mathlib.Core.Path.{subst}
use hermes_waf.Prelude.{
  ℕ, Str, bytes, ◌≡◌, refl, ap, ◌∙◌, false, Option, none, some, List, [], ◌∷◌, eq_refl,
}
use hermes_waf.Prelude.Dict.{lookup, insert}
use hermes_waf.Prelude.Results.{Result, ok, err}
use hermes_waf.Prelude.Actions.{and_then}
use hermes_waf.Text.{to_lower}
use hermes_waf.Cert.{StoredCert, World, CertManager, CertError}
use hermes_waf.Cert.Upload.{add_uploaded_cert, stored_cert, domains_of}
use hermes_waf.Cert.Storing.{IsStoring, add_uploaded_cert-IsStoring}
use hermes_waf.Cert.Indexed.{lookup-index_domains, lists}
use hermes_waf.Cert.Acme.{
  Acme, AcmeManager, AcmeError, Order, Answer, Challenge, while_served, put_challenge,
  drop_challenge, Do, on_net, lift, challenge_or_fail, answer_challenge, authorize, authorize_all,
  store_cert, stored, finalize, provision_cert,
}
use hermes_waf.Cert.Acme.Challenges.{IsCleared, provision_cert-IsCleared}

-- A certificate of the tenant "acme" for one domain, which is not marked for renewal.
abbrev pub IsFor : Str → StoredCert → Type 0
IsFor domain sc =
    (sc.tenant_id ≡ bytes "acme") × (sc.domains ≡ domain ∷ []) × (sc.auto_renew ≡ false)

module _ {w : World} {a : Acme w} where
  -- The manager before and after: a new certificate that the domain leads to, or no change.
  abbrev pub IsIssued :
      {A : Type 0} → Str → CertManager w → Result AcmeError A × AcmeManager w a → Type 0
  IsIssued domain m (ok x, am) =
      (sc : StoredCert) × IsFor domain sc
      × (am.cert_manager.certs ≡ insert sc.id sc m.certs)
      × (lookup (to_lower w.unicode domain) am.cert_manager.domain_index ≡ some sc.id)
  IsIssued domain m (err e, am) =
      (am.cert_manager.certs ≡ m.certs) × (am.cert_manager.domain_index ≡ m.domain_index)

  record Keeps {A : Type 0} (f : Do w a A) : Type 0 where
    kept : (am : AcmeManager w a) → (f am).1.cert_manager ≡ am.cert_manager

  record Issues (domain : Str) {A : Type 0} (f : Do w a A) : Type 0 where
    issued : (am : AcmeManager w a) → IsIssued domain am.cert_manager (f am)

  kept-and_then :
      {A B : Type 0} (m : CertManager w) (r : Result AcmeError A × AcmeManager w a)
      (f : A → Do w a B)
      → r.1.cert_manager ≡ m
      → ((x : A) → Keeps (f x))
      → (and_then r f).1.cert_manager ≡ m
  kept-and_then m (ok x, am) f h q = (q x).kept am ∙ h
  kept-and_then m (err e, am) f h q = h

  and_then-Keeps :
      {A B : Type 0} {m : Do w a A} {f : A → Do w a B}
      → Keeps m
      → ((x : A) → Keeps (f x))
      → Keeps (λ am. and_then (m am) f)
  and_then-Keeps {m} {f} p q = record {
    kept = λ am. kept-and_then am.cert_manager (m am) f (p.kept am) q;
  }

  IsIssued-and_then :
      {A B : Type 0} (domain : Str) (m : CertManager w) (r : Result AcmeError A × AcmeManager w a)
      (f : A → Do w a B)
      → r.1.cert_manager ≡ m
      → ((x : A) → Issues domain (f x))
      → IsIssued domain m (and_then r f)
  IsIssued-and_then domain m (ok x, am) f h q =
      subst (λ c. IsIssued domain c (f x am)) h ((q x).issued am)
  IsIssued-and_then domain m (err e, am) f h q = (ap (λ c. c.certs) h, ap (λ c. c.domain_index) h)

  and_then-Issues :
      {A B : Type 0} {domain : Str} {m : Do w a A} {f : A → Do w a B}
      → Keeps m
      → ((x : A) → Issues domain (f x))
      → Issues domain (λ am. and_then (m am) f)
  and_then-Issues {domain} {m} {f} p q = record {
    issued = λ am. IsIssued-and_then domain am.cert_manager (m am) f (p.kept am) q;
  }

  on_net-Keeps :
      {A : Type 0} (text : Str) (f : a.Net → Result Str A × a.Net) → Keeps (on_net w a text f)
  unfolding on_net
  on_net-Keeps text f = record { kept = λ am. refl }

  lift-Keeps : {A : Type 0} (text : Str) (r : Result Str A) → Keeps (lift w a text r)
  unfolding lift
  lift-Keeps text r = record { kept = λ am. refl }

  while_served-Keeps :
      (text : Str) (f : (Str → Answer) → a.Net → Option Str × a.Net)
      → Keeps (while_served w a text f)
  unfolding while_served
  while_served-Keeps text f = record { kept = λ am. refl }

  put_challenge-Keeps : (token key_auth : Str) → Keeps (put_challenge w a token key_auth)
  unfolding put_challenge
  put_challenge-Keeps token key_auth = record { kept = λ am. refl }

  drop_challenge-Keeps : (token : Str) → Keeps (drop_challenge w a token)
  unfolding drop_challenge
  drop_challenge-Keeps token = record { kept = λ am. refl }

  found-Keeps : (o : Option Challenge) → Keeps (challenge_or_fail w a o)
  unfolding challenge_or_fail
  found-Keeps none = record { kept = λ am. refl }
  found-Keeps (some c) = record { kept = λ am. refl }

  ruleset keeping = (
    and_then-Keeps, on_net-Keeps, lift-Keeps, while_served-Keeps, put_challenge-Keeps,
    drop_challenge-Keeps, found-Keeps,
  )

  answer_challenge-Keeps :
      (url : Str) (c : Challenge) (key_auth : Str) → Keeps (answer_challenge w a url c key_auth)
  unfolding answer_challenge
  answer_challenge-Keeps url c key_auth = search keeping

  authorize-Keeps : (url : Str) → Keeps (authorize w a url)
  unfolding authorize
  authorize-Keeps url = search (keeping, answer_challenge-Keeps)

  authorize_all-Keeps : (urls : List Str) → Keeps (authorize_all w a urls)
  unfolding authorize_all
  authorize_all-Keeps [] = record { kept = λ am. refl }
  authorize_all-Keeps (url ∷ urls) =
      and_then-Keeps (authorize-Keeps url) (λ _. authorize_all-Keeps urls)

  IsIssued-IsStoring :
      (domain : Str) (am : AcmeManager w a) (r : Result CertError StoredCert × CertManager w)
      → IsStoring (IsFor domain) am.cert_manager r
      → IsIssued domain am.cert_manager (stored w a r.0, record am { cert_manager = r.1 })
  unfolding lists
  IsIssued-IsStoring domain am (err e, m) p = p
  IsIssued-IsStoring domain am (ok sc, m) ((owner, names, manual), certs, index) =
      let key = to_lower w.unicode domain in
      (
        sc,
        (owner, names, manual),
        certs,
        rw
            (
              index,
              lookup-index_domains key w.unicode sc.id sc.domains am.cert_manager.domain_index,
              names,
              eq_refl key,
            )
            refl,
      )

  store_cert-Issues :
      (domain cert_pem key_pem : Str) (created : ℕ)
      → Issues domain (store_cert w a domain cert_pem key_pem created)
  unfolding store_cert stored_cert domains_of
  store_cert-Issues domain cert_pem key_pem created = record {
    issued = λ am.
        IsIssued-IsStoring domain am
          (add_uploaded_cert w (bytes "acme") (domain ∷ []) cert_pem key_pem created
            am.cert_manager)
          (add_uploaded_cert-IsStoring (IsFor domain) (bytes "acme") (domain ∷ []) cert_pem key_pem
            created am.cert_manager (λ x. (refl, refl, refl)));
  }

  finalize-Issues :
      (domain : Str) (created : ℕ) (order : Order) (key : a.PrivateKey)
      → Issues domain (finalize w a domain created order key)
  unfolding finalize
  finalize-Issues domain created order key = search (and_then-Issues, keeping, store_cert-Issues)

  provisioned : (domain : Str) (created : ℕ) → Issues domain (provision_cert w a domain created)
  unfolding provision_cert
  provisioned domain created =
      search (and_then-Issues, keeping, authorize_all-Keeps, finalize-Issues)

  -- `provisionCert`: when it succeeds, the manager has stored a certificate of the tenant "acme" for
  -- this domain alone, not marked for renewal, the domain in lower case leads to it, and a token reads
  -- as before or has no challenge any more. When it fails, at whichever step, the certificates and the index are as
  -- before, and what is said of the tokens holds of every token but one, whose challenge it may leave.
  pub provision_cert-IsIssued :
      (domain : Str) (created : ℕ) (am : AcmeManager w a)
      → IsIssued domain am.cert_manager (provision_cert w a domain created am)
        × IsCleared am.challenges (provision_cert w a domain created am)
  provision_cert-IsIssued domain created am =
      ((provisioned domain created).issued am, provision_cert-IsCleared domain created am)
