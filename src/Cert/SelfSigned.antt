-- ===== src/Cert/SelfSigned.antt =====
-- internal/cert/acme.go: `GenerateSelfSignedCert`. Go's library for keys and certificates is that
-- of `Acme`; `serial` is a text, and what is the same in every template is left out.
use hermes_waf.Prelude.{ℕ, ◌+◌, Str, bytes, ◌≡◌, refl, List, [], ◌∷◌}
use hermes_waf.Prelude.Results.{Result, ok, err, Outcome, returned, failed, panicked}
use hermes_waf.Cert.{World}
use hermes_waf.Cert.Acme.{Acme, Template, AcmeError, step_failed, one_year}

abbrev pub template_of : Str → ℕ → ℕ → Str → List Str → Template
template_of serial now later domain domains = record {
  serial_number = serial;
  organization = bytes "Vinahost WAF Test";
  common_name = domain;
  not_before = now;
  not_after = later + one_year;
  dns_names = domains;
}

module _ (w : World) (a : Acme w) where
  abbrev pub Made : Type 0
  Made = Outcome AcmeError (Str × Str) × a.Net

  abbrev marshalled : Str → Result Str Str → a.Net → Made
  marshalled der (err e) n = (failed (step_failed (bytes "failed to marshal key") e), n)
  marshalled der (ok key_bytes) n = (
    returned
        (a.encode_pem (bytes "CERTIFICATE") der, a.encode_pem (bytes "EC PRIVATE KEY") key_bytes),
    n,
  )

  abbrev created : a.PrivateKey → Result Str Str × a.Net → Made
  created key (err e, n) = (failed (step_failed (bytes "failed to create certificate") e), n)
  created key (ok der, n) = marshalled der (a.marshal_key key) n

  -- The template and what follows; `domains[0]` of no domain is a panic.
  abbrev with_serial : ℕ → ℕ → List Str → a.PrivateKey → Result Str Str × a.Net → Made
  with_serial now later domains key (err e, n) =
      (failed (step_failed (bytes "failed to generate serial") e), n)
  with_serial now later [] key (ok serial, n) = (panicked, n)
  with_serial now later (d ∷ ds) key (ok serial, n) =
      created key (a.create_certificate (template_of serial now later d (d ∷ ds)) key n)

  abbrev with_key : ℕ → ℕ → List Str → Result Str a.PrivateKey × a.Net → Made
  with_key now later domains (err e, n) =
      (failed (step_failed (bytes "failed to generate key") e), n)
  with_key now later domains (ok key, n) = with_serial now later domains key (a.random_serial n)

  -- `GenerateSelfSignedCert` with the two readings of the clock
  unfoldable pub generate_self_signed_cert : ℕ → ℕ → List Str → a.Net → Made
  generate_self_signed_cert now later domains n = with_key now later domains (a.generate_key n)

  -- A text is a certificate and its key for a template.
  abbrev pub IsPairFor : Template → Str × Str → Type 0
  IsPairFor t (cert_pem, key_pem) =
      (n : a.Net) × (key : a.PrivateKey) × (der : Str) × (key_bytes : Str) × ((a.create_certificate
          t key n).0
        ≡ ok der)
      × (a.marshal_key key ≡ ok key_bytes)
      × (cert_pem ≡ a.encode_pem (bytes "CERTIFICATE") der)
      × (key_pem ≡ a.encode_pem (bytes "EC PRIVATE KEY") key_bytes)

  -- One of the four calls fails.
  pub data Fails (t : Str → Template) (cause : Str) : Type 0 where
    key_fails : (n : a.Net) → (a.generate_key n).0 ≡ err cause → Fails t cause
    serial_fails : (n : a.Net) → (a.random_serial n).0 ≡ err cause → Fails t cause
    creation_fails :
        (serial : Str) (key : a.PrivateKey) (n : a.Net)
        → (a.create_certificate (t serial) key n).0 ≡ err cause
        → Fails t cause
    marshal_fails : (key : a.PrivateKey) → a.marshal_key key ≡ err cause → Fails t cause

  abbrev first_of : List Str → Str
  first_of [] = []
  first_of (d ∷ ds) = d

  -- The result: a pair for the given domains, all of them its names; the error of a call; a panic
  -- only without a domain.
  abbrev pub IsGenerated : ℕ → ℕ → List Str → Outcome AcmeError (Str × Str) → Type 0
  IsGenerated now later domains (returned pair) =
      (serial : Str) × (d : Str) × (ds : List Str) × (domains ≡ d ∷ ds)
      × IsPairFor (template_of serial now later d domains) pair
  IsGenerated now later domains (failed e) =
      (text : Str) × (cause : Str) × (e ≡ step_failed text cause)
      × Fails (λ serial. template_of serial now later (first_of domains) domains) cause
  IsGenerated now later domains panicked = domains ≡ []

  marshalled-IsGenerated :
      (now later : ℕ) (d : Str) (ds : List Str) (serial der : Str) (key : a.PrivateKey)
      (n n' : a.Net) (r : Result Str Str)
      → (a.create_certificate (template_of serial now later d (d ∷ ds)) key n).0 ≡ ok der
      → a.marshal_key key ≡ r
      → IsGenerated now later (d ∷ ds) (marshalled der r n').0
  marshalled-IsGenerated now later d ds serial der key n n' (err e) h k =
      (bytes "failed to marshal key", e, refl, marshal_fails key k)
  marshalled-IsGenerated now later d ds serial der key n n' (ok key_bytes) h k =
      (serial, d, ds, refl, (n, key, der, key_bytes, h, k, refl, refl))

  created-IsGenerated :
      (now later : ℕ) (d : Str) (ds : List Str) (serial : Str) (key : a.PrivateKey) (n : a.Net)
      (r : Result Str Str × a.Net)
      → (a.create_certificate (template_of serial now later d (d ∷ ds)) key n).0 ≡ r.0
      → IsGenerated now later (d ∷ ds) (created key r).0
  created-IsGenerated now later d ds serial key n (err e, n') h =
      (bytes "failed to create certificate", e, refl, creation_fails serial key n h)
  created-IsGenerated now later d ds serial key n (ok der, n') h =
      marshalled-IsGenerated now later d ds serial der key n n' (a.marshal_key key) h refl

  serial-IsGenerated :
      (now later : ℕ) (domains : List Str) (key : a.PrivateKey) (n : a.Net)
      (r : Result Str Str × a.Net)
      → (a.random_serial n).0 ≡ r.0
      → IsGenerated now later domains (with_serial now later domains key r).0
  serial-IsGenerated now later domains key n (err e, n') h =
      (bytes "failed to generate serial", e, refl, serial_fails n h)
  serial-IsGenerated now later [] key n (ok serial, n') h = refl
  serial-IsGenerated now later (d ∷ ds) key n (ok serial, n') h =
      created-IsGenerated now later d ds serial key n'
        (a.create_certificate (template_of serial now later d (d ∷ ds)) key n') refl

  -- `GenerateSelfSignedCert` panics only without a domain, and fails only with the error of one of
  -- its calls. What it returns is a certificate and its key, made for a template whose common name is
  -- the first domain and whose names are all domains, valid from the first reading of the clock until a year after the second.
  pub generate_self_signed_cert-IsGenerated :
      (now later : ℕ) (domains : List Str) (n : a.Net)
      → IsGenerated now later domains (generate_self_signed_cert now later domains n).0
  unfolding generate_self_signed_cert
  generate_self_signed_cert-IsGenerated now later domains n = go (a.generate_key n) refl
    where
      go :
          (r : Result Str a.PrivateKey × a.Net)
          → (a.generate_key n).0 ≡ r.0
          → IsGenerated now later domains (with_key now later domains r).0
      go (err e, n') h = (bytes "failed to generate key", e, refl, key_fails n h)
      go (ok key, n') h = serial-IsGenerated now later domains key n' (a.random_serial n') refl
