-- ===== src/Tests/Acmes.antt =====
-- The theorems about ACME at a small server: the challenge of "t" for a domain, where `Accept`
-- works on every second call.
use hermes_waf.Prelude.{
  true, ℕ, zero, suc, Str, bytes, ◌≡◌, ◌↔◌, refl, Option, none, some, [], ◌∷◌, ◌++◌,
}
use hermes_waf.Prelude.Dict.{lookup}
use hermes_waf.Prelude.Results.{ok, err}
use hermes_waf.Cert.Acme.{
  Acme, AcmeManager, Challenge, content, http_handler, challenge_path, answer_challenge,
  provision_cert,
}
use hermes_waf.Cert.Acme.Handler.{http_handler-content}
use hermes_waf.Cert.Acme.Challenges.{IsCleared, IsAnswered, answer_challenge-IsAnswered}
use hermes_waf.Cert.Acme.Provisioning.{IsIssued, provision_cert-IsIssued}
use hermes_waf.Cert.Acme.Checker.{tick, run_checker}
use hermes_waf.Cert.Acme.Renewal.{Reach, run_checker-Reach}
use hermes_waf.Tests.Certs.{world, empty}

abbrev on_even : ℕ → Option Str
on_even zero = none
on_even (suc zero) = some (bytes "refused")
on_even (suc (suc n)) = on_even n

abbrev challenge : Challenge
challenge = record { type = bytes "http-01"; token = bytes "t" }

abbrev server : Acme world
server = record {
  Net = ℕ;
  PrivateKey = Str;
  generate_key = λ n. (ok (bytes "key"), n);
  authorize_order =
      λ d n. (ok (record { authz_urls = bytes "a1" ∷ []; finalize_url = bytes "f1" }), n);
  get_authorization = λ u n. (ok (record { challenges = challenge ∷ [] }), n);
  http01_response = λ t. ok (bytes "t.key");
  accept = λ c h n. (on_even n, suc n);
  wait_authorization = λ u h n. (none, n);
  create_csr = λ d k n. (ok d, n);
  create_order_cert = λ u c n. (ok (bytes "der" ∷ []), n);
  marshal_key = λ k. ok k;
  encode_pem = λ t b. b;
  random_serial = λ n. (ok (bytes "1"), n);
  create_certificate = λ t k n. (ok t.common_name, n);
  cached = λ c s n. err s;
  letsencrypt_url = bytes "https://acme.example/directory";
}

abbrev manager : ℕ → AcmeManager world server
manager n = record {
  cache = record {
    prompt = true;
    cache_dir = bytes "acme-cache";
    email = bytes "a@acme.com";
    directory_url = bytes "https://acme.example/directory";
  };
  cert_manager = empty;
  email = bytes "a@acme.com";
  dir_url = bytes "https://acme.example/directory";
  data_dir = bytes "data";
  challenges = (bytes "u", bytes "u.key") ∷ [];
  net = n;
}

http_handler-content_example :
    (http_handler ((bytes "u", bytes "u.key") ∷ []) (bytes "/.well-known/acme-challenge/u")
      ≡ content (bytes "u.key"))
    ↔ ((token : Str) × (bytes "/.well-known/acme-challenge/u" ≡ challenge_path ++ token)
        × (lookup token ((bytes "u", bytes "u.key") ∷ []) ≡ some (bytes "u.key")))
http_handler-content_example =
    http_handler-content ((bytes "u", bytes "u.key") ∷ []) (bytes "/.well-known/acme-challenge/u")
      (bytes "u.key")

provision_cert-IsIssued_example :
    IsIssued
      (bytes "acme.com")
      (manager 0).cert_manager
      (provision_cert world server (bytes "acme.com") 5 (manager 0))
    × IsCleared
        (manager 0).challenges
        (provision_cert world server (bytes "acme.com") 5 (manager 0))
provision_cert-IsIssued_example = provision_cert-IsIssued (bytes "acme.com") 5 (manager 0)

answer_challenge-IsAnswered_example :
    IsAnswered
      (bytes "t")
      (bytes "t.key")
      (answer_challenge world server (bytes "a1") challenge (bytes "t.key") (manager 0))
answer_challenge-IsAnswered_example =
    answer_challenge-IsAnswered (bytes "a1") (bytes "t.key") challenge (manager 0)

-- A certificate is provisioned, and then the loop runs for two ticks.
provisioned : Reach (provision_cert world server (bytes "acme.com") 5 (manager 0)).1
provisioned = Reach.provisioning (bytes "acme.com") 5 (Reach.start refl)

run_checker-Reach_example :
    run_checker world server
      (tick 90 ∷ tick 180 ∷ [])
      (provision_cert world server (bytes "acme.com") 5 (manager 0)).1
    ≡ (provision_cert world server (bytes "acme.com") 5 (manager 0)).1
run_checker-Reach_example = run_checker-Reach provisioned (tick 90 ∷ tick 180 ∷ [])
