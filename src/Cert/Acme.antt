-- ===== src/Cert/Acme.antt =====
-- internal/cert/acme.go: certificates from an ACME server. `Acme` stands for the calls of the
-- packages acme and autocert, and of Go's library for keys, requests and PEM. The server may ask
-- for a challenge by HTTP while `Accept` and `WaitAuthorization` run, so these are given the
-- answers of the handler. Log lines are left out; a goroutine that provisions is a call of
-- `provision_cert`.
pub mod Challenges
pub mod Renewal
pub mod Handler
pub mod Checker
pub mod Provisioning
use hermes_waf.Prelude.{
  ℕ, ◌*◌, Str, bytes, Bool, true, false, not, Option, none, some, List, [], ◌∷◌, ◌++◌, ◌==◌,
  if◌then◌else◌,
}
use hermes_waf.Prelude.Dict.{Dict, lookup, insert, delete}
use hermes_waf.Prelude.Results.{Result, ok, err, Outcome, returned, failed, panicked}
use hermes_waf.Prelude.Actions.{Action, ◌>>=◌, ◌>>◌}
use hermes_waf.Text.{starts_with, trim_prefix}
use hermes_waf.Cert.{
  CertSource, letsencrypt, uploaded, selfsigned, StoredCert, World, CertManager, CertError,
  expiring_soon, server_name_of,
}
use hermes_waf.Cert.Upload.{add_uploaded_cert}

-- The answer to a request: `http.NotFound`, or a text.
pub data Answer : Type 0 where
  not_found : Answer
  content : Str → Answer

pub record Challenge : Type 0 where
  pub type : Str
  pub token : Str

pub record Authorization : Type 0 where
  pub challenges : List Challenge

pub record Order : Type 0 where
  pub authz_urls : List Str
  pub finalize_url : Str

-- The template of `GenerateSelfSignedCert`.
pub record Template : Type 0 where
  pub serial_number : Str
  pub organization : Str
  pub common_name : Str
  pub not_before : ℕ
  pub not_after : ℕ
  pub dns_names : List Str

-- What `autocert.Manager` and its client are given; `Prompt` accepts or refuses every terms of service.
pub record Autocert : Type 0 where
  pub prompt : Bool
  pub cache_dir : Str
  pub email : Str
  pub directory_url : Str

pub record Acme (w : World) : Type 1 where
  pub Net : Type 0
  pub PrivateKey : Type 0
  pub generate_key : Net → Result Str PrivateKey × Net
  pub authorize_order : Str → Net → Result Str Order × Net
  pub get_authorization : Str → Net → Result Str Authorization × Net
  pub http01_response : Str → Result Str Str
  pub accept : Challenge → (Str → Answer) → Net → Option Str × Net
  pub wait_authorization : Str → (Str → Answer) → Net → Option Str × Net
  pub create_csr : Str → PrivateKey → Net → Result Str Str × Net
  pub create_order_cert : Str → Str → Net → Result Str (List Str) × Net
  pub marshal_key : PrivateKey → Result Str Str
  -- `pem.EncodeToMemory`, of a type and bytes
  pub encode_pem : Str → Str → Str
  pub random_serial : Net → Result Str Str × Net
  pub create_certificate : Template → PrivateKey → Net → Result Str Str × Net
  -- `autocert.Manager.GetCertificate`
  pub cached : Autocert → Str → Net → Result Str w.Certificate
  pub letsencrypt_url : Str

-- `fmt.Errorf`: what failed, and the cause.
pub data AcmeError : Type 0 where
  step_failed : Str → Str → AcmeError
  no_http01_challenge no_server_name : AcmeError
  not_yet_available : Str → AcmeError
  store_failed : CertError → AcmeError

pub record AcmeConfig : Type 0 where
  pub email : Str
  pub directory_url : Str
  pub data_dir : Str
  pub accept_tos : Bool

pub record AcmeManager (w : World) (a : Acme w) : Type 0 where
  pub cache : Autocert
  pub cert_manager : CertManager w
  pub email : Str
  pub dir_url : Str
  pub data_dir : Str
  pub challenges : Dict Str
  pub net : a.Net

abbrev pub challenge_path : Str
challenge_path = bytes "/.well-known/acme-challenge/"

abbrev pub content_of : Option Str → Answer
content_of none = not_found
content_of (some key_auth) = content key_auth

-- The handler of `HTTPHandler`, for a path
unfoldable pub http_handler : Dict Str → Str → Answer
http_handler challenges path =
    if not (starts_with path challenge_path)
    then not_found
    else content_of (lookup (trim_prefix path challenge_path) challenges)

-- "Find HTTP-01 challenge"
unfoldable pub find_http01 : List Challenge → Option Challenge
find_http01 [] = none
find_http01 (c ∷ cs) = if c.type == bytes "http-01" then some c else find_http01 cs

-- What `GenerateSelfSignedCert` does for a year.
abbrev pub one_year : ℕ
one_year = 365 * 24 * 3600 * 1000000000

module _ (w : World) (a : Acme w) where
  abbrev pub Do : Type 0 → Type 0
  Do A = Action (AcmeManager w a) AcmeError A

  abbrev pub explained : {A : Type 0} → Str → Result Str A → Result AcmeError A
  explained text (ok x) = ok x
  explained text (err e) = err (step_failed text e)

  abbrev pub done_or : Str → Option Str → Result AcmeError (Unit {0})
  done_or text none = ok tt
  done_or text (some e) = err (step_failed text e)

  -- A call of the library.
  unfoldable pub lift : {A : Type 0} → Str → Result Str A → Do A
  lift text r am = (explained text r, am)

  unfoldable pub on_net : {A : Type 0} → Str → (a.Net → Result Str A × a.Net) → Do A
  on_net text f am = let (r, n) = f am.net in (explained text r, record am { net = n })

  -- A call during which the server may ask the handler.
  unfoldable pub while_served : Str → ((Str → Answer) → a.Net → Option Str × a.Net) → Do (Unit {0})
  while_served text f am =
      let (e, n) = f (http_handler am.challenges) am.net in (done_or text e, record am { net = n })

  unfoldable pub challenge_or_fail : Option Challenge → Do Challenge
  challenge_or_fail none am = (err no_http01_challenge, am)
  challenge_or_fail (some c) am = (ok c, am)

  unfoldable pub put_challenge : Str → Str → Do (Unit {0})
  put_challenge token key_auth am =
      (ok tt, record am { challenges = insert token key_auth am.challenges })

  unfoldable pub drop_challenge : Str → Do (Unit {0})
  drop_challenge token am = (ok tt, record am { challenges = delete token am.challenges })

  -- From "Store challenge for HTTP handler" to "Clean up challenge".
  unfoldable pub answer_challenge : Str → Challenge → Str → Do (Unit {0})
  answer_challenge url c key_auth = do
    put_challenge c.token key_auth
    while_served (bytes "failed to accept challenge") (a.accept c)
    while_served (bytes "authorization failed") (a.wait_authorization url)
    drop_challenge c.token

  -- One round of "Wait for authorizations".
  unfoldable pub authorize : Str → Do (Unit {0})
  authorize url = do
    authz ← on_net (bytes "failed to get authorization") (a.get_authorization url)
    c ← challenge_or_fail (find_http01 authz.challenges)
    key_auth ← lift (bytes "failed to compute challenge response") (a.http01_response c.token)
    answer_challenge url c key_auth

  unfoldable pub authorize_all : List Str → Do (Unit {0})
  authorize_all [] am = (ok tt, am)
  authorize_all (url ∷ urls) am = (authorize url >> authorize_all urls) am

  -- "Encode cert to PEM"
  unfoldable pub encode_chain : List Str → Str
  encode_chain [] = []
  encode_chain (b ∷ bs) = a.encode_pem (bytes "CERTIFICATE") b ++ encode_chain bs

  abbrev pub stored : Result CertError StoredCert → Result AcmeError (Unit {0})
  stored (ok sc) = ok tt
  stored (err e) = err (store_failed e)

  -- "Store via cert manager"
  unfoldable pub store_cert : Str → Str → Str → ℕ → Do (Unit {0})
  store_cert domain cert_pem key_pem created am =
      let (r, m) =
        add_uploaded_cert w (bytes "acme") (domain ∷ []) cert_pem key_pem created am.cert_manager in
      (stored r, record am { cert_manager = m })

  -- `provisionCert` once the order is authorized
  unfoldable pub finalize : Str → ℕ → Order → a.PrivateKey → Do (Unit {0})
  finalize domain created order key = do
    csr ← on_net (bytes "failed to create CSR") (a.create_csr domain key)
    der ← on_net (bytes "failed to finalize order") (a.create_order_cert order.finalize_url csr)
    key_bytes ← lift (bytes "failed to marshal key") (a.marshal_key key)
    store_cert domain (encode_chain der) (a.encode_pem (bytes "EC PRIVATE KEY") key_bytes) created

  -- `provisionCert`
  unfoldable pub provision_cert : Str → ℕ → Do (Unit {0})
  provision_cert domain created = do
    key ← on_net (bytes "failed to generate key") a.generate_key
    order ← on_net (bytes "failed to create order") (a.authorize_order domain)
    authorize_all order.authz_urls
    finalize domain created order key

  -- `GetCertificate`: its result, and the domains for which it starts provisioning
  abbrev get_cached : Str → Result Str w.Certificate → Result AcmeError w.Certificate × List Str
  get_cached name (ok c) = (ok c, [])
  get_cached name (err e) =
      if name == bytes ""
      then (err no_server_name, [])
      else (err (not_yet_available name), name ∷ [])

  unfoldable pub acme_get_certificate :
      Str → AcmeManager w a → Result AcmeError w.Certificate × List Str
  acme_get_certificate server_name am =
      get_cached (server_name_of w server_name) (a.cached am.cache server_name am.net)

  abbrev made :
      Str
      → Str
      → Option Str × w.Files
      → AcmeConfig
      → CertManager w
      → a.Net
      → Result Str (AcmeManager w a)
  made dir_url cache_dir (some e, fs) cfg m n = err (bytes "failed to create ACME cache dir: " ++ e)
  made dir_url cache_dir (none, fs) cfg m n = ok (record {
    cache = record {
      prompt = cfg.accept_tos;
      cache_dir = cache_dir;
      email = cfg.email;
      directory_url = dir_url;
    };
    cert_manager = record m { files = fs };
    email = cfg.email;
    dir_url = dir_url;
    data_dir = cfg.data_dir;
    challenges = [];
    net = n;
  })

  -- `NewACMEManager`
  unfoldable pub new_acme_manager :
      AcmeConfig → CertManager w → a.Net → Result Str (AcmeManager w a)
  new_acme_manager cfg m n =
      let dir_url =
        if cfg.directory_url == bytes "" then a.letsencrypt_url else cfg.directory_url in
      let cache_dir = w.join_path cfg.data_dir (bytes "acme-cache") in
      made dir_url cache_dir (w.mkdir_all cache_dir m.files) cfg m n
