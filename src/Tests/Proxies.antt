-- ===== src/Tests/Proxies.antt =====
-- The reverse proxy's theorems at a small engine, which interrupts on a body that is not empty, and
-- at one that reads no body.
use hermes_waf.Prelude.{ℕ, ◌≡◌, Str, bytes, refl, Bool, true, false, Option, none, some, [], ◌∷◌}
use hermes_waf.Prelude.Results.{Result, ok, err}
use hermes_waf.Proxy.{Interruption, Waf, Net, Request, write_header, serve_http}
use hermes_waf.Config.{ProxyConfig}
use hermes_waf.Proxy.Setup.{
  Upstream, ReverseProxy, started, transport_of, new_reverse_proxy, net_of,
}
use hermes_waf.Proxy.Answering.{IsAnswered, serve_http-IsAnswered}
use hermes_waf.Proxy.Blocking.{at_body, IsBlocked, read, serve_http-IsBlocked}

abbrev denied : Interruption
denied = record { rule_id = 942100; action = bytes "deny"; status = 403 }

abbrev judge : Str → Result Str (Option Interruption)
judge [] = ok none
judge (c ∷ s) = ok (some denied)

-- A transaction is the body that was read.
abbrev engine : Bool → Waf
engine access = record {
  Tx = Str;
  new_transaction = [];
  request_body_access = access;
  response_body_access = true;
  process_connection = λ a p b q tx. tx;
  process_uri = λ a b c tx. tx;
  add_request_header = λ k v tx. tx;
  process_request_headers = λ tx. (none, tx);
  read_request_body_from = λ b tx. (none, b);
  process_request_body = λ tx. (judge tx, tx);
  process_response_headers = λ n p tx. tx;
  read_response_body_from = λ b tx. (none, tx);
  process_response_body = λ tx. (ok (some denied), tx);
  close = λ tx. tx;
  process_logging = λ tx. tx;
}

abbrev net : Net
net = record {
  split_host_port = λ s. err s;
  atoi = λ s. 0;
  forward = λ r. write_header 204 ∷ [];
  unicode = record { lower = λ s. s; trim = λ s. s };
}

abbrev post : Request
post = record {
  method = bytes "POST";
  url = bytes "/login";
  proto = bytes "HTTP/1.1";
  host = bytes "acme.com";
  remote_addr = bytes "10.0.0.1:999";
  headers = (bytes "Accept", bytes "*/*") ∷ [];
  x_forwarded_for = [];
  x_real_ip = [];
  body = ok (bytes "' OR 1=1");
}

serve_http-IsBlocked_example :
    IsBlocked (engine true) net denied (serve_http (engine true) net post)
serve_http-IsBlocked_example =
    serve_http-IsBlocked (engine true) net post denied
      (at_body (bytes "' OR 1=1") refl refl refl refl)

abbrev empty_post : Request
empty_post = record post { body = ok [] }

-- An upstream that is down.
abbrev upstream : Upstream
upstream = record { Url = Str; parse = λ s. ok s; round_trip = λ url t r. err (bytes "refused") }

abbrev config : ProxyConfig
config = record {
  upstream_url = bytes "http://app:8080";
  proxy_timeout = 30;
  max_idle_conns = 100;
  max_idle_conns_host = 10;
  enable_https = false;
  tls_cert_file = [];
  tls_key_file = [];
}

abbrev proxy : ReverseProxy upstream ℕ
proxy = record {
  upstream = bytes "http://app:8080";
  transport = transport_of config;
  waf = 0;
  config = config;
}

set_up : new_reverse_proxy upstream config 0 ≡ started proxy
unfolding new_reverse_proxy
set_up = refl

serve_http-IsAnswered_example :
    IsAnswered upstream config empty_post
      (serve_http (engine true) (net_of upstream proxy net) empty_post)
serve_http-IsAnswered_example =
    serve_http-IsAnswered upstream config 0 proxy (engine true) net empty_post set_up
      (read [] refl refl refl (λ it e. cc))
