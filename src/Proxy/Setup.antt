-- ===== src/Proxy/Setup.antt =====
-- internal/proxy/proxy.go: `NewReverseProxy`. `Upstream` stands for `net/url` and for the round
-- trip that `httputil.ReverseProxy` makes with a transport.
use hermes_waf.Prelude.{◌*◌, Str, bytes, List, [], ◌∷◌}
use hermes_waf.Prelude.Int64.{Int64}
use hermes_waf.Prelude.Results.{Result, ok, err}
use hermes_waf.Config.{ProxyConfig}
use hermes_waf.Proxy.{Sent, http_error, Request, Net}

pub record Transport : Type 0 where
  pub max_idle_conns : Int64
  pub max_idle_conns_per_host : Int64
  pub idle_conn_timeout : Int64

pub record Upstream : Type 1 where
  pub Url : Type 0
  pub parse : Str → Result Str Url
  -- what is called on the writer for the upstream's answer, or the error that is handed to
  -- `ErrorHandler` before anything is written
  pub round_trip : Url → Transport → Request → Result Str (List Sent)

pub record ReverseProxy (u : Upstream) (Engine : Type 0) : Type 0 where
  pub upstream : u.Url
  pub transport : Transport
  pub waf : Engine
  pub config : ProxyConfig

-- `logger.Fatal` ends the process.
pub data Start (A : Type 0) : Type 0 where
  started : A → Start A
  exits : Str → Start A

-- "Configure transport"
abbrev pub transport_of : ProxyConfig → Transport
transport_of cfg = record {
  max_idle_conns = cfg.max_idle_conns;
  max_idle_conns_per_host = cfg.max_idle_conns_host;
  idle_conn_timeout = 90 * 1000000000;
}

module _ (u : Upstream) where
  abbrev pub with_url :
      {Engine : Type 0} → ProxyConfig → Engine → Result Str u.Url → Start (ReverseProxy u Engine)
  with_url cfg engine (err e) = exits e
  with_url cfg engine (ok url) =
      started (record { upstream = url; transport = transport_of cfg; waf = engine; config = cfg })

  -- `NewReverseProxy`
  unfoldable pub new_reverse_proxy :
      {Engine : Type 0} → ProxyConfig → Engine → Start (ReverseProxy u Engine)
  new_reverse_proxy cfg engine = with_url cfg engine (u.parse cfg.upstream_url)

  -- "Custom error handler"
  abbrev pub or_bad_gateway : Result Str (List Sent) → List Sent
  or_bad_gateway (ok sent) = sent
  or_bad_gateway (err e) = http_error (bytes "Bad Gateway") 502 ∷ []

  -- The calls of `httputil.ReverseProxy.ServeHTTP` on the writer.
  unfoldable pub forward_by : {Engine : Type 0} → ReverseProxy u Engine → Request → List Sent
  forward_by proxy r = or_bad_gateway (u.round_trip proxy.upstream proxy.transport r)

  -- The library of a handler that was set up.
  abbrev pub net_of : {Engine : Type 0} → ReverseProxy u Engine → Net → Net
  net_of proxy n = record n { forward = forward_by proxy }
