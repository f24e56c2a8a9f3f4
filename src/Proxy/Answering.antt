-- ===== src/Proxy/Answering.antt =====
-- internal/proxy/proxy.go: what the client of a proxy that was set up is answered.
use hermes_waf.Prelude.{Str, ◌≡◌, some, arith}
use hermes_waf.Prelude.Results.{Result, ok, err}
use hermes_waf.Config.{ProxyConfig}
use hermes_waf.Proxy.{Waf, Net, Request, Run, serve_http}
use hermes_waf.Proxy.Blocking.{Passes, serve_http-IsForwarded}
use hermes_waf.Proxy.Setup.{
  Upstream, ReverseProxy, started, with_url, new_reverse_proxy, transport_of, or_bad_gateway,
  forward_by, net_of,
}

module _ (u : Upstream) (cfg : ProxyConfig) where
  -- The upstream of the configuration gets the request, over the transport of the configuration; the
  -- client gets its answer, or "Bad Gateway".
  abbrev pub IsAnswered : {w : Waf} → Request → Run w → Type 0
  IsAnswered r run =
      (url : u.Url) × (u.parse cfg.upstream_url ≡ ok url)
      × (run.forwarded ≡ some r)
      × (run.sent ≡ or_bad_gateway u (u.round_trip url (transport_of cfg) r))

  module _ {Engine : Type 0} (engine : Engine) (proxy : ReverseProxy u Engine) where
    set_up :
        (o : Result Str u.Url)
        → with_url u cfg engine o ≡ started proxy
        → (o ≡ ok proxy.upstream) × (proxy.transport ≡ transport_of cfg)
    set_up (err e) h = cc
    set_up (ok url) h = ground arith

    -- A request that passes the inspection by a proxy that was set up reaches the upstream with the
    -- body that was inspected, over the configured transport. The client gets exactly what the upstream
    -- answers, whatever the engine says of the response, and "Bad Gateway" with the status 502 if the
    -- upstream fails.
    pub serve_http-IsAnswered :
        (w : Waf) (n : Net) (r : Request)
        → new_reverse_proxy u cfg engine ≡ started proxy
        → Passes w (net_of u proxy n) r
        → IsAnswered r (serve_http w (net_of u proxy n) r)
    unfolding new_reverse_proxy forward_by
    serve_http-IsAnswered w n r h passes =
        let (parsed, same) = set_up (u.parse cfg.upstream_url) h in
        let (reached, answered) = serve_http-IsForwarded w (net_of u proxy n) r passes in
        (proxy.upstream, parsed, reached, rw (← same) answered)
