-- ===== src/Tests/Routers.antt =====
-- The router's theorems at the fixtures.
use hermes_waf.Prelude.{bytes, ◌≡◌, refl, true, some}
use hermes_waf.Prelude.Dict.{lookup}
use hermes_waf.Prelude.Results.{ok}
use hermes_waf.Text.{Unicode, to_lower, trim_space, before_last}
use hermes_waf.Tenant.Manager.{get_tenant_by_domain}
use hermes_waf.Tenant.Router.{
  Request, normalize_host, route_host, get_tenant_from_request, next, middleware,
}
use hermes_waf.Tenant.Router.Lookup.{
  IsFound, to_option, route_host-get_tenant_by_domain, middleware_sound,
}
use hermes_waf.Tests.Fixtures.{env, acme_stored, running, manager}
use hermes_waf.Tests.Managers.{running-IsRouted}

abbrev unicode : Unicode
unicode = record { lower = λ s. s; trim = λ s. s }

abbrev request : Request
request = record { host = bytes "WWW.Acme.com:8080" }

served : get_tenant_from_request env unicode request running ≡ ok acme_stored
unfolding manager get_tenant_from_request normalize_host route_host to_lower trim_space before_last
served = refl

handed_on : middleware env unicode request running ≡ next acme_stored
unfolding manager middleware get_tenant_from_request normalize_host route_host to_lower trim_space
    before_last
handed_on = refl

route_host-get_tenant_by_domain_example :
    to_option (route_host env (bytes "www.acme.com") running)
    ≡ to_option (get_tenant_by_domain env (bytes "www.acme.com") running)
route_host-get_tenant_by_domain_example =
    route_host-get_tenant_by_domain running (bytes "www.acme.com")

middleware_sound_example :
    (true ≡ true)
    × (lookup (bytes "t1") running.tenants ≡ some acme_stored)
    × IsFound running (normalize_host unicode request.host) acme_stored
middleware_sound_example =
    middleware_sound running running-IsRouted unicode request acme_stored handed_on
