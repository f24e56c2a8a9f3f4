-- ===== src/Tests/Requests.antt =====
-- The REST API's theorems at the fixtures.
use hermes_waf.Prelude.{bytes, ◌≡◌, refl, none}
use hermes_waf.Tenant.Manager.Load.{list_tenants}
use hermes_waf.Api.{Handler, tenants_endpoint, handle, handle_cache_status}
use hermes_waf.Api.Rest.{Write, post, request_of, IsPathId, method_of}
use hermes_waf.Api.Written.{IsAnswered, handle-IsAnswered}
use hermes_waf.Text.{has_infix, trim_suffix}
use hermes_waf.Storage.Memory.{memory_store-StorageLaws}
use hermes_waf.Api.Status.{without_cache, handle_cache_status-without_cache}
use hermes_waf.Tests.Fixtures.{env, start, acme, running}
use hermes_waf.Tests.Certs.{world, empty}

abbrev api : Handler env world
api = record { manager = start; cert_manager = empty }

abbrev creation : Write
creation = post acme

t1-IsPathId : IsPathId (bytes "t1")
unfolding has_infix trim_suffix
t1-IsPathId = record { named = λ e. cc; no_certs = refl; no_slash = refl }

handle-IsAnswered_example :
    IsAnswered env world creation 5 6
      (method_of env world creation 5 6 start).0
      (handle env world tenants_endpoint (request_of creation) 5 6 api)
handle-IsAnswered_example =
    handle-IsAnswered env world memory_store-StorageLaws.0 creation 5 6 api t1-IsPathId

abbrev uncached : Handler env world
uncached = record { manager = record running { cache = none }; cert_manager = empty }

handle_cache_status-without_cache_example :
    (handle_cache_status env world uncached).0 ≡ without_cache (list_tenants env uncached.manager).0
handle_cache_status-without_cache_example =
    handle_cache_status-without_cache env world uncached refl
