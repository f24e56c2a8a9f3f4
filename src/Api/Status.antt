-- ===== src/Api/Status.antt =====
-- `handleCacheStatus` without a cache.
use hermes_waf.Prelude.{◌≡◌, refl, ◌∙◌, false, length, none, Option, List, [], ◌∷◌}
use hermes_waf.Cert.{World}
use hermes_waf.Tenant.{Tenant}
use hermes_waf.Tenant.Manager.{Env, TenantManager}
use hermes_waf.Tenant.Manager.Load.{list_tenants, list_from, load_all, stored_list}
use hermes_waf.Api.{
  Handler, Response, aborted, json, cache_status, count_cached, status_response, is_on,
  handle_cache_status,
}
use hermes_waf.Storage.{TenantData}

-- The status without a cache: a call of its method panics.
abbrev pub without_cache : List Tenant → Response
without_cache [] = json 200 (cache_status false 0 0)
without_cache (t ∷ ts) = aborted

module _ (env : Env) where
  cache-load_all :
      (ds : List TenantData) (tm : TenantManager env) → (load_all env ds tm).1.cache ≡ tm.cache
  unfolding load_all
  cache-load_all [] tm = refl
  cache-load_all (d ∷ ds) tm = cache-load_all ds _

  cache-list_tenants : (tm : TenantManager env) → (list_tenants env tm).1.cache ≡ tm.cache
  unfolding list_tenants
  cache-list_tenants tm = go (stored_list env tm)
    where
      go : (ds : List TenantData) → (list_from env ds tm).1.cache ≡ tm.cache
      go [] = refl
      go (d ∷ ds) = cache-load_all (d ∷ ds) tm

  count_cached-none :
      (w : World) (ts : List Tenant) (c : Option env.cache.State)
      → c ≡ none
      → status_response env w (is_on env w c) (length ts) (count_cached env w ts c 0)
        ≡ without_cache ts
  unfolding count_cached
  count_cached-none w [] c e = rw e
  count_cached-none w (t ∷ ts) c e = rw e

  -- Over a manager without a cache the cache status is answered only while no tenant is listed:
  -- with one it panics.
  pub handle_cache_status-without_cache :
      (w : World) (h : Handler env w)
      → h.manager.cache ≡ none
      → (handle_cache_status env w h).0 ≡ without_cache (list_tenants env h.manager).0
  unfolding handle_cache_status
  handle_cache_status-without_cache w h off =
      let (ts, tm) = list_tenants env h.manager in
      count_cached-none w ts tm.cache (cache-list_tenants h.manager ∙ off)
