-- ===== src/Tenant/Manager/Update.antt =====
-- internal/tenant/manager.go: `UpdateTenant`.
use hermes_waf.Prelude.{ℕ, none, some, Option}
use hermes_waf.Prelude.Dict.{insert}
use hermes_waf.Prelude.Results.{Outcome, returned, failed}
use hermes_waf.Storage.{StorageError}
use hermes_waf.Tenant.{Tenant}
use hermes_waf.Tenant.Manager.{
  Error, tenant_not_found, update_failed, Env, TenantManager, map_domains, create_waf_engine,
  with_engine, persist, cache_tenant, uncache_tenant, find_existing, detach,
}

module _ (env : Env) where
  -- `UpdateTenant` once the storage has answered
  unfoldable pub finish_update :
      Tenant
      → Option StorageError × TenantManager env
      → Outcome Error (Unit {0}) × TenantManager env
  finish_update t (some e, tm) = (failed (update_failed e), tm)
  finish_update t (none, tm) =
      let cached = cache_tenant env t (uncache_tenant env t.id tm) in
      (returned tt, record cached { domains = map_domains t t.domains cached.domains })

  -- `UpdateTenant` from "Update in memory" on
  unfoldable pub store_update :
      Tenant → env.waf.Engine → TenantManager env → Outcome Error (Unit {0}) × TenantManager env
  store_update t engine tm = finish_update t (
      persist env t
        (record tm { tenants = insert t.id t tm.tenants; wafs = insert t.id engine tm.wafs }))

  unfoldable pub update_existing :
      Option Tenant → Tenant → ℕ → TenantManager env → Outcome Error (Unit {0}) × TenantManager env
  update_existing none t updated tm = (failed (tenant_not_found t.id), tm)
  update_existing (some old) t updated tm =
      with_engine (store_update (record t { updated_at = updated }))
        (create_waf_engine env t (detach env t.id old tm))

  -- `UpdateTenant`; `updated` is the reading of the clock
  unfoldable pub update_tenant :
      Tenant → ℕ → TenantManager env → Outcome Error (Unit {0}) × TenantManager env
  unfolding update_existing
  update_tenant t updated tm = update_existing (find_existing env t.id tm) t updated tm
