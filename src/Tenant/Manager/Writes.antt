-- ===== src/Tenant/Manager/Writes.antt =====
-- internal/tenant/manager.go: runs of the manager's writing methods.
use hermes_waf.Prelude.{ℕ, Str, Option}
use hermes_waf.Prelude.Dict.{lookup}
use hermes_waf.Tenant.{Tenant}
use hermes_waf.Tenant.Manager.{Env, TenantManager, new_tenant_manager}
use hermes_waf.Tenant.Manager.Create.{create_tenant}
use hermes_waf.Tenant.Manager.Update.{update_tenant}
use hermes_waf.Tenant.Manager.Delete.{delete_tenant}
use hermes_waf.Tenant.Manager.Engines.{
  IsServed, create_tenant-IsServed, update_tenant-IsServed, delete_tenant-IsServed,
}

module _ {env : Env} where
  -- Calls of `CreateTenant`, `UpdateTenant` and `DeleteTenant` one after the other, each with any
  -- arguments and any outcome.
  pub data Writes (start : TenantManager env) : TenantManager env → Type 0 where
    none_yet : Writes start start
    then_create :
        {tm : TenantManager env} (t : Tenant) (created updated : ℕ)
        → Writes start tm
        → Writes start (create_tenant env t created updated tm).1
    then_update :
        {tm : TenantManager env} (t : Tenant) (updated : ℕ)
        → Writes start tm
        → Writes start (update_tenant env t updated tm).1
    then_delete :
        {tm : TenantManager env} (id : Str)
        → Writes start tm
        → Writes start (delete_tenant env id tm).1

  kept : {start tm : TenantManager env} → IsServed start → Writes start tm → IsServed tm
  kept h none_yet = h
  kept h (then_create {tm} t c u r) = create_tenant-IsServed t c u tm (kept h r)
  kept h (then_update {tm} t u r) = update_tenant-IsServed t u tm (kept h r)
  kept h (then_delete {tm} id r) = delete_tenant-IsServed id tm (kept h r)

  -- However calls of `CreateTenant`, `UpdateTenant` and `DeleteTenant` follow one another in a new
  -- manager, and whatever each of them returns: every tenant in memory has an engine.
  pub Writes-IsServed :
      (cache : Option env.cache.State) (storage : Option env.storage.State) {tm : TenantManager env}
      → Writes (new_tenant_manager env cache storage) tm
      → IsServed tm
  unfolding new_tenant_manager lookup
  Writes-IsServed cache storage r = kept (record { engine = λ j p. cc }) r
