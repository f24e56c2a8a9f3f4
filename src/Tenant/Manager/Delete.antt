-- ===== src/Tenant/Manager/Delete.antt =====
-- internal/tenant/manager.go: `DeleteTenant`.
use hermes_waf.Prelude.{Str, Option, none, some}
use hermes_waf.Prelude.Dict.{delete}
use hermes_waf.Prelude.Results.{Outcome, returned, failed}
use hermes_waf.Storage.{StorageError}
use hermes_waf.Tenant.{Tenant}
use hermes_waf.Tenant.Manager.{
  Error, tenant_not_found, delete_failed, Env, TenantManager, uncache_tenant, find_existing, detach,
}

module _ (env : Env) where
  unfoldable pub delete_in :
      Option env.storage.State → Str → TenantManager env → Option StorageError × TenantManager env
  delete_in none id tm = (none, tm)
  delete_in (some st) id tm =
      let (e, st') = env.storage.delete_tenant id st in (e, record tm { storage = some st' })

  -- "Delete from storage"
  unfoldable pub unstore : Str → TenantManager env → Option StorageError × TenantManager env
  unfolding delete_in
  unstore id tm = delete_in tm.storage id tm

  unfoldable pub finish_delete :
      Str → Option StorageError × TenantManager env → Outcome Error (Unit {0}) × TenantManager env
  finish_delete id (some e, tm) = (failed (delete_failed e), tm)
  finish_delete id (none, tm) = (returned tt, uncache_tenant env id tm)

  -- What is left in memory before the storage is asked.
  abbrev pub without_tenant : Str → Tenant → TenantManager env → TenantManager env
  without_tenant id old tm = record (detach env id old tm) {
    tenants = delete id tm.tenants;
    wafs = delete id tm.wafs;
  }

  unfoldable pub delete_existing :
      Option Tenant → Str → TenantManager env → Outcome Error (Unit {0}) × TenantManager env
  delete_existing none id tm = (failed (tenant_not_found id), tm)
  delete_existing (some old) id tm = finish_delete id (unstore id (without_tenant id old tm))

  -- `DeleteTenant`
  unfoldable pub delete_tenant :
      Str → TenantManager env → Outcome Error (Unit {0}) × TenantManager env
  unfolding delete_existing
  delete_tenant id tm = delete_existing (find_existing env id tm) id tm
