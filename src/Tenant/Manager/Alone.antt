-- ===== src/Tenant/Manager/Alone.antt =====
-- internal/tenant/manager.go: `GetTenant` and `ListTenants` when no other call comes between their
-- sections.
use hermes_waf.Prelude.{Str, ◌≡◌, refl, Option, none, some, List, [], ◌∷◌}
use hermes_waf.Prelude.Dict.{lookup}
use hermes_waf.Prelude.Results.{Outcome, returned, failed, panicked}
use hermes_waf.Storage.{TenantData}
use hermes_waf.Tenant.{Tenant}
use hermes_waf.Tenant.Manager.{
  Error, Env, TenantManager, create_waf_engine, with_engine, stored_tenant,
}
use hermes_waf.Tenant.Manager.Load.{
  with_loaded, add_engine, load_tenant, get_unless, get_tenant, stored_list, list_from,
  list_tenants,
}
use hermes_waf.Tenant.Manager.Sections.{
  answered, answered_all, built_or, listed_or, fetched_or, looked, start_get, start_list, resume,
  run,
}

module _ (env : Env) where
  -- `GetTenant` from "Create WAF engine" on.
  built_alone :
      (id : Str) (t : Tenant) (r : Outcome Error env.waf.Engine × TenantManager env)
      → run env 2 (built_or env id t r.0) r.1 ≡ (
        answered (with_engine (add_engine env id t) r).0,
        (with_engine (add_engine env id t) r).1,
      )
  unfolding run resume
  built_alone id t (returned engine, tm) = refl
  built_alone id t (failed e, tm) = refl
  built_alone id t (panicked, tm) = refl

  loaded_alone :
      (id : Str) (o : Option Tenant) (tm : TenantManager env)
      → run env 4 (fetched_or env id o) tm
        ≡ (answered (load_tenant env o id tm).0, (load_tenant env o id tm).1)
  unfolding run resume load_tenant
  loaded_alone id none tm = refl
  loaded_alone id (some t) tm = built_alone id t (create_waf_engine env t (with_loaded env id t tm))

  get_alone :
      (id : Str) (o : Option Tenant) (tm : TenantManager env)
      → run env 5 (looked env id o) tm
        ≡ (answered (get_unless env o id tm).0, (get_unless env o id tm).1)
  unfolding run resume get_unless
  get_alone id (some t) tm = refl
  get_alone id none tm = loaded_alone id (stored_tenant env id tm) tm

  list_alone :
      (ds : List TenantData) (tm : TenantManager env)
      → run env 5 (listed_or env ds) tm
        ≡ (answered_all (list_from env ds tm).0, (list_from env ds tm).1)
  unfolding run resume list_from
  list_alone [] tm = refl
  list_alone (d ∷ ds) tm = refl

  -- `GetTenant` and `ListTenants` that nothing interrupts answer after five sections at most, and
  -- answer and leave what `get_tenant` and `list_tenants` do.
  pub run_alone :
      (id : Str) (tm : TenantManager env)
      → (run env 5 (start_get env id tm) tm
          ≡ (answered (get_tenant env id tm).0, (get_tenant env id tm).1))
        × (run env 5 (start_list env tm) tm
            ≡ (answered_all (list_tenants env tm).0, (list_tenants env tm).1))
  unfolding start_get start_list get_tenant list_tenants
  run_alone id tm = (get_alone id (lookup id tm.tenants) tm, list_alone (stored_list env tm) tm)
