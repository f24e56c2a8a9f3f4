-- ===== src/Tenant/Manager/Load.antt =====
-- internal/tenant/manager.go: `GetTenant` and `ListTenants`.
use hermes_waf.Prelude.{Str, none, some, List, [], ◌∷◌, Option}
use hermes_waf.Prelude.Dict.{lookup, insert, values}
use hermes_waf.Prelude.Results.{ok, err, Outcome, returned, failed}
use hermes_waf.Storage.{TenantData}
use hermes_waf.Tenant.{Tenant}
use hermes_waf.Tenant.Conversion.{from_tenant_data}
use hermes_waf.Tenant.Manager.{
  Error, tenant_not_found, Env, TenantManager, map_domains, create_waf_engine, with_engine,
  stored_tenant,
}

module _ (env : Env) where
  abbrev pub with_loaded : Str → Tenant → TenantManager env → TenantManager env
  with_loaded id t tm = record tm {
    tenants = insert id t tm.tenants;
    domains = map_domains t t.domains tm.domains;
  }

  abbrev pub add_engine :
      Str → Tenant → env.waf.Engine → TenantManager env → Outcome Error Tenant × TenantManager env
  add_engine id t engine tm = (returned t, record tm { wafs = insert id engine tm.wafs })

  -- `GetTenant`, once the storage was asked
  unfoldable pub load_tenant :
      Option Tenant → Str → TenantManager env → Outcome Error Tenant × TenantManager env
  load_tenant none id tm = (failed (tenant_not_found id), tm)
  load_tenant (some t) id tm =
      with_engine (add_engine id t) (create_waf_engine env t (with_loaded id t tm))

  unfoldable pub get_unless :
      Option Tenant → Str → TenantManager env → Outcome Error Tenant × TenantManager env
  get_unless (some t) id tm = (returned t, tm)
  get_unless none id tm = load_tenant (stored_tenant env id tm) id tm

  -- `GetTenant`
  unfoldable pub get_tenant : Str → TenantManager env → Outcome Error Tenant × TenantManager env
  unfolding load_tenant get_unless
  get_tenant id tm = get_unless (lookup id tm.tenants) id tm

  -- The loop of `ListTenants`.
  unfoldable pub load_all : List TenantData → TenantManager env → List Tenant × TenantManager env
  load_all [] tm = ([], tm)
  load_all (d ∷ ds) tm =
      let t = from_tenant_data d in
      let (ts, tm') = load_all ds (with_loaded t.id t tm) in (t ∷ ts, tm')

  abbrev pub stored_list : TenantManager env → List TenantData
  stored_list tm = elim tm.storage [
    | none ↦ []
    | some st ↦ elim (env.storage.list_tenants st) [ ok ds ↦ ds | err e ↦ [] ]
  ]

  unfoldable pub list_from : List TenantData → TenantManager env → List Tenant × TenantManager env
  list_from [] tm = (values tm.tenants, tm)
  list_from (d ∷ ds) tm = load_all (d ∷ ds) tm

  -- `ListTenants`; the order of the tenants in memory is the representation's, where Go's is random
  unfoldable pub list_tenants : TenantManager env → List Tenant × TenantManager env
  unfolding list_from
  list_tenants tm = list_from (stored_list tm) tm
