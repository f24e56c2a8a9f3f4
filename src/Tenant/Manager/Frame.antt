-- ===== src/Tenant/Manager/Frame.antt =====
-- What the manager's helpers leave alone.
use hermes_waf.Prelude.{Str, ◌≡◌, some, arith, inl, inr, Option-cases}
use hermes_waf.Prelude.Dict.{lookup}
use hermes_waf.Prelude.Results.{Outcome, returned, failed, panicked}
use hermes_waf.Tenant.{Tenant}
use hermes_waf.Tenant.Manager.{
  Error, Env, TenantManager, create_waf_engine, persist, cache_tenant, uncache_tenant,
  find_existing, with_engine, unmap_domains,
}
use hermes_waf.Tenant.Manager.Routes.{
  Agrees, IsUnrouted, IsUnrouted-of_absent, IsUnrouted-unmap, IsUnrouted-unmap_domains,
}

-- The manager's maps are the same.
pub record SameMaps {env : Env} (tm tm' : TenantManager env) : Type 0 where
  pub tenants : tm'.tenants ≡ tm.tenants
  pub domains : tm'.domains ≡ tm.domains
  pub wafs : tm'.wafs ≡ tm.wafs

module _ {env : Env} where
  pub create_waf_engine-SameMaps :
      (t : Tenant) (tm : TenantManager env) → SameMaps tm (create_waf_engine env t tm).1
  unfolding create_waf_engine
  create_waf_engine-SameMaps t tm = ground arith

  pub persist-SameMaps : (t : Tenant) (tm : TenantManager env) → SameMaps tm (persist env t tm).1
  unfolding persist
  persist-SameMaps t tm = ground arith

  pub cache_tenant-SameMaps :
      (t : Tenant) (tm : TenantManager env) → SameMaps tm (cache_tenant env t tm)
  unfolding cache_tenant
  cache_tenant-SameMaps t tm = ground arith

  pub uncache_tenant-SameMaps :
      (id : Str) (tm : TenantManager env) → SameMaps tm (uncache_tenant env id tm)
  unfolding uncache_tenant
  uncache_tenant-SameMaps id tm = ground arith

  -- A property of the state that survives the engine's creation and its continuation.
  pub with_engine_keeps :
      {A : Type 0} (P : TenantManager env → Type 0)
      (k : env.waf.Engine → TenantManager env → Outcome Error A × TenantManager env)
      (m : Outcome Error env.waf.Engine × TenantManager env)
      → P m.1
      → ((e : env.waf.Engine) → P (k e m.1).1)
      → P (with_engine k m).1
  with_engine_keeps P k (returned e, tm) h cont = cont e
  with_engine_keeps P k (failed e, tm) h cont = h
  with_engine_keeps P k (panicked, tm) h cont = h

  -- Every domain leads to the present record of a tenant that lists it.
  abbrev pub IsRouted : TenantManager env → Type 0
  IsRouted tm = Agrees tm.tenants tm.domains

  -- Removing the domains of the tenant that was found takes away all routes of the ID.
  pub IsUnrouted-find_existing :
      (id : Str) (old : Tenant) (tm : TenantManager env)
      → IsRouted tm
      → find_existing env id tm ≡ some old
      → IsUnrouted id (unmap_domains old.domains tm.domains)
  unfolding find_existing
  IsUnrouted-find_existing id old tm a h = elim (Option-cases (lookup id tm.tenants)) [
    | inl absent ↦ IsUnrouted-unmap id old.domains tm.domains (IsUnrouted-of_absent a id absent)
    | inr (t, present) ↦ IsUnrouted-unmap_domains a id old (ground arith)
  ]
