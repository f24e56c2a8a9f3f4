-- ===== src/Tenant/Manager/Removal.antt =====
-- What `DeleteTenant` and `UpdateTenant` leave behind, on every outcome.
use hermes_waf.Prelude.{Str, ◌≡◌, none, some, eq_refl, ◌==◌, if◌then◌else◌}
use hermes_waf.Prelude.Dict.{lookup, lookup-delete}
use hermes_waf.Tenant.{Tenant}
use hermes_waf.Tenant.Manager.{Env, TenantManager, find_existing}
use hermes_waf.Tenant.Manager.Routes.{IsUnrouted}
use hermes_waf.Tenant.Manager.Frame.{SameMaps, IsRouted, IsUnrouted-find_existing}
use hermes_waf.Tenant.Manager.Delete.{unstore, without_tenant, delete_existing, delete_tenant}
use hermes_waf.Tenant.Manager.Routing.{unstore-SameMaps, finish_delete-SameMaps}

module _ {env : Env} where
  -- No ID, engine or route of the tenant is left, and the other IDs read as before.
  pub record IsRemoved (id : Str) (tm tm' : TenantManager env) : Type 0 where
    pub tenants : (j : Str) → lookup j tm'.tenants ≡ (if id == j then none else lookup j tm.tenants)
    pub engine : lookup id tm'.wafs ≡ none
    pub unrouted : IsUnrouted id tm'.domains

  IsRemoved-of_SameMaps :
      (id : Str) {tm tm' tm'' : TenantManager env}
      → SameMaps tm' tm''
      → IsRemoved id tm tm'
      → IsRemoved id tm tm''
  IsRemoved-of_SameMaps id s r = record {
    tenants = λ j. rw s.tenants (r.tenants j);
    engine = rw s.wafs r.engine;
    unrouted = rw s.domains r.unrouted;
  }

  without_tenant-IsRemoved :
      (id : Str) (old : Tenant) (tm : TenantManager env)
      → IsUnrouted id (without_tenant env id old tm).domains
      → IsRemoved id tm (without_tenant env id old tm)
  without_tenant-IsRemoved id old tm free = record {
    tenants = λ j. lookup-delete j id tm.tenants;
    engine = rw (lookup-delete, eq_refl);
    unrouted = free;
  }

  delete_existing-IsRemoved :
      (old : Tenant) (id : Str) (tm : TenantManager env)
      → IsRouted tm
      → find_existing env id tm ≡ some old
      → IsRemoved id tm (delete_existing env (some old) id tm).1
  unfolding delete_existing
  delete_existing-IsRemoved old id tm a h =
      let left = without_tenant env id old tm in
      let (e, tm') = unstore env id left in
      IsRemoved-of_SameMaps id (finish_delete-SameMaps id e tm') (
        IsRemoved-of_SameMaps id (unstore-SameMaps id left)
          (without_tenant-IsRemoved id old tm (IsUnrouted-find_existing id old tm a h)))

  -- `DeleteTenant` of a tenant that memory or the storage has: whether the storage then deletes it
  -- or fails, memory has no tenant, engine or route of that ID any more, and the other IDs read as
  -- before. The routes agreed with the tenants before.
  pub delete_tenant-IsRemoved :
      (old : Tenant) (id : Str) (tm : TenantManager env)
      → IsRouted tm
      → find_existing env id tm ≡ some old
      → IsRemoved id tm (delete_tenant env id tm).1
  unfolding delete_tenant
  delete_tenant-IsRemoved old id tm a h = rw h (delete_existing-IsRemoved old id tm a h)
