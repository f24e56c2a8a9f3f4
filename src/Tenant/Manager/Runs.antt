-- ===== src/Tenant/Manager/Runs.antt =====
-- Runs of the manager: what holds in every state that calls of its methods can reach.
use hermes_waf.Prelude.{
  ℕ, Str, ◌≡◌, refl, Option, none, some, List, [], ◌∷◌, ◌⊎◌, inl, inr, eq_refl,
}
use hermes_waf.Prelude.Dict.{lookup, lookup-insert}
use hermes_waf.Storage.{StorageLaws, TenantData}
use hermes_waf.Tenant.{Tenant}
use hermes_waf.Tenant.Conversion.{from_tenant_data}
use hermes_waf.Tenant.Manager.{Env, TenantManager, new_tenant_manager}
use hermes_waf.Tenant.Manager.Routes.{Agrees-empty, Agrees-refresh, Agrees-map_domains}
use hermes_waf.Tenant.Manager.Frame.{IsRouted}
use hermes_waf.Tenant.Manager.Create.{create_tenant}
use hermes_waf.Tenant.Manager.Update.{update_tenant}
use hermes_waf.Tenant.Manager.Delete.{delete_tenant}
use hermes_waf.Tenant.Manager.Load.{
  get_tenant, load_all, with_loaded, list_tenants, list_from, stored_list,
}
use hermes_waf.Tenant.Manager.Routing.{
  create_tenant-IsRouted, update_tenant-IsRouted, delete_tenant-IsRouted, get_tenant-IsRouted,
  with_loaded-IsRouted,
}
use hermes_waf.Tenant.Manager.Stored.{
  IsStored, IsValidStore, create_tenant-IsStored, update_tenant-IsStored, delete_tenant-IsStored,
  get_tenant-IsStored, stored_tenant-id,
}

module _ {env : Env} where
  -- Each record that the storage lists is new to memory, or is the one in memory.
  abbrev pub InSync : List TenantData → TenantManager env → Type 0
  InSync [] tm = Unit
  InSync (d ∷ ds) tm =
      let t = from_tenant_data d in
      ((lookup t.id tm.tenants ≡ none) ⊎ (lookup t.id tm.tenants ≡ some t))
      × InSync ds (with_loaded env t.id t tm)

  load_all-IsRouted :
      (ds : List TenantData) (tm : TenantManager env)
      → IsRouted tm
      → InSync ds tm
      → IsRouted (load_all env ds tm).1
  unfolding load_all
  load_all-IsRouted [] tm a s = a
  load_all-IsRouted (d ∷ ds) tm a (inl new, s) =
      let t = from_tenant_data d in
      load_all-IsRouted ds (with_loaded env t.id t tm) (with_loaded-IsRouted t tm a new) s
  load_all-IsRouted (d ∷ ds) tm a (inr old, s) =
      let t = from_tenant_data d in
      load_all-IsRouted ds (with_loaded env t.id t tm)
        (Agrees-map_domains t (Agrees-refresh a t old) (rw (lookup-insert, eq_refl))) s

  storage-load_all :
      (ds : List TenantData) (tm : TenantManager env) → (load_all env ds tm).1.storage ≡ tm.storage
  unfolding load_all
  storage-load_all [] tm = refl
  storage-load_all (d ∷ ds) tm =
      storage-load_all ds (with_loaded env (from_tenant_data d).id (from_tenant_data d) tm)

  list_tenants-IsRouted :
      (tm : TenantManager env)
      → IsRouted tm
      → InSync (stored_list env tm) tm
      → IsRouted (list_tenants env tm).1
  unfolding list_tenants
  list_tenants-IsRouted tm a s = go (stored_list env tm) s
    where
      go : (ds : List TenantData) → InSync ds tm → IsRouted (list_from env ds tm).1
      go [] s = a
      go (d ∷ ds) s = load_all-IsRouted (d ∷ ds) tm a s

  storage-list_tenants : (tm : TenantManager env) → (list_tenants env tm).1.storage ≡ tm.storage
  unfolding list_tenants
  storage-list_tenants tm = go (stored_list env tm)
    where
      go : (ds : List TenantData) → (list_from env ds tm).1.storage ≡ tm.storage
      go [] = refl
      go (d ∷ ds) = storage-load_all (d ∷ ds) tm

  -- One call of a method that changes the maps, with any arguments and any outcome. `ListTenants`
  -- is called only while the storage and memory do not contradict one another.
  pub data Step (tm : TenantManager env) : TenantManager env → Type 0 where
    create : (t : Tenant) (created updated : ℕ) → Step tm (create_tenant env t created updated tm).1
    update : (t : Tenant) (updated : ℕ) → Step tm (update_tenant env t updated tm).1
    remove : (id : Str) → Step tm (delete_tenant env id tm).1
    fetch : (id : Str) → Step tm (get_tenant env id tm).1
    list : InSync (stored_list env tm) tm → Step tm (list_tenants env tm).1

  pub data Reach (start : TenantManager env) : TenantManager env → Type 0 where
    here : Reach start start
    next : {tm tm' : TenantManager env} → Reach start tm → Step tm tm' → Reach start tm'

module _ (env : Env) (laws : StorageLaws env.storage) where
  abbrev IsSound : TenantManager env → Type 0
  IsSound tm = IsRouted tm × IsStored env laws tm

  Step-IsSound : {tm tm' : TenantManager env} → Step tm tm' → IsSound tm → IsSound tm'
  Step-IsSound {tm} (create t c u) (a, s) =
      (create_tenant-IsRouted t c u tm a, create_tenant-IsStored env laws t c u tm s)
  Step-IsSound {tm} (update t u) (a, s) =
      (update_tenant-IsRouted t u tm a, update_tenant-IsStored env laws t u tm s)
  Step-IsSound {tm} (remove id) (a, s) =
      (delete_tenant-IsRouted id tm a, delete_tenant-IsStored env laws id tm s)
  Step-IsSound {tm} (fetch id) (a, s) = (
    get_tenant-IsRouted id tm a (λ t. stored_tenant-id env laws id t tm s),
    get_tenant-IsStored env laws id tm s,
  )
  Step-IsSound {tm} (list sync) (a, s) =
      (list_tenants-IsRouted tm a sync, rw (storage-list_tenants tm) s)

  Reach-IsSound : {start tm : TenantManager env} → Reach start tm → IsSound start → IsSound tm
  Reach-IsSound here h = h
  Reach-IsSound (next r st) h = Step-IsSound st (Reach-IsSound r h)

  -- In every state that a new manager reaches by its methods, each mapped domain leads to the
  -- present record of a tenant that lists it. The storage keeps its laws and starts in a state of
  -- its own, and `ListTenants` is called only while each record that the storage lists is new to
  -- memory or the one in memory.
  pub Reach-IsRouted :
      (cache : Option env.cache.State) (storage : Option env.storage.State) {tm : TenantManager env}
      → IsValidStore env laws storage
      → Reach (new_tenant_manager env cache storage) tm
      → IsRouted tm
  unfolding new_tenant_manager
  Reach-IsRouted cache storage v r = (Reach-IsSound r (Agrees-empty, v)).0
