-- ===== src/Tenant/Manager/Engines.antt =====
-- Which tenants in memory have an engine.
use hermes_waf.Prelude.{ℕ, Str, ◌≡◌, refl, true, Option, none, some, List, [], ◌∷◌, arith}
use hermes_waf.Prelude.Dict.{Dict, lookup, insert, delete, lookup-insert, lookup-delete, is_some}
use hermes_waf.Prelude.Results.{err, returned}
use hermes_waf.Storage.{StorageError, TenantData}
use hermes_waf.Tenant.{Tenant}
use hermes_waf.Tenant.Conversion.{from_tenant_data}
use hermes_waf.Tenant.Manager.{
  Error, no_engine, Env, TenantManager, create_waf_engine, persist, uncache_tenant, find_existing,
  detach, get_waf_engine,
}
use hermes_waf.Tenant.Manager.Frame.{
  SameMaps, create_waf_engine-SameMaps, persist-SameMaps, cache_tenant-SameMaps,
  uncache_tenant-SameMaps, with_engine_keeps,
}
use hermes_waf.Tenant.Manager.Create.{
  check_new, finish_create, store_new, stamped, create_unless, create_tenant,
}
use hermes_waf.Tenant.Manager.Update.{finish_update, store_update, update_existing, update_tenant}
use hermes_waf.Tenant.Manager.Delete.{unstore, without_tenant, delete_existing, delete_tenant}
use hermes_waf.Tenant.Manager.Load.{
  with_loaded, get_tenant, load_all, list_from, stored_list, list_tenants,
}
use hermes_waf.Tenant.Manager.Routing.{unstore-SameMaps, finish_delete-SameMaps}

-- Every tenant of the first map has an engine in the second.
pub record HasEngines {E : Type 0} (tenants : Dict Tenant) (wafs : Dict E) : Type 0 where
  pub engine : (j : Str) → is_some (lookup j tenants) ≡ true → is_some (lookup j wafs) ≡ true

module _ {E : Type 0} {ts : Dict Tenant} {ws : Dict E} (h : HasEngines ts ws) where
  HasEngines-insert : (id : Str) (t : Tenant) (e : E) → HasEngines (insert id t ts) (insert id e ws)
  HasEngines-insert id t e = record {
    engine = λ j p. ground (arith, lookup-insert j id t ts, lookup-insert j id e ws, h.engine j);
  }

  HasEngines-delete : (id : Str) → HasEngines (delete id ts) (delete id ws)
  HasEngines-delete id = record {
    engine = λ j p. ground (arith, lookup-delete j id ts, lookup-delete j id ws, h.engine j);
  }

module _ {env : Env} where
  abbrev pub IsServed : TenantManager env → Type 0
  IsServed tm = HasEngines tm.tenants tm.wafs

  IsServed-of_SameMaps : {tm tm' : TenantManager env} → SameMaps tm tm' → IsServed tm → IsServed tm'
  IsServed-of_SameMaps s h = rw (s.tenants, s.wafs) h

  finish_create-IsServed :
      (t : Tenant) (engine : env.waf.Engine) (e : Option StorageError) (tm : TenantManager env)
      → IsServed tm
      → IsServed (finish_create env t engine (e, tm)).1
  unfolding finish_create
  finish_create-IsServed t engine (some e) tm h = HasEngines-delete h t.id
  finish_create-IsServed t engine none tm h =
      let s = cache_tenant-SameMaps t tm in rw (s.tenants, s.wafs) h

  create_unless-IsServed :
      (e : Option Error) (t : Tenant) (tm : TenantManager env)
      → IsServed tm
      → IsServed (create_unless env e t tm).1
  unfolding create_unless store_new
  create_unless-IsServed (some e) t tm h = h
  create_unless-IsServed none t tm h =
      let made = create_waf_engine env t tm in
      let h' = IsServed-of_SameMaps (create_waf_engine-SameMaps t tm) h in
      with_engine_keeps IsServed (store_new env t) made h' λ engine.
        let stored : TenantManager env = record made.1 {
          tenants = insert t.id t made.1.tenants;
          wafs = insert t.id engine made.1.wafs;
        } in
        finish_create-IsServed t engine (persist env t stored).0 (persist env t stored).1
          (IsServed-of_SameMaps (persist-SameMaps t stored) (HasEngines-insert h' t.id t engine))

  -- If every tenant in memory has an engine, so it is after `CreateTenant`, whatever it returns.
  pub create_tenant-IsServed :
      (t : Tenant) (created updated : ℕ) (tm : TenantManager env)
      → IsServed tm
      → IsServed (create_tenant env t created updated tm).1
  unfolding create_tenant
  create_tenant-IsServed t created updated tm =
      create_unless-IsServed (check_new env t tm) (stamped t created updated) tm

  finish_update-IsServed :
      (t : Tenant) (e : Option StorageError) (tm : TenantManager env)
      → IsServed tm
      → IsServed (finish_update env t (e, tm)).1
  unfolding finish_update
  finish_update-IsServed t (some e) tm h = h
  finish_update-IsServed t none tm h =
      let s = uncache_tenant-SameMaps t.id tm in
      let s' = cache_tenant-SameMaps t (uncache_tenant env t.id tm) in
      rw (s'.tenants, s'.wafs, s.tenants, s.wafs) h

  update_existing-IsServed :
      (o : Option Tenant) (t : Tenant) (updated : ℕ) (tm : TenantManager env)
      → IsServed tm
      → IsServed (update_existing env o t updated tm).1
  unfolding update_existing store_update
  update_existing-IsServed none t updated tm h = h
  update_existing-IsServed (some old) t updated tm h =
      let t' : Tenant = record t { updated_at = updated } in
      let made = create_waf_engine env t (detach env t.id old tm) in
      let h' = IsServed-of_SameMaps (create_waf_engine-SameMaps t (detach env t.id old tm)) h in
      with_engine_keeps IsServed (store_update env t') made h' λ engine.
        let stored : TenantManager env = record made.1 {
          tenants = insert t.id t' made.1.tenants;
          wafs = insert t.id engine made.1.wafs;
        } in
        finish_update-IsServed t' (persist env t' stored).0 (persist env t' stored).1
          (IsServed-of_SameMaps (persist-SameMaps t' stored) (HasEngines-insert h' t.id t' engine))

  -- If every tenant in memory has an engine, so it is after `UpdateTenant`, whatever it returns.
  pub update_tenant-IsServed :
      (t : Tenant) (updated : ℕ) (tm : TenantManager env)
      → IsServed tm
      → IsServed (update_tenant env t updated tm).1
  unfolding update_tenant
  update_tenant-IsServed t updated tm =
      update_existing-IsServed (find_existing env t.id tm) t updated tm

  delete_existing-IsServed :
      (o : Option Tenant) (id : Str) (tm : TenantManager env)
      → IsServed tm
      → IsServed (delete_existing env o id tm).1
  unfolding delete_existing
  delete_existing-IsServed none id tm h = h
  delete_existing-IsServed (some old) id tm h =
      let left = without_tenant env id old tm in
      IsServed-of_SameMaps
        (finish_delete-SameMaps id (unstore env id left).0 (unstore env id left).1)
        (IsServed-of_SameMaps (unstore-SameMaps id left) (HasEngines-delete h id))

  -- If every tenant in memory has an engine, so it is after `DeleteTenant`, whatever it returns.
  pub delete_tenant-IsServed :
      (id : Str) (tm : TenantManager env) → IsServed tm → IsServed (delete_tenant env id tm).1
  unfolding delete_tenant
  delete_tenant-IsServed id tm = delete_existing-IsServed (find_existing env id tm) id tm

  wafs-load_all :
      (ds : List TenantData) (tm : TenantManager env) → (load_all env ds tm).1.wafs ≡ tm.wafs
  unfolding load_all
  wafs-load_all [] tm = refl
  wafs-load_all (d ∷ ds) tm =
      let t = from_tenant_data d in wafs-load_all ds (with_loaded env t.id t tm)

  wafs-list_from :
      (ds : List TenantData) (tm : TenantManager env) → (list_from env ds tm).1.wafs ≡ tm.wafs
  unfolding list_from
  wafs-list_from [] tm = refl
  wafs-list_from (d ∷ ds) tm = wafs-load_all (d ∷ ds) tm

  wafs-list_tenants : (tm : TenantManager env) → (list_tenants env tm).1.wafs ≡ tm.wafs
  unfolding list_tenants
  wafs-list_tenants tm = wafs-list_from (stored_list env tm) tm

  -- A tenant without an engine that `ListTenants` put into memory never gets one by being read:
  -- `GetTenant` then returns it from memory, and `GetWAFEngine` still finds no engine.
  pub list_tenants-no_engine :
      (id : Str) (t : Tenant) (tm : TenantManager env)
      → lookup id tm.wafs ≡ none
      → lookup id (list_tenants env tm).1.tenants ≡ some t
      → ((get_tenant env id (list_tenants env tm).1).0 ≡ returned t)
        × (get_waf_engine env id (get_tenant env id (list_tenants env tm).1).1 ≡ err (no_engine id))
  unfolding get_tenant get_waf_engine
  list_tenants-no_engine id t tm h k = rw k (refl, rw (wafs-list_tenants tm, h))
