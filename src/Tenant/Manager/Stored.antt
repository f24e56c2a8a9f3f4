-- ===== src/Tenant/Manager/Stored.antt =====
-- The state of the storage under a manager stays one that the storage itself can reach.
use hermes_waf.Prelude.{ℕ, Str, ◌≡◌, refl, Option, none, some, arith}
use hermes_waf.Prelude.Dict.{insert, lookup}
use hermes_waf.Prelude.Results.{ok, err, Result}
use hermes_waf.Storage.{StorageError, StorageLaws, TenantData}
use hermes_waf.Tenant.{Tenant}
use hermes_waf.Tenant.Conversion.{to_tenant_data, from_tenant_data}
use hermes_waf.Tenant.Manager.{
  Error, Env, TenantManager, create_waf_engine, persist, cache_tenant, uncache_tenant,
  stored_tenant, stored_result, find_existing, detach, save_in, stored_in,
}
use hermes_waf.Tenant.Manager.Frame.{with_engine_keeps}
use hermes_waf.Tenant.Manager.Create.{
  check_new, finish_create, store_new, stamped, create_unless, create_tenant,
}
use hermes_waf.Tenant.Manager.Update.{finish_update, store_update, update_existing, update_tenant}
use hermes_waf.Tenant.Manager.Delete.{
  delete_in, unstore, finish_delete, without_tenant, delete_existing, delete_tenant,
}
use hermes_waf.Tenant.Manager.Load.{with_loaded, add_engine, load_tenant, get_unless, get_tenant}

module _ (env : Env) (laws : StorageLaws env.storage) where
  abbrev pub IsValidStore : Option env.storage.State → Type 0
  IsValidStore none = Unit
  IsValidStore (some st) = laws.IsValid st

  abbrev pub IsStored : TenantManager env → Type 0
  IsStored tm = IsValidStore tm.storage

  storage-create_waf_engine :
      (t : Tenant) (tm : TenantManager env) → (create_waf_engine env t tm).1.storage ≡ tm.storage
  unfolding create_waf_engine
  storage-create_waf_engine t tm = ground arith

  create_waf_engine-IsStored :
      (t : Tenant) (tm : TenantManager env) → IsStored tm → IsStored (create_waf_engine env t tm).1
  create_waf_engine-IsStored t tm h = rw (storage-create_waf_engine t tm) h

  storage-cache_tenant :
      (t : Tenant) (tm : TenantManager env) → (cache_tenant env t tm).storage ≡ tm.storage
  unfolding cache_tenant
  storage-cache_tenant t tm = ground arith

  storage-uncache_tenant :
      (id : Str) (tm : TenantManager env) → (uncache_tenant env id tm).storage ≡ tm.storage
  unfolding uncache_tenant
  storage-uncache_tenant id tm = ground arith

  save_in-IsStored :
      (o : Option env.storage.State) (t : Tenant) (tm : TenantManager env)
      → IsStored tm
      → IsValidStore o
      → IsStored (save_in env o t tm).1
  unfolding save_in
  save_in-IsStored none t tm h k = h
  save_in-IsStored (some st) t tm h k = laws.save-IsValid (to_tenant_data t) st k

  persist-IsStored :
      (t : Tenant) (tm : TenantManager env) → IsStored tm → IsStored (persist env t tm).1
  unfolding persist
  persist-IsStored t tm h = save_in-IsStored tm.storage t tm h h

  delete_in-IsStored :
      (o : Option env.storage.State) (id : Str) (tm : TenantManager env)
      → IsStored tm
      → IsValidStore o
      → IsStored (delete_in env o id tm).1
  unfolding delete_in
  delete_in-IsStored none id tm h k = h
  delete_in-IsStored (some st) id tm h k = laws.delete-IsValid id st k

  finish_create-IsStored :
      (t : Tenant) (engine : env.waf.Engine) (e : Option StorageError) (tm : TenantManager env)
      → IsStored tm
      → IsStored (finish_create env t engine (e, tm)).1
  unfolding finish_create
  finish_create-IsStored t engine (some e) tm h = h
  finish_create-IsStored t engine none tm h = rw (storage-cache_tenant t tm) h

  store_new-IsStored :
      (t : Tenant) (engine : env.waf.Engine) (tm : TenantManager env)
      → IsStored tm
      → IsStored (store_new env t engine tm).1
  unfolding store_new
  store_new-IsStored t engine tm h =
      let stored : TenantManager env = record tm {
        tenants = insert t.id t tm.tenants;
        wafs = insert t.id engine tm.wafs;
      } in
      finish_create-IsStored t engine (persist env t stored).0 (persist env t stored).1
        (persist-IsStored t stored h)

  create_unless-IsStored :
      (e : Option Error) (t : Tenant) (tm : TenantManager env)
      → IsStored tm
      → IsStored (create_unless env e t tm).1
  unfolding create_unless
  create_unless-IsStored (some e) t tm h = h
  create_unless-IsStored none t tm h =
      let made = create_waf_engine-IsStored t tm h in
      with_engine_keeps IsStored (store_new env t) (create_waf_engine env t tm) made
        (λ engine. store_new-IsStored t engine (create_waf_engine env t tm).1 made)

  pub create_tenant-IsStored :
      (t : Tenant) (created updated : ℕ) (tm : TenantManager env)
      → IsStored tm
      → IsStored (create_tenant env t created updated tm).1
  unfolding create_tenant
  create_tenant-IsStored t created updated tm =
      create_unless-IsStored (check_new env t tm) (stamped t created updated) tm

  finish_update-IsStored :
      (t : Tenant) (e : Option StorageError) (tm : TenantManager env)
      → IsStored tm
      → IsStored (finish_update env t (e, tm)).1
  unfolding finish_update
  finish_update-IsStored t (some e) tm h = h
  finish_update-IsStored t none tm h =
      rw (storage-cache_tenant t (uncache_tenant env t.id tm), storage-uncache_tenant t.id tm) h

  store_update-IsStored :
      (t : Tenant) (engine : env.waf.Engine) (tm : TenantManager env)
      → IsStored tm
      → IsStored (store_update env t engine tm).1
  unfolding store_update
  store_update-IsStored t engine tm h =
      let stored : TenantManager env = record tm {
        tenants = insert t.id t tm.tenants;
        wafs = insert t.id engine tm.wafs;
      } in
      finish_update-IsStored t (persist env t stored).0 (persist env t stored).1
        (persist-IsStored t stored h)

  update_existing-IsStored :
      (o : Option Tenant) (t : Tenant) (updated : ℕ) (tm : TenantManager env)
      → IsStored tm
      → IsStored (update_existing env o t updated tm).1
  unfolding update_existing
  update_existing-IsStored none t updated tm h = h
  update_existing-IsStored (some old) t updated tm h =
      let detached = detach env t.id old tm in
      let made = create_waf_engine-IsStored t detached h in
      with_engine_keeps IsStored (store_update env (record t { updated_at = updated }))
        (create_waf_engine env t detached) made
        (λ engine.
          store_update-IsStored (record t { updated_at = updated }) engine
            (create_waf_engine env t detached).1 made)

  pub update_tenant-IsStored :
      (t : Tenant) (updated : ℕ) (tm : TenantManager env)
      → IsStored tm
      → IsStored (update_tenant env t updated tm).1
  unfolding update_tenant
  update_tenant-IsStored t updated tm =
      update_existing-IsStored (find_existing env t.id tm) t updated tm

  finish_delete-IsStored :
      (id : Str) (e : Option StorageError) (tm : TenantManager env)
      → IsStored tm
      → IsStored (finish_delete env id (e, tm)).1
  unfolding finish_delete
  finish_delete-IsStored id (some e) tm h = h
  finish_delete-IsStored id none tm h = rw (storage-uncache_tenant id tm) h

  delete_existing-IsStored :
      (o : Option Tenant) (id : Str) (tm : TenantManager env)
      → IsStored tm
      → IsStored (delete_existing env o id tm).1
  unfolding delete_existing unstore
  delete_existing-IsStored none id tm h = h
  delete_existing-IsStored (some old) id tm h =
      let left = without_tenant env id old tm in
      finish_delete-IsStored id (delete_in env left.storage id left).0
        (delete_in env left.storage id left).1 (delete_in-IsStored left.storage id left h h)

  pub delete_tenant-IsStored :
      (id : Str) (tm : TenantManager env) → IsStored tm → IsStored (delete_tenant env id tm).1
  unfolding delete_tenant
  delete_tenant-IsStored id tm = delete_existing-IsStored (find_existing env id tm) id tm

  load_tenant-IsStored :
      (o : Option Tenant) (id : Str) (tm : TenantManager env)
      → IsStored tm
      → IsStored (load_tenant env o id tm).1
  unfolding load_tenant
  load_tenant-IsStored none id tm h = h
  load_tenant-IsStored (some t) id tm h =
      let loaded = with_loaded env id t tm in
      let made = create_waf_engine-IsStored t loaded h in
      with_engine_keeps IsStored (add_engine env id t) (create_waf_engine env t loaded) made
        (λ engine. made)

  get_unless-IsStored :
      (o : Option Tenant) (id : Str) (tm : TenantManager env)
      → IsStored tm
      → IsStored (get_unless env o id tm).1
  unfolding get_unless
  get_unless-IsStored (some t) id tm h = h
  get_unless-IsStored none id tm h = load_tenant-IsStored (stored_tenant env id tm) id tm h

  pub get_tenant-IsStored :
      (id : Str) (tm : TenantManager env) → IsStored tm → IsStored (get_tenant env id tm).1
  unfolding get_tenant
  get_tenant-IsStored id tm = get_unless-IsStored (lookup id tm.tenants) id tm

  -- The storage answers with the record of the ID that is asked.
  pub stored_tenant-id :
      (id : Str) (t : Tenant) (tm : TenantManager env)
      → IsStored tm
      → stored_tenant env id tm ≡ some t
      → t.id ≡ id
  unfolding stored_tenant from_tenant_data
  stored_tenant-id id t tm h e = answer tm.storage h e
    where
      keyed :
          (st : env.storage.State) (r : Result StorageError TenantData)
          → laws.IsValid st
          → env.storage.get_tenant id st ≡ r
          → stored_result r ≡ some t
          → t.id ≡ id
      keyed st (ok d) v g k = ground (arith, laws.get-id id d st v g)
      keyed st (err x) v g k = cc

      answer :
          (o : Option env.storage.State) → IsValidStore o → stored_in env id o ≡ some t → t.id ≡ id
      answer none v k = cc
      answer (some st) v k = keyed st (env.storage.get_tenant id st) v refl k
