-- ===== src/Tenant/Manager/Routing.antt =====
-- The operations keep the routing maps in agreement, on every outcome.
use mathlib.Core.Path.{subst}
use hermes_waf.Prelude.{ℕ, Str, ◌≡◌, refl, Option, none, some, arith, eq_refl}
use hermes_waf.Prelude.Dict.{lookup, insert, lookup-insert}
use hermes_waf.Storage.{StorageError}
use hermes_waf.Tenant.{Tenant}
use hermes_waf.Tenant.Manager.{
  Error, Env, TenantManager, create_waf_engine, persist, uncache_tenant, stored_tenant,
  find_existing, detach,
}
use hermes_waf.Tenant.Manager.Routes.{
  Agrees-insert, Agrees-delete, Agrees-map_domains, Agrees-unmap_domains, IsUnrouted,
  IsUnrouted-of_absent,
}
use hermes_waf.Tenant.Manager.Frame.{
  SameMaps, create_waf_engine-SameMaps, persist-SameMaps, cache_tenant-SameMaps,
  uncache_tenant-SameMaps, with_engine_keeps, IsRouted, IsUnrouted-find_existing,
}
use hermes_waf.Tenant.Manager.Create.{
  check_new, finish_create, store_new, stamped, create_unless, create_tenant,
}
use hermes_waf.Tenant.Manager.Update.{update_existing, finish_update, store_update, update_tenant}
use hermes_waf.Tenant.Manager.Delete.{
  delete_existing, unstore, finish_delete, without_tenant, delete_tenant,
}
use hermes_waf.Tenant.Manager.Load.{with_loaded, add_engine, get_tenant, get_unless, load_tenant}

module _ {env : Env} where
  IsRouted-of_SameMaps : {tm tm' : TenantManager env} → SameMaps tm tm' → IsRouted tm → IsRouted tm'
  IsRouted-of_SameMaps s a = rw (s.tenants, s.domains) a

  finish_create-IsRouted :
      (t : Tenant) (engine : env.waf.Engine) (e : Option StorageError) (tm : TenantManager env)
      → IsRouted tm
      → IsUnrouted t.id tm.domains
      → lookup t.id tm.tenants ≡ some t
      → IsRouted (finish_create env t engine (e, tm)).1
  unfolding finish_create
  finish_create-IsRouted t engine (some e) tm a free h = Agrees-delete a t.id free
  finish_create-IsRouted t engine none tm a free h =
      let s = cache_tenant-SameMaps t tm in rw (s.tenants, s.domains) (Agrees-map_domains t a h)

  store_new-IsRouted :
      (t : Tenant) (engine : env.waf.Engine) (tm : TenantManager env)
      → IsRouted tm
      → IsUnrouted t.id tm.domains
      → IsRouted (store_new env t engine tm).1
  unfolding store_new
  store_new-IsRouted t engine tm a free =
      let stored : TenantManager env = record tm {
        tenants = insert t.id t tm.tenants;
        wafs = insert t.id engine tm.wafs;
      } in
      let s = persist-SameMaps t stored in
      finish_create-IsRouted t engine (persist env t stored).0 (persist env t stored).1
        (IsRouted-of_SameMaps s (Agrees-insert a t free)) (rw s.domains free)
        (rw (s.tenants, lookup-insert, eq_refl))

  pub check_new-absent :
      (t : Tenant) (tm : TenantManager env)
      → check_new env t tm ≡ none
      → lookup t.id tm.tenants ≡ none
  unfolding check_new
  check_new-absent t tm h = ground arith

  create_unless-IsRouted :
      (e : Option Error) (t : Tenant) (tm : TenantManager env)
      → IsRouted tm
      → (e ≡ none → lookup t.id tm.tenants ≡ none)
      → IsRouted (create_unless env e t tm).1
  unfolding create_unless
  create_unless-IsRouted (some e) t tm a h = a
  create_unless-IsRouted none t tm a h =
      let s = create_waf_engine-SameMaps t tm in
      with_engine_keeps IsRouted (store_new env t) (create_waf_engine env t tm)
        (IsRouted-of_SameMaps s a)
        (λ engine.
          store_new-IsRouted t engine (create_waf_engine env t tm).1 (IsRouted-of_SameMaps s a)
            (rw s.domains (IsUnrouted-of_absent a t.id (h refl))))

  -- If every mapped domain leads to the present record of a tenant that lists it, so it is after
  -- `CreateTenant`, whatever it returns.
  pub create_tenant-IsRouted :
      (t : Tenant) (created updated : ℕ) (tm : TenantManager env)
      → IsRouted tm
      → IsRouted (create_tenant env t created updated tm).1
  unfolding create_tenant
  create_tenant-IsRouted t created updated tm a =
      create_unless-IsRouted (check_new env t tm) (stamped t created updated) tm a
        (check_new-absent t tm)

  finish_update-IsRouted :
      (t : Tenant) (e : Option StorageError) (tm : TenantManager env)
      → IsRouted tm
      → lookup t.id tm.tenants ≡ some t
      → IsRouted (finish_update env t (e, tm)).1
  unfolding finish_update
  finish_update-IsRouted t (some e) tm a h = a
  finish_update-IsRouted t none tm a h =
      let s = uncache_tenant-SameMaps t.id tm in
      let s' = cache_tenant-SameMaps t (uncache_tenant env t.id tm) in
      rw (s'.tenants, s'.domains, s.tenants, s.domains) (Agrees-map_domains t a h)

  store_update-IsRouted :
      (t : Tenant) (engine : env.waf.Engine) (tm : TenantManager env)
      → IsRouted tm
      → IsUnrouted t.id tm.domains
      → IsRouted (store_update env t engine tm).1
  unfolding store_update
  store_update-IsRouted t engine tm a free =
      let stored : TenantManager env = record tm {
        tenants = insert t.id t tm.tenants;
        wafs = insert t.id engine tm.wafs;
      } in
      let s = persist-SameMaps t stored in
      finish_update-IsRouted t (persist env t stored).0 (persist env t stored).1
        (IsRouted-of_SameMaps s (Agrees-insert a t free)) (rw (s.tenants, lookup-insert, eq_refl))

  update_existing-IsRouted :
      (o : Option Tenant) (t : Tenant) (updated : ℕ) (tm : TenantManager env)
      → IsRouted tm
      → find_existing env t.id tm ≡ o
      → IsRouted (update_existing env o t updated tm).1
  unfolding update_existing
  update_existing-IsRouted none t updated tm a h = a
  update_existing-IsRouted (some old) t updated tm a h =
      let detached = detach env t.id old tm in
      let s = create_waf_engine-SameMaps t detached in
      let cut = IsRouted-of_SameMaps s (Agrees-unmap_domains a old.domains) in
      with_engine_keeps IsRouted (store_update env (record t { updated_at = updated }))
        (create_waf_engine env t detached) cut
        (λ engine.
          store_update-IsRouted (record t { updated_at = updated }) engine
            (create_waf_engine env t detached).1 cut
            (rw s.domains (IsUnrouted-find_existing t.id old tm a h)))

  -- If every mapped domain leads to the present record of a tenant that lists it, so it is after
  -- `UpdateTenant`, whatever it returns, and also when it panics.
  pub update_tenant-IsRouted :
      (t : Tenant) (updated : ℕ) (tm : TenantManager env)
      → IsRouted tm
      → IsRouted (update_tenant env t updated tm).1
  unfolding update_tenant
  update_tenant-IsRouted t updated tm a =
      update_existing-IsRouted (find_existing env t.id tm) t updated tm a refl

  pub unstore-SameMaps : (id : Str) (tm : TenantManager env) → SameMaps tm (unstore env id tm).1
  unfolding unstore
  unstore-SameMaps id tm = ground arith

  pub finish_delete-SameMaps :
      (id : Str) (e : Option StorageError) (tm : TenantManager env)
      → SameMaps tm (finish_delete env id (e, tm)).1
  unfolding finish_delete
  finish_delete-SameMaps id (some e) tm = ground arith
  finish_delete-SameMaps id none tm = uncache_tenant-SameMaps id tm

  delete_existing-IsRouted :
      (o : Option Tenant) (id : Str) (tm : TenantManager env)
      → IsRouted tm
      → find_existing env id tm ≡ o
      → IsRouted (delete_existing env o id tm).1
  unfolding delete_existing
  delete_existing-IsRouted none id tm a h = a
  delete_existing-IsRouted (some old) id tm a h =
      let left = without_tenant env id old tm in
      let removed =
        Agrees-delete (Agrees-unmap_domains a old.domains) id
          (IsUnrouted-find_existing id old tm a h) in
      IsRouted-of_SameMaps
        (finish_delete-SameMaps id (unstore env id left).0 (unstore env id left).1)
        (IsRouted-of_SameMaps (unstore-SameMaps id left) removed)

  -- If every mapped domain leads to the present record of a tenant that lists it, so it is after
  -- `DeleteTenant`, whatever it returns.
  pub delete_tenant-IsRouted :
      (id : Str) (tm : TenantManager env) → IsRouted tm → IsRouted (delete_tenant env id tm).1
  unfolding delete_tenant
  delete_tenant-IsRouted id tm a = delete_existing-IsRouted (find_existing env id tm) id tm a refl

  pub with_loaded-IsRouted :
      (t : Tenant) (tm : TenantManager env)
      → IsRouted tm
      → lookup t.id tm.tenants ≡ none
      → IsRouted (with_loaded env t.id t tm)
  with_loaded-IsRouted t tm a absent =
      Agrees-map_domains t (Agrees-insert a t (IsUnrouted-of_absent a t.id absent))
        (rw (lookup-insert, eq_refl))

  load_tenant-IsRouted :
      (o : Option Tenant) (id : Str) (tm : TenantManager env)
      → IsRouted tm
      → lookup id tm.tenants ≡ none
      → ((t : Tenant) → o ≡ some t → t.id ≡ id)
      → IsRouted (load_tenant env o id tm).1
  unfolding load_tenant
  load_tenant-IsRouted none id tm a absent keyed = a
  load_tenant-IsRouted (some t) id tm a absent keyed =
      let same = keyed t refl in
      let loaded =
        subst (λ i. IsRouted (with_loaded env i t tm)) same
          (with_loaded-IsRouted t tm a (rw same absent)) in
      let s = create_waf_engine-SameMaps t (with_loaded env id t tm) in
      with_engine_keeps IsRouted (add_engine env id t)
        (create_waf_engine env t (with_loaded env id t tm)) (IsRouted-of_SameMaps s loaded)
        (λ engine. IsRouted-of_SameMaps s loaded)

  get_unless-IsRouted :
      (o : Option Tenant) (id : Str) (tm : TenantManager env)
      → IsRouted tm
      → lookup id tm.tenants ≡ o
      → ((t : Tenant) → stored_tenant env id tm ≡ some t → t.id ≡ id)
      → IsRouted (get_unless env o id tm).1
  unfolding get_unless
  get_unless-IsRouted (some t) id tm a h keyed = a
  get_unless-IsRouted none id tm a h keyed =
      load_tenant-IsRouted (stored_tenant env id tm) id tm a h keyed

  -- If every mapped domain leads to the present record of a tenant that lists it, so it is after
  -- `GetTenant`, whatever it returns, and also when it panics. The storage answers with a record of
  -- the ID that it is asked for.
  pub get_tenant-IsRouted :
      (id : Str) (tm : TenantManager env)
      → IsRouted tm
      → ((t : Tenant) → stored_tenant env id tm ≡ some t → t.id ≡ id)
      → IsRouted (get_tenant env id tm).1
  unfolding get_tenant
  get_tenant-IsRouted id tm a keyed = get_unless-IsRouted (lookup id tm.tenants) id tm a refl keyed
