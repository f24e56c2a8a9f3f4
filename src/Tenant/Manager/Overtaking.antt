-- ===== src/Tenant/Manager/Overtaking.antt =====
-- internal/tenant/manager.go: a call of `GetTenant` that a deletion overtakes.
use mathlib.Core.Path.{subst}
use hermes_waf.Prelude.{Str, ◌≡◌, refl, true, Option, none, some, [], ◌∷◌, arith, eq_refl}
use hermes_waf.Prelude.Dict.{lookup, contains, lookup-insert}
use hermes_waf.Prelude.Results.{ok, returned}
use hermes_waf.Storage.{StorageError, StorageLaws}
use hermes_waf.Tenant.{Tenant}
use hermes_waf.Tenant.Manager.{
  Env, TenantManager, uncache_tenant, find_existing, stored_tenant, get_tenant_by_domain,
}
use hermes_waf.Tenant.Manager.Routes.{lookup-map_domains}
use hermes_waf.Tenant.Manager.Delete.{
  delete_in, unstore, finish_delete, without_tenant, delete_existing, delete_tenant,
}
use hermes_waf.Tenant.Manager.Load.{with_loaded}
use hermes_waf.Tenant.Manager.Sections.{
  missed, fetched, placed, looked, fetched_or, start_get, resume, Machine, Move, remove, begin_get,
  proceed, continued, Moves, here, next,
}

module _ (env : Env) where
  -- What a deletion leaves between the storage's answer and the write to memory.
  abbrev pub overtaken : Str → Tenant → TenantManager env → TenantManager env
  overtaken id t tm = with_loaded env id t (delete_tenant env id tm).1

  abbrev pub alone : TenantManager env → Machine env
  alone tm = record { manager = tm; calls = [] }

  overtaken-Moves :
      (id : Str) (t : Tenant) (tm : TenantManager env)
      → lookup id tm.tenants ≡ none
      → stored_tenant env id tm ≡ some t
      → Moves env (alone tm) (record { manager = overtaken id t tm; calls = placed id t ∷ [] })
  unfolding resume start_get
  overtaken-Moves id t tm absent there =
      let first : Move env (alone tm) (record { manager = tm; calls = missed id ∷ [] }) =
        subst (λ o. Move env (alone tm) (continued env (looked env id o, tm) [])) absent
          (begin_get id) in
      let second : Move env (record { manager = tm; calls = missed id ∷ [] })
          (record { manager = tm; calls = fetched id t ∷ [] }) =
        subst
          (λ o.
            Move env (record { manager = tm; calls = missed id ∷ [] })
              (continued env (fetched_or env id o, tm) []))
          there (proceed [] [] (missed id) refl) in
      next (next (next (next here first) second) (remove id)) (proceed [] [] (fetched id t) refl)

  -- A deletion that succeeds left an error of the storage out.
  finished :
      (id : Str) (e : Option StorageError) (tm : TenantManager env)
      → (finish_delete env id (e, tm)).0 ≡ returned tt
      → (e ≡ none) × ((finish_delete env id (e, tm)).1.storage ≡ tm.storage)
  unfolding finish_delete uncache_tenant
  finished id none tm h = (refl, ground arith)
  finished id (some e) tm h = cc

  module _ (laws : StorageLaws env.storage) where
    unstored_in :
        (id : Str) (o : Option env.storage.State) (left : TenantManager env)
        → left.storage ≡ o
        → (finish_delete env id (delete_in env o id left)).0 ≡ returned tt
        → stored_tenant env id (finish_delete env id (delete_in env o id left)).1 ≡ none
    unfolding delete_in stored_tenant
    unstored_in id none left e h = let (_, same) = finished id none left h in rw (same, e) refl
    unstored_in id (some st) left e h =
        let r = env.storage.delete_tenant id st in
        let (deleted, same) = finished id r.0 (record left { storage = some r.1 }) h in
        let (e', gone) = laws.get-delete id st deleted in rw (same, gone) refl

    unstored :
        (id : Str) (o : Option Tenant) (tm : TenantManager env)
        → (delete_existing env o id tm).0 ≡ returned tt
        → stored_tenant env id (delete_existing env o id tm).1 ≡ none
    unfolding delete_existing unstore
    unstored id none tm h = cc
    unstored id (some old) tm h = unstored_in id tm.storage (without_tenant env id old tm) refl h

    -- After a deletion that succeeds the storage has no such tenant.
    pub stored_tenant-delete_tenant :
        (id : Str) (tm : TenantManager env)
        → (delete_tenant env id tm).0 ≡ returned tt
        → stored_tenant env id (delete_tenant env id tm).1 ≡ none
    unfolding delete_tenant
    stored_tenant-delete_tenant id tm h = unstored id (find_existing env id tm) tm h

    -- A deletion that overtakes a call of `GetTenant` is undone in memory. The tenant is in the storage
    -- and not in memory; `GetTenant` asks the storage, then `DeleteTenant` runs and returns no error,
    -- then `GetTenant` goes on. The manager reaches this state, and in it the storage has no such
    -- tenant, while memory has it and each of its domains leads to it. The storage obeys the laws
    -- that `StorageLaws` states.
    pub overtaken_lem :
        (id : Str) (t : Tenant) (tm : TenantManager env)
        → lookup id tm.tenants ≡ none
        → stored_tenant env id tm ≡ some t
        → (delete_tenant env id tm).0 ≡ returned tt
        → Moves env (alone tm) (record { manager = overtaken id t tm; calls = placed id t ∷ [] })
          × (stored_tenant env id (overtaken id t tm) ≡ none)
          × (lookup id (overtaken id t tm).tenants ≡ some t)
          × ((d : Str)
              → contains d t.domains ≡ true
              → get_tenant_by_domain env d (overtaken id t tm) ≡ ok t)
    unfolding stored_tenant get_tenant_by_domain
    overtaken_lem id t tm absent there deleted = (
      overtaken-Moves id t tm absent there,
      stored_tenant-delete_tenant id tm deleted,
      rw (lookup-insert, eq_refl) refl,
      λ d listed.
          rw (lookup-map_domains d t t.domains (delete_tenant env id tm).1.domains, listed) refl,
    )
