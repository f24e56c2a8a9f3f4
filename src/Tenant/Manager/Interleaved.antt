-- ===== src/Tenant/Manager/Interleaved.antt =====
-- internal/tenant/manager.go: calls of the manager that come between the sections of others.
use hermes_waf.Prelude.{
  ℕ, Str, ◌≡◌, refl, ◌⊎◌, inl, inr, true, Option, none, some, List, [], ◌∷◌, arith, Bool-cases,
}
use hermes_waf.Prelude.Dict.{Dict, lookup, insert, contains}
use hermes_waf.Prelude.Results.{ok, Outcome}
use hermes_waf.Storage.{StorageError, TenantData}
use hermes_waf.Tenant.{Tenant}
use hermes_waf.Tenant.Conversion.{from_tenant_data}
use hermes_waf.Tenant.Manager.{
  Error, Env, TenantManager, map_domains, unmap_domains, create_waf_engine, persist, uncache_tenant,
  with_engine, find_existing, detach, new_tenant_manager, get_tenant_by_domain,
}
use hermes_waf.Tenant.Manager.Routes.{lookup-map_domains, lookup-unmap_domains}
use hermes_waf.Tenant.Manager.Frame.{
  create_waf_engine-SameMaps, persist-SameMaps, cache_tenant-SameMaps, uncache_tenant-SameMaps,
  with_engine_keeps,
}
use hermes_waf.Tenant.Manager.Create.{
  check_new, finish_create, store_new, stamped, create_unless, create_tenant,
}
use hermes_waf.Tenant.Manager.Update.{update_existing, finish_update, store_update, update_tenant}
use hermes_waf.Tenant.Manager.Delete.{delete_existing, unstore, without_tenant, delete_tenant}
use hermes_waf.Tenant.Manager.Routing.{unstore-SameMaps, finish_delete-SameMaps}
use hermes_waf.Tenant.Manager.Load.{with_loaded, load_all}
use hermes_waf.Tenant.Router.Lookup.{IsFound, get_tenant_by_domain-Covers}
use hermes_waf.Tenant.Manager.Sections.{
  Section, missed, fetched, placed, built, listing, reading, resume, Machine, Move, create, update,
  remove, begin_get, begin_list, proceed, Moves, here, next,
}

-- What a call adds to the mapped domains is a tenant at a domain that it lists.
pub record IsGrown (before after : Dict Tenant) : Type 0 where
  pub grown :
      (d : Str) (t : Tenant)
      → lookup d after ≡ some t
      → (lookup d before ≡ some t) ⊎ (contains d t.domains ≡ true)

IsGrown-trans : {m m' m'' : Dict Tenant} → IsGrown m m' → IsGrown m' m'' → IsGrown m m''
IsGrown-trans {m} {m'} {m''} p q = record { grown = λ d t h. step d t (q.grown d t h) }
  where
    step :
        (d : Str) (t : Tenant)
        → (lookup d m' ≡ some t) ⊎ (contains d t.domains ≡ true)
        → (lookup d m ≡ some t) ⊎ (contains d t.domains ≡ true)
    step d t (inl h) = p.grown d t h
    step d t (inr h) = inr h

IsGrown-map_domains : (t : Tenant) (m : Dict Tenant) → IsGrown m (map_domains t t.domains m)
IsGrown-map_domains t m = record {
  grown = λ d s h. elim (Bool-cases (contains d t.domains)) [
    | inl lists ↦ inr (ground (arith, lookup-map_domains d t t.domains m))
    | inr other ↦ inl (ground (arith, lookup-map_domains d t t.domains m))
  ];
}

IsGrown-unmap_domains : (ds : List Str) (m : Dict Tenant) → IsGrown m (unmap_domains ds m)
IsGrown-unmap_domains ds m = record {
  grown = λ d t h. inl (ground (arith, lookup-unmap_domains d ds m));
}

IsGrown-same : {m m' : Dict Tenant} → m' ≡ m → IsGrown m m'
IsGrown-same e = record { grown = λ d t h. inl (rw e at h) }

module _ {env : Env} where
  abbrev Grown : TenantManager env → TenantManager env → Type 0
  Grown tm tm' = IsGrown tm.domains tm'.domains

  finish_create-Grown :
      (t : Tenant) (engine : env.waf.Engine) (e : Option StorageError) (tm : TenantManager env)
      → Grown tm (finish_create env t engine (e, tm)).1
  unfolding finish_create
  finish_create-Grown t engine (some e) tm = IsGrown-same refl
  finish_create-Grown t engine none tm =
      rw ((cache_tenant-SameMaps t tm).domains) (IsGrown-map_domains t tm.domains)

  store_new-Grown :
      (t : Tenant) (engine : env.waf.Engine) (tm : TenantManager env)
      → Grown tm (store_new env t engine tm).1
  unfolding store_new
  store_new-Grown t engine tm =
      let stored : TenantManager env = record tm {
        tenants = insert t.id t tm.tenants;
        wafs = insert t.id engine tm.wafs;
      } in
      IsGrown-trans (IsGrown-same ((persist-SameMaps t stored).domains))
        (finish_create-Grown t engine (persist env t stored).0 (persist env t stored).1)

  with_engine-Grown :
      {A : Type 0} (t : Tenant) (tm start : TenantManager env)
      (k : env.waf.Engine → TenantManager env → Outcome Error A × TenantManager env)
      → Grown start tm
      → ((e : env.waf.Engine) (tm' : TenantManager env) → Grown tm' (k e tm').1)
      → Grown start (with_engine k (create_waf_engine env t tm)).1
  with_engine-Grown t tm start k g h =
      let made = create_waf_engine env t tm in
      let g' : Grown start made.1 =
        IsGrown-trans g (IsGrown-same ((create_waf_engine-SameMaps t tm).domains)) in
      with_engine_keeps (Grown start) k made g' (λ e. IsGrown-trans g' (h e made.1))

  create_unless-Grown :
      (e : Option Error) (t : Tenant) (tm : TenantManager env)
      → Grown tm (create_unless env e t tm).1
  unfolding create_unless
  create_unless-Grown (some e) t tm = IsGrown-same refl
  create_unless-Grown none t tm =
      with_engine-Grown t tm tm (store_new env t) (IsGrown-same refl) (store_new-Grown t)

  create_tenant-Grown :
      (t : Tenant) (created updated : ℕ) (tm : TenantManager env)
      → Grown tm (create_tenant env t created updated tm).1
  unfolding create_tenant
  create_tenant-Grown t created updated tm =
      create_unless-Grown (check_new env t tm) (stamped t created updated) tm

  finish_update-Grown :
      (t : Tenant) (e : Option StorageError) (tm : TenantManager env)
      → Grown tm (finish_update env t (e, tm)).1
  unfolding finish_update
  finish_update-Grown t (some e) tm = IsGrown-same refl
  finish_update-Grown t none tm =
      let s = uncache_tenant-SameMaps t.id tm in
      let s' = cache_tenant-SameMaps t (uncache_tenant env t.id tm) in
      rw (s'.domains, s.domains) (IsGrown-map_domains t tm.domains)

  store_update-Grown :
      (t : Tenant) (engine : env.waf.Engine) (tm : TenantManager env)
      → Grown tm (store_update env t engine tm).1
  unfolding store_update
  store_update-Grown t engine tm =
      let stored : TenantManager env = record tm {
        tenants = insert t.id t tm.tenants;
        wafs = insert t.id engine tm.wafs;
      } in
      IsGrown-trans (IsGrown-same ((persist-SameMaps t stored).domains))
        (finish_update-Grown t (persist env t stored).0 (persist env t stored).1)

  update_existing-Grown :
      (o : Option Tenant) (t : Tenant) (updated : ℕ) (tm : TenantManager env)
      → Grown tm (update_existing env o t updated tm).1
  unfolding update_existing
  update_existing-Grown none t updated tm = IsGrown-same refl
  update_existing-Grown (some old) t updated tm =
      with_engine-Grown t (detach env t.id old tm) tm
        (store_update env (record t { updated_at = updated }))
        (IsGrown-unmap_domains old.domains tm.domains)
        (store_update-Grown (record t { updated_at = updated }))

  update_tenant-Grown :
      (t : Tenant) (updated : ℕ) (tm : TenantManager env)
      → Grown tm (update_tenant env t updated tm).1
  unfolding update_tenant
  update_tenant-Grown t updated tm = update_existing-Grown (find_existing env t.id tm) t updated tm

  delete_existing-Grown :
      (o : Option Tenant) (id : Str) (tm : TenantManager env)
      → Grown tm (delete_existing env o id tm).1
  unfolding delete_existing
  delete_existing-Grown none id tm = IsGrown-same refl
  delete_existing-Grown (some old) id tm =
      let left = without_tenant env id old tm in
      let r = unstore env id left in
      IsGrown-trans (IsGrown-unmap_domains old.domains tm.domains) (
        IsGrown-trans (IsGrown-same ((unstore-SameMaps id left).domains))
          (IsGrown-same ((finish_delete-SameMaps id r.0 r.1).domains)))

  delete_tenant-Grown : (id : Str) (tm : TenantManager env) → Grown tm (delete_tenant env id tm).1
  unfolding delete_tenant
  delete_tenant-Grown id tm = delete_existing-Grown (find_existing env id tm) id tm

  load_all-Grown : (ds : List TenantData) (tm : TenantManager env) → Grown tm (load_all env ds tm).1
  unfolding load_all
  load_all-Grown [] tm = IsGrown-same refl
  load_all-Grown (d ∷ ds) tm =
      let t = from_tenant_data d in
      IsGrown-trans (IsGrown-map_domains t tm.domains)
        (load_all-Grown ds (with_loaded env t.id t tm))

  resume-Grown : (s : Section env) (tm : TenantManager env) → Grown tm (resume env s tm).1
  unfolding resume
  resume-Grown (missed id) tm = IsGrown-same refl
  resume-Grown (fetched id t) tm = IsGrown-map_domains t tm.domains
  resume-Grown (placed id t) tm = IsGrown-same ((create_waf_engine-SameMaps t tm).domains)
  resume-Grown (built id t engine) tm = IsGrown-same refl
  resume-Grown (listing ds) tm = load_all-Grown ds tm
  resume-Grown reading tm = IsGrown-same refl

  Move-Grown : {m m' : Machine env} → Move env m m' → Grown m.manager m'.manager
  Move-Grown {m} (create t c u) = create_tenant-Grown t c u m.manager
  Move-Grown {m} (update t u) = update_tenant-Grown t u m.manager
  Move-Grown {m} (remove id) = delete_tenant-Grown id m.manager
  Move-Grown {m} (begin_get id) = IsGrown-same refl
  Move-Grown {m} begin_list = IsGrown-same refl
  Move-Grown {m} (proceed earlier later s e) = resume-Grown s m.manager

  Moves-Grown : {m m' : Machine env} → Moves env m m' → Grown m.manager m'.manager
  Moves-Grown here = IsGrown-same refl
  Moves-Grown (next r mv) = IsGrown-trans (Moves-Grown r) (Move-Grown mv)

  -- However calls of the manager interleave, from a new manager on: `GetTenantByDomain` returns a
  -- tenant only for a host, a catch-all or a wildcard of the host that this tenant lists. Calls of
  -- `GetTenant` and `ListTenants` may be anywhere between their sections.
  pub Moves-IsFound :
      (cache : Option env.cache.State) (storage : Option env.storage.State) {m : Machine env}
      → Moves env (record { manager = new_tenant_manager env cache storage; calls = [] }) m
      → (host : Str) (t : Tenant) → get_tenant_by_domain env host m.manager ≡ ok t
      → IsFound m.manager host t
  unfolding new_tenant_manager lookup
  Moves-IsFound cache storage {m} r host t e =
      let (d, c, h) = get_tenant_by_domain-Covers m.manager host t e in
      (d, c, h, elim ((Moves-Grown r).grown d t h) [ inl old ↦ cc | inr listed ↦ listed ])
