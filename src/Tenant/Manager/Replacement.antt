-- ===== src/Tenant/Manager/Replacement.antt =====
-- What `UpdateTenant` has done when it returns, and what it leaves behind when it does not.
use hermes_waf.Prelude.{
  ℕ, Str, ◌≡◌, refl, ap, ◌∙◌, true, Option, none, some, List, ◌∷◌, arith, eq_refl, ◌==◌,
  if◌then◌else◌,
}
use hermes_waf.Prelude.Dict.{lookup, insert, contains, lookup-insert, is_some}
use hermes_waf.Prelude.Results.{Outcome, returned, failed, panicked}
use hermes_waf.Storage.{StorageError}
use hermes_waf.Tenant.{Tenant}
use hermes_waf.Tenant.Manager.{
  Error, Env, TenantManager, create_waf_engine, persist, uncache_tenant, find_existing, detach,
  unmap_domains, with_engine,
}
use hermes_waf.Tenant.Manager.Routes.{lookup-map_domains, lookup-unmap_domains, IsUnrouted}
use hermes_waf.Tenant.Manager.Frame.{
  SameMaps, create_waf_engine-SameMaps, persist-SameMaps, cache_tenant-SameMaps,
  uncache_tenant-SameMaps, IsRouted, IsUnrouted-find_existing,
}
use hermes_waf.Tenant.Manager.Update.{finish_update, store_update, update_tenant}

module _ {env : Env} where
  closed-create_waf_engine :
      (t : Tenant) (tm : TenantManager env) → (create_waf_engine env t tm).1.closed ≡ tm.closed
  unfolding create_waf_engine
  closed-create_waf_engine t tm = ground arith

  create_waf_engine-no_config :
      (t : Tenant) (tm : TenantManager env)
      → t.config ≡ none
      → (create_waf_engine env t tm).0 ≡ panicked
  unfolding create_waf_engine
  create_waf_engine-no_config t tm h = ground arith

  with_engine-panicked :
      {A : Type 0} (k : env.waf.Engine → TenantManager env → Outcome Error A × TenantManager env)
      (m : Outcome Error env.waf.Engine × TenantManager env)
      → m.0 ≡ panicked
      → with_engine k m ≡ (panicked, m.1)
  with_engine-panicked k (returned x, tm) h = cc
  with_engine-panicked k (failed x, tm) h = cc
  with_engine-panicked k (panicked, tm) h = refl

  with_engine-failed :
      {A : Type 0} (k : env.waf.Engine → TenantManager env → Outcome Error A × TenantManager env)
      (m : Outcome Error env.waf.Engine × TenantManager env) (e : Error)
      → m.0 ≡ failed e
      → with_engine k m ≡ (failed e, m.1)
  with_engine-failed k (returned x, tm) e h = cc
  with_engine-failed k (failed x, tm) e h = cc
  with_engine-failed k (panicked, tm) e h = cc

  -- The manager after an update stopped half-way: the tenant is in memory and has its engine as
  -- before, but the engine is closed and no domain leads to the tenant.
  pub record IsStranded (t old : Tenant) (engine : env.waf.Engine) (tm' : TenantManager env)
      : Type 0 where
    pub tenant : lookup t.id tm'.tenants ≡ some old
    pub engine_kept : lookup t.id tm'.wafs ≡ some engine
    pub engine_closed : (rest : List env.waf.Engine) × (tm'.closed ≡ engine ∷ rest)
    pub unrouted : IsUnrouted t.id tm'.domains

  module _ (t old : Tenant) (engine : env.waf.Engine) (tm : TenantManager env) (a : IsRouted tm)
      (h : lookup t.id tm.tenants ≡ some old) (k : lookup t.id tm.wafs ≡ some engine) where
    found : find_existing env t.id tm ≡ some old
    unfolding find_existing
    found = ground arith

    detach-IsStranded : IsStranded t old engine (create_waf_engine env t (detach env t.id old tm)).1
    detach-IsStranded =
        let s = create_waf_engine-SameMaps t (detach env t.id old tm) in
        record {
          tenant = rw s.tenants h;
          engine_kept = rw s.wafs k;
          engine_closed = (tm.closed, closed-create_waf_engine t (detach env t.id old tm) ∙ rw k);
          unrouted = rw s.domains (IsUnrouted-find_existing t.id old tm a found);
        }

    -- An update of a tenant in memory, which has an engine, by a record without a configuration
    -- panics, and strands the tenant: it stays in memory with its old record and its old engine,
    -- which is closed, and no domain leads to it. The routes agreed with the tenants before.
    pub update_tenant-no_config :
        (updated : ℕ)
        → t.config ≡ none
        → ((update_tenant env t updated tm).0 ≡ panicked)
          × IsStranded t old engine (update_tenant env t updated tm).1
    unfolding update_tenant
    update_tenant-no_config updated none_there =
        let stuck = create_waf_engine-no_config t (detach env t.id old tm) none_there in
        rw
          (
            found,
            with_engine-panicked (store_update env (record t { updated_at = updated }))
                (create_waf_engine env t (detach env t.id old tm)) stuck,
          )
          (refl, detach-IsStranded)

    -- An update of a tenant in memory, which has an engine, fails if the new engine cannot be
    -- created, and strands the tenant: it stays in memory with its old record and its old engine,
    -- which is closed, and no domain leads to it. The routes agreed with the tenants before.
    pub update_tenant-engine_failed :
        (updated : ℕ) (e : Error)
        → (create_waf_engine env t (detach env t.id old tm)).0 ≡ failed e
        → ((update_tenant env t updated tm).0 ≡ failed e)
          × IsStranded t old engine (update_tenant env t updated tm).1
    unfolding update_tenant
    update_tenant-engine_failed updated e bad =
        rw
          (
            found,
            with_engine-failed (store_update env (record t { updated_at = updated }))
                (create_waf_engine env t (detach env t.id old tm)) e bad,
          )
          (refl, detach-IsStranded)

  -- The manager after a record replaced an old one.
  pub record IsReplaced (t old : Tenant) (tm tm' : TenantManager env) : Type 0 where
    pub tenants :
        (j : Str) → lookup j tm'.tenants ≡ (if t.id == j then some t else lookup j tm.tenants)
    pub domains :
        (j : Str)
        → lookup j tm'.domains ≡ (
            if contains j t.domains
            then some t
            else if contains j old.domains
            then none
            else lookup j tm.domains)
    pub engine : is_some (lookup t.id tm'.wafs) ≡ true

  -- The domains of the old record are not mapped, and the others read as before.
  abbrev pub IsDetached : Tenant → TenantManager env → TenantManager env → Type 0
  IsDetached old tm tm' =
      (j : Str)
      → lookup j tm'.domains ≡ (if contains j old.domains then none else lookup j tm.domains)

  abbrev pub IsUpdated :
      Tenant → Tenant → TenantManager env → Outcome Error (Unit {0}) × TenantManager env → Type 0
  IsUpdated t old tm (returned _, tm') = IsReplaced t old tm tm'
  IsUpdated t old tm (_, tm') = IsDetached old tm tm'

  finish_update-IsUpdated :
      (t old : Tenant) (engine : env.waf.Engine) (e : Option StorageError)
      (tm tm' : TenantManager env)
      → tm'.tenants ≡ insert t.id t tm.tenants
      → tm'.domains ≡ unmap_domains old.domains tm.domains
      → tm'.wafs ≡ insert t.id engine tm.wafs
      → IsUpdated t old tm (finish_update env t (e, tm'))
  unfolding finish_update
  finish_update-IsUpdated t old engine (some e) tm tm' p q r = λ j. rw (q, lookup-unmap_domains)
  finish_update-IsUpdated t old engine none tm tm' p q r =
      let s = uncache_tenant-SameMaps t.id tm' in
      let s' = cache_tenant-SameMaps t (uncache_tenant env t.id tm') in
      record {
        tenants = λ j. rw (s'.tenants, s.tenants, p, lookup-insert);
        domains = λ j. rw (s'.domains, s.domains, q, lookup-map_domains, lookup-unmap_domains);
        engine = rw (s'.wafs, s.wafs, r, lookup-insert, eq_refl);
      }

  -- `tm` is the manager before, and `mid` the one in which the new engine was created.
  with_engine-IsUpdated :
      (t old : Tenant) (tm mid : TenantManager env)
      (m : Outcome Error env.waf.Engine × TenantManager env)
      → mid.tenants ≡ tm.tenants
      → mid.domains ≡ unmap_domains old.domains tm.domains
      → mid.wafs ≡ tm.wafs
      → SameMaps mid m.1
      → IsUpdated t old tm (with_engine (store_update env t) m)
  unfolding store_update
  with_engine-IsUpdated t old tm mid (returned engine, tm') p q r s =
      let stored : TenantManager env = record tm' {
        tenants = insert t.id t tm'.tenants;
        wafs = insert t.id engine tm'.wafs;
      } in
      let k = persist-SameMaps t stored in
      finish_update-IsUpdated t old engine (persist env t stored).0 tm (persist env t stored).1
        (k.tenants ∙ ap (λ m. insert t.id t m) (s.tenants ∙ p)) (k.domains ∙ s.domains ∙ q)
        (k.wafs ∙ ap (λ m. insert t.id engine m) (s.wafs ∙ r))
  with_engine-IsUpdated t old tm mid (failed e, tm') p q r s =
      λ j. rw (s.domains, q, lookup-unmap_domains)
  with_engine-IsUpdated t old tm mid (panicked, tm') p q r s =
      λ j. rw (s.domains, q, lookup-unmap_domains)

  -- `UpdateTenant` of a tenant that memory or the storage has. When it returns, the new record
  -- with its time stamp is in memory and has an engine, its domains lead to it, the old record's
  -- other domains lead nowhere, and all else reads as before. When it fails or panics, the old
  -- record's domains lead nowhere and the other domains read as before.
  pub update_tenant-IsUpdated :
      (t old : Tenant) (updated : ℕ) (tm : TenantManager env)
      → find_existing env t.id tm ≡ some old
      → IsUpdated (record t { updated_at = updated }) old tm (update_tenant env t updated tm)
  unfolding update_tenant
  update_tenant-IsUpdated t old updated tm h = rw h (
      with_engine-IsUpdated (record t { updated_at = updated }) old tm (detach env t.id old tm)
        (create_waf_engine env t (detach env t.id old tm)) refl refl refl
        (create_waf_engine-SameMaps t (detach env t.id old tm)))
