-- ===== src/Tenant/Manager/Outcomes.antt =====
-- What `CreateTenant` and `DeleteTenant` have done when they return, and what an error undoes.
use hermes_waf.Prelude.{
  ℕ, Str, ◌≡◌, ◌≢◌, refl, true, Option, none, some, arith, eq_refl, eq_iff, ◌==◌, if◌then◌else◌,
}
use hermes_waf.Prelude.Dict.{lookup, insert, contains, lookup-insert, lookup-delete, is_some}
use hermes_waf.Prelude.Results.{Outcome, returned, failed, panicked}
use hermes_waf.Storage.{StorageError}
use hermes_waf.Tenant.{Tenant}
use hermes_waf.Tenant.Manager.{Error, Env, TenantManager, create_waf_engine, persist, with_engine}
use hermes_waf.Tenant.Manager.Routes.{lookup-map_domains}
use hermes_waf.Tenant.Manager.Frame.{
  SameMaps, create_waf_engine-SameMaps, persist-SameMaps, cache_tenant-SameMaps,
}
use hermes_waf.Tenant.Manager.Create.{
  check_new, finish_create, store_new, stamped, create_unless, create_tenant,
}
use hermes_waf.Tenant.Manager.Routing.{check_new-absent}

module _ {env : Env} where
  -- The manager after a tenant was added: `tm` is the one before.
  pub record IsAdded (t : Tenant) (tm tm' : TenantManager env) : Type 0 where
    pub tenants :
        (j : Str) → lookup j tm'.tenants ≡ (if t.id == j then some t else lookup j tm.tenants)
    pub domains :
        (j : Str)
        → lookup j tm'.domains ≡ (if contains j t.domains then some t else lookup j tm.domains)
    pub engine : is_some (lookup t.id tm'.wafs) ≡ true

  -- Reading the maps shows no difference.
  pub record IsUnchanged (tm tm' : TenantManager env) : Type 0 where
    pub tenants : (j : Str) → lookup j tm'.tenants ≡ lookup j tm.tenants
    pub domains : (j : Str) → lookup j tm'.domains ≡ lookup j tm.domains

  abbrev pub IsCreated :
      Tenant → TenantManager env → Outcome Error (Unit {0}) × TenantManager env → Type 0
  IsCreated t tm (returned _, tm') = IsAdded t tm tm'
  IsCreated t tm (failed e, tm') = IsUnchanged tm tm'
  IsCreated t tm (panicked, tm') = ⊥

  IsCreated-of_SameMaps :
      (t : Tenant) {tm tm' : TenantManager env} (r : Outcome Error (Unit {0}) × TenantManager env)
      → SameMaps tm tm'
      → IsCreated t tm' r
      → IsCreated t tm r
  IsCreated-of_SameMaps t (returned _, tm'') s h = record {
    tenants = λ j. rw (← s.tenants) (h.tenants j);
    domains = λ j. rw (← s.domains) (h.domains j);
    engine = h.engine;
  }
  IsCreated-of_SameMaps t (failed e, tm'') s h = record {
    tenants = λ j. rw (← s.tenants) (h.tenants j);
    domains = λ j. rw (← s.domains) (h.domains j);
  }
  IsCreated-of_SameMaps t (panicked, tm'') s h = absurd h

  finish_create-IsCreated :
      (t : Tenant) (engine : env.waf.Engine) (e : Option StorageError) (tm tm' : TenantManager env)
      → lookup t.id tm.tenants ≡ none
      → tm'.tenants ≡ insert t.id t tm.tenants
      → tm'.domains ≡ tm.domains
      → tm'.wafs ≡ insert t.id engine tm.wafs
      → IsCreated t tm (finish_create env t engine (e, tm'))
  unfolding finish_create
  finish_create-IsCreated t engine (some e) tm tm' absent p q r = record {
    tenants = λ j. rw (p, lookup-delete, lookup-insert) (ground (arith, eq_iff t.id j, absent));
    domains = λ j. rw q;
  }
  finish_create-IsCreated t engine none tm tm' absent p q r =
      let s = cache_tenant-SameMaps t tm' in
      record {
        tenants = λ j. rw (s.tenants, p, lookup-insert);
        domains = λ j. rw (s.domains, q, lookup-map_domains);
        engine = rw (s.wafs, r, lookup-insert, eq_refl);
      }

  store_new-IsCreated :
      (t : Tenant) (engine : env.waf.Engine) (tm : TenantManager env)
      → lookup t.id tm.tenants ≡ none
      → IsCreated t tm (store_new env t engine tm)
  unfolding store_new
  store_new-IsCreated t engine tm absent =
      let stored : TenantManager env = record tm {
        tenants = insert t.id t tm.tenants;
        wafs = insert t.id engine tm.wafs;
      } in
      let s = persist-SameMaps t stored in
      finish_create-IsCreated t engine (persist env t stored).0 tm (persist env t stored).1 absent
        s.tenants s.domains s.wafs

  with_engine-IsCreated :
      (t : Tenant) (tm : TenantManager env) (m : Outcome Error env.waf.Engine × TenantManager env)
      → lookup t.id tm.tenants ≡ none
      → SameMaps tm m.1
      → m.0 ≢ panicked
      → IsCreated t tm (with_engine (store_new env t) m)
  with_engine-IsCreated t tm (returned engine, tm') absent s calm =
      IsCreated-of_SameMaps t (store_new env t engine tm') s
        (store_new-IsCreated t engine tm' (rw s.tenants absent))
  with_engine-IsCreated t tm (failed e, tm') absent s calm = record {
    tenants = λ j. rw s.tenants;
    domains = λ j. rw s.domains;
  }
  with_engine-IsCreated t tm (panicked, tm') absent s calm = calm refl

  -- An engine's creation panics only without a configuration.
  create_waf_engine-ne-panicked :
      (t : Tenant) (tm : TenantManager env)
      → t.config ≢ none
      → (create_waf_engine env t tm).0 ≢ panicked
  unfolding create_waf_engine
  create_waf_engine-ne-panicked t tm h = ground arith

  create_unless-IsCreated :
      (e : Option Error) (t : Tenant) (tm : TenantManager env)
      → (e ≡ none → lookup t.id tm.tenants ≡ none)
      → t.config ≢ none
      → IsCreated t tm (create_unless env e t tm)
  unfolding create_unless
  create_unless-IsCreated (some e) t tm absent h = record {
    tenants = λ j. refl;
    domains = λ j. refl;
  }
  create_unless-IsCreated none t tm absent h =
      with_engine-IsCreated t tm (create_waf_engine env t tm) (absent refl)
        (create_waf_engine-SameMaps t tm) (create_waf_engine-ne-panicked t tm h)

  -- `CreateTenant` never panics. When it returns, the tenant with its defaults and time stamps is
  -- in memory under its ID, has an engine, and each of its domains leads to it, while the other
  -- IDs and domains read as before. When it fails, every ID and domain reads as before.
  pub create_tenant-IsCreated :
      (t : Tenant) (created updated : ℕ) (tm : TenantManager env)
      → IsCreated (stamped t created updated) tm (create_tenant env t created updated tm)
  unfolding create_tenant
  create_tenant-IsCreated t created updated tm =
      create_unless-IsCreated (check_new env t tm) (stamped t created updated) tm
        (check_new-absent t tm) (λ e. cc)
