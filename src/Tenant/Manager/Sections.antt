-- ===== src/Tenant/Manager/Sections.antt =====
-- internal/tenant/manager.go: `GetTenant` and `ListTenants` in the sections between which they hold
-- no lock, so that other calls may come between: the steps of the machine are the sections, and the
-- methods that hold the lock throughout. Records of tenants are never written in place.
use hermes_waf.Prelude.{ℕ, zero, suc, Str, ◌≡◌, Option, none, some, List, [], ◌∷◌, ◌++◌}
use hermes_waf.Prelude.Dict.{lookup, insert, values}
use hermes_waf.Prelude.Results.{Outcome, returned, failed, panicked}
use hermes_waf.Storage.{TenantData}
use hermes_waf.Tenant.{Tenant}
use hermes_waf.Tenant.Manager.{
  Error, tenant_not_found, Env, TenantManager, create_waf_engine, stored_tenant,
}
use hermes_waf.Tenant.Manager.Create.{create_tenant}
use hermes_waf.Tenant.Manager.Update.{update_tenant}
use hermes_waf.Tenant.Manager.Delete.{delete_tenant}
use hermes_waf.Tenant.Manager.Load.{with_loaded, load_all, stored_list}

-- Where a call stands: memory has no such tenant; the storage has answered; the maps are written; the
-- engine is made; the storage has listed its records; it has listed none.
pub data Section (env : Env) : Type 0 where
  missed : Str → Section env
  fetched : Str → Tenant → Section env
  placed : Str → Tenant → Section env
  built : Str → Tenant → env.waf.Engine → Section env
  listing : List TenantData → Section env
  reading : Section env

pub data Progress (env : Env) : Type 0 where
  waits : Section env → Progress env
  answered : Outcome Error Tenant → Progress env
  answered_all : List Tenant → Progress env

module _ (env : Env) where
  abbrev pub looked : Str → Option Tenant → Progress env
  looked id (some t) = answered (returned t)
  looked id none = waits (missed id)

  -- "Try in-memory cache first"
  unfoldable pub start_get : Str → TenantManager env → Progress env
  start_get id tm = looked id (lookup id tm.tenants)

  abbrev pub listed_or : List TenantData → Progress env
  listed_or [] = waits reading
  listed_or (d ∷ ds) = waits (listing (d ∷ ds))

  -- "Try storage first if available"
  unfoldable pub start_list : TenantManager env → Progress env
  start_list tm = listed_or (stored_list env tm)

  abbrev pub fetched_or : Str → Option Tenant → Progress env
  fetched_or id none = answered (failed (tenant_not_found id))
  fetched_or id (some t) = waits (fetched id t)

  abbrev pub built_or : Str → Tenant → Outcome Error env.waf.Engine → Progress env
  built_or id t (returned engine) = waits (built id t engine)
  built_or id t (failed e) = answered (failed e)
  built_or id t panicked = answered panicked

  -- The next section.
  unfoldable pub resume : Section env → TenantManager env → Progress env × TenantManager env
  resume (missed id) tm = (fetched_or id (stored_tenant env id tm), tm)
  resume (fetched id t) tm = (waits (placed id t), with_loaded env id t tm)
  resume (placed id t) tm = let (r, tm') = create_waf_engine env t tm in (built_or id t r, tm')
  resume (built id t engine) tm =
      (answered (returned t), record tm { wafs = insert id engine tm.wafs })
  resume (listing ds) tm = let (ts, tm') = load_all env ds tm in (answered_all ts, tm')
  resume reading tm = (answered_all (values tm.tenants), tm)

  -- So many sections with nothing between them.
  unfoldable pub run : ℕ → Progress env → TenantManager env → Progress env × TenantManager env
  run zero p tm = (p, tm)
  run (suc n) (waits s) tm = run n (resume s tm).0 (resume s tm).1
  run (suc n) (answered r) tm = (answered r, tm)
  run (suc n) (answered_all ts) tm = (answered_all ts, tm)

  pub record Machine : Type 0 where
    pub manager : TenantManager env
    -- the calls that are under way
    pub calls : List (Section env)

  abbrev pub under_way : Progress env → List (Section env) → List (Section env)
  under_way (waits s) calls = s ∷ calls
  under_way (answered r) calls = calls
  under_way (answered_all ts) calls = calls

  abbrev pub continued : Progress env × TenantManager env → List (Section env) → Machine
  continued (p, tm) calls = record { manager = tm; calls = under_way p calls }

  pub data Move (m : Machine) : Machine → Type 0 where
    create :
        (t : Tenant) (created updated : ℕ)
        → Move m (record m { manager = (create_tenant env t created updated m.manager).1 })
    update :
        (t : Tenant) (updated : ℕ)
        → Move m (record m { manager = (update_tenant env t updated m.manager).1 })
    remove : (id : Str) → Move m (record m { manager = (delete_tenant env id m.manager).1 })
    begin_get : (id : Str) → Move m (continued (start_get id m.manager, m.manager) m.calls)
    begin_list : Move m (continued (start_list m.manager, m.manager) m.calls)
    proceed :
        (earlier later : List (Section env)) (s : Section env)
        → m.calls ≡ earlier ++ s ∷ later
        → Move m (continued (resume s m.manager) (earlier ++ later))

  pub data Moves (start : Machine) : Machine → Type 0 where
    here : Moves start start
    next : {m m' : Machine} → Moves start m → Move m m' → Moves start m'
