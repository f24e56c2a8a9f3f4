-- ===== src/Tenant/Manager.antt =====
-- internal/tenant/manager.go: the tenant manager. Each method holds the manager's mutex for its
-- whole run, so a method is a function on the state; `GetTenant` and `ListTenants`, which give it up
-- between their steps, are cut there in `Sections`, and are here run one at a time. What the source reads from the clock is an argument. Log
-- lines are left out. A panic leaves the state that was written up to it.
pub mod Routes
pub mod Frame
pub mod Create
pub mod Update
pub mod Delete
pub mod Load
pub mod Routing
pub mod Outcomes
pub mod Removal
pub mod Replacement
pub mod Engines
pub mod Writes
pub mod Stored
pub mod Runs
pub mod Sections
pub mod Alone
pub mod Interleaved
pub mod Overtaking
use hermes_waf.Prelude.{
  ℕ, suc, ◌+◌, ◌*◌, Str, bytes, Bool, true, false, Option, none, some, List, [], ◌∷◌, ◌++◌, ◌==◌,
  if◌then◌else◌,
}
use hermes_waf.Prelude.Dict.{Dict, lookup, insert, delete, values, is_some}
use hermes_waf.Prelude.Results.{Result, ok, err, Outcome, returned, failed, panicked}
use hermes_waf.Text.{split, join}
use hermes_waf.Waf.{Waf, WafConfig}
use hermes_waf.Storage.{Storage, StorageError, TenantData}
use hermes_waf.Cache.{Cache}
use hermes_waf.Tenant.{Tenant, TenantConfig}
use hermes_waf.Tenant.Conversion.{to_tenant_data, from_tenant_data}

pub data Error : Type 0 where
  tenant_id_required tenant_name_required domain_required : Error
  tenant_exists domain_mapped tenant_not_found no_tenant_for_domain no_engine : Str → Error
  engine_failed : Str → Error
  persist_failed update_failed delete_failed : StorageError → Error

-- What a manager is built over: the engine package, a storage and a cache.
pub record Env : Type 1 where
  pub waf : Waf
  pub storage : Storage
  pub cache : Cache Tenant

pub record TenantManager (env : Env) : Type 0 where
  pub tenants : Dict Tenant
  pub domains : Dict Tenant
  pub wafs : Dict env.waf.Engine
  -- `nil` is `none`
  pub cache : Option env.cache.State
  pub storage : Option env.storage.State
  -- the engines that were closed, and the number of calls of `waf.NewEngine`
  pub closed : List env.waf.Engine
  pub engines : ℕ

abbrev pub cache_key : Str → Str
cache_key id = bytes "tenant:" ++ id

-- `for _, domain := range domains { tm.domains[domain] = tenant }`
unfoldable pub map_domains : Tenant → List Str → Dict Tenant → Dict Tenant
map_domains t [] m = m
map_domains t (d ∷ ds) m = map_domains t ds (insert d t m)

-- `for _, domain := range domains { delete(tm.domains, domain) }`
unfoldable pub unmap_domains : List Str → Dict Tenant → Dict Tenant
unmap_domains [] m = m
unmap_domains (d ∷ ds) m = unmap_domains ds (delete d m)

-- The configuration that `createWAFEngine` builds; `none` is a `nil` dereference.
abbrev pub waf_config : Tenant → Option WafConfig
waf_config t = elim t.config [
  | none ↦ none
  | some c ↦ some (record {
    rules_files = t.rules;
    request_body_access = c.request_body_access;
    request_body_limit = c.request_body_limit;
    response_body_access = c.response_body_access;
    response_body_limit = c.response_body_limit;
    audit_log_enabled = c.audit_log_enabled;
    default_action = c.default_action;
  })
]

-- "*." and all parts but the first, where there are more than two.
abbrev pub wildcard_parts : List Str → Option Str
wildcard_parts (p ∷ q ∷ r ∷ rs) = some (bytes "*." ++ join (bytes ".") (q ∷ r ∷ rs))
wildcard_parts _ = none

-- The wildcard of a domain with more than two parts.
unfoldable pub wildcard_of : Str → Option Str
wildcard_of domain = wildcard_parts (split b'.' domain)

abbrev pub or_else : Option Tenant → Option Tenant → Option Tenant
or_else (some t) o = some t
or_else none o = o

abbrev pub lookup_opt : Option Str → Dict Tenant → Option Tenant
lookup_opt none m = none
lookup_opt (some d) m = lookup d m

abbrev pub domain_result : Str → Option Tenant → Result Error Tenant
domain_result d none = err (no_tenant_for_domain d)
domain_result d (some t) = ok t

abbrev pub stored_result : Result StorageError TenantData → Option Tenant
stored_result (ok d) = some (from_tenant_data d)
stored_result (err e) = none

module _ (env : Env) where
  unfoldable pub new_tenant_manager :
      Option env.cache.State → Option env.storage.State → TenantManager env
  new_tenant_manager cache storage = record {
    tenants = [];
    domains = [];
    wafs = [];
    cache = cache;
    storage = storage;
    closed = [];
    engines = 0;
  }

  abbrev engine_result : Result Str env.waf.Engine → Outcome Error env.waf.Engine
  engine_result (ok e) = returned e
  engine_result (err msg) = failed (engine_failed msg)

  -- `createWAFEngine`, with the wrapping of its error that each caller does
  unfoldable pub create_waf_engine :
      Tenant → TenantManager env → Outcome Error env.waf.Engine × TenantManager env
  create_waf_engine t tm = elim (waf_config t) [
    | none ↦ (panicked, tm)
    | some c ↦
        (engine_result (env.waf.new_engine tm.engines c), record tm { engines = suc tm.engines })
  ]

  unfoldable pub save_in :
      Option env.storage.State
      → Tenant
      → TenantManager env
      → Option StorageError × TenantManager env
  save_in none t tm = (none, tm)
  save_in (some st) t tm =
      let (e, st') = env.storage.save_tenant (to_tenant_data t) st in
      (e, record tm { storage = some st' })

  -- `SaveTenant`, if there is a storage
  unfoldable pub persist : Tenant → TenantManager env → Option StorageError × TenantManager env
  unfolding save_in
  persist t tm = save_in tm.storage t tm

  -- `Set`, if there is a cache; its error is only logged
  unfoldable pub cache_tenant : Tenant → TenantManager env → TenantManager env
  cache_tenant t tm = elim tm.cache [
    | none ↦ tm
    | some c ↦ record tm { cache = some (env.cache.set (cache_key t.id) t c).1 }
  ]

  unfoldable pub uncache_tenant : Str → TenantManager env → TenantManager env
  uncache_tenant id tm = elim tm.cache [
    | none ↦ tm
    | some c ↦ record tm { cache = some (env.cache.delete (cache_key id) c).1 }
  ]

  abbrev pub close_engine : Option env.waf.Engine → List env.waf.Engine → List env.waf.Engine
  close_engine none closed = closed
  close_engine (some e) closed = e ∷ closed

  abbrev pub stored_in : Str → Option env.storage.State → Option Tenant
  stored_in id none = none
  stored_in id (some st) = stored_result (env.storage.get_tenant id st)

  -- The tenant that the storage has, if there is a storage.
  unfoldable pub stored_tenant : Str → TenantManager env → Option Tenant
  stored_tenant id tm = stored_in id tm.storage

  unfoldable pub get_tenant_by_domain : Str → TenantManager env → Result Error Tenant
  get_tenant_by_domain domain tm = domain_result domain (
      or_else (lookup domain tm.domains)
        (or_else (lookup (bytes "*") tm.domains) (lookup_opt (wildcard_of domain) tm.domains)))

  abbrev engine_found : Str → Option env.waf.Engine → Result Error env.waf.Engine
  engine_found id none = err (no_engine id)
  engine_found id (some e) = ok e

  unfoldable pub get_waf_engine : Str → TenantManager env → Result Error env.waf.Engine
  get_waf_engine id tm = engine_found id (lookup id tm.wafs)

  unfoldable pub find_existing : Str → TenantManager env → Option Tenant
  find_existing id tm = elim (lookup id tm.tenants) [ some t ↦ some t | none ↦ stored_tenant id tm ]

  -- "Remove old domain mappings", "Close old WAF engine"
  abbrev pub detach : Str → Tenant → TenantManager env → TenantManager env
  detach id old tm = record tm {
    domains = unmap_domains old.domains tm.domains;
    closed = close_engine (lookup id tm.wafs) tm.closed;
  }

  -- `Close`
  unfoldable pub close : TenantManager env → TenantManager env
  close tm = record tm { closed = values tm.wafs ++ tm.closed }

-- `if err != nil { return … }` after a call of `createWAFEngine`
abbrev pub with_engine :
    {env : Env} {A : Type 0}
    → (env.waf.Engine → TenantManager env → Outcome Error A × TenantManager env)
    → Outcome Error env.waf.Engine × TenantManager env
    → Outcome Error A × TenantManager env
with_engine k (returned engine, tm) = k engine tm
with_engine k (failed e, tm) = (failed e, tm)
with_engine k (panicked, tm) = (panicked, tm)
