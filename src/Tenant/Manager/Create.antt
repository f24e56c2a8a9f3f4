-- ===== src/Tenant/Manager/Create.antt =====
-- internal/tenant/manager.go: `CreateTenant`.
use hermes_waf.Prelude.{
  ℕ, ◌*◌, Str, bytes, Bool, true, false, Option, none, some, List, [], ◌∷◌, ◌==◌, if◌then◌else◌,
}
use hermes_waf.Prelude.Dict.{Dict, lookup, insert, delete, is_some}
use hermes_waf.Prelude.Results.{Outcome, returned, failed}
use hermes_waf.Storage.{StorageError}
use hermes_waf.Tenant.{Tenant, TenantConfig}
use hermes_waf.Tenant.Manager.{
  Error, tenant_id_required, tenant_name_required, domain_required, tenant_exists, domain_mapped,
  persist_failed, Env, TenantManager, map_domains, create_waf_engine, with_engine, persist,
  cache_tenant,
}

abbrev pub default_config : TenantConfig
default_config = record {
  default_action = bytes "block";
  request_body_access = true;
  response_body_access = true;
  request_body_limit = 13 * 1024 * 1024;
  response_body_limit = 512 * 1024;
  audit_log_enabled = true;
  rate_limit_per_min = 1000;
  geo_block = [];
}

abbrev pub config_or_default : Option TenantConfig → TenantConfig
config_or_default none = default_config
config_or_default (some c) = c

-- "Set defaults"
abbrev pub set_defaults : Tenant → Tenant
set_defaults t = record t { config = some (config_or_default t.config) }

abbrev no_domains : List Str → Bool
no_domains [] = true
no_domains (d ∷ ds) = false

-- The first domain of the list that is mapped already.
unfoldable pub check_domains : List Str → Dict Tenant → Option Error
check_domains [] m = none
check_domains (d ∷ ds) m =
    if is_some (lookup d m) then some (domain_mapped d) else check_domains ds m

abbrev pub stamped : Tenant → ℕ → ℕ → Tenant
stamped t created updated = record (set_defaults t) { created_at = created; updated_at = updated }

module _ (env : Env) where
  unfoldable pub check_new : Tenant → TenantManager env → Option Error
  check_new t tm =
      if t.id == bytes ""
      then some tenant_id_required
      else if t.name == bytes ""
      then some tenant_name_required
      else if no_domains t.domains
      then some domain_required
      else if is_some (lookup t.id tm.tenants)
      then some (tenant_exists t.id)
      else check_domains t.domains tm.domains

  -- `CreateTenant` once the storage has answered: the rollback, or the cache and the domains
  unfoldable pub finish_create :
      Tenant
      → env.waf.Engine
      → Option StorageError × TenantManager env
      → Outcome Error (Unit {0}) × TenantManager env
  finish_create t engine (some e, tm) = (
    failed (persist_failed e),
    record tm {
      tenants = delete t.id tm.tenants;
      wafs = delete t.id tm.wafs;
      closed = engine ∷ tm.closed;
    },
  )
  finish_create t engine (none, tm) =
      let cached = cache_tenant env t tm in
      (returned tt, record cached { domains = map_domains t t.domains cached.domains })

  -- `CreateTenant` from "Store tenant in memory" on
  unfoldable pub store_new :
      Tenant → env.waf.Engine → TenantManager env → Outcome Error (Unit {0}) × TenantManager env
  store_new t engine tm = finish_create t engine (
      persist env t
        (record tm { tenants = insert t.id t tm.tenants; wafs = insert t.id engine tm.wafs }))

  unfoldable pub create_unless :
      Option Error → Tenant → TenantManager env → Outcome Error (Unit {0}) × TenantManager env
  create_unless (some e) t tm = (failed e, tm)
  create_unless none t tm = with_engine (store_new t) (create_waf_engine env t tm)

  -- `CreateTenant`; `created` and `updated` are the two readings of the clock
  unfoldable pub create_tenant :
      Tenant → ℕ → ℕ → TenantManager env → Outcome Error (Unit {0}) × TenantManager env
  unfolding create_unless
  create_tenant t created updated tm = create_unless (check_new t tm) (stamped t created updated) tm
