-- ===== src/Tests/Fixtures.antt =====
-- A manager over the storage and the cache in memory, and an engine package in which a rule file
-- is always missing.
use hermes_waf.Prelude.{ℕ, Str, bytes, ◌≡◌, ◌==◌, refl, true, none, some, List, [], ◌∷◌}
use hermes_waf.Prelude.Dict.{lookup, insert, delete}
use hermes_waf.Prelude.Results.{Result, ok, err, returned}
use hermes_waf.Waf.{Waf}
use hermes_waf.Storage.{string_map, tenant_config}
use hermes_waf.Storage.Memory.{
  memory_store, save_tenant, get_tenant as get_stored, delete_tenant as delete_stored,
  list_tenants as list_stored,
}
use hermes_waf.Cache.Memory.{memory_cache, MemoryCache, set, delete_key}
use hermes_waf.Tenant.{Tenant}
use hermes_waf.Tenant.Conversion.{to_tenant_data, from_tenant_data}
use hermes_waf.Tenant.Manager.{
  Env, TenantManager, map_domains, unmap_domains, create_waf_engine, persist, cache_tenant,
  uncache_tenant, stored_tenant, find_existing, get_tenant_by_domain, wildcard_of,
}
use hermes_waf.Tenant.Manager.Create.{
  create_tenant, check_new, check_domains, store_new, finish_create, default_config, stamped,
}
use hermes_waf.Tenant.Manager.Update.{update_tenant, store_update, finish_update}
use hermes_waf.Tenant.Manager.Delete.{delete_tenant, unstore, finish_delete}
use hermes_waf.Tenant.Manager.Load.{get_tenant, list_tenants, load_all}
use hermes_waf.Text.{split, join}

abbrev first_file : ℕ → List Str → Result Str ℕ
first_file n [] = ok n
first_file n (f ∷ fs) = err f

abbrev pub waf : Waf
waf = record { Engine = ℕ; new_engine = λ n c. first_file n c.rules_files }

abbrev pub env : Env
env = record { waf = waf; storage = memory_store; cache = memory_cache Tenant 0 }

abbrev pub no_items : MemoryCache Tenant
no_items = record { items = []; ttl = 60 }

abbrev pub start : TenantManager env
start = record {
  tenants = [];
  domains = [];
  wafs = [];
  cache = some no_items;
  storage = some (record { tenants = [] });
  closed = [];
  engines = 0;
}

abbrev pub acme : Tenant
acme = record {
  id = bytes "t1";
  name = bytes "Acme";
  domains = bytes "acme.com" ∷ bytes "*.acme.com" ∷ [];
  enabled = true;
  rules = [];
  config = none;
  created_at = 0;
  updated_at = 0;
  metadata = none;
}

-- What is stored for it at the times 5 and 6.
abbrev pub acme_stored : Tenant
acme_stored = stamped acme 5 6

abbrev pub running : TenantManager env
running = record {
  tenants = (bytes "t1", acme_stored) ∷ [];
  domains = (bytes "acme.com", acme_stored) ∷ (bytes "*.acme.com", acme_stored) ∷ [];
  wafs = (bytes "t1", 0) ∷ [];
  cache = some (record {
    items = (bytes "tenant:t1", record { value = acme_stored; expires_at = 60 }) ∷ [];
    ttl = 60;
  });
  storage = some (record {
    tenants =
        (
          bytes "t1",
          record {
            id = bytes "t1";
            name = bytes "Acme";
            domains = bytes "acme.com" ∷ bytes "*.acme.com" ∷ [];
            enabled = true;
            rules = [];
            config = tenant_config (some default_config);
            metadata = string_map none;
            created_at = 5;
            updated_at = 6;
          },
        )
        ∷ [];
  });
  closed = [];
  engines = 1;
}

-- What a run of the manager opens.
unfoldable pub manager : Unit {0}
unfolding create_tenant check_new check_domains store_new finish_create update_tenant store_update
    finish_update delete_tenant unstore finish_delete get_tenant list_tenants load_all map_domains
    unmap_domains create_waf_engine persist cache_tenant uncache_tenant stored_tenant find_existing
    ◌==◌ get_tenant_by_domain wildcard_of split join lookup insert delete save_tenant get_stored
    delete_stored list_stored set delete_key to_tenant_data from_tenant_data
manager = tt

pub create_acme : create_tenant env acme 5 6 start ≡ (returned tt, running)
unfolding manager
create_acme = refl
