-- ===== src/Tests/Tables.antt =====
-- The theorems on the storage in PostgreSQL, at a database in memory.
use hermes_waf.Prelude.{bytes, ◌≡◌, ◌⊎◌, refl, true, none, some, [], ◌∷◌, arith}
use hermes_waf.Prelude.Dict.{lookup}
use hermes_waf.Prelude.Results.{ok, failed, panicked}
use hermes_waf.Storage.Postgres.{Database, Json, Row, array}
use hermes_waf.Storage.Postgres.Arrays.{read_array, read_array-array}
use hermes_waf.Storage.Postgres.Loading.{over_postgres, get_tenant-panicked}
use hermes_waf.Tenant.Manager.{TenantManager, tenant_not_found}
use hermes_waf.Tenant.Manager.Load.{get_tenant}
use hermes_waf.Cache.Memory.{memory_cache}
use hermes_waf.Tests.Fixtures.{waf}
use hermes_waf.Tenant.{Tenant}

read_array-array_example :
    read_array (array (bytes "acme.com" ∷ bytes "*.acme.com" ∷ []))
    ≡ some (bytes "acme.com" ∷ bytes "*.acme.com" ∷ [])
read_array-array_example =
    read_array-array (bytes "acme.com" ∷ bytes "*.acme.com" ∷ []) (omega arith)

-- The row that a database has for one tenant.
abbrev row : Row
row = record {
  id = bytes "t1";
  name = bytes "Acme";
  domains = bytes "acme.com" ∷ [];
  enabled = true;
  rules = [];
  config_json = bytes "{}";
  metadata_json = bytes "{}";
  created_at = 5;
  updated_at = 6;
}

abbrev database : Database
database = record {
  State = Unit {0};
  open_dsn = λ dsn. ok tt;
  ping = λ s. none;
  exec = λ q args s. (ok (ok 1), s);
  query_row = λ q args s. ok row;
  query = λ q args s. ok (record { scanned = ok row ∷ []; last_error = none });
  close = λ s. (none, s);
}

abbrev json : Json
json = record { marshal = λ v. ok (bytes "{}"); unmarshal = λ t. ok (some t) }

abbrev restarted : TenantManager (over_postgres database json waf (memory_cache Tenant 0))
restarted = record {
  tenants = [];
  domains = [];
  wafs = [];
  cache = none;
  storage = some tt;
  closed = [];
  engines = 0;
}

nothing_in_memory : lookup (bytes "t1") restarted.tenants ≡ none
unfolding lookup
nothing_in_memory = refl

get_tenant-panicked_example :
    ((get_tenant (over_postgres database json waf (memory_cache Tenant 0)) (bytes "t1") restarted).0
      ≡ panicked)
    ⊎ ((get_tenant
          (over_postgres database json waf (memory_cache Tenant 0))
          (bytes "t1")
          restarted).0
        ≡ failed (tenant_not_found (bytes "t1")))
get_tenant-panicked_example =
    get_tenant-panicked database json waf (memory_cache Tenant 0) (bytes "t1") restarted
      nothing_in_memory
