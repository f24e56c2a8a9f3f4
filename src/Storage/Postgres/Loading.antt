-- ===== src/Storage/Postgres/Loading.antt =====
-- internal/storage/postgres.go: a tenant that is loaded from PostgreSQL has no configuration.
use hermes_waf.Prelude.{Str, ◌≡◌, refl, ap, ◌⊎◌, inl, inr, Option, none, some, arith}
use hermes_waf.Prelude.Dict.{lookup}
use hermes_waf.Prelude.Results.{Result, ok, err, failed, panicked}
use hermes_waf.Storage.{tenant_config, TenantData, StorageError, StorageLaws}
use hermes_waf.Storage.Postgres.{
  Database, Json, Row, RowError, no_rows, row_error, any_of, decoded_row, decode_row, row_result,
  get_tenant as row_of, postgres_store,
}
use hermes_waf.Waf.{Waf}
use hermes_waf.Cache.{Cache}
use hermes_waf.Tenant.{Tenant, TenantConfig}
use hermes_waf.Tenant.Conversion.{from_tenant_data, as_config}
use hermes_waf.Tenant.Manager.{
  Env, TenantManager, tenant_not_found, create_waf_engine, stored_tenant, stored_in, stored_result,
}
use hermes_waf.Tenant.Manager.Load.{get_tenant, get_unless, load_tenant}

module _ (db : Database) (j : Json) where
  as_config-any_of : (o : Option Str) → as_config (any_of o) ≡ none
  as_config-any_of none = refl
  as_config-any_of (some v) = refl

  decoded_row-no_config :
      (r : Row) (c m : Result Str (Option Str)) (d : TenantData)
      → decoded_row db j r c m ≡ ok d
      → as_config d.config ≡ none
  decoded_row-no_config r (err e) m d h = cc
  decoded_row-no_config r (ok c) (err e) d h = cc
  decoded_row-no_config r (ok c) (ok m) d h =
      let e : any_of c ≡ d.config = cc in rw (← e) (as_config-any_of c)

  row_result-no_config :
      (r : Result RowError Row) (d : TenantData)
      → row_result db j r ≡ ok d
      → as_config d.config ≡ none
  unfolding decode_row
  row_result-no_config (err no_rows) d h = cc
  row_result-no_config (err (row_error e)) d h = cc
  row_result-no_config (ok r) d h =
      decoded_row-no_config r (j.unmarshal r.config_json) (j.unmarshal r.metadata_json) d h

  row_of-no_config :
      (id : Str) (s : db.State) (d : TenantData)
      → row_of db j id s ≡ ok d
      → as_config d.config ≡ none
  unfolding row_of
  row_of-no_config id s d h = row_result-no_config (db.query_row _ _ s) d h

  -- No database keeps the promise of the interface `Storage` once it has stored a tenant that has a
  -- configuration: what `GetTenant` returns is not the record that was saved.
  pub postgres_store-not_lawful :
      (d : TenantData) (c : TenantConfig) (s : db.State)
      → d.config ≡ tenant_config (some c)
      → ((postgres_store db j).save_tenant d s).0 ≡ none
      → ¬ StorageLaws (postgres_store db j)
  postgres_store-not_lawful d c s typed saved laws =
      let lost =
        row_of-no_config d.id ((postgres_store db j).save_tenant d s).1 d
          (laws.get-save d s saved) in
      cc (lost, ap as_config typed)

  module _ (waf : Waf) (cache : Cache Tenant) where
    -- The manager over PostgreSQL.
    abbrev pub over_postgres : Env
    over_postgres = record { waf = waf; storage = postgres_store db j; cache = cache }

    loaded_panics :
        (o : Option Tenant) (id : Str) (tm : TenantManager over_postgres)
        → ((t : Tenant) → o ≡ some t → t.config ≡ none)
        → ((load_tenant over_postgres o id tm).0 ≡ panicked)
          ⊎ ((load_tenant over_postgres o id tm).0 ≡ failed (tenant_not_found id))
    unfolding load_tenant create_waf_engine
    loaded_panics none id tm h = inr refl
    loaded_panics (some t) id tm h = let bare = h t refl in inl (ground arith)

    stored_no_config :
        (id : Str) (tm : TenantManager over_postgres) (t : Tenant)
        → stored_tenant over_postgres id tm ≡ some t
        → t.config ≡ none
    unfolding stored_tenant from_tenant_data
    stored_no_config id tm t h = go tm.storage h
      where
        of_row :
            (r : Result StorageError TenantData)
            → ((d : TenantData) → r ≡ ok d → as_config d.config ≡ none)
            → stored_result r ≡ some t
            → t.config ≡ none
        of_row (err e) k h = cc
        of_row (ok d) k h = let bare = k d refl in ground arith

        go : (o : Option db.State) → stored_in over_postgres id o ≡ some t → t.config ≡ none
        go none h = cc
        go (some st) h = of_row (row_of db j id st) (row_of-no_config id st) h

    -- Over PostgreSQL a tenant that is not in memory is never returned by `GetTenant`: the call panics,
    -- or the tenant is not found.
    pub get_tenant-panicked :
        (id : Str) (tm : TenantManager over_postgres)
        → lookup id tm.tenants ≡ none
        → ((get_tenant over_postgres id tm).0 ≡ panicked)
          ⊎ ((get_tenant over_postgres id tm).0 ≡ failed (tenant_not_found id))
    unfolding get_tenant get_unless
    get_tenant-panicked id tm h =
        rw h
          (loaded_panics (stored_tenant over_postgres id tm) id tm (λ t. stored_no_config id tm t))
