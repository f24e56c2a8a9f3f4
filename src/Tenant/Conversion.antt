-- ===== src/Tenant/Conversion.antt =====
-- internal/tenant/conversion.go
use hermes_waf.Prelude.{Str, ◌≡◌, ◌↔◌, ap, refl, Option, none}
use hermes_waf.Prelude.Dict.{Dict}
use hermes_waf.Storage.{Any, tenant_config, string_map, TenantData}
use hermes_waf.Tenant.{TenantConfig, Tenant}

unfoldable pub to_tenant_data : Tenant → TenantData
to_tenant_data t = record {
  id = t.id;
  name = t.name;
  domains = t.domains;
  enabled = t.enabled;
  rules = t.rules;
  config = tenant_config t.config;
  metadata = string_map t.metadata;
  created_at = t.created_at;
  updated_at = t.updated_at;
}

-- The type assertions `d.Config.(*TenantConfig)` and `d.Metadata.(map[string]string)`.
abbrev pub as_config : Any → Option TenantConfig
as_config (tenant_config c) = c
as_config _ = none

abbrev pub as_metadata : Any → Option (Dict Str)
as_metadata (string_map m) = m
as_metadata _ = none

unfoldable pub from_tenant_data : TenantData → Tenant
from_tenant_data d = record {
  id = d.id;
  name = d.name;
  domains = d.domains;
  enabled = d.enabled;
  rules = d.rules;
  config = as_config d.config;
  created_at = d.created_at;
  updated_at = d.updated_at;
  metadata = as_metadata d.metadata;
}

-- A tenant that is converted for the storage and back is the same tenant, in every field; stored
-- data that is converted and back is the same exactly if its configuration and its metadata have the
-- dynamic types that the conversion asserts.
pub from_tenant_data-to_tenant_data :
    ((t : Tenant) → from_tenant_data (to_tenant_data t) ≡ t)
    × ((d : TenantData)
        → (to_tenant_data (from_tenant_data d) ≡ d) ↔ (
            (tenant_config (as_config d.config) ≡ d.config)
            × (string_map (as_metadata d.metadata) ≡ d.metadata)))
unfolding from_tenant_data to_tenant_data
from_tenant_data-to_tenant_data = (
  λ t. refl,
  λ d. (
    λ e. (ap (λ x. x.config) e, ap (λ x. x.metadata) e),
    λ (p, q) i. record d { config = p i; metadata = q i },
  ),
)
