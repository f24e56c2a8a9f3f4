-- ===== src/Tenant.antt =====
-- internal/tenant: the tenant and its configuration. A time is a number of nanoseconds; a `nil`
-- pointer or map is `none`. Tenants are values: nothing writes to one after a map or the storage
-- has it.
pub mod Conversion
pub mod Manager
pub mod Router
use hermes_waf.Prelude.{ℕ, Str, Bool, Option, List}
use hermes_waf.Prelude.Dict.{Dict}
use hermes_waf.Prelude.Int64.{Int64}

pub record TenantConfig : Type 0 where
  pub default_action : Str
  pub request_body_access : Bool
  pub response_body_access : Bool
  pub request_body_limit : Int64
  pub response_body_limit : Int64
  pub audit_log_enabled : Bool
  pub rate_limit_per_min : Int64
  pub geo_block : List Str

pub record Tenant : Type 0 where
  pub id : Str
  pub name : Str
  pub domains : List Str
  pub enabled : Bool
  pub rules : List Str
  pub config : Option TenantConfig
  pub created_at : ℕ
  pub updated_at : ℕ
  pub metadata : Option (Dict Str)
