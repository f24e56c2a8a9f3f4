-- ===== src/Tenant/Router.antt =====
-- internal/tenant/router.go: from a request's host to its tenant. The router's log lines are left
-- out; a context is its chain of `context.WithValue` calls.
pub mod Lookup
use hermes_waf.Prelude.{ℕ, Str, bytes, Bool, not, Option, none, some, ◌==◌, if◌then◌else◌}
use hermes_waf.Prelude.Results.{Result, ok, err}
use hermes_waf.Text.{Unicode, to_lower, trim_space, before_last}
use hermes_waf.Tenant.{Tenant}
use hermes_waf.Tenant.Manager.{Error, Env, TenantManager, wildcard_of, get_tenant_by_domain}

-- The part of `http.Request` that the router reads.
pub record Request : Type 0 where
  pub host : Str

-- "Remove port if present", "Normalize domain"
unfoldable pub normalize_host : Unicode → Str → Str
normalize_host u host = to_lower u (trim_space u (before_last b':' host))

module _ (env : Env) where
  abbrev retry : Option Str → TenantManager env → Result Error Tenant → Result Error Tenant
  retry w tm (ok t) = ok t
  retry none tm (err e) = err e
  retry (some w) tm (err e) = get_tenant_by_domain env w tm

  unfoldable pub route_host : Str → TenantManager env → Result Error Tenant
  route_host host tm = retry (wildcard_of host) tm (get_tenant_by_domain env host tm)

  -- `GetTenantFromRequest`
  unfoldable pub get_tenant_from_request :
      Unicode → Request → TenantManager env → Result Error Tenant
  get_tenant_from_request u req tm = route_host (normalize_host u req.host) tm

-- What the middleware does with a request: it answers by `http.Error`, or calls the next handler
-- with the tenant in the context.
pub data Routed : Type 0 where
  http_error : Str → ℕ → Routed
  next : Tenant → Routed

abbrev routed : Result Error Tenant → Routed
routed (err e) = http_error (bytes "Tenant not found") 404
routed (ok t) = if not t.enabled then http_error (bytes "Tenant disabled") 503 else next t

unfoldable pub middleware : (env : Env) → Unicode → Request → TenantManager env → Routed
middleware env u req tm = routed (get_tenant_from_request env u req tm)

-- A context key is of type `contextKey`, or of any other type.
pub data Key : Type 0 where
  context_key : Str → Key
  foreign : Str → Key

pub data Value : Type 0 where
  tenant : Tenant → Value
  other : Str → Value

pub data Context : Type 0 where
  background : Context
  with_value : Key → Value → Context → Context

abbrev pub tenant_context_key : Key
tenant_context_key = context_key (bytes "tenant")

unfoldable pub key_eq : Key → Key → Bool
key_eq (context_key s) (context_key t) = s == t
key_eq (foreign s) (foreign t) = s == t
key_eq _ _ = Bool.false

-- `ctx.Value(key)`
unfoldable pub value : Key → Context → Option Value
unfolding key_eq
value k background = none
value k (with_value j v c) = if key_eq j k then some v else value k c

unfoldable pub with_tenant : Tenant → Context → Context
with_tenant t c = with_value tenant_context_key (tenant t) c

abbrev as_tenant : Option Value → Option Tenant
as_tenant (some (tenant t)) = some t
as_tenant _ = none

unfoldable pub from_context : Context → Option Tenant
unfolding value
from_context c = as_tenant (value tenant_context_key c)
