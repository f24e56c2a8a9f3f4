-- ===== src/Tenant/Router/Lookup.antt =====
-- Where the router sends a host.
use mathlib.Core.Path.{subst}
use hermes_waf.Prelude.{
  Str, bytes, ◌≡◌, ◌≢◌, refl, ap, ◌∙◌, sym, true, Option, none, some, List, ◌∷◌, ◌++◌, ◌↔◌, ◌⊎◌,
  inl, inr, arith, Option-cases, eq_iff, All,
}
use hermes_waf.Prelude.Dict.{lookup, contains}
use hermes_waf.Prelude.Results.{Result, ok, err}
use hermes_waf.Text.{Unicode, split, join}
use hermes_waf.Text.SplitJoin.{IsFree, split-append, split-join, split-IsFree}
use hermes_waf.Tenant.{Tenant}
use hermes_waf.Tenant.Manager.{
  Error, Env, TenantManager, wildcard_of, wildcard_parts, get_tenant_by_domain,
}
use hermes_waf.Tenant.Manager.Frame.{IsRouted}
use hermes_waf.Tenant.Router.{
  Request, normalize_host, route_host, get_tenant_from_request, next, middleware, retry, Context,
  with_tenant, from_context, value, key_eq, Key, context_key, foreign, tenant_context_key, routed,
}

-- The wildcard for the given last parts of a domain.
abbrev wildcard : List Str → Str
wildcard parts = bytes "*." ++ join (bytes ".") parts

split-wildcard :
    (q : Str) (rs : List Str)
    → All (IsFree b'.') (q ∷ rs)
    → split b'.' (wildcard (q ∷ rs)) ≡ bytes "*" ∷ q ∷ rs
split-wildcard q rs h =
    split-append b'.' (bytes "*") (join (bytes ".") (q ∷ rs)) (omega arith, tt)
    ∙ ap (λ l. bytes "*" ∷ l) (split-join b'.' q rs h)

wildcard_parts_again :
    (parts : List Str) (w : Str)
    → All (IsFree b'.') parts
    → wildcard_parts parts ≡ some w
    → wildcard_of w ≡ some w
unfolding wildcard_of
wildcard_parts_again (p ∷ q ∷ r ∷ rs) w (hp, h) e =
    let same : wildcard (q ∷ r ∷ rs) ≡ w = cc in
    subst (λ v. wildcard_parts (split b'.' v) ≡ some v) same
      (ap wildcard_parts (split-wildcard q (r ∷ rs) h))
wildcard_parts_again _ w h e = cc

-- The wildcard of a wildcard is itself.
pub wildcard_of-wildcard_of : (d w : Str) → wildcard_of d ≡ some w → wildcard_of w ≡ some w
unfolding wildcard_of
wildcard_of-wildcard_of d w e = wildcard_parts_again (split b'.' d) w (split-IsFree b'.' d) e

abbrev pub to_option : Result Error Tenant → Option Tenant
to_option (ok t) = some t
to_option (err e) = none

eq-ok_of_to_option : (r : Result Error Tenant) (t : Tenant) → to_option r ≡ some t → r ≡ ok t
eq-ok_of_to_option (ok x) t h = cc
eq-ok_of_to_option (err e) t h = cc

routed-next :
    (r : Result Error Tenant) (t : Tenant) → routed r ≡ next t → (r ≡ ok t) × (t.enabled ≡ true)
routed-next (ok x) t h = ground arith
routed-next (err e) t h = cc

module _ {env : Env} (tm : TenantManager env) where
  -- After a miss, the wildcard is a miss too.
  retry_miss :
      (d w : Str) (e : Error)
      → wildcard_of d ≡ some w
      → get_tenant_by_domain env d tm ≡ err e
      → to_option (get_tenant_by_domain env w tm) ≡ none
  unfolding get_tenant_by_domain
  retry_miss d w e h miss = let again = wildcard_of-wildcard_of d w h in ground arith

  -- The second lookup of `GetTenantFromRequest`, for the wildcard of the host, never finds what the
  -- first did not: the tenant that a host is sent to is the one of the manager's own lookup.
  pub route_host-get_tenant_by_domain :
      (host : Str)
      → to_option (route_host env host tm) ≡ to_option (get_tenant_by_domain env host tm)
  unfolding route_host
  route_host-get_tenant_by_domain host =
      go (get_tenant_by_domain env host tm) (wildcard_of host) refl refl
    where
      go :
          (r : Result Error Tenant) (o : Option Str)
          → get_tenant_by_domain env host tm ≡ r
          → wildcard_of host ≡ o
          → to_option (retry env o tm r) ≡ to_option r
      go (ok t) o p q = refl
      go (err e) none p q = refl
      go (err e) (some w) p q = retry_miss host w e q p

  -- How a domain of the map stands for a host: it is the host, the catch-all or the host's wildcard.
  abbrev pub Covers : Str → Str → Type 0
  Covers d host = (d ≡ host) ⊎ (d ≡ bytes "*") ⊎ (wildcard_of host ≡ some d)

  -- The domain that the manager finds for a host, and the tenant.
  abbrev pub IsFound : Str → Tenant → Type 0
  IsFound host t =
      (d : Str) × Covers d host × (lookup d tm.domains ≡ some t) × (contains d t.domains ≡ true)

  pub get_tenant_by_domain-Covers :
      (host : Str) (t : Tenant)
      → get_tenant_by_domain env host tm ≡ ok t
      → (d : Str) × Covers d host × (lookup d tm.domains ≡ some t)
  unfolding get_tenant_by_domain
  get_tenant_by_domain-Covers host t e = elim (Option-cases (lookup host tm.domains)) [
    | inr (x, h) ↦ (host, inl refl, ground arith)
    | inl none₁ ↦ elim (Option-cases (lookup (bytes "*") tm.domains)) [
      | inr (x, h) ↦ (bytes "*", inr (inl refl), ground arith)
      | inl none₂ ↦ elim (Option-cases (wildcard_of host)) [
        | inr (w, h) ↦ (w, inr (inr h), ground arith)
        | inl none₃ ↦ absurd (ground arith)
      ]
    ]
  ]

  module _ (a : IsRouted tm) where
    get_tenant_by_domain-IsFound :
        (host : Str) (t : Tenant)
        → get_tenant_by_domain env host tm ≡ ok t
        → (lookup t.id tm.tenants ≡ some t) × IsFound host t
    get_tenant_by_domain-IsFound host t e =
        let (d, c, h) = get_tenant_by_domain-Covers host t e in
        (a.current d t h, (d, c, h, a.listed d t h))

    -- The tenant that `GetTenantFromRequest` returns is the present record of its ID, and it lists
    -- the host without port and in lower case, the catch-all or the host's wildcard among its
    -- domains. The routes agree with the tenants.
    pub get_tenant_from_request-IsFound :
        (u : Unicode) (req : Request) (t : Tenant)
        → get_tenant_from_request env u req tm ≡ ok t
        → (lookup t.id tm.tenants ≡ some t) × IsFound (normalize_host u req.host) t
    unfolding get_tenant_from_request
    get_tenant_from_request-IsFound u req t e =
        let host = normalize_host u req.host in
        get_tenant_by_domain-IsFound host t (
          eq-ok_of_to_option (get_tenant_by_domain env host tm) t
            (sym (route_host-get_tenant_by_domain host) ∙ ap to_option e))

    -- The middleware hands a request on only for an enabled tenant, which is the present record of
    -- its ID and lists a domain that covers the request's host. The routes agree with the tenants.
    pub middleware_sound :
        (u : Unicode) (req : Request) (t : Tenant)
        → middleware env u req tm ≡ next t
        → (t.enabled ≡ true)
          × (lookup t.id tm.tenants ≡ some t)
          × IsFound (normalize_host u req.host) t
    unfolding middleware
    middleware_sound u req t e =
        let (served, enabled) = routed-next (get_tenant_from_request env u req tm) t e in
        let (here, found) = get_tenant_from_request-IsFound u req t served in (enabled, here, found)

key_eq_iff : (j k : Key) → (key_eq j k ≡ true) ↔ (j ≡ k)
unfolding key_eq
key_eq_iff (context_key s) (context_key t) = ground (arith, eq_iff s t)
key_eq_iff (foreign s) (foreign t) = ground (arith, eq_iff s t)
key_eq_iff (context_key s) (foreign t) = ground arith
key_eq_iff (foreign s) (context_key t) = ground arith

-- The tenant that was put into a context last is the one that is taken out, and the values of all
-- other keys are as before.
pub from_context-with_tenant :
    (t : Tenant) (c : Context)
    → (from_context (with_tenant t c) ≡ some t)
      × ((k : Key) → k ≢ tenant_context_key → value k (with_tenant t c) ≡ value k c)
unfolding from_context with_tenant value
from_context-with_tenant t c = (
  ground (arith, key_eq_iff tenant_context_key tenant_context_key),
  λ k h. ground (arith, key_eq_iff tenant_context_key k, h),
)
