-- ===== src/Api/Written.antt =====
-- internal/api/handler.go: what a GET of a tenant's resource answers after a write to it.
use hermes_waf.Prelude.{
  ℕ, Str, bytes, ◌≡◌, ◌≢◌, refl, ◌∙◌, Option, none, some, eq_refl, inl, inr, Option-cases,
}
use hermes_waf.Prelude.Dict.{lookup, lookup-delete}
use hermes_waf.Prelude.Results.{Outcome, returned, failed, panicked}
use hermes_waf.Storage.{StorageLaws}
use hermes_waf.Tenant.{Tenant}
use hermes_waf.Tenant.Manager.{Error, Env, TenantManager, find_existing, stored_tenant}
use hermes_waf.Tenant.Manager.Create.{create_tenant, stamped}
use hermes_waf.Tenant.Manager.Update.{update_tenant, update_existing}
use hermes_waf.Tenant.Manager.Delete.{unstore, without_tenant, delete_existing, delete_tenant}
use hermes_waf.Tenant.Manager.Load.{get_tenant, get_unless, load_tenant}
use hermes_waf.Tenant.Manager.Outcomes.{IsCreated, create_tenant-IsCreated}
use hermes_waf.Tenant.Manager.Replacement.{IsUpdated, update_tenant-IsUpdated}
use hermes_waf.Tenant.Manager.Routing.{unstore-SameMaps, finish_delete-SameMaps}
use hermes_waf.Tenant.Manager.Overtaking.{stored_tenant-delete_tenant}
use hermes_waf.Cert.{World}
use hermes_waf.Api.{
  Response, http_error, json, aborted, tenant_found, Handler, tenant_endpoint, with_manager,
  found_response, handle,
}
use hermes_waf.Api.Rest.{
  Write, post, put, remove, id_of, endpoint_of, request_of, get_of, success, failure, read_of,
  IsPathId, response_of, method_of, handle-get_of, handle-request_of,
}

module _ (env : Env) (w : World) where
  -- After a write that succeeds, `GetTenant` of its ID has the tenant that was written, or none.
  abbrev IsReadable : Write → ℕ → ℕ → TenantManager env → Type 0
  IsReadable x c u tm = found_response (get_tenant env (id_of x) tm).0 ≡ read_of x c u

  found-get_tenant :
      (id : Str) (t : Tenant) (tm : TenantManager env)
      → lookup id tm.tenants ≡ some t
      → found_response (get_tenant env id tm).0 ≡ json 200 (tenant_found t)
  unfolding get_tenant get_unless
  found-get_tenant id t tm p = rw p refl

  gone-get_tenant :
      (id : Str) (tm : TenantManager env)
      → lookup id tm.tenants ≡ none
      → stored_tenant env id tm ≡ none
      → found_response (get_tenant env id tm).0 ≡ http_error (bytes "Tenant not found") 404
  unfolding get_tenant get_unless load_tenant
  gone-get_tenant id tm p q = rw (p, q) refl

  created-IsReadable :
      (t : Tenant) (c u : ℕ) (tm : TenantManager env)
      (p : Outcome Error (Unit {0}) × TenantManager env)
      → IsCreated (stamped t c u) tm p
      → p.0 ≡ returned tt
      → IsReadable (post t) c u p.1
  created-IsReadable t c u tm (returned x, tm') a e =
      found-get_tenant t.id (stamped t c u) tm' (rw (a.tenants t.id, eq_refl t.id) refl)
  created-IsReadable t c u tm (failed x, tm') a e = cc
  created-IsReadable t c u tm (panicked, tm') a e = cc

  updated-IsReadable :
      (id : Str) (t old : Tenant) (c u : ℕ) (tm : TenantManager env)
      (p : Outcome Error (Unit {0}) × TenantManager env)
      → IsUpdated (record t { id = id; updated_at = u }) old tm p
      → p.0 ≡ returned tt
      → IsReadable (put id t) c u p.1
  updated-IsReadable id t old c u tm (returned x, tm') a e =
      found-get_tenant id (record t { id = id; updated_at = u }) tm'
        (rw (a.tenants id, eq_refl id) refl)
  updated-IsReadable id t old c u tm (failed x, tm') a e = cc
  updated-IsReadable id t old c u tm (panicked, tm') a e = cc

  update_tenant-existing :
      (t : Tenant) (u : ℕ) (tm : TenantManager env)
      → find_existing env t.id tm ≡ none
      → (update_tenant env t u tm).0 ≢ returned tt
  unfolding update_tenant update_existing
  update_tenant-existing t u tm p = rw p (λ e. cc)

  absent-delete_existing :
      (id : Str) (o : Option Tenant) (tm : TenantManager env)
      → (delete_existing env o id tm).0 ≡ returned tt
      → lookup id (delete_existing env o id tm).1.tenants ≡ none
  unfolding delete_existing
  absent-delete_existing id none tm e = cc
  absent-delete_existing id (some old) tm e =
      let left = without_tenant env id old tm in
      let r = unstore env id left in
      rw
        (
          (finish_delete-SameMaps id r.0 r.1).tenants,
          (unstore-SameMaps id left).tenants,
          lookup-delete id id tm.tenants,
          eq_refl id,
        )
        refl

  absent-delete_tenant :
      (id : Str) (tm : TenantManager env)
      → (delete_tenant env id tm).0 ≡ returned tt
      → lookup id (delete_tenant env id tm).1.tenants ≡ none
  unfolding delete_tenant
  absent-delete_tenant id tm = absent-delete_existing id (find_existing env id tm) tm

  -- What the handler answers to a write, by what the manager's method returned, and to any GET of
  -- the ID after it.
  abbrev pub IsAnswered :
      Write → ℕ → ℕ → Outcome Error (Unit {0}) → Response × Handler env w → Type 0
  IsAnswered x c u (returned _) r =
      (r.0 ≡ success x c u)
      × ((c' u' : ℕ)
          → (handle env w tenant_endpoint (get_of (id_of x)) c' u' r.1).0 ≡ read_of x c u)
  IsAnswered x c u (failed e) r = r.0 ≡ failure x e
  IsAnswered x c u panicked r = r.0 ≡ aborted

  response_of-IsAnswered :
      (x : Write) (c u : ℕ) (h : Handler env w) (o : Outcome Error (Unit {0}))
      (tm : TenantManager env)
      → IsPathId (id_of x)
      → (o ≡ returned tt → IsReadable x c u tm)
      → IsAnswered x c u o (response_of x c u o, with_manager env w h tm)
  response_of-IsAnswered x c u h (returned _) tm plain read = (
    refl,
    λ c' u'. handle-get_of env w (id_of x) c' u' (with_manager env w h tm) plain ∙ read refl,
  )
  response_of-IsAnswered x c u h (failed e) tm plain read = refl
  response_of-IsAnswered x c u h panicked tm plain read = refl

  module _ (laws : StorageLaws env.storage) where
    method_of-IsReadable :
        (x : Write) (c u : ℕ) (tm : TenantManager env)
        → (method_of env w x c u tm).0 ≡ returned tt
        → IsReadable x c u (method_of env w x c u tm).1
    method_of-IsReadable (post t) c u tm =
        created-IsReadable t c u tm (create_tenant env t c u tm) (create_tenant-IsCreated t c u tm)
    method_of-IsReadable (put id t) c u tm =
        let t' : Tenant = record t { id = id } in
        elim (Option-cases (find_existing env id tm)) [
          | inl p ↦ λ e. absurd (update_tenant-existing t' u tm p e)
          | inr (old, p) ↦
              updated-IsReadable id t old c u tm (update_tenant env t' u tm)
                (update_tenant-IsUpdated t' old u tm p)
        ]
    method_of-IsReadable (remove id) c u tm = λ e.
        gone-get_tenant id (delete_tenant env id tm).1 (absent-delete_tenant id tm e)
          (stored_tenant-delete_tenant env laws id tm e)

    -- A POST, PUT or DELETE of a tenant is answered by what `CreateTenant`, `UpdateTenant` or
    -- `DeleteTenant` returns, with the body's tenant and the path's ID. Where the method returns no
    -- error the answer is 201 with the tenant created, 200 with the tenant updated, or 200, and any
    -- GET of the ID that comes next answers 200 with that tenant, or 404 after the DELETE. An error
    -- is answered with 400, or with 404 for a DELETE, and a panic aborts the request. The ID is not
    -- empty, has no "/certs" in it and does not end in "/", and the storage obeys the laws that
    -- `StorageLaws` states.
    pub handle-IsAnswered :
        (x : Write) (c u : ℕ) (h : Handler env w)
        → IsPathId (id_of x)
        → IsAnswered x c u
            (method_of env w x c u h.manager).0
            (handle env w (endpoint_of x) (request_of x) c u h)
    handle-IsAnswered x c u h plain =
        let p = method_of env w x c u h.manager in
        rw (handle-request_of env w x c u h plain)
          (response_of-IsAnswered x c u h p.0 p.1 plain (method_of-IsReadable x c u h.manager))
