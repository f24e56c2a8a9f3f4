-- ===== src/Api/Rest.antt =====
-- internal/api/handler.go: a write to a tenant's resource, and a GET of the resource after it.
use hermes_waf.Prelude.{ℕ, Str, bytes, ◌≡◌, ◌≢◌, refl, ap, false, none, ◌++◌, arith, eq_iff, ◌==◌}
use hermes_waf.Prelude.Results.{ok, err, Outcome, returned, failed, panicked}
use hermes_waf.Text.{trim_suffix, has_infix}
use hermes_waf.Text.Prefixes.{trim_prefix-append}
use hermes_waf.Tenant.{Tenant}
use hermes_waf.Tenant.Manager.{Error, Env, TenantManager}
use hermes_waf.Tenant.Manager.Create.{create_tenant, stamped}
use hermes_waf.Tenant.Manager.Update.{update_tenant}
use hermes_waf.Tenant.Manager.Delete.{delete_tenant}
use hermes_waf.Tenant.Manager.Load.{get_tenant}
use hermes_waf.Cert.{World}
use hermes_waf.Api.{
  Request, Response, http_error, tenant_error, json, aborted, tenant_created, tenant_found,
  tenant_updated, tenant_deleted, Handler, Endpoint, tenants_endpoint, tenant_endpoint,
  with_manager, created_response, found_response, updated_response, deleted_response, handle_create,
  handle_get, handle_update, handle_delete, handle_tenants, handle_tenant_id, handle_tenant, handle,
}

-- A write: a POST of a tenant, a PUT of one at an ID, or a DELETE of an ID.
pub data Write : Type 0 where
  post : Tenant → Write
  put : Str → Tenant → Write
  remove : Str → Write

abbrev pub id_of : Write → Str
id_of (post t) = t.id
id_of (put id t) = id
id_of (remove id) = id

abbrev pub tenant_path : Str → Str
tenant_path id = bytes "/api/v1/tenants/" ++ id

abbrev pub endpoint_of : Write → Endpoint
endpoint_of (post t) = tenants_endpoint
endpoint_of (put id t) = tenant_endpoint
endpoint_of (remove id) = tenant_endpoint

abbrev pub request_of : Write → Request
request_of (post t) = record {
  method = bytes "POST";
  path = bytes "/api/v1/tenants";
  tenant = ok t;
  form = none;
}
request_of (put id t) = record {
  method = bytes "PUT";
  path = tenant_path id;
  tenant = ok t;
  form = none;
}
request_of (remove id) = record {
  method = bytes "DELETE";
  path = tenant_path id;
  tenant = err (bytes "EOF");
  form = none;
}

-- A GET of the ID.
abbrev pub get_of : Str → Request
get_of id = record {
  method = bytes "GET";
  path = tenant_path id;
  tenant = err (bytes "EOF");
  form = none;
}

-- The answer to a write that succeeds, and to one that fails; `c` and `u` are the clock's readings.
abbrev pub success : Write → ℕ → ℕ → Response
success (post t) c u = json 201 (tenant_created (stamped t c u))
success (put id t) c u = json 200 (tenant_updated (record t { id = id; updated_at = u }))
success (remove id) c u = json 200 tenant_deleted

abbrev pub failure : Write → Error → Response
failure (post t) e = tenant_error e 400
failure (put id t) e = tenant_error e 400
failure (remove id) e = http_error (bytes "Tenant not found") 404

-- The answer to a GET after a write that succeeded.
abbrev pub read_of : Write → ℕ → ℕ → Response
read_of (post t) c u = json 200 (tenant_found (stamped t c u))
read_of (put id t) c u = json 200 (tenant_found (record t { id = id; updated_at = u }))
read_of (remove id) c u = http_error (bytes "Tenant not found") 404

-- An ID that a path has as it is: it is not empty, has no "/certs" in it and no "/" at its end.
pub record IsPathId (id : Str) : Type 0 where
  pub named : id ≢ bytes ""
  pub no_certs : has_infix id (bytes "/certs") ≡ false
  pub no_slash : trim_suffix id (bytes "/") ≡ id

abbrev pub response_of : Write → ℕ → ℕ → Outcome Error (Unit {0}) → Response
response_of w c u (returned x) = success w c u
response_of w c u (failed e) = failure w e
response_of w c u panicked = aborted

created_response-response_of :
    (t : Tenant) (c u : ℕ) (o : Outcome Error (Unit {0}))
    → created_response (stamped t c u) o ≡ response_of (post t) c u o
created_response-response_of t c u (returned x) = refl
created_response-response_of t c u (failed e) = refl
created_response-response_of t c u panicked = refl

updated_response-response_of :
    (id : Str) (t : Tenant) (c u : ℕ) (o : Outcome Error (Unit {0}))
    → updated_response (record t { id = id; updated_at = u }) o ≡ response_of (put id t) c u o
updated_response-response_of id t c u (returned x) = refl
updated_response-response_of id t c u (failed e) = refl
updated_response-response_of id t c u panicked = refl

deleted_response-response_of :
    (id : Str) (c u : ℕ) (o : Outcome Error (Unit {0}))
    → deleted_response o ≡ response_of (remove id) c u o
deleted_response-response_of id c u (returned x) = refl
deleted_response-response_of id c u (failed e) = refl
deleted_response-response_of id c u panicked = refl

module _ (env : Env) (w : World) where
  -- What the manager's method does for a write.
  abbrev pub method_of :
      Write → ℕ → ℕ → TenantManager env → Outcome Error (Unit {0}) × TenantManager env
  method_of (post t) c u tm = create_tenant env t c u tm
  method_of (put id t) c u tm = update_tenant env (record t { id = id }) u tm
  method_of (remove id) c u tm = delete_tenant env id tm

  handle_at :
      (r : Request) (id : Str) (c u : ℕ) (h : Handler env w)
      → r.path ≡ tenant_path id
      → IsPathId id
      → handle env w tenant_endpoint r c u h ≡ handle_tenant_id env w r id u h
  unfolding handle handle_tenant
  handle_at r id c u h p plain =
      rw (p, trim_prefix-append (bytes "/api/v1/tenants/") id, plain.no_certs, plain.no_slash) refl

  pub handle-get_of :
      (id : Str) (c u : ℕ) (h : Handler env w)
      → IsPathId id
      → (handle env w tenant_endpoint (get_of id) c u h).0
        ≡ found_response (get_tenant env id h.manager).0
  unfolding handle_tenant_id handle_get ◌==◌
  handle-get_of id c u h plain =
      let unnamed : (id == bytes "") ≡ false = ground (arith, eq_iff id (bytes ""), plain.named) in
      rw (handle_at (get_of id) id c u h refl plain, unnamed) refl

  pub handle-request_of :
      (x : Write) (c u : ℕ) (h : Handler env w)
      → IsPathId (id_of x)
      → handle env w (endpoint_of x) (request_of x) c u h ≡ (
        response_of x c u (method_of x c u h.manager).0,
        with_manager env w h (method_of x c u h.manager).1,
      )
  unfolding handle handle_tenants handle_create handle_tenant_id handle_update handle_delete ◌==◌
  handle-request_of (post t) c u h plain =
      let p = create_tenant env t c u h.manager in
      ap (λ r. (r, with_manager env w h p.1)) (created_response-response_of t c u p.0)
  handle-request_of (put id t) c u h plain =
      let p = update_tenant env (record t { id = id }) u h.manager in
      let unnamed : (id == bytes "") ≡ false = ground (arith, eq_iff id (bytes ""), plain.named) in
      rw (handle_at (request_of (put id t)) id c u h refl plain, unnamed)
        (ap (λ r. (r, with_manager env w h p.1)) (updated_response-response_of id t c u p.0))
  handle-request_of (remove id) c u h plain =
      let p = delete_tenant env id h.manager in
      let unnamed : (id == bytes "") ≡ false = ground (arith, eq_iff id (bytes ""), plain.named) in
      rw (handle_at (request_of (remove id)) id c u h refl plain, unnamed)
        (ap (λ r. (r, with_manager env w h p.1)) (deleted_response-response_of id c u p.0))
