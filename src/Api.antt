-- ===== src/Api.antt =====
-- internal/api/handler.go: the REST API over the tenant manager and the certificate manager. A
-- request is what the handlers read of it, with its JSON body and its form decoded; a response is the
-- text of `http.Error` or the value that is encoded as JSON. The readings of the clock that a call
-- makes are arguments. Log lines are left out, and `http.ServeMux` picks the endpoint.
pub mod Rest
pub mod Written
pub mod Status
use hermes_waf.Prelude.{
  ℕ, zero, suc, Str, bytes, Bool, true, false, Option, none, some, List, [], ◌∷◌, ◌==◌, length, map,
  if◌then◌else◌,
}
use hermes_waf.Prelude.Results.{Result, ok, err, Outcome, returned, failed, panicked}
use hermes_waf.Text.{trim_prefix, trim_suffix, trim_space, has_infix, split}
use hermes_waf.Tenant.{Tenant}
use hermes_waf.Tenant.Manager.{Error, Env, TenantManager, cache_key}
use hermes_waf.Tenant.Manager.Create.{create_tenant, stamped}
use hermes_waf.Tenant.Manager.Update.{update_tenant}
use hermes_waf.Tenant.Manager.Delete.{delete_tenant}
use hermes_waf.Tenant.Manager.Load.{get_tenant, list_tenants}
use hermes_waf.Cert.{World, CertManager, CertError, StoredCert, list_certs, get_cert, delete_cert}
use hermes_waf.Cert.Upload.{add_uploaded_cert}

-- The form of an upload: a file is missing, cannot be read, or has its text.
pub data FormFile : Type 0 where
  missing unreadable : FormFile
  file : Str → FormFile

pub record Form : Type 0 where
  pub cert : FormFile
  pub key : FormFile
  pub domains : Str

-- `tenant` is the body decoded into a zero `Tenant`; `form` is `none` if it cannot be parsed.
pub record Request : Type 0 where
  pub method : Str
  pub path : Str
  pub tenant : Result Str Tenant
  pub form : Option Form

pub data Reply : Type 0 where
  tenant_list : List Tenant → ℕ → Reply
  tenant_created tenant_found tenant_updated : Tenant → Reply
  tenant_deleted : Reply
  cert_list : List StoredCert → ℕ → Reply
  cert_uploaded cert_found : StoredCert → Reply
  cert_deleted : Reply
  cache_status : Bool → ℕ → ℕ → Reply

-- `aborted` is a panic of the handler.
pub data Response : Type 0 where
  http_error : Str → ℕ → Response
  tenant_error : Error → ℕ → Response
  cert_error : CertError → ℕ → Response
  json : ℕ → Reply → Response
  aborted : Response

pub record Handler (env : Env) (w : World) : Type 0 where
  pub manager : TenantManager env
  pub cert_manager : CertManager w

-- The pattern that the mux matched.
pub data Endpoint : Type 0 where
  tenants_endpoint tenant_endpoint cache_status_endpoint : Endpoint

abbrev pub method_not_allowed : Response
method_not_allowed = http_error (bytes "Method not allowed") 405

abbrev pub tenant_not_found_response : Response
tenant_not_found_response = http_error (bytes "Tenant not found") 404

abbrev pub created_response : Tenant → Outcome Error (Unit {0}) → Response
created_response t (returned u) = json 201 (tenant_created t)
created_response t (failed e) = tenant_error e 400
created_response t panicked = aborted

abbrev pub found_response : Outcome Error Tenant → Response
found_response (returned t) = json 200 (tenant_found t)
found_response (failed e) = tenant_not_found_response
found_response panicked = aborted

abbrev pub updated_response : Tenant → Outcome Error (Unit {0}) → Response
updated_response t (returned u) = json 200 (tenant_updated t)
updated_response t (failed e) = tenant_error e 400
updated_response t panicked = aborted

abbrev pub deleted_response : Outcome Error (Unit {0}) → Response
deleted_response (returned u) = json 200 tenant_deleted
deleted_response (failed e) = tenant_not_found_response
deleted_response panicked = aborted

-- The part of a list at an index, and "" beyond its end.
abbrev pub part : ℕ → List Str → Str
part n [] = []
part zero (p ∷ ps) = p
part (suc n) (p ∷ ps) = part n ps

module _ (env : Env) (w : World) where
  abbrev State : Type 0
  State = Handler env w

  abbrev pub with_manager : State → TenantManager env → State
  with_manager h tm = record h { manager = tm }

  -- `listTenants`
  unfoldable pub handle_list : State → Response × State
  handle_list h =
      let (ts, tm) = list_tenants env h.manager in
      (json 200 (tenant_list ts (length ts)), with_manager h tm)

  -- `createTenant`
  unfoldable pub handle_create : Result Str Tenant → ℕ → ℕ → State → Response × State
  handle_create (err e) created updated h = (http_error (bytes "Invalid request body") 400, h)
  handle_create (ok t) created updated h =
      let (r, tm) = create_tenant env t created updated h.manager in
      (created_response (stamped t created updated) r, with_manager h tm)

  -- `getTenant`
  unfoldable pub handle_get : Str → State → Response × State
  handle_get id h =
      let (r, tm) = get_tenant env id h.manager in (found_response r, with_manager h tm)

  -- `updateTenant`: the ID is the path's
  unfoldable pub handle_update : Str → Result Str Tenant → ℕ → State → Response × State
  handle_update id (err e) updated h = (http_error (bytes "Invalid request body") 400, h)
  handle_update id (ok t) updated h =
      let t' : Tenant = record t { id = id } in
      let (r, tm) = update_tenant env t' updated h.manager in
      (updated_response (record t' { updated_at = updated }) r, with_manager h tm)

  -- `deleteTenant`
  unfoldable pub handle_delete : Str → State → Response × State
  handle_delete id h =
      let (r, tm) = delete_tenant env id h.manager in (deleted_response r, with_manager h tm)

  -- `handleTenants`
  unfoldable pub handle_tenants : Request → ℕ → ℕ → State → Response × State
  handle_tenants r created updated h =
      if r.method == bytes "GET"
      then handle_list h
      else if r.method == bytes "POST"
      then handle_create r.tenant created updated h
      else (method_not_allowed, h)

  -- `listCerts`
  unfoldable pub handle_list_certs : Str → State → Response × State
  handle_list_certs id h =
      let cs = list_certs w id h.cert_manager in (json 200 (cert_list cs (length cs)), h)

  abbrev uploaded_response : Result CertError StoredCert → Response
  uploaded_response (ok sc) = json 201 (cert_uploaded sc)
  uploaded_response (err e) = cert_error e 400

  -- The list of "Get optional domains".
  unfoldable pub domain_list : Str → List Str
  domain_list text = if text == bytes "" then [] else map (trim_space w.unicode) (split b',' text)

  unfoldable pub store_upload : Str → Str → Str → Str → ℕ → State → Response × State
  store_upload id domains cert_pem key_pem created h =
      let (r, cm) =
        add_uploaded_cert w id (domain_list domains) cert_pem key_pem created h.cert_manager in
      (uploaded_response r, record h { cert_manager = cm })

  abbrev upload_key : Str → Str → Str → FormFile → ℕ → State → Response × State
  upload_key id domains cert_pem missing created h = (http_error (bytes "key file required") 400, h)
  upload_key id domains cert_pem unreadable created h =
      (http_error (bytes "Failed to read key file") 400, h)
  upload_key id domains cert_pem (file key_pem) created h =
      store_upload id domains cert_pem key_pem created h

  abbrev upload_cert : Str → Str → FormFile → FormFile → ℕ → State → Response × State
  upload_cert id domains missing key created h = (http_error (bytes "cert file required") 400, h)
  upload_cert id domains unreadable key created h =
      (http_error (bytes "Failed to read cert file") 400, h)
  upload_cert id domains (file cert_pem) key created h =
      upload_key id domains cert_pem key created h

  -- `uploadCert`
  unfoldable pub handle_upload : Str → Option Form → ℕ → State → Response × State
  handle_upload id none created h = (http_error (bytes "Invalid multipart form") 400, h)
  handle_upload id (some f) created h = upload_cert id f.domains f.cert f.key created h

  abbrev got_cert : Result CertError StoredCert → Response
  got_cert (ok sc) = json 200 (cert_found sc)
  got_cert (err e) = http_error (bytes "Certificate not found") 404

  abbrev dropped_cert : Option CertError → Response
  dropped_cert none = json 200 cert_deleted
  dropped_cert (some e) = http_error (bytes "Certificate not found") 404

  -- `handleSpecificCert`
  unfoldable pub handle_specific_cert : Request → Str → Str → State → Response × State
  handle_specific_cert r id cert_id h =
      if r.method == bytes "GET"
      then (got_cert (get_cert w id cert_id h.cert_manager), h)
      else if r.method == bytes "DELETE"
      then (let (e, cm) = delete_cert w id cert_id h.cert_manager in
          (dropped_cert e, record h { cert_manager = cm }))
      else (method_not_allowed, h)

  -- `handleTenantCerts` once the tenant was found
  unfoldable pub handle_certs_of : Request → List Str → ℕ → State → Response × State
  handle_certs_of r parts created h =
      let id = part 0 parts in
      let cert_id = part 2 parts in
      if cert_id == bytes ""
      then (if r.method == bytes "GET"
          then handle_list_certs id h
          else if r.method == bytes "POST"
          then handle_upload id r.form created h
          else (method_not_allowed, h))
      else handle_specific_cert r id cert_id h

  unfoldable pub handle_found :
      Request → List Str → ℕ → Outcome Error Tenant × TenantManager env → State → Response × State
  handle_found r parts created (returned t, tm) h =
      handle_certs_of r parts created (with_manager h tm)
  handle_found r parts created (failed e, tm) h = (tenant_not_found_response, with_manager h tm)
  handle_found r parts created (panicked, tm) h = (aborted, with_manager h tm)

  -- `handleTenantCerts`; a path with "/certs" has two parts at least
  unfoldable pub handle_tenant_certs : Request → Str → ℕ → State → Response × State
  handle_tenant_certs r path created h =
      let parts = split b'/' path in
      handle_found r parts created (get_tenant env (part 0 parts) h.manager) h

  unfoldable pub handle_tenant_id : Request → Str → ℕ → State → Response × State
  handle_tenant_id r id updated h =
      if id == bytes ""
      then (http_error (bytes "Tenant ID required") 400, h)
      else if r.method == bytes "GET"
      then handle_get id h
      else if r.method == bytes "PUT"
      then handle_update id r.tenant updated h
      else if r.method == bytes "DELETE"
      then handle_delete id h
      else (method_not_allowed, h)

  -- `handleTenant`
  unfoldable pub handle_tenant : Request → ℕ → State → Response × State
  handle_tenant r now h =
      let path = trim_prefix r.path (bytes "/api/v1/tenants/") in
      if has_infix path (bytes "/certs")
      then handle_tenant_certs r path now h
      else handle_tenant_id r (trim_suffix path (bytes "/")) now h

  abbrev add_if_cached : Result Str Bool → ℕ → ℕ
  add_if_cached (ok true) n = suc n
  add_if_cached _ n = n

  -- The loop of `handleCacheStatus`; `none` is the call of a method of a `nil` cache.
  unfoldable pub count_cached : List Tenant → Option env.cache.State → ℕ → Option ℕ
  count_cached [] c n = some n
  count_cached (t ∷ ts) none n = none
  count_cached (t ∷ ts) (some c) n =
      count_cached ts (some c) (add_if_cached (env.cache.exists (cache_key t.id) c) n)

  abbrev is_on : Option env.cache.State → Bool
  is_on none = false
  is_on (some c) = true

  abbrev status_response : Bool → ℕ → Option ℕ → Response
  status_response enabled total none = aborted
  status_response enabled total (some cached) = json 200 (cache_status enabled total cached)

  -- `handleCacheStatus`; the name of the cache's type is left out
  unfoldable pub handle_cache_status : State → Response × State
  handle_cache_status h =
      let (ts, tm) = list_tenants env h.manager in
      (status_response (is_on tm.cache) (length ts) (count_cached ts tm.cache 0), with_manager h tm)

  -- What the mux calls; `created` and `updated` are the readings of the clock.
  unfoldable pub handle : Endpoint → Request → ℕ → ℕ → State → Response × State
  handle tenants_endpoint r created updated h = handle_tenants r created updated h
  handle tenant_endpoint r created updated h = handle_tenant r updated h
  handle cache_status_endpoint r created updated h = handle_cache_status h
