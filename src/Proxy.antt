-- ===== src/Proxy.antt =====
-- internal/proxy/proxy.go: the reverse proxy with inspection. `Waf` stands for the engine of
-- internal/waf and its Coraza transactions, and `Net` for `net.SplitHostPort`, `strconv.Atoi` and
-- `httputil.ReverseProxy`: neither is code of the repository. Log lines are left out, and what a run
-- of the handler does is a value: the calls on the client's `http.ResponseWriter`, the request that
-- the upstream is sent, and the transaction that is left.
pub mod Blocking
pub mod Setup
pub mod Answering
use hermes_waf.Prelude.{
  ℕ, Str, bytes, Bool, true, false, not, ◌&&◌, Option, none, some, List, [], ◌∷◌, ◌++◌, ◌==◌,
  if◌then◌else◌,
}
use hermes_waf.Prelude.Results.{Result, ok, err}
use hermes_waf.Text.{Unicode, split_parts, trim_space}

pub record Interruption : Type 0 where
  pub rule_id : ℕ
  pub action : Str
  pub status : ℕ

pub record Waf : Type 1 where
  pub Tx : Type 0
  pub new_transaction : Tx
  pub request_body_access : Bool
  pub response_body_access : Bool
  pub process_connection : Str → ℕ → Str → ℕ → Tx → Tx
  pub process_uri : Str → Str → Str → Tx → Tx
  pub add_request_header : Str → Str → Tx → Tx
  pub process_request_headers : Tx → Option Interruption × Tx
  pub read_request_body_from : Str → Tx → Option Str × Tx
  pub process_request_body : Tx → Result Str (Option Interruption) × Tx
  pub process_response_headers : ℕ → Str → Tx → Tx
  pub read_response_body_from : Str → Tx → Option Str × Tx
  pub process_response_body : Tx → Result Str (Option Interruption) × Tx
  pub close : Tx → Tx
  pub process_logging : Tx → Tx

-- A header with several values is several entries; the two forwarding headers are the results of
-- `r.Header.Get`, and `body` what `io.ReadAll` reads.
pub record Request : Type 0 where
  pub method : Str
  pub url : Str
  pub proto : Str
  pub host : Str
  pub remote_addr : Str
  pub headers : List (Str × Str)
  pub x_forwarded_for : Str
  pub x_real_ip : Str
  pub body : Result Str Str

-- A call on the `http.ResponseWriter`.
pub data Sent : Type 0 where
  set_header : Str → Str → Sent
  write_header : ℕ → Sent
  write : Str → Sent
  http_error : Str → ℕ → Sent

pub record Net : Type 0 where
  pub split_host_port : Str → Result Str (Str × Str)
  pub atoi : Str → ℕ
  -- `httputil.ReverseProxy.ServeHTTP`: what it calls on the writer
  pub forward : Request → List Sent
  pub unicode : Unicode

pub record Run (w : Waf) : Type 0 where
  pub sent : List Sent
  pub forwarded : Option Request
  pub tx : w.Tx

-- `handleInterruption`
unfoldable pub handle_interruption : Interruption → List Sent
handle_interruption it =
    if it.action == bytes "deny"
    then write_header it.status ∷ write (bytes "Request blocked by WAF") ∷ []
    else if it.action == bytes "redirect"
    then set_header (bytes "Location") (bytes "/") ∷ write_header it.status ∷ []
    else write_header it.status ∷ []

-- The wrapper's `statusCode` after the calls, from the given one.
unfoldable pub status_of : ℕ → List Sent → ℕ
status_of code [] = code
status_of code (write_header c ∷ cs) = status_of c cs
status_of code (http_error msg c ∷ cs) = status_of c cs
status_of code (set_header k v ∷ cs) = status_of code cs
status_of code (write b ∷ cs) = status_of code cs

-- The wrapper's `body`; `http.Error` writes its message and a newline.
unfoldable pub body_of : List Sent → Str
body_of [] = []
body_of (write b ∷ cs) = b ++ body_of cs
body_of (http_error msg c ∷ cs) = msg ++ (10 ∷ body_of cs)
body_of (write_header c ∷ cs) = body_of cs
body_of (set_header k v ∷ cs) = body_of cs

module _ (n : Net) where
  abbrev host_port : Str → ℕ → Result Str (Str × Str) → Str × ℕ
  host_port whole port (err e) = (whole, port)
  host_port whole port (ok (host, text)) = (host, n.atoi text)

  -- `extractClientInfo`
  unfoldable pub extract_client_info : Request → Str × ℕ
  extract_client_info r =
      if not (r.x_forwarded_for == bytes "")
      then (trim_space n.unicode (split_parts b',' r.x_forwarded_for).0, 0)
      else if not (r.x_real_ip == bytes "")
      then (r.x_real_ip, 0)
      else host_port r.remote_addr 0 (n.split_host_port r.remote_addr)

  -- `extractServerInfo`
  unfoldable pub extract_server_info : Request → Str × ℕ
  extract_server_info r =
      if r.host == bytes ""
      then (bytes "127.0.0.1", 80)
      else host_port r.host 80 (n.split_host_port r.host)

module _ (w : Waf) (n : Net) where
  unfoldable pub add_headers : List (Str × Str) → w.Tx → w.Tx
  add_headers [] tx = tx
  add_headers ((k, v) ∷ hs) tx = add_headers hs (w.add_request_header k v tx)

  -- The transaction up to `ProcessRequestHeaders`.
  unfoldable pub connected : Request → w.Tx
  connected r =
      let (client_ip, client_port) = extract_client_info n r in
      let (server_ip, server_port) = extract_server_info n r in
      add_headers r.headers (
        w.process_uri r.url r.method r.proto
          (w.process_connection client_ip client_port server_ip server_port w.new_transaction))

  -- The deferred calls, the last one first.
  abbrev pub finish : w.Tx → w.Tx
  finish tx = w.process_logging (w.close tx)

  abbrev pub blocked : Interruption → w.Tx → Run w
  blocked it tx = record { sent = handle_interruption it; forwarded = none; tx = finish tx }

  abbrev is_empty : Str → Bool
  is_empty [] = true
  is_empty (c ∷ s) = false

  -- "Phase 3" and "Phase 4": an interruption is only logged
  unfoldable pub inspect_response : Request → List Sent → w.Tx → w.Tx
  inspect_response r sent tx =
      let tx' = w.process_response_headers (status_of 200 sent) r.proto tx in
      if w.response_body_access && not (is_empty (body_of sent))
      then (w.process_response_body (w.read_response_body_from (body_of sent) tx').1).1
      else tx'

  unfoldable pub forward_request : Request → w.Tx → Run w
  forward_request r tx = record {
    sent = n.forward r;
    forwarded = some r;
    tx = finish (inspect_response r (n.forward r) tx);
  }

  -- After `ProcessRequestBody`, whose error is only logged.
  unfoldable pub after_body : Request → Result Str (Option Interruption) × w.Tx → Run w
  after_body r (ok (some it), tx) = blocked it tx
  after_body r (ok none, tx) = forward_request r tx
  after_body r (err e, tx) = forward_request r tx

  -- "Process request body if enabled"; the body is put back for the upstream.
  unfoldable pub inspect_body : Request → Result Str Str → w.Tx → Run w
  inspect_body r (err e) tx = record {
    sent = http_error (bytes "Bad Request") 400 ∷ [];
    forwarded = none;
    tx = finish tx;
  }
  inspect_body r (ok body) tx =
      after_body (record r { body = ok body })
        (w.process_request_body (w.read_request_body_from body tx).1)

  unfoldable pub after_headers : Request → Option Interruption × w.Tx → Run w
  after_headers r (some it, tx) = blocked it tx
  after_headers r (none, tx) =
      if w.request_body_access then inspect_body r r.body tx else forward_request r tx

  -- `ServeHTTP`
  unfoldable pub serve_http : Request → Run w
  serve_http r = after_headers r (w.process_request_headers (connected r))
