-- ===== src/Proxy/Blocking.antt =====
-- What reaches the upstream and the client.
use mathlib.Core.Path.{subst}
use hermes_waf.Prelude.{
  ℕ, Str, bytes, ◌≡◌, ◌≢◌, refl, ap, ◌∙◌, [], ◌==◌, Bool, true, false, Option, none, some, arith,
  if◌then◌else◌,
}
use hermes_waf.Prelude.Results.{Result, ok, err}
use hermes_waf.Proxy.{
  Interruption, Waf, Net, Request, Run, handle_interruption, status_of, body_of, connected,
  forward_request, after_body, inspect_body, after_headers, serve_http,
}

of_then :
    {A : Type 0} (P : A → Type 0) (b : Bool) (x y : A) → b ≡ true → P x → P (if b then x else y)
of_then P true x y e h = h
of_then P false x y e h = cc

module _ (w : Waf) (n : Net) where
  -- The transaction after the request's headers.
  abbrev pub headers_read : Request → w.Tx
  headers_read r = (w.process_request_headers (connected w n r)).1

  -- What the engine says of the body `b`.
  abbrev pub body_verdict : Str → w.Tx → Result Str (Option Interruption)
  body_verdict b tx = (w.process_request_body (w.read_request_body_from b tx).1).0

  -- The engine interrupts the request: at its headers, or at its body.
  pub data Interrupts (r : Request) (it : Interruption) : Type 0 where
    at_headers : (w.process_request_headers (connected w n r)).0 ≡ some it → Interrupts r it
    at_body :
        (b : Str)
        → (w.process_request_headers (connected w n r)).0 ≡ none
        → w.request_body_access ≡ true
        → r.body ≡ ok b
        → body_verdict b (headers_read r) ≡ ok (some it)
        → Interrupts r it

  -- The client gets the answer to an interruption, and the upstream nothing.
  abbrev IsHandled : Interruption → Run w → Type 0
  IsHandled it run = (run.forwarded ≡ none) × (run.sent ≡ handle_interruption it)

  after_body-IsHandled :
      (r : Request) (it : Interruption) (p : Result Str (Option Interruption) × w.Tx)
      → p.0 ≡ ok (some it)
      → IsHandled it (after_body w n r p)
  unfolding after_body
  after_body-IsHandled r it (ok (some x), tx) e = ground arith
  after_body-IsHandled r it (ok none, tx) e = cc
  after_body-IsHandled r it (err x, tx) e = cc

  after_headers-IsHandled :
      (r : Request) (it : Interruption) (p : Option Interruption × w.Tx)
      → p.0 ≡ some it
      → IsHandled it (after_headers w n r p)
  unfolding after_headers
  after_headers-IsHandled r it (some x, tx) e = ground arith
  after_headers-IsHandled r it (none, tx) e = cc

  inspect_body-IsHandled :
      (r : Request) (it : Interruption) (b : Str) (o : Result Str Str) (tx : w.Tx)
      → o ≡ ok b
      → body_verdict b tx ≡ ok (some it)
      → IsHandled it (inspect_body w n r o tx)
  unfolding inspect_body
  inspect_body-IsHandled r it b (err x) tx e v = cc
  inspect_body-IsHandled r it b (ok x) tx e v =
      let same : b ≡ x = cc in
      after_body-IsHandled (record r { body = ok x }) it
        (w.process_request_body (w.read_request_body_from x tx).1) (rw same at v)

  body-IsHandled :
      (r : Request) (it : Interruption) (b : Str) (p : Option Interruption × w.Tx)
      → p.0 ≡ none
      → w.request_body_access ≡ true
      → r.body ≡ ok b
      → body_verdict b p.1 ≡ ok (some it)
      → IsHandled it (after_headers w n r p)
  unfolding after_headers inspect_body
  body-IsHandled r it b (some x, tx) e on read v = cc
  body-IsHandled r it b (none, tx) e on read v =
      of_then (IsHandled it) w.request_body_access (inspect_body w n r r.body tx)
        (forward_request w n r tx) on (inspect_body-IsHandled r it b r.body tx read v)

  serve_http-IsHandled :
      (r : Request) (it : Interruption) → Interrupts r it → IsHandled it (serve_http w n r)
  unfolding serve_http
  serve_http-IsHandled r it (at_headers e) =
      after_headers-IsHandled r it (w.process_request_headers (connected w n r)) e
  serve_http-IsHandled r it (at_body b e on read v) =
      body-IsHandled r it b (w.process_request_headers (connected w n r)) e on read v

  -- Nothing is sent to the upstream, and the client gets the interruption's status, with a text if
  -- the action is to deny and no body otherwise, from what the answer to an interruption writes.
  abbrev pub IsBlocked : Interruption → Run w → Type 0
  IsBlocked it run =
      (run.forwarded ≡ none)
      × (run.sent ≡ handle_interruption it)
      × (status_of 200 run.sent ≡ it.status)
      × (body_of run.sent
          ≡ (if it.action == bytes "deny" then bytes "Request blocked by WAF" else []))

  status_of-handle_interruption :
      (n : ℕ) (it : Interruption) → status_of n (handle_interruption it) ≡ it.status
  unfolding status_of handle_interruption
  status_of-handle_interruption n it = ground arith

  body_of-handle_interruption :
      (it : Interruption)
      → body_of (handle_interruption it)
        ≡ (if it.action == bytes "deny" then bytes "Request blocked by WAF" else [])
  unfolding body_of handle_interruption
  body_of-handle_interruption it = ground arith

  -- A request that the engine interrupts, at its headers or at its body, is never sent to the
  -- upstream, and the client gets the answer to the interruption and nothing else: the interruption's
  -- status, with the body "Request blocked by WAF" if the action is "deny", and no body otherwise.
  pub serve_http-IsBlocked :
      (r : Request) (it : Interruption) → Interrupts r it → IsBlocked it (serve_http w n r)
  serve_http-IsBlocked r it h =
      let (unsent, sent) = serve_http-IsHandled r it h in
      (
        unsent,
        sent,
        ap (status_of 200) sent ∙ status_of-handle_interruption 200 it,
        ap body_of sent ∙ body_of-handle_interruption it,
      )

  -- The engine lets the request pass; an error in the body phase counts as passing.
  pub data Passes (r : Request) : Type 0 where
    unread :
        (w.process_request_headers (connected w n r)).0 ≡ none
        → w.request_body_access ≡ false
        → Passes r
    read :
        (b : Str)
        → (w.process_request_headers (connected w n r)).0 ≡ none
        → w.request_body_access ≡ true
        → r.body ≡ ok b
        → ((it : Interruption) → body_verdict b (headers_read r) ≢ ok (some it))
        → Passes r

  -- The upstream gets the request, and the client what the upstream answers.
  abbrev pub IsForwarded : Request → Run w → Type 0
  IsForwarded r run = (run.forwarded ≡ some r) × (run.sent ≡ n.forward r)

  after_body-IsForwarded :
      (r : Request) (p : Result Str (Option Interruption) × w.Tx)
      → ((it : Interruption) → p.0 ≢ ok (some it))
      → IsForwarded r (after_body w n r p)
  unfolding after_body forward_request
  after_body-IsForwarded r (ok (some x), tx) e = absurd (e x refl)
  after_body-IsForwarded r (ok none, tx) e = (refl, refl)
  after_body-IsForwarded r (err x, tx) e = (refl, refl)

  unread-IsForwarded :
      (r : Request) (p : Option Interruption × w.Tx)
      → p.0 ≡ none
      → w.request_body_access ≡ false
      → IsForwarded r (after_headers w n r p)
  unfolding after_headers forward_request
  unread-IsForwarded r (some x, tx) e off = cc
  unread-IsForwarded r (none, tx) e off = rw off (refl, refl)

  inspect_body-IsForwarded :
      (r : Request) (b : Str) (o : Result Str Str) (tx : w.Tx)
      → o ≡ ok b
      → r.body ≡ ok b
      → ((it : Interruption) → body_verdict b tx ≢ ok (some it))
      → IsForwarded r (inspect_body w n r o tx)
  unfolding inspect_body
  inspect_body-IsForwarded r b (err x) tx e there v = cc
  inspect_body-IsForwarded r b (ok x) tx e there v =
      let read_again : ok x ≡ r.body = cc in
      let same : record r { body = ok x } ≡ r = λ i. record r { body = read_again i } in
      let whole : b ≡ x = cc in
      let verdict = w.process_request_body (w.read_request_body_from x tx).1 in
      subst (λ q. IsForwarded q (after_body w n (record r { body = ok x }) verdict)) same
        (after_body-IsForwarded (record r { body = ok x }) verdict (λ it p. v it (rw whole p)))

  read-IsForwarded :
      (r : Request) (b : Str) (p : Option Interruption × w.Tx)
      → p.0 ≡ none
      → w.request_body_access ≡ true
      → r.body ≡ ok b
      → ((it : Interruption) → body_verdict b p.1 ≢ ok (some it))
      → IsForwarded r (after_headers w n r p)
  unfolding after_headers inspect_body
  read-IsForwarded r b (some x, tx) e on there v = cc
  read-IsForwarded r b (none, tx) e on there v =
      of_then (IsForwarded r) w.request_body_access (inspect_body w n r r.body tx)
        (forward_request w n r tx) on (inspect_body-IsForwarded r b r.body tx there there v)

  -- A request that passes reaches the upstream with the body that was inspected, and the client gets
  -- exactly what the upstream answers, whatever the engine says of the response.
  pub serve_http-IsForwarded : (r : Request) → Passes r → IsForwarded r (serve_http w n r)
  unfolding serve_http
  serve_http-IsForwarded r (unread e off) =
      unread-IsForwarded r (w.process_request_headers (connected w n r)) e off
  serve_http-IsForwarded r (read b e on there v) =
      read-IsForwarded r b (w.process_request_headers (connected w n r)) e on there v
