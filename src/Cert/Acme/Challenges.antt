-- ===== src/Cert/Acme/Challenges.antt =====
-- internal/cert/acme.go: what `provisionCert` leaves of them.
use hermes_waf.Prelude.{
  ℕ, Str, bytes, ◌≡◌, ◌⊎◌, inl, inr, refl, false, Option, none, some, List, [], ◌∷◌, ◌==◌, arith,
  Bool-cases, eq_refl,
}
use hermes_waf.Prelude.Dict.{Dict, lookup, insert, delete, lookup-insert, lookup-delete}
use hermes_waf.Prelude.Results.{Result, ok, err}
use hermes_waf.Prelude.Actions.{and_then}
use hermes_waf.Cert.{World, StoredCert, CertManager, CertError}
use hermes_waf.Cert.Upload.{add_uploaded_cert}
use hermes_waf.Cert.Acme.{
  Acme, AcmeManager, AcmeError, Do, lift, Challenge, Order, http_handler, explained, done_or,
  challenge_or_fail, answer_challenge, authorize, put_challenge, while_served, drop_challenge,
  on_net, no_http01_challenge, authorize_all, store_cert, stored, finalize, provision_cert,
}

-- A token reads as before, or has no challenge.
abbrev pub Cleared : Dict Str → Dict Str → Str → Type 0
Cleared before after j = (lookup j after ≡ lookup j before) ⊎ (lookup j after ≡ none)

Cleared-trans :
    (before between after : Dict Str) (j : Str)
    → Cleared before between j
    → Cleared between after j
    → Cleared before after j
Cleared-trans before between after j p (inr q) = inr q
Cleared-trans before between after j (inl p) (inl q) = inl (cc)
Cleared-trans before between after j (inr p) (inl q) = inr (cc)

-- All but one token read as before.
abbrev Held : Str → Dict Str → Dict Str → Type 0
Held token before after = (j : Str) → (token == j) ≡ false → lookup j after ≡ lookup j before

drop-Cleared :
    (token : Str) (before after : Dict Str)
    → Held token before after
    → (j : Str) → Cleared before (delete token after) j
drop-Cleared token before after h j = elim (Bool-cases (token == j)) [
  | inl same ↦ inr (ground (arith, lookup-delete j token after))
  | inr other ↦ inl (ground (arith, lookup-delete j token after, h j))
]

put-Held :
    (token key_auth : Str) (before : Dict Str) → Held token before (insert token key_auth before)
put-Held token key_auth before j other = ground (arith, lookup-insert j token key_auth before)

module _ {w : World} {a : Acme w} where
  -- What a call leaves of the challenges: nothing new if it succeeds, and at most one if it fails.
  abbrev pub IsCleared : {A : Type 0} → Dict Str → Result AcmeError A × AcmeManager w a → Type 0
  IsCleared before (ok x, am) = (j : Str) → Cleared before am.challenges j
  IsCleared before (err e, am) =
      (token : Str) × ((j : Str) → (token == j) ≡ false → Cleared before am.challenges j)

  IsCleared-trans :
      {A : Type 0} (before between : Dict Str) (r : Result AcmeError A × AcmeManager w a)
      → ((j : Str) → Cleared before between j)
      → IsCleared between r
      → IsCleared before r
  IsCleared-trans before between (ok x, am) h p =
      λ j. Cleared-trans before between am.challenges j (h j) (p j)
  IsCleared-trans before between (err e, am) h (t, p) =
      (t, λ j other. Cleared-trans before between am.challenges j (h j) (p j other))

  record Clears {A : Type 0} (m : Do w a A) : Type 0 where
    clears : (am : AcmeManager w a) → IsCleared am.challenges (m am)

  IsCleared-and_then :
      {A B : Type 0} (before : Dict Str) (r : Result AcmeError A × AcmeManager w a)
      (f : A → Do w a B)
      → IsCleared before r
      → ((x : A) → Clears (f x))
      → IsCleared before (and_then r f)
  IsCleared-and_then before (ok x, am) f p q =
      IsCleared-trans before am.challenges (f x am) p ((q x).clears am)
  IsCleared-and_then before (err e, am) f p q = p

  and_then-Clears :
      {A B : Type 0} {m : Do w a A} {f : A → Do w a B}
      → Clears m
      → ((x : A) → Clears (f x))
      → Clears (λ am. and_then (m am) f)
  and_then-Clears {m} {f} p q = record {
    clears = λ am. IsCleared-and_then am.challenges (m am) f (p.clears am) q;
  }

  -- A call that leaves the challenges alone.
  same-IsCleared :
      {A : Type 0} (r : Result AcmeError A) (am : AcmeManager w a) → IsCleared am.challenges (r, am)
  same-IsCleared (ok x) am = λ j. inl refl
  same-IsCleared (err x) am = ([], λ j other. inl refl)

  on_net-Clears :
      {A : Type 0} (text : Str) (f : a.Net → Result Str A × a.Net) → Clears (on_net w a text f)
  unfolding on_net
  on_net-Clears text f = record {
    clears =
        λ am. same-IsCleared (explained w a text (f am.net).0) (record am { net = (f am.net).1 });
  }

  lift-Clears : {A : Type 0} (text : Str) (r : Result Str A) → Clears (lift w a text r)
  unfolding lift
  lift-Clears text r = record { clears = λ am. same-IsCleared (explained w a text r) am }

  found-Clears : (o : Option Challenge) → Clears (challenge_or_fail w a o)
  unfolding challenge_or_fail
  found-Clears o = record { clears = go o }
    where
      go :
          (o : Option Challenge) (am : AcmeManager w a)
          → IsCleared am.challenges (challenge_or_fail w a o am)
      go none am = same-IsCleared {A = Challenge} (err no_http01_challenge) am
      go (some c) am = same-IsCleared (ok c) am

  store_cert-Clears :
      (domain cert_pem key_pem : Str) (created : ℕ)
      → Clears (store_cert w a domain cert_pem key_pem created)
  unfolding store_cert
  store_cert-Clears domain cert_pem key_pem created = record {
    clears = λ am.
        let r : Result CertError StoredCert × CertManager w =
          add_uploaded_cert w (bytes "acme") (domain ∷ []) cert_pem key_pem created
            am.cert_manager in
        same-IsCleared (stored w a r.0) (record am { cert_manager = r.1 });
  }

  -- While one challenge is stored.
  Held-and_then :
      {A B : Type 0} (token : Str) (before : Dict Str) (r : Result AcmeError A)
      (am : AcmeManager w a) (f : A → Do w a B)
      → Held token before am.challenges
      → ((x : A) → IsCleared before (f x am))
      → IsCleared before (and_then (r, am) f)
  Held-and_then token before (ok x) am f h q = q x
  Held-and_then token before (err e) am f h q = (token, λ j other. inl (h j other))

  answer_challenge-Clears :
      (url key_auth : Str) (c : Challenge) → Clears (answer_challenge w a url c key_auth)
  unfolding answer_challenge put_challenge while_served drop_challenge
  answer_challenge-Clears url key_auth c = record { clears = go }
    where
      go : (am : AcmeManager w a) → IsCleared am.challenges (answer_challenge w a url c key_auth am)
      go am =
          let stored = insert c.token key_auth am.challenges in
          let held = put-Held c.token key_auth am.challenges in
          let r = a.accept c (http_handler stored) am.net in
          let r' = a.wait_authorization url (http_handler stored) r.1 in
          let accepted : AcmeManager w a = record am { challenges = stored; net = r.1 } in
          let waited : AcmeManager w a = record am { challenges = stored; net = r'.1 } in
          Held-and_then c.token am.challenges (done_or w a (bytes "failed to accept challenge") r.0)
            accepted _ held
            (λ _.
              Held-and_then c.token am.challenges (done_or w a (bytes "authorization failed") r'.0)
                waited _ held (λ _. drop-Cleared c.token am.challenges stored held))

  ruleset clearing = (
    and_then-Clears, on_net-Clears, lift-Clears, found-Clears, store_cert-Clears,
    answer_challenge-Clears,
  )

  authorize-Clears : (url : Str) → Clears (authorize w a url)
  unfolding authorize
  authorize-Clears url = search clearing

  authorize_all-Clears : (urls : List Str) → Clears (authorize_all w a urls)
  unfolding authorize_all
  authorize_all-Clears [] = record { clears = λ am j. inl refl }
  authorize_all-Clears (url ∷ urls) =
      and_then-Clears (authorize-Clears url) (λ _. authorize_all-Clears urls)

  finalize-Clears :
      (domain : Str) (created : ℕ) (order : Order) (key : a.PrivateKey)
      → Clears (finalize w a domain created order key)
  unfolding finalize
  finalize-Clears = search clearing

  -- `provisionCert` leaves nothing new if it succeeds, and at most one challenge if it fails.
  pub provision_cert-IsCleared :
      (domain : Str) (created : ℕ) (am : AcmeManager w a)
      → IsCleared am.challenges (provision_cert w a domain created am)
  unfolding provision_cert
  provision_cert-IsCleared domain created am = provisioned.clears am
    where
      provisioned : Clears (provision_cert w a domain created)
      provisioned = search (clearing, authorize_all-Clears, finalize-Clears)

  -- What `answer_challenge` leaves of its own challenge.
  abbrev pub IsAnswered : Str → Str → Result AcmeError (Unit {0}) × AcmeManager w a → Type 0
  IsAnswered token key_auth (ok _, am) = lookup token am.challenges ≡ none
  IsAnswered token key_auth (err e, am) = lookup token am.challenges ≡ some key_auth

  IsAnswered-and_then :
      (token key_auth : Str) (r : Result AcmeError (Unit {0})) (am : AcmeManager w a)
      (f : Unit {0} → Do w a (Unit {0}))
      → lookup token am.challenges ≡ some key_auth
      → ((x : Unit {0}) → IsAnswered token key_auth (f x am))
      → IsAnswered token key_auth (and_then (r, am) f)
  IsAnswered-and_then token key_auth (ok x) am f h q = q x
  IsAnswered-and_then token key_auth (err e) am f h q = h

  -- A challenge that was answered has no answer any more, while one whose `Accept` or
  -- `WaitAuthorization` failed keeps it.
  pub answer_challenge-IsAnswered :
      (url key_auth : Str) (c : Challenge) (am : AcmeManager w a)
      → IsAnswered c.token key_auth (answer_challenge w a url c key_auth am)
  unfolding answer_challenge put_challenge while_served drop_challenge
  answer_challenge-IsAnswered url key_auth c am =
      let stored = insert c.token key_auth am.challenges in
      let there : lookup c.token stored ≡ some key_auth =
        ground (arith, lookup-insert c.token c.token key_auth am.challenges, eq_refl c.token) in
      let gone : lookup c.token (delete c.token stored) ≡ none =
        ground (arith, lookup-delete c.token c.token stored, eq_refl c.token) in
      let r = a.accept c (http_handler stored) am.net in
      let r' = a.wait_authorization url (http_handler stored) r.1 in
      let accepted : AcmeManager w a = record am { challenges = stored; net = r.1 } in
      let waited : AcmeManager w a = record am { challenges = stored; net = r'.1 } in
      IsAnswered-and_then c.token key_auth (done_or w a (bytes "failed to accept challenge") r.0)
        accepted _ there
        (λ _.
          IsAnswered-and_then c.token key_auth (done_or w a (bytes "authorization failed") r'.0)
            waited _ there (λ _. gone))
