-- ===== src/Cert/Acme/Handler.antt =====
-- internal/cert/acme.go: what the handler of `HTTPHandler` answers.
use hermes_waf.Prelude.{Str, ◌≡◌, ◌↔◌, inl, inr, refl, sym, Option, none, some, ◌++◌, Bool-cases}
use hermes_waf.Prelude.Dict.{Dict, lookup}
use hermes_waf.Text.{starts_with, trim_prefix}
use hermes_waf.Text.Prefixes.{starts_with-append, trim_prefix-append, append-trim_prefix}
use hermes_waf.Cert.Acme.{not_found, content, content_of, challenge_path, http_handler}

content_of-content : (o : Option Str) (a : Str) → content_of o ≡ content a → o ≡ some a
content_of-content none a e = cc
content_of-content (some b) a e = cc

not_found-ne : {a : Str} → not_found ≡ content a → ⊥
not_found-ne e = cc

-- The handler answers with a text exactly for the path of a token that has a challenge, and then
-- with that challenge's answer.
pub http_handler-content :
    (challenges : Dict Str) (path key_auth : Str)
    → (http_handler challenges path ≡ content key_auth) ↔ (
        (token : Str) × (path ≡ challenge_path ++ token)
        × (lookup token challenges ≡ some key_auth))
unfolding http_handler
http_handler-content challenges path key_auth = (found, back)
  where
    found :
        http_handler challenges path ≡ content key_auth
        → (token : Str) × (path ≡ challenge_path ++ token)
          × (lookup token challenges ≡ some key_auth)
    found e = elim (Bool-cases (starts_with path challenge_path)) [
      | inl yes_ ↦ (
        trim_prefix path challenge_path,
        sym (append-trim_prefix path challenge_path yes_),
        content_of-content (lookup (trim_prefix path challenge_path) challenges) key_auth
            (rw yes_ at e),
      )
      | inr other ↦ absurd (not_found-ne (rw other at e))
    ]

    back :
        ((token : Str) × (path ≡ challenge_path ++ token)
          × (lookup token challenges ≡ some key_auth))
        → http_handler challenges path ≡ content key_auth
    back (token, at, there) =
        rw
          (
            at,
            starts_with-append challenge_path token,
            trim_prefix-append challenge_path token,
            there,
          )
          refl
