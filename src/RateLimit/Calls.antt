-- ===== src/RateLimit/Calls.antt =====
-- internal/ratelimit/ratelimit.go: runs of calls of `Allow`, and what one call does to the buckets.
use hermes_waf.Prelude.{
  ℕ, suc, ◌≤◌, ◌<◌, ◌≡◌, refl, Bool, true, false, Option, none, some, List, [], ◌∷◌, arith, Str,
  ◌==◌, eq_refl, ◌&&◌, if◌then◌else◌,
}
use hermes_waf.Prelude.Dict.{lookup, lookup-insert}
use hermes_waf.RateLimit.{Bucket, RateLimiter, bucket_or_full, take, allow}
use hermes_waf.RateLimit.Refill.{Fits}

-- One call of `Allow` with its clock readings.
pub record Call : Type 0 where
  pub key : Str
  pub created : ℕ
  pub now : ℕ

-- The readings come from one monotonic clock, between `t` and `end`.
abbrev pub InOrder : ℕ → ℕ → List Call → Type 0
InOrder t end [] = t ≤ end
InOrder t end (c ∷ cs) = (t ≤ c.created) × (c.created ≤ c.now) × InOrder c.now end cs

abbrev pub is_granted : Option Bool → Bool
is_granted (some true) = true
is_granted _ = false

pub is_granted-some : (b : Bool) → is_granted (some b) ≡ b
is_granted-some true = refl
is_granted-some false = refl

-- The calls for `key` that are granted when the calls are made one after the other.
unfoldable pub admitted : Str → List Call → RateLimiter → ℕ
admitted key [] rl = 0
admitted key (c ∷ cs) rl =
    let (r, rl') = allow c.key c.created c.now rl in
    let rest = admitted key cs rl' in if c.key == key && is_granted r then suc rest else rest

module _ (key : Str) where
  pub lookup-allow_ne :
      (j : Str) (created now : ℕ) (rl : RateLimiter)
      → (j == key) ≡ false
      → lookup key (allow j created now rl).1.buckets ≡ lookup key rl.buckets
  unfolding allow
  lookup-allow_ne j created now rl h =
      let b = bucket_or_full rl (lookup j rl.buckets) created in
      ground
        (arith, lookup-insert key j b rl.buckets, lookup-insert key j (take rl b now).1 rl.buckets)

  pub lookup-allow_self :
      (created now : ℕ) (rl : RateLimiter)
      → 0 < rl.interval
      → lookup key (allow key created now rl).1.buckets
        ≡ some (take rl (bucket_or_full rl (lookup key rl.buckets) created) now).1
  unfolding allow
  lookup-allow_self created now rl h =
      let b = bucket_or_full rl (lookup key rl.buckets) created in
      ground (arith, eq_refl key, lookup-insert key key (take rl b now).1 rl.buckets)

  pub granted_self :
      (created now : ℕ) (rl : RateLimiter)
      → 0 < rl.interval
      → (allow key created now rl).0
        ≡ some (take rl (bucket_or_full rl (lookup key rl.buckets) created) now).0
  unfolding allow
  granted_self created now rl h = ground arith

pub rate-allow :
    (j : Str) (created now : ℕ) (rl : RateLimiter)
    → ((allow j created now rl).1.rate ≡ rl.rate)
      × ((allow j created now rl).1.interval ≡ rl.interval)
unfolding allow
rate-allow j created now rl = ground arith

pub Fits-allow :
    (j : Str) (created now : ℕ) {rl : RateLimiter} {horizon : ℕ}
    → Fits rl horizon
    → Fits (allow j created now rl).1 horizon
Fits-allow j created now {rl} f =
    let (r, i) = rate-allow j created now rl in
    record {
      interval_pos = rw i f.interval_pos;
      interval_small = rw i f.interval_small;
      horizon_small = f.horizon_small;
      product_small = rw (r, i) f.product_small;
    }

-- The bucket is no fuller than the rate, and was not updated after `t`.
abbrev pub IsCurrent : RateLimiter → ℕ → Option Bucket → Type 0
IsCurrent rl t none = Unit
IsCurrent rl t (some b) = (b.tokens ≤ rl.rate) × (b.last_update ≤ t)

pub IsCurrent-allow :
    (j : Str) (created now : ℕ) (rl : RateLimiter) (t : ℕ) (o : Option Bucket)
    → IsCurrent rl t o
    → IsCurrent (allow j created now rl).1 t o
IsCurrent-allow j created now rl t none h = tt
IsCurrent-allow j created now rl t (some b) h = rw ((rate-allow j created now rl).0) h

pub IsCurrent-later :
    (rl : RateLimiter) (t u : ℕ) (o : Option Bucket) → t ≤ u → IsCurrent rl t o → IsCurrent rl u o
IsCurrent-later rl t u none p h = tt
IsCurrent-later rl t u (some b) p (full, past) = (full, omega arith)

pub InOrder-le : (t end : ℕ) (cs : List Call) → InOrder t end cs → t ≤ end
InOrder-le t end [] h = h
InOrder-le t end (c ∷ cs) (p, q, h) = omega (arith, InOrder-le c.now end cs h)
