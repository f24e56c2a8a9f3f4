-- ===== src/RateLimit/Refill.antt =====
-- internal/ratelimit/ratelimit.go: the arithmetic of a bucket, over numbers for which no word
-- overflows.
use native.Mathlib.Nat.{le-div_iff_mul-le, div-mul-le_self, mod-eq_of_lt}
use hermes_waf.Prelude.{ℕ, ◌+◌, ◌-◌, ◌*◌, ◌/◌, ◌≤◌, ◌<◌, ◌≡◌, Bool, true, false, arith}
use hermes_waf.Prelude.Int64.{half, since, quot64_nonneg}
use hermes_waf.RateLimit.{Bucket, RateLimiter, tokens_to_add, refill, spend}

-- The interval is positive, and up to the clock reading `horizon` no product or sum of the limiter leaves the positive words.
pub record Fits (rl : RateLimiter) (horizon : ℕ) : Type 0 where
  pub interval_pos : 0 < rl.interval
  pub interval_small : rl.interval < half
  pub horizon_small : horizon < half
  pub product_small : horizon / rl.interval * rl.rate + rl.rate < half

pub div_mono : (a b : ℕ) {i : ℕ} → 0 < i → a ≤ b → a / i ≤ b / i
div_mono a b {i} p h = (le-div_iff_mul-le p).1 (omega (arith, div-mul-le_self a i))

-- Whole intervals do not overlap.
pub div-add-le : (a b : ℕ) {i : ℕ} → 0 < i → a / i + b / i ≤ (a + b) / i
div-add-le a b {i} p =
    (le-div_iff_mul-le p).1 (omega (arith, div-mul-le_self a i, div-mul-le_self b i))

pub mul_mono : (a b r : ℕ) → a ≤ b → a * r ≤ b * r
mul_mono a b r h = grind arith

-- The tokens that whole intervals between two readings are worth.
unfoldable pub worth : RateLimiter → ℕ → ℕ → ℕ
worth rl last now = (now - last) / rl.interval * rl.rate

abbrev pub count : Bool → ℕ
count true = 1
count false = 0

module _ {rl : RateLimiter} {horizon : ℕ} (f : Fits rl horizon) where
  pub worth_small : (last now : ℕ) → now ≤ horizon → worth rl last now + rl.rate < half
  unfolding worth
  worth_small last now h = omega (
    arith,
    f.product_small,
    mul_mono ((now - last) / rl.interval) (horizon / rl.interval) rl.rate
        (div_mono (now - last) horizon f.interval_pos (omega arith)),
  )

  pub since_lem : (last now : ℕ) → now ≤ horizon → since now last ≡ now - last
  since_lem last now h = let small = f.horizon_small in ground arith

  pub tokens_to_add_lem :
      (b : Bucket) (now : ℕ) → now ≤ horizon → tokens_to_add rl b now ≡ worth rl b.last_update now
  unfolding tokens_to_add worth
  tokens_to_add_lem b now h =
      let w : worth rl b.last_update now + rl.rate < half = worth_small b.last_update now h in
      let small = f.horizon_small in
      rw
        (
          since_lem b.last_update now h,
          quot64_nonneg (now - b.last_update) rl.interval (omega arith) f.interval_small,
        )
        (mod-eq_of_lt (omega arith))

  pub worth-add : (t u v : ℕ) → t ≤ u → u ≤ v → worth rl t u + worth rl u v ≤ worth rl t v
  unfolding worth
  worth-add t u v p q =
      let i = rl.interval in
      let sum : u - t + (v - u) ≡ v - t = omega arith in
      let periods : (u - t) / i + (v - u) / i ≤ (v - t) / i =
        rw (← sum) (div-add-le (u - t) (v - u) f.interval_pos) in
      omega (arith, mul_mono ((u - t) / i + (v - u) / i) ((v - t) / i) rl.rate periods)

  -- What a refill may do to a bucket.
  pub record IsRefilled (b : Bucket) (now : ℕ) (b' : Bucket) : Type 0 where
    pub at_most : b'.tokens ≤ rl.rate
    pub later : b.last_update ≤ b'.last_update
    pub reached : b'.last_update ≤ now
    pub paid : b'.tokens ≤ b.tokens + worth rl b.last_update b'.last_update

  pub refill-IsRefilled :
      (b : Bucket) (now : ℕ)
      → b.tokens ≤ rl.rate
      → b.last_update ≤ now
      → now ≤ horizon
      → IsRefilled b now (refill rl b now)
  unfolding refill
  refill-IsRefilled b now full past h =
      let small = worth_small b.last_update now h in
      let added = tokens_to_add_lem b now h in ground (arith, small, added)

  pub spend_lem :
      (b : Bucket)
      → b.tokens ≤ rl.rate
      → ((spend b).1.last_update ≡ b.last_update)
        × ((spend b).1.tokens + count (spend b).0 ≡ b.tokens)
  unfolding spend
  spend_lem b full =
      let small = worth_small b.last_update horizon (omega arith) in ground (arith, small)
