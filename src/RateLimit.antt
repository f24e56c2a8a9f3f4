-- ===== src/RateLimit.antt =====
-- internal/ratelimit/ratelimit.go: token buckets by key. A time is a reading of the monotonic
-- clock in nanoseconds, handed to each operation; where the code reads the clock twice, the
-- operation takes two readings. The limiter's cache is never used by an operation, and is left out.
-- A division by a zero interval panics: the result is then `none`.
pub mod Refill
pub mod Calls
pub mod Bounds
pub mod Sweeping
pub mod Waiting
use hermes_waf.Prelude.{ℕ, Str, Bool, true, false, Option, none, some, [], eqb, if◌then◌else◌}
use hermes_waf.Prelude.Dict.{Dict, lookup, insert, delete, sweep}
use hermes_waf.Prelude.Int64.{Int64, add64, sub64, mul64, lt64, since, quot64}

pub record Bucket : Type 0 where
  pub tokens : Int64
  pub last_update : ℕ

pub record RateLimiter : Type 0 where
  pub buckets : Dict Bucket
  pub rate : Int64
  pub interval : Int64

unfoldable pub new_rate_limiter : Int64 → Int64 → RateLimiter
new_rate_limiter rate interval = record { buckets = []; rate = rate; interval = interval }

abbrev pub min : Int64 → Int64 → Int64
min a b = if lt64 a b then a else b

-- `int(elapsed / rl.interval) * rl.rate`
unfoldable pub tokens_to_add : RateLimiter → Bucket → ℕ → Int64
tokens_to_add rl b now = mul64 (quot64 (since now b.last_update) rl.interval) rl.rate

-- The refill of `Allow`.
unfoldable pub refill : RateLimiter → Bucket → ℕ → Bucket
refill rl b now =
    let add = tokens_to_add rl b now in
    if lt64 0 add
    then record { tokens = min (add64 b.tokens add) rl.rate; last_update = now }
    else b

-- The test of `Allow` on a refilled bucket.
unfoldable pub spend : Bucket → Bool × Bucket
spend b = if lt64 0 b.tokens then (true, record b { tokens = sub64 b.tokens 1 }) else (false, b)

-- `b, exists := rl.buckets[key]`, and a full bucket where there is none.
abbrev pub bucket_or_full : RateLimiter → Option Bucket → ℕ → Bucket
bucket_or_full rl none t = record { tokens = rl.rate; last_update = t }
bucket_or_full rl (some b) t = b

unfoldable pub take : RateLimiter → Bucket → ℕ → Bool × Bucket
take rl b now = spend (refill rl b now)

abbrev put_bucket : Str → Bucket → RateLimiter → RateLimiter
put_bucket key b rl = record rl { buckets = insert key b rl.buckets }

-- `Allow`: `created` is the reading for a new bucket, `now` the later one.
unfoldable pub allow : Str → ℕ → ℕ → RateLimiter → Option Bool × RateLimiter
allow key created now rl =
    let b = bucket_or_full rl (lookup key rl.buckets) created in
    let (ok, b') = take rl b now in
    if eqb rl.interval 0 then (none, put_bucket key b rl) else (some ok, put_bucket key b' rl)

abbrev remaining_of : RateLimiter → ℕ → Option Bucket → Option Int64
remaining_of rl now none = some rl.rate
remaining_of rl now (some b) =
    if eqb rl.interval 0 then none else some (min (add64 b.tokens (tokens_to_add rl b now)) rl.rate)

-- `GetRemaining`
unfoldable pub get_remaining : Str → ℕ → RateLimiter → Option Int64
get_remaining key now rl = remaining_of rl now (lookup key rl.buckets)

-- `Reset`
unfoldable pub reset : Str → RateLimiter → RateLimiter
reset key rl = record rl { buckets = delete key rl.buckets }

abbrev pub is_stale : RateLimiter → ℕ → Bucket → Bool
is_stale rl now b = lt64 (mul64 2 rl.interval) (since now b.last_update)

-- `Cleanup`
unfoldable pub cleanup : ℕ → RateLimiter → RateLimiter
cleanup now rl = record rl { buckets = sweep (is_stale rl now) rl.buckets }
