-- ===== src/RateLimit/Sweeping.antt =====
-- internal/ratelimit/ratelimit.go: what a client sees of `GetRemaining`, `Allow` and `Cleanup`.
use native.Mathlib.Nat.{le-div_iff_mul-le}
use hermes_waf.Prelude.{
  ℕ, ◌+◌, ◌-◌, ◌/◌, ◌≤◌, ◌<◌, ◌≡◌, refl, inl, inr, Bool-cases, true, Option, none, some, arith, Str,
  ltb, sym, if◌then◌else◌,
}
use hermes_waf.Prelude.Dict.{lookup, holds, lookup-sweep}
use hermes_waf.Prelude.Int64.{half}
use hermes_waf.RateLimit.{
  Bucket, RateLimiter, remaining_of, tokens_to_add, bucket_or_full, refill, spend, take, allow,
  get_remaining, is_stale, cleanup,
}
use hermes_waf.RateLimit.Refill.{Fits, worth, worth_small, tokens_to_add_lem, since_lem, mul_mono}
use hermes_waf.RateLimit.Calls.{IsCurrent}

module _ {rl : RateLimiter} {horizon : ℕ} (f : Fits rl horizon) where
  predict_bucket :
      (b : Bucket) (now n : ℕ)
      → b.tokens ≤ rl.rate
      → now ≤ horizon
      → remaining_of rl now (some b) ≡ some n
      → (take rl b now).0 ≡ ltb 0 n
  unfolding take refill spend
  predict_bucket b now n full h e =
      let pos = f.interval_pos in
      let small = worth_small f b.last_update now h in
      let added = tokens_to_add_lem f b now h in ground (arith, small, added, pos)

  predict_full :
      (created now n : ℕ)
      → now ≤ horizon
      → remaining_of rl now none ≡ some n
      → (take rl (bucket_or_full rl none created) now).0 ≡ ltb 0 n
  unfolding take refill spend
  predict_full created now n h e =
      let b = bucket_or_full rl none created in
      let pos = f.interval_pos in
      let small = worth_small f created now h in
      let added = tokens_to_add_lem f b now h in ground (arith, small, added, pos)

  predict :
      (created now n : ℕ) (o : Option Bucket)
      → IsCurrent rl now o
      → now ≤ horizon
      → remaining_of rl now o ≡ some n
      → (take rl (bucket_or_full rl o created) now).0 ≡ ltb 0 n
  predict created now n none cur h e = predict_full created now n h e
  predict created now n (some b) (full, past) h e = predict_bucket b now n full h e

  pub rate-le-worth : (last now : ℕ) → rl.interval ≤ now - last → rl.rate ≤ worth rl last now
  unfolding worth
  rate-le-worth last now h =
      let one : 1 ≤ (now - last) / rl.interval =
        (le-div_iff_mul-le f.interval_pos).1 (omega arith) in
      omega (arith, mul_mono 1 ((now - last) / rl.interval) rl.rate one)

  stale_old :
      (b : Bucket) (now : ℕ)
      → now ≤ horizon
      → rl.interval + rl.interval < half
      → is_stale rl now b ≡ true
      → rl.interval ≤ now - b.last_update
  stale_old b now h small stale =
      let long = f.horizon_small in
      let elapsed = since_lem f b.last_update now h in ground (arith, elapsed, long)

  -- A bucket that `Cleanup` removes would be full again.
  stale_remaining :
      (b : Bucket) (now later : ℕ)
      → b.tokens ≤ rl.rate
      → b.last_update ≤ now
      → now ≤ later
      → later ≤ horizon
      → rl.interval + rl.interval < half
      → is_stale rl now b ≡ true
      → remaining_of rl later (some b) ≡ some rl.rate
  stale_remaining b now later full past p h small stale =
      let pos = f.interval_pos in
      let fits = worth_small f b.last_update later h in
      let added = tokens_to_add_lem f b later h in
      let old = stale_old b now (omega arith) small stale in
      let much = rate-le-worth b.last_update later (omega arith) in
      ground (arith, pos, fits, added, much)

-- `GetRemaining` foretells `Allow` at the same reading of the clock: a call is granted exactly if
-- the number is positive. The interval is positive, no word overflows up to that reading, and the
-- key's bucket, if there is one, is no fuller than the rate.
pub allow-get_remaining :
    (key : Str) (created now n : ℕ) (rl : RateLimiter)
    → Fits rl now
    → IsCurrent rl now (lookup key rl.buckets)
    → get_remaining key now rl ≡ some n
    → (allow key created now rl).0 ≡ some (ltb 0 n)
unfolding allow get_remaining
allow-get_remaining key created now n rl f cur e =
    let pos = f.interval_pos in
    ground (arith, predict f created now n (lookup key rl.buckets) cur (omega arith) e)

-- A cleanup changes no later answer of `GetRemaining`. Twice the interval is a positive word, no
-- word overflows up to the later reading, and the key's bucket, if any, is no fuller than the rate.
pub get_remaining-cleanup :
    (key : Str) (now later : ℕ) (rl : RateLimiter)
    → Fits rl later
    → rl.interval + rl.interval < half
    → now ≤ later
    → IsCurrent rl now (lookup key rl.buckets)
    → get_remaining key later (cleanup now rl) ≡ get_remaining key later rl
unfolding get_remaining cleanup tokens_to_add
get_remaining-cleanup key now later rl f small p cur =
    rw (lookup-sweep (is_stale rl now) key rl.buckets) (swept (lookup key rl.buckets) cur)
  where
    swept :
        (o : Option Bucket)
        → IsCurrent rl now o
        → remaining_of rl later (if holds (is_stale rl now) o then none else o)
          ≡ remaining_of rl later o
    swept none c = refl
    swept (some b) (full, past) = elim (Bool-cases (is_stale rl now b)) [
      | inl stale ↦
          rw stale (sym (stale_remaining f b now later full past p (omega arith) small stale))
      | inr fresh ↦ rw fresh
    ]
