-- ===== src/Tests/Limits.antt =====
-- The rate limiter's theorems at a small limiter: two tokens for every ten nanoseconds.
use hermes_waf.Prelude.{
  ℕ, bytes, ◌≡◌, ◌≤◌, ◌<◌, refl, none, some, List, [], ◌∷◌, ◌++◌, arith, ltb, ◌+◌, ◌-◌, ◌*◌, ◌/◌,
  ◌==◌,
}
use hermes_waf.Prelude.Dict.{lookup}
use hermes_waf.RateLimit.{RateLimiter, allow, get_remaining, cleanup, tokens_to_add}
use hermes_waf.Prelude.Int64.{quot64}
use hermes_waf.RateLimit.Refill.{Fits}
use hermes_waf.RateLimit.Calls.{Call, InOrder, IsCurrent, admitted}
use hermes_waf.RateLimit.Bounds.{admitted_bound}
use hermes_waf.RateLimit.Waiting.{admitted_live}
use hermes_waf.RateLimit.Sweeping.{allow-get_remaining, get_remaining-cleanup}

abbrev idle : RateLimiter
idle = record { buckets = []; rate = 2; interval = 10 }

abbrev busy : RateLimiter
busy = record {
  buckets = (bytes "ip", record { tokens = 0; last_update = 3 }) ∷ [];
  rate = 2;
  interval = 10;
}

-- Three calls at once and one an interval later.
abbrev burst : List Call
burst =
    record { key = bytes "ip"; created = 1; now = 1 }
    ∷ record { key = bytes "ip"; created = 1; now = 2 }
    ∷ record { key = bytes "ip"; created = 2; now = 3 }
    ∷ record { key = bytes "ip"; created = 12; now = 13 }
    ∷ []

idle-Fits : (h : ℕ) → h < 1000 → Fits idle h
idle-Fits h p = record {
  interval_pos = omega arith;
  interval_small = omega arith;
  horizon_small = omega arith;
  product_small = omega arith;
}

busy-Fits : (h : ℕ) → h < 1000 → Fits busy h
busy-Fits h p = record {
  interval_pos = omega arith;
  interval_small = omega arith;
  horizon_small = omega arith;
  product_small = omega arith;
}

burst-InOrder : InOrder 0 20 burst
burst-InOrder = (
  omega arith,
  omega arith,
  (omega arith, omega arith, (omega arith, omega arith, (omega arith, omega arith, omega arith))),
)

idle_key : lookup (bytes "ip") idle.buckets ≡ none
unfolding lookup
idle_key = refl

admitted_bound_example : admitted (bytes "ip") burst idle ≤ 2 + (20 - 0) / 10 * 2
admitted_bound_example =
    admitted_bound (bytes "ip") 0 20 burst idle (idle-Fits 20 (omega arith)) burst-InOrder idle_key

busy_bucket : lookup (bytes "ip") busy.buckets ≡ some (record { tokens = 0; last_update = 3 })
unfolding lookup ◌==◌
busy_bucket = refl

busy-IsCurrent : (h : ℕ) → 3 ≤ h → IsCurrent busy h (lookup (bytes "ip") busy.buckets)
busy-IsCurrent h p = rw busy_bucket (omega arith, p)

busy_remaining : get_remaining (bytes "ip") 14 busy ≡ some 2
unfolding get_remaining lookup ◌==◌ tokens_to_add quot64
busy_remaining = refl

allow-get_remaining_example : (allow (bytes "ip") 14 14 busy).0 ≡ some (ltb 0 2)
allow-get_remaining_example =
    allow-get_remaining (bytes "ip") 14 14 2 busy (busy-Fits 14 (omega arith))
      (busy-IsCurrent 14 (omega arith)) busy_remaining

get_remaining-cleanup_example :
    get_remaining (bytes "ip") 60 (cleanup 50 busy) ≡ get_remaining (bytes "ip") 60 busy
get_remaining-cleanup_example =
    get_remaining-cleanup (bytes "ip") 50 60 busy (busy-Fits 60 (omega arith)) (omega arith)
      (omega arith) (busy-IsCurrent 50 (omega arith))

-- Two calls at once, and one ten nanoseconds after the start.
abbrev early : List Call
early =
    record { key = bytes "ip"; created = 4; now = 4 }
    ∷ record { key = bytes "other"; created = 5; now = 5 }
    ∷ []

abbrev due : Call
due = record { key = bytes "ip"; created = 14; now = 14 }

early-InOrder : InOrder 4 20 (early ++ due ∷ [])
early-InOrder =
    (omega arith, omega arith, (omega arith, omega arith, (omega arith, omega arith, omega arith)))

admitted_live_example : 0 < admitted (bytes "ip") (early ++ due ∷ []) busy
admitted_live_example =
    admitted_live (bytes "ip") 4 20 early due busy (busy-Fits 20 (omega arith)) (omega arith)
      early-InOrder refl (busy-IsCurrent 4 (omega arith)) (omega arith)
