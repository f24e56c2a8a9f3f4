-- ===== src/Metrics.antt =====
-- internal/metrics/metrics.go: request counters and the latency window. A counter is an
-- `atomic.Int64`, which wraps around; calls are taken one at a time.
pub mod Counts
pub mod Window
pub mod Exposition
use hermes_waf.Prelude.{
  ℕ, ◌+◌, ◌-◌, ◌/◌, ◌%◌, Str, Bool, true, false, Option, none, some, List, [], ◌∷◌, ◌++◌, ltb,
  length, drop, if◌then◌else◌,
}
use hermes_waf.Prelude.Dict.{Dict, lookup, insert}
use hermes_waf.Prelude.Int64.{Int64, add64, half, modulus}

pub record Metrics : Type 0 where
  pub total_requests : Int64
  pub blocked_requests : Int64
  pub allowed_requests : Int64
  pub tenant_requests : Dict Int64
  pub tenant_blocked : Dict Int64
  pub request_latencies : List Int64
  pub rule_hits : Dict Int64

unfoldable pub new_metrics : Metrics
new_metrics = record {
  total_requests = 0;
  blocked_requests = 0;
  allowed_requests = 0;
  tenant_requests = [];
  tenant_blocked = [];
  request_latencies = [];
  rule_hits = [];
}

abbrev pub count_of : Option Int64 → Int64
count_of none = 0
count_of (some n) = n

-- `getTenantRequests(id)`, `getTenantBlocked(id)`, `getRuleHits(id)`: the counter of the ID, made
-- at zero where there is none; then `.Add(1)`
unfoldable pub count_one : Str → Dict Int64 → Dict Int64
count_one id m = insert id (add64 (count_of (lookup id m)) 1) m

abbrev pub window : ℕ
window = 1000

-- "Keep only last 1000 latencies"
unfoldable pub keep_last : List Int64 → List Int64
keep_last ls = if ltb window (length ls) then drop (length ls - window) ls else ls

abbrev count_verdict : Str → Bool → Metrics → Metrics
count_verdict id true m = record m {
  blocked_requests = add64 m.blocked_requests 1;
  tenant_blocked = count_one id m.tenant_blocked;
}
count_verdict id false m = record m { allowed_requests = add64 m.allowed_requests 1 }

-- `RecordRequest`
unfoldable pub record_request : Str → Bool → Int64 → Metrics → Metrics
record_request id blocked latency m =
    let counted =
      count_verdict id blocked (record m { total_requests = add64 m.total_requests 1 }) in
    record counted {
      tenant_requests = count_one id counted.tenant_requests;
      request_latencies = keep_last (counted.request_latencies ++ latency ∷ []);
    }

-- `RecordRuleHit`
unfoldable pub record_rule_hit : Str → Metrics → Metrics
record_rule_hit rule m = record m { rule_hits = count_one rule m.rule_hits }

-- `for _, l := range ls { total += l }`
unfoldable pub add_all : Int64 → List Int64 → Int64
add_all total [] = total
add_all total (l ∷ ls) = add_all (add64 total l) ls

-- Signed division by a positive word, towards zero.
abbrev pub div64 : Int64 → Int64 → Int64
div64 a n = if ltb a half then a / n else (modulus - (modulus - a) / n) % modulus

abbrev average : List Int64 → Int64
average [] = 0
average (l ∷ ls) = div64 (add_all 0 (l ∷ ls)) (length (l ∷ ls))

-- `GetAverageLatency`
unfoldable pub get_average_latency : Metrics → Int64
get_average_latency m = average m.request_latencies
