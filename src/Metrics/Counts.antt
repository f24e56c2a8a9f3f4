-- ===== src/Metrics/Counts.antt =====
-- The counters add up.
use hermes_waf.Prelude.{
  ℕ, ◌+◌, ◌%◌, ◌≡◌, Str, Bool, true, false, List, [], ◌∷◌, arith, ◌==◌, if◌then◌else◌,
}
use hermes_waf.Prelude.Dict.{Dict, lookup, insert, lookup-insert}
use hermes_waf.Prelude.Int64.{Int64, add64, modulus}
use hermes_waf.Metrics.{Metrics, new_metrics, count_of, count_one, record_request, record_rule_hit}

-- The sum of all counters.
pub sum : Dict Int64 → ℕ
sum [] = 0
sum ((k, n) ∷ m) = n + sum m

sum-insert :
    (k : Str) (n : Int64) (m : Dict Int64) → sum (insert k n m) + count_of (lookup k m) ≡ sum m + n
unfolding sum insert lookup
sum-insert k n [] = omega arith
sum-insert k n ((j, v) ∷ m) = ground (arith, sum-insert k n m)

-- Every counter, and the sum modulo 2^64, goes up by one.
sum-count_one : (k : Str) (m : Dict Int64) → sum (count_one k m) % modulus ≡ (sum m + 1) % modulus
unfolding count_one
sum-count_one k m = omega (arith, sum-insert k (add64 (count_of (lookup k m)) 1) m)

-- What the counters say of one another, modulo 2^64.
pub record IsBalanced (m : Metrics) : Type 0 where
  pub verdicts : (m.blocked_requests + m.allowed_requests) % modulus ≡ m.total_requests
  pub tenants : sum m.tenant_requests % modulus ≡ m.total_requests
  pub blocked : sum m.tenant_blocked % modulus ≡ m.blocked_requests

IsBalanced-new_metrics : IsBalanced new_metrics
unfolding new_metrics sum
IsBalanced-new_metrics = omega arith

record_request-IsBalanced :
    (id : Str) (b : Bool) (latency : Int64) (m : Metrics)
    → IsBalanced m
    → IsBalanced (record_request id b latency m)
unfolding record_request
record_request-IsBalanced id true latency m h =
    omega (arith, sum-count_one id m.tenant_requests, sum-count_one id m.tenant_blocked)
record_request-IsBalanced id false latency m h = omega (arith, sum-count_one id m.tenant_requests)

-- A call of `RecordRequest` or `RecordRuleHit`.
pub data Event : Type 0 where
  request : Str → Bool → Int64 → Event
  rule_hit : Str → Event

unfoldable pub apply : Event → Metrics → Metrics
apply (request id b latency) m = record_request id b latency m
apply (rule_hit rule) m = record_rule_hit rule m

unfoldable pub apply_all : List Event → Metrics → Metrics
unfolding apply
apply_all [] m = m
apply_all (e ∷ es) m = apply_all es (apply e m)

apply-IsBalanced : (e : Event) (m : Metrics) → IsBalanced m → IsBalanced (apply e m)
unfolding apply record_rule_hit
apply-IsBalanced (request id b latency) m h = record_request-IsBalanced id b latency m h
apply-IsBalanced (rule_hit rule) m h = record {
  verdicts = h.verdicts;
  tenants = h.tenants;
  blocked = h.blocked;
}

apply_all-IsBalanced : (es : List Event) (m : Metrics) → IsBalanced m → IsBalanced (apply_all es m)
unfolding apply_all
apply_all-IsBalanced [] m h = h
apply_all-IsBalanced (e ∷ es) m h = apply_all-IsBalanced es (apply e m) (apply-IsBalanced e m h)

-- After any calls on new metrics, modulo 2^64: the blocked and the allowed requests add up to all
-- requests, so do the requests of the tenants, and the blocked requests of the tenants add up to
-- the blocked ones.
pub apply_all-new_metrics : (es : List Event) → IsBalanced (apply_all es new_metrics)
apply_all-new_metrics es = apply_all-IsBalanced es new_metrics IsBalanced-new_metrics

-- One call counts for its own tenant alone: the tenant's counter goes up by one, modulo 2^64, and
-- every other counter stays.
pub count-record_request :
    (id j : Str) (b : Bool) (latency : Int64) (m : Metrics)
    → count_of (lookup j (record_request id b latency m).tenant_requests) ≡ (
        if id == j
        then add64 (count_of (lookup id m.tenant_requests)) 1
        else count_of (lookup j m.tenant_requests))
unfolding record_request count_one
count-record_request id j true latency m = rw lookup-insert (ground arith)
count-record_request id j false latency m = rw lookup-insert (ground arith)
