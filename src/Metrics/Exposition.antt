-- ===== src/Metrics/Exposition.antt =====
-- internal/metrics/metrics.go: the text that `Handler` writes. `Printf` stands for `fmt` on a
-- counter (`%d`) and on the seconds of a latency (`%f`). Counters come in the representation's
-- order, where Go's is random, and none is counted while the text is written.
pub mod Samples
pub mod Scraping
use hermes_waf.Prelude.{Str, bytes, List, [], ◌∷◌, ◌++◌}
use hermes_waf.Prelude.Dict.{Dict}
use hermes_waf.Prelude.Int64.{Int64}
use hermes_waf.Metrics.{Metrics, get_average_latency}

pub record Printf : Type 0 where
  pub int : Int64 → Str
  pub seconds : Int64 → Str

-- `name{label="id"} `, up to the value; `prefix` ends before the first quote.
abbrev pub labelled : Str → Str → Str
labelled prefix id = prefix ++ b'"' ∷ (id ++ b'"' ∷ bytes "} ")

-- The lines of the four series without labels.
unfoldable pub plain_lines : Printf → Metrics → List Str
plain_lines p m =
    bytes "# HELP waf_requests_total Total number of requests"
    ∷ bytes "# TYPE waf_requests_total counter"
    ∷ (bytes "waf_requests_total " ++ p.int m.total_requests)
    ∷ bytes "# HELP waf_requests_blocked Total number of blocked requests"
    ∷ bytes "# TYPE waf_requests_blocked counter"
    ∷ (bytes "waf_requests_blocked " ++ p.int m.blocked_requests)
    ∷ bytes "# HELP waf_requests_allowed Total number of allowed requests"
    ∷ bytes "# TYPE waf_requests_allowed counter"
    ∷ (bytes "waf_requests_allowed " ++ p.int m.allowed_requests)
    ∷ bytes "# HELP waf_request_latency_seconds Average request latency"
    ∷ bytes "# TYPE waf_request_latency_seconds gauge"
    ∷ (bytes "waf_request_latency_seconds " ++ p.seconds (get_average_latency m))
    ∷ []

-- The loop over one of the maps.
unfoldable pub counter_lines : Printf → Str → Dict Int64 → List Str
counter_lines p prefix [] = []
counter_lines p prefix ((id, n) ∷ m) = (labelled prefix id ++ p.int n) ∷ counter_lines p prefix m

abbrev pub tenant_prefix : Str
tenant_prefix = bytes "waf_tenant_requests_total{tenant="

abbrev pub blocked_prefix : Str
blocked_prefix = bytes "waf_tenant_blocked_total{tenant="

abbrev pub rule_prefix : Str
rule_prefix = bytes "waf_rule_hits_total{rule="

abbrev pub all_lines : Printf → Metrics → List Str
all_lines p m =
    plain_lines p m
    ++ (counter_lines p tenant_prefix m.tenant_requests
        ++ (counter_lines p blocked_prefix m.tenant_blocked
            ++ counter_lines p rule_prefix m.rule_hits))

-- Each line with its end.
unfoldable pub with_ends : List Str → Str
with_ends [] = []
with_ends (l ∷ ls) = l ++ b'\n' ∷ with_ends ls

-- `Handler`: the body that it writes.
unfoldable pub handler : Printf → Metrics → Str
handler p m = with_ends (all_lines p m)
