-- ===== src/Tests/Stores.antt =====
-- The theorems on the cache, the conversions and the metrics at small values.
use hermes_waf.Prelude.{
  ℕ, zero, suc, Str, bytes, arith, ◌≡◌, ◌+◌, true, false, none, List, [], ◌∷◌, ◌==◌, leb,
  if◌then◌else◌,
}
use hermes_waf.Cache.Memory.{MemoryCache, Dest, any_pointer, write, set, get}
use hermes_waf.Cache.Memory.Reads.{get-set}
use hermes_waf.Metrics.{Metrics, new_metrics}
use hermes_waf.Metrics.Counts.{Event, request, apply_all, IsBalanced, apply_all-new_metrics}
use hermes_waf.Text.SplitJoin.{IsFree}
use hermes_waf.Metrics.Exposition.{Printf, handler}
use hermes_waf.Metrics.Exposition.Samples.{scrape, printed}
use hermes_waf.Metrics.Exposition.Scraping.{tenant, key_of, value_in, scrape_lem}

-- One item that expires at 9.
abbrev shelf : MemoryCache ℕ
shelf = record { items = (bytes "k", record { value = 7; expires_at = 9 }) ∷ []; ttl = 4 }

abbrev empty_dest : Dest ℕ
empty_dest = any_pointer none

get-set_example : get 8 (bytes "j") empty_dest (set 5 (bytes "j") 1 shelf) ≡ (
    if bytes "j" == bytes "j"
    then (if leb 8 (5 + 4) then write 1 empty_dest else empty_dest)
    else get 8 (bytes "j") empty_dest shelf)
get-set_example = get-set 5 8 (bytes "j") (bytes "j") 1 empty_dest shelf

abbrev traffic : List Event
traffic = request (bytes "t1") true 30 ∷ request (bytes "t2") false 50 ∷ []

apply_all-new_metrics_example : IsBalanced (apply_all traffic new_metrics)
apply_all-new_metrics_example = apply_all-new_metrics traffic

abbrev counted : Metrics
counted = record new_metrics { tenant_requests = (bytes "t1", 3) ∷ (bytes "t2", 5) ∷ [] }

-- A printer that writes as many strokes.
abbrev strokes : ℕ → Str
strokes zero = []
strokes (suc n) = b'|' ∷ strokes n

abbrev printf : Printf
printf = record { int = strokes; seconds = strokes }

strokes-IsFree : (n : ℕ) → IsFree b'\n' (strokes n)
strokes-IsFree zero = tt
strokes-IsFree (suc n) = (omega arith, strokes-IsFree n)

scrape_lem_example :
    scrape (key_of (tenant (bytes "t2"))) (handler printf counted)
    ≡ printed printf (value_in (tenant (bytes "t2")) counted)
unfolding new_metrics
scrape_lem_example =
    scrape_lem (record { int = strokes-IsFree; seconds = strokes-IsFree }) (tenant (bytes "t2"))
      counted (omega arith) (omega arith)
