-- ===== src/Metrics/Exposition/Scraping.antt =====
-- internal/metrics/metrics.go: what a scraper reads in the text of the metrics endpoint.
use hermes_waf.Prelude.{
  Str, bytes, ◌≡◌, refl, ap, ◌∙◌, false, Option, some, List, [], ◌∷◌, ◌++◌, arith, All,
}
use hermes_waf.Prelude.Dict.{Dict, lookup, keys}
use hermes_waf.Prelude.Int64.{Int64}
use hermes_waf.Text.{split, split_parts, starts_with, trim_prefix}
use hermes_waf.Text.SplitJoin.{IsFree, split-append}
use hermes_waf.Metrics.{Metrics, get_average_latency}
use hermes_waf.Metrics.Exposition.{
  Printf, labelled, plain_lines, counter_lines, tenant_prefix, blocked_prefix, rule_prefix,
  with_ends, handler,
}
use hermes_waf.Metrics.Exposition.Samples.{
  find_sample, scrape, or_sample, or_none, find_sample-append, IsSafe, printed,
  find_sample-counter_lines, find_sample-other,
}

split-with_ends :
    (ls : List Str) → All (IsFree b'\n') ls → split b'\n' (with_ends ls) ≡ ls ++ [] ∷ []
unfolding with_ends split split_parts
split-with_ends [] h = refl
split-with_ends (l ∷ ls) (k, h) =
    split-append b'\n' l (with_ends ls) k ∙ ap (λ t. l ∷ t) (split-with_ends ls h)

IsFree-append : (xs ys : Str) → IsFree b'\n' xs → IsFree b'\n' ys → IsFree b'\n' (xs ++ ys)
IsFree-append [] ys h k = k
IsFree-append (x ∷ xs) ys (p, h) k = (p, IsFree-append xs ys h k)

AreFree-append :
    (xs ys : List Str)
    → All (IsFree b'\n') xs
    → All (IsFree b'\n') ys
    → All (IsFree b'\n') (xs ++ ys)
AreFree-append [] ys h k = k
AreFree-append (x ∷ xs) ys (p, h) k = (p, AreFree-append xs ys h k)

-- The empty line behind the last end.
find_sample-end :
    (key : Str) (ls : List Str)
    → starts_with [] key ≡ false
    → find_sample key (ls ++ [] ∷ []) ≡ find_sample key ls
unfolding find_sample
find_sample-end key [] e = ground arith
find_sample-end key (l ∷ ls) e = ground (arith, find_sample-end key ls e)

-- A series of the exposition.
pub data Series : Type 0 where
  total blocked allowed : Series
  tenant tenant_blocked rule : Str → Series

-- How its line begins.
abbrev pub key_of : Series → Str
key_of total = bytes "waf_requests_total "
key_of blocked = bytes "waf_requests_blocked "
key_of allowed = bytes "waf_requests_allowed "
key_of (tenant id) = labelled tenant_prefix id
key_of (tenant_blocked id) = labelled blocked_prefix id
key_of (rule id) = labelled rule_prefix id

abbrev pub value_in : Series → Metrics → Option Int64
value_in total m = some m.total_requests
value_in blocked m = some m.blocked_requests
value_in allowed m = some m.allowed_requests
value_in (tenant id) m = lookup id m.tenant_requests
value_in (tenant_blocked id) m = lookup id m.tenant_blocked
value_in (rule id) m = lookup id m.rule_hits

abbrev pub IsNamed : Series → Type 0
IsNamed (tenant id) = IsSafe id
IsNamed (tenant_blocked id) = IsSafe id
IsNamed (rule id) = IsSafe id
IsNamed _ = Unit {0}

-- What is relied on of `fmt`: a number is printed on one line.
pub record IsPlain (p : Printf) : Type 0 where
  pub int : (n : Int64) → IsFree b'\n' (p.int n)
  pub seconds : (n : Int64) → IsFree b'\n' (p.seconds n)

module _ {p : Printf} (q : IsPlain p) where
  counter_lines-IsFree :
      (prefix : Str) (m : Dict Int64)
      → IsFree b'\n' prefix
      → All IsSafe (keys m)
      → All (IsFree b'\n') (counter_lines p prefix m)
  unfolding counter_lines
  counter_lines-IsFree prefix [] k h = tt
  counter_lines-IsFree prefix ((i, n) ∷ m) k ((_, free), h) = (
    IsFree-append (labelled prefix i) (p.int n)
        (IsFree-append prefix (b'"' ∷ (i ++ b'"' ∷ bytes "} ")) k
          (omega arith, IsFree-append i (b'"' ∷ bytes "} ") free (omega arith)))
        (q.int n),
    counter_lines-IsFree prefix m k h,
  )

  plain_lines-IsFree : (m : Metrics) → All (IsFree b'\n') (plain_lines p m)
  unfolding plain_lines
  plain_lines-IsFree m = (
    omega arith,
    (
      omega arith,
      (
        IsFree-append (bytes "waf_requests_total ") (p.int m.total_requests) (omega arith)
            (q.int m.total_requests),
        (
          omega arith,
          (
            omega arith,
            (
              IsFree-append (bytes "waf_requests_blocked ") (p.int m.blocked_requests) (omega arith)
                  (q.int m.blocked_requests),
              (
                omega arith,
                (
                  omega arith,
                  (
                    IsFree-append (bytes "waf_requests_allowed ") (p.int m.allowed_requests)
                        (omega arith) (q.int m.allowed_requests),
                    (
                      omega arith,
                      (
                        omega arith,
                        (
                          IsFree-append (bytes "waf_request_latency_seconds ")
                              (p.seconds (get_average_latency m)) (omega arith)
                              (q.seconds (get_average_latency m)),
                          tt,
                        ),
                      ),
                    ),
                  ),
                ),
              ),
            ),
          ),
        ),
      ),
    ),
  )

  -- The IDs in the three maps have no quote and no end of a line.
  abbrev pub AreSafe : Metrics → Type 0
  AreSafe m =
      All IsSafe (keys m.tenant_requests)
      × All IsSafe (keys m.tenant_blocked)
      × All IsSafe (keys m.rule_hits)

  scrape-handler :
      (key : Str) (m : Metrics)
      → AreSafe m
      → starts_with [] key ≡ false
      → scrape key (handler p m)
        ≡ or_sample (find_sample key (plain_lines p m)) (
            or_sample (find_sample key (counter_lines p tenant_prefix m.tenant_requests)) (
              or_sample
                (find_sample key (counter_lines p blocked_prefix m.tenant_blocked))
                (find_sample key (counter_lines p rule_prefix m.rule_hits))))
  unfolding scrape handler
  scrape-handler key m (h, k, l) e =
      let a = plain_lines p m in
      let b = counter_lines p tenant_prefix m.tenant_requests in
      let c = counter_lines p blocked_prefix m.tenant_blocked in
      let d = counter_lines p rule_prefix m.rule_hits in
      ap (find_sample key) (
        split-with_ends (a ++ (b ++ (c ++ d))) (
          AreFree-append a (b ++ (c ++ d)) (plain_lines-IsFree m) (
            AreFree-append b (c ++ d)
              (counter_lines-IsFree tenant_prefix m.tenant_requests (omega arith) h)
              (AreFree-append c d
                (counter_lines-IsFree blocked_prefix m.tenant_blocked (omega arith) k)
                (counter_lines-IsFree rule_prefix m.rule_hits (omega arith) l)))))
      ∙ find_sample-end key (a ++ (b ++ (c ++ d))) e
      ∙ find_sample-append key a (b ++ (c ++ d))
      ∙ ap (or_sample (find_sample key a)) (
          find_sample-append key b (c ++ d)
          ∙ ap (or_sample (find_sample key b)) (find_sample-append key c d))

  -- What a scraper reads in the text of the endpoint for a series is its counter as it is printed, and
  -- nothing where there is no such counter. No ID has a quote or an end of a line, and a number is
  -- printed on one line.
  pub scrape_lem :
      (s : Series) (m : Metrics)
      → AreSafe m
      → IsNamed s
      → scrape (key_of s) (handler p m) ≡ printed p (value_in s m)
  unfolding find_sample plain_lines starts_with trim_prefix
  scrape_lem total m h n = scrape-handler (key_of total) m h refl
  scrape_lem blocked m h n = scrape-handler (key_of blocked) m h refl
  scrape_lem allowed m h n = scrape-handler (key_of allowed) m h refl
  scrape_lem (tenant id) m (h, k, l) (n, _) =
      scrape-handler (key_of (tenant id)) m (h, k, l) refl
      ∙ (rw
          (
            find_sample-counter_lines p tenant_prefix id m.tenant_requests n h,
            find_sample-other p tenant_prefix blocked_prefix id m.tenant_blocked (λ x y. refl),
            find_sample-other p tenant_prefix rule_prefix id m.rule_hits (λ x y. refl),
          )
          (or_none (printed p (lookup id m.tenant_requests))))
  scrape_lem (tenant_blocked id) m (h, k, l) (n, _) =
      scrape-handler (key_of (tenant_blocked id)) m (h, k, l) refl
      ∙ (rw
          (
            find_sample-counter_lines p blocked_prefix id m.tenant_blocked n k,
            find_sample-other p blocked_prefix tenant_prefix id m.tenant_requests (λ x y. refl),
            find_sample-other p blocked_prefix rule_prefix id m.rule_hits (λ x y. refl),
          )
          (or_none (printed p (lookup id m.tenant_blocked))))
  scrape_lem (rule id) m (h, k, l) (n, _) =
      scrape-handler (key_of (rule id)) m (h, k, l) refl
      ∙ (rw
          (
            find_sample-counter_lines p rule_prefix id m.rule_hits n l,
            find_sample-other p rule_prefix tenant_prefix id m.tenant_requests (λ x y. refl),
            find_sample-other p rule_prefix blocked_prefix id m.tenant_blocked (λ x y. refl),
          )
          refl)
