-- ===== src/Metrics/Exposition/Samples.antt =====
-- internal/metrics/metrics.go: how a scraper finds a series among the lines of the metrics
-- endpoint.
use mathlib.Core.List.{append_assoc}
use hermes_waf.Prelude.{
  Str, bytes, ◌≡◌, refl, ap, ◌∙◌, inl, inr, false, ◌&&◌, Option, none, some, List, [], ◌∷◌, ◌++◌,
  ◌==◌, arith, All, Bool-cases, if◌then◌else◌, eq_iff,
}
use hermes_waf.Prelude.Dict.{Dict, lookup, keys}
use hermes_waf.Prelude.Int64.{Int64}
use hermes_waf.Text.{split, starts_with, trim_prefix}
use hermes_waf.Text.SplitJoin.{IsFree}
use hermes_waf.Text.Prefixes.{trim_prefix-append}
use hermes_waf.Metrics.Exposition.{Printf, labelled, counter_lines}

-- What follows `key` in the first line that starts with it.
unfoldable pub find_sample : Str → List Str → Option Str
find_sample key [] = none
find_sample key (l ∷ ls) =
    if starts_with l key then some (trim_prefix l key) else find_sample key ls

-- A scraper: it takes the lines one by one.
unfoldable pub scrape : Str → Str → Option Str
scrape key text = find_sample key (split b'\n' text)

abbrev pub or_sample : Option Str → Option Str → Option Str
or_sample (some v) o = some v
or_sample none o = o

pub or_none : (o : Option Str) → or_sample o none ≡ o
or_none none = refl
or_none (some v) = refl

pub find_sample-append :
    (key : Str) (xs ys : List Str)
    → find_sample key (xs ++ ys) ≡ or_sample (find_sample key xs) (find_sample key ys)
unfolding find_sample
find_sample-append key [] ys = refl
find_sample-append key (x ∷ xs) ys = ground (arith, find_sample-append key xs ys)

starts_with-cancel : (p x y : Str) → starts_with (p ++ x) (p ++ y) ≡ starts_with x y
unfolding starts_with
starts_with-cancel [] x y = refl
starts_with-cancel (c ∷ p) x y = ground (arith, starts_with-cancel p x y)

-- Two texts up to their quotes.
starts_with-quoted :
    (i j x y : Str)
    → IsFree b'"' i
    → IsFree b'"' j
    → starts_with (i ++ b'"' ∷ x) (j ++ b'"' ∷ y) ≡ (i == j && starts_with x y)
unfolding starts_with ◌==◌
starts_with-quoted [] [] x y h k = ground arith
starts_with-quoted [] (c ∷ j) x y h (k, ks) = ground arith
starts_with-quoted (c ∷ i) [] x y (h, hs) k = ground arith
starts_with-quoted (c ∷ i) (d ∷ j) x y (h, hs) (k, ks) =
    ground (arith, starts_with-quoted i j x y hs ks)

labelled-append :
    (prefix i v : Str) → labelled prefix i ++ v ≡ prefix ++ b'"' ∷ (i ++ b'"' ∷ (bytes "} " ++ v))
labelled-append prefix i v =
    append_assoc prefix (b'"' ∷ (i ++ b'"' ∷ bytes "} ")) v
    ∙ ap (λ t. prefix ++ b'"' ∷ t) (append_assoc i (b'"' ∷ bytes "} ") v)

-- A line of a map belongs to the series of its own ID.
starts_with-labelled :
    (prefix i j v : Str)
    → IsFree b'"' i
    → IsFree b'"' j
    → starts_with (labelled prefix i ++ v) (labelled prefix j) ≡ (i == j)
unfolding starts_with
starts_with-labelled prefix i j v h k =
    ap (λ t. starts_with t (labelled prefix j)) (labelled-append prefix i v)
    ∙ starts_with-cancel prefix (b'"' ∷ (i ++ b'"' ∷ (bytes "} " ++ v)))
        (b'"' ∷ (j ++ b'"' ∷ bytes "} "))
    ∙ starts_with-quoted i j (bytes "} " ++ v) (bytes "} ") h k
    ∙ ground arith

-- No quote and no end of a line.
abbrev pub IsSafe : Str → Type 0
IsSafe s = IsFree b'"' s × IsFree b'\n' s

abbrev pub printed : Printf → Option Int64 → Option Str
printed p none = none
printed p (some n) = some (p.int n)

pub find_sample-counter_lines :
    (p : Printf) (prefix j : Str) (m : Dict Int64)
    → IsFree b'"' j
    → All IsSafe (keys m)
    → find_sample (labelled prefix j) (counter_lines p prefix m) ≡ printed p (lookup j m)
unfolding find_sample counter_lines lookup
find_sample-counter_lines p prefix j [] k h = refl
find_sample-counter_lines p prefix j ((i, n) ∷ m) k ((q, _), h) =
    let own = starts_with-labelled prefix i j (p.int n) q k in
    elim (Bool-cases (i == j)) [
      | inr other ↦ rw (own, other) (find_sample-counter_lines p prefix j m k h)
      | inl same ↦
          let e : i ≡ j = (eq_iff i j).0 same in
          rw (own, same) (rw e (ap some (trim_prefix-append (labelled prefix j) (p.int n))))
    ]

-- The series of another map.
pub find_sample-other :
    (p : Printf) (prefix prefix' j : Str) (m : Dict Int64)
    → ((x y : Str) → starts_with (prefix' ++ x) (prefix ++ y) ≡ false)
    → find_sample (labelled prefix j) (counter_lines p prefix' m) ≡ none
unfolding find_sample counter_lines
find_sample-other p prefix prefix' j [] h = refl
find_sample-other p prefix prefix' j ((i, n) ∷ m) h =
    rw
      (
        labelled-append prefix' i (p.int n),
        h (b'"' ∷ (i ++ b'"' ∷ (bytes "} " ++ p.int n))) (b'"' ∷ (j ++ b'"' ∷ bytes "} ")),
      )
      (find_sample-other p prefix prefix' j m h)
