-- ===== src/Metrics/Window.antt =====
-- The latency window and its average.
use native.Mathlib.Nat.{le-div_iff_mul-le, mod-eq_of_lt, div-le_of_le-mul}
use mathlib.Core.List.{append-nil, append_assoc}
use hermes_waf.Prelude.{
  ℕ, suc, zero, ◌+◌, ◌-◌, ◌*◌, ◌/◌, ◌≤◌, ◌<◌, ◌≡◌, refl, sym, ap, ◌∙◌, Str, Bool, true, false, List,
  [], ◌∷◌, ◌++◌, arith, length, drop, All, length-append, length-drop, ltb, Bool-cases, inl, inr,
}
use hermes_waf.Prelude.Int64.{Int64, add64, half}
use hermes_waf.Metrics.{
  Metrics, new_metrics, window, keep_last, record_request, record_rule_hit, add_all, div64,
  get_average_latency,
}
use hermes_waf.Metrics.Counts.{Event, request, rule_hit, apply_all}

-- The last `window` items.
unfoldable pub last : List Int64 → List Int64
last ls = drop (length ls - window) ls

drop-append : (n : ℕ) (xs ys : List Int64) → n ≤ length xs → drop n (xs ++ ys) ≡ drop n xs ++ ys
drop-append zero xs ys h = refl
drop-append (suc n) [] ys h = absurd (omega arith)
drop-append (suc n) (x ∷ xs) ys h = drop-append n xs ys (omega arith)

drop-nil : (n : ℕ) → drop {A = Int64} n [] ≡ []
drop-nil zero = refl
drop-nil (suc n) = refl

drop-drop : (m n k : ℕ) (xs : List Int64) → n + m ≡ k → drop m (drop n xs) ≡ drop k xs
drop-drop m zero k xs h = let same : m ≡ k = omega arith in ap (λ j. drop j xs) same
drop-drop m (suc n) k [] h = drop-nil m ∙ sym (drop-nil k)
drop-drop m (suc n) zero (x ∷ xs) h = absurd (omega arith)
drop-drop m (suc n) (suc k) (x ∷ xs) h = drop-drop m n k xs (omega arith)

pub length-last : (xs : List Int64) → length (last xs) ≤ window
unfolding last
length-last xs = omega (arith, length-drop (length xs - window) xs)

-- The items before the window do not matter to a later window.
last-append : (xs ys : List Int64) → last (last xs ++ ys) ≡ last (xs ++ ys)
unfolding last
last-append xs ys =
    let d = length xs - window in
    let kept = drop d xs in
    let n = length (kept ++ ys) - window in
    ap (drop n) (sym (drop-append d xs ys (omega arith)))
    ∙ drop-drop n d (length (xs ++ ys) - window) (xs ++ ys)
        (omega (arith, length-append kept ys, length-append xs ys, length-drop d xs))

last_of_le : (xs : List Int64) → length xs ≤ window → last xs ≡ xs
unfolding last
last_of_le xs h = let none_over : length xs - window ≡ 0 = omega arith in rw none_over

keep_last-eq-last : (xs : List Int64) → keep_last xs ≡ last xs
unfolding keep_last last
keep_last-eq-last xs = elim (Bool-cases (ltb window (length xs))) [
  | inl over ↦ rw over
  | inr under ↦ let none_over : length xs - window ≡ 0 = ground arith in rw (under, none_over)
]

-- The latencies of the calls of `RecordRequest`, in order.
unfoldable pub latencies : List Event → List Int64
latencies [] = []
latencies (request id b l ∷ es) = l ∷ latencies es
latencies (rule_hit rule ∷ es) = latencies es

record_request-latencies :
    (id : Str) (b : Bool) (l : Int64) (m : Metrics)
    → (record_request id b l m).request_latencies ≡ last (m.request_latencies ++ l ∷ [])
unfolding record_request
record_request-latencies id true l m = keep_last-eq-last (m.request_latencies ++ l ∷ [])
record_request-latencies id false l m = keep_last-eq-last (m.request_latencies ++ l ∷ [])

apply_all-latencies :
    (es : List Event) (m : Metrics)
    → length m.request_latencies ≤ window
    → (apply_all es m).request_latencies ≡ last (m.request_latencies ++ latencies es)
unfolding apply_all latencies record_rule_hit
apply_all-latencies [] m h =
    rw (append-nil m.request_latencies) (sym (last_of_le m.request_latencies h))
apply_all-latencies (request id b l ∷ es) m h =
    let m' = record_request id b l m in
    let now = record_request-latencies id b l m in
    let old = m.request_latencies in
    apply_all-latencies es m' (rw now (length-last (old ++ l ∷ [])))
    ∙ ap (λ k. last (k ++ latencies es)) now
    ∙ last-append (old ++ l ∷ []) (latencies es)
    ∙ ap last (append_assoc old (l ∷ []) (latencies es))
apply_all-latencies (rule_hit rule ∷ es) m h = apply_all-latencies es (record_rule_hit rule m) h

-- After any calls on new metrics, the latency window holds the last thousand latencies in order,
-- or all of them if there are no more.
pub request_latencies-apply_all :
    (es : List Event) → (apply_all es new_metrics).request_latencies ≡ last (latencies es)
unfolding new_metrics
request_latencies-apply_all es = apply_all-latencies es new_metrics (omega arith)

total : List Int64 → ℕ
total [] = 0
total (l ∷ ls) = l + total ls

total-le : (b : ℕ) (ls : List Int64) → All (λ l. l ≤ b) ls → total ls ≤ length ls * b
unfolding total
total-le b [] h = omega arith
total-le b (l ∷ ls) (p, h) = let ih = total-le b ls h in grind (arith, ih)

le-total : (a : ℕ) (ls : List Int64) → All (λ l. a ≤ l) ls → length ls * a ≤ total ls
unfolding total
le-total a [] h = omega arith
le-total a (l ∷ ls) (p, h) = let ih = le-total a ls h in grind (arith, ih)

add_all-eq-total :
    (acc : Int64) (ls : List Int64) → acc + total ls < half → add_all acc ls ≡ acc + total ls
unfolding add_all total
add_all-eq-total acc [] h = omega arith
add_all-eq-total acc (l ∷ ls) h =
    let here : add64 acc l ≡ acc + l = mod-eq_of_lt (omega arith) in
    rw here (add_all-eq-total (acc + l) ls (omega arith) ∙ omega arith)

quotient_bounds : (t n a b : ℕ) → 0 < n → n * a ≤ t → t ≤ n * b → (a ≤ t / n) × (t / n ≤ b)
quotient_bounds t n a b p lo hi = ((le-div_iff_mul-le p).1 (omega arith), div-le_of_le-mul n hi)

div64_nonneg : (t n : Int64) → t < half → div64 t n ≡ t / n
div64_nonneg t n h = ground arith

-- The average of a window that is not empty lies between any bounds of its latencies, if the
-- window is no longer than a thousand and the upper bound a thousand times is a positive word.
pub average_bounds :
    (a b l : ℕ) (ls : List Int64) (m : Metrics)
    → m.request_latencies ≡ l ∷ ls
    → All (λ x. a ≤ x) (l ∷ ls)
    → All (λ x. x ≤ b) (l ∷ ls)
    → length (l ∷ ls) ≤ window
    → window * b < half
    → (a ≤ get_average_latency m) × (get_average_latency m ≤ b)
unfolding get_average_latency
average_bounds a b l ls m e lo hi short small =
    let n = length (l ∷ ls) in
    let above = total-le b (l ∷ ls) hi in
    let below = le-total a (l ∷ ls) lo in
    let scaled : n * b ≤ window * b = grind arith in
    let sum : add_all 0 (l ∷ ls) ≡ total (l ∷ ls) =
      add_all-eq-total 0 (l ∷ ls) (omega arith) ∙ omega arith in
    let fits : total (l ∷ ls) < half = omega arith in
    rw (e, sum, div64_nonneg (total (l ∷ ls)) n fits)
      (quotient_bounds (total (l ∷ ls)) n a b (omega arith) below above)
