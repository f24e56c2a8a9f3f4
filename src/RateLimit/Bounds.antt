-- ===== src/RateLimit/Bounds.antt =====
-- internal/ratelimit/ratelimit.go: how many requests a limiter admits over any run, whatever other
-- keys do in between.
use mathlib.Core.Path.{subst}
use hermes_waf.Prelude.{
  ℕ, ◌+◌, ◌-◌, ◌*◌, ◌/◌, ◌≤◌, ◌≡◌, inl, inr, Bool-cases, Bool, false, Option, none, some, List, [],
  ◌∷◌, arith, Str, ◌==◌, eq_iff, eq_refl, ◌&&◌,
}
use hermes_waf.Prelude.Dict.{lookup}
use hermes_waf.RateLimit.{Bucket, RateLimiter, bucket_or_full, refill, take, allow}
use hermes_waf.RateLimit.Refill.{Fits, worth, count, worth-add, refill-IsRefilled, spend_lem}
use hermes_waf.RateLimit.Calls.{
  Call, InOrder, is_granted, is_granted-some, admitted, lookup-allow_ne, lookup-allow_self,
  granted_self, rate-allow, Fits-allow, IsCurrent, IsCurrent-allow, IsCurrent-later, InOrder-le,
}

worth-allow :
    (j : Str) (created now : ℕ) (rl : RateLimiter) (t u : ℕ)
    → worth (allow j created now rl).1 t u ≡ worth rl t u
unfolding worth
worth-allow j created now rl t u = let (r, i) = rate-allow j created now rl in rw (r, i)

-- What a key may still spend up to `end`.
abbrev budget : RateLimiter → ℕ → ℕ → Option Bucket → ℕ
budget rl t end none = rl.rate + worth rl t end
budget rl t end (some b) = b.tokens + worth rl b.last_update end

module _ {rl : RateLimiter} {end : ℕ} (f : Fits rl end) where
  -- One call on the key's own bucket.
  take_lem :
      (b : Bucket) (now : ℕ)
      → b.tokens ≤ rl.rate
      → b.last_update ≤ now
      → now ≤ end
      → IsCurrent rl now (some (take rl b now).1)
        × (count (take rl b now).0 + budget rl now end (some (take rl b now).1)
            ≤ budget rl now end (some b))
  unfolding take
  take_lem b now full past h =
      let r = refill-IsRefilled f b now full past h in
      let (same, spent) = spend_lem f (refill rl b now) r.at_most in
      let grown =
        worth-add f b.last_update (refill rl b now).last_update end r.later
          (omega (arith, r.reached)) in
      let at_most = r.at_most in
      let reached = r.reached in let paid = r.paid in rw same ((omega arith, reached), omega arith)

  full_lem :
      (created now t : ℕ) (o : Option Bucket)
      → IsCurrent rl t o
      → t ≤ created
      → created ≤ now
      → now ≤ end
      → IsCurrent rl now (some (bucket_or_full rl o created))
        × (budget rl now end (some (bucket_or_full rl o created)) ≤ budget rl t end o)
  full_lem created now t none c p q h =
      ((omega arith, q), omega (arith, worth-add f t created end p (omega arith)))
  full_lem created now t (some b) (full, past) p q h = ((full, omega arith), omega arith)

budget-allow :
    (j : Str) (created now : ℕ) (rl : RateLimiter) (t end : ℕ) (o : Option Bucket)
    → budget (allow j created now rl).1 t end o ≡ budget rl t end o
budget-allow j created now rl t end none =
    rw (worth-allow j created now rl t end, (rate-allow j created now rl).0)
budget-allow j created now rl t end (some b) = rw (worth-allow j created now rl b.last_update end)

module _ {rl : RateLimiter} {end : ℕ} (f : Fits rl end) where
  budget-later :
      (t u : ℕ) (o : Option Bucket) → t ≤ u → u ≤ end → budget rl u end o ≤ budget rl t end o
  budget-later t u none p h = omega (arith, worth-add f t u end p h)
  budget-later t u (some b) p h = omega arith

-- What one call does to the key that is watched: `r` is the call's result.
abbrev IsPaid : Str → Call → ℕ → ℕ → RateLimiter → Option Bool × RateLimiter → Type 0
IsPaid key c t end rl r =
    IsCurrent r.1 c.now (lookup key r.1.buckets)
    × (count (c.key == key && is_granted r.0) + budget r.1 c.now end (lookup key r.1.buckets)
        ≤ budget rl t end (lookup key rl.buckets))

module _ (c : Call) (t end : ℕ) (rl : RateLimiter) (f : Fits rl end) (p : t ≤ c.created)
    (q : c.created ≤ c.now) (h : c.now ≤ end) where
  allow-budget_self :
      IsCurrent rl t (lookup c.key rl.buckets)
      → IsPaid c.key c t end rl (allow c.key c.created c.now rl)
  allow-budget_self cur =
      let o = lookup c.key rl.buckets in
      let b = bucket_or_full rl o c.created in
      let ((most, past), less) = full_lem f c.created c.now t o cur p q h in
      let (cur', paid) = take_lem f b c.now most past h in
      rw
        (
          lookup-allow_self c.key c.created c.now rl f.interval_pos,
          granted_self c.key c.created c.now rl f.interval_pos,
          eq_refl c.key,
          budget-allow c.key c.created c.now rl c.now end (some (take rl b c.now).1),
          is_granted-some (take rl b c.now).0,
        )
        (
          IsCurrent-allow c.key c.created c.now rl c.now (some (take rl b c.now).1) cur',
          omega arith,
        )

  allow-budget_ne :
      (key : Str)
      → (c.key == key) ≡ false
      → IsCurrent rl t (lookup key rl.buckets)
      → IsPaid key c t end rl (allow c.key c.created c.now rl)
  allow-budget_ne key e cur =
      let o = lookup key rl.buckets in
      rw
        (
          lookup-allow_ne key c.key c.created c.now rl e,
          e,
          budget-allow c.key c.created c.now rl c.now end o,
        )
        (
          IsCurrent-allow c.key c.created c.now rl c.now o
              (IsCurrent-later rl t c.now o (omega arith) cur),
          omega (arith, budget-later f t c.now o (omega arith) h),
        )

  allow-budget :
      (key : Str)
      → IsCurrent rl t (lookup key rl.buckets)
      → IsPaid key c t end rl (allow c.key c.created c.now rl)
  allow-budget key cur = elim (Bool-cases (c.key == key)) [
    | inr other ↦ allow-budget_ne key other cur
    | inl same ↦
        subst
          (λ k.
            IsCurrent rl t (lookup k rl.buckets)
            → IsPaid k c t end rl (allow c.key c.created c.now rl))
          ((eq_iff c.key key).0 same) allow-budget_self cur
  ]

admitted-le-budget :
    (key : Str) (t end : ℕ) (cs : List Call) (rl : RateLimiter)
    → Fits rl end
    → InOrder t end cs
    → IsCurrent rl t (lookup key rl.buckets)
    → admitted key cs rl ≤ budget rl t end (lookup key rl.buckets)
unfolding admitted
admitted-le-budget key t end [] rl f h cur = omega arith
admitted-le-budget key t end (c ∷ cs) rl f (p, q, h) cur =
    let rl' = (allow c.key c.created c.now rl).1 in
    let (cur', paid) = allow-budget c t end rl f p q (InOrder-le c.now end cs h) key cur in
    let rest =
      admitted-le-budget key c.now end cs rl' (Fits-allow c.key c.created c.now f) h cur' in
    ground (arith, rest, paid)

-- A key that has no bucket when a run begins is granted at most `rate` calls, and `rate` more for
-- each whole interval between the first and the last reading of the clock, whatever calls other
-- keys make in between: the readings are in order, and up to the last one no word overflows.
pub admitted_bound :
    (key : Str) (t end : ℕ) (cs : List Call) (rl : RateLimiter)
    → Fits rl end
    → InOrder t end cs
    → lookup key rl.buckets ≡ none
    → admitted key cs rl ≤ rl.rate + (end - t) / rl.interval * rl.rate
admitted_bound key t end cs rl f h fresh =
    let bound = admitted-le-budget key t end cs rl f h (rw fresh tt) in
    unfold worth in (rw fresh at bound)
