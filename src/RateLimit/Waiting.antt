-- ===== src/RateLimit/Waiting.antt =====
-- internal/ratelimit/ratelimit.go: how long a client may have to wait for a call of `Allow` that
-- is granted.
use hermes_waf.Prelude.{
  ℕ, ◌+◌, ◌≤◌, ◌<◌, ◌≡◌, ap, inl, inr, Bool-cases, true, false, Option, none, some, List, [], ◌∷◌,
  ◌++◌, arith, Str, ◌==◌, eq_iff, eq_refl, ◌&&◌,
}
use hermes_waf.Prelude.Dict.{lookup}
use hermes_waf.RateLimit.{Bucket, RateLimiter, bucket_or_full, refill, spend, take, allow}
use hermes_waf.RateLimit.Refill.{Fits, worth, worth_small, tokens_to_add_lem}
use hermes_waf.RateLimit.Calls.{
  InOrder-le, Call, InOrder, IsCurrent, admitted, lookup-allow_ne, lookup-allow_self, granted_self,
  rate-allow, Fits-allow, IsCurrent-allow, IsCurrent-later, is_granted, is_granted-some,
}
use hermes_waf.RateLimit.Sweeping.{rate-le-worth}

-- A whole interval has passed since the bucket was updated.
abbrev Waited : RateLimiter → ℕ → Option Bucket → Type 0
Waited rl now none = Unit {0}
Waited rl now (some b) = b.last_update + rl.interval ≤ now

module _ {rl : RateLimiter} {end : ℕ} (f : Fits rl end) (live : 0 < rl.rate) where
  -- A call that is refused leaves the bucket as it is.
  refused_lem :
      (b : Bucket) (now : ℕ)
      → b.tokens ≤ rl.rate
      → now ≤ end
      → (take rl b now).0 ≡ false
      → (b.tokens ≡ 0) × ((take rl b now).1 ≡ b) × (worth rl b.last_update now ≡ 0)
  unfolding take refill spend
  refused_lem b now full h e =
      let small = worth_small f b.last_update now h in
      let added = tokens_to_add_lem f b now h in ground (arith, small, added)

  granted_after :
      (b : Bucket) (now : ℕ)
      → b.tokens ≤ rl.rate
      → now ≤ end
      → b.last_update + rl.interval ≤ now
      → (take rl b now).0 ≡ true
  granted_after b now full h waited = elim (Bool-cases (take rl b now).0) [
    | inl granted ↦ granted
    | inr refused ↦
        let (_, _, nothing) = refused_lem b now full h refused in
        absurd (omega (arith, rate-le-worth f b.last_update now (omega arith)))
  ]

  -- The bucket that a call works on is the stored one, if the call is refused.
  refused_stored :
      (o : Option Bucket) (t created now : ℕ)
      → IsCurrent rl t o
      → now ≤ end
      → (take rl (bucket_or_full rl o created) now).0 ≡ false
      → some (take rl (bucket_or_full rl o created) now).1 ≡ o
  refused_stored none t created now cur h e =
      let (empty, _, _) = refused_lem (bucket_or_full rl none created) now (omega arith) h e in
      absurd (omega arith)
  refused_stored (some b) t created now (full, past) h e =
      let (_, same, _) = refused_lem b now full h e in ap some same

  granted_due :
      (o : Option Bucket) (t created now : ℕ)
      → IsCurrent rl t o
      → Waited rl now o
      → now ≤ end
      → (take rl (bucket_or_full rl o created) now).0 ≡ true
  granted_due (some b) t created now (full, past) w h = granted_after b now full h w
  granted_due none t created now cur w h =
      let b = bucket_or_full rl none created in
      elim (Bool-cases (take rl b now).0) [
        | inl granted ↦ granted
        | inr refused ↦
            let (empty, _, _) = refused_lem b now (omega arith) h refused in absurd (omega arith)
      ]

module _ (key : Str) where
  -- A call of another key, or one that is refused, leaves the key's bucket.
  kept_self :
      (t end created now : ℕ) (rl : RateLimiter)
      → Fits rl end
      → 0 < rl.rate
      → now ≤ end
      → IsCurrent rl t (lookup key rl.buckets)
      → is_granted (allow key created now rl).0 ≡ false
      → lookup key (allow key created now rl).1.buckets ≡ lookup key rl.buckets
  kept_self t end created now rl f live h cur e =
      let o = lookup key rl.buckets in
      let b = bucket_or_full rl o created in
      let refused : (take rl b now).0 ≡ false =
        rw (granted_self key created now rl f.interval_pos, is_granted-some (take rl b now).0) at
          e in
      rw (lookup-allow_self key created now rl f.interval_pos)
        (refused_stored f live o t created now cur h refused)

  kept :
      (c : Call) (t end : ℕ) (rl : RateLimiter)
      → Fits rl end
      → 0 < rl.rate
      → c.now ≤ end
      → IsCurrent rl t (lookup key rl.buckets)
      → (c.key == key && is_granted (allow c.key c.created c.now rl).0) ≡ false
      → lookup key (allow c.key c.created c.now rl).1.buckets ≡ lookup key rl.buckets
  kept c t end rl f live h cur e = elim (Bool-cases (c.key == key)) [
    | inr other ↦ lookup-allow_ne key c.key c.created c.now rl other
    | inl same ↦
        let k : c.key ≡ key = (eq_iff c.key key).0 same in
        let refused : is_granted (allow key c.created c.now rl).0 ≡ false =
          rw (k, eq_refl key) at e in
        rw k (kept_self t end c.created c.now rl f live h cur refused)
  ]

  granted_last :
      (c : Call) (t end : ℕ) (rl : RateLimiter)
      → Fits rl end
      → 0 < rl.rate
      → c.now ≤ end
      → c.key ≡ key
      → IsCurrent rl t (lookup key rl.buckets)
      → Waited rl c.now (lookup key rl.buckets)
      → 0 < admitted key (c ∷ []) rl
  unfolding admitted
  granted_last c t end rl f live h k cur w =
      let o = lookup key rl.buckets in
      rw
        (
          k,
          eq_refl key,
          granted_self key c.created c.now rl f.interval_pos,
          granted_due f live o t c.created c.now cur w h,
        )
        (omega arith)

  Waited-allow :
      (j : Str) (created now' now : ℕ) (rl : RateLimiter) (o : Option Bucket)
      → Waited rl now o
      → Waited (allow j created now' rl).1 now o
  Waited-allow j created now' now rl none w = tt
  Waited-allow j created now' now rl (some b) w = rw ((rate-allow j created now' rl).1) w

  InOrder-last :
      (t end : ℕ) (cs : List Call) (c : Call) → InOrder t end (cs ++ c ∷ []) → c.now ≤ end
  InOrder-last t end [] c (p, q, h) = h
  InOrder-last t end (d ∷ cs) c (p, q, h) = InOrder-last d.now end cs c h

  admitted_due :
      (t end : ℕ) (cs : List Call) (c : Call) (rl : RateLimiter)
      → Fits rl end
      → 0 < rl.rate
      → InOrder t end (cs ++ c ∷ [])
      → c.key ≡ key
      → IsCurrent rl t (lookup key rl.buckets)
      → Waited rl c.now (lookup key rl.buckets)
      → 0 < admitted key (cs ++ c ∷ []) rl
  unfolding admitted
  admitted_due t end [] c rl f live (p, q, h) k cur w = granted_last c t end rl f live h k cur w
  admitted_due t end (d ∷ cs) c rl f live (p, q, h) k cur w =
      elim (Bool-cases (d.key == key && is_granted (allow d.key d.created d.now rl).0)) [
        | inl granted ↦ rw granted (omega arith)
        | inr refused ↦
            let o = lookup key rl.buckets in
            let same = kept d t end rl f live (InOrder-le d.now end (cs ++ c ∷ []) h) cur refused in
            rw refused (
              admitted_due d.now end cs c (allow d.key d.created d.now rl).1
                (Fits-allow d.key d.created d.now f)
                (rw ((rate-allow d.key d.created d.now rl).0) live) h k
                (rw same (
                  IsCurrent-allow d.key d.created d.now rl d.now o
                    (IsCurrent-later rl t d.now o (omega arith) cur)))
                (rw same (Waited-allow d.key d.created d.now c.now rl o w)))
      ]

-- No client starves: of the calls for a key that are made one after the other, with calls for other
-- keys between them, at least one is granted if the last of them comes a whole interval after the
-- start. The rate and the interval are positive, no word overflows up to the end, the readings of
-- the clock do not decrease, and at the start the key's bucket, if there is one, is no fuller than
-- the rate.
pub admitted_live :
    (key : Str) (t end : ℕ) (cs : List Call) (c : Call) (rl : RateLimiter)
    → Fits rl end
    → 0 < rl.rate
    → InOrder t end (cs ++ c ∷ [])
    → c.key ≡ key
    → IsCurrent rl t (lookup key rl.buckets)
    → t + rl.interval ≤ c.now
    → 0 < admitted key (cs ++ c ∷ []) rl
admitted_live key t end cs c rl f live order k cur long =
    admitted_due key t end cs c rl f live order k cur (waited (lookup key rl.buckets) cur)
  where
    waited : (o : Option Bucket) → IsCurrent rl t o → Waited rl c.now o
    waited none c' = tt
    waited (some b) (full, past) = omega arith
