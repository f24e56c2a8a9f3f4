-- ===== src/Prelude/Int64.antt =====
-- Go's `int` and `time.Duration`: 64-bit words with wrap-around. A word is kept as its bit pattern,
-- a number below 2^64; the signed order compares the patterns with the sign bit turned over.
use hermes_waf.Prelude.{ℕ, ◌+◌, ◌-◌, ◌*◌, ◌/◌, ◌%◌, ◌<◌, ◌≡◌, Bool, arith, ltb, if◌then◌else◌}

abbrev pub Int64 : Type 0
Int64 = ℕ

-- 2^63 and 2^64.
abbrev pub half : ℕ
half = 9223372036854775808

abbrev pub modulus : ℕ
modulus = 18446744073709551616

abbrev pub add64 : Int64 → Int64 → Int64
add64 a b = (a + b) % modulus

abbrev pub sub64 : Int64 → Int64 → Int64
sub64 a b = (a + modulus - b) % modulus

abbrev pub mul64 : Int64 → Int64 → Int64
mul64 a b = a * b % modulus

-- a < b on signed words.
abbrev pub lt64 : Int64 → Int64 → Bool
lt64 a b = ltb ((a + half) % modulus) ((b + half) % modulus)

-- The signed order of words that stand for non-negative numbers.
pub lt64_nonneg : (a b : Int64) → a < half → b < half → lt64 a b ≡ ltb a b
lt64_nonneg a b h k = ground arith

-- `t.Sub(u)` for readings of the monotonic clock, in nanoseconds, with `u` the earlier one; the
-- result saturates at the largest duration.
abbrev pub since : ℕ → ℕ → Int64
since t u = if ltb (t - u) half then t - u else half - 1

-- `-a`
abbrev pub neg64 : Int64 → Int64
neg64 a = (modulus - a) % modulus

-- `a / b` for signed words, towards zero; `b` is not zero.
unfoldable pub quot64 : Int64 → Int64 → Int64
quot64 a b =
    if ltb a half
    then (if ltb b half then a / b else neg64 (a / neg64 b))
    else if ltb b half
    then neg64 (neg64 a / b)
    else neg64 a / neg64 b % modulus

-- On words that stand for non-negative numbers it is the division of the numbers.
pub quot64_nonneg : (a b : Int64) → a < half → b < half → quot64 a b ≡ a / b
unfolding quot64
quot64_nonneg a b h k = ground arith
