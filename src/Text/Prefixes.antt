-- ===== src/Text/Prefixes.antt =====
-- Texts with a common beginning: a prefix cancels, and two prefixes that do not continue one
-- another never meet.
use hermes_waf.Prelude.{Str, ◌≡◌, ◌≢◌, refl, [], ◌∷◌, ◌++◌, arith, ◌==◌, true, false, length, drop}
use hermes_waf.Text.{starts_with, trim_prefix}

pub eq-append : (p x y : Str) → ((p ++ x) == (p ++ y)) ≡ (x == y)
unfolding ◌==◌
eq-append [] x y = refl
eq-append (c ∷ p) x y = rw (eq-append p x y) (ground arith)

pub append_cancel : (p x y : Str) → p ++ x ≡ p ++ y → x ≡ y
append_cancel [] x y e = e
append_cancel (c ∷ p) x y e = append_cancel p x y (cc)

pub starts_with-append : (p x : Str) → starts_with (p ++ x) p ≡ true
unfolding starts_with
starts_with-append [] [] = refl
starts_with-append [] (c ∷ x) = refl
starts_with-append (c ∷ p) x = ground (arith, starts_with-append p x)

drop-append : (p x : Str) → drop (length p) (p ++ x) ≡ x
drop-append [] x = refl
drop-append (c ∷ p) x = drop-append p x

-- A prefix is taken off again.
pub trim_prefix-append : (p x : Str) → trim_prefix (p ++ x) p ≡ x
unfolding trim_prefix
trim_prefix-append p x = rw (starts_with-append p x) (drop-append p x)

append-drop : (s p : Str) → starts_with s p ≡ true → p ++ drop (length p) s ≡ s
unfolding starts_with
append-drop [] [] h = refl
append-drop (c ∷ s) [] h = refl
append-drop [] (d ∷ p) h = cc
append-drop (c ∷ s) (d ∷ p) h = ground (arith, append-drop s p)

-- What starts with a prefix is the prefix and the rest.
pub append-trim_prefix : (s p : Str) → starts_with s p ≡ true → p ++ trim_prefix s p ≡ s
unfolding trim_prefix
append-trim_prefix s p h = rw h (append-drop s p h)

-- No text begins with both.
abbrev pub Apart : Str → Str → Type 0
Apart p q = (x y : Str) → p ++ x ≢ q ++ y

pub Apart-starts_with : (p q : Str) → starts_with p q ≡ false → starts_with q p ≡ false → Apart p q
unfolding starts_with
Apart-starts_with [] [] h k x y e = cc
Apart-starts_with [] (d ∷ q) h k x y e = cc
Apart-starts_with (c ∷ p) [] h k x y e = cc
Apart-starts_with (c ∷ p) (d ∷ q) h k x y e =
    let same : c ≡ d = cc in Apart-starts_with p q (ground arith) (ground arith) x y (cc)
