-- ===== src/Text/SplitJoin.antt =====
-- Splitting a text at a separator, and joining the parts again.
use hermes_waf.Prelude.{
  ℕ, Str, ◌≡◌, ◌≢◌, refl, ap, ◌∙◌, List, [], ◌∷◌, ◌++◌, arith, eqb, Bool-cases, inl, inr, All,
}
use hermes_waf.Text.{split_parts, split, join}

-- The text has no byte `sep`.
abbrev pub IsFree : ℕ → Str → Type 0
IsFree sep s = All (λ c. c ≢ sep) s

split_parts-append :
    (sep : ℕ) (a s : Str)
    → IsFree sep a
    → split_parts sep (a ++ sep ∷ s) ≡ (a, (split_parts sep s).0 ∷ (split_parts sep s).1)
unfolding split_parts
split_parts-append sep [] s h = ground arith
split_parts-append sep (c ∷ a) s (p, h) = rw (split_parts-append sep a s h) (ground arith)

pub split-append : (sep : ℕ) (a s : Str) → IsFree sep a → split sep (a ++ sep ∷ s) ≡ a ∷ split sep s
unfolding split
split-append sep a s h = rw (split_parts-append sep a s h)

split_parts-IsFree :
    (sep : ℕ) (s : Str) → IsFree sep (split_parts sep s).0 × All (IsFree sep) (split_parts sep s).1
unfolding split_parts
split_parts-IsFree sep [] = (tt, tt)
split_parts-IsFree sep (c ∷ s) =
    let (h, k) = split_parts-IsFree sep s in
    elim (Bool-cases (eqb c sep)) [
      | inl e ↦ rw e (tt, (h, k))
      | inr e ↦ rw e ((ground arith, h), k)
    ]

-- No part of a split text has the separator.
pub split-IsFree : (sep : ℕ) (s : Str) → All (IsFree sep) (split sep s)
unfolding split
split-IsFree sep s = split_parts-IsFree sep s

split_parts_of_IsFree : (sep : ℕ) (s : Str) → IsFree sep s → split_parts sep s ≡ (s, [])
unfolding split_parts
split_parts_of_IsFree sep [] h = refl
split_parts_of_IsFree sep (c ∷ s) (p, h) = rw (split_parts_of_IsFree sep s h) (ground arith)

-- Joining parts without the separator and splitting again gives the parts.
pub split-join :
    (sep : ℕ) (p : Str) (ps : List Str)
    → All (IsFree sep) (p ∷ ps)
    → split sep (join (sep ∷ []) (p ∷ ps)) ≡ p ∷ ps
unfolding split join
split-join sep p [] (h, _) = rw (split_parts_of_IsFree sep p h)
split-join sep p (q ∷ ps) (h, k) =
    rw (split-append sep p (join (sep ∷ []) (q ∷ ps)) h) (ap (λ l. p ∷ l) (split-join sep q ps k))

join-cons-parts :
    (sep c : ℕ) (p : Str) (ps : List Str)
    → join (sep ∷ []) ((c ∷ p) ∷ ps) ≡ c ∷ join (sep ∷ []) (p ∷ ps)
unfolding join
join-cons-parts sep c p [] = refl
join-cons-parts sep c p (q ∷ ps) = refl

-- Splitting and joining with the same separator gives the text back.
pub join-split : (sep : ℕ) (s : Str) → join (sep ∷ []) (split sep s) ≡ s
unfolding split split_parts join
join-split sep [] = refl
join-split sep (c ∷ s) = elim (Bool-cases (eqb c sep)) [
  | inl e ↦ let same : c ≡ sep = ground arith in rw e (cc (same, join-split sep s))
  | inr e ↦ rw e (
      join-cons-parts sep c (split_parts sep s).0 (split_parts sep s).1
      ∙ ap (λ t. c ∷ t) (join-split sep s))
]
