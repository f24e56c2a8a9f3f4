-- ===== src/Text.antt =====
-- Go's package strings, as far as the program uses it, over byte strings.
pub mod SplitJoin
pub mod Prefixes
use mathlib.Core.List.{reverse}
use hermes_waf.Prelude.{
  ◌≡◌, refl, ℕ, zero, suc, ◌+◌, ◌-◌, Str, bytes, Bool, true, false, ◌&&◌, ◌||◌, Option, none, some,
  List, [], ◌∷◌, ◌++◌, ltb, leb, eqb, ◌==◌, if◌then◌else◌, length, drop,
}

-- What is asked of Unicode for a text that is not ASCII: `strings.ToLower` and
-- `strings.TrimSpace` on it.
pub record Unicode : Type 0 where
  pub lower : Str → Str
  pub trim : Str → Str

-- A byte below `utf8.RuneSelf`.
abbrev is_ascii_byte : ℕ → Bool
is_ascii_byte c = ltb c 128

unfoldable pub is_ascii : Str → Bool
is_ascii [] = true
is_ascii (c ∷ s) = is_ascii_byte c && is_ascii s

abbrev pub lower_byte : ℕ → ℕ
lower_byte c = if leb b'A' c && leb c b'Z' then c + 32 else c

unfoldable pub lower_bytes : Str → Str
lower_bytes [] = []
lower_bytes (c ∷ s) = lower_byte c ∷ lower_bytes s

-- `strings.ToLower`
unfoldable pub to_lower : Unicode → Str → Str
unfolding is_ascii lower_bytes
to_lower u s = if is_ascii s then lower_bytes s else u.lower s

-- Tab, newline, vertical tab, form feed, carriage return and space.
abbrev is_space : ℕ → Bool
is_space c = (leb 9 c && leb c 13) || eqb c 32

unfoldable pub trim_left : Str → Str
trim_left [] = []
trim_left (c ∷ s) = if is_space c then trim_left s else c ∷ s

-- `strings.TrimSpace`
unfoldable pub trim_space : Unicode → Str → Str
unfolding is_ascii trim_left
trim_space u s = if is_ascii s then reverse (trim_left (reverse (trim_left s))) else u.trim s

unfoldable pub starts_with : Str → Str → Bool
starts_with s [] = true
starts_with [] (p ∷ ps) = false
starts_with (c ∷ s) (p ∷ ps) = eqb c p && starts_with s ps

-- `strings.TrimPrefix`
unfoldable pub trim_prefix : Str → Str → Str
unfolding starts_with
trim_prefix s p = if starts_with s p then drop (length p) s else s

-- `strings.HasSuffix`
unfoldable pub ends_with : Str → Str → Bool
unfolding starts_with
ends_with s p = starts_with (reverse s) (reverse p)

-- `strings.TrimSuffix`
unfoldable pub trim_suffix : Str → Str → Str
unfolding ends_with
trim_suffix s p = if ends_with s p then reverse (drop (length p) (reverse s)) else s

-- `strings.Contains`
unfoldable pub has_infix : Str → Str → Bool
unfolding starts_with
has_infix [] p = starts_with [] p
has_infix (c ∷ s) p = starts_with (c ∷ s) p || has_infix s p

-- `strings.Index` for a separator of one byte, with the part before and from it.
unfoldable pub cut_at : ℕ → Str → Option (Str × Str)
cut_at sep [] = none
cut_at sep (c ∷ s) = elim (eqb c sep) [
  | true ↦ some ([], c ∷ s)
  | false ↦ elim (cut_at sep s) [ none ↦ none | some (a, b) ↦ some (c ∷ a, b) ]
]

-- `s[:i]` for `i = strings.LastIndex(s, sep)`, and `s` where there is none.
unfoldable pub before_last : ℕ → Str → Str
unfolding cut_at
before_last sep s = elim (cut_at sep (reverse s)) [
  | none ↦ s
  | some (_, rest) ↦ reverse (drop 1 rest)
]

-- `strings.Split` for a separator of one byte: the first part, and the others.
unfoldable pub split_parts : ℕ → Str → Str × List Str
split_parts sep [] = ([], [])
split_parts sep (c ∷ s) =
    let (part, more) = split_parts sep s in
    if eqb c sep then ([], part ∷ more) else (c ∷ part, more)

unfoldable pub split : ℕ → Str → List Str
unfolding split_parts
split sep s = let (part, more) = split_parts sep s in part ∷ more

-- `strings.Join`
unfoldable pub join : Str → List Str → Str
join sep [] = []
join sep (p ∷ []) = p
join sep (p ∷ q ∷ ps) = p ++ (sep ++ join sep (q ∷ ps))
