-- ===== src/Prelude/Dict.antt =====
-- Go's `map[string]V` as an association list: `m[k]`, `m[k] = v`, `delete(m, k)`, and a
-- `for k, v := range m` loop that deletes the entries which fail a test.
use mathlib.Core.Path.{◌≡◌, refl}
use mathlib.Core.Bool.{Bool, true, false, ◌&&◌, ◌||◌}
use mathlib.Core.Option.{Option, none, some}
use mathlib.Core.List.{List, [], ◌∷◌}
use native.Mathlib.Omega.{arith}
use hermes_waf.Prelude.Tests.{Str, ◌==◌, eq_iff, if◌then◌else◌}

abbrev pub Dict {ℓ} : Type ℓ → Type ℓ
Dict V = List (Str × V)

unfoldable pub contains : Str → List Str → Bool
contains j [] = false
contains j (k ∷ ks) = k == j || contains j ks

module _ {ℓ} {V : Type ℓ} where
  unfoldable pub lookup : Str → Dict V → Option V
  lookup k [] = none
  lookup k ((j, v) ∷ m) = if j == k then some v else lookup k m

  unfoldable pub insert : Str → V → Dict V → Dict V
  insert k v [] = (k, v) ∷ []
  insert k v ((j, w) ∷ m) = if j == k then (k, v) ∷ m else (j, w) ∷ insert k v m

  unfoldable pub delete : Str → Dict V → Dict V
  delete k [] = []
  delete k ((j, v) ∷ m) = let rest = delete k m in if j == k then rest else (j, v) ∷ rest

  -- The second result of `_, ok := m[k]`.
  abbrev pub is_some : Option V → Bool
  is_some none = false
  is_some (some v) = true

  abbrev pub holds : (V → Bool) → Option V → Bool
  holds p none = false
  holds p (some v) = p v

  abbrev pub keys : Dict V → List Str
  keys [] = []
  keys ((k, v) ∷ m) = k ∷ keys m

  abbrev pub values : Dict V → List V
  values [] = []
  values ((k, v) ∷ m) = v ∷ values m

  -- The loop's body for each key in turn.
  sweep_keys : (V → Bool) → Dict V → List Str → Dict V
  sweep_keys dead m [] = m
  sweep_keys dead m (k ∷ ks) =
      let rest = sweep_keys dead m ks in if holds dead (lookup k m) then delete k rest else rest

  -- `for k, v := range m { if dead(v) { delete(m, k) } }`
  unfoldable pub sweep : (V → Bool) → Dict V → Dict V
  unfolding sweep_keys
  sweep dead m = sweep_keys dead m (keys m)

  pub lookup-insert :
      (j k : Str) (v : V) (m : Dict V)
      → lookup j (insert k v m) ≡ (if k == j then some v else lookup j m)
  unfolding lookup insert
  lookup-insert j k v [] = refl
  lookup-insert j k v ((i, w) ∷ m) =
      ground (arith, eq_iff k j, eq_iff i k, eq_iff i j, lookup-insert j k v m)

  pub lookup-delete :
      (j k : Str) (m : Dict V) → lookup j (delete k m) ≡ (if k == j then none else lookup j m)
  unfolding lookup delete
  lookup-delete j k [] = ground arith
  lookup-delete j k ((i, v) ∷ m) =
      ground (arith, lookup-delete j k m, eq_iff i k, eq_iff i j, eq_iff k j)

  lookup-sweep_keys :
      (dead : V → Bool) (j : Str) (m : Dict V) (ks : List Str)
      → lookup j (sweep_keys dead m ks)
        ≡ (if contains j ks && holds dead (lookup j m) then none else lookup j m)
  unfolding sweep_keys contains
  lookup-sweep_keys dead j m [] = refl
  lookup-sweep_keys dead j m (k ∷ ks) =
      ground
        (arith, lookup-sweep_keys dead j m ks, lookup-delete j k (sweep_keys dead m ks), eq_iff k j)

  contains-keys : (j : Str) (m : Dict V) → contains j (keys m) ≡ is_some (lookup j m)
  unfolding contains lookup
  contains-keys j [] = refl
  contains-keys j ((k, v) ∷ m) = ground (arith, contains-keys j m)

  pub lookup-sweep :
      (dead : V → Bool) (j : Str) (m : Dict V)
      → lookup j (sweep dead m) ≡ (if holds dead (lookup j m) then none else lookup j m)
  unfolding sweep
  lookup-sweep dead j m = ground (arith, lookup-sweep_keys dead j m (keys m), contains-keys j m)

pub ruleset dict_laws = (lookup-insert, lookup-delete, lookup-sweep)
