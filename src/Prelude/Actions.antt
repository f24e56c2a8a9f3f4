-- ===== src/Prelude/Actions.antt =====
-- Calls that read and write a state and may fail, for `do` blocks: `if err != nil { return err }`
-- after each step.
use hermes_waf.Prelude.Results.{Result, ok, err}

abbrev pub Action : Type 0 → Type 0 → Type 0 → Type 0
Action S E A = S → Result E A × S

abbrev pub and_then : {S E A B : Type 0} → Result E A × S → (A → Action S E B) → Result E B × S
and_then (ok a, s) f = f a s
and_then (err e, s) f = (err e, s)

infixl 5 ◌>>=◌ ◌>>◌
abbrev pub ◌>>=◌ : {S E A B : Type 0} → Action S E A → (A → Action S E B) → Action S E B
◌>>=◌ m f s = and_then (m s) f

abbrev pub ◌>>◌ : {S E A B : Type 0} → Action S E A → Action S E B → Action S E B
◌>>◌ m k s = and_then (m s) (λ _. k)
