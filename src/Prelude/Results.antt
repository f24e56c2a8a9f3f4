-- ===== src/Prelude/Results.antt =====
-- What a Go function returns: a value or an error; `Outcome` has a third case, a panic.

pub data Result {ℓ κ} (E : Type ℓ) (A : Type κ) : Type (ℓ ⊔ κ) where
  ok : A → Result E A
  err : E → Result E A

pub data Outcome {ℓ κ} (E : Type ℓ) (A : Type κ) : Type (ℓ ⊔ κ) where
  returned : A → Outcome E A
  failed : E → Outcome E A
  panicked : Outcome E A
