-- ===== src/Prelude/Results.antt =====
-- Code that raises: a result or the error, and the sequence of two such steps.
use mathlib.Core.Bool.{Bool, true, false}

pub data Result {ℓ} (E A : Type ℓ) : Type ℓ where
  ok : A → Result E A
  err : E → Result E A

infixl 5 ◌>>=◌ ◌>>◌
abbrev pub ◌>>=◌ {ℓ} : {E A B : Type ℓ} → Result E A → (A → Result E B) → Result E B
ok a >>= f = f a
err e >>= f = err e

abbrev pub ◌>>◌ {ℓ} : {E A B : Type ℓ} → Result E A → Result E B → Result E B
m >> k = m >>= λ _. k

-- A guard: `e` is raised where the test is false.
abbrev pub ok_or_raise {ℓ} : {E A : Type ℓ} → E → Bool → A → Result E A
ok_or_raise e true a = ok a
ok_or_raise e false a = err e
