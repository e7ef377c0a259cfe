-- ===== src/Monad.antt =====
-- Calls that change a state and may return a Go `error`; what was changed before an error stays.
use shiro_distributed_system.Common.{Option, none, some, Result, ok, err}
use shiro_distributed_system.Contracts.{Error}

abbrev pub M : Type 0 → Type 0 → Type 0
M S A = S → Result Error A × S

module _ {S A : Type 0} where
  abbrev pub return : A → M S A
  return a s = (ok a, s)

  abbrev pub fail : Error → M S A
  fail e s = (err e, s)

  -- The value of an option, or an error.
  abbrev pub or_fail : Error → Option A → M S A
  or_fail e none s = (err e, s)
  or_fail e (some a) s = (ok a, s)

module _ {S A B : Type 0} where
  abbrev pub continue : Result Error A → (A → M S B) → M S B
  continue (ok a) f s = f a s
  continue (err e) f s = (err e, s)

  infixl 5 ◌>>=◌ ◌>>◌
  abbrev pub ◌>>=◌ : M S A → (A → M S B) → M S B
  ◌>>=◌ m f s = let r = m s in continue r.0 f r.1

  abbrev pub ◌>>◌ : M S A → M S B → M S B
  m >> n = m >>= λ _. n
