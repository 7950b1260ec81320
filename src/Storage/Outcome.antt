-- ===== src/Storage/Outcome.antt =====
-- `StorageResult<T>` of commons/oprc-dp-storage/src/error.rs. `panicked` is a call that unwinds:
-- the standard library's range panics are the only ones that the modelled code can meet.
use Prim.Native.String.{String}

pub data StorageError : Type 0 where
  io serialization transaction backend configuration : String → StorageError
  not_found already_exists : StorageError
  invalid_operation : String → StorageError

pub data Outcome {ℓ} (A : Type ℓ) : Type ℓ where
  ok : A → Outcome A
  err : StorageError → Outcome A
  panicked : Outcome A

infixl 5 ◌>>=◌
abbrev pub ◌>>=◌ {ℓ κ} : {A : Type ℓ} {B : Type κ} → Outcome A → (A → Outcome B) → Outcome B
ok a >>= f = f a
err e >>= f = err e
panicked >>= f = panicked
