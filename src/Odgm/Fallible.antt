-- ===== src/Odgm/Fallible.antt =====
-- `Result<T, E>` in the data plane, with the panic of a callee beside it, and methods that change
-- a state and may fail: what was written before a failure stays written.
pub data Fallible {ℓ κ} (E : Type ℓ) (A : Type κ) : Type (ℓ ⊔ κ) where
  done : A → Fallible E A
  failed : E → Fallible E A
  unwound : Fallible E A

abbrev pub Exec : Type 0 → Type 0 → Type 0 → Type 0
Exec S E A = S → S × Fallible E A

module _ {S E A : Type 0} where
  abbrev pub pure : A → Exec S E A
  pure a s = (s, done a)

  abbrev pub raise : E → Exec S E A
  raise e s = (s, failed e)

module _ {S E A B : Type 0} where
  abbrev pub continue : Fallible E A → (A → Exec S E B) → Exec S E B
  continue (done a) f s = f a s
  continue (failed e) f s = (s, failed e)
  continue unwound f s = (s, unwound)

  infixl 5 ◌>>=◌ ◌>>◌
  abbrev pub ◌>>=◌ : Exec S E A → (A → Exec S E B) → Exec S E B
  ◌>>=◌ m f s = continue (m s).1 f (m s).0

  abbrev pub ◌>>◌ : Exec S E A → Exec S E B → Exec S E B
  m >> k = m >>= λ _. k

-- A step that follows a result and changes no state.
abbrev pub and_then : {E A B : Type 0} → Fallible E A → (A → Fallible E B) → Fallible E B
and_then (done a) f = f a
and_then (failed e) f = failed e
and_then unwound f = unwound
