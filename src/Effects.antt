-- ===== src/Effects.antt =====
-- Coroutines as computations on a state that may raise (`async def`, `await`). What was written
-- before a raise stays written, so the state comes back beside the error too.
use litestar_cqrs_example.Errors.{Exc, Try, ok, raise}

abbrev pub Eff {ℓ} : Type ℓ → Type ℓ → Type ℓ
Eff S A = S → Try A × S

module _ {ℓ} {S A : Type ℓ} where
  abbrev pub pure : A → Eff S A
  pure a s = (ok a, s)

  abbrev pub throw : Exc → Eff S A
  throw e s = (raise e, s)

  abbrev pub lift : Try A → Eff S A
  lift t s = (t, s)

module _ {ℓ} {S A B : Type ℓ} where
  abbrev pub continue : Try A → (A → Eff S B) → Eff S B
  continue (ok a) f s = f a s
  continue (raise e) f s = (raise e, s)

  infixl 5 ◌>>=◌ ◌>>◌
  abbrev pub ◌>>=◌ : Eff S A → (A → Eff S B) → Eff S B
  ◌>>=◌ m f s = continue (m s).0 f (m s).1

  abbrev pub ◌>>◌ : Eff S A → Eff S B → Eff S B
  m >> n = m >>= λ _. n
