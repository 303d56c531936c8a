-- ===== src/Result.antt =====
-- src/backend/infra/shared/result.py: results as values, and the decorators that catch exceptions.
use litestar_cqrs_example.Common.{
  String, Bool, true, false, Option, none, some, List, [], ◌∷◌, after_colon, strip, join_lines,
}
use litestar_cqrs_example.Errors.{
  AppError, app_error, new_error, Exc, app, sqlalchemy, py, Try, ok, raise,
}
use litestar_cqrs_example.Effects.{Eff}
pub mod Laws
pub mod Arguments
mod Tests

pub record ResultImpl {ℓ κ} (T : Type ℓ) (E : Type κ) : Type (ℓ ⊔ κ) where
  pub value : Option T
  pub err : Option E

-- `Result[T, AppError]`
abbrev pub AppResult {ℓ} : Type ℓ → Type ℓ
AppResult T = ResultImpl T AppError

module _ {ℓ κ} {T : Type ℓ} {E : Type κ} where
  unfoldable pub is_ok : ResultImpl T E → Bool
  is_ok r = elim r.value [ none ↦ false | some _ ↦ true ]

  unfoldable pub is_err : ResultImpl T E → Bool
  is_err r = elim r.value [ none ↦ true | some _ ↦ false ]

  unfoldable pub map_err {κ'} : {O : Type κ'} → (E → O) → ResultImpl T E → ResultImpl T O
  map_err f r = elim r.err [
    | some e ↦ record { value = r.value; err = some (f e) }
    | none ↦ record { value = r.value; err = none }
  ]

  unfoldable pub map {ℓ'} : {R : Type ℓ'} → (T → R) → ResultImpl T E → ResultImpl R E
  map f r = elim r.value [
    | some v ↦ record { value = some (f v); err = r.err }
    | none ↦ record { value = none; err = r.err }
  ]

  unfoldable pub map_or {ℓ'} : {R : Type ℓ'} → R → (T → R) → ResultImpl T E → R
  map_or default f r = elim r.value [ some v ↦ f v | none ↦ default ]

  unfoldable pub and_then {ℓ'} : {R : Type ℓ'} → (T → Option R) → ResultImpl T E → ResultImpl R E
  and_then f r = elim r.value [
    | some v ↦ record { value = f v; err = r.err }
    | none ↦ record { value = none; err = r.err }
  ]

  unfoldable pub unwrap_or : T → ResultImpl T E → T
  unwrap_or default r = elim r.value [ none ↦ default | some v ↦ v ]

  unfoldable pub unwrap_or_raise : Exc → ResultImpl T E → Try T
  unwrap_or_raise e r = elim r.value [ none ↦ raise e | some v ↦ ok v ]

  unfoldable pub unwrap_or_else : (Option E → T) → ResultImpl T E → T
  unwrap_or_else f r = elim r.value [ none ↦ f r.err | some v ↦ v ]

-- What Python asks of the type of an error: that it is an exception.
pub record Exception {κ} (E : Type κ) : Type κ where
  pub as_exc : E → Exc

instance abbrev pub app_exception : Exception AppError
app_exception = record { as_exc = app }

instance abbrev pub exc_exception : Exception Exc
exc_exception = record { as_exc = λ e. e }

-- `AppError(message)`, as an exception
abbrev pub app_exc : Option String → Exc
app_exc message = app (new_error app_error message none [])

-- The arguments that Python keeps in `e.args`; of an `AppError` and of an `SQLAlchemyError` it is
-- the message.
abbrev args_of : Exc → List String
args_of (app e) = e.message ∷ []
args_of (sqlalchemy m) = m ∷ []
args_of (py _ args) = args

-- An `AppError` is raised as it is, any other exception as an `AppError` with its arguments.
unwrap_err : Exc → Exc
unwrap_err (app e) = app e
unwrap_err e = app_exc (some (join_lines (args_of e)))

unfoldable pub unwrap {ℓ κ} : {T : Type ℓ} {E : Type κ} ⦃x : Exception E⦄ → ResultImpl T E → Try T
unfolding unwrap_err
unwrap ⦃x⦄ r = elim r.value [
  | some v ↦ ok v
  | none ↦ elim r.err [
    | some e ↦ raise (unwrap_err (x.as_exc e))
    | none ↦ raise (app_exc (some "Empty result"))
  ]
]

-- `_normalize_exc`, without the note that carries the original traceback, at the exceptions of which
-- all arguments are texts; Arguments has any others.
unfoldable pub normalize_exc : Exc → AppError
normalize_exc (app e) = e
normalize_exc (sqlalchemy m) = new_error app_error (some (strip (after_colon m))) none []
normalize_exc (py _ []) = new_error app_error none none []
normalize_exc (py _ (a ∷ args)) = new_error app_error (some (join_lines (a ∷ args))) none []

-- `AppError("Empty result")`
abbrev pub empty_result : AppError
empty_result = new_error app_error (some "Empty result") none []

-- `as_result_sync`: the `try` statement of the wrapper around a function that returned or raised.
unfoldable pub as_result_sync {ℓ} : {T : Type ℓ} → Try (Option T) → AppResult T
unfolding normalize_exc
as_result_sync (ok (some v)) = record { value = some v; err = none }
as_result_sync (ok none) = record { value = none; err = some empty_result }
as_result_sync (raise e) = record { value = none; err = some (normalize_exc e) }

-- `as_result_async`
unfoldable pub as_result_async {ℓ} : {S T : Type ℓ} → Eff S (Option T) → Eff S (AppResult T)
unfolding as_result_sync
as_result_async f s = (ok (as_result_sync (f s).0), (f s).1)
