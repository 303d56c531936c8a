-- ===== src/Result/Arguments.antt =====
-- src/backend/infra/shared/result.py: the decorators at any exception of Python, whose arguments need
-- not be texts, and the `Exc` of the model among them.
use litestar_cqrs_example.Common.{
  String, ◌≡◌, refl, ap, ◌∙◌, ◌⊎◌, Bool, true, false, any, inl, inr, Option, none, some, List, [],
  ◌∷◌, map, after_colon, strip, join_lines,
}
use litestar_cqrs_example.Errors.{
  AppError, app_error, new_error, PyClass, type_error, Exc, app, sqlalchemy, py, Try, ok, raise,
}
use litestar_cqrs_example.Result.{AppResult, empty_result, normalize_exc, as_result_sync}
use litestar_cqrs_example.Result.Laws.{
  Caught, IsProper, as_result_sync-Caught, as_result_sync-IsProper,
}

pub data Argument : Type 0 where
  text_argument : String → Argument
  other_argument : Argument

-- What a body raises: an exception, or a `BaseException` that is none, such as a cancellation.
pub data Raised : Type 0 where
  raised_app : AppError → Raised
  raised_sqlalchemy : String → Raised
  raised_python : PyClass → List Argument → Raised
  base_exception : Raised

pub data Outcome {ℓ} (A : Type ℓ) : Type ℓ where
  returned : A → Outcome A
  raised : Raised → Outcome A

-- `"\n".join(args)`, where all of them are texts
abbrev pub texts_of : List Argument → Option (List String)
texts_of [] = some []
texts_of (other_argument ∷ _) = none
texts_of (text_argument a ∷ args) = elim (texts_of args) [ none ↦ none | some ws ↦ some (a ∷ ws) ]

abbrev pub not_joined : Raised
not_joined = raised_python type_error (text_argument "sequence item: expected str instance" ∷ [])

abbrev pub joined : Option (List String) → Outcome AppError
joined (some ws) = returned (new_error app_error (some (join_lines ws)) none [])
joined none = raised not_joined

-- `_normalize_exc`
unfoldable pub normalize_raised : Raised → Outcome AppError
normalize_raised (raised_app e) = returned e
normalize_raised (raised_sqlalchemy m) =
    returned (new_error app_error (some (strip (after_colon m))) none [])
normalize_raised (raised_python _ []) = returned (new_error app_error none none [])
normalize_raised (raised_python _ (a ∷ args)) = joined (texts_of (a ∷ args))
normalize_raised base_exception = raised base_exception

-- The exceptions of the model are those of which all arguments are texts.
abbrev pub of_exc : Exc → Raised
of_exc (app e) = raised_app e
of_exc (sqlalchemy m) = raised_sqlalchemy m
of_exc (py cls args) = raised_python cls (map text_argument args)

abbrev pub of_try {ℓ} : {A : Type ℓ} → Try A → Outcome A
of_try (ok a) = returned a
of_try (raise e) = raised (of_exc e)

abbrev pub is_other : Argument → Bool
is_other (text_argument _) = false
is_other other_argument = true

texts_of-texts : (ws : List String) → texts_of (map text_argument ws) ≡ some ws
texts_of-texts [] = refl
texts_of-texts (w ∷ ws) =
    ap (λ o. elim o [ none ↦ none | some vs ↦ some (w ∷ vs) ]) (texts_of-texts ws)

-- All arguments are texts, or one is not and they are not joined.
texts_of-cases :
    (args : List Argument)
    → ((ws : List String) × (args ≡ map text_argument ws))
      ⊎ ((any is_other args ≡ true) × (texts_of args ≡ none))
texts_of-cases [] = inl ([], refl)
texts_of-cases (other_argument ∷ args) = inr (refl, refl)
texts_of-cases (text_argument a ∷ args) = elim (texts_of-cases args) [
  | inl (ws, e) ↦ inl (a ∷ ws, ap (λ args. text_argument a ∷ args) e)
  | inr (other, e) ↦ inr (other, ap (λ o. elim o [ none ↦ none | some vs ↦ some (a ∷ vs) ]) e)
]

module _ {ℓ} {T : Type ℓ} where
  abbrev failed_with : Outcome AppError → Outcome (AppResult T)
  failed_with (returned e) = returned (record { value = none; err = some e })
  failed_with (raised e) = raised e

  -- The wrapper of either decorator around what its function did
  unfoldable pub as_result_outcome : Outcome (Option T) → Outcome (AppResult T)
  unfolding normalize_raised
  as_result_outcome (returned (some v)) = returned (record { value = some v; err = none })
  as_result_outcome (returned none) = returned (record { value = none; err = some empty_result })
  as_result_outcome (raised base_exception) = raised base_exception
  as_result_outcome (raised e) = failed_with (normalize_raised e)

  as_result_outcome-of_try :
      (t : Try (Option T)) → as_result_outcome (of_try t) ≡ returned (as_result_sync t)
  unfolding as_result_outcome as_result_sync normalize_exc
  as_result_outcome-of_try (ok (some v)) = refl
  as_result_outcome-of_try (ok none) = refl
  as_result_outcome-of_try (raise (app e)) = refl
  as_result_outcome-of_try (raise (sqlalchemy m)) = refl
  as_result_outcome-of_try (raise (py cls [])) = refl
  as_result_outcome-of_try (raise (py cls (w ∷ ws))) =
      ap (λ o. failed_with (joined o)) (texts_of-texts (w ∷ ws))

  -- The result that a caught computation has.
  abbrev pub Answers : Outcome (Option T) → Type ℓ
  Answers o =
      (t : Try (Option T)) × (o ≡ of_try t)
      × (as_result_outcome o ≡ returned (as_result_sync t))
      × Caught t (as_result_sync t)
      × IsProper (as_result_sync t)

  answers : (o : Outcome (Option T)) (t : Try (Option T)) → o ≡ of_try t → Answers o
  answers o t e = (
    t,
    e,
    ap as_result_outcome e ∙ as_result_outcome-of_try t,
    as_result_sync-Caught t,
    as_result_sync-IsProper t,
  )

  -- A decorated function that ends with an exception of which all arguments are texts, or with a
  -- value, returns a result: it holds the value, "Empty result" for `None`, or the `AppError` that
  -- stands for the exception, and never a value and an error both. Otherwise it raises: what is no
  -- `Exception` passes through, and an exception with an argument that is no text becomes a
  -- `TypeError`.
  pub as_result_outcome_total :
      (o : Outcome (Option T))
      → Answers o
        ⊎ (((o ≡ raised base_exception) × (as_result_outcome o ≡ raised base_exception))
            ⊎ ((cls : PyClass) × (args : List Argument) × (o ≡ raised (raised_python cls args))
                × (any is_other args ≡ true)
                × (as_result_outcome o ≡ raised not_joined)))
  unfolding as_result_outcome
  as_result_outcome_total (returned v) = inl (answers (returned v) (ok v) refl)
  as_result_outcome_total (raised (raised_app e)) = inl (answers _ (raise (app e)) refl)
  as_result_outcome_total (raised (raised_sqlalchemy m)) =
      inl (answers _ (raise (sqlalchemy m)) refl)
  as_result_outcome_total (raised base_exception) = inr (inl (refl, refl))
  as_result_outcome_total (raised (raised_python cls [])) = inl (answers _ (raise (py cls [])) refl)
  as_result_outcome_total (raised (raised_python cls (a ∷ args))) =
      elim (texts_of-cases (a ∷ args)) [
        | inl (ws, e) ↦
            inl (answers _ (raise (py cls ws)) (ap (λ args. raised (raised_python cls args)) e))
        | inr (other, e) ↦
            inr (inr (cls, a ∷ args, refl, other, ap (λ o. failed_with (joined o)) e))
      ]
