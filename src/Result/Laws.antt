-- ===== src/Result/Laws.antt =====
-- What a handler may rely on when it chains the methods of a result and unwraps it.
use litestar_cqrs_example.Common.{
  ◌≡◌, refl, ap, ◌∙◌, ◌↔◌, ◌⊎◌, inl, inr, Option, none, some, Option-cases,
}
use litestar_cqrs_example.Errors.{AppError, ErrorClass, from_other, Exc, app, Try, ok, raise}
use litestar_cqrs_example.Effects.{Eff}
use litestar_cqrs_example.Result.{
  AppResult, map_err, and_then, unwrap, unwrap_or_raise, normalize_exc, empty_result,
  as_result_sync, as_result_async, app_exception,
}

-- A result holds a value or an error, and never both.
abbrev pub IsProper {ℓ} : {T : Type ℓ} → AppResult T → Type ℓ
IsProper {T} r =
    ((v : T) × (r ≡ record { value = some v; err = none }))
    ⊎ ((e : AppError) × (r ≡ record { value = none; err = some e }))

-- What a caught computation returned: its value, or the error that stands for what it raised.
abbrev pub Caught {ℓ} : {T : Type ℓ} → Try (Option T) → AppResult T → Type ℓ
Caught (ok (some v)) r = r ≡ record { value = some v; err = none }
Caught (ok none) r = r ≡ record { value = none; err = some empty_result }
Caught (raise e) r = r ≡ record { value = none; err = some (normalize_exc e) }

module _ {ℓ} {T : Type ℓ} where
  pub as_result_sync-IsProper : (t : Try (Option T)) → IsProper (as_result_sync t)
  unfolding as_result_sync
  as_result_sync-IsProper (ok (some v)) = inl (v, refl)
  as_result_sync-IsProper (ok none) = inr (_, refl)
  as_result_sync-IsProper (raise e) = inr (_, refl)

  pub as_result_sync-Caught : (t : Try (Option T)) → Caught t (as_result_sync t)
  unfolding as_result_sync
  as_result_sync-Caught (ok (some v)) = refl
  as_result_sync-Caught (ok none) = refl
  as_result_sync-Caught (raise e) = refl

  -- A decorated coroutine whose body raises no other exceptions than the model's, of which all
  -- arguments are texts, leaves the state as the body left it and returns a result.
  as_result_async_total :
      {S : Type ℓ} (f : Eff S (Option T)) (s : S)
      → (r : AppResult T) × (as_result_async f s ≡ (ok r, (f s).1)) × Caught (f s).0 r × IsProper r
  unfolding as_result_async
  as_result_async_total f s =
      (as_result_sync (f s).0, refl, as_result_sync-Caught (f s).0, as_result_sync-IsProper (f s).0)

value_of {ℓ} : {A : Type ℓ} {a b : A} → ok a ≡ ok b → a ≡ b
value_of p = cc p

-- The error that a use case shows for an exception of its repository.
abbrev pub Shown {ℓ} : {T : Type ℓ} → ErrorClass → Try (Option T) → Try T → Type ℓ
Shown cls (ok (some v)) t = t ≡ ok v
Shown cls (ok none) t = t ≡ raise (app (from_other cls empty_result))
Shown cls (raise e) t = t ≡ raise (app (from_other cls (normalize_exc e)))

module _ {ℓ} {T : Type ℓ} where
  -- The chain `result.map_err(cls.from_other).unwrap()` of the use cases gives back the value that
  -- the decorated body returned, and raises an error of class `cls` in every other case.
  pub unwrap-map_err :
      (cls : ErrorClass) (t : Try (Option T))
      → Shown cls t (unwrap (map_err (from_other cls) (as_result_sync t)))
  unfolding as_result_sync unwrap map_err
  unwrap-map_err cls (ok (some v)) = refl
  unwrap-map_err cls (ok none) = refl
  unwrap-map_err cls (raise e) = refl

  -- `result.and_then(f).unwrap_or_raise(e)` returns exactly what `f` accepts of the value, and
  -- raises `e` where the computation failed or `f` rejects.
  pub unwrap_or_raise-and_then {κ} :
      {R : Type κ} (t : Try (Option T)) (f : T → Option R) (e : Exc) (v : R)
      → (unwrap_or_raise e (and_then f (as_result_sync t)) ≡ ok v)
        ↔ ((x : T) × (t ≡ ok (some x)) × (f x ≡ some v))
  unfolding as_result_sync and_then unwrap_or_raise
  unwrap_or_raise-and_then (ok (some x)) f e v = elim (Option-cases (f x)) [
    | inl rejected ↦ (λ h. cc (rw (rejected, unwrap_or_raise) at h), λ (y, p, q). cc)
    | inr (w, accepted) ↦ (
      λ h. (x, refl, accepted ∙ ap some (value_of (rw (accepted, unwrap_or_raise) at h))),
      λ (y, p, q). rw (accepted, unwrap_or_raise) (cc),
    )
  ]
  unwrap_or_raise-and_then (ok none) f e v = (λ h. cc, λ (x, p, _). cc)
  unwrap_or_raise-and_then (raise _) f e v = (λ h. cc, λ (x, p, _). cc)
