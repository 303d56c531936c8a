-- ===== src/Result/Tests.antt =====
-- The theorems on results, at a repository that failed.
use litestar_cqrs_example.Common.{
  ℕ, ◌%◌, ◌≡◌, ◌⊎◌, true, List, [], ◌∷◌, any, refl, Option, none, some, nat_beq, if◌then◌else◌,
  nat_eq, string_eq, strip, after_colon_or,
}
use litestar_cqrs_example.Errors.{PyClass, key_error, new_error, Exc, sqlalchemy}
use litestar_cqrs_example.Effects.{Eff, throw}
use litestar_cqrs_example.Result.{normalize_exc, app_exception}
use litestar_cqrs_example.Result.Arguments.{
  Argument, other_argument, Outcome, raised, raised_python, base_exception, is_other, not_joined,
  as_result_outcome, Answers, as_result_outcome_total,
}

abbrev failure : Exc
failure = sqlalchemy "(asyncpg) : no such row "

abbrev fails : Eff ℕ (Option ℕ)
fails = throw failure

-- `KeyError(5)`
abbrev missing_key : Outcome (Option ℕ)
missing_key = raised (raised_python key_error (other_argument ∷ []))

as_result_outcome_total_example :
    Answers missing_key
    ⊎ (((missing_key ≡ raised base_exception)
          × (as_result_outcome missing_key ≡ raised base_exception))
        ⊎ ((cls : PyClass) × (args : List Argument) × (missing_key
              ≡ raised (raised_python cls args))
            × (any is_other args ≡ true)
            × (as_result_outcome missing_key ≡ raised not_joined)))
as_result_outcome_total_example = as_result_outcome_total missing_key

abbrev only_even : ℕ → Option ℕ
only_even n = if nat_beq (n % 2) 0 then some n else none

-- The message of a database error loses what stands before its first colon, and its white space.
shown : (normalize_exc failure).message ≡ "no such row"
unfolding normalize_exc new_error after_colon_or strip
shown = refl
