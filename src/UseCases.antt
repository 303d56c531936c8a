-- ===== src/UseCases.antt =====
-- src/backend/app/use_cases/commands/auth: the handlers of login, logout and refresh, with the hasher
-- of src/backend/infra/security/hasher.py.
use litestar_cqrs_example.Common.{
  String, Bool, true, false, Option, none, some, if◌then◌else◌, str_truthy,
}
use litestar_cqrs_example.Errors
use litestar_cqrs_example.Errors.{service_not_implemented_error, from_other, Exc, Try, ok, raise}
use litestar_cqrs_example.Effects.{pure, lift, ◌>>=◌, ◌>>◌}
use litestar_cqrs_example.Result.{
  ResultImpl, AppResult, as_result_sync, map_err, unwrap, unwrap_or, unwrap_or_raise, app_exception,
}
use litestar_cqrs_example.Services.{RedisServer, Crypto}
use litestar_cqrs_example.Cache.{Io}
use litestar_cqrs_example.Jwt.{JwtImpl, TokenPair, unauthorized}
use litestar_cqrs_example.Jwt.Refresh.{make_token, rotate, revoke}
use litestar_cqrs_example.Access.{AuthUser}
use litestar_cqrs_example.Access.Middleware.{Directory, authenticate}
pub mod Login
pub mod Sessions
mod Tests

-- What `PasswordHasher.verify` of argon2 does: it answers, it raises `VerificationError` or its
-- subclass `VerifyMismatchError`, or it raises something else.
pub data Verified : Type 0 where
  answered : Bool → Verified
  verification_error : Verified
  broken : Exc → Verified

pub record PasswordHasher : Type 0 where
  pub hash : (plain : String) → Try String
  pub verify : (hashed plain : String) → Verified

abbrev caught : Verified → Try (Option Bool)
caught (answered good) = ok (some good)
caught verification_error = ok (some false)
caught (broken e) = raise e

-- `Argon2.verify_password`
unfoldable pub verify_password : PasswordHasher → (hashed plain : String) → AppResult Bool
unfolding as_result_sync
verify_password hasher hashed plain = as_result_sync (caught (hasher.verify hashed plain))

abbrev hashed_some : Try String → Try (Option String)
hashed_some (ok s) = ok (some s)
hashed_some (raise e) = raise e

-- `Argon2.hash_password`
unfoldable pub hash_password : PasswordHasher → (plain : String) → AppResult String
unfolding as_result_sync
hash_password hasher plain = as_result_sync (hashed_some (hasher.hash plain))

abbrev pub kept_if : {A : Type 0} → A → Try Bool → Try (Option A)
kept_if a (ok true) = ok (some a)
kept_if a (ok false) = ok none
kept_if a (raise e) = raise e

-- The `lambda` of the login: the user, if there is a password and it is the one.
abbrev pub accepted_with :
    PasswordHasher
    → (plain : String) → AuthUser
    → (password : Option String) → Try (Option AuthUser)
accepted_with hasher plain u none = ok none
accepted_with hasher plain u (some hashed) =
    if str_truthy hashed then kept_if u (unwrap (verify_password hasher hashed plain)) else ok none

unfoldable pub accepted : PasswordHasher → (plain : String) → AuthUser → Try (Option AuthUser)
unfolding verify_password unwrap
accepted hasher plain u = accepted_with hasher plain u u.password

abbrev pub with_value : {T R E : Type 0} → ResultImpl T E → Try (Option R) → Try (ResultImpl R E)
with_value r (ok value) = ok (record { value = value; err = r.err })
with_value r (raise e) = raise e

-- `and_then` with a function that may raise
unfoldable pub and_then_try :
    {T R E : Type 0} → (T → Try (Option R)) → ResultImpl T E → Try (ResultImpl R E)
and_then_try f r = elim r.value [
  | some v ↦ with_value r (f v)
  | none ↦ ok (record { value = none; err = r.err })
]

-- The user that the login's chain of `and_then` and `unwrap_or_raise` gives.
unfoldable pub identify : Directory → PasswordHasher → (email password : String) → Try AuthUser
unfolding authenticate accepted and_then_try unwrap_or_raise
identify db hasher email password =
    Errors.◌>>=◌ (and_then_try (accepted hasher password) (authenticate db (some email) none))
      (unwrap_or_raise (unauthorized "Invalid credentials"))

module _ (r : RedisServer) (c : Crypto) (jwt : JwtImpl) where
  -- `LoginUserCommandHandler`; `session` is what leaving the manager's block raises.
  unfoldable pub login :
      Directory
      → PasswordHasher
      → (session : Try (Unit {0})) → (email password fingerprint : String) → Io r TokenPair
  unfolding identify map_err from_other unwrap
  login db hasher session email password fingerprint = do
    lift session
    user ← lift (identify db hasher email password)
    made ← make_token r c jwt user.id fingerprint
    lift (unwrap (map_err (from_other service_not_implemented_error) made))

  -- `LogoutUserCommandHandler`
  unfoldable pub logout : (fingerprint token : String) → Io r Bool
  unfolding unwrap_or
  logout fingerprint token = do
    result ← revoke r c jwt fingerprint token
    pure (unwrap_or false result)

  -- `RefreshUserCommandHandler`
  unfoldable pub refresh : (fingerprint token : String) → Io r TokenPair
  unfolding unwrap_or_raise
  refresh fingerprint token = do
    result ← rotate r c jwt fingerprint token
    lift (unwrap_or_raise (unauthorized "Token is invalid or expired") result)
