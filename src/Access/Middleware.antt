-- ===== src/Access/Middleware.antt =====
-- src/backend/http/v1/controllers/private/middlewares/auth.py (`JWTAuthMiddleware`) and
-- src/backend/infra/security/auth.py (`AuthenticatorImpl`): who a request is from, and whether it may
-- reach its handler.
use litestar_cqrs_example.Common.{
  ℕ, String, Bool, false, not, ◌||◌, Option, none, some, List, [], ◌∷◌, map, if◌then◌else◌, ◌==◌,
  nat_eq, string_eq, any, is_empty, str_truthy, str_lower, partition_space,
}
use litestar_cqrs_example.Errors.{
  forbidden_error, new_error, Exc, app, py, assertion_error, Try, ok, raise, require, ◌>>=◌, ◌>>◌,
}
use litestar_cqrs_example.Effects
use litestar_cqrs_example.Effects.{Eff}
use litestar_cqrs_example.Result.{
  AppResult, as_result_sync, and_then, unwrap, unwrap_or_raise, is_err, app_exception,
}
use litestar_cqrs_example.Services.{TokenClaims, Crypto}
use litestar_cqrs_example.Jwt.{JwtImpl, verify, unauthorized}
use litestar_cqrs_example.Jwt.Refresh.{with_typ}
use litestar_cqrs_example.Access.{
  PermissionSpec, Permission, AuthUser, Context, spec_key, update_user,
}
use litestar_cqrs_example.Access.Fields.{not_allowed}
use litestar_cqrs_example.Access.Scopes.{RouteRule}
pub mod Laws
pub mod Admission

-- The columns of `entity.User` and `entity.Role` that are read here.
pub record RoleRow : Type 0 where
  pub name : String
  pub is_superuser : Bool

pub record UserRow : Type 0 where
  pub id : String
  pub email : Option String
  pub password : Option String
  pub roles : List RoleRow

-- What the database answers: `GetOne[entity.User]` by an email and an identifier, and the view of
-- permissions that `GetUserPermission` selects from, by a user and a key.
pub record Directory : Type 0 where
  pub get_one : (email id : Option String) → Try (Option UserRow)
  pub permission : (user_id permission_key : String) → Try (Option Permission)

-- A request: its headers, the rule of its route, and what the middleware sets on it.
pub record Request : Type 0 where
  pub headers : String → Option String
  pub rule : Option RouteRule
  pub auth : Option TokenClaims
  pub user : Option AuthUser
  pub ctx : Context

abbrev pub auth_user : UserRow → AuthUser
auth_user row = record {
  id = row.id;
  is_superuser = any (λ role. role.is_superuser) row.roles;
  email = row.email;
  password = row.password;
  roles = map (λ role. role.name) row.roles;
}

abbrev truthy : Option String → Bool
truthy none = false
truthy (some s) = str_truthy s

abbrev pub found : Option UserRow → Option AuthUser
found none = none
found (some row) = some (auth_user row)

module _ (db : Directory) where
  authenticate_body : (email user_id : Option String) → Try (Option AuthUser)
  authenticate_body email user_id = do
    require (truthy email || truthy user_id)
        (py assertion_error ("Either `email` or `user_id` must be provided" ∷ []))
    user ← db.get_one email user_id
    ok (found user)

  -- `AuthenticatorImpl.authenticate`
  unfoldable pub authenticate : (email user_id : Option String) → AppResult AuthUser
  unfolding authenticate_body
  authenticate email user_id = as_result_sync (authenticate_body email user_id)

  -- `AuthenticatorImpl.get_permission_for`
  unfoldable pub get_permission_for : AuthUser → PermissionSpec → AppResult Permission
  unfolding spec_key
  get_permission_for user permission = as_result_sync (db.permission user.id (spec_key permission))

  -- `_ensure_permissions`
  unfoldable pub ensure_permissions : Context → AuthUser → RouteRule → Try (Unit {0})
  unfolding get_permission_for
  ensure_permissions ctx user rule = do
    let p = get_permission_for user rule.permission
    require (not (is_err p)) (not_allowed ctx)
    permission ← unwrap p
    rule.check_scope ctx permission.scope
    rule.check_fields permission ctx

-- `auth_header.partition(" ")` and the test of the scheme, for a header that is not empty.
abbrev token_of : String → String × String → Try String
token_of header (scheme, token) =
    if not (str_lower scheme == "bearer")
    then raise (unauthorized "Invalid token provided")
    else ok token

unfoldable pub bearer_token : Option String → Try String
bearer_token none = raise (unauthorized "Token is missing")
bearer_token (some header) =
    if str_truthy header
    then token_of header (partition_space header)
    else raise (unauthorized "Token is missing")

-- `request.scope["auth"] = claims`, `request.scope["user"] = user` and `ctx.update_user(user)`
abbrev set_auth : TokenClaims → Eff Request (Unit {0})
set_auth claims req = (ok tt, record req { auth = some claims })

abbrev set_user : AuthUser → Eff Request (Unit {0})
set_user user req = (ok tt, record req { user = some user })

abbrev set_context : AuthUser → Eff Request (Unit {0})
set_context user req = (ok tt, record req { ctx = update_user user req.ctx })

abbrev role_required : Exc
role_required = app (new_error forbidden_error (some "Permission denied, role is required") none [])

-- The part of the middleware that decides, once the user is known.
unfoldable pub authorize : Directory → AuthUser → Option RouteRule → Context → Try (Unit {0})
authorize db user rule ctx =
    if is_empty user.roles
    then raise role_required
    else (if user.is_superuser
        then ok tt
        else elim rule [ none ↦ ok tt | some r ↦ ensure_permissions db ctx user r ])

-- `uuid` is `uuid.UUID`, which raises where a text is no identifier, with `hex` of what it gives.
module _ (db : Directory) (c : Crypto) (jwt : JwtImpl) (uuid : String → Try String) (now : ℕ) where
  unfoldable pub access_claims : String → Try TokenClaims
  unfolding verify
  access_claims encoded_token =
      unwrap_or_raise (unauthorized "Token is invalid or expired")
        (and_then (with_typ "access") (verify c jwt now encoded_token none none))

  unfoldable pub user_of : String → Try AuthUser
  user_of sub = uuid sub >>= λ user_id.
      unwrap_or_raise (unauthorized "Unauthorized") (authenticate db none (some user_id))

  unfoldable pub authenticate_token : String → Eff Request (Unit {0})
  unfolding access_claims user_of update_user
  authenticate_token encoded_token =
      Effects.◌>>=◌ (Effects.lift (access_claims encoded_token)) λ claims.
        Effects.◌>>◌ (set_auth claims) (
          Effects.◌>>=◌ (Effects.lift (user_of claims.sub)) λ user.
            Effects.◌>>◌ (set_user user)
              (Effects.◌>>◌ (set_context user) (λ req. (authorize db user req.rule req.ctx, req))))

  -- `authenticate_request`
  unfoldable pub authenticate_request : Eff Request (Unit {0})
  unfolding authenticate_token
  authenticate_request req =
      Effects.◌>>=◌ (Effects.lift (bearer_token (req.headers "Authorization"))) authenticate_token
        req

  -- `handle`, before the next application
  unfoldable pub handle : {B : Type 0} → Eff Request B → Eff Request B
  unfolding authenticate_request
  handle next_app = Effects.◌>>◌ authenticate_request next_app
