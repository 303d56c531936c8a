-- ===== src/Api/Public.antt =====
-- src/backend/http/v1/controllers/public: the endpoints of `AuthController` (auth.py) and of the
-- public `UserController` (user.py), with the checks of
-- src/backend/app/contracts/types/user.py, and the answers to exceptions of
-- src/backend/http/common/exceptions.py.
use litestar_cqrs_example.Common.{
  ℕ, String, Bool, true, false, Option, none, some, List, [], ◌∷◌, leb, ◌&&◌, if◌then◌else◌,
  str_truthy, nat_eq, string_eq,
}
use Prim.Native.String.{count}
use litestar_cqrs_example.Errors
use litestar_cqrs_example.Errors.{
  ErrorClass, app_error, detailed_error, un_authorized_error, not_found_error, conflict_error,
  service_not_implemented_error, service_unavailable_error, bad_request_error, forbidden_error,
  too_many_requests_error, request_timeout_error, unprocessable_entity_error, AppError, as_dict,
  new_error, Exc, app, Try, ok, raise, require,
}
use litestar_cqrs_example.Effects.{pure, lift, ◌>>=◌, ◌>>◌}
use litestar_cqrs_example.Services.{RedisServer, Crypto}
use litestar_cqrs_example.Cache.{Io}
use litestar_cqrs_example.Jwt.{JwtImpl, TokenPair, jwt_token}
use litestar_cqrs_example.Access.Middleware.{Directory}
use litestar_cqrs_example.UseCases.{PasswordHasher, login, logout, refresh}
use litestar_cqrs_example.Transaction.{Connection, Tx}
use litestar_cqrs_example.Gateway.{Cell, Database}
use litestar_cqrs_example.Gateway.Repositories.{Dtos}
use litestar_cqrs_example.Gateway.Commands.{create_user_command, UserData}

pub record Cookie : Type 0 where
  pub key : String
  pub value : Option String
  pub max_age : ℕ
  pub httponly : Bool
  pub secure : Bool
  pub samesite : String

pub record Response (A : Type 0) : Type 0 where
  pub content : A
  pub status_code : ℕ
  pub cookies : List Cookie

-- What the endpoints read of a request: its cookies and its headers.
pub record Carried : Type 0 where
  pub cookies : String → Option String
  pub headers : String → Option String

abbrev or_text : Option String → String → String
or_text none default = default
or_text (some s) default = s

-- `request.cookies.get("refresh", "") or request.headers.get("Authorization", "")`
abbrev pub presented : Carried → String
presented req =
    let cookie = or_text (req.cookies "refresh") "" in
    if str_truthy cookie then cookie else or_text (req.headers "Authorization") ""

abbrev pub refresh_cookie : TokenPair → Cookie
refresh_cookie pair = record {
  key = "refresh";
  value = some pair.refresh_token;
  max_age = pair.expires_in;
  httponly = true;
  secure = true;
  samesite = "none";
}

-- `Cookie("refresh", max_age=0, expires=0)`, with the defaults of litestar
abbrev pub expired_cookie : Cookie
expired_cookie = record {
  key = "refresh";
  value = none;
  max_age = 0;
  httponly = false;
  secure = false;
  samesite = "lax";
}

abbrev pub pair_response : TokenPair → Response String
pair_response pair = record {
  content = pair.access_token;
  status_code = 200;
  cookies = refresh_cookie pair ∷ [];
}

module _ (r : RedisServer) (c : Crypto) (jwt : JwtImpl) where
  unfoldable pub login_endpoint :
      Directory
      → PasswordHasher
      → (session : Try (Unit {0})) → (email password fingerprint : String) → Io r (Response String)
  login_endpoint directory hasher session email password fingerprint = do
    result ← login r c jwt directory hasher session email password fingerprint
    pure (pair_response result)

  unfoldable pub logout_endpoint : (fingerprint : String) → Carried → Io r (Response Bool)
  logout_endpoint fingerprint req = do
    token ← lift (jwt_token (presented req))
    result ← logout r c jwt fingerprint token
    pure (record { content = result; status_code = 200; cookies = expired_cookie ∷ [] })

  unfoldable pub refresh_endpoint : (fingerprint : String) → Carried → Io r (Response String)
  refresh_endpoint fingerprint req = do
    token ← lift (jwt_token (presented req))
    result ← refresh r c jwt fingerprint token
    pure (pair_response result)

-- `MIN_PASSWORD_LENGTH <= len(password) <= MAX_PASSWORD_LENGTH`
abbrev pub fits_length : String → Bool
fits_length password = leb 8 (count password) && leb (count password) 32

abbrev bad_request : String → Exc
bad_request message = app (new_error bad_request_error (some message) none [])

abbrev check_password : Option String → Try (Unit {0})
check_password none = ok tt
check_password (some password) =
    require (fits_length password) (bad_request "Password must be between 8 and 32 characters")

abbrev check_email : (is_email : String → Bool) → Option String → Try (Unit {0})
check_email is_email none = ok tt
check_email is_email (some email) = require (is_email email) (bad_request "Invalid email address")

-- `_validate` of `UpdateUserData`, and of `CreateUserData`, whose fields are there; `is_email` is the
-- match of `EMAIL_REGEX`.
unfoldable pub validate_user : (is_email : String → Bool) → UserData → Try (Unit {0})
validate_user is_email values =
    Errors.◌>>◌ (check_password values.password) (check_email is_email values.email)

-- The endpoint makes the data from the body, which checks it.
unfoldable pub create_user_endpoint :
    (c : Connection)
    → Database c
    → Dtos
    → PasswordHasher
    → (is_email : String → Bool) → (email password : String) → Tx c Cell
unfolding validate_user
create_user_endpoint c db dtos hasher is_email email password =
    lift (validate_user is_email (record { email = some email; password = some password }))
    >> create_user_command c db dtos hasher email password

-- `exc_handlers`, by the class of the exception or else the nearest one that it inherits from
unfoldable pub status_of_class : ErrorClass → ℕ
status_of_class un_authorized_error = 401
status_of_class not_found_error = 404
status_of_class conflict_error = 409
status_of_class service_not_implemented_error = 501
status_of_class service_unavailable_error = 503
status_of_class bad_request_error = 400
status_of_class forbidden_error = 403
status_of_class too_many_requests_error = 429
status_of_class app_error = 500
status_of_class detailed_error = 500
status_of_class request_timeout_error = 408
status_of_class unprocessable_entity_error = 422

-- `handle_error`
unfoldable pub handle_error : AppError → Response (List (String × String))
unfolding status_of_class as_dict
handle_error e = record { content = as_dict e; status_code = status_of_class e.cls; cookies = [] }
