-- ===== src/Api/Tests.antt =====
-- Requests of a user with a permission for the own data, and the theorems at them.
use litestar_cqrs_example.Common.{
  ℕ, ◌+◌, ◌+s◌, String, ◌≡◌, refl, ◌⊎◌, true, false, not, none, some, List, [], ◌∷◌, if◌then◌else◌,
  ◌==◌, nat_eq, string_eq, any, keep_if, str_lower,
}
use litestar_cqrs_example.Errors.{Exc, ok, raise}
use litestar_cqrs_example.Effects.{Eff, pure}
use litestar_cqrs_example.Services.{TokenClaims, Crypto}
use litestar_cqrs_example.Services.Sample.{sample_claims, sample_crypto}
use litestar_cqrs_example.Jwt.{JwtImpl}
use litestar_cqrs_example.Access
use litestar_cqrs_example.Access.{
  AuthUser, Context, Value, own, Permission, scalar, mapping, no_entries, entry, spec_key,
}
use litestar_cqrs_example.Access.Scopes.{item}
use litestar_cqrs_example.Access.Middleware.{Directory, UserRow, Request}
use litestar_cqrs_example.Queries
use litestar_cqrs_example.Gateway.{Row, null}
use litestar_cqrs_example.Gateway.Commands.{UserData, user_cells}
use litestar_cqrs_example.Gateway.Tables.{matches, Assigned}
use litestar_cqrs_example.Gateway.Users.{users, HashedAs}
use litestar_cqrs_example.Gateway.Sample.{
  Stored, Session, sample, laws, db, tables, dtos, hasher, start,
}
use litestar_cqrs_example.Api.{Params}
use litestar_cqrs_example.Api.Accounts.{
  by_id, validate_user_data, update_user_by_id_route, delete_user_by_id_route,
}
use litestar_cqrs_example.Api.Service.{content, no_content, status_of, serve}
use litestar_cqrs_example.Api.Keys.{update_user_by_id_endpoint, route, key_of, key_of_injective}
use litestar_cqrs_example.Api.Context.{cache_request_key_builder, cache_request_key_builder-user}
use litestar_cqrs_example.Api.Sent.{Counted}
use litestar_cqrs_example.Api.Own.{Asked, delete_user_by_id-own, update_user_by_id-own}

abbrev claims_of_ann : TokenClaims
claims_of_ann = record sample_claims { typ = "access" }

abbrev crypto : Crypto
crypto = record sample_crypto { decode = λ _ _ _ _ _ _. ok claims_of_ann }

abbrev jwt : JwtImpl
jwt = record {
  algorithm = "HS256";
  public_key = "p";
  secret_key = "s";
  access_expires = 60;
  refresh_expires = 100;
}

abbrev ann_row : UserRow
ann_row = record {
  id = "1";
  email = some "ann@a.b";
  password = none;
  roles = (record { name = "member"; is_superuser = false }) ∷ [];
}

abbrev own_update : Permission
own_update = record {
  resource = "users";
  action = Access.update;
  operation = "update";
  scope = own;
  description = none;
  deny_fields = [];
  allow_fields = [];
}

abbrev directory : Stored → Directory
directory _ = record {
  get_one = λ _ _. ok (some ann_row);
  permission = λ _ key. ok (if key == "users:update:update" then some own_update else none);
}

abbrev view : Session → Queries.Database Row
view _ = record { key = λ _. 0; rows = λ _. []; count = λ _. 0 }

-- The epoch of a cache
abbrev epochs : Eff ℕ ℕ
epochs n = (ok (n + 1), n + 1)

abbrev no_permissions : String → Eff Session (List Permission)
no_permissions _ = pure []

abbrev params : String → Params
params user_id = record {
  user_id = user_id;
  role_id = "";
  permission_id = "";
  field_id = "";
  body = [];
  user_data = record { email = none; password = some "secret-word" };
  email_matches = true;
  filters = record { email = null; from_date = none; to_date = none };
  page = 1;
  limit = 10;
  asc = true;
}

abbrev request : String → Request
request user_id = record {
  headers = λ name. if name == "Authorization" then some "Bearer t0" else none;
  rule = none;
  auth = none;
  user = none;
  ctx = record {
    user = none;
    request_id = none;
    request_method = some "PATCH";
    request_path = some "/users";
    request_path_params = entry "user_id" (scalar user_id) no_entries;
    request_query_params = no_entries;
    request_json_params = mapping no_entries;
    request_url = none;
  };
}

key_of_injective_example : update_user_by_id_endpoint ≡ update_user_by_id_endpoint
unfolding key_of route spec_key str_lower
key_of_injective_example =
    key_of_injective update_user_by_id_endpoint update_user_by_id_endpoint "users:update:update"
      refl refl

delete_user_by_id-own_example :
    let (answer, (after, cache)) =
      serve sample db dtos hasher view no_permissions laws epochs directory crypto jwt ok 1
        delete_user_by_id_route
        (params "2")
        (request "2")
        (start, 0) in
    (Asked db dtos hasher view no_permissions laws tables directory crypto jwt ok 1 epochs start
        (request "2")
        "users:delete:delete"
        "2"
      × Counted db dtos hasher view no_permissions laws epochs (content no_content) 0 answer cache
      × (any (matches (by_id "2")) (users db dtos laws tables start) ≡ true)
      × (users db dtos laws tables after
          ≡ keep_if (λ row. not (matches (by_id "2") row)) (users db dtos laws tables start)))
    ⊎ ((e : Exc) × (answer ≡ raise e) × (after ≡ start) × (cache ≡ 0))
unfolding item
delete_user_by_id-own_example =
    delete_user_by_id-own db dtos hasher view no_permissions laws tables directory crypto jwt ok 1
      epochs (params "2") (request "2") start 0 refl

update_user_by_id-own_example :
    let (answer, (after, cache)) =
      serve sample db dtos hasher view no_permissions laws epochs directory crypto jwt ok 1
        update_user_by_id_route
        (params "1")
        (request "1")
        (start, 0) in
    (Asked db dtos hasher view no_permissions laws tables directory crypto jwt ok 1 epochs start
        (request "1")
        "users:update:update"
        "1"
      × (validate_user_data (params "1").user_data true ≡ ok tt)
      × Counted db dtos hasher view no_permissions laws epochs
          (content (status_of true))
          0
          answer
          cache
      × (any (matches (by_id "1")) (users db dtos laws tables start) ≡ true)
      × ((hashed : UserData) × HashedAs db dtos laws tables hasher (params "1").user_data hashed
          × Assigned
              (by_id "1")
              (user_cells hashed)
              (users db dtos laws tables start)
              (users db dtos laws tables after)))
    ⊎ ((e : Exc) × (answer ≡ raise e) × (after ≡ start) × (cache ≡ 0))
unfolding item
update_user_by_id-own_example =
    update_user_by_id-own db dtos hasher view no_permissions laws tables directory crypto jwt ok 1
      epochs (params "1") (request "1") start 0 refl

abbrev urlencode : List (String × Value) → String
urlencode [] = ""
urlencode ((k, _) ∷ items) = k +s "&" +s urlencode items

abbrev same_text : String → String
same_text s = s

abbrev ann_user : AuthUser
ann_user = record {
  id = "1";
  is_superuser = false;
  email = none;
  password = none;
  roles = "member" ∷ [];
}

abbrev asked_by_ann : Context
asked_by_ann = record (request "1").ctx { user = some ann_user }

-- The body of a request is no part of the key.
cache_request_key_builder-user_example : same_text ann_user.id ≡ same_text ann_user.id
unfolding cache_request_key_builder
cache_request_key_builder-user_example =
    cache_request_key_builder-user urlencode same_text asked_by_ann
      (record asked_by_ann { request_json_params = scalar "x" }) ann_user ann_user refl refl refl
      refl
