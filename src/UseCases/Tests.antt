-- ===== src/UseCases/Tests.antt =====
-- A user who logs in, refreshes and logs out, and the theorems at it.
use litestar_cqrs_example.Common.{
  String, ◌≡◌, refl, ◌⊎◌, true, false, Option, none, some, [], ◌∷◌, if◌then◌else◌, ◌==◌, nat_eq,
  string_eq, contains, ◌+s◌, words,
}
use litestar_cqrs_example.Errors.{service_not_implemented_error, from_other, Exc, ok, raise}
use litestar_cqrs_example.Effects.{lift, ◌>>=◌}
use litestar_cqrs_example.Result.{as_result_sync, map_err, unwrap, app_exception}
use litestar_cqrs_example.Services.{TokenClaims}
use litestar_cqrs_example.Services.Sample.{
  Store, sample_server, sample_laws, sample_crypto, sample_claims, empty_store,
}
use litestar_cqrs_example.Cache
use litestar_cqrs_example.Cache.{World}
use litestar_cqrs_example.Jwt.{JwtImpl, TokenPair, unauthorized, issue_pair, jwt_token}
use litestar_cqrs_example.Jwt.Refresh.{make_token, auth_key, get_verified_claims, get_hashed_pair}
use litestar_cqrs_example.Jwt.Rotation.{sessions}
use litestar_cqrs_example.Access.Middleware.{UserRow, Directory}
use litestar_cqrs_example.UseCases.{
  answered, verification_error, PasswordHasher, hash_password, login, logout, refresh,
}
use litestar_cqrs_example.Result.{as_result_async}
use litestar_cqrs_example.Api.Public.{Carried, pair_response, login_endpoint, refresh_endpoint}
use litestar_cqrs_example.Api.Sessions.{refresh_endpoint-login_endpoint}
use litestar_cqrs_example.UseCases.Login.{Credentials, login-Credentials}
use litestar_cqrs_example.UseCases.Sessions.{logout_lem, refresh-logout}

abbrev jwt : JwtImpl
jwt = record {
  algorithm = "HS256";
  public_key = "p";
  secret_key = "s";
  access_expires = 60;
  refresh_expires = 100;
}

abbrev hasher : PasswordHasher
hasher = record {
  hash = λ plain. ok ("#" +s plain);
  verify = λ hashed plain. if hashed == ("#" +s plain) then answered true else verification_error;
}

abbrev ann : UserRow
ann = record { id = "u1"; email = some "a@b.c"; password = some "#secret"; roles = [] }

abbrev one_row : Option String → Option UserRow
one_row none = none
one_row (some email) = if email == "a@b.c" then some ann else none

abbrev directory : Directory
directory = record { get_one = λ email _. ok (one_row email); permission = λ _ _. ok none }

abbrev start : World Store
start = record { server = empty_store; now = 0; drawn = 0 }

abbrev pair_at : String → TokenPair
pair_at token = record { access_token = token; refresh_token = token; expires_in = 100 }

hashes : hash_password hasher "secret" ≡ record { value = some "#secret"; err = none }
unfolding hash_password as_result_sync
hashes = refl

login-Credentials_example :
    ((row : UserRow) × Credentials directory hasher "a@b.c" "guess" row
      × (login sample_server sample_crypto jwt directory hasher (ok tt) "a@b.c" "guess" "fp" start
          ≡ (make_token sample_server sample_crypto jwt row.id "fp" >>= λ made.
                lift (unwrap (map_err (from_other service_not_implemented_error) made)))
              start))
    ⊎ ((e : Exc) × ((row : UserRow) → ¬ Credentials directory hasher "a@b.c" "guess" row)
        × (login sample_server sample_crypto jwt directory hasher (ok tt) "a@b.c" "guess" "fp" start
            ≡ (raise e, start)))
login-Credentials_example =
    login-Credentials sample_server sample_crypto jwt directory hasher "a@b.c" "guess" "fp" start

runs : Unit {0}
unfolding get_verified_claims issue_pair unwrap get_hashed_pair jwt_token
runs = tt

abbrev opened : World Store
opened = record start {
  server = record empty_store { lists = λ k. if k == "auth:u1" then "id:fp:t0" ∷ [] else [] };
}

logout_lem_example :
    let (answer, after) = logout sample_server sample_crypto jwt "fp" "t0" opened in
    ((claims : TokenClaims) × (get_verified_claims sample_server sample_crypto jwt 0 "t0"
        ≡ ok claims)
      × (answer
          ≡ ok (
              contains
                (sessions sample_server opened claims.sub)
                (get_hashed_pair sample_server sample_crypto jwt claims "fp" "t0")))
      × (contains
            (sessions sample_server after claims.sub)
            (get_hashed_pair sample_server sample_crypto jwt claims "fp" "t0")
          ≡ false)
      × ((u : String)
          → ((auth_key claims.sub == auth_key u) ≡ true)
            ⊎ (sessions sample_server after u ≡ sessions sample_server opened u)))
    ⊎ ((e : Exc) × (get_verified_claims sample_server sample_crypto jwt 0 "t0" ≡ raise e)
        × (answer ≡ ok false)
        × (after ≡ opened))
logout_lem_example = logout_lem sample_server sample_laws sample_crypto jwt "fp" "t0" opened

abbrev closed : World Store
closed = (logout sample_server sample_crypto jwt "fp" "t0" opened).1

refresh-logout_example :
    (refresh sample_server sample_crypto jwt "fp" "t0" (record closed { now = 1 })).0
    ≡ raise (unauthorized "Token is invalid or expired")
unfolding runs Cache.has_star
refresh-logout_example =
    (refresh-logout sample_server sample_laws sample_crypto jwt sample_claims "fp" "t0" opened
      (record closed { now = 1 }) refl (λ h. h) refl refl (λ s. (refl, refl))).0

abbrev logged_in : World Store
logged_in =
    (login sample_server sample_crypto jwt directory hasher (ok tt) "a@b.c" "secret" "fp" start).1

-- The browser sends the cookie of the login.
abbrev browser : Carried
browser = record {
  cookies = λ name. if name == "refresh" then some "t0" else none;
  headers = λ _. none;
}

refresh_endpoint-login_endpoint_example :
    ((login_endpoint sample_server sample_crypto jwt directory hasher
        (ok tt)
        "a@b.c"
        "secret"
        "fp"
        start).0
      ≡ ok (pair_response (pair_at "t0")))
    × ((refresh_endpoint sample_server sample_crypto jwt "fp" browser
          (record logged_in { now = 1 })).0
        ≡ ok (pair_response (pair_at "t1")))
unfolding runs words login_endpoint jwt_token login make_token as_result_async
refresh_endpoint-login_endpoint_example =
    refresh_endpoint-login_endpoint sample_server sample_laws sample_crypto jwt directory hasher
      "a@b.c" "secret" "fp" ann start (record logged_in { now = 1 }) (pair_at "t0") (pair_at "t1")
      sample_claims browser ("#secret", refl, refl, refl, refl, refl) refl refl (λ h. h) refl refl
      refl refl refl refl refl (λ s. (refl, refl))
