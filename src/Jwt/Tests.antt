-- ===== src/Jwt/Tests.antt =====
-- Runs of the refresh store on the sample server, and the theorems at them.
use litestar_cqrs_example.Common.{
  ℕ, String, ◌≡◌, refl, none, some, [], ◌∷◌, arith, eq_iff, if◌then◌else◌, ◌==◌, nat_eq, string_eq,
  words,
}
use litestar_cqrs_example.Errors.{ok}
use litestar_cqrs_example.Result.{unwrap, empty_result}
use litestar_cqrs_example.Services.{without}
use litestar_cqrs_example.Services.Sample.{
  Store, sample_server, sample_laws, empty_store, sample_claims, sample_crypto,
}
use litestar_cqrs_example.Cache
use litestar_cqrs_example.Cache.{World}
use litestar_cqrs_example.Cache.Laws.{Locks}
use litestar_cqrs_example.Jwt.{JwtImpl, TokenPair, issue_pair, jwt_token}
use litestar_cqrs_example.Jwt.Refresh.{
  auth_key, get_verified_claims, get_hashed_pair, make_token, rotate,
}
use litestar_cqrs_example.Jwt.Rotation.{sessions, lock_name, rotate_accepts, rotate_refuses}
use litestar_cqrs_example.Jwt.Sessions.{rotate_once}

abbrev jwt : JwtImpl
jwt = record {
  algorithm = "HS256";
  public_key = "p";
  secret_key = "s";
  access_expires = 60;
  refresh_expires = 100;
}

abbrev at_time : ℕ → Store → World Store
at_time now store = record { server = store; now = now; drawn = 0 }

-- User `u1` is logged in with a token of second 0 and with another session.
abbrev logged_in : Store
logged_in = record empty_store {
  lists = λ k. if k == "auth:u1" then "id:fp:t0" ∷ "other" ∷ [] else [];
}

abbrev pair_at : String → TokenPair
pair_at token = record { access_token = token; refresh_token = token; expires_in = 100 }

locks : (name : String) → Locks sample_server name
locks name s = (refl, refl)

runs : Unit {0}
unfolding get_verified_claims issue_pair unwrap get_hashed_pair jwt_token words
runs = tt

rotate_accepts_example :
    ((rotate sample_server sample_crypto jwt "fp" "t0" (at_time 1 logged_in)).0
      ≡ ok (record { value = some (pair_at "t1"); err = none }))
    × ((u : String)
        → sessions sample_server
            (rotate sample_server sample_crypto jwt "fp" "t0" (at_time 1 logged_in)).1
            u
          ≡ (if "auth:u1" == auth_key u
              then get_hashed_pair sample_server sample_crypto jwt sample_claims "fp" "t1"
                ∷ without
                    (get_hashed_pair sample_server sample_crypto jwt sample_claims "fp" "t0")
                    (sessions sample_server (at_time 1 logged_in) u)
              else sessions sample_server (at_time 1 logged_in) u))
unfolding runs
rotate_accepts_example =
    rotate_accepts sample_server sample_laws sample_crypto jwt sample_claims "fp" "t0"
      (at_time 1 logged_in) "id" (pair_at "t1") refl refl refl refl refl (locks (lock_name "u1"))

rotate_refuses_example :
    (rotate sample_server sample_crypto jwt "fp" "t9" (at_time 1 logged_in)).0
    ≡ ok (record { value = none; err = some empty_result })
unfolding runs Cache.has_star
rotate_refuses_example =
    (rotate_refuses sample_server sample_laws sample_crypto jwt sample_claims "fp" "t9"
      (at_time 1 logged_in) refl refl refl (locks (lock_name "u1"))).0

abbrev rotated : World Store
rotated = (rotate sample_server sample_crypto jwt "fp" "t0" (at_time 1 logged_in)).1

rotate_once_example :
    sessions sample_server
      (rotate sample_server sample_crypto jwt "fp" "t0" (record rotated { now = 2 })).1
      "u1"
    ≡ []
unfolding runs Cache.has_star
rotate_once_example =
    (rotate_once sample_server sample_laws sample_crypto jwt sample_claims "fp" "t0"
      (at_time 1 logged_in) (record rotated { now = 2 }) "id" (pair_at "t1") refl refl refl refl
      refl (ground (arith, eq_iff "id:fp:t1" "id:fp:t0")) (locks (lock_name "u1")) (λ h. h) refl
      refl).1

abbrev made : World Store
made = (make_token sample_server sample_crypto jwt "u1" "fp" (at_time 0 empty_store)).1
