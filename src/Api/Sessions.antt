-- ===== src/Api/Sessions.antt =====
-- A browser that keeps the cookie of a login refreshes its tokens with it.
use litestar_cqrs_example.Common.{
  String, ◌≡◌, refl, true, some, contains, nat_eq, string_eq, str_truthy,
}
use litestar_cqrs_example.Errors.{ok}
use litestar_cqrs_example.Services.{RedisServer, ListLaws, Crypto, TokenClaims}
use litestar_cqrs_example.Cache.{World}
use litestar_cqrs_example.Cache.Laws.{Locks}
use litestar_cqrs_example.Jwt.{JwtImpl, TokenPair, jwt_token}
use litestar_cqrs_example.Jwt.Refresh.{get_verified_claims}
use litestar_cqrs_example.Jwt.Rotation.{sessions, lock_name, issued}
use litestar_cqrs_example.Jwt.Sessions.{stored_hash}
use litestar_cqrs_example.Access.Middleware.{UserRow, Directory}
use litestar_cqrs_example.UseCases.{PasswordHasher}
use litestar_cqrs_example.UseCases.Login.{Credentials}
use litestar_cqrs_example.UseCases.Sessions.{login_opens, refresh-login}
use litestar_cqrs_example.Api.Public.{
  Carried, pair_response, presented, login_endpoint, refresh_endpoint,
}

module _ (r : RedisServer) (laws : ListLaws r) (c : Crypto) (jwt : JwtImpl) where
  -- Whoever logged in can refresh: the login answers with the access token and the cookie of its
  -- pair, and a request with this cookie and the same fingerprint, in any later state in which the
  -- session that the login stored has not been taken out, is answered with the access token and the
  -- cookie of a new pair. The conditions: the credentials are right, both pairs can be signed, the
  -- drawn `jti` and the token are not empty, the cookie passes as a token and still verifies as what
  -- was signed, and the lock is free.
  pub refresh_endpoint-login_endpoint :
      (db : Directory) (hasher : PasswordHasher) (email password fingerprint : String)
      (row : UserRow) (w later : World r.State) (pair next : TokenPair) (claims : TokenClaims)
      (req : Carried)
      → Credentials db hasher email password row
      → issued c jwt w.now row.id (c.uuid4 w.drawn) ≡ ok pair
      → str_truthy (c.uuid4 w.drawn) ≡ true
      → (contains
              (sessions r
                (login_endpoint r c jwt db hasher (ok tt) email password fingerprint w).1
                row.id)
              (stored_hash c fingerprint w pair)
            ≡ true
          → contains (sessions r later row.id) (stored_hash c fingerprint w pair) ≡ true)
      → req.cookies "refresh" ≡ some pair.refresh_token
      → str_truthy pair.refresh_token ≡ true
      → jwt_token pair.refresh_token ≡ ok pair.refresh_token
      → get_verified_claims r c jwt later.now pair.refresh_token ≡ ok claims
      → claims.sub ≡ row.id
      → claims.jti ≡ some (c.uuid4 w.drawn)
      → issued c jwt later.now claims.sub (c.uuid4 w.drawn) ≡ ok next
      → Locks r (lock_name claims.sub)
      → ((login_endpoint r c jwt db hasher (ok tt) email password fingerprint w).0
          ≡ ok (pair_response pair))
        × ((refresh_endpoint r c jwt fingerprint req later).0 ≡ ok (pair_response next))
  unfolding login_endpoint refresh_endpoint
  refresh_endpoint-login_endpoint db hasher email password fingerprint row w later pair next claims
        req given made drawn same cookie truthy plain verified owner has_jti again locks =
      let answered =
        (login_opens r laws c jwt db hasher email password fingerprint row w pair given made).0 in
      let refreshed =
        refresh-login r laws c jwt db hasher email password fingerprint row w later pair next claims
          given made drawn (rw answered at same) verified owner has_jti again locks in
      (rw answered refl, rw (cookie, presented) (rw truthy (rw plain (rw refreshed refl))))
