-- ===== src/UseCases/Sessions.antt =====
-- What a login and a logout do to the sessions of a user.
use litestar_cqrs_example.Common.{
  some, str_truthy, String, ◌≡◌, refl, ap, ◌∙◌, ◌⊎◌, inl, inr, Bool, true, false, [], ◌∷◌,
  if◌then◌else◌, ◌==◌, beq_self, nat_eq, string_eq, contains, ◌+s◌,
}
use litestar_cqrs_example.Errors.{Exc, Try-cases, ok, raise}
use litestar_cqrs_example.Effects.{continue, pure}
use litestar_cqrs_example.Result.{
  AppResult, as_result_sync, as_result_async, map_err, unwrap, unwrap_or, unwrap_or_raise,
  app_exception,
}
use litestar_cqrs_example.Services.{RedisServer, ListLaws, Crypto, TokenClaims}
use litestar_cqrs_example.Cache
use litestar_cqrs_example.Cache.{World}
use litestar_cqrs_example.Cache.Laws.{Locks}
use litestar_cqrs_example.Jwt.{JwtImpl, TokenPair, unauthorized}
use litestar_cqrs_example.Jwt.Refresh.{
  make_token, auth_key, get_verified_claims, get_hashed_pair, revoke,
}
use litestar_cqrs_example.Jwt.Rotation.{sessions, lock_name, issued, rotate_refuses}
use litestar_cqrs_example.Jwt.Sessions.{stored_hash, make_token_lem, revoke_lem, rotate-make_token}
use litestar_cqrs_example.Access.Middleware.{UserRow, Directory, auth_user}
use litestar_cqrs_example.UseCases.{PasswordHasher, login, logout, refresh}
use litestar_cqrs_example.UseCases.Login.{Credentials, identify-ok}

revoke-raise :
    (r : RedisServer) (c : Crypto) (jwt : JwtImpl) (fingerprint token : String) (w : World r.State)
    (e : Exc)
    → get_verified_claims r c jwt w.now token ≡ raise e
    → revoke r c jwt fingerprint token w ≡ (ok (as_result_sync (raise e)), w)
unfolding revoke as_result_async
revoke-raise r c jwt fingerprint token w e failed = rw failed refl

unwrap_or-raise : (e : Exc) → unwrap_or false (as_result_sync (raise e)) ≡ false
unfolding unwrap_or as_result_sync
unwrap_or-raise e = refl

logout-revoke :
    (r : RedisServer) (c : Crypto) (jwt : JwtImpl) (fingerprint token : String) (w : World r.State)
    (x : AppResult Bool)
    → (revoke r c jwt fingerprint token w).0 ≡ ok x
    → logout r c jwt fingerprint token w
      ≡ (ok (unwrap_or false x), (revoke r c jwt fingerprint token w).1)
unfolding logout
logout-revoke r c jwt fingerprint token w x e =
    ap
      (λ t.
        continue t (λ result. pure (unwrap_or false result)) (revoke r c jwt fingerprint token w).1)
      e

module _ (r : RedisServer) (laws : ListLaws r) (c : Crypto) (jwt : JwtImpl) where
  -- With the right credentials, and where the pair can be signed, a login returns the pair and puts
  -- the session of this pair and fingerprint in front of the user's sessions, and changes the
  -- sessions of no other user.
  pub login_opens :
      (db : Directory) (hasher : PasswordHasher) (email password fingerprint : String)
      (row : UserRow) (w : World r.State) (pair : TokenPair)
      → Credentials db hasher email password row
      → issued c jwt w.now row.id (c.uuid4 w.drawn) ≡ ok pair
      → let (answer, after) = login r c jwt db hasher (ok tt) email password fingerprint w in
        (answer ≡ ok pair)
        × ((u : String)
            → sessions r after u ≡ (
                if auth_key row.id == auth_key u
                then (c.uuid4 w.drawn +s ":" +s c.sha256 (fingerprint +s ":" +s pair.refresh_token))
                  ∷ sessions r w u
                else sessions r w u))
  unfolding login map_err unwrap
  login_opens db hasher email password fingerprint row w pair given made =
      let e = (identify-ok db hasher email password (auth_user row)).1 (row, given, refl) in
      let made_w = make_token_lem r laws c jwt row.id fingerprint w pair made in
      (
        rw e (rw made_w refl),
        λ u. rw e (rw made_w (laws.lrange-lpush (auth_key row.id) (auth_key u) _ w.server)),
      )

  -- A logout never raises. With a token that verifies it answers whether this was one of the user's
  -- sessions, which it no longer is after it, and changes no other user's sessions; with any other
  -- it answers `False` and changes nothing.
  pub logout_lem :
      (fingerprint token : String) (w : World r.State)
      → let (answer, after) = logout r c jwt fingerprint token w in
        ((claims : TokenClaims) × (get_verified_claims r c jwt w.now token ≡ ok claims)
          × (answer
              ≡ ok (
                  contains
                    (sessions r w claims.sub)
                    (get_hashed_pair r c jwt claims fingerprint token)))
          × (contains
                (sessions r after claims.sub)
                (get_hashed_pair r c jwt claims fingerprint token)
              ≡ false)
          × ((u : String)
              → ((auth_key claims.sub == auth_key u) ≡ true)
                ⊎ (sessions r after u ≡ sessions r w u)))
        ⊎ ((e : Exc) × (get_verified_claims r c jwt w.now token ≡ raise e)
            × (answer ≡ ok false)
            × (after ≡ w))
  unfolding unwrap_or
  logout_lem fingerprint token w = elim (Try-cases (get_verified_claims r c jwt w.now token)) [
    | inr (x, e) ↦
        let failed = revoke-raise r c jwt fingerprint token w x e in
        let end = logout-revoke r c jwt fingerprint token w _ (ap (λ t. t.0) failed) in
        inr (
          x,
          e,
          ap (λ t. t.0) end ∙ ap ok (unwrap_or-raise x),
          ap (λ t. t.1) end ∙ ap (λ t. t.1) failed,
        )
    | inl (claims, e) ↦
        let (answer, gone, others) = revoke_lem r laws c jwt claims fingerprint token w e in
        let end = logout-revoke r c jwt fingerprint token w _ answer in
        inl (claims, e, ap (λ x. x.0) end, rw end gone, λ u. rw end (others u))
  ]

  -- After a logout with a token that verifies, a refresh with it, in any later state in which nothing
  -- has stored its hash again, is refused as unauthorized and ends every session of the user. The
  -- conditions: the token still verifies, the lock is free, and the user's key has no star.
  pub refresh-logout :
      (claims : TokenClaims) (fingerprint token : String) (w later : World r.State)
      → get_verified_claims r c jwt w.now token ≡ ok claims
      → (contains
              (sessions r (logout r c jwt fingerprint token w).1 claims.sub)
              (get_hashed_pair r c jwt claims fingerprint token)
            ≡ false
          → contains
              (sessions r later claims.sub)
              (get_hashed_pair r c jwt claims fingerprint token)
            ≡ false)
      → get_verified_claims r c jwt later.now token ≡ ok claims
      → Cache.has_star (auth_key claims.sub) ≡ false
      → Locks r (lock_name claims.sub)
      → let (answer, after) = refresh r c jwt fingerprint token later in
        (answer ≡ raise (unauthorized "Token is invalid or expired"))
        × (sessions r after claims.sub ≡ [])
  unfolding refresh unwrap_or_raise
  refresh-logout claims fingerprint token w later verified same again plain locks =
      let (answered, gone, _) = revoke_lem r laws c jwt claims fingerprint token w verified in
      let end = ap (λ x. x.1) (logout-revoke r c jwt fingerprint token w _ answered) in
      let absent : contains (sessions r later claims.sub)
            (get_hashed_pair r c jwt claims fingerprint token)
          ≡ false =
        same (
          ap
            (λ s.
              contains (sessions r s claims.sub) (get_hashed_pair r c jwt claims fingerprint token))
            end
          ∙ gone) in
      let (answer, lists) =
        rotate_refuses r laws c jwt claims fingerprint token later again absent plain locks in
      (rw answer refl, rw answer (rw (lists claims.sub) (rw (beq_self (auth_key claims.sub)))))

  -- Whoever logged in can refresh: the refresh token of the login, with the same fingerprint and
  -- while it still verifies as what was signed and its hash is still stored, gives a new pair.
  pub refresh-login :
      (db : Directory) (hasher : PasswordHasher) (email password fingerprint : String)
      (row : UserRow) (w later : World r.State) (pair next : TokenPair) (claims : TokenClaims)
      → Credentials db hasher email password row
      → issued c jwt w.now row.id (c.uuid4 w.drawn) ≡ ok pair
      → str_truthy (c.uuid4 w.drawn) ≡ true
      → (contains
              (sessions r (login r c jwt db hasher (ok tt) email password fingerprint w).1 row.id)
              (stored_hash c fingerprint w pair)
            ≡ true
          → contains (sessions r later row.id) (stored_hash c fingerprint w pair) ≡ true)
      → get_verified_claims r c jwt later.now pair.refresh_token ≡ ok claims
      → claims.sub ≡ row.id
      → claims.jti ≡ some (c.uuid4 w.drawn)
      → issued c jwt later.now claims.sub (c.uuid4 w.drawn) ≡ ok next
      → Locks r (lock_name claims.sub)
      → (refresh r c jwt fingerprint pair.refresh_token later).0 ≡ ok next
  unfolding refresh unwrap_or_raise login map_err unwrap
  refresh-login db hasher email password fingerprint row w later pair next claims given made truthy
        same verified owner has_jti again locks =
      let e = (identify-ok db hasher email password (auth_user row)).1 (row, given, refl) in
      let made_w = make_token_lem r laws c jwt row.id fingerprint w pair made in
      let stored : (login r c jwt db hasher (ok tt) email password fingerprint w).1
          ≡ (make_token r c jwt row.id fingerprint w).1 =
        rw e (rw made_w refl) in
      let rotated =
        (rotate-make_token r laws c jwt row.id fingerprint w later pair next claims made truthy
          (λ h. same (rw stored h)) verified owner has_jti again locks).1 in
      rw rotated refl
