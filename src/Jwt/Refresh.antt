-- ===== src/Jwt/Refresh.antt =====
-- src/backend/infra/security/jwt.py (`RefreshStoreImpl`): the refresh tokens that are good for one
-- rotation, as a Redis list of hashes for each user.
use litestar_cqrs_example.Common.{
  ℕ, suc, String, Bool, true, false, not, Option, none, some, [], ◌∷◌, if◌then◌else◌, ◌==◌, nat_eq,
  string_eq, contains, ◌+s◌, str_truthy,
}
use litestar_cqrs_example.Errors.{Try, ok}
use litestar_cqrs_example.Effects.{pure, lift, ◌>>=◌, ◌>>◌}
use litestar_cqrs_example.Result.{AppResult, as_result_async, and_then, unwrap, app_exception}
use litestar_cqrs_example.Services.{RedisServer, TokenClaims, Crypto}
use litestar_cqrs_example.Cache
use litestar_cqrs_example.Cache.{World, Io}
use litestar_cqrs_example.Jwt.{JwtImpl, TokenPair, issue_pair, verify}

-- `AUTH_KEY_PREFIX.format(user_id=user_id)`
abbrev pub auth_key : String → String
auth_key user_id = "auth:" +s user_id

-- `lambda c: c if c.typ == "refresh" else None`
abbrev pub with_typ : String → TokenClaims → Option TokenClaims
with_typ typ claims = if claims.typ == typ then some claims else none

module _ (r : RedisServer) (c : Crypto) (jwt : JwtImpl) where
  -- `uuid4().hex`
  abbrev uuid4_hex : Io r String
  uuid4_hex w = (ok (c.uuid4 w.drawn), record w { drawn = suc w.drawn })

  abbrev clock : Io r ℕ
  clock w = (ok w.now, w)

  -- `_get_verified_claims`
  unfoldable pub get_verified_claims : ℕ → String → Try TokenClaims
  unfolding verify and_then unwrap
  get_verified_claims now token =
      unwrap (and_then (with_typ "refresh") (verify c jwt now token none none))

  -- The digest that the store keeps, behind the `jti` if the token has one.
  abbrev behind_jti : Option String → String → String
  behind_jti none digest = digest
  behind_jti (some jti) digest = if str_truthy jti then jti +s ":" +s digest else digest

  unfoldable pub get_hashed_pair : TokenClaims → (fingerprint token : String) → String
  get_hashed_pair claims fingerprint token =
      behind_jti claims.jti (c.sha256 (fingerprint +s ":" +s token))

  abbrev filled : {A : Type 0} → Io r A → Io r (Option A)
  filled m = do a ← m; pure (some a)

  -- `claims.jti or uuid4().hex`
  abbrev jti_or_uuid4 : Option String → Io r String
  jti_or_uuid4 none = uuid4_hex
  jti_or_uuid4 (some jti) = if str_truthy jti then pure jti else uuid4_hex

  abbrev new_pair : String → String → Io r TokenPair
  new_pair sub jti = do
    now ← clock
    lift (unwrap (issue_pair c jwt now sub none none (some jti) none none []))

  unfoldable pub make_token_body : (user_id fingerprint : String) → Io r TokenPair
  unfolding Cache.set_list
  make_token_body user_id fingerprint = do
    jti ← uuid4_hex
    pair ← new_pair user_id jti
    Cache.set_list r (auth_key user_id)
        ((jti +s ":" +s c.sha256 (fingerprint +s ":" +s pair.refresh_token)) ∷ []) none
    pure pair

  -- `user_id` is the identifier's `hex`.
  unfoldable pub make_token : (user_id fingerprint : String) → Io r (AppResult TokenPair)
  unfolding make_token_body
  make_token user_id fingerprint = as_result_async (filled (make_token_body user_id fingerprint))

  -- The part of `rotate` that exchanges a hash that was found.
  unfoldable pub exchange :
      TokenClaims → (fingerprint hashed_pair : String) → Io r (Option TokenPair)
  unfolding Cache.discard Cache.set_list
  exchange claims fingerprint hashed_pair = do
    Cache.discard r (auth_key claims.sub) hashed_pair
    jti ← jti_or_uuid4 claims.jti
    result ← new_pair claims.sub jti
    Cache.set_list r (auth_key claims.sub)
        (get_hashed_pair claims fingerprint result.refresh_token ∷ []) (some result.expires_in)
    pure (some result)

  -- The answer to a hash that was not found: every session of the user ends.
  unfoldable pub forget : TokenClaims → Io r (Option TokenPair)
  unfolding Cache.delete
  forget claims = do Cache.delete r (auth_key claims.sub ∷ []); pure none

  -- The body of the `async with` of `rotate`.
  unfoldable pub rotate_locked :
      TokenClaims → (fingerprint token : String) → Io r (Option TokenPair)
  unfolding Cache.get_list
  rotate_locked claims fingerprint token = do
    stored ← Cache.get_list r (auth_key claims.sub)
    let hashed_pair = get_hashed_pair claims fingerprint token
    if not (contains stored hashed_pair)
        then forget claims
        else exchange claims fingerprint hashed_pair

  unfoldable pub rotate_body : (fingerprint token : String) → Io r (Option TokenPair)
  rotate_body fingerprint token = do
    now ← clock
    claims ← lift (get_verified_claims now token)
    Cache.with_lock r ("lock:" +s auth_key claims.sub) (rotate_locked claims fingerprint token)

  unfoldable pub rotate : (fingerprint token : String) → Io r (AppResult TokenPair)
  unfolding rotate_body
  rotate fingerprint token = as_result_async (rotate_body fingerprint token)

  unfoldable pub end_session : (user_id hashed_pair : String) → Io r (Option Bool)
  unfolding Cache.discard
  end_session user_id hashed_pair = do
    Cache.discard r (auth_key user_id) hashed_pair
    pure (some true)

  unfoldable pub revoke_body : (fingerprint token : String) → Io r (Option Bool)
  unfolding Cache.get_list
  revoke_body fingerprint token = do
    now ← clock
    claims ← lift (get_verified_claims now token)
    let hashed_pair = get_hashed_pair claims fingerprint token
    stored ← Cache.get_list r (auth_key claims.sub)
    if contains stored hashed_pair then end_session claims.sub hashed_pair else pure (some false)

  unfoldable pub revoke : (fingerprint token : String) → Io r (AppResult Bool)
  unfolding revoke_body end_session
  revoke fingerprint token = as_result_async (revoke_body fingerprint token)
