-- ===== src/Jwt.antt =====
-- src/backend/infra/security/jwt.py (`JwtImpl`) and the token types of
-- src/backend/app/contracts/auth.py.
pub mod Refresh
pub mod Rotation
pub mod Sessions
mod Tests
use litestar_cqrs_example.Common.{
  ℕ, ◌+◌, String, Option, none, some, List, [], ◌∷◌, nat_beq, if◌then◌else◌, ◌==◌, nat_eq,
  string_eq, str_truthy, str_lower, strip, words, concat_words,
}
use Prim.Native.Char.{code}
use Prim.Native.String
use litestar_cqrs_example.Errors.{◌>>=◌, un_authorized_error, new_error, Exc, app, Try, ok, raise}
use litestar_cqrs_example.Result
use litestar_cqrs_example.Result.{AppResult, as_result_sync, app_exception}
use litestar_cqrs_example.Services.{TokenClaims, Crypto}

pub record JwtImpl : Type 0 where
  pub algorithm : String
  pub public_key : String
  pub secret_key : String
  pub access_expires : ℕ
  pub refresh_expires : ℕ

pub record TokenPair : Type 0 where
  pub access_token : String
  pub refresh_token : String
  pub expires_in : ℕ

-- `exc.UnAuthorizedError(message)`
abbrev pub unauthorized : String → Exc
unauthorized message = app (new_error un_authorized_error (some message) none [])

-- The two branches of `JwtToken.__post_init__`, over the words of the text.
token_of_words : String → List String → Try String
token_of_words token [] = ok token
token_of_words token (w ∷ []) = ok token
token_of_words token (scheme ∷ w ∷ ws) =
    if str_lower scheme == "bearer"
    then ok (concat_words (w ∷ ws))
    else raise (unauthorized "Invalid token provided")

-- `JwtToken(token).token`
unfoldable pub jwt_token : String → Try String
unfolding token_of_words
jwt_token token = token_of_words token (words token)

-- `if jti: payload["jti"] = jti`
abbrev pub truthy_text : Option String → Option String
truthy_text none = none
truthy_text (some s) = if str_truthy s then some s else none

module _ (c : Crypto) where
  -- Whitespace at the ends and line breaks are dropped before base64 is tried.
  unfoldable pub drop_newlines : String → String
  drop_newlines String.[] = String.[]
  drop_newlines (String.◌∷◌ ch s) =
      if nat_beq (code ch) 10 then drop_newlines s else String.◌∷◌ ch (drop_newlines s)

  abbrev decoded_or : String → Option String → String
  decoded_or value none = value
  decoded_or value (some text) = text

  -- `_try_decode`
  unfoldable pub try_decode : String → String
  unfolding drop_newlines
  try_decode value =
      let joined = drop_newlines (strip value) in decoded_or joined (c.b64decode joined)

  -- `JwtImpl.__init__`
  unfoldable pub new_jwt : String → String → String → ℕ → ℕ → JwtImpl
  unfolding try_decode
  new_jwt algorithm public_key secret_key access_expires refresh_expires = record {
    algorithm = algorithm;
    public_key = try_decode public_key;
    secret_key = try_decode secret_key;
    access_expires = access_expires;
    refresh_expires = refresh_expires;
  }

  -- The payload that `_encode` signs.
  abbrev pub payload :
      (sub typ : String)
      → (iat ttl : ℕ) → (jti iss aud : Option String) → List (String × String)
      → TokenClaims
  payload sub typ iat ttl jti iss aud extra = record {
    sub = sub;
    typ = typ;
    iat = some iat;
    exp = some (iat + ttl);
    iss = truthy_text iss;
    aud = truthy_text aud;
    jti = truthy_text jti;
    extra = extra;
  }

  unfoldable pub encode :
      JwtImpl
      → (sub typ : String) → (iat ttl : ℕ) → (jti iss aud : Option String) → List (String × String)
      → Try String
  encode jwt sub typ iat ttl jti iss aud extra =
      c.encode (payload sub typ iat ttl jti iss aud extra) jwt.secret_key jwt.algorithm

  abbrev seconds_or : Option ℕ → ℕ → ℕ
  seconds_or none d = d
  seconds_or (some n) d = n

  -- The body of `issue_pair`. The access token's call of `_encode` passes `iss` and `aud` by
  -- position, where the parameters `jti` and `iss` stand.
  issue_pair_body :
      JwtImpl
      → (now : ℕ) → (sub : String) → (ttl refresh_ttl : Option ℕ) → (jti iss aud : Option String)
      → List (String × String)
      → Try TokenPair
  unfolding encode
  issue_pair_body jwt now sub ttl refresh_ttl jti iss aud extra = do
    let access_ttl = seconds_or ttl jwt.access_expires
    let long_ttl = seconds_or refresh_ttl jwt.refresh_expires
    access ← encode jwt sub "access" now access_ttl iss aud none extra
    refresh ← encode jwt sub "refresh" now long_ttl jti iss aud extra
    access_token ← jwt_token access
    refresh_token ← jwt_token refresh
    ok (record {
      access_token = access_token;
      refresh_token = refresh_token;
      expires_in = long_ttl;
    })

  abbrev pub returned {ℓ} : {A : Type ℓ} → Try A → Try (Option A)
  returned (ok a) = ok (some a)
  returned (raise e) = raise e

  unfoldable pub issue_pair :
      JwtImpl
      → (now : ℕ) → (sub : String) → (ttl refresh_ttl : Option ℕ) → (jti iss aud : Option String)
      → List (String × String)
      → AppResult TokenPair
  unfolding issue_pair_body as_result_sync
  issue_pair jwt now sub ttl refresh_ttl jti iss aud extra =
      as_result_sync (returned (issue_pair_body jwt now sub ttl refresh_ttl jti iss aud extra))

  unfoldable pub verify :
      JwtImpl → (now : ℕ) → (token : String) → (iss aud : Option String) → AppResult TokenClaims
  unfolding as_result_sync
  verify jwt now token iss aud =
      as_result_sync (returned (c.decode token jwt.public_key jwt.algorithm iss aud now))
