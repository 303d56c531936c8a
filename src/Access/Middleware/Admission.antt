-- ===== src/Access/Middleware/Admission.antt =====
-- A request reaches its handler exactly where it is admitted.
use litestar_cqrs_example.Common.{
  ℕ, String, ◌≡◌, refl, ◌↔◌, ◌⊎◌, inl, inr, none, some, nat_eq, string_eq,
}
use litestar_cqrs_example.Errors.{Exc, Try, Try-cases, ok, raise}
use litestar_cqrs_example.Effects.{Eff}
use litestar_cqrs_example.Services.{TokenClaims, Crypto}
use litestar_cqrs_example.Jwt.{JwtImpl}
use litestar_cqrs_example.Access.{AuthUser, update_user}
use litestar_cqrs_example.Access.Middleware.{
  Directory, Request, bearer_token, authorize, access_claims, user_of, handle,
}
use litestar_cqrs_example.Access.Middleware.Laws.{
  Authorized, Names, authorize-Authorized, access_claims-ok, user_of-Names,
}

-- The request as the middleware hands it on.
abbrev pub identified : Request → TokenClaims → AuthUser → Request
identified req claims user = record req {
  auth = some claims;
  user = some user;
  ctx = update_user user req.ctx;
}

module _ (db : Directory) (c : Crypto) (jwt : JwtImpl) (uuid : String → Try String) (now : ℕ) where
  -- The header carries a bearer token that verifies as an access token, whose subject is a user of
  -- the database who is authorized for the route.
  abbrev pub Admits : Request → (token : String) → TokenClaims → AuthUser → Type 0
  Admits req token claims user =
      (bearer_token (req.headers "Authorization") ≡ ok token)
      × (c.decode token jwt.public_key jwt.algorithm none none now ≡ ok claims)
      × (claims.typ ≡ "access")
      × Names db c jwt uuid now claims.sub user
      × Authorized db (update_user user req.ctx) user req.rule

  abbrev pub Reaches : {B : Type 0} → Eff Request B → Request → Type 0
  Reaches next_app req =
      (token : String) × (claims : TokenClaims) × (user : AuthUser) × Admits req token claims user
      × (handle db c jwt uuid now next_app req ≡ next_app (identified req claims user))

  abbrev pub Refused : {B : Type 0} → Eff Request B → Request → Type 0
  Refused next_app req =
      ((token : String) (claims : TokenClaims) (user : AuthUser) → Admits req token claims user → ⊥)
      × (e : Exc) × ((handle db c jwt uuid now next_app req).0 ≡ raise e)

  -- The steps of the middleware that succeeded.
  abbrev Runs : Request → (token : String) → TokenClaims → AuthUser → Type 0
  Runs req token claims user =
      (bearer_token (req.headers "Authorization") ≡ ok token)
      × (access_claims db c jwt uuid now token ≡ ok claims)
      × (user_of db c jwt uuid now claims.sub ≡ ok user)
      × (authorize db user req.rule (update_user user req.ctx) ≡ ok tt)

  Runs-Admits :
      (req : Request) (token : String) (claims : TokenClaims) (user : AuthUser)
      → Runs req token claims user ↔ Admits req token claims user
  Runs-Admits req token claims user =
      let (claims_to, claims_from) = access_claims-ok db c jwt uuid now token claims in
      let (user_to, user_from) = user_of-Names db c jwt uuid now claims.sub user in
      let (auth_to, auth_from) = authorize-Authorized db (update_user user req.ctx) user req.rule in
      (
        λ (b, k, u, a). (b, (claims_to k).0, (claims_to k).1, user_to u, auth_to a),
        λ (b, d, t, n, a). (b, claims_from (d, t), user_from n, auth_from a),
      )

  module _ {B : Type 0} (next_app : Eff Request B) (req : Request) where
    refuse :
        ((token : String) (claims : TokenClaims) (user : AuthUser) → Runs req token claims user → ⊥)
        → (e : Exc) → (handle db c jwt uuid now next_app req).0 ≡ raise e
        → Refused next_app req
    refuse no_run e refused = (
      λ token claims user h. no_run token claims user ((Runs-Admits req token claims user).1 h),
      e,
      refused,
    )

    authorizing :
        (token : String) (claims : TokenClaims) (user : AuthUser)
        → bearer_token (req.headers "Authorization") ≡ ok token
        → access_claims db c jwt uuid now token ≡ ok claims
        → user_of db c jwt uuid now claims.sub ≡ ok user
        → Reaches next_app req ⊎ Refused next_app req
    unfolding handle
    authorizing token claims user b k u =
        elim (Try-cases (authorize db user req.rule (update_user user req.ctx))) [
          | inl (_, a) ↦ inl (
            token,
            claims,
            user,
            (Runs-Admits req token claims user).0 (b, k, u, a),
            rw (b, k, u, a) refl,
          )
          | inr (e, a) ↦ inr (
              refuse (λ token' claims' user' (b', k', u', a'). cc (b, k, u, a, b', k', u', a')) e
                (rw (b, k, u, a) refl))
        ]

    -- A request is either admitted, and its handler then sees the claims and the user that the
    -- token names, or it is not admitted by any token, claims and user, and raises before its
    -- handler runs.
    pub handle-Admits : Reaches next_app req ⊎ Refused next_app req
    unfolding handle
    handle-Admits = elim (Try-cases (bearer_token (req.headers "Authorization"))) [
      | inr (e, b) ↦ inr (refuse (λ _ _ _ (b', _, _, _). cc (b, b')) e (rw b refl))
      | inl (token, b) ↦ elim (Try-cases (access_claims db c jwt uuid now token)) [
        | inr (e, k) ↦ inr (refuse (λ _ _ _ (b', k', _, _). cc (b, k, b', k')) e (rw (b, k) refl))
        | inl (claims, k) ↦ elim (Try-cases (user_of db c jwt uuid now claims.sub)) [
          | inr (e, u) ↦
              inr (refuse (λ _ _ _ (b', k', u', _). cc (b, k, u, b', k', u')) e (rw (b, k, u) refl))
          | inl (user, u) ↦ authorizing token claims user b k u
        ]
      ]
    ]
