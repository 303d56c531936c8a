-- ===== src/Api/Own.antt =====
-- A request that changes or deletes a user acts on the rows that its user's permission is for.
use litestar_cqrs_example.Common.{
  ℕ, String, ◌≡◌, refl, sym, ap, ◌∙◌, ◌⊎◌, inl, inr, true, not, none, some, some_inj, List, keep_if,
  any, str_lower, nat_eq, string_eq,
}
use mathlib.Core.Path.{subst}
use litestar_cqrs_example.Errors.{Exc, Try, Try-cases, ok, raise}
use litestar_cqrs_example.Effects.{Eff, pure, continue}
use litestar_cqrs_example.Services.{TokenClaims, Crypto}
use litestar_cqrs_example.Jwt.{JwtImpl}
use litestar_cqrs_example.Access
use litestar_cqrs_example.Access.{
  PermissionSpec, Permission, AuthUser, Context, scalar, any_one, spec_key, update_user,
}
use litestar_cqrs_example.Access.Scopes.{RouteRule, resolve_by_user_id, item}
use litestar_cqrs_example.Access.Scopes.Laws.{resolve_by_user_id-IsOwn}
use litestar_cqrs_example.Access.Middleware.{Directory, Request, bearer_token}
use litestar_cqrs_example.Access.Middleware.Laws.{Names, Granted, Authorized}
use litestar_cqrs_example.Access.Middleware.Admission.{identified, handle-Admits}
use litestar_cqrs_example.Transaction.{Connection}
use litestar_cqrs_example.Queries
use litestar_cqrs_example.UseCases.{PasswordHasher}
use litestar_cqrs_example.Gateway.{Row, Database, eq_clauses}
use litestar_cqrs_example.Gateway.Repositories.{Dtos}
use litestar_cqrs_example.Gateway.Commands.{UserData, user_cells}
use litestar_cqrs_example.Gateway.Work.{SessionLaws}
use litestar_cqrs_example.Gateway.Tables.{StatementLaws, matches, Assigned}
use litestar_cqrs_example.Gateway.Users.{
  users, HashedAs, delete_user_command_lem, update_user_command_lem,
}
use litestar_cqrs_example.Api.{
  Params, Route, Message, command, update_user_message, delete_user_message,
}
use litestar_cqrs_example.Api.Accounts.{
  sends, by_id, validate_user_data, update_user_by_id_route, delete_user_by_id_route,
}
use litestar_cqrs_example.Api.Service.{
  Content, content, no_content, status_of, respond, admitted, sent_message, command_bus, serve,
}
use litestar_cqrs_example.Api.Sent.{Counted, sent_lem}

module _ {c : Connection} (db : Database c) (dtos : Dtos) (hasher : PasswordHasher)
    (view : c.State → Queries.Database Row)
    (granted : (user_id : String) → Eff c.State (List Access.Permission)) {D : Type 0}
    (laws : SessionLaws c D) (tables : StatementLaws db laws) (directory : D → Directory)
    (crypto : Crypto) (jwt : JwtImpl) (uuid : String → Try String) (now : ℕ) {C : Type 0}
    (increment : Eff C ℕ) where
  abbrev served : Route → Params → Request → Eff (D × C) (Content c db dtos hasher view granted)
  served route p req =
      serve c db dtos hasher view granted laws increment directory crypto jwt uuid now route p req

  abbrev responded : Route → Params → Request → Eff (D × C) (Content c db dtos hasher view granted)
  responded route p req =
      respond c db dtos hasher view granted laws increment directory crypto jwt uuid now route p req

  -- The user is a superuser, or has the permission of this key for everyone's data or for the own,
  -- which is then the row of the identifier.
  abbrev pub MayActOn : D → AuthUser → (key id : String) → Type 0
  MayActOn d user key id =
      (user.is_superuser ≡ true)
      ⊎ ((p : Permission) × ((directory d).permission user.id key ≡ ok (some p))
          × ((p.scope ≡ any_one) ⊎ (user.id ≡ id)))

  -- The request carries an access token of a user who may act on the row.
  abbrev pub Asked : D → Request → (key id : String) → Type 0
  Asked d req key id =
      (token : String) × (claims : TokenClaims) × (user : AuthUser) × (bearer_token
          (req.headers "Authorization")
        ≡ ok token)
      × (crypto.decode token jwt.public_key jwt.algorithm none none now ≡ ok claims)
      × (claims.typ ≡ "access")
      × Names (directory d) crypto jwt uuid now claims.sub user
      × MayActOn d user key id

  Granted-MayActOn :
      (d : D) (ctx : Context) (user : AuthUser) (rule : RouteRule) (id : String)
      → ((ctx : Context) (scope : Access.Scope)
          → rule.check_scope ctx scope ≡ resolve_by_user_id ctx scope)
      → item "user_id" ctx.request_path_params ≡ ok (scalar id)
      → Granted (directory d) (update_user user ctx) user rule
      → MayActOn d user (spec_key rule.permission) id
  unfolding update_user
  Granted-MayActOn d ctx user rule id by_own path (p, has, scope, fields) =
      elim ((resolve_by_user_id-IsOwn (update_user user ctx) p.scope).0
        (sym (by_own (update_user user ctx) p.scope) ∙ scope)) [
          | inl anyone ↦ inr (p, has, inl anyone)
          | inr (user', same, named) ↦
              inr (p, has, inr (ap (λ u. u.id) (some_inj same) ∙ text_of (sym named ∙ path)))
        ]
    where
      text_of : {s t : String} → ok (scalar s) ≡ ok (scalar t) → s ≡ t
      text_of h = cc h

  Authorized-MayActOn :
      (d : D) (ctx : Context) (user : AuthUser) (rule : RouteRule) (id : String)
      → ((ctx : Context) (scope : Access.Scope)
          → rule.check_scope ctx scope ≡ resolve_by_user_id ctx scope)
      → item "user_id" ctx.request_path_params ≡ ok (scalar id)
      → Authorized (directory d) (update_user user ctx) user (some rule)
      → MayActOn d user (spec_key rule.permission) id
  Authorized-MayActOn d ctx user rule id by_own path (_, inl super) = inl super
  Authorized-MayActOn d ctx user rule id by_own path (_, inr g) =
      Granted-MayActOn d ctx user rule id by_own path g

  admitted_raise :
      (route : Route) (p : Params) (d : D × C) (x : Try (Unit {0}) × Request) (e : Exc)
      → x.0 ≡ raise e
      → admitted c db dtos hasher view granted laws increment directory crypto jwt uuid now route p
          x d
        ≡ (raise e, d)
  admitted_raise route p d (ok _, _) e h = absurd (cc h)
  admitted_raise route p d (raise x, _) e h = ap (λ e. (raise e, d)) (cc h)

  -- A request is refused before its endpoint, or its endpoint responds to it.
  served_lem :
      (route : Route) (rule : RouteRule) (p : Params) (req : Request) (d : D) (cache : C)
      (id : String)
      → route.rule ≡ some rule
      → ((ctx : Context) (scope : Access.Scope)
          → rule.check_scope ctx scope ≡ resolve_by_user_id ctx scope)
      → item "user_id" req.ctx.request_path_params ≡ ok (scalar id)
      → ((e : Exc) × (served route p req (d, cache) ≡ (raise e, (d, cache))))
        ⊎ (Asked d req (spec_key rule.permission) id
            × ((req' : Request) × (served route p req (d, cache)
                  ≡ responded route p req' (d, cache))))
  unfolding serve
  served_lem route rule p req d cache id ruled by_own path =
      elim (handle-Admits (directory d) crypto jwt uuid now (pure tt)
        (record req { rule = route.rule })) [
          | inr (_, e, refused) ↦ inl (e, admitted_raise route p (d, cache) _ e refused)
          | inl (token, claims, user, (bearer, decoded, access, names, authorized), reached) ↦ inr (
            (
              token,
              claims,
              user,
              bearer,
              decoded,
              access,
              names,
              Authorized-MayActOn d req.ctx user rule id by_own path (
                  subst (Authorized (directory d) (update_user user req.ctx) user) ruled
                    authorized),
            ),
            (
              identified (record req { rule = route.rule }) claims user,
              ap
                  (λ x.
                    admitted c db dtos hasher view granted laws increment directory crypto jwt uuid
                      now route p x (d, cache))
                  reached,
            ),
          )
        ]

  -- The endpoint's message is sent.
  responded_lem :
      (route : Route) (p : Params) (req : Request) (s : D × C) (t : Try Message)
      → route.message p req.user ≡ t
      → responded route p req s
        ≡ continue t (sent_message c db dtos hasher view granted laws increment req.ctx) s
  responded_lem route p req s t e =
      ap (λ t. continue t (sent_message c db dtos hasher view granted laws increment req.ctx) s) e

  -- Whatever its body and headers, a request with an identifier in its path to delete a user
  -- deletes the row of this identifier and no other, for a superuser or a user whose permission for
  -- this is for everyone's data or whose own row it is, and counts the epoch of the cache, whose
  -- failure alone then makes the answer an error; or it is answered with an error, and the database
  -- and the cache are as they were.
  pub delete_user_by_id-own :
      (p : Params) (req : Request) (d : D) (cache : C)
      → item "user_id" req.ctx.request_path_params ≡ ok (scalar p.user_id)
      → let (answer, (after, cache')) = served delete_user_by_id_route p req (d, cache) in
        (Asked d req "users:delete:delete" p.user_id
          × Counted db dtos hasher view granted laws increment
              (content no_content)
              cache
              answer
              cache'
          × (any (matches (by_id p.user_id)) (users db dtos laws tables d) ≡ true)
          × (users db dtos laws tables after
              ≡ keep_if (λ row. not (matches (by_id p.user_id) row)) (users db dtos laws tables d)))
        ⊎ ((e : Exc) × (answer ≡ raise e) × (after ≡ d) × (cache' ≡ cache))
  unfolding command_bus spec_key eq_clauses str_lower
  delete_user_by_id-own p req d cache path =
      elim (served_lem delete_user_by_id_route _ p req d cache p.user_id refl (λ ctx scope. refl)
        path) [
          | inl (e, refused) ↦ inr (e, rw refused refl, rw refused refl, rw refused refl)
          | inr (asked, (req', responds)) ↦
              let sent =
                responds
                ∙ sent_lem db dtos hasher view granted laws increment req'.ctx
                    (delete_user_message (by_id p.user_id)) d cache in
              elim (delete_user_command_lem db dtos laws tables (by_id p.user_id) d) [
                | inl (done, some_one, left) ↦ inl (
                  asked,
                  (rw sent (rw done refl), rw sent (rw done refl)),
                  some_one,
                  rw sent (rw done left),
                )
                | inr (e, raised, same) ↦ inr (
                  e,
                  rw sent (rw raised refl),
                  rw sent (rw raised same),
                  rw sent (rw raised refl),
                )
              ]
        ]

  -- A request with an identifier in its path to update a user stores its values, which are valid,
  -- with the hash of a new password, in the row of this identifier and in no other, for a superuser
  -- or a user whose permission for this is for everyone's data or whose own row it is, and counts
  -- the epoch of the cache, whose failure alone then makes the answer an error; or it is answered
  -- with an error, and the database and the cache are as they were.
  pub update_user_by_id-own :
      (p : Params) (req : Request) (d : D) (cache : C)
      → item "user_id" req.ctx.request_path_params ≡ ok (scalar p.user_id)
      → let (answer, (after, cache')) = served update_user_by_id_route p req (d, cache) in
        (Asked d req "users:update:update" p.user_id
          × (validate_user_data p.user_data p.email_matches ≡ ok tt)
          × Counted db dtos hasher view granted laws increment
              (content (status_of true))
              cache
              answer
              cache'
          × (any (matches (by_id p.user_id)) (users db dtos laws tables d) ≡ true)
          × ((hashed : UserData) × HashedAs db dtos laws tables hasher p.user_data hashed
              × Assigned
                  (by_id p.user_id)
                  (user_cells hashed)
                  (users db dtos laws tables d)
                  (users db dtos laws tables after)))
        ⊎ ((e : Exc) × (answer ≡ raise e) × (after ≡ d) × (cache' ≡ cache))
  unfolding command_bus spec_key eq_clauses str_lower
  update_user_by_id-own p req d cache path =
      elim (served_lem update_user_by_id_route _ p req d cache p.user_id refl (λ ctx scope. refl)
        path) [
          | inl (e, refused) ↦ inr (e, rw refused refl, rw refused refl, rw refused refl)
          | inr (asked, (req', responds)) ↦
              let update = update_user_message (by_id p.user_id) p.user_data in
              elim (Try-cases (validate_user_data p.user_data p.email_matches)) [
                | inr (e, invalid) ↦
                    let end =
                      responds
                      ∙ responded_lem update_user_by_id_route p req' (d, cache) (raise e)
                          (ap (λ t. sends t (command update)) invalid) in
                    inr (e, rw end refl, rw end refl, rw end refl)
                | inl (_, valid) ↦
                    let sent =
                      responds
                      ∙ responded_lem update_user_by_id_route p req' (d, cache)
                          (ok (command update)) (ap (λ t. sends t (command update)) valid)
                      ∙ sent_lem db dtos hasher view granted laws increment req'.ctx update d
                          cache in
                    elim (update_user_command_lem db dtos laws tables hasher p.user_data
                      (by_id p.user_id) d) [
                        | inl (hashed, done, is_hashed, _, some_one, assigned) ↦ inl (
                          asked,
                          valid,
                          (rw sent (rw done refl), rw sent (rw done refl)),
                          some_one,
                          (hashed, is_hashed, rw sent (rw done assigned)),
                        )
                        | inr (e, raised, same) ↦ inr (
                          e,
                          rw sent (rw raised refl),
                          rw sent (rw raised same),
                          rw sent (rw raised refl),
                        )
                      ]
              ]
        ]
