-- ===== src/Access/Middleware/Laws.antt =====
-- A request reaches its handler exactly where it is admitted.
use litestar_cqrs_example.Common.{
  ℕ, String, ◌≡◌, refl, sym, ap, ◌∙◌, ◌↔◌, ◌⊎◌, inl, inr, Bool, true, false, Option, none, some,
  eq_iff, if◌then◌else◌, ◌==◌, nat_eq, string_eq, Bool-cases, some_inj, is_empty, str_truthy,
}
use litestar_cqrs_example.Errors.{Exc, Try, ok_inj, bind-ok, ok, raise, require}
use litestar_cqrs_example.Result.{as_result_sync, unwrap, unwrap_or_raise, is_err, app_exception}
use litestar_cqrs_example.Result.Laws.{unwrap_or_raise-and_then}
use litestar_cqrs_example.Services.{TokenClaims, Crypto}
use litestar_cqrs_example.Jwt.{JwtImpl, unauthorized, returned}
use litestar_cqrs_example.Jwt.Refresh.{with_typ}
use litestar_cqrs_example.Access.{Permission, AuthUser, Context, spec_key}
use litestar_cqrs_example.Access.Scopes.{RouteRule}
use litestar_cqrs_example.Access.Middleware.{
  UserRow, Directory, auth_user, authenticate, ensure_permissions, authorize, access_claims,
  user_of,
}

-- The permission that the database gives a user for a rule, and that lets the request pass.
abbrev pub Granted : Directory → Context → AuthUser → RouteRule → Type 0
Granted db ctx user rule =
    (p : Permission) × (db.permission user.id (spec_key rule.permission) ≡ ok (some p))
    × (rule.check_scope ctx p.scope ≡ ok tt)
    × (rule.check_fields p ctx ≡ ok tt)

-- A user with a role who is a superuser, or whose route has no rule, or whose permission is granted.
abbrev pub Authorized : Directory → Context → AuthUser → Option RouteRule → Type 0
Authorized db ctx user none = is_empty user.roles ≡ false
Authorized db ctx user (some rule) =
    (is_empty user.roles ≡ false) × ((user.is_superuser ≡ true) ⊎ Granted db ctx user rule)

require-ok : (b : Bool) (e : Exc) → (require b e ≡ ok tt) ↔ (b ≡ true)
require-ok true e = (λ _. refl, λ _. refl)
require-ok false e = (λ h. absurd (cc h), λ h. absurd (cc h))

module _ (db : Directory) (ctx : Context) (user : AuthUser) (rule : RouteRule) where
  ensure_permissions-Granted :
      (t : Try (Option Permission))
      → db.permission user.id (spec_key rule.permission) ≡ t
      → (ensure_permissions db ctx user rule ≡ ok tt) ↔ Granted db ctx user rule
  unfolding ensure_permissions as_result_sync unwrap is_err
  ensure_permissions-Granted (ok none) e =
      (λ h. absurd (cc (rw e at h)), λ (p, e', _, _). absurd (cc (e, e')))
  ensure_permissions-Granted (raise x) e =
      (λ h. absurd (cc (rw e at h)), λ (p, e', _, _). absurd (cc (e, e')))
  ensure_permissions-Granted (ok (some p)) e =
      let (to, from) = bind-ok (rule.check_scope ctx p.scope) (λ _. rule.check_fields p ctx) tt in
      (
        λ h. let (_, scope, fields) = to (rw e at h) in (p, e, scope, fields),
        λ (p', e', scope, fields). rw e (from (tt, rw (given e e') scope, rw (given e e') fields)),
      )
    where
      given :
          {p p' : Permission}
          → db.permission user.id (spec_key rule.permission) ≡ ok (some p)
          → db.permission user.id (spec_key rule.permission) ≡ ok (some p')
          → p ≡ p'
      given e e' = cc (e, e')

plain : (b : Bool) → (if b then ok tt else ok tt) ≡ ok (tt {0})
plain true = refl
plain false = refl

module _ (db : Directory) (ctx : Context) (user : AuthUser) where
  pub authorize-Authorized :
      (rule : Option RouteRule) → (authorize db user rule ctx ≡ ok tt) ↔ Authorized db ctx user rule
  unfolding authorize ensure_permissions
  authorize-Authorized none = elim (Bool-cases (is_empty user.roles)) [
    | inl empty ↦ (λ h. absurd (cc (rw empty at h)), λ h. absurd (cc (empty, h)))
    | inr some_role ↦ (λ _. some_role, λ _. rw (some_role, authorize) (plain user.is_superuser))
  ]
  authorize-Authorized (some rule) = elim (Bool-cases (is_empty user.roles)) [
    | inl empty ↦ (λ h. absurd (cc (rw empty at h)), λ h. absurd (cc (empty, h.0)))
    | inr some_role ↦ elim (Bool-cases user.is_superuser) [
      | inl super ↦ (λ _. (some_role, inl super), λ _. rw (some_role, super) refl)
      | inr no_super ↦
          let (to, from) = ensure_permissions-Granted db ctx user rule _ refl in
          (
            λ h. (some_role, inr (to (rw (some_role, no_super) at h))),
            λ h. rw (some_role, no_super) (from (granted no_super h.1)),
          )
    ]
  ]
    where
      granted :
          user.is_superuser ≡ false
          → (user.is_superuser ≡ true) ⊎ Granted db ctx user rule
          → Granted db ctx user rule
      granted no_super (inl super) = absurd (cc (no_super, super))
      granted no_super (inr g) = g

with_typ-some :
    (typ : String) (d claims : TokenClaims)
    → (with_typ typ d ≡ some claims) ↔ ((d ≡ claims) × (d.typ ≡ typ))
with_typ-some typ d claims = elim (Bool-cases (d.typ == typ)) [
  | inl same ↦
      (λ h. (some_inj (rw same at h), (eq_iff d.typ typ).0 same), λ h. rw same (ap some h.0))
  | inr other ↦
      (λ h. absurd (cc (rw other at h)), λ h. absurd (cc (other, (eq_iff d.typ typ).1 h.1)))
]

returned-ok {ℓ} :
    {A : Type ℓ} (c : Crypto) (t : Try A) (a : A) → (returned c t ≡ ok (some a)) ↔ (t ≡ ok a)
returned-ok c (ok b) a = (λ h. ap ok (some_inj (ok_inj h)), λ h. ap (λ x. ok (some x)) (ok_inj h))
returned-ok c (raise x) a = (λ h. absurd (cc h), λ h. absurd (cc h))

module _ (db : Directory) (c : Crypto) (jwt : JwtImpl) (uuid : String → Try String) (now : ℕ) where
  pub access_claims-ok :
      (token : String) (claims : TokenClaims)
      → (access_claims db c jwt uuid now token ≡ ok claims) ↔ (
          (c.decode token jwt.public_key jwt.algorithm none none now ≡ ok claims)
          × (claims.typ ≡ "access"))
  unfolding access_claims
  access_claims-ok token claims =
      let decoded = c.decode token jwt.public_key jwt.algorithm none none now in
      let (to, from) =
        unwrap_or_raise-and_then (returned c decoded) (with_typ "access")
          (unauthorized "Token is invalid or expired") claims in
      (
        λ h.
            let (d, e, kept) = to h in
            let (same, typ) = (with_typ-some "access" d claims).0 kept in
            ((returned-ok c decoded d).0 e ∙ ap ok same, sym (ap (λ x. x.typ) same) ∙ typ),
        λ h. from (
          claims,
          (returned-ok c decoded claims).1 h.0,
          (with_typ-some "access" claims claims).1 (refl, h.1),
        ),
      )

  -- The user that a token's subject names.
  abbrev pub Names : (sub : String) → AuthUser → Type 0
  Names sub user =
      (id : String) × (row : UserRow) × (uuid sub ≡ ok id)
      × (str_truthy id ≡ true)
      × (db.get_one none (some id) ≡ ok (some row))
      × (auth_user row ≡ user)

  -- What the database gave for an identifier.
  authenticate-ok :
      (id : String) (user : AuthUser) (t : Try (Option UserRow))
      → db.get_one none (some id) ≡ t
      → (unwrap_or_raise (unauthorized "Unauthorized") (authenticate db none (some id)) ≡ ok user)
        ↔ ((row : UserRow) × (str_truthy id ≡ true)
            × (db.get_one none (some id) ≡ ok (some row))
            × (auth_user row ≡ user))
  unfolding authenticate as_result_sync unwrap_or_raise
  authenticate-ok id user t e = elim (Bool-cases (str_truthy id)) [
    | inr empty ↦
        (λ h. absurd (cc (rw empty at h)), λ (row, truthy, _, _). absurd (cc (truthy, empty)))
    | inl truthy ↦ given truthy t e
  ]
    where
      given :
          str_truthy id ≡ true
          → (t : Try (Option UserRow)) → db.get_one none (some id) ≡ t
          → (unwrap_or_raise (unauthorized "Unauthorized") (authenticate db none (some id))
              ≡ ok user)
            ↔ ((row : UserRow) × (str_truthy id ≡ true)
                × (db.get_one none (some id) ≡ ok (some row))
                × (auth_user row ≡ user))
      given truthy (ok (some row)) e = (
        λ h. (row, truthy, e, ok_inj (rw (truthy, e) at h)),
        λ (row', _, e', same).
            rw (truthy, e) (ap ok (ap auth_user (some_inj (ok_inj (sym e ∙ e'))) ∙ same)),
      )
      given truthy (ok none) e =
          (λ h. absurd (cc (rw (truthy, e) at h)), λ (row', _, e', same). absurd (cc (e, e')))
      given truthy (raise x) e =
          (λ h. absurd (cc (rw (truthy, e) at h)), λ (row', _, e', same). absurd (cc (e, e')))

  pub user_of-Names :
      (sub : String) (user : AuthUser) → (user_of db c jwt uuid now sub ≡ ok user) ↔ Names sub user
  unfolding user_of
  user_of-Names sub user =
      let (to, from) =
        bind-ok (uuid sub)
          (λ id. unwrap_or_raise (unauthorized "Unauthorized") (authenticate db none (some id)))
          user in
      (
        λ h.
            let (id, parsed, found_user) = to h in
            let (row, truthy, e, same) = (authenticate-ok id user _ refl).0 found_user in
            (id, row, parsed, truthy, e, same),
        λ (id, row, parsed, truthy, e, same).
            from (id, parsed, (authenticate-ok id user _ refl).1 (row, truthy, e, same)),
      )
