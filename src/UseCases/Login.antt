-- ===== src/UseCases/Login.antt =====
-- Who may log in, and what a failed login leaves.
use litestar_cqrs_example.Common.{
  String, ◌≡◌, refl, sym, ap, ◌∙◌, ◌↔◌, ◌⊎◌, inl, inr, Bool, true, false, Option, none, some,
  nat_eq, string_eq, Bool-cases, some_inj, str_truthy,
}
use litestar_cqrs_example.Errors
use litestar_cqrs_example.Errors.{
  AppError, service_not_implemented_error, from_other, Exc, Try, Try-cases, ok_inj, ok, raise,
}
use litestar_cqrs_example.Effects.{lift, ◌>>=◌}
use litestar_cqrs_example.Result.{
  ResultImpl, as_result_sync, map_err, unwrap, unwrap_or_raise, app_exception,
}
use litestar_cqrs_example.Services.{RedisServer, Crypto}
use litestar_cqrs_example.Cache.{World}
use litestar_cqrs_example.Jwt.{JwtImpl, unauthorized}
use litestar_cqrs_example.Jwt.Refresh.{make_token}
use litestar_cqrs_example.Access.{AuthUser}
use litestar_cqrs_example.Access.Middleware.{UserRow, Directory, auth_user, authenticate}
use litestar_cqrs_example.UseCases.{
  Verified, answered, verification_error, broken, PasswordHasher, verify_password, accepted_with,
  accepted, kept_if, with_value, and_then_try, identify, login,
}

-- The email names a user of the database whose password's hash verifies.
abbrev pub Credentials : Directory → PasswordHasher → (email password : String) → UserRow → Type 0
Credentials db hasher email password row =
    (hashed : String) × (str_truthy email ≡ true)
    × (db.get_one (some email) none ≡ ok (some row))
    × (row.password ≡ some hashed)
    × (str_truthy hashed ≡ true)
    × (hasher.verify hashed password ≡ answered true)

kept_if-some :
    {A : Type 0} (a b : A) (t : Try Bool) → (kept_if a t ≡ ok (some b)) ↔ ((t ≡ ok true) × (a ≡ b))
kept_if-some a b (ok true) = (λ h. (refl, some_inj (ok_inj h)), λ h. ap (λ x. ok (some x)) h.1)
kept_if-some a b (ok false) = (λ h. absurd (cc h), λ h. absurd (cc h.0))
kept_if-some a b (raise e) = (λ h. absurd (cc h), λ h. absurd (cc h.0))

verified_true :
    (hasher : PasswordHasher) (hashed plain : String) (v : Verified)
    → hasher.verify hashed plain ≡ v
    → (unwrap (verify_password hasher hashed plain) ≡ ok true)
      ↔ (hasher.verify hashed plain ≡ answered true)
unfolding verify_password as_result_sync unwrap
verified_true hasher hashed plain (answered true) e = (λ _. e, λ _. rw e refl)
verified_true hasher hashed plain (answered false) e =
    (λ h. absurd (cc (rw e at h)), λ h. absurd (cc (e, h)))
verified_true hasher hashed plain verification_error e =
    (λ h. absurd (cc (rw e at h)), λ h. absurd (cc (e, h)))
verified_true hasher hashed plain (broken x) e =
    (λ h. absurd (cc (rw e at h)), λ h. absurd (cc (e, h)))

-- The password of a user, where it is the one.
abbrev Right : PasswordHasher → (plain : String) → Option String → Type 0
Right hasher plain password =
    (hashed : String) × (password ≡ some hashed)
    × (str_truthy hashed ≡ true)
    × (hasher.verify hashed plain ≡ answered true)

accepted_with-some :
    (hasher : PasswordHasher) (plain : String) (u v : AuthUser) (password : Option String)
    → (accepted_with hasher plain u password ≡ ok (some v))
      ↔ (Right hasher plain password × (u ≡ v))
accepted_with-some hasher plain u v none =
    (λ h. absurd (cc h), λ ((hashed, e, _, _), _). absurd (cc e))
accepted_with-some hasher plain u v (some hashed) = elim (Bool-cases (str_truthy hashed)) [
  | inr empty ↦ (
    λ h. absurd (cc (rw empty at h)),
    λ ((other, e, truthy, _), _). absurd (cc (some_inj e, truthy, empty)),
  )
  | inl truthy ↦
      let (to, from) = kept_if-some u v (unwrap (verify_password hasher hashed plain)) in
      let (verified_to, verified_from) = verified_true hasher hashed plain _ refl in
      (
        λ h.
            let (good, same) = to (rw truthy at h) in
            ((hashed, refl, truthy, verified_to good), same),
        λ ((other, e, _, good), same).
            rw truthy
              (from (verified_from (ap (λ s. hasher.verify s plain) (some_inj e) ∙ good), same)),
      )
]

-- The user that comes out of the chain is the one that the `lambda` gave.
with_value-ok :
    (r : ResultImpl AuthUser AppError) (t : Try (Option AuthUser)) (e : Exc) (u : AuthUser)
    → (Errors.◌>>=◌ (with_value r t) (unwrap_or_raise e) ≡ ok u) ↔ (t ≡ ok (some u))
unfolding unwrap_or_raise
with_value-ok r (ok (some v)) e u =
    (λ h. ap (λ x. ok (some x)) (ok_inj h), λ h. ap ok (some_inj (ok_inj h)))
with_value-ok r (ok none) e u = (λ h. absurd (cc h), λ h. absurd (cc h))
with_value-ok r (raise x) e u = (λ h. absurd (cc h), λ h. absurd (cc h))

module _ (db : Directory) (hasher : PasswordHasher) (email password : String) where
  -- The login's chain gives a user exactly where the email is not empty, the database has a user of
  -- this email with a password, the hasher verifies the password against it, and it is that user.
  pub identify-ok :
      (user : AuthUser)
      → (identify db hasher email password ≡ ok user)
        ↔ ((row : UserRow) × Credentials db hasher email password row × (auth_user row ≡ user))
  unfolding identify accepted and_then_try authenticate as_result_sync unwrap_or_raise
  identify-ok user = elim (Bool-cases (str_truthy email)) [
    | inr empty ↦ (
      λ h. absurd (cc (rw empty at h)),
      λ (row, (_, truthy, _, _, _, _), _). absurd (cc (truthy, empty)),
    )
    | inl truthy ↦ given truthy _ refl
  ]
    where
      given :
          str_truthy email ≡ true
          → (t : Try (Option UserRow)) → db.get_one (some email) none ≡ t
          → (identify db hasher email password ≡ ok user)
            ↔ ((row : UserRow) × Credentials db hasher email password row × (auth_user row ≡ user))
      given truthy (ok (some row)) e =
          let (to, from) =
            with_value-ok (record { value = some (auth_user row); err = none })
              (accepted_with hasher password (auth_user row) row.password)
              (unauthorized "Invalid credentials") user in
          let (accepted_to, accepted_from) =
            accepted_with-some hasher password (auth_user row) user row.password in
          (
            λ h.
                let ((hashed, has, full, good), same) = accepted_to (to (rw (truthy, e) at h)) in
                (row, (hashed, truthy, e, has, full, good), same),
            λ (other, (hashed, _, e', has, full, good), same).
                let one : row ≡ other = some_inj (ok_inj (sym e ∙ e')) in
                rw (truthy, e)
                  (from (
                    accepted_from (
                      (hashed, ap (λ x. x.password) one ∙ has, full, good),
                      ap auth_user one ∙ same,
                    ))),
          )
      given truthy (ok none) e = (
        λ h. absurd (cc (rw (truthy, e) at h)),
        λ (row, (_, _, e', _, _, _), _). absurd (cc (e, e')),
      )
      given truthy (raise x) e = (
        λ h. absurd (cc (rw (truthy, e) at h)),
        λ (row, (_, _, e', _, _, _), _). absurd (cc (e, e')),
      )

module _ (r : RedisServer) (c : Crypto) (jwt : JwtImpl) (db : Directory) (hasher : PasswordHasher)
    (email password fingerprint : String) where
  -- A login whose database session ends without an error begins a session exactly for the right
  -- credentials: for these it is the making of a token pair for that user, whose error is passed on
  -- as `ServiceNotImplementedError`; for all others it raises and leaves the cache and the drawn
  -- identifiers as they are.
  pub login-Credentials :
      (w : World r.State)
      → ((row : UserRow) × Credentials db hasher email password row
          × (login r c jwt db hasher (ok tt) email password fingerprint w
              ≡ (make_token r c jwt row.id fingerprint >>= λ made.
                    lift (unwrap (map_err (from_other service_not_implemented_error) made)))
                  w))
        ⊎ ((e : Exc) × ((row : UserRow) → ¬ Credentials db hasher email password row)
            × (login r c jwt db hasher (ok tt) email password fingerprint w ≡ (raise e, w)))
  unfolding login
  login-Credentials w = elim (Try-cases (identify db hasher email password)) [
    | inl (user, e) ↦
        let (row, given, same) = (identify-ok db hasher email password user).0 e in
        inl (row, given, rw (e, sym same) refl)
    | inr (x, e) ↦ inr (
      x,
      λ row given. absurd (cc (e, (identify-ok db hasher email password _).1 (row, given, refl))),
      rw e refl,
    )
  ]
