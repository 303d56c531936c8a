-- ===== src/Access/Scopes/Laws.antt =====
-- A permission for a user's own data lets the user's own request pass, and no other.
use litestar_cqrs_example.Common.{
  String, ◌≡◌, refl, sym, ap, ◌∙◌, ◌↔◌, ◌⊎◌, inl, inr, Bool, true, false, Option, none, some, arith,
  eq_iff, ◌==◌, beq_self, nat_eq, string_eq, Bool-cases, some_inj, str_truthy, str_lower,
}
use litestar_cqrs_example.Errors.{Try, bind-ok, ok, ◌>>=◌}
use litestar_cqrs_example.Access.{
  Scope, own, any_one, AuthUser, Value, scalar, sequence, mapping, Context,
}
use litestar_cqrs_example.Access.Fields.{raise_not_allowed}
use litestar_cqrs_example.Access.Scopes.{
  equals_text, lower, allow_or_raise, item, user_id_is, resolve_by_user_id, email_is, user_email_is,
  resolve_by_user_email,
}

-- The user's own identifier stands in the path.
abbrev pub IsOwn : Context → Type 0
IsOwn ctx =
    (user : AuthUser) × (ctx.user ≡ some user)
    × (item "user_id" ctx.request_path_params ≡ ok (scalar user.id))

-- The user's own email, lowered, is the one of the query.
abbrev pub IsOwnEmail : Context → Type 0
IsOwnEmail ctx =
    (user : AuthUser) × (email given : String) × (ctx.user ≡ some user)
    × (user.email ≡ some email)
    × (str_truthy email ≡ true)
    × (item "email" ctx.request_query_params ≡ ok (scalar given))
    × (str_lower email ≡ str_lower given)

equals_text_iff : (s : String) (v : Value) → (equals_text s v ≡ true) ↔ (v ≡ scalar s)
equals_text_iff s (scalar t) =
    (λ h. ap scalar (sym ((eq_iff s t).0 h)), λ h. ground (arith, eq_iff s t, text_of h))
  where
    text_of : {a b : String} → scalar a ≡ scalar b → a ≡ b
    text_of h = cc h
equals_text_iff s (sequence _) = (λ h. absurd (cc h), λ h. absurd (cc h))
equals_text_iff s (mapping _) = (λ h. absurd (cc h), λ h. absurd (cc h))

allow_or_raise-ok : (b : Bool) (ctx : Context) → (allow_or_raise b ctx ≡ ok tt) ↔ (b ≡ true)
unfolding raise_not_allowed
allow_or_raise-ok true ctx = (λ _. refl, λ _. refl)
allow_or_raise-ok false ctx = (λ h. absurd (cc h), λ h. absurd (cc h))

lower-ok :
    (v : Value) (s : String)
    → (lower v ≡ ok s) ↔ ((t : String) × (v ≡ scalar t) × (str_lower t ≡ s))
lower-ok (scalar t) s = (λ h. (t, refl, cc h), λ (t', e, h). cc)
lower-ok (sequence _) s = (λ h. absurd (cc h), λ (t, e, _). absurd (cc e))
lower-ok (mapping _) s = (λ h. absurd (cc h), λ (t, e, _). absurd (cc e))

user_id_is-ok :
    (u : Option AuthUser) (ctx : Context)
    → (user_id_is u ctx ≡ ok tt) ↔ (
        (user : AuthUser) × (u ≡ some user)
        × (item "user_id" ctx.request_path_params ≡ ok (scalar user.id)))
unfolding user_id_is raise_not_allowed
user_id_is-ok none ctx = (λ h. absurd (cc h), λ (user, e, _). absurd (cc e))
user_id_is-ok (some user) ctx =
    let (to, from) =
      bind-ok (item "user_id" ctx.request_path_params)
        (λ v. allow_or_raise (equals_text user.id v) ctx) tt in
    (
      λ h.
          let (v, e, allowed) = to h in
          (
            user,
            refl,
            e ∙ ap ok ((equals_text_iff user.id v).0 ((allow_or_raise-ok _ ctx).0 allowed)),
          ),
      λ (u', same, e). from (
        scalar user.id,
        e ∙ ap (λ u. ok (scalar u.id)) (sym (some_inj same)),
        (allow_or_raise-ok (user.id == user.id) ctx).1 (beq_self user.id),
      ),
    )

abbrev given_is : String → Context → Value → Try (Unit {0})
given_is email ctx v = lower v >>= λ given. allow_or_raise (str_lower email == given) ctx

email_is-ok :
    (m : Option String) (ctx : Context)
    → (email_is m ctx ≡ ok tt) ↔ (
        (email given : String) × (m ≡ some email)
        × (str_truthy email ≡ true)
        × (item "email" ctx.request_query_params ≡ ok (scalar given))
        × (str_lower email ≡ str_lower given))
unfolding email_is raise_not_allowed
email_is-ok none ctx = (λ h. absurd (cc h), λ (email, given, e, _, _, _). absurd (cc e))
email_is-ok (some email) ctx = elim (Bool-cases (str_truthy email)) [
  | inr empty ↦ (
    λ h. absurd (cc (rw empty at h)),
    λ (m, given, e, truthy, _, _). absurd (cc (ap str_truthy (some_inj e), truthy, empty)),
  )
  | inl truthy ↦
      let (to, from) = bind-ok (item "email" ctx.request_query_params) (given_is email ctx) tt in
      (
        λ h.
            let (v, e, later) = to (rw truthy at h) in
            let (s, lowered, allowed) =
              (bind-ok (lower v) (λ given. allow_or_raise (str_lower email == given) ctx) tt).0
                later in
            let (t, text, low) = (lower-ok v s).0 lowered in
            (
              email,
              t,
              refl,
              truthy,
              e ∙ ap ok text,
              (eq_iff (str_lower email) s).0 ((allow_or_raise-ok _ ctx).0 allowed) ∙ sym low,
            ),
        λ (m, given, e, _, found, same). rw truthy (
            from (
              scalar given,
              found,
              (allow_or_raise-ok _ ctx).1 (
                  (eq_iff (str_lower email) (str_lower given)).1
                    (ap str_lower (some_inj e) ∙ same)),
            )),
      )
]

-- `resolve_by_user_id` lets a request pass exactly where the permission is for anyone's data or the
-- request's user is known and the path names that user.
pub resolve_by_user_id-IsOwn :
    (ctx : Context) (scope : Scope)
    → (resolve_by_user_id ctx scope ≡ ok tt) ↔ ((scope ≡ any_one) ⊎ IsOwn ctx)
unfolding resolve_by_user_id
resolve_by_user_id-IsOwn ctx any_one = (λ _. inl refl, λ _. refl)
resolve_by_user_id-IsOwn ctx own =
    let (to, from) = user_id_is-ok ctx.user ctx in
    (λ h. inr (to h), λ h. elim h [ inl e ↦ absurd (cc e) | inr o ↦ from o ])

user_email_is-ok :
    (u : Option AuthUser) (ctx : Context)
    → (user_email_is u ctx ≡ ok tt) ↔ (
        (user : AuthUser) × (email given : String) × (u ≡ some user)
        × (user.email ≡ some email)
        × (str_truthy email ≡ true)
        × (item "email" ctx.request_query_params ≡ ok (scalar given))
        × (str_lower email ≡ str_lower given))
unfolding user_email_is raise_not_allowed
user_email_is-ok none ctx = (λ h. absurd (cc h), λ (user, _, _, e, _, _, _, _). absurd (cc e))
user_email_is-ok (some user) ctx =
    let (to, from) = email_is-ok user.email ctx in
    (
      λ h. let (email, given, m, h1, h2, h3) = to h in (user, email, given, refl, m, h1, h2, h3),
      λ (user', email, given, e, m, h1, h2, h3).
          from (email, given, ap (λ u. u.email) (some_inj e) ∙ m, h1, h2, h3),
    )

-- `resolve_by_user_email` lets a request pass exactly where the permission is for anyone's data or
-- the query's email is, but for the case of letters, the one of the request's user.
pub resolve_by_user_email-IsOwnEmail :
    (ctx : Context) (scope : Scope)
    → (resolve_by_user_email ctx scope ≡ ok tt) ↔ ((scope ≡ any_one) ⊎ IsOwnEmail ctx)
unfolding resolve_by_user_email user_email_is raise_not_allowed
resolve_by_user_email-IsOwnEmail ctx any_one = (λ _. inl refl, λ _. refl)
resolve_by_user_email-IsOwnEmail ctx own =
    let (to, from) = user_email_is-ok ctx.user ctx in
    (λ h. inr (to h), λ h. elim h [ inl e ↦ absurd (cc e) | inr o ↦ from o ])
