-- ===== src/Access/Scopes.antt =====
-- src/backend/http/common/tools/resolvers/user.py and src/backend/http/common/tools/route_rule.py:
-- whose data a permission is for, and the rule of a route.
use litestar_cqrs_example.Common.{
  String, Bool, true, false, Option, none, some, [], ◌∷◌, if◌then◌else◌, ◌==◌, nat_eq, string_eq,
  str_truthy, str_lower,
}
use litestar_cqrs_example.Errors.{py, key_error, attribute_error, Try, ok, raise, ◌>>=◌}
use litestar_cqrs_example.Access.{
  Scope, own, any_one, PermissionSpec, Permission, AuthUser, Value, scalar, sequence, mapping,
  Entries, no_entries, entry, Context,
}
use litestar_cqrs_example.Access.Fields.{raise_not_allowed}
pub mod Laws

-- `params[key]`
unfoldable pub item : String → Entries → Try Value
item key no_entries = raise (py key_error (key ∷ []))
item key (entry k v es) = let later = item key es in if k == key then ok v else later

-- `value == text` and `value.lower()`, where a parameter is a text unless it is a container. An
-- identifier in the path has its `hex` as text.
abbrev pub equals_text : String → Value → Bool
equals_text s (scalar t) = s == t
equals_text s (sequence _) = false
equals_text s (mapping _) = false

abbrev pub lower : Value → Try String
lower (scalar t) = ok (str_lower t)
lower (sequence _) = raise (py attribute_error ("lower" ∷ []))
lower (mapping _) = raise (py attribute_error ("lower" ∷ []))

abbrev pub allow_or_raise : Bool → Context → Try (Unit {0})
allow_or_raise true ctx = ok tt
allow_or_raise false ctx = raise_not_allowed ctx

-- The tests that a user's own data asks for.
unfoldable pub user_id_is : Option AuthUser → Context → Try (Unit {0})
unfolding raise_not_allowed
user_id_is none ctx = raise_not_allowed ctx
user_id_is (some user) ctx = do
  user_id ← item "user_id" ctx.request_path_params
  allow_or_raise (equals_text user.id user_id) ctx

unfoldable pub resolve_by_user_id : Context → Scope → Try (Unit {0})
unfolding user_id_is
resolve_by_user_id ctx own = user_id_is ctx.user ctx
resolve_by_user_id ctx any_one = ok tt

unfoldable pub email_is : Option String → Context → Try (Unit {0})
unfolding raise_not_allowed
email_is none ctx = raise_not_allowed ctx
email_is (some email) ctx =
    if str_truthy email
    then (item "email" ctx.request_query_params >>= λ v.
        lower v >>= λ given. allow_or_raise (str_lower email == given) ctx)
    else raise_not_allowed ctx

unfoldable pub user_email_is : Option AuthUser → Context → Try (Unit {0})
unfolding email_is raise_not_allowed
user_email_is none ctx = raise_not_allowed ctx
user_email_is (some user) ctx = email_is user.email ctx

unfoldable pub resolve_by_user_email : Context → Scope → Try (Unit {0})
unfolding user_email_is
resolve_by_user_email ctx own = user_email_is ctx.user ctx
resolve_by_user_email ctx any_one = ok tt

-- The manager that `check_scope` takes is left out: none of the program's resolvers uses it.
pub record RouteRule : Type 0 where
  pub permission : PermissionSpec
  pub check_fields : Permission → Context → Try (Unit {0})
  pub check_scope : Context → Scope → Try (Unit {0})

-- The fields' defaults.
abbrev pub allow_all : Permission → Context → Try (Unit {0})
allow_all p ctx = ok tt

abbrev pub default_resolve_scope : Context → Scope → Try (Unit {0})
default_resolve_scope ctx scope = ok tt
