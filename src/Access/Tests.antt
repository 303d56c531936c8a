-- ===== src/Access/Tests.antt =====
-- Requests of a user with the role of an editor, and the theorems at them.
use litestar_cqrs_example.Common.{
  ◌≤◌, ◌<◌, String, ◌≡◌, refl, ◌↔◌, ◌⊎◌, false, none, some, List, [], ◌∷◌, if◌then◌else◌, ◌==◌,
  nat_eq, string_eq, All, contains, str_lower, partition_space,
}
use litestar_cqrs_example.Errors.{Exc, ok, raise}
use litestar_cqrs_example.Effects.{Eff}
use litestar_cqrs_example.Result.{as_result_sync, and_then, unwrap, unwrap_or_raise, is_err}
use litestar_cqrs_example.Services.{TokenClaims, Crypto}
use litestar_cqrs_example.Services.Sample.{sample_claims, sample_crypto}
use litestar_cqrs_example.Jwt.{JwtImpl, verify}
use litestar_cqrs_example.Access.{
  Scope, own, any_one, update, json, PermissionSpec, Permission, spec_key, AuthUser, Value, scalar,
  sequence, mapping, no_values, value, no_entries, entry, Context, update_user, is_container,
}
use litestar_cqrs_example.Access.Keys.{
  collect_keys, loop, size, push, push_values, push_entries, keys_of, request_json_keys,
}
use litestar_cqrs_example.Access.Keys.Pushes.{levels, occurs}
use litestar_cqrs_example.Access.Keys.Correct.{depth_error, collect_keys_lem}
use litestar_cqrs_example.Access.Fields.{
  raise_fields_not_allowed, source_keys, check_all, resolve_keys_allowed_denylist,
  resolve_keys_allowed_mixed,
}
use litestar_cqrs_example.Access.Fields.Laws.{
  Permitted, passes_deny, passes_allow, denylist-Permitted, mixed-Permitted,
}
use litestar_cqrs_example.Access.Scopes.{item, resolve_by_user_id, resolve_by_user_email}
use litestar_cqrs_example.Access.Scopes.Laws.{IsOwnEmail, resolve_by_user_email-IsOwnEmail}
use litestar_cqrs_example.Access.Middleware.{
  Directory, UserRow, Request, authenticate, ensure_permissions, authorize, access_claims, user_of,
  bearer_token, handle,
}
use litestar_cqrs_example.Access.Middleware.Admission.{Reaches, Refused, handle-Admits}

-- `{"email": …, "profile": {"tags": [{"is_superuser": …}]}}`
abbrev body : Value
body = mapping (
    entry "email" (scalar "a@b.c") (
      entry "profile"
        (mapping (
          entry "tags"
            (sequence (value (mapping (entry "is_superuser" (scalar "true") no_entries)) no_values))
            no_entries))
        no_entries))

abbrev editor : AuthUser
editor = record {
  id = "u1";
  is_superuser = false;
  email = some "A@b.c";
  password = none;
  roles = "editor" ∷ [];
}

abbrev asked : Context
asked = record {
  user = some editor;
  request_id = some "r1";
  request_method = some "PATCH";
  request_path = some "/users/u1";
  request_path_params = entry "user_id" (scalar "u1") no_entries;
  request_query_params = entry "email" (scalar "a@B.c") no_entries;
  request_json_params = body;
  request_url = none;
}

abbrev users_update : PermissionSpec
users_update = record {
  resource = "users";
  action = update;
  operation = "update";
  description = none;
  fields = [];
}

abbrev granted : Scope → Permission
granted scope = record {
  resource = "users";
  action = update;
  operation = "update";
  scope = scope;
  description = none;
  deny_fields = (json, "is_superuser" ∷ []) ∷ [];
  allow_fields = [];
}

collected :
    (collect_keys (some 15) body ≡ ok ("is_superuser" ∷ "tags" ∷ "email" ∷ "profile" ∷ []))
    × (collect_keys (some 1) body ≡ depth_error)
unfolding collect_keys loop push push_values push_entries keys_of size is_container
collected = (refl, refl)

collect_keys_lem_example :
    ((ks : List String) × (collect_keys (some 15) body ≡ ok ks)
      × (levels body ≤ 16)
      × ((k : String) → contains ks k ≡ occurs k body))
    ⊎ ((16 < levels body) × (collect_keys (some 15) body ≡ depth_error))
collect_keys_lem_example = collect_keys_lem 15 body

denylist-Permitted_example :
    (resolve_keys_allowed_denylist (granted own) asked ≡ ok tt)
    ↔ All (Permitted passes_deny asked) (granted own).deny_fields
denylist-Permitted_example = denylist-Permitted (granted own) asked

mixed-Permitted_example : (resolve_keys_allowed_mixed (granted own) asked ≡ ok tt) ↔ (
    All (Permitted passes_deny asked) (granted own).deny_fields
    × All (Permitted passes_allow asked) (granted own).allow_fields)
mixed-Permitted_example = mixed-Permitted (granted own) asked

resolve_by_user_email-IsOwnEmail_example :
    (resolve_by_user_email asked own ≡ ok tt) ↔ ((own ≡ any_one) ⊎ IsOwnEmail asked)
resolve_by_user_email-IsOwnEmail_example = resolve_by_user_email-IsOwnEmail asked own

abbrev access_claims_of_u1 : TokenClaims
access_claims_of_u1 = record sample_claims { typ = "access" }

abbrev crypto : Crypto
crypto = record sample_crypto { decode = λ _ _ _ _ _ _. ok access_claims_of_u1 }

abbrev jwt : JwtImpl
jwt = record {
  algorithm = "HS256";
  public_key = "p";
  secret_key = "s";
  access_expires = 60;
  refresh_expires = 100;
}

abbrev editor_row : UserRow
editor_row = record {
  id = "u1";
  email = some "A@b.c";
  password = none;
  roles = (record { name = "editor"; is_superuser = false }) ∷ [];
}

abbrev directory : Directory
directory = record {
  get_one = λ _ _. ok (some editor_row);
  permission = λ _ key. ok (if key == "users:update:update" then some (granted own) else none);
}

abbrev patch_with : Value → Request
patch_with json_params = record {
  headers = λ name. if name == "Authorization" then some "Bearer t0" else none;
  rule = some (record {
    permission = users_update;
    check_fields = resolve_keys_allowed_denylist;
    check_scope = resolve_by_user_id;
  });
  auth = none;
  user = none;
  ctx = record asked { user = none; request_json_params = json_params };
}

abbrev answer : Eff Request String
answer req = (ok "done", req)

-- The editor's own name may change, but not the flag of a superuser.
patched :
    ((handle directory crypto jwt ok 1 answer
        (patch_with (mapping (entry "name" (scalar "n") no_entries)))).0
      ≡ ok "done")
    × ((e : Exc) × ((handle directory crypto jwt ok 1 answer (patch_with body)).0 ≡ raise e))
unfolding handle bearer_token partition_space str_lower authorize access_claims user_of authenticate
    ensure_permissions as_result_sync spec_key unwrap unwrap_or_raise and_then is_err
    resolve_by_user_id item resolve_keys_allowed_denylist check_all source_keys request_json_keys
    collect_keys loop push push_values push_entries keys_of size is_container verify update_user
    raise_fields_not_allowed
patched = (refl, (_, refl))

handle-Admits_example :
    Reaches directory crypto jwt ok 1 answer (patch_with body)
    ⊎ Refused directory crypto jwt ok 1 answer (patch_with body)
handle-Admits_example = handle-Admits directory crypto jwt ok 1 answer (patch_with body)
