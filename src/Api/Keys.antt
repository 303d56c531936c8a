-- ===== src/Api/Keys.antt =====
-- The endpoints of the private controllers (src/backend/http/v1/controllers/private), and the keys of
-- the permissions that their rules ask for.
use litestar_cqrs_example.Common.{
  String, ◌≡◌, sym, ap, ◌∙◌, Option, none, some, some_inj, ◌==◌, if◌then◌else◌, str_lower, nat_eq,
  string_eq,
}
use litestar_cqrs_example.Access.{spec_key}
use litestar_cqrs_example.Api.{Route}
use litestar_cqrs_example.Api.Rbac.{
  create_role_route, get_roles_route, get_user_roles_route, get_user_permissions_route,
  get_role_users_route, list_permissions_route, update_role_route, update_role_permission_route,
  set_role_route, grant_permission_route, grant_permission_field_route, grant_role_permission_route,
  delete_role_route, revoke_permission_route, revoke_permission_field_route,
}
use litestar_cqrs_example.Api.Accounts.{
  get_one_user_route, get_user_me_route, get_many_by_offset_route, update_user_by_id_route,
  delete_user_by_id_route,
}

-- The endpoints that the controllers register.
pub data Endpoint : Type 0 where
  create_role_endpoint : Endpoint
  get_roles_endpoint : Endpoint
  get_user_roles_endpoint : Endpoint
  get_user_permissions_endpoint : Endpoint
  get_role_users_endpoint : Endpoint
  list_permissions_endpoint : Endpoint
  update_role_endpoint : Endpoint
  update_role_permission_endpoint : Endpoint
  set_role_endpoint : Endpoint
  grant_permission_endpoint : Endpoint
  grant_permission_field_endpoint : Endpoint
  grant_role_permission_endpoint : Endpoint
  delete_role_endpoint : Endpoint
  revoke_permission_endpoint : Endpoint
  revoke_permission_field_endpoint : Endpoint
  get_one_user_endpoint : Endpoint
  get_user_me_endpoint : Endpoint
  get_many_by_offset_endpoint : Endpoint
  update_user_by_id_endpoint : Endpoint
  delete_user_by_id_endpoint : Endpoint

unfoldable pub route : Endpoint → Route
unfolding get_many_by_offset_route
route create_role_endpoint = create_role_route
route get_roles_endpoint = get_roles_route
route get_user_roles_endpoint = get_user_roles_route
route get_user_permissions_endpoint = get_user_permissions_route
route get_role_users_endpoint = get_role_users_route
route list_permissions_endpoint = list_permissions_route
route update_role_endpoint = update_role_route
route update_role_permission_endpoint = update_role_permission_route
route set_role_endpoint = set_role_route
route grant_permission_endpoint = grant_permission_route
route grant_permission_field_endpoint = grant_permission_field_route
route grant_role_permission_endpoint = grant_role_permission_route
route delete_role_endpoint = delete_role_route
route revoke_permission_endpoint = revoke_permission_route
route revoke_permission_field_endpoint = revoke_permission_field_route
route get_one_user_endpoint = get_one_user_route
route get_user_me_endpoint = get_user_me_route
route get_many_by_offset_endpoint = get_many_by_offset_route
route update_user_by_id_endpoint = update_user_by_id_route
route delete_user_by_id_endpoint = delete_user_by_id_route

-- The key of the permission that an endpoint asks for
unfoldable pub key_of : Endpoint → Option String
unfolding route spec_key
key_of endpoint = elim (route endpoint).rule [
  | none ↦ none
  | some rule ↦ some (spec_key rule.permission)
]

-- The endpoint that asks for a key.
endpoint_of : String → Endpoint
endpoint_of key =
    if key == "rbac:create:create-role"
    then create_role_endpoint
    else if key == "rbac:read:get-roles"
    then get_roles_endpoint
    else if key == "rbac:read:get-user-roles"
    then get_user_roles_endpoint
    else if key == "rbac:read:get-user-permissions"
    then get_user_permissions_endpoint
    else if key == "rbac:read:get-role-users"
    then get_role_users_endpoint
    else if key == "rbac:read:list-permissions"
    then list_permissions_endpoint
    else if key == "rbac:update:update-role"
    then update_role_endpoint
    else if key == "rbac:update:update-role-permission"
    then update_role_permission_endpoint
    else if key == "rbac:create:set-role"
    then set_role_endpoint
    else if key == "rbac:create:grant-permission"
    then grant_permission_endpoint
    else if key == "rbac:create:grant-permission-field"
    then grant_permission_field_endpoint
    else if key == "rbac:create:grant-role-permission"
    then grant_role_permission_endpoint
    else if key == "rbac:delete:unset-role"
    then delete_role_endpoint
    else if key == "rbac:delete:revoke-permission"
    then revoke_permission_endpoint
    else if key == "rbac:delete:revoke-permission-field"
    then revoke_permission_field_endpoint
    else if key == "users:read:detail"
    then get_one_user_endpoint
    else if key == "users:read:list"
    then get_many_by_offset_endpoint
    else if key == "users:update:update"
    then update_user_by_id_endpoint
    else delete_user_by_id_endpoint

endpoint_of-key :
    (endpoint : Endpoint) (key : String) → key_of endpoint ≡ some key → endpoint_of key ≡ endpoint
unfolding key_of route spec_key get_many_by_offset_route endpoint_of str_lower
endpoint_of-key create_role_endpoint key h = ap endpoint_of (sym (some_inj h))
endpoint_of-key get_roles_endpoint key h = ap endpoint_of (sym (some_inj h))
endpoint_of-key get_user_roles_endpoint key h = ap endpoint_of (sym (some_inj h))
endpoint_of-key get_user_permissions_endpoint key h = ap endpoint_of (sym (some_inj h))
endpoint_of-key get_role_users_endpoint key h = ap endpoint_of (sym (some_inj h))
endpoint_of-key list_permissions_endpoint key h = ap endpoint_of (sym (some_inj h))
endpoint_of-key update_role_endpoint key h = ap endpoint_of (sym (some_inj h))
endpoint_of-key update_role_permission_endpoint key h = ap endpoint_of (sym (some_inj h))
endpoint_of-key set_role_endpoint key h = ap endpoint_of (sym (some_inj h))
endpoint_of-key grant_permission_endpoint key h = ap endpoint_of (sym (some_inj h))
endpoint_of-key grant_permission_field_endpoint key h = ap endpoint_of (sym (some_inj h))
endpoint_of-key grant_role_permission_endpoint key h = ap endpoint_of (sym (some_inj h))
endpoint_of-key delete_role_endpoint key h = ap endpoint_of (sym (some_inj h))
endpoint_of-key revoke_permission_endpoint key h = ap endpoint_of (sym (some_inj h))
endpoint_of-key revoke_permission_field_endpoint key h = ap endpoint_of (sym (some_inj h))
endpoint_of-key get_one_user_endpoint key h = ap endpoint_of (sym (some_inj h))
endpoint_of-key get_user_me_endpoint key h = absurd (cc h)
endpoint_of-key get_many_by_offset_endpoint key h = ap endpoint_of (sym (some_inj h))
endpoint_of-key update_user_by_id_endpoint key h = ap endpoint_of (sym (some_inj h))
endpoint_of-key delete_user_by_id_endpoint key h = ap endpoint_of (sym (some_inj h))

-- A permission is for one endpoint: two endpoints that ask for permissions with the same key are the
-- same endpoint.
pub key_of_injective :
    (endpoint other : Endpoint) (key : String)
    → key_of endpoint ≡ some key
    → key_of other ≡ some key
    → endpoint ≡ other
key_of_injective endpoint other key h h' =
    sym (endpoint_of-key endpoint key h) ∙ endpoint_of-key other key h'
