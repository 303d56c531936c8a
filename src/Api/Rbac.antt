-- ===== src/Api/Rbac.antt =====
-- src/backend/http/v1/controllers/private/rbac.py: the endpoints of `RbacController`, whose path is
-- /rbac, with the keys of src/backend/app/contracts/types/rbac.py that their rules name.
use litestar_cqrs_example.Common.{String, some, List, [], ◌∷◌, nat_eq, string_eq}
use litestar_cqrs_example.Errors.{ok}
use litestar_cqrs_example.Access
use litestar_cqrs_example.Access.{Action, FieldSets, PermissionSpec}
use litestar_cqrs_example.Gateway.{text, Cells}
use litestar_cqrs_example.Api.{
  command, ask, create_role_message, grant_permission_message, grant_permission_field_message,
  grant_role_permission_message, set_role_message, unset_role_message, revoke_permission_message,
  revoke_permission_field_message, update_role_message, update_permission_field_message,
  get_all_roles_message, get_all_permissions_message, get_user_roles_message,
  get_user_permissions_message, get_role_users_message, get, post, patch, delete, Params, Route,
  json_fields, plain_rule, checked_rule,
}

-- `get_keys_from_type` of the typed dictionaries
abbrev create_role_keys : List String
create_role_keys = "name" ∷ "level" ∷ "is_superuser" ∷ []

abbrev update_role_keys : List String
update_role_keys = "name" ∷ "level" ∷ "is_superuser" ∷ []

abbrev update_role_permission_field_keys : List String
update_role_permission_field_keys = "effect" ∷ []

abbrev grant_role_permission_keys : List String
grant_role_permission_keys = "role_id" ∷ "permission_id" ∷ "scope" ∷ []

abbrev grant_role_permission_field_keys : List String
grant_role_permission_field_keys = "role_id" ∷ "permission_id" ∷ "field_id" ∷ "effect" ∷ []

-- `RoleUserData`, `RevokeRolePermissionData`, and the three identifiers of a field of a permission
abbrev role_user_cells : Params → Cells
role_user_cells p = ("role_id", text p.role_id) ∷ ("user_id", text p.user_id) ∷ []

abbrev role_permission_cells : Params → Cells
role_permission_cells p = ("role_id", text p.role_id) ∷ ("permission_id", text p.permission_id) ∷ []

abbrev field_cells : Params → Cells
field_cells p =
    ("role_id", text p.role_id)
    ∷ ("permission_id", text p.permission_id)
    ∷ ("field_id", text p.field_id)
    ∷ []

abbrev rbac_spec : Action → (operation description : String) → FieldSets → PermissionSpec
rbac_spec action operation description fields = record {
  resource = "rbac";
  action = action;
  operation = operation;
  description = some description;
  fields = fields;
}

abbrev pub create_role_route : Route
create_role_route = record {
  method = post;
  path = "/roles";
  status_code = 201;
  rule = some (
      checked_rule
        (rbac_spec Access.create "create-role" "Create a new role" (json_fields create_role_keys)));
  message = λ p _. ok (command (create_role_message p.body));
}

abbrev pub get_roles_route : Route
get_roles_route = record {
  method = get;
  path = "/roles";
  status_code = 200;
  rule = some (plain_rule (rbac_spec Access.read "get-roles" "Get all roles" []));
  message = λ _ _. ok (ask get_all_roles_message);
}

abbrev pub get_user_roles_route : Route
get_user_roles_route = record {
  method = get;
  path = "/users/{user_id:uuid}/roles";
  status_code = 200;
  rule = some (plain_rule (rbac_spec Access.read "get-user-roles" "Get a user roles" []));
  message = λ p _. ok (ask (get_user_roles_message p.user_id));
}

abbrev pub get_user_permissions_route : Route
get_user_permissions_route = record {
  method = get;
  path = "/users/{user_id:uuid}/permissions";
  status_code = 200;
  rule =
      some (plain_rule (rbac_spec Access.read "get-user-permissions" "Get a user permissions" []));
  message = λ p _. ok (ask (get_user_permissions_message p.user_id));
}

abbrev pub get_role_users_route : Route
get_role_users_route = record {
  method = get;
  path = "/roles/{role_id:uuid}/users";
  status_code = 200;
  rule = some (plain_rule (rbac_spec Access.read "get-role-users" "Get a role users" []));
  message = λ p _. ok (ask (get_role_users_message p.role_id));
}

abbrev pub list_permissions_route : Route
list_permissions_route = record {
  method = get;
  path = "/permissions";
  status_code = 200;
  rule = some (plain_rule (rbac_spec Access.read "list-permissions" "List all permissions" []));
  message = λ _ _. ok (ask get_all_permissions_message);
}

abbrev pub update_role_route : Route
update_role_route = record {
  method = patch;
  path = "/roles/{role_id:uuid}";
  status_code = 200;
  rule = some (
      checked_rule
        (rbac_spec Access.update "update-role" "Update a role" (json_fields update_role_keys)));
  message = λ p _. ok (command (update_role_message (text p.role_id) p.body));
}

abbrev pub update_role_permission_route : Route
update_role_permission_route = record {
  method = patch;
  path = "/roles/{role_id:uuid}/permissions/{permission_id:uuid}/fields/{field_id:uuid}";
  status_code = 200;
  rule = some (
      checked_rule (
        rbac_spec Access.update "update-role-permission" "Update a role permission"
          (json_fields update_role_permission_field_keys)));
  message = λ p _. ok (command (update_permission_field_message (field_cells p) p.body));
}

abbrev pub set_role_route : Route
set_role_route = record {
  method = post;
  path = "/roles/{role_id:uuid}/users/{user_id:uuid}";
  status_code = 201;
  rule = some (plain_rule (rbac_spec Access.create "set-role" "Set a role" []));
  message = λ p _. ok (command (set_role_message (role_user_cells p)));
}

abbrev pub grant_permission_route : Route
grant_permission_route = record {
  method = post;
  path = "/permissions";
  status_code = 201;
  rule = some (
      checked_rule (
        rbac_spec Access.create "grant-permission" "Grant a permission"
          (json_fields grant_role_permission_keys)));
  message = λ p _. ok (command (grant_permission_message p.body));
}

abbrev pub grant_permission_field_route : Route
grant_permission_field_route = record {
  method = post;
  path = "/permission-fields";
  status_code = 201;
  rule = some (
      checked_rule (
        rbac_spec Access.create "grant-permission-field" "Grant a permission field"
          (json_fields grant_role_permission_field_keys)));
  message = λ p _. ok (command (grant_permission_field_message p.body));
}

abbrev pub grant_role_permission_route : Route
grant_role_permission_route = record {
  method = post;
  path = "/role-permissions";
  status_code = 201;
  rule = some (
      checked_rule (
        rbac_spec Access.create "grant-role-permission" "Grant a role permission"
          (json_fields grant_role_permission_keys)));
  message = λ p _. ok (command (grant_role_permission_message p.body));
}

abbrev pub delete_role_route : Route
delete_role_route = record {
  method = delete;
  path = "/roles/{role_id:uuid}/users/{user_id:uuid}";
  status_code = 204;
  rule = some (plain_rule (rbac_spec Access.delete "unset-role" "Unset a role" []));
  message = λ p _. ok (command (unset_role_message (role_user_cells p)));
}

abbrev pub revoke_permission_route : Route
revoke_permission_route = record {
  method = delete;
  path = "/roles/{role_id:uuid}/permissions/{permission_id:uuid}";
  status_code = 204;
  rule = some (plain_rule (rbac_spec Access.delete "revoke-permission" "Revoke a permission" []));
  message = λ p _. ok (command (revoke_permission_message (role_permission_cells p)));
}

abbrev pub revoke_permission_field_route : Route
revoke_permission_field_route = record {
  method = delete;
  path = "/roles/{role_id:uuid}/permissions/{permission_id:uuid}/fields/{field_id:uuid}";
  status_code = 204;
  rule = some (
      plain_rule
        (rbac_spec Access.delete "revoke-permission-field" "Revoke a permission field" []));
  message = λ p _. ok (command (revoke_permission_field_message (field_cells p)));
}
