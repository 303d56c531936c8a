-- ===== src/Api.antt =====
-- src/backend/http/v1/controllers: what an endpoint is, with the rule of its route and the DTO that it
-- sends through a bus.
use litestar_cqrs_example.Common.{
  ℕ, String, Option, List, [], ◌∷◌, Bool, ◌-◌, ◌*◌, leb, if◌then◌else◌,
}
use litestar_cqrs_example.Errors.{Try}
use litestar_cqrs_example.Access.{json, FieldSets, PermissionSpec, AuthUser}
use litestar_cqrs_example.Access.Fields.{resolve_keys_allowed_denylist}
use litestar_cqrs_example.Access.Scopes.{RouteRule, allow_all, default_resolve_scope}
use litestar_cqrs_example.Gateway.{Cell, Cells}
use litestar_cqrs_example.Gateway.Repositories.{FilterManyUser}
use litestar_cqrs_example.Gateway.Commands.{UserData}
pub mod Rbac
pub mod Accounts
pub mod Service
pub mod Keys
pub mod Sent
pub mod Own
pub mod Context
pub mod Public
pub mod Sessions
mod Tests

-- The commands of users and roles.
pub data CommandMessage : Type 0 where
  create_role_message grant_permission_message grant_permission_field_message :
      Cells → CommandMessage
  grant_role_permission_message set_role_message unset_role_message : Cells → CommandMessage
  revoke_permission_message revoke_permission_field_message : Cells → CommandMessage
  update_role_message : (role_id : Cell) → (values : Cells) → CommandMessage
  update_permission_field_message : (filters values : Cells) → CommandMessage
  update_user_message : (filters : Cells) → UserData → CommandMessage
  delete_user_message : (filters : Cells) → CommandMessage

-- The queries of users and roles.
pub data QueryMessage : Type 0 where
  get_all_roles_message get_all_permissions_message : QueryMessage
  get_user_roles_message get_user_permissions_message : (user_id : String) → QueryMessage
  get_role_users_message : (role_id : String) → QueryMessage
  get_one_user_message : (filters : Cells) → QueryMessage
  get_many_offset_user_message : (offset limit : ℕ) → (asc : Bool) → FilterManyUser → QueryMessage

-- What an endpoint sends, through the command bus or the query bus.
pub data Message : Type 0 where
  command : CommandMessage → Message
  ask : QueryMessage → Message

pub data Method : Type 0 where
  get post patch delete : Method

-- What litestar reads of a request for the arguments of an endpoint: identifiers of the path with
-- their `hex`, the body, and the query.
pub record Params : Type 0 where
  pub user_id : String
  pub role_id : String
  pub permission_id : String
  pub field_id : String
  pub body : Cells
  pub user_data : UserData
  -- Whether `EMAIL_REGEX` matches the email of the data, as `re` answers.
  pub email_matches : Bool
  pub filters : FilterManyUser
  pub page : ℕ
  pub limit : ℕ
  pub asc : Bool

-- An endpoint without its documentation: the path is behind the one of its controller, and the
-- message may read `request.user`.
pub record Route : Type 0 where
  pub method : Method
  pub path : String
  pub status_code : ℕ
  pub rule : Option RouteRule
  pub message : Params → Option AuthUser → Try Message

-- `page_to_offset`
unfoldable pub page_to_offset : (page limit : ℕ) → ℕ
page_to_offset page limit = if leb page 0 then 0 else (page - 1) * limit

-- `fields={Source.JSON: …}`
abbrev pub json_fields : List String → FieldSets
json_fields names = (json, names) ∷ []

-- `RouteRule(permission=…)`, and with `check_fields=resolve_keys_allowed_denylist`
abbrev pub plain_rule : PermissionSpec → RouteRule
plain_rule spec = record {
  permission = spec;
  check_fields = allow_all;
  check_scope = default_resolve_scope;
}

abbrev pub checked_rule : PermissionSpec → RouteRule
checked_rule spec = record {
  permission = spec;
  check_fields = resolve_keys_allowed_denylist;
  check_scope = default_resolve_scope;
}
