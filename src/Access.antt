-- ===== src/Access.antt =====
-- src/backend/app/contracts/auth.py: who asks, what for, and the request that a rule looks at.
use litestar_cqrs_example.Common.{
  String, Bool, true, false, Option, some, List, ◌==◌, nat_eq, string_eq, ◌+s◌, str_lower,
}
pub mod Keys
pub mod Fields
pub mod Scopes
pub mod Middleware
mod Tests

pub data Scope : Type 0 where
  own any_one : Scope

pub data Action : Type 0 where
  read create delete update : Action

pub data Source : Type 0 where
  query json : Source

-- The values of the enumerations, `Action.READ.value` and so on.
abbrev pub action_value : Action → String
action_value read = "read"
action_value create = "create"
action_value delete = "delete"
action_value update = "update"

abbrev pub source_value : Source → String
source_value query = "query"
source_value json = "json"

-- A mapping from sources to sets of field names.
abbrev pub FieldSets : Type 0
FieldSets = List (Source × List String)

pub record PermissionSpec : Type 0 where
  pub resource : String
  pub action : Action
  pub operation : String
  pub description : Option String
  pub fields : FieldSets

pub record Permission : Type 0 where
  pub resource : String
  pub action : Action
  pub operation : String
  pub scope : Scope
  pub description : Option String
  pub deny_fields : FieldSets
  pub allow_fields : FieldSets

abbrev pub permission_key : String → Action → String → String
permission_key resource action operation =
    str_lower (resource +s ":" +s action_value action +s ":" +s operation)

-- `PermissionSpec.key`
unfoldable pub spec_key : PermissionSpec → String
spec_key p = permission_key p.resource p.action p.operation

-- `Permission.key`, which equality and the hash go by.
unfoldable pub key : Permission → String
key p = permission_key p.resource p.action p.operation

-- `Permission.__eq__` between permissions
unfoldable pub same_permission : Permission → Permission → Bool
unfolding key
same_permission p q = key p == key q

-- A user, with the `hex` of the identifier and the names of the roles.
pub record AuthUser : Type 0 where
  pub id : String
  pub is_superuser : Bool
  pub email : Option String
  pub password : Option String
  pub roles : List String

-- The values of a request: a scalar with its text, a sequence, or a mapping.
mutual
  pub data Value : Type 0 where
    scalar : String → Value
    sequence : Values → Value
    mapping : Entries → Value

  pub data Values : Type 0 where
    no_values : Values
    value : Value → Values → Values

  pub data Entries : Type 0 where
    no_entries : Entries
    entry : String → Value → Entries → Entries

-- `_is_container`
unfoldable pub is_container : Value → Bool
is_container (scalar _) = false
is_container (sequence _) = true
is_container (mapping _) = true

pub record Context : Type 0 where
  pub user : Option AuthUser
  pub request_id : Option String
  pub request_method : Option String
  pub request_path : Option String
  pub request_path_params : Entries
  pub request_query_params : Entries
  -- Any JSON value: `(await request.json()) or {}`.
  pub request_json_params : Value
  pub request_url : Option String

-- `update_user`
unfoldable pub update_user : AuthUser → Context → Context
update_user user ctx = record ctx { user = some user }
