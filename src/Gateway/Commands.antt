-- ===== src/Gateway/Commands.antt =====
-- src/backend/app/use_cases: the handlers of commands/user and commands/rbac, and of queries/user and
-- queries/rbac, over the repositories of the gateway and its transaction manager.
use litestar_cqrs_example.Common.{
  ℕ, String, Bool, false, Option, none, some, List, [], ◌∷◌, ◌++◌, nat_eq, string_eq,
}
use litestar_cqrs_example.Errors
use litestar_cqrs_example.Errors.{
  conflict_error, not_found_error, service_not_implemented_error, new_error, from_other, ErrorClass,
  AppError, Exc, app, Try, ok, raise,
}
use litestar_cqrs_example.Effects.{Eff, pure, lift, ◌>>=◌, ◌>>◌}
use litestar_cqrs_example.Result
use litestar_cqrs_example.Result.{AppResult, map_err, unwrap, unwrap_or_raise, is_ok, app_exception}
use litestar_cqrs_example.Access
use litestar_cqrs_example.Transaction.{Connection, Tx, with_transaction, enter, managed}
use litestar_cqrs_example.Queries
use litestar_cqrs_example.Queries.{OffsetPaginationResult}
use litestar_cqrs_example.UseCases.{PasswordHasher, hash_password}
use litestar_cqrs_example.Gateway.{Cell, text, Cells, Row, Database}
use litestar_cqrs_example.Gateway.Repositories.{
  Dtos, FilterManyUser, get_user, get_many_by_offset, create_user, update_user, delete_user,
  create_role, get_roles, repository_user_roles, repository_role_users, get_permissions,
  get_user_permissions, update_role, set_role, unset_role, grant_permission, revoke_permission,
  grant_permission_field, revoke_permission_field, update_permission_field_effect,
}

-- `UpdateUserData`; the fields of a `CreateUserData` are both there.
pub record UserData : Type 0 where
  pub email : Option String
  pub password : Option String

abbrev kept_text : String → Option String → Cells
kept_text key none = []
kept_text key (some s) = (key, text s) ∷ []

-- `as_dict()`, which leaves out `None`
unfoldable pub user_cells : UserData → Cells
user_cells u = kept_text "email" u.email ++ kept_text "password" u.password

-- The data with the hash of a password that is there.
unfoldable pub with_hash : PasswordHasher → UserData → Option String → Try UserData
unfolding hash_password
with_hash hasher u none = ok u
with_hash hasher u (some plain) =
    Errors.◌>>=◌ (unwrap (hash_password hasher plain))
      λ hashed. ok (record { email = u.email; password = some hashed })

-- `result.map_err(cls.from_other).unwrap()`
abbrev pub unwrapped : {A : Type 0} → ErrorClass → AppResult A → Try A
unwrapped cls result = unwrap (map_err (from_other cls) result)

module _ (c : Connection) where
  -- `async with await self.gateway.manager.with_transaction()`
  unfoldable pub in_transaction : {A : Type 0} → Tx c A → Tx c A
  in_transaction body = with_transaction c none false >> (enter c >> managed c body)

  -- `async with self.gateway.manager`
  unfoldable pub in_session : {A : Type 0} → Tx c A → Tx c A
  in_session body = enter c >> managed c body

  module _ (db : Database c) (dtos : Dtos) where
    -- A handler that looks at the result after its transaction.
    abbrev pub answered_after : {A : Type 0} → ErrorClass → Tx c (AppResult A) → Tx c A
    answered_after cls body = do result ← in_transaction body; lift (unwrapped cls result)

    -- A handler that looks at the result inside its transaction.
    abbrev pub answered_inside : {A : Type 0} → ErrorClass → Tx c (AppResult A) → Tx c A
    answered_inside cls body = in_transaction (do result ← body; lift (unwrapped cls result))

    -- `CreateRoleCommandHandler`
    unfoldable pub create_role_command : Cells → Tx c Cell
    create_role_command values = do
      role ← answered_after conflict_error (create_role c db dtos values)
      pure (dtos.role_id role)

    -- `GrantRolePermissionCommandHandler` and `GrantPermissionCommandHandler`
    unfoldable pub grant_permission_command : Cells → Tx c Bool
    grant_permission_command values =
        answered_after conflict_error (grant_permission c db dtos values)

    -- `SetRoleCommandHandler`
    unfoldable pub set_role_command : Cells → Tx c Bool
    set_role_command values = answered_after conflict_error (set_role c db dtos values)

    -- `GrantPermissionFieldCommandHandler`
    unfoldable pub grant_permission_field_command : Cells → Tx c Bool
    grant_permission_field_command values =
        answered_after conflict_error (grant_permission_field c db dtos values)

    -- `UnsetRoleCommandHandler`
    unfoldable pub unset_role_command : Cells → Tx c (Unit {0})
    unset_role_command values =
        answered_inside conflict_error (unset_role c db dtos values) >> pure tt

    -- `RevokePermissionCommandHandler`
    unfoldable pub revoke_permission_command : Cells → Tx c (Unit {0})
    revoke_permission_command values =
        answered_inside conflict_error (revoke_permission c db dtos values) >> pure tt

    -- `RevokePermissionFieldCommandHandler`
    unfoldable pub revoke_permission_field_command : Cells → Tx c (Unit {0})
    revoke_permission_field_command values =
        answered_inside conflict_error (revoke_permission_field c db dtos values) >> pure tt

    -- `UpdateRoleCommandHandler`
    unfoldable pub update_role_command : (role_id : Cell) → Cells → Tx c Bool
    update_role_command role_id values =
        answered_after conflict_error (update_role c db dtos role_id values)

    -- `UpdatePermissionFieldCommandHandler`
    unfoldable pub update_permission_field_command : (values filters : Cells) → Tx c Bool
    update_permission_field_command values filters =
        answered_after conflict_error (update_permission_field_effect c db dtos values filters)

    -- `exc.ConflictError("Conflict", detail="User not created")`
    abbrev pub not_created : Exc
    not_created =
        app (new_error conflict_error (some "Conflict") none (("detail", "User not created") ∷ []))

    -- `CreateUserCommandHandler`
    unfoldable pub create_user_command : PasswordHasher → (email password : String) → Tx c Cell
    unfolding hash_password user_cells
    create_user_command hasher email password = do
      result ← in_transaction (do
        hashed ← lift (unwrap (hash_password hasher password))
        create_user c db dtos (user_cells (record { email = some email; password = some hashed })))
      user ← lift (unwrap_or_raise not_created result)
      pure (dtos.user_id user)

    -- `DeleteUserCommandHandler`
    unfoldable pub delete_user_command : (filters : Cells) → Tx c (Unit {0})
    delete_user_command filters =
        answered_inside not_found_error (delete_user c db dtos filters) >> pure tt

    -- `UpdateUserCommandHandler`
    unfoldable pub update_user_command : PasswordHasher → UserData → (filters : Cells) → Tx c Bool
    unfolding with_hash user_cells
    update_user_command hasher values filters = do
      result ← in_transaction (do
        hashed ← lift (with_hash hasher values values.password)
        updated ← update_user c db dtos (user_cells hashed) filters
        lift (unwrapped conflict_error updated)
        pure updated)
      pure (is_ok result)

    -- A handler of a query that gives a list
    abbrev pub queried : {A : Type 0} → Tx c (AppResult A) → Tx c A
    queried body = do
      result ← in_session body
      lift (unwrapped service_not_implemented_error result)

    -- `GetAllRolesQueryHandler`
    unfoldable pub get_all_roles_query : Tx c (List dtos.Role)
    get_all_roles_query = queried (get_roles c db dtos)

    -- `GetPermissionsQueryHandler`
    unfoldable pub get_permissions_query : Tx c (List dtos.Permission)
    get_permissions_query = queried (get_permissions c db dtos)

    -- `GetUserRolesQueryHandler`
    unfoldable pub get_user_roles_query : (user_id : Cell) → Tx c (List dtos.Role)
    get_user_roles_query user_id = queried (repository_user_roles c db dtos user_id)

    -- `GetRoleUsersQueryHandler`
    unfoldable pub get_role_users_query : (role_id : Cell) → Tx c (List dtos.User)
    get_role_users_query role_id = queried (repository_role_users c db dtos role_id)

    -- `GetUserPermissionsQueryHandler`
    unfoldable pub get_user_permissions_query :
        (granted : (user_id : String) → Eff c.State (List Access.Permission))
        → (user_id : String) → Tx c (List Access.Permission)
    get_user_permissions_query granted user_id =
        queried (get_user_permissions c db dtos granted user_id)

    abbrev pub user_not_found : Exc
    user_not_found = app (new_error not_found_error (some "User not found") none [])

    -- `GetOneUserQueryHandler`
    unfoldable pub get_one_user_query : (filters : Cells) → Tx c dtos.User
    get_one_user_query filters = do
      result ← in_session (get_user c db dtos filters)
      lift (unwrap_or_raise user_not_found result)

    -- `dto.OffsetResult.from_`: a user that is a DTO already is converted to itself.
    pub record OffsetResult : Type 0 where
      pub items : List dtos.User
      pub limit : ℕ
      pub offset : ℕ
      pub total : ℕ

    abbrev or_zero : Option ℕ → ℕ
    or_zero none = 0
    or_zero (some n) = n

    unfoldable pub offset_result : OffsetPaginationResult dtos.User → OffsetResult
    offset_result r = record {
      items = r.items;
      limit = or_zero r.limit;
      offset = or_zero r.offset;
      total = r.total;
    }

    -- `GetManyOffsetUserQueryHandler`
    unfoldable pub get_many_user_query :
        (view : c.State → Queries.Database Row)
        → (offset limit : ℕ) → (asc : Bool) → FilterManyUser
        → Tx c OffsetResult
    unfolding offset_result
    get_many_user_query view offset limit asc filters = do
      result ← in_session (get_many_by_offset c db dtos view offset limit asc filters)
      lift (unwrap (Result.map offset_result result))
