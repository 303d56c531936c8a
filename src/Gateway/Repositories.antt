-- ===== src/Gateway/Repositories.antt =====
-- src/backend/infra/database/alchemy: the data access object of dao.py and the repositories of
-- repositories/user.py and repositories/rbac.py. Each method of a repository catches what it raises.
use litestar_cqrs_example.Common.{
  ℕ, String, Bool, true, false, not, Option, none, some, List, [], ◌∷◌, ◌++◌, leb, nat_eq,
  string_eq, is_empty,
}
use litestar_cqrs_example.Errors.{Exc, py, runtime_error, Try, ok, raise}
use litestar_cqrs_example.Errors
use litestar_cqrs_example.Effects.{Eff, pure, lift, ◌>>=◌}
use litestar_cqrs_example.Result.{AppResult, as_result_async}
use litestar_cqrs_example.Access
use litestar_cqrs_example.Transaction.{Connection, Tx, send}
use litestar_cqrs_example.Queries
use litestar_cqrs_example.Queries.{
  GetManyByOffset, GetManyByCursor, OffsetPaginationResult, perform_offset,
}
use litestar_cqrs_example.Gateway.{
  Cell, same_cell, Cells, Row, Database, eq_clauses, last_row, create_or_ignore, get_one, get_all,
  update, delete, get_role_users, get_user_roles,
}

-- The DTOs that msgspec makes of the attributes of an entity, and the identifiers in them. A date is
-- the day that SQL's `CAST` gives.
pub record Dtos : Type 1 where
  pub Role : Type 0
  pub User : Type 0
  pub Permission : Type 0
  pub role_of : Row → Try Role
  pub user_of : Row → Try User
  pub permission_of : Row → Try Permission
  pub role_id : Role → Cell
  pub user_id : User → Cell
  pub day_of : Row → ℕ

-- `FilterManyUser`, where `null` is a missing email.
pub record FilterManyUser : Type 0 where
  pub email : Cell
  pub from_date : Option ℕ
  pub to_date : Option ℕ

-- `[Dto.from_attributes(item) for item in result]`
unfoldable pub convert_all : {A : Type 0} → (Row → Try A) → List Row → Try (List A)
convert_all of [] = ok []
convert_all of (row ∷ rows) =
    Errors.◌>>=◌ (of row) λ a. Errors.◌>>=◌ (convert_all of rows) λ rest. ok (a ∷ rest)

-- `Dto.from_attributes(result) if result else None`
abbrev pub convert_or_none : {A : Type 0} → (Row → Try A) → Option Row → Try (Option A)
convert_or_none of none = ok none
convert_or_none of (some row) = Errors.◌>>=◌ (of row) λ a. ok (some a)

abbrev pub is_some : {A : Type 0} → Option A → Bool
is_some none = false
is_some (some _) = true

-- `len(result) > 0`
abbrev pub some_rows : List Row → Bool
some_rows rows = not (is_empty rows)

-- What `DAO.get_many` sends.
pub data ManyQuery : Type 0 where
  by_offset : GetManyByOffset Row → ManyQuery
  by_cursor : GetManyByCursor Row → ManyQuery

-- The clauses of equality as tests of a row.
abbrev pub tests_of : Cells → List (Row → Bool)
tests_of [] = []
tests_of ((k, v) ∷ clauses) = (λ row. same_cell (row k) v) ∷ tests_of clauses

-- `DAO.get_many`; `none` is `UNSET`.
unfoldable pub get_many :
    (loads : List String)
    → (limit : ℕ) → (asc : Bool) → (offset : Option (Option ℕ)) → (cursor : Option (Option String))
    → Cells
    → Try ManyQuery
get_many loads limit asc (some offset) cursor filters = ok (
    by_offset (record {
      loads = loads;
      clauses = tests_of (eq_clauses filters);
      asc = asc;
      offset = offset;
      limit = some limit;
    }))
get_many loads limit asc none (some cursor) filters = ok (
    by_cursor (record {
      loads = loads;
      clauses = tests_of (eq_clauses filters);
      asc = asc;
      limit = limit;
      cursor = cursor;
    }))
get_many loads limit asc none none filters = raise (py runtime_error ("Invalid query param" ∷ []))

module _ (c : Connection) (db : Database c) (dtos : Dtos) where
  -- `UserRepositoryImpl`
  unfoldable pub get_user : Cells → Tx c (AppResult dtos.User)
  get_user filters = as_result_async (do
    result ← send c (get_one db "user" [] true filters)
    lift (convert_or_none dtos.user_of result))

  -- `created_at >= from_date` and `created_at <= to_date`
  unfoldable pub date_clauses : FilterManyUser → List (Row → Bool)
  date_clauses filters =
      elim filters.from_date [ none ↦ [] | some day ↦ (λ row. leb day (dtos.day_of row)) ∷ [] ]
      ++ elim filters.to_date [ none ↦ [] | some day ↦ (λ row. leb (dtos.day_of row) day) ∷ [] ]

  -- Over the database of the pages that a state is
  unfoldable pub get_many_by_offset :
      (view : c.State → Queries.Database Row)
      → (offset limit : ℕ) → (asc : Bool) → FilterManyUser
      → Tx c (AppResult (OffsetPaginationResult dtos.User))
  unfolding date_clauses
  get_many_by_offset view offset limit asc filters = as_result_async (do
    let query : GetManyByOffset Row = record {
      loads = [];
      clauses = tests_of (eq_clauses (("email", filters.email) ∷ [])) ++ date_clauses filters;
      asc = asc;
      offset = some offset;
      limit = some limit;
    }
    result ← send c (λ s. (ok (perform_offset (view s) query []), s))
    items ← lift (convert_all dtos.user_of result.items)
    pure (
        some (record {
          items = items;
          offset = result.offset;
          limit = result.limit;
          total = result.total;
        })))

  unfoldable pub create_user : (values : Cells) → Tx c (AppResult dtos.User)
  create_user values = as_result_async (do
    result ← send c (create_or_ignore db "user" values)
    lift (convert_or_none dtos.user_of result))

  unfoldable pub update_user : (values filters : Cells) → Tx c (AppResult dtos.User)
  update_user values filters = as_result_async (do
    result ← send c (update db "user" values filters)
    lift (convert_or_none dtos.user_of (last_row result)))

  unfoldable pub delete_user : Cells → Tx c (AppResult dtos.User)
  delete_user filters = as_result_async (do
    result ← send c (delete db "user" filters)
    lift (convert_or_none dtos.user_of (last_row result)))

  -- `RbacRepositoryImpl`
  unfoldable pub create_role : Cells → Tx c (AppResult dtos.Role)
  create_role values = as_result_async (do
    result ← send c (create_or_ignore db "role" values)
    lift (convert_or_none dtos.role_of result))

  -- A method that answers with a list of DTOs
  abbrev pub listed :
      {A : Type 0} → (Row → Try A) → Eff c.State (List Row) → Tx c (AppResult (List A))
  listed of query =
      as_result_async
        (do result ← send c query; items ← lift (convert_all of result); pure (some items))

  unfoldable pub get_roles : Tx c (AppResult (List dtos.Role))
  get_roles = listed dtos.role_of (get_all db "role" ("fields" ∷ []) [])

  unfoldable pub repository_user_roles : (user_id : Cell) → Tx c (AppResult (List dtos.Role))
  repository_user_roles user_id = listed dtos.role_of (get_user_roles db user_id)

  unfoldable pub repository_role_users : (role_id : Cell) → Tx c (AppResult (List dtos.User))
  repository_role_users role_id = listed dtos.user_of (get_role_users db role_id)

  unfoldable pub get_permissions : Tx c (AppResult (List dtos.Permission))
  get_permissions = listed dtos.permission_of (get_all db "permission" ("fields" ∷ "roles" ∷ []) [])

  -- `RbacRepositoryImpl.get_user_permissions`, over what `GetUserPermissions` selects from the view of
  -- permissions.
  unfoldable pub get_user_permissions :
      (granted : (user_id : String) → Eff c.State (List Access.Permission))
      → (user_id : String) → Tx c (AppResult (List Access.Permission))
  get_user_permissions granted user_id =
      as_result_async (do permissions ← send c (granted user_id); pure (some permissions))

  -- A method that answers whether a row was created.
  unfoldable pub inserted : (table : String) → Cells → Tx c (AppResult Bool)
  inserted table values =
      as_result_async
        (do result ← send c (create_or_ignore db table values); pure (some (is_some result)))

  -- A method that answers whether rows were deleted.
  unfoldable pub removed : (table : String) → Cells → Tx c (AppResult Bool)
  removed table filters =
      as_result_async (do result ← send c (delete db table filters); pure (some (some_rows result)))

  -- A method that answers whether rows were updated.
  unfoldable pub changed : (table : String) → (values filters : Cells) → Tx c (AppResult Bool)
  changed table values filters =
      as_result_async
        (do result ← send c (update db table values filters); pure (some (some_rows result)))

  unfoldable pub update_role : (role_id : Cell) → (values : Cells) → Tx c (AppResult Bool)
  unfolding changed
  update_role role_id values = changed "role" values (("id", role_id) ∷ [])

  unfoldable pub delete_role : (role_id : Cell) → Tx c (AppResult Bool)
  unfolding removed
  delete_role role_id = removed "role" (("id", role_id) ∷ [])

  unfoldable pub set_role : Cells → Tx c (AppResult Bool)
  unfolding inserted
  set_role values = inserted "user_role" values

  unfoldable pub unset_role : Cells → Tx c (AppResult Bool)
  unfolding removed
  unset_role values = removed "user_role" values

  unfoldable pub grant_permission : Cells → Tx c (AppResult Bool)
  unfolding inserted
  grant_permission values = inserted "role_permission" values

  unfoldable pub revoke_permission : Cells → Tx c (AppResult Bool)
  unfolding removed
  revoke_permission values = removed "role_permission" values

  unfoldable pub grant_permission_field : Cells → Tx c (AppResult Bool)
  unfolding inserted
  grant_permission_field values = inserted "role_permission_field" values

  unfoldable pub revoke_permission_field : Cells → Tx c (AppResult Bool)
  unfolding removed
  revoke_permission_field values = removed "role_permission_field" values

  unfoldable pub update_permission_field_effect : (values filters : Cells) → Tx c (AppResult Bool)
  unfolding changed
  update_permission_field_effect values filters = changed "role_permission_field" values filters
