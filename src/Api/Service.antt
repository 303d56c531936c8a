-- ===== src/Api/Service.antt =====
-- A request of the private controllers from the middleware on: it is admitted, its endpoint makes a
-- message, and the bus gives this to the handler of its type. The bus of commands has its middleware,
-- which counts the epoch of the cache; a query is asked as where its answer is not in the cache. Both
-- buses work with one database, and each handler has a session of its own.
use litestar_cqrs_example.Common.{ℕ, String, Bool, List, [], ◌∷◌, nat_eq, string_eq}
use litestar_cqrs_example.Errors.{Try, ok, raise}
use litestar_cqrs_example.Effects.{Eff, pure, lift, ◌>>=◌}
use litestar_cqrs_example.Services.{Crypto}
use litestar_cqrs_example.Jwt.{JwtImpl}
use litestar_cqrs_example.Access
use litestar_cqrs_example.Access.{AuthUser, PermissionSpec, Context}
use litestar_cqrs_example.Access.Middleware.{Directory, Request, handle}
use litestar_cqrs_example.Transaction.{Connection, Tx, new_manager}
use litestar_cqrs_example.Queries
use litestar_cqrs_example.Bus.{wrap_middleware, wrap_loop}
use litestar_cqrs_example.Bus.Caching.{cache_invalidate_middleware}
use litestar_cqrs_example.UseCases.{PasswordHasher}
use litestar_cqrs_example.Gateway.{Cell, text, Row, Database}
use litestar_cqrs_example.Gateway.Repositories.{Dtos}
use litestar_cqrs_example.Gateway.Commands.{
  OffsetResult, create_role_command, grant_permission_command, set_role_command,
  grant_permission_field_command, unset_role_command, revoke_permission_command,
  revoke_permission_field_command, update_role_command, update_permission_field_command,
  delete_user_command, update_user_command, get_all_roles_query, get_permissions_query,
  get_user_roles_query, get_role_users_query, get_user_permissions_query, get_one_user_query,
  get_many_user_query,
}
use litestar_cqrs_example.Gateway.Work.{SessionLaws, durable}
use litestar_cqrs_example.Api.{
  Message, command, ask, CommandMessage, QueryMessage, create_role_message,
  grant_permission_message, grant_permission_field_message, grant_role_permission_message,
  set_role_message, unset_role_message, revoke_permission_message, revoke_permission_field_message,
  update_role_message, update_permission_field_message, get_all_roles_message,
  get_all_permissions_message, get_user_roles_message, get_user_permissions_message,
  get_role_users_message, get_one_user_message, get_many_offset_user_message, update_user_message,
  delete_user_message, Params, Route,
}

-- The content of a response
pub data Answer (dtos : Dtos) : Type 0 where
  id_of : Cell → Answer dtos
  status_of : Bool → Answer dtos
  no_content : Answer dtos
  roles_of : List dtos.Role → Answer dtos
  users_of : List dtos.User → Answer dtos
  permissions_of : List dtos.Permission → Answer dtos
  granted_of : List Access.Permission → Answer dtos
  user_of : dtos.User → Answer dtos

module _ (c : Connection) (db : Database c) (dtos : Dtos) (hasher : PasswordHasher)
    (view : c.State → Queries.Database Row)
    (granted : (user_id : String) → Eff c.State (List Access.Permission)) where
  -- A page, or what a handler gives as content.
  pub data Content : Type 0 where
    content : Answer dtos → Content
    page_of : OffsetResult c db dtos → Content

  abbrev with_content : {A : Type 0} → (A → Answer dtos) → Tx c A → Tx c Content
  with_content f body = body >>= λ a. pure (content (f a))

  -- The handler of a command, as `CommandBus` pairs them.
  unfoldable pub command_bus : CommandMessage → Tx c Content
  command_bus (create_role_message values) =
      with_content id_of (create_role_command c db dtos values)
  command_bus (grant_permission_message values) =
      with_content status_of (grant_permission_command c db dtos values)
  command_bus (grant_permission_field_message values) =
      with_content status_of (grant_permission_field_command c db dtos values)
  command_bus (grant_role_permission_message values) =
      with_content status_of (grant_permission_command c db dtos values)
  command_bus (set_role_message values) = with_content status_of (set_role_command c db dtos values)
  command_bus (unset_role_message values) =
      with_content (λ _. no_content) (unset_role_command c db dtos values)
  command_bus (revoke_permission_message values) =
      with_content (λ _. no_content) (revoke_permission_command c db dtos values)
  command_bus (revoke_permission_field_message values) =
      with_content (λ _. no_content) (revoke_permission_field_command c db dtos values)
  command_bus (update_role_message role_id values) =
      with_content status_of (update_role_command c db dtos role_id values)
  command_bus (update_permission_field_message filters values) =
      with_content status_of (update_permission_field_command c db dtos values filters)
  command_bus (update_user_message filters values) =
      with_content status_of (update_user_command c db dtos hasher values filters)
  command_bus (delete_user_message filters) =
      with_content (λ _. no_content) (delete_user_command c db dtos filters)

  -- The handler of a query, as `QueryBus` pairs them.
  unfoldable pub query_bus : QueryMessage → Tx c Content
  query_bus get_all_roles_message = with_content roles_of (get_all_roles_query c db dtos)
  query_bus get_all_permissions_message =
      with_content permissions_of (get_permissions_query c db dtos)
  query_bus (get_user_roles_message user_id) =
      with_content roles_of (get_user_roles_query c db dtos (text user_id))
  query_bus (get_user_permissions_message user_id) =
      with_content granted_of (get_user_permissions_query c db dtos granted user_id)
  query_bus (get_role_users_message role_id) =
      with_content users_of (get_role_users_query c db dtos (text role_id))
  query_bus (get_one_user_message filters) =
      with_content user_of (get_one_user_query c db dtos filters)
  query_bus (get_many_offset_user_message offset limit asc filters) =
      get_many_user_query c db dtos view offset limit asc filters >>= λ page. pure (page_of page)

  module _ {D : Type 0} (laws : SessionLaws c D) {C : Type 0} (increment : Eff C ℕ) where
    -- A handler in a session of its own: the database before and after it
    abbrev pub own_session : {A : Type 0} → Tx c A → Eff D A
    own_session body d =
        let (t, m) = body (new_manager c (laws.fresh d)) in (t, durable laws m.conn)

    abbrev pub on_database : {A : Type 0} → Eff D A → Eff (D × C) A
    on_database body (d, cache) = let (t, d') = body d in (t, (d', cache))

    abbrev pub on_cache : {A : Type 0} → Eff C A → Eff (D × C) A
    on_cache body (d, cache) = let (t, cache') = body cache in (t, (d, cache'))

    -- The call of a bus by a controller: that of commands counts the epoch of the cache after each.
    unfoldable pub sent_message : Context → Message → Eff (D × C) Content
    unfolding command_bus query_bus cache_invalidate_middleware wrap_middleware wrap_loop
    sent_message context (command message) =
        wrap_middleware (λ context message. on_database (own_session (command_bus message)))
          (cache_invalidate_middleware (on_cache increment) ∷ []) context message
    sent_message context (ask message) = on_database (own_session (query_bus message))

    module _ (directory : D → Directory) (crypto : Crypto) (jwt : JwtImpl)
        (uuid : String → Try String) (now : ℕ) where
      -- What the controller does with an admitted request.
      abbrev pub respond : Route → Params → Request → Eff (D × C) Content
      respond route p req = lift (route.message p req.user) >>= sent_message req.ctx

      abbrev pub admitted : Route → Params → Try (Unit {0}) × Request → Eff (D × C) Content
      admitted route p (ok _, req) s = respond route p req s
      admitted route p (raise e, req) s = (raise e, s)

      -- The answer to a request, and the database and the cache after it.
      unfoldable pub serve : Route → Params → Request → Eff (D × C) Content
      serve route p req s =
          admitted route p
            (handle (directory s.0) crypto jwt uuid now (pure tt)
              (record req { rule = route.rule }))
            s
