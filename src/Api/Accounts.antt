-- ===== src/Api/Accounts.antt =====
-- src/backend/http/v1/controllers/private/user.py: the endpoints of the private `UserController`,
-- whose path is /users.
use Prim.Native.String.{count}
use litestar_cqrs_example.Common.{
  String, Bool, ◌&&◌, leb, Option, none, some, List, [], ◌∷◌, nat_eq, string_eq,
}
use litestar_cqrs_example.Errors.{
  py, library_error, bad_request_error, app, new_error, Exc, Try, ok, raise, require, ◌>>◌,
}
use litestar_cqrs_example.Access
use litestar_cqrs_example.Access.{Action, FieldSets, PermissionSpec, AuthUser, query}
use litestar_cqrs_example.Access.Fields.{resolve_keys_allowed_denylist}
use litestar_cqrs_example.Access.Scopes.{allow_all, resolve_by_user_id, resolve_by_user_email}
use litestar_cqrs_example.Gateway.{text, Cells}
use litestar_cqrs_example.Gateway.Commands.{UserData}
use litestar_cqrs_example.Api.{
  Message, command, ask, get_one_user_message, get_many_offset_user_message, update_user_message,
  delete_user_message, get, patch, delete, Route, json_fields, page_to_offset,
}

-- `get_keys_from_type` of `FilterManyUser` and `UpdateUserData`
abbrev filter_many_user_keys : List String
filter_many_user_keys = "email" ∷ "from_date" ∷ "to_date" ∷ []

abbrev update_user_keys : List String
update_user_keys = "email" ∷ "password" ∷ []

abbrev users_spec : Action → (operation description : String) → FieldSets → PermissionSpec
users_spec action operation description fields = record {
  resource = "users";
  action = action;
  operation = operation;
  description = some description;
  fields = fields;
}

-- `FilterOneUser(id=…)`
abbrev pub by_id : String → Cells
by_id user_id = ("id", text user_id) ∷ []

abbrev pub get_one_user_route : Route
get_one_user_route = record {
  method = get;
  path = "/{user_id:uuid}";
  status_code = 200;
  rule = some (record {
    permission = users_spec Access.read "detail" "Get one user by id" [];
    check_fields = allow_all;
    check_scope = resolve_by_user_id;
  });
  message = λ p _. ok (ask (get_one_user_message (by_id p.user_id)));
}

-- `request.user.id`; litestar raises where no middleware has set the user.
abbrev own_message : Option AuthUser → Try Message
own_message none = raise (py library_error ("'user' is not defined in scope" ∷ []))
own_message (some user) = ok (ask (get_one_user_message (by_id user.id)))

abbrev pub get_user_me_route : Route
get_user_me_route = record {
  method = get;
  path = "/me";
  status_code = 200;
  rule = none;
  message = λ _ user. own_message user;
}

unfoldable pub get_many_by_offset_route : Route
unfolding page_to_offset
get_many_by_offset_route = record {
  method = get;
  path = "/";
  status_code = 200;
  rule = some (record {
    permission =
        users_spec Access.read "list" "Get many users by offset"
          ((query, filter_many_user_keys) ∷ []);
    check_fields = resolve_keys_allowed_denylist;
    check_scope = resolve_by_user_email;
  });
  message = λ p _.
      ok (
        ask (get_many_offset_user_message (page_to_offset p.page p.limit) p.limit p.asc p.filters));
}

abbrev bad_request : String → Exc
bad_request message = app (new_error bad_request_error (some message) none [])

abbrev valid_password : Option String → Try (Unit {0})
valid_password none = ok tt
valid_password (some s) =
    require (leb 8 (count s) && leb (count s) 32)
      (bad_request "Password must be between 8 and 32 characters")

abbrev valid_email : Option String → Bool → Try (Unit {0})
valid_email none matched = ok tt
valid_email (some email) matched = require matched (bad_request "Invalid email address")

-- `UpdateUserData._validate`
unfoldable pub validate_user_data : UserData → Bool → Try (Unit {0})
unfolding new_error
validate_user_data values email_matches =
    valid_password values.password >> valid_email values.email email_matches

-- The endpoint sends its message where the data of the body could be made.
abbrev pub sends : Try (Unit {0}) → Message → Try Message
sends (ok _) message = ok message
sends (raise e) message = raise e

abbrev pub update_user_by_id_route : Route
update_user_by_id_route = record {
  method = patch;
  path = "/{user_id:uuid}";
  status_code = 200;
  rule = some (record {
    permission =
        users_spec Access.update "update" "Update one user by id" (json_fields update_user_keys);
    check_fields = resolve_keys_allowed_denylist;
    check_scope = resolve_by_user_id;
  });
  message = λ p _.
      sends (validate_user_data p.user_data p.email_matches)
        (command (update_user_message (by_id p.user_id) p.user_data));
}

abbrev pub delete_user_by_id_route : Route
delete_user_by_id_route = record {
  method = delete;
  path = "/{user_id:uuid}";
  status_code = 204;
  rule = some (record {
    permission = users_spec Access.delete "delete" "Delete one user by id" [];
    check_fields = allow_all;
    check_scope = resolve_by_user_id;
  });
  message = λ p _. ok (command (delete_user_message (by_id p.user_id)));
}
