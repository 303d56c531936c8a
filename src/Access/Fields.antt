-- ===== src/Access/Fields.antt =====
-- src/backend/http/common/tools/resolvers/default.py: which names of a request's query and body a
-- permission lets pass.
use litestar_cqrs_example.Common.{
  String, not, ◌||◌, Option, none, some, List, [], ◌∷◌, ◌++◌, if◌then◌else◌, string_eq, keep_if,
  is_empty, contains, ◌+s◌,
}
use litestar_cqrs_example.Errors.{◌>>=◌, ◌>>◌, forbidden_error, new_error, Exc, app, Try, ok, raise}
use litestar_cqrs_example.Access.{Source, query, json, source_value, Permission, Context, FieldSets}
use litestar_cqrs_example.Access.Keys.{request_query_keys, request_json_keys}
pub mod Laws

-- `SOURCES[src](ctx)`
unfoldable pub source_keys : Source → Context → Try (List String)
source_keys query ctx = request_query_keys ctx
source_keys json ctx = request_json_keys ctx

-- `keys & denied` and `keys - allowed`
abbrev pub both : List String → List String → List String
both keys denied = keep_if (contains denied) keys

abbrev pub difference : List String → List String → List String
difference keys allowed = keep_if (λ k. not (contains allowed k)) keys

-- A detail with its value, of which the model keeps the text.
abbrev pub detail : String → Option String → List (String × String)
detail name none = (name, "None") ∷ []
detail name (some v) = (name, v) ∷ []

-- The names as one text: their order in the answer is not part of the model.
abbrev joined : List String → String
joined [] = ""
joined (w ∷ ws) = w +s " " +s joined ws

unfoldable pub not_allowed : Context → Exc
not_allowed ctx = app (
    new_error forbidden_error (some "You are not allowed to access this resource.") none (
      detail "path" ctx.request_path
      ++ detail "method" ctx.request_method
      ++ detail "request_id" ctx.request_id))

-- `raise_not_allowed`
unfoldable pub raise_not_allowed : {A : Type 0} → Context → Try A
unfolding not_allowed
raise_not_allowed ctx = raise (not_allowed ctx)

unfoldable pub fields_not_allowed : List String → Source → Context → Exc
fields_not_allowed names src ctx = app (
    new_error forbidden_error (some "Some request fields are not allowed for your role.") none (
      ("fields", joined names) ∷ detail "method" ctx.request_method
      ++ detail "path" ctx.request_path
      ++ detail "request_id" ctx.request_id
      ++ ("source", source_value src) ∷ []))

unfoldable pub raise_fields_not_allowed : List String → Source → Context → Try (Unit {0})
unfolding fields_not_allowed
raise_fields_not_allowed [] src ctx = ok tt
raise_fields_not_allowed (name ∷ names) src ctx = raise (fields_not_allowed (name ∷ names) src ctx)

-- The `all(…)` over the entries of a mapping, which goes on until one raises.
unfoldable pub check_all :
    (List String → List String → List String) → FieldSets → Context → Try (Unit {0})
check_all op [] ctx = ok tt
check_all op ((src, names) ∷ entries) ctx = do
  keys ← source_keys src ctx
  if is_empty keys || is_empty names
      then ok tt
      else raise_fields_not_allowed (op keys names) src ctx
  check_all op entries ctx

unfoldable pub resolve_keys_allowed_denylist : Permission → Context → Try (Unit {0})
resolve_keys_allowed_denylist p ctx = check_all both p.deny_fields ctx

unfoldable pub resolve_keys_allowed_allowlist : Permission → Context → Try (Unit {0})
resolve_keys_allowed_allowlist p ctx = check_all difference p.allow_fields ctx

unfoldable pub resolve_keys_allowed_mixed : Permission → Context → Try (Unit {0})
resolve_keys_allowed_mixed p ctx = do
  resolve_keys_allowed_denylist p ctx
  resolve_keys_allowed_allowlist p ctx
