-- ===== src/Access/Keys.antt =====
-- src/backend/app/contracts/auth.py: `_collect_keys`, the names that occur in a request at any depth.
use litestar_cqrs_example.Common.{
  ℕ, zero, suc, ◌+◌, String, Bool, true, false, not, Option, none, some, List, [], ◌∷◌, ◌++◌, ltb,
  if◌then◌else◌, str_truthy,
}
use litestar_cqrs_example.Errors.{py, value_error, runtime_error, Try, ok, raise}
use litestar_cqrs_example.Access.{
  Value, scalar, sequence, mapping, Values, no_values, value, Entries, no_entries, entry,
  is_container, Context,
}
pub mod Pushes
pub mod Correct

-- The stack of values with their depths, its top first.
abbrev pub Stack : Type 0
Stack = List (Value × ℕ)

-- `stack.extend((v, depth) for v in … if _is_container(v))`
unfoldable pub push : ℕ → Value → Stack → Stack
unfolding is_container
push depth v stack = if is_container v then (v, depth) ∷ stack else stack

unfoldable pub push_values : ℕ → Values → Stack → Stack
push_values depth no_values stack = stack
push_values depth (value v vs) stack = push_values depth vs (push depth v stack)

unfoldable pub push_entries : ℕ → Entries → Stack → Stack
push_entries depth no_entries stack = stack
push_entries depth (entry _ v es) stack = push_entries depth es (push depth v stack)

-- `current.keys()`
unfoldable pub keys_of : Entries → List String
keys_of no_entries = []
keys_of (entry key _ es) = key ∷ keys_of es

-- `max_depth is not None and depth > max_depth`
abbrev pub exceeds : Option ℕ → ℕ → Bool
exceeds none depth = false
exceeds (some max_depth) depth = ltb max_depth depth

-- The loop on fuel, with the keys that it has.
module _ (max_depth : Option ℕ) where
  unfoldable pub loop : ℕ → Stack → (keys : List String) → Try (List String)
  loop zero [] keys = ok keys
  loop zero (_ ∷ _) keys = raise (py runtime_error ("out of fuel" ∷ []))
  loop (suc fuel) [] keys = ok keys
  loop (suc fuel) ((current, depth) ∷ stack) keys = elim (exceeds max_depth depth) [
    | true ↦ raise (py value_error ("keys collection max_depth exceeded" ∷ []))
    | false ↦ elim current [
      | mapping es ↦ loop fuel (push_entries (suc depth) es stack) (keys_of es ++ keys)
      | sequence vs ↦ loop fuel (push_values (suc depth) vs stack) keys
      | scalar _ ↦ loop fuel stack keys
    ]
  ]

-- The containers in a value, each of which takes one round.
unfoldable mutual
  pub size : Value → ℕ
  size (scalar _) = 0
  size (sequence vs) = suc (size_values vs)
  size (mapping es) = suc (size_entries es)

  pub size_values : Values → ℕ
  size_values no_values = 0
  size_values (value v vs) = size v + size_values vs

  pub size_entries : Entries → ℕ
  size_entries no_entries = 0
  size_entries (entry _ v es) = size v + size_entries es

-- `not data`
abbrev pub is_falsy : Value → Bool
is_falsy (scalar s) = not (str_truthy s)
is_falsy (sequence no_values) = true
is_falsy (sequence (value _ _)) = false
is_falsy (mapping no_entries) = true
is_falsy (mapping (entry _ _ _)) = false

unfoldable pub collect_keys : (max_depth : Option ℕ) → Value → Try (List String)
unfolding size
collect_keys max_depth data_ =
    if is_falsy data_ then ok [] else loop max_depth (suc (size data_)) ((data_, 0) ∷ []) []

unfoldable pub request_path_keys : Context → Try (List String)
request_path_keys ctx = collect_keys (some 15) (mapping ctx.request_path_params)

unfoldable pub request_query_keys : Context → Try (List String)
request_query_keys ctx = collect_keys (some 15) (mapping ctx.request_query_params)

unfoldable pub request_json_keys : Context → Try (List String)
request_json_keys ctx = collect_keys (some 15) ctx.request_json_params
