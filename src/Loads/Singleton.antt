-- ===== src/Loads/Singleton.antt =====
-- src/backend/infra/database/alchemy/tools/sqla_autoloads/node.py: `Node` and `init_node`.
use litestar_cqrs_example.Common.{◌≡◌, refl, Option, none, some, List, [], ◌∷◌, nat_eq, string_eq}
use litestar_cqrs_example.Errors.{py, runtime_error, Try, ok, raise}
use litestar_cqrs_example.Effects.{Eff}
use litestar_cqrs_example.Loads.{Mapping}

-- The class variable `__instance`: absent, or an object whose `_node` may not be set.
abbrev pub Registry : Type 0
Registry = Option (Option Mapping)

-- The object that the first call makes and stores, before it looks at `_node`.
abbrev stored : Option Mapping → Registry → Option Mapping
stored node none = node
stored _ (some instance) = instance

abbrev checked : Option Mapping → Try Mapping
checked none = raise (py runtime_error ("Node is not initialized or empty" ∷ []))
checked (some []) = raise (py runtime_error ("Node is not initialized or empty" ∷ []))
checked (some (entry ∷ node)) = ok (entry ∷ node)

-- `Node(node)`, whose answer stands for the object: its mapping.
unfoldable pub new_node : Option Mapping → Eff Registry Mapping
new_node node registry = let instance = stored node registry in (checked instance, some instance)

-- `init_node(node)`
unfoldable pub init_node : Mapping → Eff Registry Mapping
unfolding new_node
init_node node = new_node (some node)

abbrev calls : List (Option Mapping) → Registry → Registry
calls [] registry = registry
calls (node ∷ more) registry = calls more (new_node node registry).1

calls_keep :
    (more : List (Option Mapping)) (instance : Option Mapping)
    → calls more (some instance) ≡ some instance
unfolding new_node
calls_keep [] instance = refl
calls_keep (_ ∷ more) instance = calls_keep more instance

-- The first call of `Node` decides for good: whatever calls of `Node` and `init_node` follow, a
-- later `Node(x)` answers what the first mapping gives, so it is not replaced, and where the first
-- call had no mapping or an empty one every later call raises.
pub new_node_first :
    (first : Option Mapping) (more : List (Option Mapping)) (x : Option Mapping)
    → (new_node x (calls more (new_node first none).1)).0 ≡ (new_node first none).0
unfolding new_node
new_node_first first more x = rw (calls_keep more first)
