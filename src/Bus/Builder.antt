-- ===== src/Bus/Builder.antt =====
-- src/backend/app/bus/builder.py: the dependencies of the handlers. `get_handlers_map` reads type
-- annotations; what it gives, the handlers with the names and annotations of their parameters, is an
-- argument here.
use litestar_cqrs_example.Common.{
  String, Bool, true, false, not, ◌&&◌, Option, none, some, List, [], ◌∷◌, ◌++◌, if◌then◌else◌,
  string_eq, contains,
}
use litestar_cqrs_example.Errors.{py, type_error, Try, ok, raise}
use litestar_cqrs_example.Bus.{get_item, set_item}
pub mod Wiring

-- A value that a builder passes around: an annotation, or a dependency with its truth value and,
-- where it is callable, what it makes.
pub data Dependency : Type 0 where
  annotation : String → Dependency
  plain : (truthy : Bool) → (name : String) → Dependency
  callable : Dependency → Dependency

-- `bool(value)`
abbrev pub dependency_truthy : Dependency → Bool
dependency_truthy (annotation _) = true
dependency_truthy (plain truthy _) = truthy
dependency_truthy (callable _) = true

abbrev pub Deps : Type 0
Deps = List (String × Dependency)

abbrev pub has_item : String → Deps → Bool
has_item k d = elim (get_item k d) [ none ↦ false | some _ ↦ true ]

-- The keys of `actual` that nothing is set for.
unfoldable pub missing : (actual expectable : Deps) → (exclude : List String) → List String
missing [] expectable exclude = []
missing ((k, _) ∷ actual) expectable exclude =
    let rest = missing actual expectable exclude in
    if not (has_item k expectable) && not (contains exclude k) then k ∷ rest else rest

-- `value if (value := expectable.get(k)) else actual[k]`
abbrev pub value_or : Option Dependency → Dependency → Dependency
value_or none own = own
value_or (some v) own = if dependency_truthy v then v else own

unfoldable pub predicted : (actual expectable : Deps) → Deps
predicted [] expectable = []
predicted ((k, own) ∷ actual) expectable =
    (k, value_or (get_item k expectable) own) ∷ predicted actual expectable

-- `_predict_dependency_or_raise`, whose message names the missing keys.
unfoldable pub predict_dependency_or_raise :
    (actual expectable : Deps) → (exclude : List String) → Try Deps
unfolding missing predicted
predict_dependency_or_raise actual expectable exclude = elim (missing actual expectable exclude) [
  | [] ↦ ok (predicted actual expectable)
  | k ∷ ks ↦ raise (py type_error (k ∷ ks))
]

-- The arguments that the factory of `create_handler_factory` passes: `v() if callable(v) else v`.
-- An annotation is a class, and calling it makes something of it.
unfoldable pub called : Dependency → Dependency
called (annotation a) = plain true a
called (plain truthy name) = plain truthy name
called (callable made) = made

unfoldable pub handler_arguments : Deps → Deps
unfolding called
handler_arguments [] = []
handler_arguments ((k, v) ∷ deps) = (k, called v) ∷ handler_arguments deps

-- The loop of `build`.
unfoldable pub wire_all : Deps → List (String × Deps) → Try (List (String × Deps))
unfolding predict_dependency_or_raise
wire_all deps [] = ok []
wire_all deps ((qc, handler_data) ∷ rest) =
    elim (predict_dependency_or_raise handler_data deps ("handler" ∷ [])) [
      | raise e ↦ raise e
      | ok wired ↦ elim (wire_all deps rest) [
        | raise e ↦ raise e
        | ok more ↦ ok ((qc, wired) ∷ more)
      ]
    ]

-- `BusBuilder`
pub record BusBuilder (B M : Type 0) : Type 0 where
  pub buses : List B
  pub dependencies : Deps
  pub middlewares : List M

module _ {B M : Type 0} where
  unfoldable pub new_builder : BusBuilder B M
  new_builder = record { buses = []; dependencies = []; middlewares = [] }

  unfoldable pub add_buses : List B → BusBuilder B M → BusBuilder B M
  add_buses vs b = record b { buses = b.buses ++ vs }

  unfoldable pub add_middlewares : List M → BusBuilder B M → BusBuilder B M
  add_middlewares ms b = record b { middlewares = b.middlewares ++ ms }

  unfoldable pub add_dependency : String → Dependency → BusBuilder B M → BusBuilder B M
  unfolding set_item
  add_dependency key value b = record b { dependencies = set_item key value b.dependencies }

  -- `build`, over what `get_handlers_map` gives for the buses: the keyword arguments of each
  -- handler's factory.
  unfoldable pub build :
      (handlers_map : List B → List (String × Deps)) → BusBuilder B M → Try (List (String × Deps))
  unfolding wire_all
  build handlers_map b = wire_all b.dependencies (handlers_map b.buses)
