-- ===== src/Injection/Tests.antt =====
-- Markers of a counter in a world of one number, and the theorems at them.
use litestar_cqrs_example.Common.{
  All, arith, ℕ, ◌+◌, ◌≡◌, refl, inl, inr, Bool, true, false, none, some, List, [], ◌∷◌, ◌-◌,
  nat_eq, string_eq,
}
use mathlib.Core.Path.{subst}
use litestar_cqrs_example.Errors.{ok, ok_inj}
use litestar_cqrs_example.Effects.{pure}
use litestar_cqrs_example.Injection.{
  Key, class_key, text_key, plain, context, Manager, Dependency, value, callable, Depends, Frame,
  Container, bind, get, resolve_async, run_factory, reset,
}
use litestar_cqrs_example.Injection.Provided.{provided, with_depends}
use litestar_cqrs_example.Injection.Compiled.{Provides, resolve_async-Provides}
use litestar_cqrs_example.Injection.Wrapped.{Counted, CountedResult, wrap_async_injection}
use litestar_cqrs_example.Injection.Balance.{Ready, wrap_async_injection-Ready}
use litestar_cqrs_example.Injection.Signature.{
  Object, something, depends_marker, annotated_origin, other_origin, Parameter, Store, shared,
  annotations_of, read_signature,
}
use litestar_cqrs_example.Injection.Signature.Split.{Divides}
use litestar_cqrs_example.Injection.Signature.Filled.{HasKey, Grows, read_signature-Divides}
use litestar_cqrs_example.Injection.Rebound.{resolve_async-bind}

-- A transaction manager that a callable makes: entering it counts up.
abbrev counter : Manager ℕ ℕ
counter = record { enter = λ n. (ok n, n + 1); leave = λ _ n. (ok false, n - 1) }

abbrev factory : Dependency ℕ ℕ
factory = callable (pure (context counter))

abbrev manager_key : Key
manager_key = class_key "c1" "TransactionManager"

abbrev any_value : ℕ → Bool
any_value _ = true

abbrev container : Container ℕ ℕ
unfolding bind
container = bind manager_key factory (record { dependencies = []; generation = 1 })

abbrev marker : Depends ℕ ℕ
marker = record {
  dependency = text_key "TransactionManager";
  get_compiled = none;
  get_compiled_async = none;
  generation = 0;
}

abbrev start : Frame ℕ ℕ
start = record { world = 5; exits = []; depends = marker }

-- A key that is the text of an annotation finds what is bound to the class of this name.
resolve_async-Provides_example :
    Provides any_value container factory start (resolve_async any_value container 2 start)
unfolding container get
resolve_async-Provides_example =
    resolve_async-Provides any_value container 0 factory start (λ w w' r r' e e'. cc (e, e'))
      (inr (refl, refl, inl refl))

abbrev resolved : Frame ℕ ℕ
unfolding container resolve_async
resolved = (resolve_async any_value container 2 start).1

twice :
    ((resolve_async any_value container 2 start).0 ≡ ok (plain 5))
    × ((resolve_async any_value container 2 resolved).0 ≡ ok (plain 6))
unfolding container resolve_async resolved get run_factory
twice = (refl, refl)

resolve_async-bind_example :
    (resolve_async any_value (bind resolved.depends.dependency (value 9) container) 2 resolved
      ≡ provided factory resolved)
    × ((depends : Depends ℕ ℕ) × (resolve_async any_value
            (bind resolved.depends.dependency (value 9) (reset container))
            2
            resolved
          ≡ with_depends depends (provided (value 9) resolved)))
unfolding container resolve_async resolved get run_factory
resolve_async-bind_example =
    resolve_async-bind any_value container 0 factory (value 9) resolved
      (λ w w' r r' e e'. cc (e, e')) tt refl (refl, (5, context counter, refl, (refl, refl)))

counter-Counted : Counted (λ n. n) counter
counter-Counted = ((λ n v e. refl), (λ n x e. cc (e)), (λ e n m count. omega (arith, count)))

-- The count of the managers that are entered is the number itself.
wrap_async_injection-Ready_example :
    let (answer, (cache, n)) =
      wrap_async_injection any_value container (λ args. pure true) (("manager", marker) ∷ []) 5 in
    (n ≡ 5) × All (Ready any_value container (λ n. n)) cache
unfolding container get
wrap_async_injection-Ready_example =
    wrap_async_injection-Ready any_value container (λ n. n) (λ args. pure true)
      (("manager", marker) ∷ []) 5 (λ args n. refl)
      (
        (
          factory,
          inr (refl, refl, inl refl),
          (λ w w' r r' e e'. cc (e, e')),
          ((λ n. refl), (λ n r e. subst (CountedResult (λ n. n)) (ok_inj e) counter-Counted)),
        ),
        tt,
      )

-- `handler(request: Request, manager: Annotated[TransactionManager, Depends()])`, whose marker has no
-- dependency yet
abbrev object_of : Key → Object
object_of key = record { itself = key; what = something }

abbrev request_parameter : Parameter
request_parameter = record {
  name = "request";
  default = object_of (text_key "empty");
  annotation = record { itself = text_key "Request"; origin = other_origin; args = [] };
}

abbrev manager_parameter : Parameter
manager_parameter = record {
  name = "manager";
  default = object_of (text_key "empty");
  annotation = record {
    itself = text_key "Annotated";
    origin = annotated_origin;
    args =
        object_of manager_key
        ∷ record { itself = text_key "Depends()"; what = depends_marker 3 }
        ∷ [];
  };
}

abbrev parameters : List Parameter
parameters = request_parameter ∷ manager_parameter ∷ []

abbrev no_dependencies : Store
no_dependencies _ = none

signature :
    ((read_signature parameters no_dependencies).parameters ≡ request_parameter ∷ [])
    × ((read_signature parameters no_dependencies).cache ≡ ("manager", shared 3) ∷ [])
    × ((read_signature parameters no_dependencies).store 3 ≡ some manager_key)
unfolding read_signature
signature = (refl, refl, refl)

read_signature-Divides_example :
    Divides parameters
      (read_signature parameters no_dependencies).parameters
      (read_signature parameters no_dependencies).cache
    × ((read_signature parameters no_dependencies).annotations
        ≡ annotations_of (read_signature parameters no_dependencies).parameters)
    × All
        (HasKey (read_signature parameters no_dependencies).store)
        (read_signature parameters no_dependencies).cache
    × Grows parameters no_dependencies (read_signature parameters no_dependencies).store
read_signature-Divides_example = read_signature-Divides parameters no_dependencies
