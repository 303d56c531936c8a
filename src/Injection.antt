-- ===== src/Injection.antt =====
-- src/backend/shared/di: the container of dependencies (container.py), the factories that are compiled
-- for them (compile.py), and the markers that resolve them (depends.py).
use litestar_cqrs_example.Common.{
  ℕ, zero, suc, String, Bool, true, false, Option, none, some, List, [], ◌∷◌, ◌==◌, nat_eq,
  string_eq, if◌then◌else◌, nat_beq, ◌+◌,
}
use litestar_cqrs_example.Errors.{Exc, py, type_error, assertion_error, runtime_error, ok, raise}
use litestar_cqrs_example.Effects.{Eff, pure, throw, ◌>>=◌, ◌>>◌}
pub mod Provided
pub mod Compiled
pub mod Rebound
pub mod Wrapped
pub mod Balance
pub mod Signature
mod Tests

-- A key of the container: a class with its identity and its `__name__`, or a text, which has no name.
pub data Key : Type 0 where
  class_key : (identity name : String) → Key
  text_key : String → Key

-- What the dictionary is looked up with.
pub data Slot : Type 0 where
  by_identity by_text : String → Slot

abbrev pub same_slot : Slot → Slot → Bool
same_slot (by_identity a) (by_identity b) = a == b
same_slot (by_text a) (by_text b) = a == b
same_slot _ _ = false

-- `key`, and `getattr(key, "__name__", key)`
abbrev pub slot : Key → Slot
slot (class_key identity name) = by_identity identity
slot (text_key text) = by_text text

abbrev pub name_slot : Key → Slot
name_slot (class_key identity name) = by_text name
name_slot (text_key text) = by_text text

-- A context manager over a world that it changes: entering gives a value, and leaving sees the
-- exception, where there is one, and tells whether to suppress it.
pub record Manager (W : Type 0) (V : Type 0) : Type 0 where
  pub enter : Eff W V
  pub leave : Option Exc → Eff W Bool

-- What a call returns, as far as it is looked at: a context manager, an asynchronous one, a coroutine,
-- or something else; a generator is entered by no one.
pub data Returned (W : Type 0) (V : Type 0) : Type 0 where
  plain : V → Returned W V
  context : Manager W V → Returned W V
  async_context : Manager W V → Returned W V
  awaitable : Eff W V → Returned W V
  iterator async_iterator : Manager W V → Returned W V

-- A dependency: no callable, a function of one of the kinds that `inspect` tells, or another callable.
pub data Dependency (W : Type 0) (V : Type 0) : Type 0 where
  value : V → Dependency W V
  coroutine_function : Eff W V → Dependency W V
  async_generator_function : Manager W V → Dependency W V
  generator_function : Manager W V → Dependency W V
  callable : Eff W (Returned W V) → Dependency W V

-- The templates of the compiled factories, with the `dependency` of their globals.
pub data Factory (W : Type 0) (V : Type 0) : Type 0 where
  value_factory : V → Factory W V
  sync_call sync_context_call async_call async_context_call : Eff W (Returned W V) → Factory W V

-- `Depends`; its compiled factories are of this generation.
pub record Depends (W : Type 0) (V : Type 0) : Type 0 where
  pub dependency : Key
  pub get_compiled : Option (Factory W V)
  pub get_compiled_async : Option (Factory W V)
  pub generation : ℕ

-- A resolution sees the world, the exits that are to be called, the last one first, and its marker.
pub record Frame (W : Type 0) (V : Type 0) : Type 0 where
  pub world : W
  pub exits : List (Option Exc → Eff W Bool)
  pub depends : Depends W V

-- `DependencyContainer`, whose state all instances share.
pub record Container (W : Type 0) (V : Type 0) : Type 0 where
  pub dependencies : List (Slot × Dependency W V)
  pub generation : ℕ

abbrev pub lookup : {A : Type 0} → Slot → List (Slot × A) → Option A
lookup k [] = none
lookup k ((k', a) ∷ entries) = if same_slot k k' then some a else lookup k entries

module _ {W : Type 0} {V : Type 0} where
  -- `DependencyContainer.bind`
  unfoldable pub bind : Key → Dependency W V → Container W V → Container W V
  bind key dependency container = record container {
    dependencies = (slot key, dependency) ∷ (name_slot key, dependency) ∷ container.dependencies;
  }

  abbrev pub or_named : Key → Container W V → Option (Dependency W V) → Option (Dependency W V)
  or_named key container (some d) = some d
  or_named key container none = lookup (name_slot key) container.dependencies

  -- `DependencyContainer.get`
  unfoldable pub get : Key → Container W V → Option (Dependency W V)
  get key container = or_named key container (lookup (slot key) container.dependencies)

  -- `DependencyContainer.reset`
  unfoldable pub reset : Container W V → Container W V
  reset container = record { dependencies = []; generation = container.generation + 1 }

  abbrev pub lifted : {A : Type 0} → Eff W A → Eff (Frame W V) A
  lifted body fr = let (t, w) = body fr.world in (t, record fr { world = w })

  -- `exits.enter_context`, and `enter_async_context`
  abbrev pub entered : Manager W V → Eff (Frame W V) (Returned W V)
  entered cm = do
    v ← lifted cm.enter
    (λ fr. (ok (plain v), record fr { exits = cm.leave ∷ fr.exits }))

  abbrev pub wrong_kind : {A : Type 0} → Eff (Frame W V) A
  wrong_kind = throw (py type_error [])

  abbrev pub enter_context : Returned W V → Eff (Frame W V) (Returned W V)
  enter_context (context cm) = entered cm
  enter_context _ = wrong_kind

  abbrev pub enter_async_context : Returned W V → Eff (Frame W V) (Returned W V)
  enter_async_context (async_context cm) = entered cm
  enter_async_context _ = wrong_kind

  abbrev pub awaited : Returned W V → Eff (Frame W V) (Returned W V)
  awaited (awaitable body) = lifted body >>= λ v. pure (plain v)
  awaited _ = wrong_kind

  -- `resolve` of a template
  unfoldable pub run_factory : Factory W V → Eff (Frame W V) (Returned W V)
  run_factory (value_factory v) = pure (plain v)
  run_factory (sync_call f) = lifted f
  run_factory (sync_context_call f) = lifted f >>= enter_context
  run_factory (async_call f) = lifted f >>= awaited
  run_factory (async_context_call f) = lifted f >>= enter_async_context

  -- `dependency()`, for one that is callable
  abbrev pub called : Dependency W V → Eff W (Returned W V)
  called (value v) = throw (py type_error [])
  called (coroutine_function body) = pure (awaitable body)
  called (async_generator_function cm) = pure (async_iterator cm)
  called (generator_function cm) = pure (iterator cm)
  called (callable f) = f

  abbrev pub set_compiled : Factory W V → Eff (Frame W V) (Unit {0})
  set_compiled f fr = (ok tt, record fr { depends = record fr.depends { get_compiled = some f } })

  abbrev pub set_compiled_async : Factory W V → Eff (Frame W V) (Unit {0})
  set_compiled_async f fr =
      (ok tt, record fr { depends = record fr.depends { get_compiled_async = some f } })

  -- The end of a resolution that has called a callable.
  abbrev pub compile_sync : Eff W (Returned W V) → Returned W V → Eff (Frame W V) (Returned W V)
  compile_sync f (context cm) = set_compiled (sync_context_call f) >> entered cm
  compile_sync f resolved = set_compiled (sync_call f) >> pure resolved

  abbrev pub compile_async : Eff W (Returned W V) → Returned W V → Eff (Frame W V) (Returned W V)
  compile_async f (context cm) = set_compiled (sync_context_call f) >> entered cm
  compile_async f (async_context cm) = set_compiled_async (async_context_call f) >> entered cm
  compile_async f resolved = set_compiled (sync_call f) >> pure resolved

  -- A dependency that is there is true, unless it is a value that is false.
  module _ (truthy : V → Bool) (container : Container W V) where
    abbrev pub counts : Dependency W V → Bool
    counts (value v) = truthy v
    counts _ = true

    abbrev pub asserted : Option (Dependency W V) → Eff (Frame W V) (Dependency W V)
    asserted none = throw (py assertion_error [])
    asserted (some d) = if counts d then pure d else throw (py assertion_error [])

    -- `container.get(self.dependency)` and the assertion
    abbrev pub found : Eff (Frame W V) (Dependency W V)
    found fr = asserted (get fr.depends.dependency container) fr

    -- Factories of another generation are dropped.
    abbrev pub refreshed : Frame W V → Frame W V
    refreshed fr = if nat_beq fr.depends.generation container.generation then fr else record fr {
      depends = record fr.depends {
        get_compiled = none;
        get_compiled_async = none;
        generation = container.generation;
      };
    }

    abbrev pub compiled_or :
        Option (Factory W V) → Eff (Frame W V) (Returned W V) → Eff (Frame W V) (Returned W V)
    compiled_or (some f) otherwise = run_factory f
    compiled_or none otherwise = otherwise

    abbrev pub compile_found_sync : Dependency W V → Eff (Frame W V) (Returned W V)
    compile_found_sync (value v) = set_compiled (value_factory v) >> run_factory (value_factory v)
    compile_found_sync (generator_function cm) =
        set_compiled (sync_context_call (pure (context cm)))
        >> run_factory (sync_context_call (pure (context cm)))
    compile_found_sync d = lifted (called d) >>= compile_sync (called d)

    -- `Depends.resolve_sync`
    unfoldable pub resolve_sync : Eff (Frame W V) (Returned W V)
    unfolding run_factory get
    resolve_sync fr =
        let fr' = refreshed fr in
        compiled_or fr'.depends.get_compiled (found >>= compile_found_sync) fr'

    -- `again` is the call of `resolve_async` at the end.
    abbrev pub compile_found_async :
        Eff (Frame W V) (Returned W V) → Dependency W V → Eff (Frame W V) (Returned W V)
    compile_found_async again (value v) = set_compiled (value_factory v) >> again
    compile_found_async again (coroutine_function body) =
        set_compiled_async (async_call (pure (awaitable body))) >> again
    compile_found_async again (async_generator_function cm) =
        set_compiled_async (async_context_call (pure (async_context cm))) >> again
    compile_found_async again (generator_function cm) =
        set_compiled (sync_context_call (pure (context cm))) >> again
    compile_found_async again (callable f) = lifted f >>= compile_async f

    -- `Depends.resolve_async`, with as many calls of itself.
    unfoldable pub resolve_async : ℕ → Eff (Frame W V) (Returned W V)
    unfolding run_factory get
    resolve_async zero fr = (raise (py runtime_error ("maximum recursion depth exceeded" ∷ [])), fr)
    resolve_async (suc n) fr =
        let fr' = refreshed fr in
        compiled_or fr'.depends.get_compiled_async
          (λ fr'.
            compiled_or fr'.depends.get_compiled (found >>= compile_found_async (resolve_async n))
              fr')
          fr'
