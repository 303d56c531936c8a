-- ===== src/Bus.antt =====
-- src/backend/app/bus/core.py and src/backend/app/bus/middlewares/__init__.py: the bus that sends a
-- query or a command to its handler, through the middlewares, and the bus of events.
use litestar_cqrs_example.Common.{
  String, not, Option, none, some, List, [], ◌∷◌, ◌++◌, if◌then◌else◌, ◌==◌, nat_eq, string_eq,
  is_empty, ◌+s◌,
}
use litestar_cqrs_example.Errors.{Exc, py, key_error, library_error, Try, ok, raise, ◌>>=◌}
use litestar_cqrs_example.Effects.{Eff}
pub mod Onion
pub mod Builder
pub mod Caching
pub mod Epochs
mod Tests

-- `UnregisteredHandlerError`
abbrev pub unregistered : String → Exc
unregistered kind = py library_error (("Handler for `" +s kind +s "` is not registered") ∷ [])

-- A handler, and a middleware, which gets the next handler first.
abbrev pub Handler : (W T Q R : Type 0) → Type 0
Handler W T Q R = T → Q → Eff W R

abbrev pub Middleware : (W T Q R : Type 0) → Type 0
Middleware W T Q R = Handler W T Q R → Handler W T Q R

-- A value, or a callable that makes one.
pub data FactoryOr (H : Type 0) : Type 0 where
  ready : H → FactoryOr H
  factory : Try H → FactoryOr H

-- `_resolve_factory`
unfoldable pub resolve_factory : {H : Type 0} → FactoryOr H → Try H
resolve_factory (ready h) = ok h
resolve_factory (factory made) = made

module _ {W T Q R : Type 0} where
  -- The loop of `wrap_middleware` over the middlewares that are left.
  unfoldable pub wrap_loop : Handler W T Q R → List (Middleware W T Q R) → Handler W T Q R
  wrap_loop middleware [] = middleware
  wrap_loop middleware (m ∷ ms) = wrap_loop (m middleware) ms

  abbrev pub reversed : List (Middleware W T Q R) → List (Middleware W T Q R)
  reversed [] = []
  reversed (m ∷ ms) = reversed ms ++ m ∷ []

  unfoldable pub wrap_middleware : Handler W T Q R → List (Middleware W T Q R) → Handler W T Q R
  unfolding wrap_loop
  wrap_middleware call_next middlewares = wrap_loop call_next (reversed middlewares)

-- `d[key] = value` and `d[key]` of a dictionary
module _ {V : Type 0} where
  unfoldable pub set_item : String → V → List (String × V) → List (String × V)
  set_item key v [] = (key, v) ∷ []
  set_item key v ((k, u) ∷ d) =
      let rest = set_item key v d in if k == key then (k, v) ∷ d else (k, u) ∷ rest

  unfoldable pub get_item : String → List (String × V) → Option V
  get_item key [] = none
  get_item key ((k, u) ∷ d) = let later = get_item key d in if k == key then some u else later

-- The `except KeyError` catches one that the factory raises, too.
abbrev pub as_unregistered : {A : Type 0} → String → Try A → Try A
as_unregistered kind (ok a) = ok a
as_unregistered kind (raise (py key_error _)) = raise (unregistered kind)
as_unregistered kind (raise e) = raise e

abbrev pub or_empty : {A : Type 0} → Option (List A) → List A
or_empty none = []
or_empty (some xs) = xs

abbrev pub run_handler : {W T Q R : Type 0} → Try (Handler W T Q R) → Handler W T Q R
run_handler (ok handler) context qc w = handler context qc w
run_handler (raise e) context qc w = (raise e, w)

-- `QCBus`: the handlers by the name of the query's type, and the middlewares.
pub record QcBus (W T Q R : Type 0) : Type 0 where
  pub data_ : List (String × FactoryOr (Handler W T Q R))
  pub middlewares : List (Middleware W T Q R)

module _ {W T Q R : Type 0} (type_of : Q → String) where
  unfoldable pub new_bus : List (Middleware W T Q R) → QcBus W T Q R
  new_bus middlewares = record { data_ = []; middlewares = middlewares }

  unfoldable pub register : String → FactoryOr (Handler W T Q R) → QcBus W T Q R → QcBus W T Q R
  unfolding set_item
  register qc handler bus = record bus { data_ = set_item qc handler bus.data_ }

  abbrev pub resolved : String → Option (FactoryOr (Handler W T Q R)) → Try (Handler W T Q R)
  resolved kind none = raise (unregistered kind)
  resolved kind (some v) = as_unregistered kind (resolve_factory v)

  -- `_get_handler`
  unfoldable pub get_handler : QcBus W T Q R → Q → Try (Handler W T Q R)
  unfolding get_item resolve_factory
  get_handler bus qc = resolved (type_of qc) (get_item (type_of qc) bus.data_)

  -- `dispatch` of `_make_dispatch`
  unfoldable pub dispatch : QcBus W T Q R → Handler W T Q R
  unfolding get_handler
  dispatch bus context qc = run_handler (get_handler bus qc) context qc

  -- `__call__`, awaited
  unfoldable pub call : QcBus W T Q R → Handler W T Q R
  unfolding dispatch wrap_middleware
  call bus = wrap_middleware (dispatch bus) bus.middlewares

  -- `send_unwrapped` asks for the handler at once, and its proxy then runs it without middlewares.
  unfoldable pub send_unwrapped : QcBus W T Q R → T → Q → Try (Eff W R)
  unfolding get_handler
  send_unwrapped bus context qc = get_handler bus qc >>= λ handler. ok (λ w. handler context qc w)

-- `EventBus`: handlers by the type of the event; `any_event` is `AnyEventMarker`.
abbrev pub any_event : String
any_event = "AnyEventMarker"

abbrev pub EventBus : (W E : Type 0) → Type 0
EventBus W E = List (String × List (FactoryOr (E → Eff W (Unit {0}))))

module _ {W E : Type 0} (type_of : E → String) where
  unfoldable pub register_event :
      String → List (FactoryOr (E → Eff W (Unit {0}))) → EventBus W E → EventBus W E
  unfolding set_item get_item
  register_event event_type handlers events =
      set_item event_type (or_empty (get_item event_type events) ++ handlers) events

  unfoldable pub register_any :
      List (FactoryOr (E → Eff W (Unit {0}))) → EventBus W E → EventBus W E
  unfolding register_event
  register_any = register_event any_event

  -- `_safe_invoke`: what a handler raises is logged.
  unfoldable pub safe_invoke : (E → Eff W (Unit {0})) → E → Eff W (Unit {0})
  safe_invoke handler event w = (ok tt, (handler event w).1)

  abbrev pub tasks : E → List (FactoryOr (E → Eff W (Unit {0}))) → Try (List (Eff W (Unit {0})))
  tasks event [] = ok []
  tasks event (v ∷ vs) = do
    handler ← resolve_factory v
    later ← tasks event vs
    ok (safe_invoke handler event ∷ later)

  -- The event's own handlers, or those of any event where it has none.
  unfoldable pub chosen : EventBus W E → E → List (FactoryOr (E → Eff W (Unit {0})))
  unfolding get_item
  chosen events event =
      let own = or_empty (get_item (type_of event) events) in
      if is_empty own then or_empty (get_item any_event events) else own

  -- `publish` starts the tasks and does not wait for them.
  unfoldable pub publish : EventBus W E → E → Try (List (Eff W (Unit {0})))
  unfolding resolve_factory safe_invoke chosen
  publish events event = tasks event (chosen events event)
