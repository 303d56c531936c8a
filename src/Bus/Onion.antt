-- ===== src/Bus/Onion.antt =====
-- The middlewares around a handler, the handler that a bus finds, and the tasks of an event.
use litestar_cqrs_example.Common.{
  suc, String, ◌≡◌, refl, ap, ◌∙◌, inl, inr, some, List, [], ◌∷◌, ◌++◌, arith, eq_iff,
  if◌then◌else◌, ◌==◌, nat_eq, string_eq, Bool-cases, length, All,
}
use litestar_cqrs_example.Errors.{ok, raise, bind-ok, ok_inj}
use litestar_cqrs_example.Effects.{Eff}
use litestar_cqrs_example.Bus.{
  Handler, Middleware, FactoryOr, resolve_factory, wrap_loop, reversed, wrap_middleware, set_item,
  get_item, QcBus, new_bus, register, get_handler, resolved, dispatch, call, unregistered, EventBus,
  safe_invoke, tasks, chosen, publish,
}

module _ {W T Q R : Type 0} where
  -- The first middleware is the outermost.
  abbrev pub onion : Handler W T Q R → List (Middleware W T Q R) → Handler W T Q R
  onion handler [] = handler
  onion handler (m ∷ ms) = m (onion handler ms)

  wrap_loop-append :
      (h : Handler W T Q R) (ms ns : List (Middleware W T Q R))
      → wrap_loop h (ms ++ ns) ≡ wrap_loop (wrap_loop h ms) ns
  unfolding wrap_loop
  wrap_loop-append h [] ns = refl
  wrap_loop-append h (m ∷ ms) ns = wrap_loop-append (m h) ms ns

  wrap_middleware-onion :
      (h : Handler W T Q R) (ms : List (Middleware W T Q R)) → wrap_middleware h ms ≡ onion h ms
  unfolding wrap_middleware wrap_loop
  wrap_middleware-onion h [] = refl
  wrap_middleware-onion h (m ∷ ms) =
      wrap_loop-append h (reversed ms) (m ∷ []) ∙ ap m (wrap_middleware-onion h ms)

module _ {V : Type 0} where
  get-set_item :
      (key asked : String) (v : V) (d : List (String × V))
      → get_item asked (set_item key v d) ≡ (if key == asked then some v else get_item asked d)
  unfolding get_item set_item
  get-set_item key asked v [] = ground (arith, eq_iff key asked)
  get-set_item key asked v ((k, u) ∷ d) = elim (Bool-cases (k == key)) [
    | inl same ↦ rw same (ground (arith, eq_iff key asked, eq_iff k asked, eq_iff k key))
    | inr other ↦
        rw other (
          ground
            (arith, get-set_item key asked v d, eq_iff key asked, eq_iff k asked, eq_iff k key))
  ]

module _ {W T Q R : Type 0} (type_of : Q → String) where
  -- A registration replaces the one for the same type of query, and no other.
  get_handler-register :
      (kind : String) (h : FactoryOr (Handler W T Q R)) (bus : QcBus W T Q R) (qc : Q)
      → get_handler type_of (register type_of kind h bus) qc ≡ (
          if kind == type_of qc
          then resolved type_of (type_of qc) (some h)
          else get_handler type_of bus qc)
  unfolding get_handler register
  get_handler-register kind h bus qc =
      rw (get-set_item kind (type_of qc) h bus.data_) (elim (Bool-cases (kind == type_of qc)) [
        | inl same ↦ rw (same, resolved) refl
        | inr other ↦ rw (other, resolved) refl
      ])

  dispatch-register :
      (kind : String) (v : FactoryOr (Handler W T Q R)) (h : Handler W T Q R) (bus : QcBus W T Q R)
      → resolve_factory v ≡ ok h
      → (context : T) (qc : Q) (w : W)
      → dispatch type_of (register type_of kind v bus) context qc w
        ≡ (if kind == type_of qc then h context qc w else dispatch type_of bus context qc w)
  unfolding dispatch
  dispatch-register kind v h bus made context qc w =
      rw (dispatch, get_handler-register kind v bus qc)
        (elim (Bool-cases (kind == type_of qc)) [
          | inl same ↦ rw (same, resolved, made) refl
          | inr other ↦ rw other refl
        ])

  -- A query goes through the middlewares of the bus, the first of them outermost, to the handler
  -- that was registered last for its type, or that the factory makes which was registered for it, and
  -- other types go where they went before.
  pub call-register :
      (kind : String) (v : FactoryOr (Handler W T Q R)) (h : Handler W T Q R) (bus : QcBus W T Q R)
      → resolve_factory v ≡ ok h
      → call type_of (register type_of kind v bus)
        ≡ onion
            (λ context qc w.
              if kind == type_of qc then h context qc w else dispatch type_of bus context qc w)
            bus.middlewares
  unfolding call register
  call-register kind v h bus made =
      wrap_middleware-onion (dispatch type_of (register type_of kind v bus)) bus.middlewares
      ∙ ap (λ f. onion f bus.middlewares)
          (λ i context qc w. dispatch-register kind v h bus made context qc w i)

  -- A bus without registrations answers every query with `UnregisteredHandlerError` at its core.
  pub call-new_bus :
      (ms : List (Middleware W T Q R))
      → call type_of (new_bus type_of ms)
        ≡ onion (λ context qc w. (raise (unregistered (type_of qc)), w)) ms
  unfolding call new_bus dispatch get_handler get_item
  call-new_bus ms = wrap_middleware-onion (dispatch type_of (new_bus type_of ms)) ms

module _ {W E : Type 0} (type_of : E → String) where
  abbrev pub Quiet : List (Eff W (Unit {0})) → Type 0
  Quiet = All (λ task. (w : W) → (task w).0 ≡ ok tt)

  tasks-Quiet :
      (event : E) (vs : List (FactoryOr (E → Eff W (Unit {0})))) (ts : List (Eff W (Unit {0})))
      → tasks type_of event vs ≡ ok ts
      → (length ts ≡ length vs) × Quiet ts
  unfolding safe_invoke
  tasks-Quiet event [] [] h = (refl, tt)
  tasks-Quiet event [] (_ ∷ _) h = absurd (cc h)
  tasks-Quiet event (v ∷ vs) ts h =
      let (handler, made, rest) = (bind-ok (resolve_factory v) _ ts).0 h in
      let (later, started, same) = (bind-ok (tasks type_of event vs) _ ts).0 rest in
      let (count, quiet) = tasks-Quiet event vs later started in
      rw (← ok_inj same) (ap suc count, ((λ w. refl), quiet))

  -- Publishing starts one task for each handler that was registered for the event's type, or for
  -- any event where there is none, and none of the tasks raises, whatever the handlers do.
  pub publish-Quiet :
      (events : EventBus W E) (event : E) (ts : List (Eff W (Unit {0})))
      → publish type_of events event ≡ ok ts
      → (length ts ≡ length (chosen type_of events event)) × Quiet ts
  unfolding publish
  publish-Quiet events event ts = tasks-Quiet event (chosen type_of events event) ts
