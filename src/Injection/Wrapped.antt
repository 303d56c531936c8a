-- ===== src/Injection/Wrapped.antt =====
-- src/backend/shared/di/__init__.py: a function whose dependencies `inject` resolves leaves every
-- context manager that was entered for them.
use litestar_cqrs_example.Common.{
  ℕ, ◌+◌, String, ◌≡◌, ◌∙◌, inl, inr, Bool, true, false, Option, none, some, List, [], ◌∷◌, All,
  length, arith,
}
use litestar_cqrs_example.Errors.{Exc, py, unbound_local_error, Try, Try-cases, ok, raise}
use litestar_cqrs_example.Effects.{Eff}
use litestar_cqrs_example.Injection.{
  Manager, Returned, plain, context, async_context, awaitable, iterator, async_iterator, Dependency,
  value, coroutine_function, async_generator_function, generator_function, callable, Depends, Frame,
  Container, entered, resolve_async,
}
use litestar_cqrs_example.Injection.Provided.{provided, given}

-- The world, and the exits that an `AsyncExitStack` will call, the last one first.
pub record Stack (W : Type 0) : Type 0 where
  pub world : W
  pub exits : List (Option Exc → Eff W Bool)

-- The arguments of a function by their names, and the markers of its dependencies,
-- each of them a marker of its own
abbrev pub Arguments : (W V : Type 0) → Type 0
Arguments W V = List (String × Returned W V)

abbrev pub Markers : (W V : Type 0) → Type 0
Markers W V = List (String × Depends W V)

-- What is raised after an exit: an exit that raises takes the place of what came before.
abbrev pub raised_after : Try Bool → Option Exc → Option Exc
raised_after (ok true) raised = none
raised_after (ok false) raised = raised
raised_after (raise e) raised = some e

abbrev pub raised : {B : Type 0} → Try B → Option Exc
raised (ok _) = none
raised (raise e) = some e

-- `return result` after the block, which has no result where an exception was suppressed.
abbrev pub returned : {B : Type 0} → Try B → Option Exc → Try B
returned _ (some e) = raise e
returned (ok b) none = ok b
returned (raise _) none = raise (py unbound_local_error ("result" ∷ []))

module _ {W : Type 0} where
  -- `AsyncExitStack.__aexit__`
  unfoldable pub run_exits : List (Option Exc → Eff W Bool) → Option Exc → W → Option Exc × W
  run_exits [] e w = (e, w)
  run_exits (exit ∷ exits) e w = let (end, w') = exit e w in run_exits exits (raised_after end e) w'

  -- A count of the context managers that are entered.
  module _ (opened : W → ℕ) where
    abbrev pub Keeps : {A : Type 0} → Eff W A → Type 0
    Keeps body = (w : W) → opened (body w).1 ≡ opened w

    abbrev pub Leaves : (Option Exc → Eff W Bool) → Type 0
    Leaves exit = (e : Option Exc) (w : W) (n : ℕ) → opened w ≡ n + 1 → opened (exit e w).1 ≡ n

    abbrev pub Held : ℕ → Stack W → Type 0
    Held n st = (opened st.world ≡ n + length st.exits) × All Leaves st.exits

    pub run_exits-Held :
        (n : ℕ) (exits : List (Option Exc → Eff W Bool)) (e : Option Exc) (w : W)
        → opened w ≡ n + length exits
        → All Leaves exits
        → opened (run_exits exits e w).1 ≡ n
    unfolding run_exits
    run_exits-Held n [] e w count all = omega (arith, count)
    run_exits-Held n (exit ∷ exits) e w count (leaves, all) =
        run_exits-Held n exits (raised_after (exit e w).0 e) (exit e w).1
          (leaves e w (n + length exits) (omega (arith, count))) all

module _ {W : Type 0} {V : Type 0} where
  abbrev pub frame_of : Stack W → Depends W V → Frame W V
  frame_of st depends = record { world = st.world; exits = st.exits; depends = depends }

  abbrev pub stack_of : Frame W V → Stack W
  stack_of fr = record { world = fr.world; exits = fr.exits }

  abbrev pub called_with : {B : Type 0} → (Arguments W V → Eff W B) → Try (Arguments W V) → Eff W B
  called_with body (ok args) w = body args w
  called_with body (raise e) w = (raise e, w)

  abbrev pub with_argument : String → Returned W V → Try (Arguments W V) → Try (Arguments W V)
  with_argument k r (ok args) = ok ((k, r) ∷ args)
  with_argument k r (raise e) = raise e

  module _ (truthy : V → Bool) (container : Container W V) where
    -- `{k: await v.resolve_async(container, exits) for k, v in cache.items()}`
    unfoldable pub resolve_all :
        Markers W V → Stack W → Try (Arguments W V) × (Markers W V × Stack W)
    unfolding resolve_async
    resolve_all [] st = (ok [], ([], st))
    resolve_all ((k, depends) ∷ markers) st =
        let (t, fr) = resolve_async truthy container 2 (frame_of st depends) in
        let (t', (markers', st')) = resolve_all markers (stack_of fr) in
        elim t [
          | raise e ↦ (raise e, ((k, fr.depends) ∷ markers, stack_of fr))
          | ok r ↦ (with_argument k r t', ((k, fr.depends) ∷ markers', st'))
        ]

    -- `_wrapper` of `_wrap_async_injection`
    unfoldable pub wrap_async_injection :
        {B : Type 0} → (Arguments W V → Eff W B) → Markers W V → W → Try B × (Markers W V × W)
    unfolding resolve_all run_exits
    wrap_async_injection coro cache w =
        let (t, (cache', st)) = resolve_all cache (record { world = w; exits = [] }) in
        let (t', w') = called_with coro t st.world in
        let (e, w'') = run_exits st.exits (raised t') w' in (returned t' e, (cache', w''))

  -- A count of the context managers that are entered.
  module _ (opened : W → ℕ) where
    -- Entering counts up where it succeeds, and leaving counts down, also where it raises.
    abbrev pub Counted : Manager W V → Type 0
    Counted cm =
        ((w : W) (v : V) → (cm.enter w).0 ≡ ok v → opened (cm.enter w).1 ≡ opened w + 1)
        × ((w : W) (e : Exc) → (cm.enter w).0 ≡ raise e → opened (cm.enter w).1 ≡ opened w)
        × Leaves opened cm.leave

    abbrev pub CountedResult : Returned W V → Type 0
    CountedResult (context cm) = Counted cm
    CountedResult (async_context cm) = Counted cm
    CountedResult _ = Unit

    -- A dependency changes the count only by the managers that it gives.
    abbrev pub Balanced : Dependency W V → Type 0
    Balanced (value v) = Unit
    Balanced (coroutine_function body) = Keeps opened body
    Balanced (async_generator_function cm) = Counted cm
    Balanced (generator_function cm) = Counted cm
    Balanced (callable f) =
        Keeps opened f × ((w : W) (r : Returned W V) → (f w).0 ≡ ok r → CountedResult r)

    entered-Held :
        (n : ℕ) (cm : Manager W V) (fr : Frame W V)
        → Counted cm
        → Held opened n (stack_of fr)
        → Held opened n (stack_of (entered cm fr).1)
    entered-Held n cm fr (up, still, leaves) (count, all) = elim (Try-cases (cm.enter fr.world).0) [
      | inl (v, e) ↦ let more = up fr.world v e in rw e (omega (arith, more, count), (leaves, all))
      | inr (x, e) ↦ rw e (still fr.world x e ∙ count, all)
    ]

    given-Held :
        (n : ℕ) (r : Returned W V) (fr : Frame W V)
        → CountedResult r
        → Held opened n (stack_of fr)
        → Held opened n (stack_of (given r fr).1)
    given-Held n (plain v) fr counted held = held
    given-Held n (context cm) fr counted held = entered-Held n cm fr counted held
    given-Held n (async_context cm) fr counted held = entered-Held n cm fr counted held
    given-Held n (awaitable body) fr counted held = held
    given-Held n (iterator cm) fr counted held = held
    given-Held n (async_iterator cm) fr counted held = held

    pub provided-Held :
        (n : ℕ) (d : Dependency W V) (fr : Frame W V)
        → Balanced d
        → Held opened n (stack_of fr)
        → Held opened n (stack_of (provided d fr).1)
    unfolding provided
    provided-Held n (value v) fr balanced held = held
    provided-Held n (coroutine_function body) fr keeps (count, all) =
        elim (Try-cases (body fr.world).0) [
          | inl (v, e) ↦ rw e (keeps fr.world ∙ count, all)
          | inr (x, e) ↦ rw e (keeps fr.world ∙ count, all)
        ]
    provided-Held n (async_generator_function cm) fr counted held =
        entered-Held n cm fr counted held
    provided-Held n (generator_function cm) fr counted held = entered-Held n cm fr counted held
    provided-Held n (callable f) fr (keeps, results) (count, all) =
        elim (Try-cases (f fr.world).0) [
          | inl (r, e) ↦ rw e (
              given-Held n r (record fr { world = (f fr.world).1 }) (results fr.world r e)
                (keeps fr.world ∙ count, all))
          | inr (x, e) ↦ rw e (keeps fr.world ∙ count, all)
        ]
