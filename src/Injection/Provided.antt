-- ===== src/Injection/Provided.antt =====
-- What a dependency provides, and that a factory which is compiled for it provides the same.
use litestar_cqrs_example.Common.{◌≡◌, refl, ap, ◌∙◌, inl, inr, Bool, Option, none, some}
use litestar_cqrs_example.Errors.{Exc, Try, Try-cases, ok, raise}
use litestar_cqrs_example.Effects.{Eff, pure, ◌>>=◌}
use litestar_cqrs_example.Injection.{
  Manager, Returned, plain, context, async_context, awaitable, iterator, async_iterator, Dependency,
  value, coroutine_function, async_generator_function, generator_function, callable, Factory,
  value_factory, sync_call, sync_context_call, async_call, async_context_call, Depends, Frame,
  Container, lifted, entered, run_factory, compiled_or,
}

-- What the result of a call asks for.
pub data Kind : Type 0 where
  enters enters_async gives : Kind

module _ {W : Type 0} {V : Type 0} where
  abbrev pub kind : Returned W V → Kind
  kind (context cm) = enters
  kind (async_context cm) = enters_async
  kind _ = gives

  -- The calls of a callable that return all ask for the same.
  abbrev pub Steady : Dependency W V → Type 0
  Steady (callable f) =
      (w w' : W) (r r' : Returned W V) → (f w).0 ≡ ok r → (f w').0 ≡ ok r' → kind r ≡ kind r'
  Steady _ = Unit

  abbrev pub given : Returned W V → Eff (Frame W V) (Returned W V)
  given (context cm) = entered cm
  given (async_context cm) = entered cm
  given r = pure r

  -- What a dependency provides: a context manager is entered, a coroutine is awaited, and a callable is
  -- called.
  unfoldable pub provided : Dependency W V → Eff (Frame W V) (Returned W V)
  provided (value v) = pure (plain v)
  provided (coroutine_function body) = lifted body >>= λ v. pure (plain v)
  provided (async_generator_function cm) = entered cm
  provided (generator_function cm) = entered cm
  provided (callable f) = lifted f >>= given

  abbrev pub with_depends :
      Depends W V → Try (Returned W V) × Frame W V → Try (Returned W V) × Frame W V
  with_depends depends (t, fr) = (t, record fr { depends = depends })

  -- The asynchronous factory and the other one that are compiled for a callable.
  abbrev pub factories : Eff W (Returned W V) → Kind → Option (Factory W V) × Option (Factory W V)
  factories f enters = (none, some (sync_context_call f))
  factories f enters_async = (some (async_context_call f), none)
  factories f gives = (none, some (sync_call f))

  abbrev pub Compiled : Depends W V → Option (Factory W V) → Option (Factory W V) → Type 0
  Compiled depends async_factory factory =
      (depends.get_compiled_async ≡ async_factory) × (depends.get_compiled ≡ factory)

  -- The marker has the factory of the dependency.
  abbrev pub CompiledFor : Dependency W V → Depends W V → Type 0
  CompiledFor (value v) depends = Compiled depends none (some (value_factory v))
  CompiledFor (coroutine_function body) depends =
      Compiled depends (some (async_call (pure (awaitable body)))) none
  CompiledFor (async_generator_function cm) depends =
      Compiled depends (some (async_context_call (pure (async_context cm)))) none
  CompiledFor (generator_function cm) depends =
      Compiled depends none (some (sync_context_call (pure (context cm))))
  CompiledFor (callable f) depends =
      (w : W) × (r : Returned W V) × ((f w).0 ≡ ok r)
      × Compiled depends (factories f (kind r)).0 (factories f (kind r)).1

  pub entered-with :
      (cm : Manager W V) (fr : Frame W V) (depends : Depends W V)
      → entered cm (record fr { depends = depends }) ≡ with_depends depends (entered cm fr)
  entered-with cm fr depends = elim (Try-cases (cm.enter fr.world).0) [
    | inl (v, e) ↦ rw e refl
    | inr (x, e) ↦ rw e refl
  ]

  given-with :
      (r : Returned W V) (fr : Frame W V) (depends : Depends W V)
      → given r (record fr { depends = depends }) ≡ with_depends depends (given r fr)
  given-with (plain v) fr depends = refl
  given-with (context cm) fr depends = entered-with cm fr depends
  given-with (async_context cm) fr depends = entered-with cm fr depends
  given-with (awaitable body) fr depends = refl
  given-with (iterator cm) fr depends = refl
  given-with (async_iterator cm) fr depends = refl

  -- What is provided does not look at the marker.
  pub provided-with :
      (d : Dependency W V) (fr : Frame W V) (depends : Depends W V)
      → provided d (record fr { depends = depends }) ≡ with_depends depends (provided d fr)
  unfolding provided
  provided-with (value v) fr depends = refl
  provided-with (coroutine_function body) fr depends = elim (Try-cases (body fr.world).0) [
    | inl (v, e) ↦ rw e refl
    | inr (x, e) ↦ rw e refl
  ]
  provided-with (async_generator_function cm) fr depends = entered-with cm fr depends
  provided-with (generator_function cm) fr depends = entered-with cm fr depends
  provided-with (callable f) fr depends = elim (Try-cases (f fr.world).0) [
    | inl (r, e) ↦ rw e (given-with r (record fr { world = (f fr.world).1 }) depends)
    | inr (x, e) ↦ rw e refl
  ]

  module _ (truthy : V → Bool) (container : Container W V) where
    -- The factory for a kind, where the call gives a result of this kind
    run_given :
        (f : Eff W (Returned W V)) (k : Kind) (fr : Frame W V)
        (otherwise : Eff (Frame W V) (Returned W V))
        → ((r : Returned W V) → (f fr.world).0 ≡ ok r → kind r ≡ k)
        → compiled_or truthy container
            (factories f k).0
            (compiled_or truthy container (factories f k).1 otherwise)
            fr
          ≡ (lifted f >>= given) fr
    unfolding run_factory
    run_given f k fr otherwise same = elim (Try-cases (f fr.world).0) [
      | inr (x, e) ↦ raised k x e
      | inl (r, e) ↦ returned k r e (same r e)
    ]
      where
        raised :
            (k : Kind) (x : Exc)
            → (f fr.world).0 ≡ raise x
            → compiled_or truthy container
                (factories f k).0
                (compiled_or truthy container (factories f k).1 otherwise)
                fr
              ≡ (lifted f >>= given) fr
        raised enters x e = rw e refl
        raised enters_async x e = rw e refl
        raised gives x e = rw e refl

        returned :
            (k : Kind) (r : Returned W V)
            → (f fr.world).0 ≡ ok r
            → kind r ≡ k
            → compiled_or truthy container
                (factories f k).0
                (compiled_or truthy container (factories f k).1 otherwise)
                fr
              ≡ (lifted f >>= given) fr
        returned enters (context cm) e h = rw e refl
        returned enters_async (async_context cm) e h = rw e refl
        returned gives (plain v) e h = rw e refl
        returned gives (awaitable body) e h = rw e refl
        returned gives (iterator cm) e h = rw e refl
        returned gives (async_iterator cm) e h = rw e refl
        returned enters (plain v) e h = absurd (cc h)
        returned enters (async_context cm) e h = absurd (cc h)
        returned enters (awaitable body) e h = absurd (cc h)
        returned enters (iterator cm) e h = absurd (cc h)
        returned enters (async_iterator cm) e h = absurd (cc h)
        returned enters_async (plain v) e h = absurd (cc h)
        returned enters_async (context cm) e h = absurd (cc h)
        returned enters_async (awaitable body) e h = absurd (cc h)
        returned enters_async (iterator cm) e h = absurd (cc h)
        returned enters_async (async_iterator cm) e h = absurd (cc h)
        returned gives (context cm) e h = absurd (cc h)
        returned gives (async_context cm) e h = absurd (cc h)

    -- A marker with the factory of a dependency provides this.
    pub run_compiled :
        (d : Dependency W V) (fr : Frame W V) (otherwise : Eff (Frame W V) (Returned W V))
        → Steady d
        → CompiledFor d fr.depends
        → compiled_or truthy container fr.depends.get_compiled_async
            (compiled_or truthy container fr.depends.get_compiled otherwise)
            fr
          ≡ provided d fr
    unfolding run_factory provided
    run_compiled (value v) fr otherwise steady (a, b) = rw (a, b) refl
    run_compiled (coroutine_function body) fr otherwise steady (a, b) = rw (a, b) refl
    run_compiled (async_generator_function cm) fr otherwise steady (a, b) = rw (a, b) refl
    run_compiled (generator_function cm) fr otherwise steady (a, b) = rw (a, b) refl
    run_compiled (callable f) fr otherwise steady (w, r, e, (a, b)) =
        ap
          (λ a.
            compiled_or truthy container a
              (compiled_or truthy container fr.depends.get_compiled otherwise) fr)
          a
        ∙ ap
            (λ b.
              compiled_or truthy container (factories f (kind r)).0
                (compiled_or truthy container b otherwise) fr)
            b
        ∙ run_given f (kind r) fr otherwise (λ r' e'. steady fr.world w r' r e' e)

    -- The same, as the resolution asks for its factories
    pub compiled_in_turn :
        (a : Option (Factory W V)) (fr : Frame W V) (otherwise : Eff (Frame W V) (Returned W V))
        → compiled_or truthy container a
            (λ fr'. compiled_or truthy container fr'.depends.get_compiled otherwise fr')
            fr
          ≡ compiled_or truthy container a
              (compiled_or truthy container fr.depends.get_compiled otherwise)
              fr
    compiled_in_turn none fr otherwise = refl
    compiled_in_turn (some f) fr otherwise = refl
