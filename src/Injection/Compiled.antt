-- ===== src/Injection/Compiled.antt =====
-- The resolution of a marker provides its dependency, whether it is compiled or looked up.
use litestar_cqrs_example.Common.{
  ℕ, suc, ◌≡◌, refl, ap, ◌∙◌, ◌⊎◌, inl, inr, Bool, true, false, Option, none, some, nat_beq,
  nat_beq_iff, if◌then◌else◌,
}
use litestar_cqrs_example.Errors.{Try, Try-cases, ok}
use litestar_cqrs_example.Effects.{Eff, pure, continue, ◌>>=◌}
use litestar_cqrs_example.Injection.{
  Returned, plain, context, async_context, awaitable, iterator, async_iterator, Dependency, value,
  coroutine_function, async_generator_function, generator_function, callable, Factory,
  value_factory, sync_call, sync_context_call, async_call, async_context_call, Depends, Frame,
  Container, get, lifted, counts, found, refreshed, compiled_or, compile_async, compile_found_async,
  resolve_async,
}
use litestar_cqrs_example.Injection.Provided.{
  Steady, provided, with_depends, CompiledFor, entered-with, provided-with, compiled_in_turn,
  run_compiled,
}

module _ {W : Type 0} {V : Type 0} where
  module _ (truthy : V → Bool) (container : Container W V) where
    -- The marker has the factory of the dependency in this generation, or it has no factory of this
    -- generation and the container gives the dependency.
    abbrev pub Current : Dependency W V → Depends W V → Type 0
    Current d depends = (depends.generation ≡ container.generation) × CompiledFor d depends

    abbrev pub Blank : Dependency W V → Depends W V → Type 0
    Blank d depends =
        (get depends.dependency container ≡ some d)
        × (counts truthy container d ≡ true)
        × ((nat_beq depends.generation container.generation ≡ false)
            ⊎ ((depends.generation ≡ container.generation)
                × ((depends.get_compiled_async ≡ none) × (depends.get_compiled ≡ none))))

    abbrev pub Fits : Dependency W V → Depends W V → Type 0
    Fits d depends = Current d depends ⊎ Blank d depends

    refreshed-same :
        (fr : Frame W V)
        → fr.depends.generation ≡ container.generation
        → refreshed truthy container fr ≡ fr
    refreshed-same fr h =
        ap
          (λ b. if b then fr else record fr {
            depends = record fr.depends {
              get_compiled = none;
              get_compiled_async = none;
              generation = container.generation;
            };
          })
          ((nat_beq_iff fr.depends.generation container.generation).1 h)

    pub resolve-Current :
        (n : ℕ) (d : Dependency W V) (fr : Frame W V)
        → Steady d
        → Current d fr.depends
        → resolve_async truthy container (suc n) fr ≡ provided d fr
    unfolding resolve_async
    resolve-Current n d fr steady (same, compiled) =
        ap
          (λ fr.
            compiled_or truthy container fr.depends.get_compiled_async
              (λ fr'.
                compiled_or truthy container fr'.depends.get_compiled
                  (found truthy container
                    >>= compile_found_async truthy container (resolve_async truthy container n))
                  fr')
              fr)
          (refreshed-same fr same)
        ∙ compiled_in_turn truthy container fr.depends.get_compiled_async fr (
            found truthy container
            >>= compile_found_async truthy container (resolve_async truthy container n))
        ∙ run_compiled truthy container d fr
            (found truthy container
              >>= compile_found_async truthy container (resolve_async truthy container n))
            steady compiled

    abbrev marked : ℕ → Option (Factory W V) → Option (Factory W V) → Frame W V → Frame W V
    marked generation a b fr = record fr {
      depends = record fr.depends {
        get_compiled = b;
        get_compiled_async = a;
        generation = generation;
      };
    }

    refreshed-Blank :
        (d : Dependency W V) (fr : Frame W V)
        → Blank d fr.depends
        → refreshed truthy container fr ≡ marked container.generation none none fr
    refreshed-Blank d fr (_, _, inl other) =
        ap (λ b. if b then fr else marked container.generation none none fr) other
    refreshed-Blank d fr (_, _, inr (same, (a, b))) =
        refreshed-same fr same
        ∙ ap (λ g. marked g fr.depends.get_compiled_async fr.depends.get_compiled fr) same
        ∙ ap (λ a. marked container.generation a fr.depends.get_compiled fr) a
        ∙ ap (λ b. marked container.generation none b fr) b

    found_lem :
        (d : Dependency W V) (fr : Frame W V)
        → get fr.depends.dependency container ≡ some d
        → counts truthy container d ≡ true
        → found truthy container fr ≡ (ok d, fr)
    found_lem d fr has good = rw has (rw good refl)

    -- The resolution does what the dependency provides, and its marker fits the dependency.
    abbrev pub Provides : Dependency W V → Frame W V → Try (Returned W V) × Frame W V → Type 0
    Provides d fr end =
        (depends : Depends W V) × (end ≡ with_depends depends (provided d fr)) × Fits d depends

    -- With the factory set, the last call of the resolution provides the dependency.
    resolve_set :
        (n : ℕ) (d : Dependency W V) (fr : Frame W V) (a b : Option (Factory W V))
        → Steady d
        → CompiledFor d (marked container.generation a b fr).depends
        → Provides d fr
            (resolve_async truthy container (suc n) (marked container.generation a b fr))
    resolve_set n d fr a b steady compiled = (
      (marked container.generation a b fr).depends,
      resolve-Current n d (marked container.generation a b fr) steady (refl, compiled)
          ∙ provided-with d fr (marked container.generation a b fr).depends,
      inl (refl, compiled),
    )

    called_lem :
        (f : Eff W (Returned W V)) (fr : Frame W V) (r : Returned W V)
        → (f fr.world).0 ≡ ok r
        → Provides
            (callable f)
            fr
            ((lifted f >>= compile_async f) (marked container.generation none none fr))
    unfolding provided
    called_lem f fr (context cm) e = (
      (marked container.generation none (some (sync_context_call f)) fr).depends,
      rw e (
          entered-with cm (record fr { world = (f fr.world).1 })
            (marked container.generation none (some (sync_context_call f)) fr).depends),
      inl (refl, (fr.world, context cm, e, (refl, refl))),
    )
    called_lem f fr (async_context cm) e = (
      (marked container.generation (some (async_context_call f)) none fr).depends,
      rw e (
          entered-with cm (record fr { world = (f fr.world).1 })
            (marked container.generation (some (async_context_call f)) none fr).depends),
      inl (refl, (fr.world, async_context cm, e, (refl, refl))),
    )
    called_lem f fr (plain v) e = (
      (marked container.generation none (some (sync_call f)) fr).depends,
      rw e refl,
      inl (refl, (fr.world, plain v, e, (refl, refl))),
    )
    called_lem f fr (awaitable body) e = (
      (marked container.generation none (some (sync_call f)) fr).depends,
      rw e refl,
      inl (refl, (fr.world, awaitable body, e, (refl, refl))),
    )
    called_lem f fr (iterator cm) e = (
      (marked container.generation none (some (sync_call f)) fr).depends,
      rw e refl,
      inl (refl, (fr.world, iterator cm, e, (refl, refl))),
    )
    called_lem f fr (async_iterator cm) e = (
      (marked container.generation none (some (sync_call f)) fr).depends,
      rw e refl,
      inl (refl, (fr.world, async_iterator cm, e, (refl, refl))),
    )

    compile_found :
        (n : ℕ) (d : Dependency W V) (fr : Frame W V)
        → Steady d
        → get fr.depends.dependency container ≡ some d
        → counts truthy container d ≡ true
        → Provides d fr (
            compile_found_async truthy container
              (resolve_async truthy container (suc n))
              d
              (marked container.generation none none fr))
    unfolding provided
    compile_found n (value v) fr steady has good =
        resolve_set n (value v) fr none (some (value_factory v)) steady (refl, refl)
    compile_found n (coroutine_function body) fr steady has good =
        resolve_set n (coroutine_function body) fr (some (async_call (pure (awaitable body)))) none
          steady (refl, refl)
    compile_found n (async_generator_function cm) fr steady has good =
        resolve_set n (async_generator_function cm) fr
          (some (async_context_call (pure (async_context cm)))) none steady (refl, refl)
    compile_found n (generator_function cm) fr steady has good =
        resolve_set n (generator_function cm) fr none (some (sync_context_call (pure (context cm))))
          steady (refl, refl)
    compile_found n (callable f) fr steady has good = elim (Try-cases (f fr.world).0) [
      | inl (r, e) ↦ called_lem f fr r e
      | inr (x, e) ↦ (
        (marked container.generation none none fr).depends,
        rw (e, provided) refl,
        inr (has, good, inr (refl, (refl, refl))),
      )
    ]

    abbrev looked_up : ℕ → Eff (Frame W V) (Returned W V)
    looked_up n =
        found truthy container
        >>= compile_found_async truthy container (resolve_async truthy container (suc n))

    abbrev asks : ℕ → Eff (Frame W V) (Returned W V)
    asks n fr =
        compiled_or truthy container fr.depends.get_compiled_async
          (λ fr'. compiled_or truthy container fr'.depends.get_compiled (looked_up n) fr') fr

    resolve_refreshed :
        (n : ℕ) (fr : Frame W V)
        → resolve_async truthy container (suc (suc n)) fr ≡ asks n (refreshed truthy container fr)
    unfolding resolve_async
    resolve_refreshed n fr = refl

    pub resolve-Blank :
        (n : ℕ) (d : Dependency W V) (fr : Frame W V)
        → Steady d
        → Blank d fr.depends
        → Provides d fr (resolve_async truthy container (suc (suc n)) fr)
    resolve-Blank n d fr steady (has, good, stale) =
        let (depends, e, fits) = compile_found n d fr steady has good in
        (
          depends,
          resolve_refreshed n fr
              ∙ ap (asks n) (refreshed-Blank d fr (has, good, stale))
              ∙ ap
                  (λ x.
                    continue x.0
                      (compile_found_async truthy container
                        (resolve_async truthy container (suc n)))
                      x.1)
                  (found_lem d (marked container.generation none none fr) has good)
              ∙ e,
          fits,
        )

    -- A resolution provides the dependency, whether its marker has compiled a factory for it or looks
    -- it up, and its marker fits the dependency again; two calls of itself are enough. A callable's
    -- results are taken to be of one kind.
    pub resolve_async-Provides :
        (n : ℕ) (d : Dependency W V) (fr : Frame W V)
        → Steady d
        → Fits d fr.depends
        → Provides d fr (resolve_async truthy container (suc (suc n)) fr)
    resolve_async-Provides n d fr steady (inl current) = (
      fr.depends,
      resolve-Current (suc n) d fr steady current ∙ provided-with d fr fr.depends,
      inl current,
    )
    resolve_async-Provides n d fr steady (inr blank) = resolve-Blank n d fr steady blank
