-- ===== src/Injection/Balance.antt =====
-- A function whose dependencies `inject` resolves leaves every context manager that it entered.
use litestar_cqrs_example.Common.{ℕ, String, ◌≡◌, refl, sym, ◌∙◌, Bool, [], ◌∷◌, All, arith}
use mathlib.Core.Path.{subst}
use litestar_cqrs_example.Errors.{Try, ok, raise}
use litestar_cqrs_example.Effects.{Eff}
use litestar_cqrs_example.Injection.{Returned, Dependency, Depends, Frame, Container, resolve_async}
use litestar_cqrs_example.Injection.Provided.{Steady, provided}
use litestar_cqrs_example.Injection.Compiled.{Fits, resolve_async-Provides}
use litestar_cqrs_example.Injection.Wrapped.{
  Arguments, Markers, Stack, Keeps, Held, Balanced, frame_of, stack_of, with_argument, called_with,
  raised, resolve_all, wrap_async_injection, provided-Held, run_exits-Held,
}

module _ {W : Type 0} {V : Type 0} (truthy : V → Bool) (container : Container W V)
    (opened : W → ℕ) where
  -- The marker fits a dependency whose managers count.
  abbrev pub Ready : String × Depends W V → Type 0
  Ready marker =
      (d : Dependency W V) × Fits truthy container d marker.1 × Steady d × Balanced opened d

  abbrev Good : ℕ → Try (Arguments W V) × (Markers W V × Stack W) → Type 0
  Good n end = Held opened n end.1.1 × All Ready end.1.0

  -- What `resolve_all` does after the resolution of its first marker.
  abbrev after_first :
      String
      → Markers W V
      → Try (Returned W V) × Frame W V
      → Try (Arguments W V) × (Markers W V × Stack W)
  after_first k markers end = elim end.0 [
    | raise e ↦ (raise e, ((k, end.1.depends) ∷ markers, stack_of end.1))
    | ok r ↦ (
      with_argument k r (resolve_all truthy container markers (stack_of end.1)).0,
      (
        (k, end.1.depends) ∷ (resolve_all truthy container markers (stack_of end.1)).1.0,
        (resolve_all truthy container markers (stack_of end.1)).1.1,
      ),
    )
  ]

  resolve_all-after_first :
      (k : String) (depends : Depends W V) (markers : Markers W V) (st : Stack W)
      → resolve_all truthy container ((k, depends) ∷ markers) st
        ≡ after_first k markers (resolve_async truthy container 2 (frame_of st depends))
  unfolding resolve_all
  resolve_all-after_first k depends markers st = refl

  resolve_all-Good :
      (n : ℕ) (markers : Markers W V) (st : Stack W)
      → All Ready markers
      → Held opened n st
      → Good n (resolve_all truthy container markers st)
  unfolding resolve_all
  resolve_all-Good n [] st all held = (held, tt)
  resolve_all-Good n ((k, depends) ∷ markers) st ((d, fits, steady, balanced), all) held =
      let fr = frame_of st depends in
      let (depends', e, fits') = resolve_async-Provides truthy container 0 d fr steady fits in
      subst (Good n) (sym (resolve_all-after_first k depends markers st)) (
        subst (λ x. Good n (after_first k markers x)) (sym e)
          (by_answer (λ st'. resolve_all-Good n markers st' all) (provided d fr).0 (provided d fr).1
            depends' (d, fits', steady, balanced) (provided-Held opened n d fr balanced held)))
    where
      by_answer :
          ((st' : Stack W) → Held opened n st' → Good n (resolve_all truthy container markers st'))
          → (t : Try (Returned W V)) (fr : Frame W V) (depends' : Depends W V) → Ready (k, depends')
          → Held opened n (stack_of fr)
          → Good n (after_first k markers (t, record fr { depends = depends' }))
      by_answer rest (raise e) fr depends' ready held' = (held', (ready, all))
      by_answer rest (ok r) fr depends' ready held' =
          let (held'', all') = rest (stack_of fr) held' in (held'', (ready, all'))

  called_with-Keeps :
      {B : Type 0} (body : Arguments W V → Eff W B) (t : Try (Arguments W V))
      → ((args : Arguments W V) → Keeps opened (body args))
      → Keeps opened (called_with body t)
  called_with-Keeps body (ok args) keeps w = keeps args w
  called_with-Keeps body (raise e) keeps w = refl

  -- A function that is wrapped leaves as many context managers entered as there were, whether its
  -- dependencies, its body or an exit raises, and its markers fit their dependencies afterwards. The
  -- conditions: the body keeps the count; each marker fits a dependency that changes the count only by
  -- its managers, which count up where they are entered and down where they are left; and a callable's
  -- results are of one kind.
  pub wrap_async_injection-Ready :
      {B : Type 0} (coro : Arguments W V → Eff W B) (cache : Markers W V) (w : W)
      → ((args : Arguments W V) → Keeps opened (coro args))
      → All Ready cache
      → let (answer, (cache', w')) = wrap_async_injection truthy container coro cache w in
        (opened w' ≡ opened w) × All Ready cache'
  unfolding wrap_async_injection
  wrap_async_injection-Ready coro cache w keeps all =
      let (t, (cache', st)) =
        resolve_all truthy container cache (record { world = w; exits = [] }) in
      let (held, all') =
        resolve_all-Good (opened w) cache (record { world = w; exits = [] }) all
          (omega arith, tt) in
      (
        run_exits-Held opened (opened w) st.exits (raised (called_with coro t st.world).0)
            (called_with coro t st.world).1 (called_with-Keeps coro t keeps st.world ∙ held.0)
            held.1,
        all',
      )
