-- ===== src/Injection/Rebound.antt =====
-- What a binding changes for a marker that has resolved before.
use litestar_cqrs_example.Common.{
  beq_self, ℕ, suc, ◌+◌, ◌≡◌, refl, inl, Bool, true, false, some, nat_beq, arith,
}
use litestar_cqrs_example.Injection.{
  Key, Dependency, Depends, Frame, Container, get, counts, resolve_async,
}
use litestar_cqrs_example.Injection.{bind, reset, class_key, text_key}
use litestar_cqrs_example.Injection.Provided.{Steady, provided, with_depends}
use litestar_cqrs_example.Injection.Compiled.{Current, resolve-Current, resolve-Blank}

next_generation : (g h : ℕ) → g ≡ h → nat_beq g (h + 1) ≡ false
next_generation g h e = ground arith

module _ {W : Type 0} {V : Type 0} where
  get-bind :
      (key : Key) (d : Dependency W V) (container : Container W V)
      → get key (bind key d container) ≡ some d
  unfolding get bind
  get-bind (class_key identity name) d container = rw (beq_self identity) refl
  get-bind (text_key text) d container = rw (beq_self text) refl

  -- A marker that has compiled a dependency provides this still after another one is bound to its key;
  -- after a reset and the binding it provides the other one, where this is not a value that is false.
  -- The results of a callable, as either of them, are taken to be of one kind.
  pub resolve_async-bind :
      (truthy : V → Bool) (container : Container W V) (n : ℕ) (old new : Dependency W V)
      (fr : Frame W V)
      → Steady old
      → Steady new
      → counts truthy container new ≡ true
      → Current truthy container old fr.depends
      → let key = fr.depends.dependency in
        (resolve_async truthy (bind key new container) (suc (suc n)) fr ≡ provided old fr)
        × ((depends : Depends W V) × (resolve_async truthy
                (bind key new (reset container))
                (suc (suc n))
                fr
              ≡ with_depends depends (provided new fr)))
  unfolding bind reset
  resolve_async-bind truthy container n old new fr steady steady' good (same, compiled) =
      let key = fr.depends.dependency in
      let (depends, e, _) = resolve-Blank truthy (bind key new (reset container)) n new fr steady' (
        get-bind key new (reset container),
        good,
        inl (next_generation fr.depends.generation container.generation same),
      ) in
      (
        resolve-Current truthy (bind key new container) (suc n) old fr steady (same, compiled),
        (depends, e),
      )
