-- ===== src/Bus/Builder/Wiring.antt =====
-- What a built handler gets for each of its parameters.
use litestar_cqrs_example.Common.{
  String, ◌≡◌, refl, sym, ◌⊎◌, inl, inr, true, false, not, ◌&&◌, Option, none, some, List, [], ◌∷◌,
  arith, if◌then◌else◌, nat_eq, string_eq, Bool-cases, contains,
}
use litestar_cqrs_example.Errors.{py, type_error, ok, raise}
use litestar_cqrs_example.Bus.{get_item}
use litestar_cqrs_example.Bus.Builder.{
  Dependency, dependency_truthy, Deps, has_item, missing, value_or, predicted,
  predict_dependency_or_raise,
}

-- A parameter gets the dependency of its name; its own annotation stays only where the dependency
-- is falsy or the parameter is excluded and has none.
abbrev pub FilledBy :
    (expectable : Deps) → List String → (k : String) → (own v : Dependency) → Type 0
FilledBy expectable exclude k own v =
    ((dep : Dependency) × (get_item k expectable ≡ some dep)
      × (v ≡ (if dependency_truthy dep then dep else own)))
    ⊎ ((get_item k expectable ≡ none) × (contains exclude k ≡ true) × (v ≡ own))

abbrev pub Wired : (expectable : Deps) → List String → (actual wired : Deps) → Type 0
Wired expectable exclude [] [] = Unit
Wired expectable exclude [] (_ ∷ _) = ⊥
Wired expectable exclude (_ ∷ _) [] = ⊥
Wired expectable exclude ((k, own) ∷ actual) ((k', v) ∷ wired) =
    (k' ≡ k) × FilledBy expectable exclude k own v × Wired expectable exclude actual wired

-- A parameter that is not excluded and has no dependency.
abbrev pub Unset : (expectable : Deps) → List String → Deps → Type 0
Unset expectable exclude [] = ⊥
Unset expectable exclude ((k, _) ∷ actual) =
    ((get_item k expectable ≡ none) × (contains exclude k ≡ false))
    ⊎ Unset expectable exclude actual

module _ (expectable : Deps) (exclude : List String) where
  source_of :
      (k : String) (own : Dependency) (o : Option Dependency)
      → get_item k expectable ≡ o
      → (not (has_item k expectable) && not (contains exclude k)) ≡ false
      → FilledBy expectable exclude k own (value_or (get_item k expectable) own)
  source_of k own (some dep) e h = inl (dep, e, rw e refl)
  source_of k own none e h = inr (e, ground (arith, rw (e, has_item, ◌&&◌) at h), rw e refl)

  unset :
      (k : String) (o : Option Dependency)
      → get_item k expectable ≡ o
      → (not (has_item k expectable) && not (contains exclude k)) ≡ true
      → (get_item k expectable ≡ none) × (contains exclude k ≡ false)
  unset k (some dep) e h = absurd (cc (rw (e, has_item, ◌&&◌) at h))
  unset k none e h = (e, ground (arith, rw (e, has_item, ◌&&◌) at h))

  missing-Wired :
      (actual : Deps)
      → missing actual expectable exclude ≡ []
      → Wired expectable exclude actual (predicted actual expectable)
  unfolding missing predicted
  missing-Wired [] h = tt
  missing-Wired ((k, own) ∷ actual) h =
      elim (Bool-cases (not (has_item k expectable) && not (contains exclude k))) [
        | inl lost ↦ absurd (cc (rw lost at h))
        | inr kept ↦ (refl, source_of k own _ refl kept, missing-Wired actual (rw kept at h))
      ]

  missing-Unset :
      (actual : Deps) (k : String) (ks : List String)
      → missing actual expectable exclude ≡ k ∷ ks
      → Unset expectable exclude actual
  unfolding missing
  missing-Unset [] k ks h = absurd (cc h)
  missing-Unset ((j, own) ∷ actual) k ks h =
      elim (Bool-cases (not (has_item j expectable) && not (contains exclude j))) [
        | inl lost ↦ inl (unset j _ refl lost)
        | inr kept ↦ inr (missing-Unset actual k ks (rw kept at h))
      ]

  -- Wiring a handler either gives every parameter the dependency of its name, or its own annotation
  -- where this dependency counts as false or where the name is excluded and has none; or it raises
  -- `TypeError` with the names of parameters, and then one of the parameters has no dependency and is
  -- not excluded.
  pub predict-Wired :
      (actual : Deps)
      → ((wired : Deps) × (predict_dependency_or_raise actual expectable exclude ≡ ok wired)
          × Wired expectable exclude actual wired)
        ⊎ ((names : List String) × (predict_dependency_or_raise actual expectable exclude
              ≡ raise (py type_error names))
            × (names ≡ missing actual expectable exclude)
            × Unset expectable exclude actual)
  unfolding predict_dependency_or_raise
  predict-Wired actual = given (missing actual expectable exclude) refl
    where
      given :
          (ks : List String)
          → missing actual expectable exclude ≡ ks
          → ((wired : Deps) × (predict_dependency_or_raise actual expectable exclude ≡ ok wired)
              × Wired expectable exclude actual wired)
            ⊎ ((names : List String) × (predict_dependency_or_raise actual expectable exclude
                  ≡ raise (py type_error names))
                × (names ≡ missing actual expectable exclude)
                × Unset expectable exclude actual)
      given [] e = inl (
        predicted actual expectable,
        rw (e, predict_dependency_or_raise) refl,
        missing-Wired actual e,
      )
      given (k ∷ ks) e =
          inr (k ∷ ks, rw (e, predict_dependency_or_raise) refl, sym e, missing-Unset actual k ks e)
