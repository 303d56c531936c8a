-- ===== src/Access/Keys/Pushes.antt =====
-- The keys of a value by recursion instead of a stack, and what pushing on the stack does to them.
use litestar_cqrs_example.Common.{
  ℕ, suc, ◌+◌, ◌≤◌, max, String, ◌≡◌, refl, Bool, true, false, ◌||◌, [], ◌∷◌, arith, ◌==◌, nat_eq,
  string_eq, contains,
}
use litestar_cqrs_example.Access.{
  Value, scalar, sequence, mapping, Values, no_values, value, Entries, no_entries, entry,
  is_container,
}
use litestar_cqrs_example.Access.Keys.{
  Stack, push, push_values, push_entries, keys_of, size, size_values, size_entries,
}

-- How deep containers nest; a scalar has no level.
unfoldable mutual
  pub levels : Value → ℕ
  levels (scalar _) = 0
  levels (sequence vs) = suc (levels_values vs)
  levels (mapping es) = suc (levels_entries es)

  pub levels_values : Values → ℕ
  levels_values no_values = 0
  levels_values (value v vs) = max (levels v) (levels_values vs)

  pub levels_entries : Entries → ℕ
  levels_entries no_entries = 0
  levels_entries (entry _ v es) = max (levels v) (levels_entries es)

-- Whether a name is a key of a mapping anywhere in the value.
unfoldable mutual
  pub occurs : String → Value → Bool
  occurs k (scalar _) = false
  occurs k (sequence vs) = occurs_values k vs
  occurs k (mapping es) = occurs_entries k es

  pub occurs_values : String → Values → Bool
  occurs_values k no_values = false
  occurs_values k (value v vs) = occurs k v || occurs_values k vs

  pub occurs_entries : String → Entries → Bool
  occurs_entries k no_entries = false
  occurs_entries k (entry key v es) = key == k || (occurs k v || occurs_entries k es)

-- The rounds that a stack takes, whether it leads deeper than a limit, and what it holds.
abbrev pub weight : Stack → ℕ
weight [] = 0
weight ((v, _) ∷ stack) = size v + weight stack

abbrev pub reach : Stack → ℕ
reach [] = 0
reach ((v, depth) ∷ stack) = max (depth + levels v) (reach stack)

abbrev pub held : String → Stack → Bool
held k [] = false
held k ((v, _) ∷ stack) = occurs k v || held k stack

abbrev pub Containers : Stack → Type 0
Containers [] = Unit
Containers ((v, _) ∷ stack) = (is_container v ≡ true) × Containers stack

pub weight-push :
    (d : ℕ) (v : Value) (stack : Stack) → weight (push d v stack) ≡ size v + weight stack
unfolding push size
weight-push d (scalar _) stack = omega arith
weight-push d (sequence _) stack = refl
weight-push d (mapping _) stack = refl

pub weight-push_values :
    (d : ℕ) (vs : Values) (stack : Stack)
    → weight (push_values d vs stack) ≡ size_values vs + weight stack
unfolding push_values size_values
weight-push_values d no_values stack = omega arith
weight-push_values d (value v vs) stack =
    omega (arith, weight-push_values d vs (push d v stack), weight-push d v stack)

pub weight-push_entries :
    (d : ℕ) (es : Entries) (stack : Stack)
    → weight (push_entries d es stack) ≡ size_entries es + weight stack
unfolding push_entries size_entries
weight-push_entries d no_entries stack = omega arith
weight-push_entries d (entry _ v es) stack =
    omega (arith, weight-push_entries d es (push d v stack), weight-push d v stack)

-- Above the limit, a stack reaches as deep as what was pushed and what it had.
module _ (m d : ℕ) (within : d ≤ m) where
  pub reach-push :
      (v : Value) (stack : Stack)
      → max m (reach (push d v stack)) ≡ max m (max (d + levels v) (reach stack))
  unfolding push levels
  reach-push (scalar _) stack = omega arith
  reach-push (sequence _) stack = refl
  reach-push (mapping _) stack = refl

  pub reach-push_values :
      (vs : Values) (stack : Stack)
      → max m (reach (push_values d vs stack)) ≡ max m (max (d + levels_values vs) (reach stack))
  unfolding push_values levels_values
  reach-push_values no_values stack = omega arith
  reach-push_values (value v vs) stack =
      omega (arith, reach-push_values vs (push d v stack), reach-push v stack)

  pub reach-push_entries :
      (es : Entries) (stack : Stack)
      → max m (reach (push_entries d es stack)) ≡ max m (max (d + levels_entries es) (reach stack))
  unfolding push_entries levels_entries
  reach-push_entries no_entries stack = omega arith
  reach-push_entries (entry _ v es) stack =
      omega (arith, reach-push_entries es (push d v stack), reach-push v stack)

module _ (k : String) (d : ℕ) where
  pub held-push :
      (v : Value) (stack : Stack) → held k (push d v stack) ≡ (occurs k v || held k stack)
  unfolding push occurs
  held-push (scalar _) stack = refl
  held-push (sequence _) stack = refl
  held-push (mapping _) stack = refl

  pub held-push_values :
      (vs : Values) (stack : Stack)
      → held k (push_values d vs stack) ≡ (occurs_values k vs || held k stack)
  unfolding push_values occurs_values
  held-push_values no_values stack = refl
  held-push_values (value v vs) stack =
      ground (arith, held-push_values vs (push d v stack), held-push v stack)

  -- The keys of a mapping itself, and those in its values, are those that occur in it.
  pub held-push_entries :
      (es : Entries) (stack : Stack)
      → (contains (keys_of es) k || held k (push_entries d es stack))
        ≡ (occurs_entries k es || held k stack)
  unfolding push_entries occurs_entries keys_of
  held-push_entries no_entries stack = refl
  held-push_entries (entry key v es) stack =
      ground (arith, held-push_entries es (push d v stack), held-push v stack)

module _ (d : ℕ) where
  pub push-Containers : (v : Value) (stack : Stack) → Containers stack → Containers (push d v stack)
  unfolding push is_container
  push-Containers (scalar _) stack h = h
  push-Containers (sequence _) stack h = (refl, h)
  push-Containers (mapping _) stack h = (refl, h)

  pub push_values-Containers :
      (vs : Values) (stack : Stack) → Containers stack → Containers (push_values d vs stack)
  unfolding push_values
  push_values-Containers no_values stack h = h
  push_values-Containers (value v vs) stack h =
      push_values-Containers vs (push d v stack) (push-Containers v stack h)

  pub push_entries-Containers :
      (es : Entries) (stack : Stack) → Containers stack → Containers (push_entries d es stack)
  unfolding push_entries
  push_entries-Containers no_entries stack h = h
  push_entries-Containers (entry _ v es) stack h =
      push_entries-Containers es (push d v stack) (push-Containers v stack h)
