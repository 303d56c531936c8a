-- ===== src/Access/Keys/Correct.antt =====
-- `_collect_keys` gives the names that occur, or raises where a value nests too deep.
use litestar_cqrs_example.Common.{
  ℕ, zero, suc, ◌≤◌, ◌<◌, String, ◌≡◌, refl, ◌∙◌, ◌⊎◌, inl, inr, Bool, false, ◌||◌, some, List, [],
  ◌∷◌, ◌++◌, arith, ltb, leb, nat_eq, string_eq, Bool-cases, contains, contains-append, str_truthy,
}
use litestar_cqrs_example.Errors.{py, value_error, Try, Try-cases, ok, raise}
use litestar_cqrs_example.Access.{
  Value, scalar, sequence, mapping, no_values, value, no_entries, entry, is_container,
}
use litestar_cqrs_example.Access.Keys.{
  Stack, push_values, push_entries, keys_of, loop, size, collect_keys,
}
use litestar_cqrs_example.Access.Keys.Pushes.{
  levels, occurs, weight, reach, held, Containers, weight-push_values, weight-push_entries,
  reach-push_values, reach-push_entries, held-push_values, held-push_entries,
  push_values-Containers, push_entries-Containers,
}

-- The exception of a value that nests too deep.
abbrev pub depth_error : Try (List String)
depth_error = raise (py value_error ("keys collection max_depth exceeded" ∷ []))

-- The names that were collected are those that a test holds for.
abbrev pub Names : (String → Bool) → Try (List String) → Type 0
Names occur (ok ks) = (k : String) → contains ks k ≡ occur k
Names occur (raise _) = ⊥

Names-same :
    {f g : String → Bool} (t : Try (List String))
    → ((k : String) → f k ≡ g k)
    → Names f t
    → Names g t
Names-same (ok ks) same names = λ k. names k ∙ same k
Names-same (raise _) same names = names

-- The two ways in which a run on a stack ends.
abbrev Collects : ℕ → Stack → List String → Try (List String) → Type 0
Collects m stack keys t =
    (reach stack ≤ suc m → Names (λ k. contains keys k || held k stack) t)
    × (suc m < reach stack → t ≡ depth_error)

module _ (m : ℕ) where
  loop-Collects :
      (fuel : ℕ) (stack : Stack) (keys : List String)
      → weight stack ≤ fuel
      → Containers stack
      → Collects m stack keys (loop (some m) fuel stack keys)
  unfolding loop size levels occurs is_container
  loop-Collects zero [] keys h c = (λ _ k. ground arith, λ h. absurd (omega arith))
  loop-Collects (suc fuel) [] keys h c = (λ _ k. ground arith, λ h. absurd (omega arith))
  loop-Collects fuel ((scalar _, d) ∷ stack) keys h c = absurd (ground arith)
  loop-Collects zero ((sequence _, d) ∷ stack) keys h c = absurd (omega arith)
  loop-Collects zero ((mapping _, d) ∷ stack) keys h c = absurd (omega arith)
  loop-Collects (suc fuel) ((sequence vs, d) ∷ stack) keys h c = elim (Bool-cases (ltb m d)) [
    | inl deep ↦ (λ low. absurd (ground arith), λ _. rw (deep, loop) refl)
    | inr shallow ↦
        let within : suc d ≤ suc m = ground arith in
        let (low, high) =
          loop-Collects fuel (push_values (suc d) vs stack) keys
            (omega (arith, weight-push_values (suc d) vs stack))
            (push_values-Containers (suc d) vs stack c.1) in
        (
          λ r.
              rw (shallow, loop)
                (Names-same _ (λ k. ground (arith, held-push_values k (suc d) vs stack))
                  (low (omega (arith, reach-push_values (suc m) (suc d) within vs stack)))),
          λ r.
              rw (shallow, loop)
                (high (omega (arith, reach-push_values (suc m) (suc d) within vs stack))),
        )
  ]
  loop-Collects (suc fuel) ((mapping es, d) ∷ stack) keys h c = elim (Bool-cases (ltb m d)) [
    | inl deep ↦ (λ low. absurd (ground arith), λ _. rw (deep, loop) refl)
    | inr shallow ↦
        let within : suc d ≤ suc m = ground arith in
        let (low, high) =
          loop-Collects fuel (push_entries (suc d) es stack) (keys_of es ++ keys)
            (omega (arith, weight-push_entries (suc d) es stack))
            (push_entries-Containers (suc d) es stack c.1) in
        (
          λ r.
              rw (shallow, loop)
                (Names-same _
                  (λ k. ground (
                    arith,
                    contains-append k (keys_of es) keys,
                    held-push_entries k (suc d) es stack,
                  ))
                  (low (omega (arith, reach-push_entries (suc m) (suc d) within es stack)))),
          λ r.
              rw (shallow, loop)
                (high (omega (arith, reach-push_entries (suc m) (suc d) within es stack))),
        )
  ]

collect_keys_both :
    (m : ℕ) (v : Value)
    → (levels v ≤ suc m → Names (λ k. occurs k v) (collect_keys (some m) v))
      × (suc m < levels v → collect_keys (some m) v ≡ depth_error)
unfolding collect_keys loop size levels occurs is_container
collect_keys_both m (scalar s) =
    let zero_depth : ltb m 0 ≡ false = ground arith in
    elim (Bool-cases (str_truthy s)) [
      | inl truthy ↦ (λ _. rw (truthy, zero_depth, loop) (λ k. refl), λ h. absurd (omega arith))
      | inr falsy ↦ (λ _. rw falsy (λ k. refl), λ h. absurd (omega arith))
    ]
collect_keys_both m (sequence no_values) = (λ _ k. refl, λ h. absurd (omega arith))
collect_keys_both m (mapping no_entries) = (λ _ k. refl, λ h. absurd (omega arith))
collect_keys_both m (sequence (value v vs)) =
    let (low, high) =
      loop-Collects m (suc (size (sequence (value v vs)))) ((sequence (value v vs), 0) ∷ []) []
        (omega arith) (refl, tt) in
    (λ h. Names-same _ (λ k. ground arith) (low (omega arith)), λ h. high (omega arith))
collect_keys_both m (mapping (entry k v es)) =
    let (low, high) =
      loop-Collects m (suc (size (mapping (entry k v es)))) ((mapping (entry k v es), 0) ∷ []) []
        (omega arith) (refl, tt) in
    (λ h. Names-same _ (λ k. ground arith) (low (omega arith)), λ h. high (omega arith))

-- Collecting the keys of a value with a limit on the depth always ends: it gives exactly the names
-- that are keys of a mapping anywhere in the value, and the containers nest within the limit and one
-- more; or they nest deeper and it raises `ValueError`.
pub collect_keys_lem :
    (m : ℕ) (v : Value)
    → ((ks : List String) × (collect_keys (some m) v ≡ ok ks)
        × (levels v ≤ suc m)
        × ((k : String) → contains ks k ≡ occurs k v))
      ⊎ ((suc m < levels v) × (collect_keys (some m) v ≡ depth_error))
collect_keys_lem m v =
    let (low, high) = collect_keys_both m v in
    elim (Bool-cases (leb (levels v) (suc m))) [
      | inr deep ↦ inr (ground arith, high (ground arith))
      | inl shallow ↦ elim (Try-cases (collect_keys (some m) v)) [
        | inl (ks, e) ↦ inl (ks, e, ground arith, rw e at (low (ground arith)))
        | inr (x, e) ↦ absurd (rw e at (low (ground arith)))
      ]
    ]
