-- ===== src/Access/Fields/Laws.antt =====
-- The resolvers of the fields let pass exactly the requests whose names they are meant to let pass.
use litestar_cqrs_example.Common.{
  ◌≤◌, ◌<◌, String, ◌≡◌, refl, sym, ◌∙◌, ◌↔◌, ◌⊎◌, inl, inr, Bool, true, false, not, ◌||◌, some,
  List, [], ◌∷◌, arith, eq_iff, if◌then◌else◌, ◌==◌, beq_self, nat_eq, string_eq, Bool-cases,
  keep_if, is_empty, All, contains,
}
use litestar_cqrs_example.Errors.{Exc, Try, Try-cases, ok, raise}
use litestar_cqrs_example.Access.{
  Source, query, json, Permission, Context, FieldSets, Value, mapping,
}
use litestar_cqrs_example.Access.Keys.{collect_keys, request_query_keys, request_json_keys}
use litestar_cqrs_example.Access.Keys.Pushes.{levels, occurs}
use litestar_cqrs_example.Access.Keys.Correct.{collect_keys_lem}
use litestar_cqrs_example.Access.Fields.{
  source_keys, both, difference, raise_fields_not_allowed, check_all, resolve_keys_allowed_denylist,
  resolve_keys_allowed_allowlist, resolve_keys_allowed_mixed,
}

-- The part of a request that a source names.
abbrev pub source_params : Source → Context → Value
source_params query ctx = mapping ctx.request_query_params
source_params json ctx = ctx.request_json_params

abbrev pub passes_deny : List String → String → Bool
passes_deny denied k = not (contains denied k)

abbrev pub passes_allow : List String → String → Bool
passes_allow allowed k = is_empty allowed || contains allowed k

-- An entry of a permission lets a request pass: the source does not nest too deep, and each name
-- that occurs in it at any depth passes the test.
abbrev pub Permitted : (List String → String → Bool) → Context → Source × List String → Type 0
Permitted passes ctx e =
    (levels (source_params e.0 ctx) ≤ 16)
    × ((k : String) → occurs k (source_params e.0 ctx) ≡ true → passes e.1 k ≡ true)

-- What a source gives: the names that occur, or an exception where it nests too deep.
abbrev Read : Value → Try (List String) → Type 0
Read v t =
    ((ks : List String) × (t ≡ ok ks)
      × (levels v ≤ 16)
      × ((k : String) → contains ks k ≡ occurs k v))
    ⊎ ((e : Exc) × (t ≡ raise e) × (16 < levels v))

collect_keys-Read : (v : Value) → Read v (collect_keys (some 15) v)
collect_keys-Read v = elim (collect_keys_lem 15 v) [
  | inl (ks, e, shallow, names) ↦ inl (ks, e, shallow, names)
  | inr (deep, e) ↦ inr (_, e, deep)
]

source_keys-Read :
    (src : Source) (ctx : Context) → Read (source_params src ctx) (source_keys src ctx)
unfolding source_keys request_query_keys request_json_keys
source_keys-Read query ctx = collect_keys-Read (mapping ctx.request_query_params)
source_keys-Read json ctx = collect_keys-Read ctx.request_json_params

keep_if-empty :
    (p : String → Bool) (keys : List String)
    → (is_empty (keep_if p keys) ≡ true) ↔ ((k : String) → contains keys k ≡ true → p k ≡ false)
keep_if-empty p [] = (λ _ k h. absurd (ground arith), λ _. refl)
keep_if-empty p (x ∷ keys) = elim (Bool-cases (p x)) [
  | inl kept ↦
      (λ h. absurd (cc (rw kept at h)), λ h. absurd (ground (arith, h x (rw (beq_self x) refl))))
  | inr left ↦ (
    λ h k among. elim (Bool-cases (x == k)) [
      | inl same ↦ rw (← (eq_iff x k).0 same) left
      | inr other ↦ (keep_if-empty p keys).0 (rw left at h) k (ground arith)
    ],
    λ h. rw left ((keep_if-empty p keys).1 (λ k among. h k (ground arith))),
  )
]

-- An operation on the keys and the names of an entry leaves nothing exactly where all keys pass.
abbrev Step : (List String → List String → List String) → (List String → String → Bool) → Type 0
Step op passes =
    (keys names : List String)
    → ((is_empty keys || is_empty names || is_empty (op keys names)) ≡ true)
      ↔ ((k : String) → contains keys k ≡ true → passes names k ≡ true)

both-Step : Step both passes_deny
both-Step [] names = (λ _ k h. absurd (ground arith), λ _. refl)
both-Step (x ∷ keys) [] = (λ _ k h. refl, λ _. refl)
both-Step (x ∷ keys) (n ∷ names) =
    let (to, from) = keep_if-empty (contains (n ∷ names)) (x ∷ keys) in
    (λ h k among. rw (to h k among) refl, λ h. from (λ k among. ground (arith, h k among)))

difference-Step : Step difference passes_allow
difference-Step [] names = (λ _ k h. absurd (ground arith), λ _. refl)
difference-Step (x ∷ keys) [] = (λ _ k h. refl, λ _. refl)
difference-Step (x ∷ keys) (n ∷ names) =
    let (to, from) = keep_if-empty (λ k. not (contains (n ∷ names) k)) (x ∷ keys) in
    (λ h k among. ground (arith, to h k among), λ h. from (λ k among. ground (arith, h k among)))

raise_fields-ok :
    (names : List String) (src : Source) (ctx : Context)
    → (raise_fields_not_allowed names src ctx ≡ ok tt) ↔ (is_empty names ≡ true)
unfolding raise_fields_not_allowed
raise_fields-ok [] src ctx = (λ _. refl, λ _. refl)
raise_fields-ok (name ∷ names) src ctx = (λ h. absurd (cc h), λ h. absurd (cc h))

module _ (op : List String → List String → List String) (passes : List String → String → Bool)
    (step : Step op passes) (ctx : Context) where
  abbrev check_one : Source → (keys names : List String) → Try (Unit {0})
  check_one src keys names =
      if is_empty keys || is_empty names
      then ok tt
      else raise_fields_not_allowed (op keys names) src ctx

  check_one-ok :
      (src : Source) (keys names : List String)
      → (check_one src keys names ≡ ok tt)
        ↔ ((is_empty keys || is_empty names || is_empty (op keys names)) ≡ true)
  check_one-ok src keys names = elim (Bool-cases (is_empty keys || is_empty names)) [
    | inl skipped ↦ (λ _. ground arith, λ _. rw skipped refl)
    | inr checked ↦
        let (to, from) = raise_fields-ok (op keys names) src ctx in
        (λ h. ground (arith, to (rw checked at h)), λ h. rw checked (from (ground arith)))
  ]

  check_all-ok :
      (entries : FieldSets)
      → (check_all op entries ctx ≡ ok tt) ↔ All (Permitted passes ctx) entries
  unfolding check_all
  check_all-ok [] = (λ _. tt, λ _. refl)
  check_all-ok ((src, names) ∷ entries) = elim (source_keys-Read src ctx) [
    | inr (x, e, deep) ↦ (λ h. absurd (cc (rw e at h)), λ h. absurd (omega (arith, h.0.0)))
    | inl (keys, e, shallow, same) ↦
        let (checks, passing) = check_one-ok src keys names in
        let (to, from) = step keys names in
        let (rest_to, rest_from) = check_all-ok entries in
        elim (Try-cases (check_one src keys names)) [
          | inl (_, one) ↦ (
            λ h. (
              (shallow, λ k occurring. to (checks one) k (same k ∙ occurring)),
              rest_to (rw (e, one) at h),
            ),
            λ h. rw (e, one) (rest_from h.1),
          )
          | inr (x, one) ↦ (
            λ h. absurd (cc (rw (e, one) at h)),
            λ h. absurd (cc (one, passing (from (λ k among. h.0.1 k (sym (same k) ∙ among))))),
          )
        ]
  ]

-- The deny list lets a request pass exactly where, for each of its entries, the source nests at most
-- 16 deep and no name that occurs in it at any depth is denied.
pub denylist-Permitted :
    (p : Permission) (ctx : Context)
    → (resolve_keys_allowed_denylist p ctx ≡ ok tt) ↔ All (Permitted passes_deny ctx) p.deny_fields
unfolding resolve_keys_allowed_denylist
denylist-Permitted p ctx = check_all-ok both passes_deny both-Step ctx p.deny_fields

allowlist-Permitted :
    (p : Permission) (ctx : Context)
    → (resolve_keys_allowed_allowlist p ctx ≡ ok tt)
      ↔ All (Permitted passes_allow ctx) p.allow_fields
unfolding resolve_keys_allowed_allowlist
allowlist-Permitted p ctx = check_all-ok difference passes_allow difference-Step ctx p.allow_fields

-- The mixed resolver lets a request pass exactly where the deny list does and, for each entry of the
-- allow list, the source nests at most 16 deep and, unless the entry is empty, every name that occurs
-- in it at any depth is allowed.
pub mixed-Permitted :
    (p : Permission) (ctx : Context)
    → (resolve_keys_allowed_mixed p ctx ≡ ok tt) ↔ (
        All (Permitted passes_deny ctx) p.deny_fields
        × All (Permitted passes_allow ctx) p.allow_fields)
unfolding resolve_keys_allowed_mixed
mixed-Permitted p ctx =
    let (deny_to, deny_from) = denylist-Permitted p ctx in
    let (allow_to, allow_from) = allowlist-Permitted p ctx in
    elim (Try-cases (resolve_keys_allowed_denylist p ctx)) [
      | inl (_, e) ↦ (λ h. (deny_to e, allow_to (rw e at h)), λ h. rw e (allow_from h.1))
      | inr (x, e) ↦ (λ h. absurd (cc (rw e at h)), λ h. absurd (cc (e, deny_from h.0)))
    ]
