-- ===== src/Rules.antt =====
-- src/backend/http/dependencies.py: how `create_rules` brings the permissions of the routes into the
-- database, inside its lock. The queries are those of
-- src/backend/infra/database/alchemy/queries/base.py over a database that is a parameter.
use litestar_cqrs_example.Common.{
  ℕ, String, ◌≡◌, refl, ap, ◌∙◌, inl, inr, Bool, true, Option, none, some, List, [], ◌∷◌, ◌++◌,
  Option-cases, All, All-imp,
}
use mathlib.Core.Path.{subst}
use litestar_cqrs_example.Errors.{assertion_error, py, ok}
use litestar_cqrs_example.Effects.{Eff, pure, throw, ◌>>=◌, ◌>>◌}
use litestar_cqrs_example.Access.{Source, FieldSets, PermissionSpec, spec_key}
pub mod Creation
pub mod Startup
mod Tests

-- `permission_id`, `src` and `name` of a row of the fields.
abbrev pub FieldRow : Type 0
FieldRow = ℕ × Source × String

-- `CreateOrIgnore[Permission]`, `GetOne[Permission](key=…)` and `BatchCreate[PermissionField]`; of a
-- permission only the identifier is used.
pub record PermissionTables : Type 1 where
  pub State : Type 0
  pub create_or_ignore : PermissionSpec → Eff State (Option ℕ)
  pub get_one : (key : String) → Eff State (Option ℕ)
  pub batch_create : List FieldRow → Eff State (Unit {0})

abbrev rows_of_names : ℕ → Source → List String → List FieldRow
rows_of_names id src [] = []
rows_of_names id src (name ∷ names) = (id, src, name) ∷ rows_of_names id src names

-- The `fields` of a permission
abbrev pub rows_of : ℕ → FieldSets → List FieldRow
rows_of id [] = []
rows_of id ((src, names) ∷ sets) = rows_of_names id src names ++ rows_of id sets

module _ (db : PermissionTables) where
  abbrev pub asserted : Option ℕ → Eff db.State ℕ
  asserted (some id) = pure id
  asserted none = throw (py assertion_error ("Permission not found" ∷ []))

  -- The identifier of the permission that was created, or of the one that is there.
  abbrev pub id_or_found : PermissionSpec → Option ℕ → Eff db.State ℕ
  id_or_found spec (some id) = pure id
  id_or_found spec none = db.get_one (spec_key spec) >>= asserted

  abbrev pub create_fields : List FieldRow → Eff db.State (Unit {0})
  create_fields [] = pure tt
  create_fields (row ∷ rows) = db.batch_create (row ∷ rows)

  -- One round of the loop of `_create`.
  unfoldable pub create_rule : PermissionSpec → Eff db.State (Unit {0})
  create_rule spec = do
    id ← db.create_or_ignore spec >>= id_or_found spec
    create_fields (rows_of id spec.fields)

  unfoldable pub create_all : List PermissionSpec → Eff db.State (Unit {0})
  unfolding create_rule
  create_all [] = pure tt
  create_all (spec ∷ specs) = create_rule spec >> create_all specs

-- What the unique indexes and `ON CONFLICT DO NOTHING` make of the queries, where the database
-- answers: `known` is the identifier that is stored for a key, `has_field` whether a row is stored.
pub record TableLaws (db : PermissionTables) : Type 0 where
  pub known : String → db.State → Option ℕ
  pub has_field : FieldRow → db.State → Bool
  pub get_one-known : (key : String) (s : db.State) → db.get_one key s ≡ (ok (known key s), s)
  pub create-old :
      (p : PermissionSpec) (s : db.State) (id : ℕ)
      → known (spec_key p) s ≡ some id
      → db.create_or_ignore p s ≡ (ok none, s)
  pub create-new :
      (p : PermissionSpec) (s : db.State)
      → known (spec_key p) s ≡ none
      → (id : ℕ) × ((db.create_or_ignore p s).0 ≡ ok (some id))
        × (known (spec_key p) (db.create_or_ignore p s).1 ≡ some id)
  pub create-known :
      (p : PermissionSpec) (s : db.State) (key : String) (id : ℕ)
      → known key s ≡ some id
      → known key (db.create_or_ignore p s).1 ≡ some id
  pub create-has_field :
      (p : PermissionSpec) (s : db.State) (row : FieldRow)
      → has_field row (db.create_or_ignore p s).1 ≡ has_field row s
  pub batch-ok : (rows : List FieldRow) (s : db.State) → (db.batch_create rows s).0 ≡ ok tt
  pub batch-known :
      (rows : List FieldRow) (s : db.State) (key : String)
      → known key (db.batch_create rows s).1 ≡ known key s
  pub batch-stored :
      (rows : List FieldRow) (s : db.State)
      → All (λ row. has_field row (db.batch_create rows s).1 ≡ true) rows
  pub batch-has_field :
      (rows : List FieldRow) (s : db.State) (row : FieldRow)
      → has_field row s ≡ true
      → has_field row (db.batch_create rows s).1 ≡ true

-- The permission of a route and all of its fields are stored.
abbrev pub Registered : {db : PermissionTables} → TableLaws db → db.State → PermissionSpec → Type 0
Registered laws s spec =
    (id : ℕ) × (laws.known (spec_key spec) s ≡ some id)
    × All (λ row. laws.has_field row s ≡ true) (rows_of id spec.fields)

module _ (db : PermissionTables) (laws : TableLaws db) where
  -- Nothing is lost.
  abbrev pub Later : db.State → db.State → Type 0
  Later s s' =
      ((key : String) (id : ℕ) → laws.known key s ≡ some id → laws.known key s' ≡ some id)
      × ((row : FieldRow) → laws.has_field row s ≡ true → laws.has_field row s' ≡ true)

  create_fields_lem :
      (rows : List FieldRow) (s : db.State)
      → ((create_fields db rows s).0 ≡ ok tt)
        × Later s (create_fields db rows s).1
        × All (λ row. laws.has_field row (create_fields db rows s).1 ≡ true) rows
  create_fields_lem [] s = (refl, (λ key id h. h, λ row h. h), tt)
  create_fields_lem (row ∷ rows) s = (
    laws.batch-ok (row ∷ rows) s,
    (λ key id h. laws.batch-known (row ∷ rows) s key ∙ h, laws.batch-has_field (row ∷ rows) s),
    laws.batch-stored (row ∷ rows) s,
  )

  -- The first two lines of a round.
  found_id :
      (spec : PermissionSpec) (s : db.State)
      → (id : ℕ) × (s' : db.State) × ((db.create_or_ignore spec >>= id_or_found db spec) s
          ≡ (ok id, s'))
        × (laws.known (spec_key spec) s' ≡ some id)
        × Later s s'
  found_id spec s = elim (Option-cases (laws.known (spec_key spec) s)) [
    | inl e ↦
        let (id, made, stored) = laws.create-new spec s e in
        (
          id,
          (db.create_or_ignore spec s).1,
          rw made refl,
          stored,
          (laws.create-known spec s, λ row h. laws.create-has_field spec s row ∙ h),
        )
    | inr (id, e) ↦ (
      id,
      s,
      rw (laws.create-old spec s id e, laws.get_one-known (spec_key spec) s, e) refl,
      e,
      (λ key id h. h, λ row h. h),
    )
  ]

  create_rule_lem :
      (spec : PermissionSpec) (s : db.State)
      → (s' : db.State) × (create_rule db spec s ≡ (ok tt, s'))
        × Registered laws s' spec
        × Later s s'
  unfolding create_rule
  create_rule_lem spec s =
      let (id, s', found, stored, (ids, rows)) = found_id spec s in
      let (end, (ids', rows'), all) = create_fields_lem (rows_of id spec.fields) s' in
      (
        (create_fields db (rows_of id spec.fields) s').1,
        rw found (ap (λ t. (t, (create_fields db (rows_of id spec.fields) s').1)) end),
        (id, ids' _ _ stored, all),
        (λ key i h. ids' key i (ids key i h), λ row h. rows' row (rows row h)),
      )

  Registered-Later :
      (spec : PermissionSpec) (s s' : db.State)
      → Later s s'
      → Registered laws s spec
      → Registered laws s' spec
  Registered-Later spec s s' (ids, rows) (id, stored, all) =
      (id, ids _ _ stored, All-imp (rows_of id spec.fields) (λ row h. rows row h) all)

  -- However often and with whatever permissions in the database it runs, where its queries answer the
  -- loop over the rules of the routes ends without an error, and then the permission of every rule is
  -- stored with all of its fields, and nothing is lost.
  pub create_all-Later :
      (specs : List PermissionSpec) (s : db.State)
      → ((create_all db specs s).0 ≡ ok tt)
        × Later s (create_all db specs s).1
        × All (Registered laws (create_all db specs s).1) specs
  unfolding create_all
  create_all-Later [] s = (refl, (λ key id h. h, λ row h. h), tt)
  create_all-Later (spec ∷ specs) s =
      let (s', made, one, (ids, rows)) = create_rule_lem spec s in
      let (end, (ids', rows'), all) = create_all-Later specs s' in
      let step : create_all db specs s' ≡ create_all db (spec ∷ specs) s = rw made refl in
      subst (λ x. (x.0 ≡ ok tt) × Later s x.1 × All (Registered laws x.1) (spec ∷ specs)) step
        (
          end,
          (λ key i h. ids' key i (ids key i h), λ row h. rows' row (rows row h)),
          (Registered-Later spec s' _ (ids', rows') one, all),
        )
