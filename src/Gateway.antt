-- ===== src/Gateway.antt =====
-- src/backend/infra/database/alchemy/queries: the statements that the queries of base.py and rbac.py
-- build, and what they return of the rows that come back. A table is named by its name; the database
-- that executes a statement is a parameter.
use litestar_cqrs_example.Common.{
  ℕ, String, Bool, true, false, not, Option, none, some, List, [], ◌∷◌, ◌++◌, nat_beq,
  if◌then◌else◌, ◌==◌, nat_eq, string_eq, contains,
}
use litestar_cqrs_example.Errors.{py, assertion_error, library_error}
use litestar_cqrs_example.Effects.{Eff, pure, throw, ◌>>=◌, ◌>>◌}
use litestar_cqrs_example.Transaction.{Connection}
pub mod Repositories
pub mod Commands
pub mod Work
pub mod Tables
pub mod Pairs
pub mod Memberships
pub mod Users
pub mod Sample
mod Tests

-- A value of a column; `null` is Python's `None`.
pub data Cell : Type 0 where
  text : String → Cell
  number : ℕ → Cell
  flag : Bool → Cell
  null : Cell

-- SQL's `=`: nothing equals `NULL`.
abbrev pub same_cell : Cell → Cell → Bool
same_cell (text s) (text t) = s == t
same_cell (number m) (number n) = nat_beq m n
same_cell (flag true) (flag b) = b
same_cell (flag false) (flag b) = not b
same_cell _ _ = false

abbrev pub is_null : Cell → Bool
is_null null = true
is_null _ = false

-- Keyword arguments, in the order of the call.
abbrev pub Cells : Type 0
Cells = List (String × Cell)

-- The attributes of an entity.
abbrev pub Row : Type 0
Row = String → Cell

pub data Statement : Type 0 where
  -- `insert(…).on_conflict_do_nothing().values(…).returning(…)`
  insert_ignore : (table : String) → (values : Cells) → Statement
  -- `insert(…).values(…).returning(…)`
  insert_new : (table : String) → (values : Cells) → Statement
  -- `on_conflict_do_update`
  insert_or_update :
      (table : String)
      → (values : Cells) → (index_elements : List String) → (set_values : Cells) → Statement
  -- `on_conflict_do_nothing` with a list of rows
  insert_many : (table : String) → (rows : List Cells) → Statement
  select_rows : (table : String) → (loads : List String) → (clauses : Cells) → Statement
  -- `with_for_update`
  select_locked : (table : String) → (loads : List String) → (clauses : Cells) → Statement
  -- `select(…).join(via).where(…)`, with clauses on the table that is joined
  select_joined : (table via : String) → (clauses : Cells) → Statement
  update_rows : (table : String) → (clauses values : Cells) → Statement
  delete_rows : (table : String) → (clauses : Cells) → Statement

-- `AsyncSession.execute` and `scalars`; the rows are the entities that `unique()` keeps.
pub record Database (c : Connection) : Type 0 where
  pub execute : Statement → Eff c.State (List Row)
  -- `select(func.count())` and `exists(…)` of the rows that the clauses hold for
  pub count_of : (table : String) → (clauses : Cells) → Eff c.State ℕ
  pub exists_of : (table : String) → (clauses : Cells) → Eff c.State Bool
  -- the columns of the primary key
  pub primary_key : (table : String) → List String

-- `[getattr(entity, k) == v for k, v in eq_filters.items() if v is not None]`
unfoldable pub eq_clauses : Cells → Cells
eq_clauses [] = []
eq_clauses ((k, v) ∷ filters) =
    let rest = eq_clauses filters in if is_null v then rest else (k, v) ∷ rest

-- `first()`
abbrev pub first : List Row → Option Row
first [] = none
first (row ∷ _) = some row

-- `result[-1]`, where there is one
abbrev pub last_row : List Row → Option Row
last_row [] = none
last_row (row ∷ []) = some row
last_row (_ ∷ row ∷ rows) = last_row (row ∷ rows)

module _ {c : Connection} (db : Database c) where
  abbrev one_of : List Row → Eff c.State Row
  one_of (row ∷ []) = pure row
  one_of [] = throw (py library_error ("No row was found when one was required" ∷ []))
  one_of (_ ∷ _ ∷ _) =
      throw (py library_error ("Multiple rows were found when exactly one was required" ∷ []))

  unfoldable pub create_or_ignore : (table : String) → Cells → Eff c.State (Option Row)
  create_or_ignore table kw = do rows ← db.execute (insert_ignore table kw); pure (first rows)

  unfoldable pub create : (table : String) → Cells → Eff c.State Row
  create table kw = db.execute (insert_new table kw) >>= one_of

  -- The keywords that are no columns of the primary key.
  unfoldable pub set_values : (index_elements : List String) → Cells → Cells
  set_values index_elements [] = []
  set_values index_elements ((k, v) ∷ kw) =
      let rest = set_values index_elements kw in
      if contains index_elements k then rest else (k, v) ∷ rest

  unfoldable pub create_or_replace : (table : String) → Cells → Eff c.State Row
  unfolding set_values
  create_or_replace table kw =
      let index_elements = db.primary_key table in
      db.execute (insert_or_update table kw index_elements (set_values index_elements kw))
      >>= one_of

  unfoldable pub batch_create : (table : String) → List Cells → Eff c.State (List Row)
  batch_create table [] = throw (py assertion_error ("data to create should not be empty" ∷ []))
  batch_create table (row ∷ rows) = db.execute (insert_many table (row ∷ rows))

  unfoldable pub get_one :
      (table : String)
      → (loads : List String) → (for_update : Bool) → Cells
      → Eff c.State (Option Row)
  unfolding eq_clauses
  get_one table loads for_update filters = do
    rows ← db.execute (
        if for_update
        then select_locked table loads (eq_clauses filters)
        else select_rows table loads (eq_clauses filters))
    pure (first rows)

  unfoldable pub get_all : (table : String) → (loads : List String) → Cells → Eff c.State (List Row)
  unfolding eq_clauses
  get_all table loads filters = db.execute (select_rows table loads (eq_clauses filters))

  unfoldable pub update : (table : String) → (values filters : Cells) → Eff c.State (List Row)
  unfolding eq_clauses
  update table [] filters =
      throw (py assertion_error ("At least one field to update must be set" ∷ []))
  update table (v ∷ values) filters =
      db.execute (update_rows table (eq_clauses filters) (v ∷ values))

  unfoldable pub delete : (table : String) → Cells → Eff c.State (List Row)
  unfolding eq_clauses
  delete table filters = db.execute (delete_rows table (eq_clauses filters))

  unfoldable pub exists : (table : String) → Cells → Eff c.State Bool
  unfolding eq_clauses
  exists table filters = db.exists_of table (eq_clauses filters)

  unfoldable pub count : (table : String) → (filters clauses : Cells) → Eff c.State ℕ
  unfolding eq_clauses
  count table filters clauses = db.count_of table (eq_clauses filters ++ clauses)

  unfoldable pub get_role_users : (role_id : Cell) → Eff c.State (List Row)
  get_role_users role_id = db.execute (select_joined "user" "user_role" (("role_id", role_id) ∷ []))

  unfoldable pub get_user_roles : (user_id : Cell) → Eff c.State (List Row)
  get_user_roles user_id = db.execute (select_joined "role" "user_role" (("user_id", user_id) ∷ []))
