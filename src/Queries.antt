-- ===== src/Queries.antt =====
-- src/backend/infra/database/alchemy/queries/base.py: the queries that read an entity in pages, and
-- the cursors of src/backend/infra/database/alchemy/tools/common.py. A statement is a record of what
-- it asks for; the database that answers it is a parameter.
use litestar_cqrs_example.Common.{
  ℕ, ◌+◌, String, Bool, true, false, not, ◌||◌, Option, none, some, List, [], ◌∷◌, ◌++◌, ltb,
  nat_beq, if◌then◌else◌, length, take, is_empty, str_truthy,
}
use litestar_cqrs_example.Errors.{py, index_error, Try, ok, raise}
pub mod Table
pub mod Traversal
pub mod Codec
pub mod Offset
mod Tests

-- `sa.select(entity).where(…).order_by(pk).limit(…).offset(…)`; no limit is all rows.
pub record Select (R : Type 0) : Type 0 where
  pub clauses : List (R → Bool)
  pub asc : Bool
  pub offset : Option ℕ
  pub limit : Option ℕ

-- A select of the entity, or one of it joined with the keys of a common table expression, with
-- clauses of its own.
pub data Statement (R : Type 0) : Type 0 where
  plain : Select R → Statement R
  joined : Select R → List (R → Bool) → Statement R

-- The rows of a statement, and the count of those that clauses hold for.
pub record Database (R : Type 0) : Type 0 where
  pub key : R → ℕ
  pub rows : Statement R → List R
  pub count : List (R → Bool) → ℕ

-- `pk > id_` and `pk < id_`
abbrev pub after : (asc : Bool) → (id row : ℕ) → Bool
after true id row = ltb id row
after false id row = ltb row id

pub record CursorPaginationResult (R : Type 0) : Type 0 where
  pub items : List R
  pub results_per_page : ℕ
  pub cursor : String

pub record OffsetPaginationResult (R : Type 0) : Type 0 where
  pub items : List R
  pub limit : Option ℕ
  pub offset : Option ℕ
  pub total : ℕ

-- The encoder and the decoder of a cursor: JSON and base64 of an identifier.
pub record Cursors : Type 0 where
  pub encode : ℕ → String
  pub decode : String → Try ℕ

pub record GetManyByCursor (R : Type 0) : Type 0 where
  pub loads : List String
  pub clauses : List (R → Bool)
  pub asc : Bool
  pub limit : ℕ
  pub cursor : Option String

pub record GetManyByOffset (R : Type 0) : Type 0 where
  pub loads : List String
  pub clauses : List (R → Bool)
  pub asc : Bool
  pub offset : Option ℕ
  pub limit : Option ℕ

-- `items[-1]`
unfoldable pub last : {R : Type 0} → List R → Try R
last [] = raise (py index_error ("list index out of range" ∷ []))
last (x ∷ []) = ok x
last (_ ∷ y ∷ ys) = last (y ∷ ys)

abbrev pub limit_truthy : Option ℕ → Bool
limit_truthy none = false
limit_truthy (some n) = not (nat_beq n 0)

module _ {R : Type 0} where
  -- `GetManyByCursor.make_stmt`, with the clauses that the query has by then
  unfoldable pub make_stmt : GetManyByCursor R → (own clauses : List (R → Bool)) → Statement R
  make_stmt q own clauses =
      if is_empty q.loads
      then plain (record {
        clauses = own ++ clauses;
        asc = q.asc;
        offset = none;
        limit = some (q.limit + 1);
      })
      else joined (record { clauses = own; asc = q.asc; offset = none; limit = some (q.limit + 1) })
          clauses

  -- `GetManyByOffset.make_items_stmt`
  unfoldable pub make_items_stmt : GetManyByOffset R → (clauses : List (R → Bool)) → Statement R
  make_items_stmt q clauses =
      if is_empty q.loads || not (limit_truthy q.limit)
      then plain (record {
        clauses = q.clauses ++ clauses;
        asc = q.asc;
        offset = q.offset;
        limit = q.limit;
      })
      else joined (record { clauses = q.clauses; asc = q.asc; offset = q.offset; limit = q.limit })
          clauses

  module _ (db : Database R) where
    -- `GetManyByOffset.perform`
    unfoldable pub perform_offset :
        GetManyByOffset R → (clauses : List (R → Bool)) → OffsetPaginationResult R
    unfolding make_items_stmt
    perform_offset q clauses =
        let total = db.count (q.clauses ++ clauses) in
        if nat_beq total 0
        then record { items = []; limit = q.limit; offset = q.offset; total = total }
        else record {
          items = db.rows (make_items_stmt q clauses);
          limit = q.limit;
          offset = q.offset;
          total = total;
        }

    module _ (codec : Cursors) where
      -- The clause that a cursor adds: an empty cursor adds none.
      unfoldable pub cursor_clauses : (asc : Bool) → Option String → Try (List (R → Bool))
      cursor_clauses asc none = ok []
      cursor_clauses asc (some cursor) =
          if str_truthy cursor
          then elim (codec.decode cursor) [
            | ok id ↦ ok ((λ row. after asc id (db.key row)) ∷ [])
            | raise e ↦ raise e
          ]
          else ok []

      -- The result of `perform` over the rows that the database gave.
      unfoldable pub paged : (limit : ℕ) → List R → Try (CursorPaginationResult R)
      unfolding last
      paged limit result =
          let items = take limit result in
          if ltb limit (length result)
          then elim (last items) [
            | ok row ↦ ok (record {
              items = items;
              results_per_page = length items;
              cursor = codec.encode (db.key row);
            })
            | raise e ↦ raise e
          ]
          else ok (record { items = items; results_per_page = length items; cursor = "" })

      -- `GetManyByCursor.perform`
      unfoldable pub perform_cursor :
          GetManyByCursor R → (clauses : List (R → Bool)) → Try (CursorPaginationResult R)
      unfolding cursor_clauses make_stmt paged
      perform_cursor q clauses = elim (cursor_clauses q.asc q.cursor) [
        | ok extra ↦ paged q.limit (db.rows (make_stmt q (q.clauses ++ extra) clauses))
        | raise e ↦ raise e
      ]
