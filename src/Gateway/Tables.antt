-- ===== src/Gateway/Tables.antt =====
-- What a database does with the statements of the queries, and the methods of a repository that
-- answer with a status, over it.
use litestar_cqrs_example.Common.{
  String, ◌≡◌, refl, sym, ap, ◌∙◌, ◌⊎◌, inl, inr, Bool, true, false, not, ◌&&◌, Option, some, List,
  [], ◌∷◌, ◌++◌, nat_eq, string_eq, keep_if, any, is_empty, All,
}
use litestar_cqrs_example.Errors.{Exc, Try, Try-cases, ok, raise}
use litestar_cqrs_example.Result.{AppResult, as_result_sync, as_result_async}
use litestar_cqrs_example.Transaction.{Connection, Manager, Tx, new_manager, send}
use litestar_cqrs_example.Gateway.{
  same_cell, Cells, Row, Statement, insert_ignore, delete_rows, update_rows, Database, eq_clauses,
  first, create_or_ignore, delete,
}
use litestar_cqrs_example.Gateway.Repositories.{Dtos, is_some, some_rows, inserted, removed}
use litestar_cqrs_example.Gateway.Commands.{in_transaction}
use litestar_cqrs_example.Gateway.Work.{
  SessionLaws, durable, working, Quiet, Kept, opened, in_transaction_lem,
}

-- The clauses hold for a row.
abbrev pub matches : Cells → Row → Bool
matches [] row = true
matches ((k, v) ∷ clauses) row = same_cell (row k) v && matches clauses row

-- The row has the values.
abbrev pub Holds : Cells → Row → Type 0
Holds values row = All (λ kv. row kv.0 ≡ kv.1) values

-- The rows that the clauses hold for have the values now, and the others are as they were.
abbrev pub Assigned : (clauses values : Cells) → (before after : List Row) → Type 0
Assigned clauses values [] [] = Unit
Assigned clauses values [] (_ ∷ _) = ⊥
Assigned clauses values (_ ∷ _) [] = ⊥
Assigned clauses values (x ∷ xs) (y ∷ ys) =
    (((matches clauses x ≡ true) × Holds values y) ⊎ ((matches clauses x ≡ false) × (x ≡ y)))
    × Assigned clauses values xs ys

-- The documented behaviour of a database: what is stored in a table, which values a unique index
-- refuses, and what the statements do where they do not raise. One that raises has aborted the
-- transaction, whose commit is then a rollback.
pub record StatementLaws {c : Connection} (db : Database c) {D : Type 0} (laws : SessionLaws c D)
    : Type 0 where
  pub rows : D → (table : String) → List Row
  pub conflicts : D → (table : String) → Cells → Bool
  pub execute-durable :
      (st : Statement) (s : c.State) → durable laws (db.execute st s).1 ≡ durable laws s
  pub execute-aborted :
      (st : Statement) (s : c.State) (e : Exc)
      → (db.execute st s).0 ≡ raise e
      → working laws (db.execute st s).1 ≡ durable laws s
  pub insert_conflict :
      (table : String) (values : Cells) (s : c.State) (result : List Row)
      → (db.execute (insert_ignore table values) s).0 ≡ ok result
      → conflicts (working laws s) table values ≡ true
      → (result ≡ [])
        × (working laws (db.execute (insert_ignore table values) s).1 ≡ working laws s)
  pub insert_stored :
      (table : String) (values : Cells) (s : c.State) (result : List Row)
      → (db.execute (insert_ignore table values) s).0 ≡ ok result
      → conflicts (working laws s) table values ≡ false
      → (row : Row) × (result ≡ row ∷ [])
        × Holds values row
        × (rows (working laws (db.execute (insert_ignore table values) s).1) table
            ≡ rows (working laws s) table ++ row ∷ [])
  pub delete_removed :
      (table : String) (clauses : Cells) (s : c.State) (result : List Row)
      → (db.execute (delete_rows table clauses) s).0 ≡ ok result
      → (result ≡ keep_if (matches clauses) (rows (working laws s) table))
        × (rows (working laws (db.execute (delete_rows table clauses) s).1) table
            ≡ keep_if (λ row. not (matches clauses row)) (rows (working laws s) table))
  pub update_assigned :
      (table : String) (clauses values : Cells) (s : c.State) (result : List Row)
      → (db.execute (update_rows table clauses values) s).0 ≡ ok result
      → Assigned clauses values
          (rows (working laws s) table)
          (rows (working laws (db.execute (update_rows table clauses values) s).1) table)
        × (is_empty result ≡ not (any (matches clauses) (rows (working laws s) table)))

-- What a method answers that asks something of the rows.
abbrev pub status : (List Row → Bool) → Try (List Row) → Try (Option Bool)
status f (ok result) = ok (some (f result))
status f (raise e) = raise e

module _ {c : Connection} (db : Database c) (dtos : Dtos) where
  -- One statement, and the answer of a method on it
  abbrev pub answers : Statement → (List Row → Bool) → Tx c (AppResult Bool)
  answers st f m = (
    ok (as_result_sync (status f (db.execute st m.conn).0)),
    record m { conn = (db.execute st m.conn).1 },
  )

  pub inserted-answers :
      (table : String) (values : Cells) (m : Manager c.State)
      → inserted c db dtos table values m
        ≡ answers (insert_ignore table values) (λ result. is_some (first result)) m
  unfolding inserted as_result_async create_or_ignore send
  inserted-answers table values m =
      elim (Try-cases (db.execute (insert_ignore table values) m.conn).0) [
        | inl (result, e) ↦ rw e refl
        | inr (x, e) ↦ rw e refl
      ]

  pub removed-answers :
      (table : String) (filters : Cells) (m : Manager c.State)
      → removed c db dtos table filters m
        ≡ answers (delete_rows table (eq_clauses filters)) some_rows m
  unfolding removed as_result_async delete send
  removed-answers table filters m =
      elim (Try-cases (db.execute (delete_rows table (eq_clauses filters)) m.conn).0) [
        | inl (result, e) ↦ rw e refl
        | inr (x, e) ↦ rw e refl
      ]

module _ {c : Connection} (db : Database c) {D : Type 0} (laws : SessionLaws c D)
    (tables : StatementLaws db laws) where
  -- A body that sends one statement and makes an answer of what the database gave.
  abbrev pub Sends : {A : Type 0} → Statement → (Try (List Row) → Try A) → Tx c A → Type 0
  Sends st answer body =
      (m : Manager c.State)
      → body m ≡ (answer (db.execute st m.conn).0, record m { conn = (db.execute st m.conn).1 })

  Sends-Quiet :
      {A : Type 0} (st : Statement) (answer : Try (List Row) → Try A) (body : Tx c A)
      → Sends st answer body
      → Quiet laws body
  Sends-Quiet st answer body sends m = rw (sends m) (tables.execute-durable st m.conn, refl)

  -- The statement raised, and the answer that was made of this is given.
  abbrev pub Aborted :
      {A : Type 0} → (Try (List Row) → Try A) → D → Try A × Manager c.State → Type 0
  Aborted {A} answer d end =
      (x : Exc) × (a : A) × (answer (raise x) ≡ ok a)
      × (end.0 ≡ ok a)
      × (durable laws end.1.conn ≡ d)

  -- The statement gave rows, and what it wrote is durable.
  abbrev pub Executed :
      {A : Type 0} → Statement → (Try (List Row) → Try A) → D → Try A × Manager c.State → Type 0
  Executed {A} st answer d end =
      (s : c.State) × (rows : List Row) × (a : A) × (working laws s ≡ d)
      × ((db.execute st s).0 ≡ ok rows)
      × (answer (ok rows) ≡ ok a)
      × (end.0 ≡ ok a)
      × (durable laws end.1.conn ≡ working laws (db.execute st s).1)

  pub in_transaction-Sends :
      {A : Type 0} (st : Statement) (answer : Try (List Row) → Try A) (body : Tx c A) (d : D)
      → Sends st answer body
      → let end = in_transaction c body (new_manager c (laws.fresh d)) in
        Kept laws d end ⊎ (Aborted answer d end ⊎ Executed st answer d end)
  in_transaction-Sends st answer body d sends =
      elim (in_transaction_lem laws body d (Sends-Quiet st answer body sends)) [
        | inl kept ↦ inl kept
        | inr (s, work, same, (a, returned, ended, written)) ↦
            let is_a : answer (db.execute st s).0 ≡ ok a =
              sym (ap (λ x. x.0) (sends (opened laws s))) ∙ returned in
            let stored = written ∙ ap (λ x. working laws x.1.conn) (sends (opened laws s)) in
            inr (elim (Try-cases (db.execute st s).0) [
              | inr (x, e) ↦ inl (
                x,
                a,
                ap answer (sym e) ∙ is_a,
                ended,
                stored ∙ tables.execute-aborted st s x e ∙ same,
              )
              | inl (rows, e) ↦ inr (s, rows, a, work, e, ap answer (sym e) ∙ is_a, ended, stored)
            ])
      ]
