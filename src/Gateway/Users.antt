-- ===== src/Gateway/Users.antt =====
-- The commands that delete and update users.
use litestar_cqrs_example.Common.{
  String, ◌≡◌, refl, sym, ap, ◌∙◌, ◌⊎◌, inl, inr, Bool, true, false, not, Option, none, some, List,
  [], ◌∷◌, nat_eq, string_eq, Bool-cases, keep_if, any, is_empty,
}
use mathlib.Core.Path.{subst}
use litestar_cqrs_example.Errors
use litestar_cqrs_example.Errors.{
  app, from_other, py, assertion_error, not_found_error, conflict_error, Exc, Try, Try-cases,
  ok_inj, ok, raise,
}
use litestar_cqrs_example.Effects.{pure, lift, ◌>>=◌, ◌>>◌}
use litestar_cqrs_example.Result.{
  AppResult, normalize_exc, as_result_sync, as_result_async, map_err, unwrap, is_ok, app_exception,
}
use litestar_cqrs_example.Transaction.{Connection, Manager, Tx, new_manager, send}
use litestar_cqrs_example.UseCases.{PasswordHasher}
use litestar_cqrs_example.Gateway.{
  Cell, Cells, Row, delete_rows, update_rows, Database, eq_clauses, last_row, delete, update,
}
use litestar_cqrs_example.Gateway.Repositories.{Dtos, convert_or_none, delete_user, update_user}
use litestar_cqrs_example.Gateway.Commands.{
  UserData, user_cells, in_transaction, unwrapped, delete_user_command, with_hash,
  update_user_command,
}
use litestar_cqrs_example.Gateway.Work.{
  SessionLaws, durable, working, opened, Kept, in_transaction_lem,
}
use litestar_cqrs_example.Gateway.Tables.{
  StatementLaws, matches, Assigned, Sends, in_transaction-Sends,
}

-- The DTO of the last row of a statement
abbrev dto_of : {A : Type 0} → (Row → Try A) → Try (List Row) → Try (Option A)
dto_of of (ok rows) = convert_or_none of (last_row rows)
dto_of of (raise e) = raise e

last_row-any :
    (p : Row → Bool) (rows : List Row) → any p rows ≡ false → last_row (keep_if p rows) ≡ none
last_row-any p [] h = refl
last_row-any p (x ∷ rows) h = elim (Bool-cases (p x)) [
  | inl holds ↦ absurd (cc (rw holds at h))
  | inr other ↦ rw other (last_row-any p rows (rw other at h))
]

module _ {c : Connection} (db : Database c) (dtos : Dtos) {D : Type 0} (laws : SessionLaws c D)
    (tables : StatementLaws db laws) where
  abbrev pub users : D → List Row
  users d = tables.rows d "user"

  delete_user-Sends :
      (filters : Cells)
      → Sends db laws tables
          (delete_rows "user" (eq_clauses filters))
          (λ t. unwrapped not_found_error (as_result_sync (dto_of dtos.user_of t)))
          (delete_user c db dtos filters >>= λ result. lift (unwrapped not_found_error result))
  unfolding delete_user as_result_async delete send
  delete_user-Sends filters m =
      elim (Try-cases (db.execute (delete_rows "user" (eq_clauses filters)) m.conn).0) [
        | inl (rows, e) ↦ rw e refl
        | inr (x, e) ↦ rw e refl
      ]

  -- A filter that no user passes is refused by the answer to the rows that were deleted.
  none_refused :
      (filters : Cells) (d : D) (a : dtos.User)
      → unwrapped not_found_error (
          as_result_sync
            (dto_of dtos.user_of (ok (keep_if (matches (eq_clauses filters)) (users d)))))
        ≡ ok a
      → any (matches (eq_clauses filters)) (users d) ≡ true
  unfolding map_err unwrap as_result_sync
  none_refused filters d a h = elim (Bool-cases (any (matches (eq_clauses filters)) (users d))) [
    | inl some_one ↦ some_one
    | inr no_one ↦
        absurd (cc (rw (last_row-any (matches (eq_clauses filters)) (users d) no_one) at h))
  ]

  -- Deleting users takes out all those that pass the filters, at least one, and no others; or the
  -- command raises and the database is as it was, as it is where no user passes them.
  pub delete_user_command_lem :
      (filters : Cells) (d : D)
      → let (answer, m) = delete_user_command c db dtos filters (new_manager c (laws.fresh d)) in
        ((answer ≡ ok tt)
          × (any (matches (eq_clauses filters)) (users d) ≡ true)
          × (users (durable laws m.conn)
              ≡ keep_if (λ row. not (matches (eq_clauses filters) row)) (users d)))
        ⊎ ((e : Exc) × (answer ≡ raise e) × (durable laws m.conn ≡ d))
  unfolding delete_user_command map_err unwrap as_result_sync
  delete_user_command_lem filters d =
      elim (in_transaction-Sends db laws tables (delete_rows "user" (eq_clauses filters))
        (λ t. unwrapped not_found_error (as_result_sync (dto_of dtos.user_of t)))
        (delete_user c db dtos filters >>= λ result. lift (unwrapped not_found_error result)) d
        (delete_user-Sends filters)) [
          | inl (e, raised, same) ↦ inr (e, rw raised refl, rw raised same)
          | inr (inl (x, a, made, ended, same)) ↦ absurd (cc made)
          | inr (inr (s, rows, a, work, e, made, ended, stored)) ↦
              let (result, left) = tables.delete_removed "user" (eq_clauses filters) s rows e in
              let read : rows ≡ keep_if (matches (eq_clauses filters)) (users d) =
                result ∙ ap (λ d. keep_if (matches (eq_clauses filters)) (users d)) work in
              inl (
                rw ended refl,
                none_refused filters d a (
                    ap
                      (λ rows.
                        unwrapped not_found_error (as_result_sync (dto_of dtos.user_of (ok rows))))
                      (sym read)
                    ∙ made),
                rw ended (
                    ap users stored
                    ∙ left
                    ∙ ap (λ d. keep_if (λ row. not (matches (eq_clauses filters) row)) (users d))
                        work),
              )
        ]

  -- The data that an update stores: with the hash in the place of a password.
  abbrev pub HashedAs : PasswordHasher → UserData → UserData → Type 0
  HashedAs hasher values hashed =
      ((values.password ≡ none) × (hashed ≡ values))
      ⊎ ((plain : String) × (hash : String) × (values.password ≡ some plain)
          × (hasher.hash plain ≡ ok hash)
          × (hashed ≡ record values { password = some hash }))

  with_hash-HashedAs :
      (hasher : PasswordHasher) (values hashed : UserData) (password : Option String)
      → values.password ≡ password
      → with_hash hasher values password ≡ ok hashed
      → HashedAs hasher values hashed
  unfolding with_hash as_result_sync unwrap
  with_hash-HashedAs hasher values hashed none absent h = inl (absent, sym (ok_inj h))
  with_hash-HashedAs hasher values hashed (some plain) has h =
      elim (Try-cases (hasher.hash plain)) [
        | inl (hash, e) ↦ inr (plain, hash, has, e, sym (ok_inj (rw e at h)))
        | inr (x, e) ↦ absurd (cc (rw e at h))
      ]

  -- The body of an update, once the password is hashed.
  abbrev updating : UserData → (filters : Cells) → Tx c (AppResult dtos.User)
  updating hashed filters = do
    updated ← update_user c db dtos (user_cells hashed) filters
    lift (unwrapped conflict_error updated)
    pure updated

  abbrev update_answer : Try (List Row) → Try (AppResult dtos.User)
  update_answer t =
      let updated = as_result_sync (dto_of dtos.user_of t) in
      Errors.◌>>=◌ (unwrapped conflict_error updated) λ _. ok updated

  update_user-Sends :
      (v : String × Cell) (vs filters values : Cells)
      → values ≡ v ∷ vs
      → Sends db laws tables
          (update_rows "user" (eq_clauses filters) (v ∷ vs))
          (λ t. ok (as_result_sync (dto_of dtos.user_of t)))
          (update_user c db dtos values filters)
  unfolding update_user as_result_async update send
  update_user-Sends v vs filters values some_values m =
      rw some_values
        (elim (Try-cases (db.execute (update_rows "user" (eq_clauses filters) (v ∷ vs)) m.conn).0) [
          | inl (rows, e) ↦ rw (e, update) refl
          | inr (x, e) ↦ rw (e, update) refl
        ])

  updating-Sends :
      (v : String × Cell) (vs filters : Cells) (hashed : UserData)
      → user_cells hashed ≡ v ∷ vs
      → Sends db laws tables
          (update_rows "user" (eq_clauses filters) (v ∷ vs))
          update_answer
          (updating hashed filters)
  updating-Sends v vs filters hashed some_values m =
      rw (update_user-Sends v vs filters (user_cells hashed) some_values m)
        (elim (Try-cases (
          unwrapped conflict_error (
            as_result_sync (
              dto_of dtos.user_of
                (db.execute (update_rows "user" (eq_clauses filters) (v ∷ vs)) m.conn).0)))) [
                  | inl (user, e) ↦ rw e refl
                  | inr (x, e) ↦ rw e refl
                ])

  update_answer-ok :
      (rows : List Row) (a : AppResult dtos.User)
      → update_answer (ok rows) ≡ ok a
      → (is_ok a ≡ true) × (is_empty rows ≡ false)
  unfolding map_err unwrap as_result_sync is_ok
  update_answer-ok [] a h = absurd (cc h)
  update_answer-ok (row ∷ rows) a h = (answered (last_row (row ∷ rows)) h, refl)
    where
      answered :
          (o : Option Row)
          → (Errors.◌>>=◌
              (unwrapped conflict_error (as_result_sync (convert_or_none dtos.user_of o)))
              λ _. ok (as_result_sync (convert_or_none dtos.user_of o)))
            ≡ ok a
          → is_ok a ≡ true
      answered none h = absurd (cc h)
      answered (some row) h = elim (Try-cases (dtos.user_of row)) [
        | inr (x, e) ↦ absurd (cc (rw e at h))
        | inl (user, e) ↦ ap is_ok (sym (ok_inj (rw e at h)))
      ]

  raise-Kept :
      {A : Type 0} (body : Tx c A) (x : Exc) (d : D)
      → ((m : Manager c.State) → body m ≡ (raise x, m))
      → Kept laws d (in_transaction c body (new_manager c (laws.fresh d)))
  raise-Kept body x d raises =
      elim (in_transaction_lem laws body d (λ m. rw (raises m) (refl, refl))) [
        | inl kept ↦ kept
        | inr (s, _, _, (a, returned, _, _)) ↦
            absurd (cc (sym (ap (λ x. x.0) (raises (opened laws s))) ∙ returned))
      ]

  holds_not : (b : Bool) → false ≡ not b → b ≡ true
  holds_not true h = refl
  holds_not false h = absurd (cc h)

  abbrev no_value : Exc
  no_value = app (
      from_other conflict_error
        (normalize_exc (py assertion_error ("At least one field to update must be set" ∷ []))))

  -- An update without a value raises before a statement is sent.
  updating_nothing :
      (hashed : UserData) (filters : Cells)
      → user_cells hashed ≡ []
      → (m : Manager c.State) → updating hashed filters m ≡ (raise no_value, m)
  unfolding update_user as_result_async as_result_sync update send map_err unwrap normalize_exc
  updating_nothing hashed filters empty m = rw empty refl

  abbrev Updated : PasswordHasher → UserData → Cells → D → Try Bool × Manager c.State → Type 0
  Updated hasher values filters d end =
      (hashed : UserData) × (end.0 ≡ ok true)
      × HashedAs hasher values hashed
      × (is_empty (user_cells hashed) ≡ false)
      × (any (matches (eq_clauses filters)) (users d) ≡ true)
      × Assigned (eq_clauses filters) (user_cells hashed) (users d)
          (users (durable laws end.1.conn))

  abbrev hashing : PasswordHasher → UserData → Cells → Tx c (AppResult dtos.User)
  hashing hasher values filters = do
    hashed ← lift (with_hash hasher values values.password)
    updating hashed filters

  abbrev answering : Tx c (AppResult dtos.User) → Tx c Bool
  answering body = do result ← in_transaction c body; pure (is_ok result)

  answering_raise :
      (body : Tx c (AppResult dtos.User)) (d : D)
      → Kept laws d (in_transaction c body (new_manager c (laws.fresh d)))
      → Kept laws d (answering body (new_manager c (laws.fresh d)))
  answering_raise body d (e, raised, same) = (e, rw raised refl, rw raised same)

  answering_some :
      (hasher : PasswordHasher) (values hashed : UserData) (filters : Cells) (d : D)
      (v : String × Cell) (vs : Cells)
      → user_cells hashed ≡ v ∷ vs
      → with_hash hasher values values.password ≡ ok hashed
      → Updated hasher values filters d
          (answering (hashing hasher values filters) (new_manager c (laws.fresh d)))
        ⊎ Kept laws d (answering (hashing hasher values filters) (new_manager c (laws.fresh d)))
  unfolding map_err unwrap as_result_sync
  answering_some hasher values hashed filters d v vs some_values e =
      elim (in_transaction-Sends db laws tables (update_rows "user" (eq_clauses filters) (v ∷ vs))
        update_answer (hashing hasher values filters) d
        (λ m. rw e (updating-Sends v vs filters hashed some_values m))) [
          | inl kept ↦ inr (answering_raise (hashing hasher values filters) d kept)
          | inr (inl (x, a, made, ended, same)) ↦ absurd (cc made)
          | inr (inr (s, rows, a, work, e', made, ended, stored)) ↦
              let (assigned, is_any) =
                tables.update_assigned "user" (eq_clauses filters) (v ∷ vs) s rows e' in
              let (good, nonempty) = update_answer-ok rows a made in
              inl (
                hashed,
                rw ended (ap ok good),
                with_hash-HashedAs hasher values hashed values.password refl e,
                ap is_empty some_values,
                holds_not (any (matches (eq_clauses filters)) (users d)) (
                    sym nonempty
                    ∙ is_any
                    ∙ ap (λ d. not (any (matches (eq_clauses filters)) (users d))) work),
                rw ended (
                    subst
                      (λ vs. Assigned (eq_clauses filters) vs (users d) (
                        users (
                          durable laws
                            (in_transaction c (hashing hasher values filters)
                              (new_manager c (laws.fresh d))).1.conn)))
                      (sym some_values)
                      (subst
                        (λ d'. Assigned (eq_clauses filters) (v ∷ vs) (users d') (
                          users (
                            durable laws
                              (in_transaction c (hashing hasher values filters)
                                (new_manager c (laws.fresh d))).1.conn)))
                        work
                        (subst (Assigned (eq_clauses filters) (v ∷ vs) (users (working laws s)))
                          (sym (ap users stored)) assigned))),
              )
        ]

  -- Updating users answers that it did, stores the values in those that pass the filters, at least
  -- one, with the hash of a new password and never the password, and leaves the others; or the command
  -- raises and the database is as it was, as it is where nothing is to be stored or no user passes.
  pub update_user_command_lem :
      (hasher : PasswordHasher) (values : UserData) (filters : Cells) (d : D)
      → let (answer, m) =
          update_user_command c db dtos hasher values filters (new_manager c (laws.fresh d)) in
        ((hashed : UserData) × (answer ≡ ok true)
          × HashedAs hasher values hashed
          × (is_empty (user_cells hashed) ≡ false)
          × (any (matches (eq_clauses filters)) (users d) ≡ true)
          × Assigned
              (eq_clauses filters)
              (user_cells hashed)
              (users d)
              (users (durable laws m.conn)))
        ⊎ ((e : Exc) × (answer ≡ raise e) × (durable laws m.conn ≡ d))
  unfolding update_user_command
  update_user_command_lem hasher values filters d =
      elim (Try-cases (with_hash hasher values values.password)) [
        | inr (x, e) ↦ inr (
            answering_raise (hashing hasher values filters) d
              (raise-Kept (hashing hasher values filters) x d (λ m. rw e refl)))
        | inl (hashed, e) ↦ by_values hashed e (user_cells hashed) refl
      ]
    where
      by_values :
          (hashed : UserData)
          → with_hash hasher values values.password ≡ ok hashed
          → (vs : Cells) → user_cells hashed ≡ vs
          → Updated hasher values filters d
              (answering (hashing hasher values filters) (new_manager c (laws.fresh d)))
            ⊎ Kept laws d (answering (hashing hasher values filters) (new_manager c (laws.fresh d)))
      by_values hashed e [] empty = inr (
          answering_raise (hashing hasher values filters) d (
            raise-Kept (hashing hasher values filters) no_value d
              (λ m. rw e (updating_nothing hashed filters empty m))))
      by_values hashed e (v ∷ vs) some_values =
          answering_some hasher values hashed filters d v vs some_values e
