-- ===== src/Gateway/Tests.antt =====
-- The theorems at a database in memory.
use litestar_cqrs_example.Common.{
  ◌≡◌, refl, ◌⊎◌, true, false, not, none, some, List, [], ◌∷◌, nat_eq, string_eq, keep_if, any,
  is_empty,
}
use litestar_cqrs_example.Errors.{Exc, ok, raise}
use litestar_cqrs_example.Transaction.{new_manager, with_transaction, enter, aexit, send}
use litestar_cqrs_example.Result.{as_result_async, unwrap, map_err}
use litestar_cqrs_example.Gateway.{text, eq_clauses, create_or_ignore, delete}
use litestar_cqrs_example.Gateway.Repositories.{set_role, unset_role}
use litestar_cqrs_example.Gateway.Commands.{
  UserData, user_cells, delete_user_command, update_user_command, in_transaction,
}
use litestar_cqrs_example.Gateway.Tables.{matches, Assigned}
use litestar_cqrs_example.Gateway.Memberships.{
  Command, assign, unassign, Refines, members, run, handle, run-Refines,
}
use litestar_cqrs_example.Gateway.Users.{
  users, HashedAs, delete_user_command_lem, update_user_command_lem,
}
use litestar_cqrs_example.Gateway.Sample.{
  sample, laws, db, tables, dtos, hasher, start, execute_at, keyed,
}

abbrev commands : List Command
commands = assign "admin" "1" ∷ assign "admin" "2" ∷ unassign "admin" "1" ∷ assign "admin" "1" ∷ []

run-Refines_example :
    Refines
      (members db dtos laws tables start)
      commands
      (run db dtos laws tables commands start).0
      (members db dtos laws tables (run db dtos laws tables commands start).1)
run-Refines_example = run-Refines db dtos laws tables keyed commands start

runs : Unit {0}
unfolding execute_at run handle new_manager in_transaction with_transaction enter set_role
    unset_role as_result_async aexit send create_or_ignore unwrap map_err delete
runs = tt

replies :
    (run db dtos laws tables commands start).0
    ≡ ok (some false) ∷ ok (some true) ∷ ok none ∷ ok (some true) ∷ []
unfolding runs
replies = refl

delete_user_command_lem_example :
    let (answer, m) =
      delete_user_command sample db dtos
        (("id", text "2") ∷ [])
        (new_manager sample (laws.fresh start)) in
    ((answer ≡ ok tt)
      × (any (matches (eq_clauses (("id", text "2") ∷ []))) (users db dtos laws tables start)
          ≡ true)
      × (users db dtos laws tables m.conn.stored
          ≡ keep_if
              (λ row. not (matches (eq_clauses (("id", text "2") ∷ [])) row))
              (users db dtos laws tables start)))
    ⊎ ((e : Exc) × (answer ≡ raise e) × (m.conn.stored ≡ start))
delete_user_command_lem_example =
    delete_user_command_lem db dtos laws tables (("id", text "2") ∷ []) start

abbrev new_password : UserData
new_password = record { email = none; password = some "secret" }

update_user_command_lem_example :
    let (answer, m) =
      update_user_command sample db dtos hasher new_password
        (("id", text "1") ∷ [])
        (new_manager sample (laws.fresh start)) in
    ((hashed : UserData) × (answer ≡ ok true)
      × HashedAs db dtos laws tables hasher new_password hashed
      × (is_empty (user_cells hashed) ≡ false)
      × (any (matches (eq_clauses (("id", text "1") ∷ []))) (users db dtos laws tables start)
          ≡ true)
      × Assigned
          (eq_clauses (("id", text "1") ∷ []))
          (user_cells hashed)
          (users db dtos laws tables start)
          (users db dtos laws tables m.conn.stored))
    ⊎ ((e : Exc) × (answer ≡ raise e) × (m.conn.stored ≡ start))
update_user_command_lem_example =
    update_user_command_lem db dtos laws tables hasher new_password (("id", text "1") ∷ []) start
