-- ===== src/Gateway/Memberships.antt =====
-- The commands that give a user a role and take it away are a set of pairs of a role and a user.
use litestar_cqrs_example.Common.{
  String, ◌≡◌, refl, sym, ap, ◌∙◌, ◌⊎◌, inl, inr, Bool, true, not, ◌&&◌, ◌||◌, Option, none, some,
  List, [], ◌∷◌, nat_eq, string_eq, Bool-cases, any,
}
use mathlib.Core.Path.{subst, fun_ext}
use litestar_cqrs_example.Errors.{conflict_error, from_other, Exc, app, Try, ok, raise}
use litestar_cqrs_example.Effects.{pure, lift, ◌>>=◌, ◌>>◌}
use litestar_cqrs_example.Result.{normalize_exc, as_result_sync, map_err, unwrap, app_exception}
use litestar_cqrs_example.Transaction.{Connection, Manager, Tx, new_manager}
use litestar_cqrs_example.Gateway.{Row, insert_ignore, delete_rows, Database, eq_clauses, first}
use litestar_cqrs_example.Gateway.Repositories.{Dtos, is_some, some_rows, set_role, unset_role}
use litestar_cqrs_example.Gateway.Commands.{unwrapped, set_role_command, unset_role_command}
use litestar_cqrs_example.Gateway.Work.{SessionLaws, durable, working}
use litestar_cqrs_example.Gateway.Pairs.{pair, is_pair, is_pair_eq, any-stored, any-deleted}
use litestar_cqrs_example.Gateway.Tables.{
  StatementLaws, matches, answers, status, Sends, in_transaction-Sends, inserted-answers,
  removed-answers,
}

pub data Command : Type 0 where
  assign unassign : (role_id user_id : String) → Command

-- The abstract state and what a command does to it.
abbrev pub Pairs : Type 0
Pairs = String → String → Bool

abbrev pub effect : Command → Pairs → Pairs
effect (assign r u) members r' u' = is_pair r u r' u' || members r' u'
effect (unassign r u) members r' u' = not (is_pair r u r' u') && members r' u'

-- A status says whether the pair was new; taking a role away answers nothing.
abbrev pub reply : Command → Pairs → Option Bool
reply (assign r u) members = some (not (members r u))
reply (unassign r u) members = none

-- The answers of commands one after another: each is the reply of the set and changes it, or the
-- command raised and changed nothing.
abbrev pub Refines : Pairs → List Command → List (Try (Option Bool)) → Pairs → Type 0
Refines members [] [] after = members ≡ after
Refines members [] (_ ∷ _) after = ⊥
Refines members (_ ∷ _) [] after = ⊥
Refines members (command ∷ commands) (answer ∷ answers) after =
    ((answer ≡ ok (reply command members))
      × Refines (effect command members) commands answers after)
    ⊎ ((e : Exc) × (answer ≡ raise e) × Refines members commands answers after)

-- A pair that is there already changes nothing.
kept_pair :
    (r u : String) (members : Pairs) (r' u' : String)
    → members r u ≡ true
    → members r' u' ≡ effect (assign r u) members r' u'
kept_pair r u members r' u' old = elim (Bool-cases (is_pair r u r' u')) [
  | inr other ↦ rw other refl
  | inl same ↦
      let (role, user) = is_pair_eq r u r' u' same in
      rw same (ap (λ x. members x u') (sym role) ∙ ap (members r) (sym user) ∙ old)
]

module _ {c : Connection} (db : Database c) (dtos : Dtos) {D : Type 0} (laws : SessionLaws c D)
    (tables : StatementLaws db laws) where
  -- The pairs that the database stores.
  abbrev pub members : D → Pairs
  members d r u = any (matches (pair r u)) (tables.rows d "user_role")

  -- A command with the answer that its handler gives.
  unfoldable pub handle : Command → Tx c (Option Bool)
  unfolding set_role_command unset_role_command
  handle (assign r u) = set_role_command c db dtos (pair r u) >>= λ new. pure (some new)
  handle (unassign r u) = unset_role_command c db dtos (pair r u) >> pure none

  -- Each command has a session of its own.
  unfoldable pub run : List Command → D → List (Try (Option Bool)) × D
  unfolding handle
  run [] d = ([], d)
  run (command ∷ commands) d =
      let (answer, m) = handle command (new_manager c (laws.fresh d)) in
      let (answers, after) = run commands (durable laws m.conn) in (answer ∷ answers, after)

  abbrev Stepped : Command → D → Try (Option Bool) × Manager c.State → Type 0
  Stepped command d end =
      ((end.0 ≡ ok (reply command (members d)))
        × (members (durable laws end.1.conn) ≡ effect command (members d)))
      ⊎ ((e : Exc) × (end.0 ≡ raise e) × (durable laws end.1.conn ≡ d))

  module _
      (keyed : (d : D) (r u : String)
        → tables.conflicts d "user_role" (pair r u) ≡ members d r u) where
    -- What the statement of an assignment makes of the pairs.
    assigned :
        (r u : String) (s : c.State) (rows : List Row)
        → (db.execute (insert_ignore "user_role" (pair r u)) s).0 ≡ ok rows
        → (is_some (first rows) ≡ not (members (working laws s) r u))
          × (members (working laws (db.execute (insert_ignore "user_role" (pair r u)) s).1)
              ≡ effect (assign r u) (members (working laws s)))
    assigned r u s rows e = elim (Bool-cases (members (working laws s) r u)) [
      | inl old ↦
          let (empty, same) =
            tables.insert_conflict "user_role" (pair r u) s rows e (keyed _ r u ∙ old) in
          (
            rw (empty, old) refl,
            ap members same
                ∙ fun_ext
                    (λ r'. fun_ext (λ u'. kept_pair r u (members (working laws s)) r' u' old)),
          )
      | inr new ↦
          let (row, one, holds, stored) =
            tables.insert_stored "user_role" (pair r u) s rows e (keyed _ r u ∙ new) in
          (
            rw (one, new) refl,
            fun_ext (λ r'. fun_ext (λ u'.
                ap (any (matches (pair r' u'))) stored
                ∙ any-stored r u r' u' (tables.rows (working laws s) "user_role") row holds)),
          )
    ]

    set_role-Sends :
        (r u : String)
        → Sends db laws tables
            (insert_ignore "user_role" (pair r u))
            (λ t. ok (as_result_sync (status (λ result. is_some (first result)) t)))
            (set_role c db dtos (pair r u))
    unfolding set_role
    set_role-Sends r u m = inserted-answers db dtos "user_role" (pair r u) m

    step_assign :
        (r u : String) (d : D)
        → Stepped (assign r u) d (handle (assign r u) (new_manager c (laws.fresh d)))
    unfolding handle set_role_command map_err unwrap as_result_sync
    step_assign r u d =
        elim (in_transaction-Sends db laws tables (insert_ignore "user_role" (pair r u))
          (λ t. ok (as_result_sync (status (λ result. is_some (first result)) t)))
          (set_role c db dtos (pair r u)) d (set_role-Sends r u)) [
            | inl (e, raised, same) ↦ inr (e, rw raised refl, rw raised same)
            | inr (inl (x, a, made, ended, same)) ↦ inr (
              app (from_other conflict_error (normalize_exc x)),
              rw (ended ∙ sym made) refl,
              rw (ended ∙ sym made) same,
            )
            | inr (inr (s, rows, a, work, e, made, ended, stored)) ↦
                let (new, view) = assigned r u s rows e in
                inl (
                  rw (ended ∙ sym made)
                      (ap (λ b. ok (some b)) (new ∙ ap (λ d. not (members d r u)) work)),
                  rw (ended ∙ sym made)
                      (ap members stored ∙ view ∙ ap (λ d. effect (assign r u) (members d)) work),
                )
          ]

    unset_role-Sends :
        (r u : String)
        → Sends db laws tables
            (delete_rows "user_role" (pair r u))
            (λ t. unwrapped conflict_error (as_result_sync (status some_rows t)))
            (unset_role c db dtos (pair r u) >>= λ result. lift (unwrapped conflict_error result))
    unfolding unset_role eq_clauses
    unset_role-Sends r u m = rw (removed-answers db dtos "user_role" (pair r u) m) refl

    deleted :
        (r u : String) (s : c.State) (rows : List Row)
        → (db.execute (delete_rows "user_role" (pair r u)) s).0 ≡ ok rows
        → members (working laws (db.execute (delete_rows "user_role" (pair r u)) s).1)
          ≡ effect (unassign r u) (members (working laws s))
    deleted r u s rows e = fun_ext (λ r'. fun_ext (λ u'.
        ap (any (matches (pair r' u'))) (tables.delete_removed "user_role" (pair r u) s rows e).1
        ∙ any-deleted r u r' u' (tables.rows (working laws s) "user_role")))

    step_unassign :
        (r u : String) (d : D)
        → Stepped (unassign r u) d (handle (unassign r u) (new_manager c (laws.fresh d)))
    unfolding handle unset_role_command map_err unwrap as_result_sync
    step_unassign r u d =
        elim (in_transaction-Sends db laws tables (delete_rows "user_role" (pair r u))
          (λ t. unwrapped conflict_error (as_result_sync (status some_rows t))) _ d
          (unset_role-Sends r u)) [
            | inl (e, raised, same) ↦ inr (e, rw raised refl, rw raised same)
            | inr (inl (x, a, made, ended, same)) ↦ absurd (cc made)
            | inr (inr (s, rows, a, work, e, made, ended, stored)) ↦ inl (
              rw ended refl,
              rw ended (
                  ap members stored
                  ∙ deleted r u s rows e
                  ∙ ap (λ d. effect (unassign r u) (members d)) work),
            )
          ]

    step :
        (command : Command) (d : D)
        → Stepped command d (handle command (new_manager c (laws.fresh d)))
    step (assign r u) d = step_assign r u d
    step (unassign r u) d = step_unassign r u d

    -- Commands that give roles to users and take them away, each in a session of its own, refine a set
    -- of pairs where the key of the table is the pair: each gives the reply of the set and changes it
    -- alike, or it raises and changes nothing.
    pub run-Refines :
        (commands : List Command) (d : D)
        → Refines (members d) commands (run commands d).0 (members (run commands d).1)
    unfolding run
    run-Refines [] d = refl
    run-Refines (command ∷ commands) d =
        let m = (handle command (new_manager c (laws.fresh d))).1 in
        let rest = run-Refines commands (durable laws m.conn) in
        elim (step command d) [
          | inl (answered, view) ↦ inl (
            answered,
            subst
                (λ v.
                  Refines v commands (run commands (durable laws m.conn)).0
                    (members (run commands (durable laws m.conn)).1))
                view rest,
          )
          | inr (e, raised, same) ↦ inr (
            e,
            raised,
            subst
                (λ v.
                  Refines v commands (run commands (durable laws m.conn)).0
                    (members (run commands (durable laws m.conn)).1))
                (ap members same) rest,
          )
        ]
