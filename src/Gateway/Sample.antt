-- ===== src/Gateway/Sample.antt =====
-- A database in memory with a key on the pairs of roles and users.
use litestar_cqrs_example.Common.{
  String, ◌≡◌, refl, sym, ap, ◌∙◌, inl, inr, Bool, true, false, not, ◌&&◌, ◌||◌, List, [], ◌∷◌,
  ◌++◌, arith, if◌then◌else◌, ◌==◌, beq_self, nat_eq, string_eq, Bool-cases, length, keep_if, any,
  is_empty, ◌+s◌,
}
use litestar_cqrs_example.Errors.{Exc, py, value_error, Try, ok_inj, ok, raise}
use litestar_cqrs_example.Effects.{Eff, pure}
use litestar_cqrs_example.Transaction.{Connection}
use litestar_cqrs_example.UseCases.{PasswordHasher, answered}
use litestar_cqrs_example.Gateway.{
  Cell, text, null, Cells, Row, Statement, insert_ignore, insert_new, insert_or_update, insert_many,
  select_rows, select_locked, select_joined, update_rows, delete_rows, Database,
}
use litestar_cqrs_example.Gateway.Repositories.{Dtos}
use litestar_cqrs_example.Gateway.Work.{SessionLaws}
use litestar_cqrs_example.Gateway.Pairs.{pair}
use litestar_cqrs_example.Gateway.Tables.{StatementLaws, matches, Assigned, Holds}
use litestar_cqrs_example.Gateway.Memberships.{members}

abbrev pub Stored : Type 0
Stored = String → List Row

pub record Session : Type 0 where
  pub stored : Stored
  pub written : Stored
  pub inside : Bool

abbrev pub changing : (Session → Session) → Eff Session (Unit {0})
changing f s = (ok tt, f s)

abbrev pub sample : Connection
sample = record {
  State = Session;
  enter = pure tt;
  exit = changing (λ s. record s { written = s.stored; inside = false });
  is_active = λ _. true;
  in_transaction = λ s. s.inside;
  begin = changing (λ s. record s { written = s.stored; inside = true });
  begin_nested = pure tt;
  commit = changing (λ s. record { stored = s.written; written = s.written; inside = false });
  rollback = changing (λ s. record s { written = s.stored; inside = false });
  isolate = λ _. pure tt;
}

pub ok_not_raise : {A : Type 0} {B : Type 0} {b : B} {e : Exc} → ok b ≡ raise e → A
ok_not_raise h = absurd (cc h)

abbrev pub laws : SessionLaws sample Stored
laws = record {
  durability = record {
    durable = λ s. s.stored;
    working = λ s. s.written;
    durable-enter = λ s. refl;
    durable-exit = λ s. refl;
    durable-rollback = λ s. refl;
    durable-commit = λ s h. refl;
    durable-commit_fails = λ s e h. ok_not_raise h;
  };
  fresh = λ d. record { stored = d; written = d; inside = false };
  durable-fresh = λ d. refl;
  fresh_active = λ d. refl;
  fresh_idle = λ d. refl;
  enter_self = λ s. refl;
  exit_ok = λ s. refl;
  durable-begin = λ s. refl;
  working-begin = λ s h. refl;
}

-- The keywords of a call are distinct.
abbrev has_key : String → Cells → Bool
has_key k [] = false
has_key k ((k', _) ∷ values) = (k == k') || has_key k values

abbrev distinct : Cells → Bool
distinct [] = true
distinct ((k, _) ∷ values) = not (has_key k values) && distinct values

abbrev pub set_row : Cells → Row → Row
set_row [] row = row
set_row ((k, v) ∷ values) row = λ k'. if k == k' then v else set_row values row k'

abbrev set_rows : (clauses values : Cells) → List Row → List Row
set_rows clauses values [] = []
set_rows clauses values (row ∷ rows) =
    (if matches clauses row then set_row values row else row) ∷ set_rows clauses values rows

abbrev pub no_cells : Row
no_cells _ = null

abbrev store : String → List Row → Session → Session
store table rows s = record s {
  written = λ table'. if table == table' then rows else s.written table';
}

abbrev sample_conflicts : Stored → String → Cells → Bool
sample_conflicts d table values = (table == "user_role") && any (matches values) (d table)

abbrev refused : Session → Try (List Row) × Session
refused s = (raise (py value_error []), record s { written = s.stored })

unfoldable insert_at : String → Cells → Bool → Bool → Session → Try (List Row) × Session
insert_at table values false conflict s = refused s
insert_at table values true true s = (ok [], s)
insert_at table values true false s = (
  ok (set_row values no_cells ∷ []),
  store table (s.written table ++ set_row values no_cells ∷ []) s,
)

unfoldable update_at : String → Cells → Cells → Bool → Session → Try (List Row) × Session
update_at table clauses values false s = refused s
update_at table clauses values true s = (
  ok (keep_if (matches clauses) (s.written table)),
  store table (set_rows clauses values (s.written table)) s,
)

unfoldable pub execute_at : Statement → Session → Try (List Row) × Session
unfolding insert_at update_at
execute_at (insert_ignore table values) s =
    insert_at table values (distinct values) (sample_conflicts s.written table values) s
execute_at (insert_new table values) s = refused s
execute_at (insert_or_update table values index_elements sets) s = refused s
execute_at (insert_many table rows) s = refused s
execute_at (select_rows table loads clauses) s =
    (ok (keep_if (matches clauses) (s.written table)), s)
execute_at (select_locked table loads clauses) s =
    (ok (keep_if (matches clauses) (s.written table)), s)
execute_at (select_joined table via clauses) s = (ok [], s)
execute_at (update_rows table clauses values) s = update_at table clauses values (distinct values) s
execute_at (delete_rows table clauses) s = (
  ok (keep_if (matches clauses) (s.written table)),
  store table (keep_if (λ row. not (matches clauses row)) (s.written table)) s,
)

abbrev pub db : Database sample
db = record {
  execute = execute_at;
  count_of = λ table clauses s. (ok (length (keep_if (matches clauses) (s.written table))), s);
  exists_of = λ table clauses s. (ok (any (matches clauses) (s.written table)), s);
  primary_key = λ _. [];
}

store_lem :
    (table : String) (rows : List Row) (s : Session) → (store table rows s).written table ≡ rows
store_lem table rows s = rw (beq_self table) refl

-- Cells that are set are held.
not_key :
    (k : String) (v : Cell) (row : Row) (values : Cells)
    → has_key k values ≡ false
    → Holds values row
    → Holds values (λ k'. if k == k' then v else row k')
not_key k v row [] h holds = holds
not_key k v row ((k', v') ∷ values) h (e, rest) = elim (Bool-cases (k == k')) [
  | inl same ↦ absurd (cc (rw same at h))
  | inr other ↦ (rw other e, not_key k v row values (rw other at h) rest)
]

set_row-Holds :
    (values : Cells) (row : Row) → distinct values ≡ true → Holds values (set_row values row)
set_row-Holds [] row h = tt
set_row-Holds ((k, v) ∷ values) row h = elim (Bool-cases (has_key k values)) [
  | inl twice ↦ absurd (cc (rw twice at h))
  | inr once ↦ (
    rw (beq_self k) refl,
    not_key k v (set_row values row) values once (set_row-Holds values row (rw once at h)),
  )
]

set_rows-Assigned :
    (clauses values : Cells) (rows : List Row)
    → distinct values ≡ true
    → Assigned clauses values rows (set_rows clauses values rows)
set_rows-Assigned clauses values [] h = tt
set_rows-Assigned clauses values (row ∷ rows) h = elim (Bool-cases (matches clauses row)) [
  | inl yes_it ↦ (
    inl (yes_it, rw yes_it (set_row-Holds values row h)),
    set_rows-Assigned clauses values rows h,
  )
  | inr no_it ↦ (inr (no_it, rw no_it refl), set_rows-Assigned clauses values rows h)
]

is_empty-keep_if :
    {A : Type 0} (p : A → Bool) (xs : List A) → is_empty (keep_if p xs) ≡ not (any p xs)
is_empty-keep_if p [] = refl
is_empty-keep_if p (x ∷ xs) = ground (arith, is_empty-keep_if p xs)

insert_at-stored :
    (table : String) (values : Cells) (good conflict : Bool) (s : Session)
    → (insert_at table values good conflict s).1.stored ≡ s.stored
unfolding insert_at
insert_at-stored table values false conflict s = refl
insert_at-stored table values true true s = refl
insert_at-stored table values true false s = refl

update_at-stored :
    (table : String) (clauses values : Cells) (good : Bool) (s : Session)
    → (update_at table clauses values good s).1.stored ≡ s.stored
unfolding update_at
update_at-stored table clauses values false s = refl
update_at-stored table clauses values true s = refl

execute_at-stored : (st : Statement) (s : Session) → (execute_at st s).1.stored ≡ s.stored
unfolding execute_at
execute_at-stored (insert_ignore table values) s =
    insert_at-stored table values (distinct values) (sample_conflicts s.written table values) s
execute_at-stored (insert_new table values) s = refl
execute_at-stored (insert_or_update table values index_elements sets) s = refl
execute_at-stored (insert_many table rows) s = refl
execute_at-stored (select_rows table loads clauses) s = refl
execute_at-stored (select_locked table loads clauses) s = refl
execute_at-stored (select_joined table via clauses) s = refl
execute_at-stored (update_rows table clauses values) s =
    update_at-stored table clauses values (distinct values) s
execute_at-stored (delete_rows table clauses) s = refl

insert_at-aborted :
    (table : String) (values : Cells) (good conflict : Bool) (s : Session) (e : Exc)
    → (insert_at table values good conflict s).0 ≡ raise e
    → (insert_at table values good conflict s).1.written ≡ s.stored
unfolding insert_at
insert_at-aborted table values false conflict s e h = refl
insert_at-aborted table values true true s e h = ok_not_raise h
insert_at-aborted table values true false s e h = ok_not_raise h

update_at-aborted :
    (table : String) (clauses values : Cells) (good : Bool) (s : Session) (e : Exc)
    → (update_at table clauses values good s).0 ≡ raise e
    → (update_at table clauses values good s).1.written ≡ s.stored
unfolding update_at
update_at-aborted table clauses values false s e h = refl
update_at-aborted table clauses values true s e h = ok_not_raise h

execute_at-aborted :
    (st : Statement) (s : Session) (e : Exc)
    → (execute_at st s).0 ≡ raise e
    → (execute_at st s).1.written ≡ s.stored
unfolding execute_at
execute_at-aborted (insert_ignore table values) s e h =
    insert_at-aborted table values (distinct values) (sample_conflicts s.written table values) s e h
execute_at-aborted (insert_new table values) s e h = refl
execute_at-aborted (insert_or_update table values index_elements sets) s e h = refl
execute_at-aborted (insert_many table rows) s e h = refl
execute_at-aborted (select_rows table loads clauses) s e h = ok_not_raise h
execute_at-aborted (select_locked table loads clauses) s e h = ok_not_raise h
execute_at-aborted (select_joined table via clauses) s e h = ok_not_raise h
execute_at-aborted (update_rows table clauses values) s e h =
    update_at-aborted table clauses values (distinct values) s e h
execute_at-aborted (delete_rows table clauses) s e h = ok_not_raise h

insert_at-conflict :
    (table : String) (values : Cells) (good conflict : Bool) (s : Session) (result : List Row)
    → (insert_at table values good conflict s).0 ≡ ok result
    → conflict ≡ true
    → (result ≡ []) × ((insert_at table values good conflict s).1.written ≡ s.written)
unfolding insert_at
insert_at-conflict table values false conflict s result h c = ok_not_raise (sym h)
insert_at-conflict table values true true s result h c = (sym (ok_inj h), refl)
insert_at-conflict table values true false s result h c = absurd (cc c)

insert_at-new :
    (table : String) (values : Cells) (good conflict : Bool) (s : Session) (result : List Row)
    → good ≡ distinct values
    → (insert_at table values good conflict s).0 ≡ ok result
    → conflict ≡ false
    → (row : Row) × (result ≡ row ∷ [])
      × Holds values row
      × ((insert_at table values good conflict s).1.written table ≡ s.written table ++ row ∷ [])
unfolding insert_at
insert_at-new table values false conflict s result g h c = ok_not_raise (sym h)
insert_at-new table values true true s result g h c = absurd (cc c)
insert_at-new table values true false s result g h c = (
  set_row values no_cells,
  sym (ok_inj h),
  set_row-Holds values no_cells (sym g),
  store_lem table (s.written table ++ set_row values no_cells ∷ []) s,
)

update_at-Assigned :
    (table : String) (clauses values : Cells) (good : Bool) (s : Session) (result : List Row)
    → good ≡ distinct values
    → (update_at table clauses values good s).0 ≡ ok result
    → Assigned clauses values
        (s.written table)
        ((update_at table clauses values good s).1.written table)
      × (is_empty result ≡ not (any (matches clauses) (s.written table)))
unfolding update_at
update_at-Assigned table clauses values false s result g h = ok_not_raise (sym h)
update_at-Assigned table clauses values true s result g h = (
  rw (store_lem table (set_rows clauses values (s.written table)) s)
      (set_rows-Assigned clauses values (s.written table) (sym g)),
  ap is_empty (sym (ok_inj h)) ∙ is_empty-keep_if (matches clauses) (s.written table),
)

pub tables : StatementLaws db laws
unfolding execute_at
tables = record {
  rows = λ d table. d table;
  conflicts = sample_conflicts;
  execute-durable = execute_at-stored;
  execute-aborted = λ st s e h. execute_at-aborted st s e h;
  insert_conflict = λ table values s result h c.
      insert_at-conflict table values (distinct values) (sample_conflicts s.written table values) s
        result h c;
  insert_stored = λ table values s result h c.
      insert_at-new table values (distinct values) (sample_conflicts s.written table values) s
        result refl h c;
  delete_removed = λ table clauses s result h. (
    sym (ok_inj h),
    store_lem table (keep_if (λ row. not (matches clauses row)) (s.written table)) s,
  );
  update_assigned = λ table clauses values s result h.
      update_at-Assigned table clauses values (distinct values) s result refl h;
}

abbrev pub dtos : Dtos
dtos = record {
  Role = Row;
  User = Row;
  Permission = Row;
  role_of = λ row. ok row;
  user_of = λ row. ok row;
  permission_of = λ row. ok row;
  role_id = λ row. row "id";
  user_id = λ row. row "id";
  day_of = λ _. 0;
}

abbrev pub hasher : PasswordHasher
hasher = record { hash = λ plain. ok ("#" +s plain); verify = λ hashed plain. answered true }

abbrev ann : Cells
ann = ("id", text "1") ∷ ("email", text "ann@a.b") ∷ []

abbrev bob : Cells
bob = ("id", text "2") ∷ ("email", text "bob@a.b") ∷ []

abbrev pub start : Stored
start table =
    if table == "user"
    then set_row ann no_cells ∷ set_row bob no_cells ∷ []
    else if table == "user_role"
    then set_row (pair "admin" "1") no_cells ∷ []
    else []

pub keyed :
    (d : Stored) (r u : String)
    → tables.conflicts d "user_role" (pair r u) ≡ members db dtos laws tables d r u
unfolding tables
keyed d r u = refl
