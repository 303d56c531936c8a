-- ===== src/Rules/Tests.antt =====
-- Tables in memory, and the rules of one route created in them.
use litestar_cqrs_example.Common.{
  ℕ, suc, String, refl, Bool, true, false, ◌&&◌, ◌||◌, Option, none, some, List, [], ◌∷◌, nat_beq,
  if◌then◌else◌, ◌==◌, nat_eq, string_eq,
}
use litestar_cqrs_example.Errors.{Try, ok}
use litestar_cqrs_example.Access.{Source, query, json, PermissionSpec, spec_key, update}
use litestar_cqrs_example.Services.Sample.{sample_server, empty_store}
use litestar_cqrs_example.Rules.Creation.{SessionQueries}
use litestar_cqrs_example.Rules.Startup.{Boot}
use litestar_cqrs_example.Effects.{Eff, pure}
use litestar_cqrs_example.Transaction.{Connection}
use litestar_cqrs_example.Gateway.Work.{SessionLaws}
use litestar_cqrs_example.Rules.{FieldRow, PermissionTables}

pub record Tables : Type 0 where
  pub ids : String → Option ℕ
  pub next : ℕ
  pub rows : FieldRow → Bool

abbrev same_source : Source → Source → Bool
same_source query query = true
same_source json json = true
same_source _ _ = false

abbrev same_row : FieldRow → FieldRow → Bool
same_row (id, src, name) (id', src', name') =
    nat_beq id id' && (same_source src src' && (name == name'))

abbrev put : List FieldRow → (FieldRow → Bool) → FieldRow → Bool
put [] f q = f q
put (row ∷ rows) f q = same_row row q || put rows f q

abbrev created : PermissionSpec → Option ℕ → Tables → Try (Option ℕ) × Tables
created p (some id) s = (ok none, s)
created p none s = (
  ok (some s.next),
  record s { ids = λ k. if spec_key p == k then some s.next else s.ids k; next = suc s.next },
)

abbrev tables : PermissionTables
tables = record {
  State = Tables;
  create_or_ignore = λ p s. created p (s.ids (spec_key p)) s;
  get_one = λ key s. (ok (s.ids key), s);
  batch_create = λ rows s. (ok tt, record s { rows = put rows s.rows });
}

abbrev users_update : PermissionSpec
users_update = record {
  resource = "users";
  action = update;
  operation = "update";
  description = none;
  fields = (json, "email" ∷ "name" ∷ []) ∷ [];
}

-- A session on the tables: what is durable, what it has written, and whether it is in a transaction
pub record Session : Type 0 where
  pub stored : Tables
  pub written : Tables
  pub inside : Bool

abbrev changing : (Session → Session) → Eff Session (Unit {0})
changing f s = (ok tt, f s)

abbrev connection : Connection
connection = record {
  State = Session;
  enter = pure tt;
  exit = changing (λ s. record s { written = s.stored; inside = false });
  is_active = λ _. true;
  in_transaction = λ s. s.inside;
  begin = changing (λ s. record s { written = s.stored; inside = true });
  begin_nested = pure tt;
  commit = changing (λ s. record { stored = s.written; written = s.written; inside = false });
  rollback = changing (λ s. record s { written = s.stored; inside = false });
  isolate = λ _. pure tt;
}

abbrev session_laws : SessionLaws connection Tables
session_laws = record {
  durability = record {
    durable = λ s. s.stored;
    working = λ s. s.written;
    durable-enter = λ s. refl;
    durable-exit = λ s. refl;
    durable-rollback = λ s. refl;
    durable-commit = λ s h. refl;
    durable-commit_fails = λ s e h. absurd (cc h);
  };
  fresh = λ d. record { stored = d; written = d; inside = false };
  durable-fresh = λ d. refl;
  fresh_active = λ d. refl;
  fresh_idle = λ d. refl;
  enter_self = λ s. refl;
  exit_ok = λ s. refl;
  durable-begin = λ s. refl;
  working-begin = λ s h. refl;
}

abbrev queries : SessionQueries connection session_laws
queries = record {
  query = λ q s. ((q s.written).0, record s { written = (q s.written).1 });
  query-answer = λ q s. refl;
  query-working = λ q s. refl;
  query-durable = λ q s. refl;
}

-- The first start finds no permission.
abbrev before : Tables
before = record { ids = λ key. none; next = 1; rows = λ row. false }

abbrev booting : Boot sample_server tables
booting = record { world = record { server = empty_store; now = 0; drawn = 0 }; tables = before }
