-- ===== src/Transaction.antt =====
-- src/backend/infra/database/manager.py: `TransactionManagerImpl` and its factory, over the
-- connection of src/backend/app/contracts/connection.py, which SQLAlchemy implements.
use litestar_cqrs_example.Common.{
  ℕ, suc, String, Bool, true, false, not, Option, none, some, [], ◌∷◌, if◌then◌else◌,
}
use litestar_cqrs_example.Errors.{Exc, py, value_error, assertion_error, Try, ok, raise}
use litestar_cqrs_example.Effects.{Eff, pure, throw, ◌>>=◌, ◌>>◌}
pub mod Opening
pub mod Atomic
mod Tests

-- `AsyncConnection`. `isolate` stands for the statement that the driver executes.
pub record Connection : Type 1 where
  pub State : Type 0
  pub enter : Eff State (Unit {0})
  pub exit : Eff State (Unit {0})
  pub is_active : State → Bool
  pub in_transaction : State → Bool
  pub begin : Eff State (Unit {0})
  pub begin_nested : Eff State (Unit {0})
  pub commit : Eff State (Unit {0})
  pub rollback : Eff State (Unit {0})
  pub isolate : (level : String) → Eff State (Unit {0})

-- `IsolationLevel`
pub data IsolationLevel : Type 0 where
  serializable repeatable_read read_committed read_uncommitted : IsolationLevel

abbrev pub level_text : IsolationLevel → String
level_text serializable = "SERIALIZABLE"
level_text repeatable_read = "REPEATABLE READ"
level_text read_committed = "READ COMMITTED"
level_text read_uncommitted = "READ UNCOMMITTED"

abbrev pub closed_connection : Exc
closed_connection = py assertion_error ("Cannot start transaction on closed connection" ∷ [])

abbrev pub level_for_nested : Exc
level_for_nested = py value_error ("Isolation level is not supported for nested transactions" ∷ [])

abbrev pub already_open : Exc
already_open =
    py value_error
      ("Invalid transaction state: cannot start regular transaction within active transaction" ∷ [])

-- `TransactionManagerImpl`, with the warnings that it has given.
pub record Manager (S : Type 0) : Type 0 where
  pub conn : S
  pub is_tx_opened : Bool
  pub warnings : ℕ

module _ (c : Connection) where
  abbrev pub Tx : Type 0 → Type 0
  Tx A = Eff (Manager c.State) A

  -- A call of the connection.
  unfoldable pub on_conn : {A : Type 0} → Eff c.State A → Tx A
  on_conn op m = let (t, s) = op m.conn in (t, record m { conn = s })

  -- `__init__`
  unfoldable pub new_manager : c.State → Manager c.State
  new_manager conn = record { conn = conn; is_tx_opened = false; warnings = 0 }

  -- `send`
  unfoldable pub send : {A : Type 0} → Eff c.State A → Tx A
  unfolding on_conn
  send query = on_conn query

  unfoldable pub commit : Tx (Unit {0})
  unfolding on_conn
  commit = on_conn c.commit

  unfoldable pub rollback : Tx (Unit {0})
  unfolding on_conn
  rollback = on_conn c.rollback

  unfoldable pub close_transaction : Tx (Unit {0})
  unfolding on_conn
  close_transaction = on_conn c.exit

  unfoldable pub enter : Tx (Unit {0})
  unfolding on_conn
  enter = on_conn c.enter

  abbrev warn : Tx (Unit {0})
  warn m = (ok tt, record m { warnings = suc m.warnings })

  -- The `if` statement of `with_transaction`, over `in_transaction()` and `nested`.
  unfoldable pub open_transaction : (active nested : Bool) → Option IsolationLevel → Tx (Unit {0})
  unfolding on_conn
  open_transaction false false isolation_level = on_conn c.begin
  open_transaction true true none = on_conn c.begin_nested
  open_transaction true true (some _) = throw level_for_nested
  open_transaction false true isolation_level = do warn; on_conn c.begin
  open_transaction true false isolation_level = throw already_open

  abbrev pub mark_opened : Tx (Unit {0})
  mark_opened m = (ok tt, record m { is_tx_opened = true })

  abbrev pub set_isolation : Option IsolationLevel → Tx (Unit {0})
  set_isolation none = pure tt
  set_isolation (some level) = on_conn (c.isolate (level_text level))

  unfoldable pub with_transaction : Option IsolationLevel → (nested : Bool) → Tx (Unit {0})
  unfolding open_transaction
  with_transaction isolation_level nested m = elim (c.is_active m.conn) [
    | false ↦ (raise closed_connection, m)
    | true ↦
        (do
          open_transaction (c.in_transaction m.conn) nested isolation_level
          mark_opened
          set_isolation isolation_level)
          m
  ]

  -- The first statement of `__aexit__`, which knows whether the body raised.
  unfoldable pub settle : (raised : Bool) → Tx (Unit {0})
  unfolding commit rollback
  settle raised m = if m.is_tx_opened then (if raised then rollback m else commit m) else (ok tt, m)

  -- `__aexit__`: where settling raises, the connection is not closed.
  unfoldable pub aexit : (raised : Bool) → Tx (Unit {0})
  unfolding settle close_transaction
  aexit raised = do settle raised; close_transaction

  -- What the `async with` statement does with the end of its body.
  abbrev pub leave : {A : Type 0} → Try A → Tx A
  leave (ok a) = do aexit false; pure a
  leave (raise e) = do aexit true; throw e

  abbrev pub managed : {A : Type 0} → Tx A → Tx A
  managed body m = let (t, m') = body m in leave t m'

  -- `make_manager_context`, around a body
  unfoldable pub make_manager_context :
      {A : Type 0} → (conn : c.State) → Tx A → Try A × Manager c.State
  unfolding new_manager enter aexit
  make_manager_context conn body = (enter >> managed body) (new_manager conn)
