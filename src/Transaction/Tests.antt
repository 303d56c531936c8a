-- ===== src/Transaction/Tests.antt =====
-- A connection to a database with one number, and the theorems at it.
use litestar_cqrs_example.Common.{
  ℕ, ◌≡◌, refl, ◌⊎◌, Bool, true, false, none, some, [], nat_eq, string_eq,
}
use litestar_cqrs_example.Errors.{Exc, py, value_error, ok, raise}
use litestar_cqrs_example.Effects.{Eff, pure, throw, ◌>>◌}
use litestar_cqrs_example.Transaction.{
  Connection, Tx, serializable, new_manager, send, with_transaction, open_transaction, settle,
  make_manager_context,
}
use litestar_cqrs_example.Transaction.Opening.{Accepts, Opens, Refuses, with_transaction_lem}
use litestar_cqrs_example.Transaction.Atomic.{DurableLaws, Written, make_manager_context_atomic}

record Session : Type 0 where
  stored : ℕ
  written : ℕ
  inside : Bool

abbrev changing : (Session → Session) → Eff Session (Unit {0})
changing f s = (ok tt, f s)

abbrev sample : Connection
sample = record {
  State = Session;
  enter = pure tt;
  exit = changing (λ s. record s { written = s.stored; inside = false });
  is_active = λ _. true;
  in_transaction = λ s. s.inside;
  begin = changing (λ s. record s { inside = true });
  begin_nested = pure tt;
  commit = changing (λ s. record { stored = s.written; written = s.written; inside = false });
  rollback = changing (λ s. record s { written = s.stored; inside = false });
  isolate = λ _. pure tt;
}

ok_not_raise : {A : Type 0} {e : Exc} → ok (tt {0}) ≡ raise e → A
ok_not_raise h = absurd (cc h)

abbrev laws : DurableLaws sample ℕ
laws = record {
  durable = λ s. s.stored;
  working = λ s. s.written;
  durable-enter = λ s. refl;
  durable-exit = λ s. refl;
  durable-rollback = λ s. refl;
  durable-commit = λ s h. refl;
  durable-commit_fails = λ s e h. ok_not_raise h;
}

abbrev writes : ℕ → Eff Session (Unit {0})
writes n = changing (λ s. record s { written = n; inside = true })

abbrev idle : Session
idle = record { stored = 1; written = 1; inside = false }

-- The body of a request that writes 7 in a transaction, or without one.
abbrev work : Tx sample (Unit {0})
work = with_transaction sample none false >> send sample (writes 7)

ended :
    ((make_manager_context sample idle work).1.conn.stored ≡ 7)
    × ((make_manager_context sample idle
          (work >> throw {A = Unit {0}} (py value_error []))).1.conn.stored
        ≡ 1)
    × ((make_manager_context sample idle (send sample (writes 7))).1.conn.stored ≡ 1)
unfolding make_manager_context with_transaction open_transaction send settle
ended = (refl, refl, refl)

with_transaction_lem_example :
    Refuses sample (some serializable) true (new_manager sample idle)
    ⊎ (Accepts sample (some serializable) true (new_manager sample idle)
        × Opens sample (with_transaction sample (some serializable) true (new_manager sample idle)))
with_transaction_lem_example =
    with_transaction_lem sample (some serializable) true (new_manager sample idle)

make_manager_context_atomic_example :
    ((make_manager_context sample idle (send sample (writes 7))).1.conn.stored ≡ 1)
    ⊎ Written sample laws
        (send sample (writes 7))
        idle
        (make_manager_context sample idle (send sample (writes 7))).1
unfolding send
make_manager_context_atomic_example =
    make_manager_context_atomic sample laws (send sample (writes 7)) idle (λ m. refl)
