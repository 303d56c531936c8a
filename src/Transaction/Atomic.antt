-- ===== src/Transaction/Atomic.antt =====
-- A unit of work under `async with` is written as a whole or not at all.
use litestar_cqrs_example.Common.{
  ◌≡◌, refl, ap, ◌∙◌, ◌⊎◌, inl, inr, true, false, nat_eq, string_eq, Bool-cases,
}
use litestar_cqrs_example.Errors.{Exc, Try, Try-cases, ok, raise}
use litestar_cqrs_example.Effects.{pure, throw, continue}
use litestar_cqrs_example.Transaction.{
  Connection, Manager, Tx, commit, rollback, settle, close_transaction, aexit, leave,
  make_manager_context,
}

-- What other sessions see (`durable`), what this session has written (`working`), and the documented
-- effect of a connection's calls on them. A commit that raises has written nothing.
pub record DurableLaws (c : Connection) (D : Type 0) : Type 0 where
  pub durable : c.State → D
  pub working : c.State → D
  pub durable-enter : (s : c.State) → durable (c.enter s).1 ≡ durable s
  pub durable-exit : (s : c.State) → durable (c.exit s).1 ≡ durable s
  pub durable-rollback : (s : c.State) → durable (c.rollback s).1 ≡ durable s
  pub durable-commit : (s : c.State) → (c.commit s).0 ≡ ok tt → durable (c.commit s).1 ≡ working s
  pub durable-commit_fails :
      (s : c.State) (e : Exc) → (c.commit s).0 ≡ raise e → durable (c.commit s).1 ≡ durable s

module _ (c : Connection) {D : Type 0} (laws : DurableLaws c D) where
  -- What the body begins with.
  abbrev pub entered : c.State → Manager c.State
  entered conn = record { conn = (c.enter conn).1; is_tx_opened = false; warnings = 0 }

  abbrev pub Written : {A : Type 0} → Tx c A → c.State → Manager c.State → Type 0
  Written {A} body conn m =
      (a : A) × ((body (entered conn)).0 ≡ ok a)
      × ((body (entered conn)).1.is_tx_opened ≡ true)
      × (laws.durable m.conn ≡ laws.working (body (entered conn)).1.conn)

  -- Closing, after settling and before the statement is left, changes nothing durable.
  durable-then_close :
      {A : Type 0} (t : Try (Unit {0})) (end : Tx c A) (m : Manager c.State)
      → ((m : Manager c.State) → (end m).1 ≡ m)
      → laws.durable
          (continue
            (continue t (λ _. close_transaction c) m).0
            (λ _. end)
            (continue t (λ _. close_transaction c) m).1).1.conn
        ≡ laws.durable m.conn
  unfolding close_transaction
  durable-then_close (raise e) end m still = refl
  durable-then_close (ok _) end m still = after (c.exit m.conn).0
    where
      after :
          (t : Try (Unit {0}))
          → laws.durable (continue t (λ _. end) (record m { conn = (c.exit m.conn).1 })).1.conn
            ≡ laws.durable m.conn
      after (raise e) = laws.durable-exit m.conn
      after (ok _) =
          ap (λ m. laws.durable m.conn) (still (record m { conn = (c.exit m.conn).1 }))
          ∙ laws.durable-exit m.conn

  durable-settle_raised :
      (m : Manager c.State) → laws.durable (settle c true m).1.conn ≡ laws.durable m.conn
  unfolding settle rollback
  durable-settle_raised m = elim (Bool-cases m.is_tx_opened) [
    | inl opened ↦ simp opened (laws.durable-rollback m.conn)
    | inr plain ↦ simp plain refl
  ]

  -- Where settling commits, what was written is durable, or the commit failed.
  durable-settle :
      (m : Manager c.State)
      → (laws.durable (settle c false m).1.conn ≡ laws.durable m.conn)
        ⊎ ((m.is_tx_opened ≡ true) × (laws.durable (settle c false m).1.conn ≡ laws.working m.conn))
  unfolding settle commit
  durable-settle m = elim (Bool-cases m.is_tx_opened) [
    | inr plain ↦ inl (simp plain refl)
    | inl opened ↦ elim (Try-cases (c.commit m.conn).0) [
      | inl (_, done) ↦ inr (opened, simp opened (laws.durable-commit m.conn done))
      | inr (e, failed) ↦ inl (simp opened (laws.durable-commit_fails m.conn e failed))
    ]
  ]

  durable-leave :
      {A : Type 0} (t : Try A) (m : Manager c.State)
      → (laws.durable (leave c t m).1.conn ≡ laws.durable m.conn)
        ⊎ ((a : A) × (t ≡ ok a)
            × (m.is_tx_opened ≡ true)
            × (laws.durable (leave c t m).1.conn ≡ laws.working m.conn))
  unfolding aexit
  durable-leave (raise e) m = inl (
      durable-then_close (settle c true m).0 (throw e) (settle c true m).1 (λ m. refl)
      ∙ durable-settle_raised m)
  durable-leave (ok a) m =
      let closed =
        durable-then_close (settle c false m).0 (pure a) (settle c false m).1 (λ m. refl) in
      elim (durable-settle m) [
        | inl same ↦ inl (closed ∙ same)
        | inr (opened, written) ↦ inr (a, refl, opened, closed ∙ written)
      ]

  -- A unit of work under `make_manager_context`, whose body does not itself change what is durable,
  -- leaves what is durable as it was, or makes all that the body wrote durable; the second only where
  -- the body returned and `with_transaction` had opened a transaction.
  pub make_manager_context_atomic :
      {A : Type 0} (body : Tx c A) (conn : c.State)
      → ((m : Manager c.State) → laws.durable (body m).1.conn ≡ laws.durable m.conn)
      → (laws.durable (make_manager_context c conn body).1.conn ≡ laws.durable conn)
        ⊎ Written body conn (make_manager_context c conn body).1
  unfolding make_manager_context
  make_manager_context_atomic body conn quiet = elim (Try-cases (c.enter conn).0) [
    | inr (e, failed) ↦ inl (rw failed (laws.durable-enter conn))
    | inl (_, begun) ↦
        rw begun (elim (durable-leave (body (entered conn)).0 (body (entered conn)).1) [
          | inl same ↦ inl (same ∙ quiet (entered conn) ∙ laws.durable-enter conn)
          | inr (a, returned, opened, written) ↦ inr (a, returned, opened, written)
        ])
  ]
