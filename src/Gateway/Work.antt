-- ===== src/Gateway/Work.antt =====
-- A handler's transaction on a session of its own: it is committed and its answer given, or it
-- raises and the database is as it was.
use litestar_cqrs_example.Common.{
  ℕ, ◌≡◌, refl, sym, ap, ◌∙◌, ◌⊎◌, inl, inr, true, false, none, nat_eq, string_eq,
}
use mathlib.Core.Path.{subst}
use litestar_cqrs_example.Errors.{Exc, Try, Try-cases, ok, raise}
use litestar_cqrs_example.Effects.{◌>>◌}
use litestar_cqrs_example.Transaction.{
  Connection, Manager, Tx, new_manager, with_transaction, open_transaction, enter, settle, aexit,
  commit, rollback, close_transaction, leave, make_manager_context,
}
use litestar_cqrs_example.Transaction.Atomic.{DurableLaws}
use litestar_cqrs_example.Gateway.Commands.{in_transaction}

-- What the sessions of the factory do beside the laws of `DurableLaws`: a new one is active and
-- outside a transaction, entering it does nothing, closing it does not raise, and a transaction
-- begins with what is durable.
pub record SessionLaws (c : Connection) (D : Type 0) : Type 0 where
  pub durability : DurableLaws c D
  pub fresh : D → c.State
  pub durable-fresh : (d : D) → durability.durable (fresh d) ≡ d
  pub fresh_active : (d : D) → c.is_active (fresh d) ≡ true
  pub fresh_idle : (d : D) → c.in_transaction (fresh d) ≡ false
  pub enter_self : (s : c.State) → c.enter s ≡ (ok tt, s)
  pub exit_ok : (s : c.State) → (c.exit s).0 ≡ ok tt
  pub durable-begin : (s : c.State) → durability.durable (c.begin s).1 ≡ durability.durable s
  pub working-begin :
      (s : c.State)
      → (c.begin s).0 ≡ ok tt
      → durability.working (c.begin s).1 ≡ durability.durable s

module _ {c : Connection} {D : Type 0} (laws : SessionLaws c D) where
  abbrev pub durable : c.State → D
  durable = laws.durability.durable

  abbrev pub working : c.State → D
  working = laws.durability.working

  abbrev pub opened : c.State → Manager c.State
  opened s = record { conn = s; is_tx_opened = true; warnings = 0 }

  -- A body that does not itself change what is durable, nor close the transaction.
  abbrev pub Quiet : {A : Type 0} → Tx c A → Type 0
  Quiet body =
      (m : Manager c.State)
      → (durable (body m).1.conn ≡ durable m.conn) × ((body m).1.is_tx_opened ≡ m.is_tx_opened)

  abbrev pub Kept : {A : Type 0} → D → Try A × Manager c.State → Type 0
  Kept d end = (e : Exc) × (end.0 ≡ raise e) × (durable end.1.conn ≡ d)

  -- The body returned, the caller gets its value, and what it wrote is durable.
  abbrev pub Committed : {A : Type 0} → Try A × Manager c.State → Try A × Manager c.State → Type 0
  Committed {A} body end =
      (a : A) × (body.0 ≡ ok a) × (end.0 ≡ ok a) × (durable end.1.conn ≡ working body.1.conn)

  leave_opened :
      {A : Type 0} (t : Try A) (conn : c.State) (warnings : ℕ)
      → let m : Manager c.State = record {
        conn = conn;
        is_tx_opened = true;
        warnings = warnings;
      } in
        Kept (durable conn) (leave c t m) ⊎ Committed (t, m) (leave c t m)
  unfolding aexit settle commit rollback close_transaction
  leave_opened (raise e) conn warnings = elim (Try-cases (c.rollback conn).0) [
    | inr (e', failed) ↦ inl (e', rw failed refl, rw failed (laws.durability.durable-rollback conn))
    | inl (_, done) ↦ inl (
      e,
      rw (done, laws.exit_ok (c.rollback conn).1) refl,
      rw (done, laws.exit_ok (c.rollback conn).1)
          (laws.durability.durable-exit (c.rollback conn).1
            ∙ laws.durability.durable-rollback conn),
    )
  ]
  leave_opened (ok a) conn warnings = elim (Try-cases (c.commit conn).0) [
    | inr (e', failed) ↦
        inl (e', rw failed refl, rw failed (laws.durability.durable-commit_fails conn e' failed))
    | inl (_, done) ↦ inr (
      a,
      refl,
      rw (done, laws.exit_ok (c.commit conn).1) refl,
      rw (done, laws.exit_ok (c.commit conn).1)
          (laws.durability.durable-exit (c.commit conn).1
            ∙ laws.durability.durable-commit conn done),
    )
  ]

  leave_lem :
      {A : Type 0} (t : Try A) (m : Manager c.State)
      → m.is_tx_opened ≡ true
      → Kept (durable m.conn) (leave c t m) ⊎ Committed (t, m) (leave c t m)
  leave_lem t m begun =
      subst (λ m. Kept (durable m.conn) (leave c t m) ⊎ Committed (t, m) (leave c t m))
        (ap (λ b. record m { is_tx_opened = b }) (sym begun)) (leave_opened t m.conn m.warnings)

  begin_fails :
      (d : D) (e : Exc)
      → (c.begin (laws.fresh d)).0 ≡ raise e
      → with_transaction c none false (new_manager c (laws.fresh d)) ≡ (
        raise e,
        record { conn = (c.begin (laws.fresh d)).1; is_tx_opened = false; warnings = 0 },
      )
  unfolding with_transaction open_transaction new_manager
  begin_fails d e failed =
      rw (laws.fresh_active d, with_transaction)
        (rw (laws.fresh_idle d, open_transaction) (rw failed refl))

  begin_opens :
      (d : D)
      → (c.begin (laws.fresh d)).0 ≡ ok tt
      → with_transaction c none false (new_manager c (laws.fresh d))
        ≡ (ok tt, opened (c.begin (laws.fresh d)).1)
  unfolding with_transaction open_transaction new_manager
  begin_opens d done =
      rw (laws.fresh_active d, with_transaction)
        (rw (laws.fresh_idle d, open_transaction) (rw done refl))

  in_transaction-leave :
      {A : Type 0} (body : Tx c A) (m : Manager c.State) (s : c.State)
      → with_transaction c none false m ≡ (ok tt, opened s)
      → in_transaction c body m ≡ leave c (body (opened s)).0 (body (opened s)).1
  unfolding in_transaction enter
  in_transaction-leave body m s e = rw e (rw (laws.enter_self s) refl)

  in_transaction-raise :
      {A : Type 0} (body : Tx c A) (m m' : Manager c.State) (e : Exc)
      → with_transaction c none false m ≡ (raise e, m')
      → in_transaction c body m ≡ (raise e, m')
  unfolding in_transaction
  in_transaction-raise body m m' e failed = rw failed refl

  -- A handler's transaction on a new session is kept out of the database and raises, or its body
  -- returned and is committed; the body began with what is durable.
  pub in_transaction_lem :
      {A : Type 0} (body : Tx c A) (d : D)
      → Quiet body
      → let end = in_transaction c body (new_manager c (laws.fresh d)) in
        Kept d end
        ⊎ ((s : c.State) × (working s ≡ d) × (durable s ≡ d) × Committed (body (opened s)) end)
  in_transaction_lem body d quiet =
      let conn = laws.fresh d in
      let s = (c.begin conn).1 in
      let same = laws.durable-begin conn ∙ laws.durable-fresh d in
      elim (Try-cases (c.begin conn).0) [
        | inr (e, failed) ↦
            let end = in_transaction-raise body _ _ e (begin_fails d e failed) in
            inl (e, ap (λ x. x.0) end, ap (λ x. durable x.1.conn) end ∙ same)
        | inl (_, done) ↦
            let end = in_transaction-leave body _ s (begin_opens d done) in
            let (still, is_open) = quiet (opened s) in
            subst
              (λ x.
                Kept d x
                ⊎ ((s : c.State) × (working s ≡ d)
                    × (durable s ≡ d)
                    × Committed (body (opened s)) x))
              (sym end)
              (elim (leave_lem (body (opened s)).0 (body (opened s)).1 is_open) [
                | inl (e, raised, kept) ↦ inl (e, raised, kept ∙ still ∙ same)
                | inr committed ↦
                    inr (s, laws.working-begin conn done ∙ laws.durable-fresh d, same, committed)
              ])
      ]

  -- A new session's manager around a body that opens the transaction itself
  abbrev pub managed_work : {A : Type 0} → Tx c A → D → Try A × Manager c.State
  managed_work body d =
      make_manager_context c (laws.fresh d) (with_transaction c none false >> body)

  managed_work-leave :
      {A : Type 0} (body : Tx c A) (d : D) (s : c.State)
      → with_transaction c none false (new_manager c (laws.fresh d)) ≡ (ok tt, opened s)
      → managed_work body d ≡ leave c (body (opened s)).0 (body (opened s)).1
  unfolding make_manager_context enter
  managed_work-leave body d s e = rw (laws.enter_self (laws.fresh d)) (rw e refl)

  -- Where the database begins and commits, a body that returns is committed and its answer given.
  pub managed_work-commits :
      {A : Type 0} (body : Tx c A) (d : D) (a : A)
      → ((s : c.State) → (c.begin s).0 ≡ ok tt)
      → ((s : c.State) → (c.commit s).0 ≡ ok tt)
      → let s = (c.begin (laws.fresh d)).1 in
        (body (opened s)).0 ≡ ok a
        → (body (opened s)).1.is_tx_opened ≡ true
        → ((managed_work body d).0 ≡ ok a)
          × (durable (managed_work body d).1.conn ≡ working (body (opened s)).1.conn)
  unfolding aexit settle commit close_transaction
  managed_work-commits body d a begins commits returned is_open =
      let s = (c.begin (laws.fresh d)).1 in
      let conn = (body (opened s)).1.conn in
      let end = managed_work-leave body d s (begin_opens d (begins (laws.fresh d))) in
      let closed = laws.exit_ok (c.commit conn).1 in
      (
        rw end (rw (returned, is_open, commits conn, closed) refl),
        rw end (
            rw (returned, is_open, commits conn, closed)
              (laws.durability.durable-exit (c.commit conn).1
                ∙ laws.durability.durable-commit conn (commits conn))),
      )
