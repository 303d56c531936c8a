-- ===== src/Transaction/Opening.antt =====
-- When `with_transaction` opens a transaction.
use litestar_cqrs_example.Common.{
  ◌≡◌, refl, ◌⊎◌, inl, inr, Bool, true, false, Option, none, some, nat_eq, string_eq, Bool-cases,
}
use litestar_cqrs_example.Errors.{Exc, Try, ok, raise}
use litestar_cqrs_example.Effects.{continue, ◌>>◌}
use litestar_cqrs_example.Transaction.{
  Connection, IsolationLevel, Manager, on_conn, open_transaction, mark_opened, set_isolation,
  closed_connection, level_for_nested, already_open, with_transaction,
}

module _ (c : Connection) where
  -- The session is active and in no transaction, or in one and a nested one without a level is
  -- asked for.
  abbrev pub Accepts : Option IsolationLevel → Bool → Manager c.State → Type 0
  Accepts level nested m =
      (c.is_active m.conn ≡ true)
      × ((c.in_transaction m.conn ≡ false) ⊎ ((nested ≡ true) × (level ≡ none)))

  abbrev OpensAt : Try (Unit {0}) → Manager c.State → Type 0
  OpensAt (ok _) m = m.is_tx_opened ≡ true
  OpensAt (raise _) m = Unit

  abbrev pub Opens : Try (Unit {0}) × Manager c.State → Type 0
  Opens p = OpensAt p.0 p.1

  abbrev pub Refuses : Option IsolationLevel → Bool → Manager c.State → Type 0
  Refuses level nested m =
      (Accepts level nested m → ⊥) × (e : Exc) × (with_transaction c level nested m ≡ (raise e, m))

  is_open : (t : Try (Unit {0})) (m : Manager c.State) → m.is_tx_opened ≡ true → OpensAt t m
  is_open (ok _) m h = h
  is_open (raise _) m h = tt

  isolated :
      (level : Option IsolationLevel) (m : Manager c.State)
      → m.is_tx_opened ≡ true
      → Opens (set_isolation c level m)
  unfolding on_conn
  isolated none m h = h
  isolated (some level) m h = is_open _ _ h

  marked :
      (level : Option IsolationLevel) (t : Try (Unit {0})) (m : Manager c.State)
      → Opens (continue t (λ _. mark_opened c >> set_isolation c level) m)
  marked level (ok _) m = isolated level (record m { is_tx_opened = true }) refl
  marked level (raise e) m = tt

  -- `with_transaction` either refuses, exactly where it does not accept, and then raises and leaves
  -- the manager as it was; or, where it returns, the manager knows that a transaction is open.
  pub with_transaction_lem :
      (level : Option IsolationLevel) (nested : Bool) (m : Manager c.State)
      → Refuses level nested m
        ⊎ (Accepts level nested m × Opens (with_transaction c level nested m))
  unfolding with_transaction open_transaction
  with_transaction_lem level nested m = elim (Bool-cases (c.is_active m.conn)) [
    | inr closed ↦
        inl ((λ h. cc (h.0, closed)), closed_connection, rw (closed, with_transaction) refl)
    | inl active ↦ decided active level nested (c.in_transaction m.conn) refl
  ]
    where
      decided :
          c.is_active m.conn ≡ true
          → (level : Option IsolationLevel) (nested inside : Bool)
          → c.in_transaction m.conn ≡ inside
          → Refuses level nested m
            ⊎ (Accepts level nested m × Opens (with_transaction c level nested m))
      decided active level false false e =
          inr ((active, inl e), rw (active, e, with_transaction) (marked level _ _))
      decided active level true false e =
          inr ((active, inl e), rw (active, e, with_transaction) (marked level _ _))
      decided active none true true e =
          inr ((active, inr (refl, refl)), rw (active, e, with_transaction) (marked none _ _))
      decided active (some level) true true e = inl (
        (λ h. elim h.1 [ inl outside ↦ cc (outside, e) | inr (_, no_level) ↦ cc no_level ]),
        level_for_nested,
        rw (active, e, with_transaction) refl,
      )
      decided active level false true e = inl (
        (λ h. elim h.1 [ inl outside ↦ cc (outside, e) | inr (is_nested, _) ↦ cc is_nested ]),
        already_open,
        rw (active, e, with_transaction) refl,
      )
