-- ===== src/Rules/Creation.antt =====
-- src/backend/http/dependencies.py: `_create` of `create_rules`, in the transaction of its manager.
use litestar_cqrs_example.Common.{
  ℕ, ◌≡◌, refl, sym, ap, ◌∙◌, inl, inr, Option, [], ◌∷◌, none, some, List, nat_eq, string_eq,
}
use litestar_cqrs_example.Errors.{Try-cases, ok}
use litestar_cqrs_example.Effects.{Eff, pure, continue, ◌>>=◌}
use litestar_cqrs_example.Access.{PermissionSpec, spec_key}
use litestar_cqrs_example.Transaction.{Connection, make_manager_context, with_transaction, send}
use litestar_cqrs_example.Gateway.Work.{
  SessionLaws, working, durable, managed_work, managed_work-commits,
}
use litestar_cqrs_example.Rules.{
  FieldRow, PermissionTables, asserted, id_or_found, create_fields, rows_of, create_rule,
  create_all,
}

-- What a session sends acts on the data that it has written, with the answer that they give, and not
-- on what is durable.
pub record SessionQueries (c : Connection) {D : Type 0} (laws : SessionLaws c D) : Type 1 where
  pub query : {A : Type 0} → Eff D A → Eff c.State A
  pub query-answer :
      {A : Type 0} (q : Eff D A) (s : c.State) → (query q s).0 ≡ (q (working laws s)).0
  pub query-working :
      {A : Type 0} (q : Eff D A) (s : c.State) → working laws (query q s).1 ≡ (q (working laws s)).1
  pub query-durable :
      {A : Type 0} (q : Eff D A) (s : c.State) → durable laws (query q s).1 ≡ durable laws s

module _ (db : PermissionTables) (c : Connection) (laws : SessionLaws c db.State)
    (queries : SessionQueries c laws) where
  -- The queries of a session
  abbrev pub session_tables : PermissionTables
  session_tables = record {
    State = c.State;
    create_or_ignore = λ p. queries.query (db.create_or_ignore p);
    get_one = λ key. queries.query (db.get_one key);
    batch_create = λ rows. queries.query (db.batch_create rows);
  }

  -- `_create`, with the manager that it is given, which is left when it ends
  unfoldable pub create : List PermissionSpec → Eff db.State (Unit {0})
  unfolding create_all make_manager_context with_transaction send
  create specs d =
      let (t, m) = managed_work laws (send c (create_all session_tables specs)) d in
      (t, durable laws m.conn)

  -- A session's query does on its data what another does on the tables.
  abbrev Sent : {A : Type 0} → Eff c.State A → Eff db.State A → Type 0
  Sent m' m =
      (s : c.State)
      → ((m' s).0 ≡ (m (working laws s)).0)
        × (working laws (m' s).1 ≡ (m (working laws s)).1)
        × (durable laws (m' s).1 ≡ durable laws s)

  query-Sent : {A : Type 0} (q : Eff db.State A) → Sent (queries.query q) q
  query-Sent q s = (queries.query-answer q s, queries.query-working q s, queries.query-durable q s)

  bind-Sent :
      {A B : Type 0} (m' : Eff c.State A) (m : Eff db.State A) (f' : A → Eff c.State B)
      (f : A → Eff db.State B)
      → Sent m' m
      → ((a : A) → Sent (f' a) (f a))
      → Sent (m' >>= f') (m >>= f)
  bind-Sent m' m f' f sent then s =
      let (x, w, d) = sent s in
      let s' = (m' s).1 in
      let v = (m (working laws s)).1 in
      elim (Try-cases (m (working laws s)).0) [
        | inl (a, e) ↦
            let (y, w', d') = then a s' in
            let left = ap (λ t. continue t f' s') (x ∙ e) in
            let right = sym (ap (λ t. continue t f v) e) in
            (
              ap (λ r. r.0) left ∙ y ∙ ap (λ v. (f a v).0) w ∙ ap (λ r. r.0) right,
              ap (λ r. working laws r.1) left ∙ w' ∙ ap (λ v. (f a v).1) w ∙ ap (λ r. r.1) right,
              ap (λ r. durable laws r.1) left ∙ d' ∙ d,
            )
        | inr (z, e) ↦
            let left = ap (λ t. continue t f' s') (x ∙ e) in
            let right = sym (ap (λ t. continue t f v) e) in
            (
              ap (λ r. r.0) left ∙ ap (λ r. r.0) right,
              ap (λ r. working laws r.1) left ∙ w ∙ ap (λ r. r.1) right,
              ap (λ r. durable laws r.1) left ∙ d,
            )
      ]

  pure-Sent : {A : Type 0} (a : A) → Sent (pure a) (pure a)
  pure-Sent a s = (refl, refl, refl)

  id_or_found-Sent :
      (spec : PermissionSpec) (o : Option ℕ)
      → Sent (id_or_found session_tables spec o) (id_or_found db spec o)
  id_or_found-Sent spec (some id) = pure-Sent id
  id_or_found-Sent spec none =
      bind-Sent (queries.query (db.get_one (spec_key spec))) (db.get_one (spec_key spec))
        (asserted session_tables) (asserted db) (query-Sent (db.get_one (spec_key spec)))
        asserted-Sent
    where
      asserted-Sent : (o : Option ℕ) → Sent (asserted session_tables o) (asserted db o)
      asserted-Sent (some id) = pure-Sent id
      asserted-Sent none = λ s. (refl, refl, refl)

  create_fields-Sent :
      (rows : List FieldRow) → Sent (create_fields session_tables rows) (create_fields db rows)
  create_fields-Sent [] = pure-Sent tt
  create_fields-Sent (row ∷ rows) = query-Sent (db.batch_create (row ∷ rows))

  create_rule-Sent :
      (spec : PermissionSpec) → Sent (create_rule session_tables spec) (create_rule db spec)
  unfolding create_rule
  create_rule-Sent spec =
      bind-Sent (queries.query (db.create_or_ignore spec) >>= id_or_found session_tables spec)
        (db.create_or_ignore spec >>= id_or_found db spec)
        (λ id. create_fields session_tables (rows_of id spec.fields))
        (λ id. create_fields db (rows_of id spec.fields))
        (bind-Sent (queries.query (db.create_or_ignore spec)) (db.create_or_ignore spec)
          (id_or_found session_tables spec) (id_or_found db spec)
          (query-Sent (db.create_or_ignore spec)) (id_or_found-Sent spec))
        (λ id. create_fields-Sent (rows_of id spec.fields))

  create_all-Sent :
      (specs : List PermissionSpec) → Sent (create_all session_tables specs) (create_all db specs)
  unfolding create_all
  create_all-Sent [] = pure-Sent tt
  create_all-Sent (spec ∷ specs) =
      bind-Sent (create_rule session_tables spec) (create_rule db spec)
        (λ _. create_all session_tables specs) (λ _. create_all db specs) (create_rule-Sent spec)
        (λ _. create_all-Sent specs)

  -- The loop's transaction, where the database begins and commits.
  pub create_lem :
      (specs : List PermissionSpec) (d : db.State)
      → ((s : c.State) → (c.begin s).0 ≡ ok tt)
      → ((s : c.State) → (c.commit s).0 ≡ ok tt)
      → (create_all db specs d).0 ≡ ok tt
      → create specs d ≡ (ok tt, (create_all db specs d).1)
  unfolding create send
  create_lem specs d begins commits made =
      let s = (c.begin (laws.fresh d)).1 in
      let begun : working laws s ≡ d =
        laws.working-begin (laws.fresh d) (begins (laws.fresh d)) ∙ laws.durable-fresh d in
      let (x, w, _) = create_all-Sent specs s in
      let (answer, end) =
        managed_work-commits laws (send c (create_all session_tables specs)) d tt begins commits
          (x ∙ ap (λ d. (create_all db specs d).0) begun ∙ made) refl in
      ap
        (λ t.
          (t, durable laws (managed_work laws (send c (create_all session_tables specs)) d).1.conn))
        answer
      ∙ ap (λ d. (ok tt, d)) (end ∙ w ∙ ap (λ d. (create_all db specs d).1) begun)
