-- ===== src/Rules/Startup.antt =====
-- src/backend/http/dependencies.py: `create_rules` with its lock, its key of the cache and
-- the transaction of `_create`.
use litestar_cqrs_example.Common.{
  String, ◌≡◌, ◌⊎◌, true, false, Option, none, some, List, nat_eq, string_eq,
}
use litestar_cqrs_example.Errors.{Try}
use litestar_cqrs_example.Effects.{Eff, pure, ◌>>=◌, ◌>>◌}
use litestar_cqrs_example.Services.{RedisServer}
use litestar_cqrs_example.Cache
use litestar_cqrs_example.Cache.{World, Io, kept_text, closing}
use litestar_cqrs_example.Access.{PermissionSpec}
use litestar_cqrs_example.Transaction.{Connection}
use litestar_cqrs_example.Gateway.Work.{SessionLaws}
use litestar_cqrs_example.Rules.{FieldRow, PermissionTables, TableLaws}
use litestar_cqrs_example.Rules.Creation.{SessionQueries, create}

-- The cache's world, and the tables as they are durable.
pub record Boot (r : RedisServer) (db : PermissionTables) : Type 0 where
  pub world : World r.State
  pub tables : db.State

module _ (r : RedisServer) (db : PermissionTables) (c : Connection) (laws : SessionLaws c db.State)
    (queries : SessionQueries c laws) where
  abbrev cached : {A : Type 0} → Io r A → Eff (Boot r db) A
  cached body b = let (t, w) = body b.world in (t, record b { world = w })

  abbrev stored : {A : Type 0} → Eff db.State A → Eff (Boot r db) A
  stored body b = let (t, s) = body b.tables in (t, record b { tables = s })

  -- `async with lock(name)`, as in the cache's `with_lock`, around a body that also sees the tables.
  unfoldable pub locked : {A : Type 0} → String → Eff (Boot r db) A → Eff (Boot r db) A
  locked name body b =
      let (got, s) = r.lock_acquire name b.world.server in
      let (t, b') = body (record b { world = record b.world { server = s } }) in
      let (end, s') = r.lock_release name got b'.world.server in
      (closing r end t, record b' { world = record b'.world { server = s' } })

  abbrev create_unless : List PermissionSpec → Option String → Eff (Boot r db) (Unit {0})
  create_unless specs (some key) = pure tt
  create_unless specs none =
      cached (Cache.set r "create_rules" "1" (some 30)) >> stored (create db c laws queries specs)

  unfoldable pub create_rules : List PermissionSpec → Eff (Boot r db) (Unit {0})
  unfolding locked Cache.get Cache.set create
  create_rules specs = locked "temp" (cached (Cache.get r "create_rules") >>= create_unless specs)

module _ (r : RedisServer) (db : PermissionTables) (c : Connection) (laws : SessionLaws c db.State)
    (queries : SessionQueries c laws) (tables : TableLaws db) where
  -- What the cache has for the key, once the lock is held
  abbrev pub noted : Boot r db → Option String
  noted b = kept_text (r.get "create_rules" (r.lock_acquire "temp" b.world.server).1)

  abbrev held : Boot r db → Boot r db
  held b = record b { world = record b.world { server = (r.lock_acquire "temp" b.world.server).1 } }

  abbrev freed : Boot r db → Boot r db
  freed b = record b {
    world = record b.world { server = (r.lock_release "temp" true b.world.server).1 };
  }

  abbrev unless : List PermissionSpec → Boot r db → Option String → Try (Unit {0}) × Boot r db
  unless specs b o = create_unless r db c laws queries specs o (held b)

  -- No permission changes its identifier, and no field is lost.
  abbrev pub Unlost : db.State → db.State → Type 0
  Unlost s s' =
      ((key : String) → (tables.known key s ≡ none) ⊎ (tables.known key s' ≡ tables.known key s))
      × ((row : FieldRow) → (tables.has_field row s ≡ false) ⊎ (tables.has_field row s' ≡ true))
