-- ===== src/Cache/Laws.antt =====
-- The lock and the lists of the cache.
use litestar_cqrs_example.Common.{
  ℕ, zero, suc, String, ◌≡◌, refl, true, Option, none, some, nat_eq, string_eq,
}
use litestar_cqrs_example.Errors.{ok}
use litestar_cqrs_example.Services.{RedisServer, ListLaws}
use litestar_cqrs_example.Cache
use litestar_cqrs_example.Cache.{World, Io}

-- The lock is obtained in time and still held when the body has ended.
abbrev pub Locks : RedisServer → String → Type 0
Locks r name =
    (s : r.State) → ((r.lock_acquire name s).0 ≡ true) × ((r.lock_release name true s).0 ≡ ok tt)

module _ (r : RedisServer) where
  pub with_lock_lem :
      {A : Type 0} (name : String) (body : Io r A) (w : World r.State)
      → Locks r name
      → let w' = record w { server = (r.lock_acquire name w.server).1 } in
        Cache.with_lock r name body w ≡ (
          (body w').0,
          record (body w').1 { server = (r.lock_release name true (body w').1.server).1 },
        )
  unfolding Cache.with_lock
  with_lock_lem name body w locks = rw (
    (locks w.server).0,
    (locks (body (record w { server = (r.lock_acquire name w.server).1 })).1.server).1,
  )

module _ (r : RedisServer) (laws : ListLaws r) where
  pub lrange-with_lifetime :
      (k j : String) (e : Option ℕ) (s : r.State)
      → r.lrange j (Cache.with_lifetime r k e s) ≡ r.lrange j s
  lrange-with_lifetime k j none s = refl
  lrange-with_lifetime k j (some zero) s = refl
  lrange-with_lifetime k j (some (suc n)) s = laws.lrange-expire k j (suc n) s
