-- ===== src/Cache.antt =====
-- src/backend/infra/cache/redis.py and src/backend/infra/shared/shared_lock.py: the cache and the
-- lock over a Redis server.
use litestar_cqrs_example.Common.{
  ℕ, zero, suc, String, Bool, true, false, ◌||◌, Option, none, some, List, [], ◌∷◌, ◌++◌, nat_beq,
  if◌then◌else◌, any, str_truthy,
}
use Prim.Native.Char.{code}
use Prim.Native.String
pub mod Laws
use litestar_cqrs_example.Errors.{Try, ok, raise}
use litestar_cqrs_example.Effects.{Eff}
use litestar_cqrs_example.Services.{RedisServer}

-- What a coroutine sees: the server, the clock, and how many identifiers were drawn.
pub record World (State : Type 0) : Type 0 where
  pub server : State
  pub now : ℕ
  pub drawn : ℕ

-- `"*" in key`
unfoldable pub has_star : String → Bool
has_star String.[] = false
has_star (String.◌∷◌ c s) = nat_beq (code c) b'*' || has_star s

-- `[found for key in keys async for found in scan_iter(key)]`
abbrev flat_scan : {S : Type 0} → (String → S → List String) → List String → S → List String
flat_scan scan [] s = []
flat_scan scan (k ∷ ks) s = scan k s ++ flat_scan scan ks s

-- `result if result else None`
abbrev pub kept_text : Option String → Option String
kept_text none = none
kept_text (some v) = if str_truthy v then some v else none

module _ (r : RedisServer) where
  abbrev pub Io : Type 0 → Type 0
  Io A = Eff (World r.State) A

  -- A command that changes the server.
  abbrev pub command : (r.State → r.State) → Io (Unit {0})
  command f w = (ok tt, record w { server = f w.server })

  -- A command that reads it.
  abbrev pub query : {A : Type 0} → (r.State → A) → Io A
  query f w = (ok (f w.server), w)

  -- `get` returns `None` for an empty text too.
  unfoldable pub get : String → Io (Option String)
  get key = query (λ s. kept_text (r.get key s))

  unfoldable pub set : String → String → Option ℕ → Io (Unit {0})
  set key value expire = command (r.set key value expire)

  unfoldable pub delete : List String → Io (Unit {0})
  delete keys w = elim (any has_star keys) [
    | true ↦ elim (flat_scan r.scan_iter keys w.server) [
      | [] ↦ command (r.delete keys) w
      | k ∷ ks ↦ command (r.delete (k ∷ ks)) w
    ]
    | false ↦ command (r.delete keys) w
  ]

  -- The pipeline pushes and, with a lifetime that is not zero, sets it.
  abbrev pub with_lifetime : String → Option ℕ → r.State → r.State
  with_lifetime key none s = s
  with_lifetime key (some zero) s = s
  with_lifetime key (some (suc n)) s = r.expire key (suc n) s

  unfoldable pub set_list : String → List String → Option ℕ → Io (Unit {0})
  set_list key values expire = command (λ s. with_lifetime key expire (r.lpush key values s))

  unfoldable pub get_list : String → Io (List String)
  get_list key = query (r.lrange key)

  unfoldable pub discard : String → String → Io (Unit {0})
  discard key value = command (r.lrem key value)

  unfoldable pub increment : String → ℕ → Io ℕ
  increment key amount w =
      let (n, s) = r.incrby key amount w.server in (ok n, record w { server = s })

  -- The exception of `__aexit__` takes the place of what the body returned or raised.
  abbrev pub closing : {A : Type 0} → Try (Unit {0}) → Try A → Try A
  closing (ok _) t = t
  closing (raise e) t = raise e

  -- `async with lock(name)`: `RedisSharedLock.acquire` drops the answer of `Lock.acquire()`, so the
  -- body runs also where the lock was not obtained; `Lock.release()` knows which it was.
  unfoldable pub with_lock : {A : Type 0} → String → Io A → Io A
  with_lock name body w =
      let (got, s) = r.lock_acquire name w.server in
      let (t, w') = body (record w { server = s }) in
      let (end, s') = r.lock_release name got w'.server in
      (closing end t, record w' { server = s' })
