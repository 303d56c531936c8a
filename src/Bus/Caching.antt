-- ===== src/Bus/Caching.antt =====
-- src/backend/app/bus/middlewares/cache.py: the middlewares that cache the answers of queries under
-- an epoch, and begin a new epoch after a command.
use litestar_cqrs_example.Common.{
  ℕ, ◌%◌, String, Bool, Option, none, some, [], ◌∷◌, if◌then◌else◌, ◌+s◌, str_nat, int_text,
}
use litestar_cqrs_example.Errors.{py, value_error, Try, ok, raise}
use litestar_cqrs_example.Effects.{Eff, pure, lift, ◌>>=◌, ◌>>◌}
use litestar_cqrs_example.Services.{RedisServer}
use litestar_cqrs_example.Cache
use litestar_cqrs_example.Cache.{World, Io}
use litestar_cqrs_example.Bus.{Handler, Middleware}
pub mod Laws

abbrev pub epoch_key : String
epoch_key = "cache:epoch"

-- The key and the value of a query's answer: what `call_next` returned, or the text in the cache,
-- which is given back as it is.
pub data Answer (R : Type 0) : Type 0 where
  fresh : R → Answer R
  cached : String → Answer R

-- `(int(v) if v else 0) % 1_000_000`
unfoldable pub epoch_of : Option String → Try ℕ
epoch_of none = ok 0
epoch_of (some v) = elim (int_text v) [
  | some n ↦ ok (n % 1000000)
  | none ↦ raise (py value_error ("invalid literal for int()" ∷ []))
]

module _ (r : RedisServer) where
  -- `_epoch`
  unfoldable pub epoch : Io r ℕ
  unfolding epoch_of Cache.get
  epoch = Cache.get r epoch_key >>= λ v. lift (epoch_of v)

  module _ {T Q R : Type 0} (cache_key_builder : T → String) (cache_time : ℕ) where
    -- `msgspec_encoder` and `bool(result)`
    module _ (encoder : R → String) (truthy : R → Bool) where
      -- What follows where the cache had no answer.
      unfoldable pub fill : String → Handler (World r.State) T Q R → T → Q → Io r (Answer R)
      unfolding Cache.set
      fill key call_next context qce = do
        result ← call_next context qce
        if truthy result then Cache.set r key (encoder result) (some cache_time) else pure tt
        pure (fresh result)

      abbrev answered :
          String → Handler (World r.State) T Q R → T → Q → Option String → Io r (Answer R)
      answered key call_next context qce none = fill key call_next context qce
      answered key call_next context qce (some value) = pure (cached value)

      -- `CacheMiddleware.__call__`
      unfoldable pub cache_middleware : Handler (World r.State) T Q R → T → Q → Io r (Answer R)
      unfolding fill epoch str_nat Cache.get
      cache_middleware call_next context qce = do
        n ← epoch
        let key = str_nat n +s ":" +s cache_key_builder context
        value ← Cache.get r key
        answered key call_next context qce value

-- `CacheInvalidateMiddleware.__call__`, whose `increment` is that of `cache:epoch` in the cache.
unfoldable pub cache_invalidate_middleware :
    {W T Q R : Type 0} → (increment : Eff W ℕ) → Middleware W T Q R
cache_invalidate_middleware increment call_next context qce = do
  result ← call_next context qce
  increment
  pure result
