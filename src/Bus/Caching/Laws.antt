-- ===== src/Bus/Caching/Laws.antt =====
-- A query that is asked again within its epoch is answered from the cache.
use litestar_cqrs_example.Common.{
  ℕ, String, ◌≡◌, refl, Bool, true, false, Option, none, some, if◌then◌else◌, ◌==◌, beq_self,
  nat_eq, string_eq, ◌+s◌, str_truthy, str_nat,
}
use litestar_cqrs_example.Errors.{ok}
use litestar_cqrs_example.Services.{RedisServer}
use litestar_cqrs_example.Cache.{World, Io, kept_text}
use litestar_cqrs_example.Bus.{Handler}
use litestar_cqrs_example.Bus.Caching.{epoch_key, Answer, fresh, cached, epoch_of, cache_middleware}

-- The documented effect of SET on a later GET.
pub record TextLaws (r : RedisServer) : Type 0 where
  pub get-set :
      (k j v : String) (expire : Option ℕ) (s : r.State)
      → r.get j (r.set k v expire s) ≡ (if k == j then some v else r.get j s)

abbrev pub key_at : {T : Type 0} → (T → String) → ℕ → T → String
key_at cache_key_builder n context = str_nat n +s ":" +s cache_key_builder context

abbrev pub saved :
    {R : Type 0} (r : RedisServer) → ℕ → (R → String) → String → R → World r.State → World r.State
saved r cache_time encoder key result w = record w {
  server = r.set key (encoder result) (some cache_time) w.server;
}

module _ (r : RedisServer) (laws : TextLaws r) {T Q R : Type 0} (cache_key_builder : T → String)
    (cache_time : ℕ) (encoder : R → String) (truthy : R → Bool) where
  abbrev pub ask : Handler (World r.State) T Q R → T → Q → Io r (Answer R)
  ask = cache_middleware r cache_key_builder cache_time encoder truthy

  ask_misses :
      (call_next : Handler (World r.State) T Q R) (context : T) (qce : Q)
      → (w w' : World r.State) (n : ℕ) (result : R)
      → epoch_of (kept_text (r.get epoch_key w.server)) ≡ ok n
      → kept_text (r.get (key_at cache_key_builder n context) w.server) ≡ none
      → call_next context qce w ≡ (ok result, w')
      → truthy result ≡ true
      → ask call_next context qce w ≡ (
        ok (fresh result),
        saved r cache_time encoder (key_at cache_key_builder n context) result w',
      )
  unfolding cache_middleware
  ask_misses call_next context qce w w' n result at_n absent answers keeps =
      rw (at_n, absent, answers, keeps) refl

  ask_hits :
      (call_next : Handler (World r.State) T Q R) (context : T) (qce : Q)
      → (w : World r.State) (n : ℕ) (value : String)
      → epoch_of (kept_text (r.get epoch_key w.server)) ≡ ok n
      → kept_text (r.get (key_at cache_key_builder n context) w.server) ≡ some value
      → ask call_next context qce w ≡ (ok (cached value), w)
  unfolding cache_middleware
  ask_hits call_next context qce w n value at_n present = rw (at_n, present) refl

  -- A query that missed the cache gets what its handler returned; asked again in the same epoch, by
  -- anyone whose request has the same key, it gets the encoded text of that, without its handler and
  -- without a change. The conditions: the answer is truthy and its text not empty, the handler left
  -- the epoch as it was, and the key is not the epoch's own.
  pub ask_again :
      (call_next other : Handler (World r.State) T Q R) (context later : T) (qce again : Q)
      → (w w' : World r.State) (n : ℕ) (result : R)
      → epoch_of (kept_text (r.get epoch_key w.server)) ≡ ok n
      → kept_text (r.get (key_at cache_key_builder n context) w.server) ≡ none
      → call_next context qce w ≡ (ok result, w')
      → truthy result ≡ true
      → str_truthy (encoder result) ≡ true
      → r.get epoch_key w'.server ≡ r.get epoch_key w.server
      → (key_at cache_key_builder n context == epoch_key) ≡ false
      → cache_key_builder later ≡ cache_key_builder context
      → (ask call_next context qce w ≡ (
        ok (fresh result),
        saved r cache_time encoder (key_at cache_key_builder n context) result w',
      ))
        × (ask other later again (ask call_next context qce w).1
            ≡ (ok (cached (encoder result)), (ask call_next context qce w).1))
  ask_again call_next other context later qce again w w' n result at_n absent answers keeps full
        same apart alike =
      let missed = ask_misses call_next context qce w w' n result at_n absent answers keeps in
      let key = key_at cache_key_builder n context in
      (
        missed,
        rw missed (
            ask_hits other later again (saved r cache_time encoder key result w') n (encoder result)
              (rw (laws.get-set key epoch_key (encoder result) (some cache_time) w'.server)
                (rw (apart, same) at_n))
              (rw (key_at, alike, laws.get-set key key (encoder result) (some cache_time) w'.server)
                (rw (beq_self key) (rw full refl)))),
      )
