-- ===== src/Bus/Tests.antt =====
-- Buses with a counting handler, and the theorems at them.
use litestar_cqrs_example.Common.{
  ℕ, ◌+◌, ◌≤◌, String, ◌≡◌, refl, ◌⊎◌, true, List, [], ◌∷◌, arith, eq_iff, if◌then◌else◌, ◌==◌,
  nat_eq, string_eq, All, str_nat,
}
use litestar_cqrs_example.Errors.{py, type_error, value_error, ok, raise}
use litestar_cqrs_example.Effects.{Eff}
use litestar_cqrs_example.Services.Sample.{Store, sample_server, empty_store}
use litestar_cqrs_example.Cache.{World, Io}
use litestar_cqrs_example.Bus.{
  Handler, Middleware, factory, ready, QcBus, new_bus, register, dispatch, call, EventBus, chosen,
  publish, resolve_factory, safe_invoke, get_item, set_item,
}
use litestar_cqrs_example.Bus.Onion.{onion, call-register}
use litestar_cqrs_example.Bus.Builder.{
  annotation, plain, Deps, missing, predict_dependency_or_raise,
}
use litestar_cqrs_example.Bus.Builder.Wiring.{Wired, Unset, predict-Wired}
use litestar_cqrs_example.Bus.Caching.{Answer, epoch_of, fresh, cached, cache_middleware}
use litestar_cqrs_example.Bus.Caching.Laws.{TextLaws, key_at, saved, ask_again}
use litestar_cqrs_example.Bus.Epochs.{
  Event, begin, look_up, run, store, commit, increment, replicate, find_entry, nth, put, look,
  look_up_now, run_now, store_now, step, steps, start,
}
use litestar_cqrs_example.Bus.Epochs.Fresh.{steps-fresh}

-- The state counts, the query is its own type, the context is a number.
abbrev adds : ℕ → Handler ℕ ℕ String ℕ
adds n context qc w = (ok (context + n), w + 1)

abbrev doubles : Middleware ℕ ℕ String ℕ
doubles call_next context qc w = call_next (context + context) qc w

abbrev more : Middleware ℕ ℕ String ℕ
more call_next context qc w = call_next (context + 1) qc w

abbrev bus : QcBus ℕ ℕ String ℕ
bus = register (λ qc. qc) "GetUser" (ready (adds 5)) (new_bus (λ qc. qc) (doubles ∷ more ∷ []))

sent : call (λ qc. qc) bus 3 "GetUser" 0 ≡ (ok 12, 1)
unfolding call register new_bus dispatch get_item set_item
sent = refl

call-register_example :
    call (λ qc. qc) (register (λ qc. qc) "GetRole" (factory (ok (adds 7))) bus)
    ≡ onion
        (λ context qc w.
          if "GetRole" == qc then adds 7 context qc w else dispatch (λ qc. qc) bus context qc w)
        bus.middlewares
unfolding resolve_factory
call-register_example = call-register (λ qc. qc) "GetRole" (factory (ok (adds 7))) (adds 7) bus refl

-- An event's handler that raises.
abbrev fails : String → Eff ℕ (Unit {0})
fails event w = (raise (py value_error []), w + 1)

abbrev events : EventBus ℕ String
events = ("UserCreated", ready fails ∷ []) ∷ []

published : publish (λ e. e) events "UserCreated" ≡ ok ((λ w. (ok tt, w + 1)) ∷ [])
unfolding publish chosen get_item resolve_factory safe_invoke
published = refl

abbrev set_up : Deps
set_up = ("gateway", plain true "lazy") ∷ ("lock", plain true "redis") ∷ []

abbrev parameters : Deps
parameters =
    ("handler", annotation "LoginHandler") ∷ ("gateway", annotation "RepositoryGateway") ∷ []

predict-Wired_example :
    ((wired : Deps) × (predict_dependency_or_raise parameters set_up ("handler" ∷ []) ≡ ok wired)
      × Wired set_up ("handler" ∷ []) parameters wired)
    ⊎ ((names : List String) × (predict_dependency_or_raise parameters set_up ("handler" ∷ [])
          ≡ raise (py type_error names))
        × (names ≡ missing parameters set_up ("handler" ∷ []))
        × Unset set_up ("handler" ∷ []) parameters)
predict-Wired_example = predict-Wired set_up ("handler" ∷ []) parameters

texts : TextLaws sample_server
texts = record { get-set = λ k j v expire s. ground (arith, eq_iff k j) }

abbrev world : World Store
world = record { server = empty_store; now = 0; drawn = 0 }

abbrev finds : Handler (World Store) String String ℕ
finds context qce w = (ok 7, w)

abbrev never : Handler (World Store) String String ℕ
never context qce w = (raise (py value_error []), w)

abbrev as_text : ℕ → String
as_text n = "seven"

abbrev ask : Handler (World Store) String String ℕ → Io sample_server (Answer ℕ)
ask h = cache_middleware sample_server (λ c. c) 60 as_text (λ _. true) h "GET/users" "q"

ask_again_example :
    (ask finds world
      ≡ (ok (fresh 7), saved sample_server 60 as_text (key_at (λ c. c) 0 "GET/users") 7 world))
    × (ask never (ask finds world).1 ≡ (ok (cached "seven"), (ask finds world).1))
unfolding str_nat epoch_of
ask_again_example =
    ask_again sample_server texts (λ c. c) 60 as_text (λ _. true) finds never "GET/users"
      "GET/users" "q" "q" world world 0 7 refl refl refl refl refl refl refl refl

-- A query that begins before a command ends and stores after it: the next query asks again.
abbrev crossing : List Event
crossing =
    begin "k"
    ∷ look_up 0
    ∷ run 0
    ∷ commit
    ∷ increment
    ∷ replicate
    ∷ store 0
    ∷ begin "k"
    ∷ look_up 0
    ∷ run 0
    ∷ store 0
    ∷ []

crossed :
    (steps crossing start).given
    ≡ record { begun = 1; reading = record { version = 1; lag = 0 } }
      ∷ record { begun = 0; reading = record { version = 0; lag = 0 } }
      ∷ []
unfolding step look_up_now run_now store_now look find_entry nth put
crossed = refl

steps-fresh_example :
    All
      (λ g. (1000000 ≤ g.begun) ⊎ (g.begun ≤ g.reading.version + g.reading.lag))
      (steps crossing start).given
steps-fresh_example = steps-fresh crossing
