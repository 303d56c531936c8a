-- ===== src/Api/Sent.antt =====
-- A command through its bus, whose middleware counts the epoch of the cache.
use litestar_cqrs_example.Common.{ℕ, String, ◌≡◌, refl, inl, inr, List, nat_eq, string_eq}
use litestar_cqrs_example.Errors.{Try, Try-cases, ok, raise}
use litestar_cqrs_example.Effects.{Eff, pure, ◌>>=◌, ◌>>◌}
use litestar_cqrs_example.Access
use litestar_cqrs_example.Access.{
  PermissionSpec, Permission, AuthUser, Context, scalar, any_one, spec_key, update_user,
}
use litestar_cqrs_example.Transaction.{Connection}
use litestar_cqrs_example.Queries
use litestar_cqrs_example.UseCases.{PasswordHasher}
use litestar_cqrs_example.Gateway.{Row, Database}
use litestar_cqrs_example.Gateway.Repositories.{Dtos}
use litestar_cqrs_example.Gateway.Work.{SessionLaws}
use litestar_cqrs_example.Api.{CommandMessage, command}
use litestar_cqrs_example.Api.Service.{
  Content, own_session, on_database, on_cache, sent_message, command_bus,
}

module _ {c : Connection} (db : Database c) (dtos : Dtos) (hasher : PasswordHasher)
    (view : c.State → Queries.Database Row)
    (granted : (user_id : String) → Eff c.State (List Access.Permission)) {D : Type 0}
    (laws : SessionLaws c D) {C : Type 0} (increment : Eff C ℕ) where
  abbrev pub after_count : {A : Type 0} → Try ℕ → A → Try A
  after_count (ok _) result = ok result
  after_count (raise e) result = raise e

  -- The command was carried out, and counting the epoch of the cache makes the answer an error where
  -- it raises.
  abbrev pub Counted :
      Content c db dtos hasher view granted
      → C
      → Try (Content c db dtos hasher view granted)
      → C
      → Type 0
  Counted result cache answer cache' =
      (answer ≡ after_count (increment cache).0 result) × (cache' ≡ (increment cache).1)

  -- What the middleware makes of the end of a command.
  abbrev pub counted_end :
      C
      → Try (Content c db dtos hasher view granted) × D
      → Try (Content c db dtos hasher view granted) × (D × C)
  counted_end cache (ok result, d) =
      (after_count (increment cache).0 result, (d, (increment cache).1))
  counted_end cache (raise e, d) = (raise e, (d, cache))

  middleware_end :
      D
      → C
      → Try (Content c db dtos hasher view granted) × D
      → Try (Content c db dtos hasher view granted) × (D × C)
  middleware_end d cache end =
      (on_database c db dtos hasher view granted laws increment (λ _. end) >>= λ result.
      on_cache c db dtos hasher view granted laws increment increment >> pure result)
        (d, cache)

  middleware_lem :
      (d : D) (cache : C) (end : Try (Content c db dtos hasher view granted) × D)
      → middleware_end d cache end ≡ counted_end cache end
  unfolding middleware_end
  middleware_lem d cache (raise e, d') = refl
  middleware_lem d cache (ok result, d') = elim (Try-cases (increment cache).0) [
    | inl (n, e) ↦ rw e refl
    | inr (x, e) ↦ rw e refl
  ]

  pub sent_lem :
      (context : Context) (message : CommandMessage) (d : D) (cache : C)
      → sent_message c db dtos hasher view granted laws increment context
          (command message)
          (d, cache)
        ≡ counted_end cache (
            own_session c db dtos hasher view granted laws increment
              (command_bus c db dtos hasher view granted message)
              d)
  unfolding sent_message middleware_end
  sent_lem context message d cache = middleware_lem d cache (
      own_session c db dtos hasher view granted laws increment
        (command_bus c db dtos hasher view granted message) d)
