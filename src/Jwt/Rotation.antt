-- ===== src/Jwt/Rotation.antt =====
-- `rotate`: what the caller gets, and what the store keeps.
use litestar_cqrs_example.Common.{
  ℕ, String, ◌≡◌, refl, ap, ◌∙◌, true, false, Option, none, some, List, [], ◌∷◌, arith, eq_iff,
  if◌then◌else◌, ◌==◌, nat_eq, string_eq, contains, ◌+s◌, str_truthy,
}
use litestar_cqrs_example.Errors.{Try, ok}
use litestar_cqrs_example.Result.{
  AppResult, as_result_sync, as_result_async, empty_result, unwrap, app_exception,
}
use litestar_cqrs_example.Services.{RedisServer, ListLaws, without, TokenClaims, Crypto}
use litestar_cqrs_example.Cache
use litestar_cqrs_example.Cache.{World, Io}
use litestar_cqrs_example.Cache.Laws.{Locks, with_lock_lem, lrange-with_lifetime}
use litestar_cqrs_example.Jwt.{JwtImpl, TokenPair, issue_pair}
use litestar_cqrs_example.Jwt.Refresh.{
  auth_key, get_verified_claims, get_hashed_pair, exchange, forget, rotate_locked, rotate,
}

-- What `without` leaves holds the value no more.
pub contains-without : (v : String) (xs : List String) → contains (without v xs) v ≡ false
contains-without v [] = refl
contains-without v (x ∷ xs) = ground (arith, contains-without v xs, eq_iff x v)

-- The hashes that are stored for a user.
abbrev pub sessions : (r : RedisServer) → World r.State → String → List String
sessions r w user_id = r.lrange (auth_key user_id) w.server

abbrev pub lock_name : String → String
lock_name user_id = "lock:" +s auth_key user_id

-- The pair that an exchange at a given time issues under a `jti`.
abbrev pub issued : Crypto → JwtImpl → (now : ℕ) → (user_id jti : String) → Try TokenPair
issued c jwt now user_id jti =
    unwrap (issue_pair c jwt now user_id none none (some jti) none none [])

module _ (r : RedisServer) (laws : ListLaws r) (c : Crypto) (jwt : JwtImpl) where
  module _ (claims : TokenClaims) (fingerprint token : String) where
    abbrev pub old_hash : String
    old_hash = get_hashed_pair r c jwt claims fingerprint token

    pub rotate_locked_refuses :
        (w : World r.State)
        → contains (sessions r w claims.sub) old_hash ≡ false
        → rotate_locked r c jwt claims fingerprint token w ≡ forget r c jwt claims w
    unfolding rotate_locked
    rotate_locked_refuses w absent = rw absent

    pub rotate_locked_accepts :
        (w : World r.State)
        → contains (sessions r w claims.sub) old_hash ≡ true
        → rotate_locked r c jwt claims fingerprint token w
          ≡ exchange r c jwt claims fingerprint old_hash w
    unfolding rotate_locked
    rotate_locked_accepts w present = rw present

    pub forget_lem :
        (w : World r.State)
        → Cache.has_star (auth_key claims.sub) ≡ false
        → forget r c jwt claims w
          ≡ (ok none, record w { server = r.delete (auth_key claims.sub ∷ []) w.server })
    unfolding forget
    forget_lem w plain = rw (plain, Cache.delete)

    -- The world after an exchange: the list holds the new hash in place of the old one.
    abbrev exchanged : World r.State → String → TokenPair → World r.State
    exchanged w hash pair = record w {
      server = Cache.with_lifetime r (auth_key claims.sub) (some pair.expires_in) (
          r.lpush (auth_key claims.sub)
            (get_hashed_pair r c jwt claims fingerprint pair.refresh_token ∷ [])
            (r.lrem (auth_key claims.sub) hash w.server));
    }

    pub exchange_lem :
        (w : World r.State) (hash jti : String) (pair : TokenPair)
        → claims.jti ≡ some jti
        → str_truthy jti ≡ true
        → issued c jwt w.now claims.sub jti ≡ ok pair
        → exchange r c jwt claims fingerprint hash w ≡ (ok (some pair), exchanged w hash pair)
    unfolding exchange
    exchange_lem w hash jti pair has_jti truthy issued_pair = rw (has_jti, truthy, issued_pair)

    -- The world inside the lock, and the world that its release leaves.
    abbrev locked : World r.State → World r.State
    locked w = record w { server = (r.lock_acquire (lock_name claims.sub) w.server).1 }

    abbrev unlocked : World r.State → World r.State
    unlocked w = record w { server = (r.lock_release (lock_name claims.sub) true w.server).1 }

    pub rotate_lem :
        (w : World r.State)
        → get_verified_claims r c jwt w.now token ≡ ok claims
        → Locks r (lock_name claims.sub)
        → let end = rotate_locked r c jwt claims fingerprint token (locked w) in
          rotate r c jwt fingerprint token w ≡ (ok (as_result_sync end.0), unlocked end.1)
    unfolding rotate as_result_async
    rotate_lem w verified locks = rw (
      verified,
      with_lock_lem r (lock_name claims.sub) (rotate_locked r c jwt claims fingerprint token) w
          locks,
    )

    abbrev ended :
        Try (Option TokenPair) × World r.State → Try (AppResult TokenPair) × World r.State
    ended x = (ok (as_result_sync x.0), unlocked x.1)

    pub sessions-locked :
        (w : World r.State) (u : String) → sessions r (locked w) u ≡ sessions r w u
    sessions-locked w u = laws.lrange-lock_acquire _ _ _

    pub sessions-unlocked :
        (w : World r.State) (u : String) → sessions r (unlocked w) u ≡ sessions r w u
    sessions-unlocked w u = laws.lrange-lock_release _ _ _ _

    pub sessions-exchanged :
        (w : World r.State) (hash : String) (pair : TokenPair) (u : String)
        → sessions r (exchanged w hash pair) u ≡ (
            if auth_key claims.sub == auth_key u
            then get_hashed_pair r c jwt claims fingerprint pair.refresh_token
              ∷ without hash (sessions r w u)
            else sessions r w u)
    sessions-exchanged w hash pair u =
        let key = auth_key claims.sub in
        let new = get_hashed_pair r c jwt claims fingerprint pair.refresh_token in
        let removed = r.lrem key hash w.server in
        rw (lrange-with_lifetime r laws) (
          ground (
            arith,
            laws.lrange-lpush key (auth_key u) new removed,
            laws.lrange-lrem key (auth_key u) hash w.server,
          ))

    pub rotate_exchanges :
        (w : World r.State) (jti : String) (pair : TokenPair)
        → get_verified_claims r c jwt w.now token ≡ ok claims
        → contains (sessions r w claims.sub) old_hash ≡ true
        → claims.jti ≡ some jti
        → str_truthy jti ≡ true
        → issued c jwt w.now claims.sub jti ≡ ok pair
        → Locks r (lock_name claims.sub)
        → rotate r c jwt fingerprint token w ≡ (
          ok (record { value = some pair; err = none }),
          unlocked (exchanged (locked w) old_hash pair),
        )
    unfolding as_result_sync
    rotate_exchanges w jti pair verified present has_jti truthy issued_pair locks =
        let inside = rotate_locked_accepts (locked w) (rw sessions-locked present) in
        rotate_lem w verified locks
        ∙ ap ended (inside ∙ exchange_lem (locked w) old_hash jti pair has_jti truthy issued_pair)

    -- A token that verifies, has a `jti` that is not empty and whose hash is stored is exchanged,
    -- where the lock is free and a new pair can be signed under the `jti`: the caller gets this pair,
    -- the new hash takes the place of the old one, and no other user's sessions change.
    pub rotate_accepts :
        (w : World r.State) (jti : String) (pair : TokenPair)
        → get_verified_claims r c jwt w.now token ≡ ok claims
        → contains (sessions r w claims.sub) old_hash ≡ true
        → claims.jti ≡ some jti
        → str_truthy jti ≡ true
        → issued c jwt w.now claims.sub jti ≡ ok pair
        → Locks r (lock_name claims.sub)
        → ((rotate r c jwt fingerprint token w).0 ≡ ok (record { value = some pair; err = none }))
          × ((u : String)
              → sessions r (rotate r c jwt fingerprint token w).1 u ≡ (
                  if auth_key claims.sub == auth_key u
                  then get_hashed_pair r c jwt claims fingerprint pair.refresh_token
                    ∷ without old_hash (sessions r w u)
                  else sessions r w u))
    rotate_accepts w jti pair verified present has_jti truthy issued_pair locks =
        let end = rotate_exchanges w jti pair verified present has_jti truthy issued_pair locks in
        (
          ap (λ x. x.0) end,
          λ u. rw end (
              sessions-unlocked (exchanged (locked w) old_hash pair) u
              ∙ rw (← sessions-locked w u) (sessions-exchanged (locked w) old_hash pair u)),
        )

    -- A token that verifies and whose hash is not stored, such as one that was rotated before, is
    -- refused, where the lock is free and the user's key has no star, and it ends every session of its
    -- user and of no one else.
    pub rotate_refuses :
        (w : World r.State)
        → get_verified_claims r c jwt w.now token ≡ ok claims
        → contains (sessions r w claims.sub) old_hash ≡ false
        → Cache.has_star (auth_key claims.sub) ≡ false
        → Locks r (lock_name claims.sub)
        → ((rotate r c jwt fingerprint token w).0
            ≡ ok (record { value = none; err = some empty_result }))
          × ((u : String)
              → sessions r (rotate r c jwt fingerprint token w).1 u
                ≡ (if auth_key claims.sub == auth_key u then [] else sessions r w u))
    unfolding as_result_sync
    rotate_refuses w verified absent plain locks =
        let inside = rotate_locked_refuses (locked w) (rw sessions-locked absent) in
        let end = rotate_lem w verified locks ∙ ap ended (inside ∙ forget_lem (locked w) plain) in
        (
          ap (λ x. x.0) end,
          λ u. rw end (
              sessions-unlocked
                (record (locked w) {
                  server = r.delete (auth_key claims.sub ∷ []) (locked w).server;
                })
                u
              ∙ laws.lrange-delete (auth_key claims.sub) (auth_key u) (locked w).server
              ∙ rw sessions-locked),
        )
