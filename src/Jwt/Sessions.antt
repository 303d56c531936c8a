-- ===== src/Jwt/Sessions.antt =====
-- The life of a refresh token: it is made, exchanged once, or revoked.
use litestar_cqrs_example.Common.{
  suc, String, ◌≡◌, ap, ◌≢◌, ◌⊎◌, inl, inr, true, false, none, some, [], ◌∷◌, arith, eq_iff, ◌==◌,
  beq_self, nat_eq, string_eq, Bool-cases, contains, ◌+s◌, str_truthy,
}
use litestar_cqrs_example.Errors.{Try, ok}
use litestar_cqrs_example.Result.{AppResult, as_result_sync, as_result_async, empty_result}
use litestar_cqrs_example.Services.{RedisServer, ListLaws, without, TokenClaims, Crypto}
use litestar_cqrs_example.Cache
use litestar_cqrs_example.Cache.{World}
use litestar_cqrs_example.Cache.Laws.{Locks}
use litestar_cqrs_example.Jwt.{JwtImpl, TokenPair}
use litestar_cqrs_example.Jwt.Refresh.{
  auth_key, get_verified_claims, get_hashed_pair, make_token, rotate, revoke,
}
use litestar_cqrs_example.Jwt.Rotation.{
  sessions, lock_name, issued, contains-without, rotate_accepts, rotate_refuses,
}

-- The hash that `make_token` stores for a pair.
abbrev pub stored_hash : {S : Type 0} → Crypto → String → World S → TokenPair → String
stored_hash c fingerprint w pair =
    c.uuid4 w.drawn +s ":" +s c.sha256 (fingerprint +s ":" +s pair.refresh_token)

module _ (r : RedisServer) (laws : ListLaws r) (c : Crypto) (jwt : JwtImpl) where
  abbrev hash_of : TokenClaims → String → String → String
  hash_of = get_hashed_pair r c jwt

  abbrev refused : Try (AppResult TokenPair)
  refused = ok (record { value = none; err = some empty_result })

  -- The list of the user after an accepted rotation.
  sessions-rotate :
      (claims : TokenClaims) (fingerprint token : String) (w : World r.State) (jti : String)
      (pair : TokenPair)
      → get_verified_claims r c jwt w.now token ≡ ok claims
      → contains (sessions r w claims.sub) (hash_of claims fingerprint token) ≡ true
      → claims.jti ≡ some jti
      → str_truthy jti ≡ true
      → issued c jwt w.now claims.sub jti ≡ ok pair
      → Locks r (lock_name claims.sub)
      → sessions r (rotate r c jwt fingerprint token w).1 claims.sub
        ≡ hash_of claims fingerprint pair.refresh_token
          ∷ without (hash_of claims fingerprint token) (sessions r w claims.sub)
  sessions-rotate claims fingerprint token w jti pair verified present has_jti truthy made locks =
      let (_, lists) =
        rotate_accepts r laws c jwt claims fingerprint token w jti pair verified present has_jti
          truthy made locks in
      rw (lists claims.sub) (rw (beq_self (auth_key claims.sub)))

  -- A refresh token is good for one rotation: once it was exchanged for one with another hash, a
  -- rotation of it in any later state in which nothing has stored its hash again is refused and ends
  -- every session of the user, the new one included. The conditions: the token verifies both times
  -- and has a `jti` that is not empty, the new pair can be signed, the lock is free, and the user's
  -- key has no star.
  pub rotate_once :
      (claims : TokenClaims) (fingerprint token : String) (w later : World r.State) (jti : String)
      (pair : TokenPair)
      → get_verified_claims r c jwt w.now token ≡ ok claims
      → contains (sessions r w claims.sub) (hash_of claims fingerprint token) ≡ true
      → claims.jti ≡ some jti
      → str_truthy jti ≡ true
      → issued c jwt w.now claims.sub jti ≡ ok pair
      → hash_of claims fingerprint pair.refresh_token ≢ hash_of claims fingerprint token
      → Locks r (lock_name claims.sub)
      → (contains
              (sessions r (rotate r c jwt fingerprint token w).1 claims.sub)
              (hash_of claims fingerprint token)
            ≡ false
          → contains (sessions r later claims.sub) (hash_of claims fingerprint token) ≡ false)
      → get_verified_claims r c jwt later.now token ≡ ok claims
      → Cache.has_star (auth_key claims.sub) ≡ false
      → ((rotate r c jwt fingerprint token later).0 ≡ refused)
        × (sessions r (rotate r c jwt fingerprint token later).1 claims.sub ≡ [])
  rotate_once claims fingerprint token w later jti pair verified present has_jti truthy made fresh
        locks same again plain =
      let old = hash_of claims fingerprint token in
      let new = hash_of claims fingerprint pair.refresh_token in
      let list =
        sessions-rotate claims fingerprint token w jti pair verified present has_jti truthy made
          locks in
      let absent : contains (sessions r later claims.sub) old ≡ false = same (
        rw list (ground (arith, eq_iff new old, contains-without old (sessions r w claims.sub)))) in
      let (answer, lists) =
        rotate_refuses r laws c jwt claims fingerprint token later again absent plain locks in
      (answer, rw (lists claims.sub) (rw (beq_self (auth_key claims.sub))))

  -- Revoking a token that verifies answers whether it was good, takes its hash out, and changes no
  -- other user's sessions.
  pub revoke_lem :
      (claims : TokenClaims) (fingerprint token : String) (w : World r.State)
      → get_verified_claims r c jwt w.now token ≡ ok claims
      → let hash = hash_of claims fingerprint token in
        let (answer, after) = revoke r c jwt fingerprint token w in
        (answer
          ≡ ok (record { value = some (contains (sessions r w claims.sub) hash); err = none }))
        × (contains (sessions r after claims.sub) hash ≡ false)
        × ((u : String)
            → ((auth_key claims.sub == auth_key u) ≡ true) ⊎ (sessions r after u ≡ sessions r w u))
  unfolding revoke as_result_async as_result_sync
  revoke_lem claims fingerprint token w verified =
      let key = auth_key claims.sub in
      let hash = hash_of claims fingerprint token in
      elim (Bool-cases (contains (sessions r w claims.sub) hash)) [
        | inl present ↦ (
          rw (verified, present),
          rw (verified, present, laws.lrange-lrem key key hash w.server, beq_self key)
              (contains-without hash (r.lrange key w.server)),
          λ u. elim (Bool-cases (key == auth_key u)) [
            | inl own ↦ inl own
            | inr other ↦
                inr (rw (verified, present, laws.lrange-lrem key (auth_key u) hash w.server, other))
          ],
        )
        | inr absent ↦
            (rw (verified, absent), rw (verified, absent) absent, λ u. inr (rw (verified, absent)))
      ]

  pub make_token_lem :
      (user_id fingerprint : String) (w : World r.State) (pair : TokenPair)
      → issued c jwt w.now user_id (c.uuid4 w.drawn) ≡ ok pair
      → make_token r c jwt user_id fingerprint w ≡ (
        ok (record { value = some pair; err = none }),
        record w {
          drawn = suc w.drawn;
          server =
              r.lpush
                (auth_key user_id)
                ((c.uuid4 w.drawn +s ":" +s c.sha256 (fingerprint +s ":" +s pair.refresh_token))
                  ∷ [])
                w.server;
        },
      )
  unfolding make_token as_result_async as_result_sync
  make_token_lem user_id fingerprint w pair made = rw made

  -- Whoever logged in can rotate: the refresh token of `make_token`, presented with the same
  -- fingerprint while it still verifies as what was signed and its hash is still stored, is exchanged
  -- for a new pair.
  pub rotate-make_token :
      (user_id fingerprint : String) (w later : World r.State) (pair next : TokenPair)
      (claims : TokenClaims)
      → issued c jwt w.now user_id (c.uuid4 w.drawn) ≡ ok pair
      → str_truthy (c.uuid4 w.drawn) ≡ true
      → (contains
              (sessions r (make_token r c jwt user_id fingerprint w).1 user_id)
              (stored_hash c fingerprint w pair)
            ≡ true
          → contains (sessions r later user_id) (stored_hash c fingerprint w pair) ≡ true)
      → get_verified_claims r c jwt later.now pair.refresh_token ≡ ok claims
      → claims.sub ≡ user_id
      → claims.jti ≡ some (c.uuid4 w.drawn)
      → issued c jwt later.now claims.sub (c.uuid4 w.drawn) ≡ ok next
      → Locks r (lock_name claims.sub)
      → ((make_token r c jwt user_id fingerprint w).0
          ≡ ok (record { value = some pair; err = none }))
        × ((rotate r c jwt fingerprint pair.refresh_token later).0
            ≡ ok (record { value = some next; err = none }))
  unfolding get_hashed_pair
  rotate-make_token user_id fingerprint w later pair next claims made truthy same verified owner
        has_jti again locks =
      let jti = c.uuid4 w.drawn in
      let key = auth_key user_id in
      let hash = stored_hash c fingerprint w pair in
      let made_w = make_token_lem user_id fingerprint w pair made in
      let list : r.lrange key (make_token r c jwt user_id fingerprint w).1.server
          ≡ hash ∷ r.lrange key w.server =
        rw (made_w, laws.lrange-lpush key key hash w.server, beq_self key) in
      let kept : contains (sessions r later user_id) hash ≡ true =
        same (rw (list, beq_self hash)) in
      let hash_eq : hash_of claims fingerprint pair.refresh_token ≡ hash = rw (has_jti, truthy) in
      let present : contains (sessions r later claims.sub)
            (hash_of claims fingerprint pair.refresh_token)
          ≡ true =
        rw (owner, hash_eq) kept in
      (
        ap (λ x. x.0) made_w,
        (rotate_accepts r laws c jwt claims fingerprint pair.refresh_token later jti next verified
            present has_jti truthy again locks).0,
      )
