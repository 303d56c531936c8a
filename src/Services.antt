-- ===== src/Services.antt =====
-- What the program takes from packages and servers that are not part of the repository: Redis with
-- its locks (redis-py), the JWT library (PyJWT), hashing and base64. They are parameters; the laws
-- that proofs rely on are records of their own.
pub mod Sample
use litestar_cqrs_example.Common.{
  ℕ, String, ◌≡◌, Bool, Option, List, [], ◌∷◌, if◌then◌else◌, ◌==◌, nat_eq, string_eq,
}
use litestar_cqrs_example.Errors.{Try}

-- A Redis server as seen between two expiry times: a key does not vanish between the calls that a
-- law relates.
pub record RedisServer : Type 1 where
  pub State : Type 0
  pub get : String → State → Option String
  -- SET key value [EX seconds]
  pub set : String → String → Option ℕ → State → State
  -- LRANGE key 0 -1
  pub lrange : String → State → List String
  pub lpush : String → List String → State → State
  pub expire : String → ℕ → State → State
  -- LREM key 0 value
  pub lrem : String → String → State → State
  pub delete : List String → State → State
  pub scan_iter : String → State → List String
  pub incrby : String → ℕ → State → ℕ × State
  -- `Lock.acquire()`, false after the blocking timeout, and `Lock.release()` of a lock object that
  -- has, or has not, acquired.
  pub lock_acquire : String → State → Bool × State
  pub lock_release : String → Bool → State → Try (Unit {0}) × State

abbrev pub without : String → List String → List String
without v [] = []
without v (x ∷ xs) = let rest = without v xs in if x == v then rest else x ∷ rest

-- The documented effect of the commands on lists.
pub record ListLaws (r : RedisServer) : Type 0 where
  pub lrange-lpush :
      (k j v : String) (s : r.State)
      → r.lrange j (r.lpush k (v ∷ []) s) ≡ (if k == j then v ∷ r.lrange j s else r.lrange j s)
  pub lrange-expire :
      (k j : String) (n : ℕ) (s : r.State) → r.lrange j (r.expire k n s) ≡ r.lrange j s
  pub lrange-lrem :
      (k j v : String) (s : r.State)
      → r.lrange j (r.lrem k v s) ≡ (if k == j then without v (r.lrange j s) else r.lrange j s)
  pub lrange-delete :
      (k j : String) (s : r.State)
      → r.lrange j (r.delete (k ∷ []) s) ≡ (if k == j then [] else r.lrange j s)
  pub lrange-lock_acquire :
      (k j : String) (s : r.State) → r.lrange j (r.lock_acquire k s).1 ≡ r.lrange j s
  pub lrange-lock_release :
      (k j : String) (b : Bool) (s : r.State) → r.lrange j (r.lock_release k b s).1 ≡ r.lrange j s

-- The claims of a token, `TokenClaims` of src/backend/app/contracts/auth.py.
pub record TokenClaims : Type 0 where
  pub sub : String
  pub typ : String
  pub iat : Option ℕ
  pub exp : Option ℕ
  pub iss : Option String
  pub aud : Option String
  pub jti : Option String
  pub extra : List (String × String)

-- `jwt.encode`, `jwt.decode` followed by `TokenClaims(**claims)`, SHA-256 in hexadecimal, base64
-- decoding into a text, and the n-th identifier of `uuid4`. Times are seconds.
pub record Crypto : Type 0 where
  pub encode : TokenClaims → (secret_key algorithm : String) → Try String
  pub decode :
      (token public_key algorithm : String)
      → (iss aud : Option String) → (now : ℕ) → Try TokenClaims
  pub sha256 : String → String
  pub b64decode : String → Option String
  pub uuid4 : ℕ → String
