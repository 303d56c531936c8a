-- ===== src/Services/Sample.antt =====
-- A small Redis server and a toy signature, on which the development's examples run.
use litestar_cqrs_example.Common.{
  ℕ, zero, suc, String, refl, Bool, true, false, Option, none, some, List, [], ◌∷◌, arith, eq_iff,
  if◌then◌else◌, ◌==◌, nat_eq, string_eq, ◌+s◌,
}
use litestar_cqrs_example.Errors.{py, lock_error, Try, ok, raise}
use litestar_cqrs_example.Services.{RedisServer, ListLaws, without, TokenClaims, Crypto}

-- Keys to texts and to lists; lifetimes are not kept.
pub record Store : Type 0 where
  pub texts : String → Option String
  pub lists : String → List String

abbrev push_all : List String → List String → List String
push_all [] xs = xs
push_all (v ∷ vs) xs = push_all vs (v ∷ xs)

abbrev update : {A : Type 0} → (String → A) → String → A → String → A
update f k a j = if k == j then a else f j

abbrev released : Bool → Try (Unit {0})
released true = ok tt
released false = raise (py lock_error ("Cannot release an unlocked lock" ∷ []))

-- Counters are kept in unary: one digit for each increment.
abbrev digits_of : ℕ → String
digits_of zero = ""
digits_of (suc n) = "1" +s digits_of n

abbrev clear : {A : Type 0} → A → List String → (String → A) → String → A
clear a [] f = f
clear a (k ∷ ks) f = update (clear a ks f) k a

abbrev pub sample_server : RedisServer
sample_server = record {
  State = Store;
  get = λ k s. s.texts k;
  set = λ k v _ s. record s { texts = update s.texts k (some v) };
  lrange = λ k s. s.lists k;
  lpush = λ k vs s. record s { lists = update s.lists k (push_all vs (s.lists k)) };
  expire = λ _ _ s. s;
  lrem = λ k v s. record s { lists = update s.lists k (without v (s.lists k)) };
  delete = λ ks s. record s { texts = clear none ks s.texts; lists = clear [] ks s.lists };
  scan_iter = λ _ _. [];
  incrby = λ k n s. (n, s);
  lock_acquire = λ _ s. (true, s);
  lock_release = λ _ got s. (released got, s);
}

pub sample_laws : ListLaws sample_server
sample_laws = record {
  lrange-lpush = λ k j v s. ground (arith, eq_iff k j);
  lrange-expire = λ k j n s. refl;
  lrange-lrem = λ k j v s. ground (arith, eq_iff k j);
  lrange-delete = λ k j s. refl;
  lrange-lock_acquire = λ k j s. refl;
  lrange-lock_release = λ k j b s. refl;
}

abbrev pub empty_store : Store
empty_store = record { texts = λ _. none; lists = λ _. [] }

-- Tokens that name their second, and claims that are the same for every token.
abbrev stamp : Option ℕ → String
stamp none = "t"
stamp (some zero) = "t0"
stamp (some (suc _)) = "t1"

abbrev pub sample_claims : TokenClaims
sample_claims = record {
  sub = "u1";
  typ = "refresh";
  iat = some 0;
  exp = some 100;
  iss = none;
  aud = none;
  jti = some "id";
  extra = [];
}

abbrev pub sample_crypto : Crypto
sample_crypto = record {
  encode = λ claims _ _. ok (stamp claims.iat);
  decode = λ _ _ _ _ _ _. ok sample_claims;
  sha256 = λ s. s;
  b64decode = λ _. none;
  uuid4 = λ _. "id";
}
