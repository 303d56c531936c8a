-- ===== src/Bus/Epochs.antt =====
-- src/backend/app/bus/middlewares/cache.py: queries and commands that run at the same time. Each
-- event is what happens between two `await`s of the middlewares. The database is its number of
-- commits: an answer is as old as the number of commits that it saw. Commands commit in the primary,
-- and the handlers of queries read a replica, as src/backend/http/dependencies.py wires them; it
-- takes over one commit after the other, or is the primary where it does this at once.
use litestar_cqrs_example.Common.{
  ℕ, zero, suc, ◌-◌, ◌%◌, String, ◌&&◌, Option, none, some, List, [], ◌∷◌, nat_beq, ltb,
  if◌then◌else◌, ◌==◌, nat_eq, string_eq, take,
}
pub mod Fresh

-- What a handler read: how many commits the replica had, and how many it was behind.
pub record Reading : Type 0 where
  pub version : ℕ
  pub lag : ℕ

-- A query on its way: it has read the epoch, it missed the cache, or its handler has answered.
-- `begun` is the number of increments when it read the epoch, `tag` what it made of it.
pub data Phase : Type 0 where
  looking running : Phase
  ran : (reading : Reading) → Phase
  done : Phase

pub record Query : Type 0 where
  pub begun : ℕ
  pub tag : ℕ
  pub key : String
  pub phase : Phase

pub record Entry : Type 0 where
  pub tag : ℕ
  pub key : String
  pub reading : Reading

-- An answer that a query gave, with `begun` of the query.
pub record Given : Type 0 where
  pub begun : ℕ
  pub reading : Reading

pub record System : Type 0 where
  pub epoch : ℕ
  pub version : ℕ
  -- The commits that the replica has.
  pub replica : ℕ
  -- Commands that have committed and not yet incremented the epoch.
  pub pending : ℕ
  pub entries : List Entry
  pub queries : List Query
  pub given : List Given

pub data Event : Type 0 where
  begin : (key : String) → Event
  look_up run store : (query : ℕ) → Event
  -- A command's handler commits; `CacheInvalidateMiddleware` increments the epoch after it.
  commit increment : Event
  -- The replica takes over a commit.
  replicate : Event
  -- Redis drops the oldest entries of a key's lifetime.
  expire : (keep : ℕ) → Event

-- `_epoch`
abbrev pub tag_of : ℕ → ℕ
tag_of epoch = epoch % 1000000

unfoldable pub find_entry : (tag : ℕ) → (key : String) → List Entry → Option Reading
find_entry tag key [] = none
find_entry tag key (e ∷ es) =
    let later = find_entry tag key es in
    if nat_beq e.tag tag && e.key == key then some e.reading else later

-- The n-th query, and the list with another in its place.
unfoldable pub nth : ℕ → List Query → Option Query
nth n [] = none
nth zero (q ∷ qs) = some q
nth (suc n) (q ∷ qs) = nth n qs

unfoldable pub put : ℕ → Query → List Query → List Query
put n p [] = []
put zero p (q ∷ qs) = p ∷ qs
put (suc n) p (q ∷ qs) = q ∷ put n p qs

abbrev pub moved : Query → Phase → Query
moved q phase = record q { phase = phase }

abbrev pub giving : Query → Reading → Given
giving q reading = record { begun = q.begun; reading = reading }

-- `if value := await self.cache.get(key): return value`
unfoldable pub look : ℕ → Query → Option Reading → System → System
unfolding put
look n q (some reading) s = record s {
  queries = put n (moved q done) s.queries;
  given = giving q reading ∷ s.given;
}
look n q none s = record s { queries = put n (moved q running) s.queries }

-- What a query does when it is its turn; an event that does not fit its phase does nothing.
abbrev pub Turn : Type 0
Turn = ℕ → Query → Phase → System → System

unfoldable pub look_up_now : Turn
unfolding look find_entry
look_up_now n q looking s = look n q (find_entry q.tag q.key s.entries) s
look_up_now n q running s = s
look_up_now n q (ran _) s = s
look_up_now n q done s = s

-- What the replica holds
abbrev pub read_of : System → Reading
read_of s = record { version = s.replica; lag = s.version - s.replica }

-- The handler answers with what the replica holds.
unfoldable pub run_now : Turn
unfolding put
run_now n q running s = record s { queries = put n (moved q (ran (read_of s))) s.queries }
run_now n q looking s = s
run_now n q (ran _) s = s
run_now n q done s = s

-- `await self.cache.set(key, …)`, and the answer.
unfoldable pub store_now : Turn
unfolding put
store_now n q (ran reading) s = record s {
  queries = put n (moved q done) s.queries;
  entries = record { tag = q.tag; key = q.key; reading = reading } ∷ s.entries;
  given = giving q reading ∷ s.given;
}
store_now n q looking s = s
store_now n q running s = s
store_now n q done s = s

abbrev pub turn : Turn → ℕ → Option Query → System → System
turn now n none s = s
turn now n (some q) s = now n q q.phase s

unfoldable pub step : Event → System → System
unfolding look_up_now run_now store_now nth
step (begin key) s = record s {
  queries =
      record { begun = s.epoch; tag = tag_of s.epoch; key = key; phase = looking } ∷ s.queries;
}
step (look_up n) s = turn look_up_now n (nth n s.queries) s
step (run n) s = turn run_now n (nth n s.queries) s
step (store n) s = turn store_now n (nth n s.queries) s
step commit s = record s { version = suc s.version; pending = suc s.pending }
step increment s =
    if nat_beq s.pending 0 then s else record s { epoch = suc s.epoch; pending = s.pending - 1 }
step replicate s = record s {
  replica = if ltb s.replica s.version then suc s.replica else s.replica;
}
step (expire keep) s = record s { entries = take keep s.entries }

abbrev pub steps : List Event → System → System
steps [] s = s
steps (event ∷ events) s = steps events (step event s)

abbrev pub start : System
start = record {
  epoch = 0;
  version = 0;
  replica = 0;
  pending = 0;
  entries = [];
  queries = [];
  given = [];
}
