-- ===== src/Bus/Epochs/Fresh.antt =====
-- Whatever order queries and commands run in, no query answers with data from before a command that
-- had begun a new epoch, but for what the replica lags behind.
use litestar_cqrs_example.Common.{
  ℕ, zero, suc, ◌+◌, ◌≤◌, String, ◌≡◌, refl, ap, ◌⊎◌, inl, inr, ◌&&◌, Option, none, some, List, [],
  ◌∷◌, arith, leb, nat_beq, nat_beq_iff, ◌==◌, nat_eq, string_eq, Bool-cases, some_inj, take, All,
  All-imp,
}
use litestar_cqrs_example.Bus.Epochs.{
  Reading, read_of, replicate, Phase, looking, running, ran, done, Query, Entry, Given, System,
  Event, begin, look_up, run, store, commit, increment, expire, tag_of, find_entry, nth, put, look,
  Turn, look_up_now, run_now, store_now, turn, step, steps, start, moved,
}

abbrev PhaseFresh : ℕ → Phase → Type 0
PhaseFresh tag looking = Unit
PhaseFresh tag running = Unit
PhaseFresh tag (ran reading) = tag ≤ reading.version + reading.lag
PhaseFresh tag done = Unit

abbrev QueryFresh : ℕ → Query → Type 0
QueryFresh version q = (q.tag ≡ tag_of q.begun) × (q.tag ≤ version) × PhaseFresh q.tag q.phase

abbrev EntryFresh : Entry → Type 0
EntryFresh e = e.tag ≤ e.reading.version + e.reading.lag

abbrev GivenFresh : Given → Type 0
GivenFresh g = tag_of g.begun ≤ g.reading.version + g.reading.lag

record Inv (s : System) : Type 0 where
  sum : s.epoch + s.pending ≡ s.version
  entries : All EntryFresh s.entries
  queries : All (QueryFresh s.version) s.queries
  given : All GivenFresh s.given

module _ (P : Query → Type 0) where
  nth-All : (n : ℕ) (qs : List Query) (q : Query) → All P qs → nth n qs ≡ some q → P q
  unfolding nth
  nth-All n [] q h e = absurd (cc e)
  nth-All zero (p ∷ qs) q h e = go (some_inj e) h.0
    where
      go : {a b : Query} → a ≡ b → P a → P b
      go same p = rw (← same) p
  nth-All (suc n) (p ∷ qs) q h e = nth-All n qs q h.1 e

  put-All : (n : ℕ) (p : Query) (qs : List Query) → P p → All P qs → All P (put n p qs)
  unfolding put
  put-All n p [] new h = h
  put-All zero p (q ∷ qs) new h = (new, h.1)
  put-All (suc n) p (q ∷ qs) new h = (h.0, put-All n p qs new h.1)

take-All : (n : ℕ) (es : List Entry) → All EntryFresh es → All EntryFresh (take n es)
take-All zero es h = tt
take-All (suc n) [] h = tt
take-All (suc n) (e ∷ es) h = (h.0, take-All n es h.1)

find_entry_le :
    (tag : ℕ) (key : String) (es : List Entry) (reading : Reading)
    → All EntryFresh es
    → find_entry tag key es ≡ some reading
    → tag ≤ reading.version + reading.lag
unfolding find_entry
find_entry_le tag key [] reading h e = absurd (cc e)
find_entry_le tag key (x ∷ es) reading h e = elim (Bool-cases (nat_beq x.tag tag && x.key == key)) [
  | inl hit ↦
      let same : x.reading ≡ reading = some_inj (rw hit at e) in
      let total = ap (λ r. r.version + r.lag) same in
      omega (arith, h.0, total, (nat_beq_iff x.tag tag).0 (ground (arith, hit)))
  | inr miss ↦ find_entry_le tag key es reading h.1 (rw miss at e)
]

-- A turn of a query that keeps the invariant.
abbrev Keeps : Turn → Type 0
Keeps now =
    (n : ℕ) (q : Query) (phase : Phase) (s : System)
    → Inv s
    → QueryFresh s.version q
    → PhaseFresh q.tag phase
    → Inv (now n q phase s)

look-Inv :
    (n : ℕ) (q : Query) (o : Option Reading) (s : System)
    → Inv s
    → QueryFresh s.version q
    → find_entry q.tag q.key s.entries ≡ o
    → Inv (look n q o s)
unfolding look
look-Inv n q (some reading) s inv fresh e = record {
  sum = inv.sum;
  entries = inv.entries;
  queries =
      put-All (QueryFresh s.version) n (moved q done) s.queries (fresh.0, fresh.1, tt) inv.queries;
  given = (
    omega (arith, find_entry_le q.tag q.key s.entries reading inv.entries e, fresh.0),
    inv.given,
  );
}
look-Inv n q none s inv fresh e = record {
  sum = inv.sum;
  entries = inv.entries;
  queries =
      put-All (QueryFresh s.version) n (moved q running) s.queries (fresh.0, fresh.1, tt)
        inv.queries;
  given = inv.given;
}

look_up_now-Inv : Keeps look_up_now
unfolding look_up_now
look_up_now-Inv n q looking s inv fresh p = look-Inv n q _ s inv fresh refl
look_up_now-Inv n q running s inv fresh p = inv
look_up_now-Inv n q (ran _) s inv fresh p = inv
look_up_now-Inv n q done s inv fresh p = inv

run_now-Inv : Keeps run_now
unfolding run_now
run_now-Inv n q looking s inv fresh p = inv
run_now-Inv n q (ran _) s inv fresh p = inv
run_now-Inv n q done s inv fresh p = inv
run_now-Inv n q running s inv fresh p = record {
  sum = inv.sum;
  entries = inv.entries;
  queries =
      put-All (QueryFresh s.version) n (moved q (ran (read_of s))) s.queries
        (fresh.0, fresh.1, omega (arith, fresh.1)) inv.queries;
  given = inv.given;
}

store_now-Inv : Keeps store_now
unfolding store_now
store_now-Inv n q looking s inv fresh p = inv
store_now-Inv n q running s inv fresh p = inv
store_now-Inv n q done s inv fresh p = inv
store_now-Inv n q (ran reading) s inv fresh p = record {
  sum = inv.sum;
  entries = (p, inv.entries);
  queries =
      put-All (QueryFresh s.version) n (moved q done) s.queries (fresh.0, fresh.1, tt) inv.queries;
  given = (omega (arith, p, fresh.0), inv.given);
}

turn-Inv :
    (now : Turn) (n : ℕ) (o : Option Query) (s : System)
    → Keeps now
    → Inv s
    → nth n s.queries ≡ o
    → Inv (turn now n o s)
turn-Inv now n none s keeps inv e = inv
turn-Inv now n (some q) s keeps inv e =
    let fresh = nth-All (QueryFresh s.version) n s.queries q inv.queries e in
    keeps n q q.phase s inv fresh fresh.2

step-Inv : (event : Event) (s : System) → Inv s → Inv (step event s)
unfolding step
step-Inv (begin key) s inv = record {
  sum = inv.sum;
  entries = inv.entries;
  queries = ((refl, omega (arith, inv.sum), tt), inv.queries);
  given = inv.given;
}
step-Inv (look_up n) s inv = turn-Inv look_up_now n _ s look_up_now-Inv inv refl
step-Inv (run n) s inv = turn-Inv run_now n _ s run_now-Inv inv refl
step-Inv (store n) s inv = turn-Inv store_now n _ s store_now-Inv inv refl
step-Inv commit s inv = record {
  sum = omega (arith, inv.sum);
  entries = inv.entries;
  queries = All-imp s.queries (λ q h. (h.0, omega (arith, h.1), h.2)) inv.queries;
  given = inv.given;
}
step-Inv increment s inv = elim (Bool-cases (nat_beq s.pending 0)) [
  | inl idle ↦ rw idle inv
  | inr waiting ↦ rw waiting (record {
    sum = ground (arith, inv.sum, waiting);
    entries = inv.entries;
    queries = inv.queries;
    given = inv.given;
  })
]
step-Inv replicate s inv = record {
  sum = inv.sum;
  entries = inv.entries;
  queries = inv.queries;
  given = inv.given;
}
step-Inv (expire keep) s inv = record {
  sum = inv.sum;
  entries = take-All keep s.entries inv.entries;
  queries = inv.queries;
  given = inv.given;
}

steps-Inv : (events : List Event) (s : System) → Inv s → Inv (steps events s)
steps-Inv [] s inv = inv
steps-Inv (event ∷ events) s inv = steps-Inv events (step event s) (step-Inv event s inv)

-- In whatever order queries and commands take their turns, every answer that a query gives, from the
-- cache or not, has seen at least as many commits as epochs had begun when the query read the epoch,
-- less those by which the replica was behind when the handler answered that the answer comes from;
-- unless a million epochs or more had begun.
pub steps-fresh :
    (events : List Event)
    → All
        (λ g. (1000000 ≤ g.begun) ⊎ (g.begun ≤ g.reading.version + g.reading.lag))
        (steps events start).given
steps-fresh events =
    let inv =
      steps-Inv events start (record { sum = refl; entries = tt; queries = tt; given = tt }) in
    All-imp (steps events start).given (λ g h. young g h) inv.given
  where
    young :
        (g : Given)
        → GivenFresh g
        → (1000000 ≤ g.begun) ⊎ (g.begun ≤ g.reading.version + g.reading.lag)
    young g h = elim (Bool-cases (leb 1000000 g.begun)) [
      | inl old ↦ inl (ground arith)
      | inr new ↦ inr (ground arith)
    ]
