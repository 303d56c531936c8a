-- ===== src/Loads/Correct.antt =====
-- What the answer of the search says about the graph, by an invariant of its loop.
use litestar_cqrs_example.Common.{
  ℕ, zero, suc, ◌+◌, ◌≤◌, String, ◌≡◌, refl, ◌≢◌, inl, inr, true, false, List, [], ◌∷◌, ◌++◌, map,
  arith, eq_iff, ◌==◌, beq_self, nat_eq, string_eq, Bool-cases, length, length-append, All, All-imp,
  All-append, any-append, length-map, contains,
}
use mathlib.Core.Path.{subst}
use litestar_cqrs_example.Loads.{
  Relation, Mapping, get, Trail, Scan, hit, queued, Outcome, found, nothing, out_of_fuel, loop,
  remaining, bfs_search,
}
use litestar_cqrs_example.Loads.Search.{
  Among, IsWalk, last_class, remaining_cons, extend, Scanned, at_key, no_key, scan-Scanned,
  leads_to, Covered, Among-All, All-Among, any-extend, IsWalk-concat,
}

module _ (node : Mapping) (start end : String) where
  -- A path to a relationship with the key: a walk, and then a relationship of its last class.
  abbrev pub IsPath : List Relation → Type 0
  IsPath relations =
      (before : List Relation) × (x : Relation) × (relations ≡ before ++ x ∷ [])
      × IsWalk node start before
      × Among x (get node (last_class start before))
      × (x.key ≡ end)

  -- No walk from the start ends at a class with such a relationship.
  abbrev pub IsUnreachable : Type 0
  IsUnreachable =
      (walk : List Relation) (x : Relation)
      → IsWalk node start walk
      → Among x (get node (last_class start walk))
      → x.key ≢ end

  abbrev pub Answer : Outcome → Type 0
  Answer (found relations) = IsPath relations
  Answer nothing = IsUnreachable
  Answer out_of_fuel = ⊥

  abbrev Leads : Trail → Type 0
  Leads path = IsWalk node start path.relations × (last_class start path.relations ≡ path.current)

  abbrev Settled : List String → List Trail → Relation → Type 0
  Settled seen queue x = ((x.key == end) ≡ false) × Covered seen queue x.target

  record Inv (seen : List String) (queue : List Trail) : Type 0 where
    walks : All Leads queue
    source : Covered seen queue start
    closed : (m : String) → contains seen m ≡ true → All (Settled seen queue) (get node m)

  Covered-drop :
      (seen : List String) (queue : List Trail) (path : Trail) (t : String)
      → contains seen path.current ≡ true
      → Covered seen (path ∷ queue) t
      → Covered seen queue t
  Covered-drop seen queue path t h c = ground (arith, eq_iff path.current t)

  Covered-expand :
      (seen : List String) (queue : List Trail) (path : Trail) (xs : List Relation) (t : String)
      → Covered seen (path ∷ queue) t
      → Covered (path.current ∷ seen) (queue ++ map (extend path) xs) t
  Covered-expand seen queue path xs t c =
      ground (arith, any-append (leads_to t) queue (map (extend path) xs))

  Leads-extend :
      (path : Trail) (xs : List Relation)
      → Leads path
      → ((x : Relation) → Among x xs → Among x (get node path.current))
      → All Leads (map (extend path) xs)
  Leads-extend path [] l h = tt
  Leads-extend path (x ∷ xs) (walk, last) h = (
    IsWalk-concat node start path.relations x walk (rw last (h x (inl refl))),
    Leads-extend path xs (walk, last) (λ y m. h y (inr m)),
  )

  -- A round that drops the path of a class that was seen.
  Inv-drop :
      (seen : List String) (queue : List Trail) (path : Trail)
      → contains seen path.current ≡ true
      → Inv seen (path ∷ queue)
      → Inv seen queue
  Inv-drop seen queue path h inv = record {
    walks = inv.walks.1;
    source = Covered-drop seen queue path start h inv.source;
    closed = λ m s.
        All-imp (get node m) (λ x (key, c). (key, Covered-drop seen queue path x.target h c))
          (inv.closed m s);
  }

  Covered-extend :
      (seen : List String) (queue : List Trail) (path : Trail) (xs : List Relation) (x : Relation)
      → Among x xs
      → Covered (path.current ∷ seen) (queue ++ map (extend path) xs) x.target
  Covered-extend seen queue path xs x m =
      ground
        (arith, any-append (leads_to x.target) queue (map (extend path) xs), any-extend path x xs m)

  Settled-extend :
      (seen : List String) (queue : List Trail) (path : Trail)
      → All (λ x. (x.key == end) ≡ false) (get node path.current)
      → All
          (Settled (path.current ∷ seen) (queue ++ map (extend path) (get node path.current)))
          (get node path.current)
  Settled-extend seen queue path none_of =
      let xs = get node path.current in
      All-Among _ xs (λ x m. (
        Among-All (λ y. (y.key == end) ≡ false) x xs m none_of,
        Covered-extend seen queue path xs x m,
      ))

  -- A round that queues the paths through a new class.
  Inv-expand :
      (seen : List String) (queue : List Trail) (path : Trail)
      → All (λ x. (x.key == end) ≡ false) (get node path.current)
      → Inv seen (path ∷ queue)
      → Inv (path.current ∷ seen) (queue ++ map (extend path) (get node path.current))
  Inv-expand seen queue path none_of inv =
      let xs = get node path.current in
      record {
        walks =
            All-append Leads queue (map (extend path) xs) inv.walks.1
              (Leads-extend path xs inv.walks.0 (λ x m. m));
        source = Covered-expand seen queue path xs start inv.source;
        closed = λ m s. elim (Bool-cases (path.current == m)) [
          | inl same ↦
              subst
                (λ k.
                  All (Settled (path.current ∷ seen) (queue ++ map (extend path) xs)) (get node k))
                ((eq_iff path.current m).0 same) (Settled-extend seen queue path none_of)
          | inr other ↦
              All-imp (get node m)
                (λ x (key, c). (key, Covered-expand seen queue path xs x.target c))
                (inv.closed m (ground arith))
        ];
      }

  Inv-start : Inv [] (record { relations = []; current = start } ∷ [])
  Inv-start = record { walks = ((tt, refl), tt); source = rw (beq_self start); closed = λ m s. cc }

  -- With an empty queue the classes that were seen are closed under relationships.
  walk_is_seen :
      (seen : List String) (from : String) (walk : List Relation)
      → Inv seen []
      → contains seen from ≡ true
      → IsWalk node from walk
      → contains seen (last_class from walk) ≡ true
  walk_is_seen seen from [] inv s w = s
  walk_is_seen seen from (x ∷ walk) inv s (among, w) =
      let settled = Among-All (Settled seen []) x (get node from) among (inv.closed from s) in
      walk_is_seen seen x.target walk inv (ground arith) w

  Inv-IsUnreachable : (seen : List String) → Inv seen [] → IsUnreachable
  Inv-IsUnreachable seen inv walk x w among key =
      let last_seen = walk_is_seen seen start walk inv (ground (arith, inv.source)) w in
      let settled =
        Among-All (Settled seen []) x (get node (last_class start walk)) among
          (inv.closed (last_class start walk) last_seen) in
      ground (arith, eq_iff x.key end)

  hit_answer :
      (seen : List String) (queue : List Trail) (path : Trail) (x : Relation)
      → Inv seen (path ∷ queue)
      → Among x (get node path.current)
      → (x.key == end) ≡ true
      → IsPath (path.relations ++ x ∷ [])
  hit_answer seen queue path x inv among key =
      let ((walk, last), _) = inv.walks in
      (path.relations, x, refl, walk, rw last among, (eq_iff x.key end).0 key)

  loop-Answer :
      (fuel : ℕ) (queue : List Trail) (seen : List String)
      → length queue + remaining node seen ≤ fuel
      → Inv seen queue
      → Answer (loop node end fuel queue seen)
  unfolding loop
  loop-Answer zero [] seen h inv = Inv-IsUnreachable seen inv
  loop-Answer zero (_ ∷ _) seen h inv = absurd (omega arith)
  loop-Answer (suc fuel) [] seen h inv = Inv-IsUnreachable seen inv
  loop-Answer (suc fuel) (path ∷ queue) seen h inv =
      elim (Bool-cases (contains seen path.current)) [
        | inl old ↦
            rw (old, loop)
              (loop-Answer fuel queue seen (omega arith) (Inv-drop seen queue path old inv))
        | inr new ↦
            rw (new, loop)
              (after new (loop-Answer fuel) (scan-Scanned end path (get node path.current) queue))
      ]
    where
      after :
          {s : Scan}
          → contains seen path.current ≡ false
          → ((queue' : List Trail) (seen' : List String)
              → length queue' + remaining node seen' ≤ fuel
              → Inv seen' queue'
              → Answer (loop node end fuel queue' seen'))
          → Scanned end path (get node path.current) queue s
          → Answer (elim s [
            | hit relations ↦ found relations
            | queued queue' ↦ loop node end fuel queue' (path.current ∷ seen)
          ])
      after new again (at_key x among key) = hit_answer seen queue path x inv among key
      after new again (no_key none_of rest e) =
          let xs = get node path.current in
          rw e (
            again (queue ++ map (extend path) xs) (path.current ∷ seen)
              (omega (
                arith,
                length-append queue (map (extend path) xs),
                length-map (extend path) xs,
                remaining_cons node seen path.current new,
              ))
              (Inv-expand seen queue path none_of inv))

-- The search always ends within its rounds, and its answer is right: a path that it returns walks
-- from the start along relationships of the mapping and ends with one that has the key, and where it
-- returns nothing no class that can be reached from the start has a relationship with the key.
pub bfs_search-Answer :
    (node : Mapping) (start end : String) → Answer node start end (bfs_search node start end)
unfolding bfs_search
bfs_search-Answer node start end =
    loop-Answer node start end (suc (remaining node [])) _ [] (omega arith)
      (Inv-start node start end)
