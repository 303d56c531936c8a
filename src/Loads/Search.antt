-- ===== src/Loads/Search.antt =====
-- Walks in the graph of relationships, and the search's loop on its own.
use litestar_cqrs_example.Common.{
  ◌+◌, ◌≤◌, String, ◌≡◌, refl, sym, ◌∙◌, ◌⊎◌, inl, inr, Bool, true, false, ◌||◌, List, [], ◌∷◌,
  ◌++◌, map, arith, eq_iff, ◌==◌, beq_self, nat_eq, string_eq, Bool-cases, length, any, All,
  contains,
}
use mathlib.Core.Path.{subst}
use mathlib.Core.List.{append-nil, append_assoc}
use litestar_cqrs_example.Loads.{Relation, Mapping, get, Trail, Scan, hit, queued, scan, remaining}

-- Membership, as a type that computes on the list.
abbrev pub Among : Relation → List Relation → Type 0
Among x [] = ⊥
Among x (y ∷ ys) = (x ≡ y) ⊎ Among x ys

-- A walk from a class: each relationship belongs to the class that the one before leads to.
abbrev pub IsWalk : Mapping → String → List Relation → Type 0
IsWalk node start [] = Unit {0}
IsWalk node start (x ∷ xs) = Among x (get node start) × IsWalk node x.target xs

abbrev pub last_class : String → List Relation → String
last_class start [] = start
last_class start (x ∷ xs) = last_class x.target xs

remaining_mono :
    (node : Mapping) (seen : List String) (m : String)
    → remaining node (m ∷ seen) ≤ remaining node seen
unfolding remaining
remaining_mono [] seen m = omega arith
remaining_mono ((k, relations) ∷ rest) seen m = ground (arith, remaining_mono rest seen m)

pub remaining_cons :
    (node : Mapping) (seen : List String) (m : String)
    → contains seen m ≡ false
    → remaining node (m ∷ seen) + length (get node m) ≤ remaining node seen
unfolding remaining get
remaining_cons [] seen m h = omega arith
remaining_cons ((k, relations) ∷ rest) seen m h =
    ground (arith, remaining_cons rest seen m h, eq_iff m k, eq_iff k m, remaining_mono rest seen m)

-- The path that the loop puts into the queue for a relationship.
abbrev pub extend : Trail → Relation → Trail
extend path x = record { relations = path.relations ++ x ∷ []; current = x.target }

-- The loop over the relationships of a class returns at the first whose key is looked for, or
-- queues one path for each.
pub data Scanned (end : String) (path : Trail) (xs : List Relation) (queue : List Trail)
    : Scan → Type 0 where
  at_key :
      (x : Relation)
      → Among x xs
      → (x.key == end) ≡ true
      → Scanned end path xs queue (hit (path.relations ++ x ∷ []))
  no_key :
      All (λ x. (x.key == end) ≡ false) xs
      → (rest : List Trail) → rest ≡ queue ++ map (extend path) xs
      → Scanned end path xs queue (queued rest)

pub scan-Scanned :
    (end : String) (path : Trail) (xs : List Relation) (queue : List Trail)
    → Scanned end path xs queue (scan end path xs queue)
unfolding scan
scan-Scanned end path [] queue = no_key tt queue (sym (append-nil queue))
scan-Scanned end path (x ∷ xs) queue = elim (Bool-cases (x.key == end)) [
  | inl here ↦ rw here (at_key x (inl refl) here)
  | inr other ↦ rw other (later other (scan-Scanned end path xs (queue ++ extend path x ∷ [])))
]
  where
    later :
        {s : Scan}
        → (x.key == end) ≡ false
        → Scanned end path xs (queue ++ extend path x ∷ []) s
        → Scanned end path (x ∷ xs) queue s
    later other (at_key y among key) = at_key y (inr among) key
    later other (no_key none_of rest e) =
        no_key (other, none_of) rest
          (e ∙ append_assoc queue (extend path x ∷ []) (map (extend path) xs))

abbrev pub leads_to : String → Trail → Bool
leads_to t path = path.current == t

-- A class that was seen or has a path in the queue.
abbrev pub Covered : List String → List Trail → String → Type 0
Covered seen queue t = (contains seen t || any (leads_to t) queue) ≡ true

pub Among-All :
    (P : Relation → Type 0) (x : Relation) (xs : List Relation) → Among x xs → All P xs → P x
Among-All P x [] m h = elim m [ ]
Among-All P x (y ∷ ys) (inl e) h = subst P (sym e) h.0
Among-All P x (y ∷ ys) (inr m) h = Among-All P x ys m h.1

pub All-Among :
    (P : Relation → Type 0) (xs : List Relation) → ((x : Relation) → Among x xs → P x) → All P xs
All-Among P [] f = tt
All-Among P (x ∷ xs) f = (f x (inl refl), All-Among P xs (λ y m. f y (inr m)))

pub any-extend :
    (path : Trail) (x : Relation) (xs : List Relation)
    → Among x xs
    → any (leads_to x.target) (map (extend path) xs) ≡ true
any-extend path x [] m = elim m [ ]
any-extend path x (y ∷ ys) (inl e) = rw (← e) (rw (beq_self x.target))
any-extend path x (y ∷ ys) (inr m) = ground (arith, any-extend path x ys m)

pub IsWalk-concat :
    (node : Mapping) (start : String) (walk : List Relation) (x : Relation)
    → IsWalk node start walk
    → Among x (get node (last_class start walk))
    → IsWalk node start (walk ++ x ∷ []) × (last_class start (walk ++ x ∷ []) ≡ x.target)
IsWalk-concat node start [] x w m = ((m, tt), refl)
IsWalk-concat node start (y ∷ walk) x w m =
    let (longer, end) = IsWalk-concat node y.target walk x w.1 m in ((w.0, longer), end)
