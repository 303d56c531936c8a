-- ===== src/Queries/Table.antt =====
-- A table whose rows are ordered by their keys, as the database documents what a statement gives.
use litestar_cqrs_example.Common.{
  ℕ, ◌≡◌, refl, ap, inl, inr, Bool, true, false, ◌&&◌, Option, none, some, List, [], ◌∷◌, ◌++◌,
  arith, if◌then◌else◌, nat_eq, string_eq, Bool-cases, length, take, drop, keep_if, All,
}
use litestar_cqrs_example.Queries.{Select, plain, joined, Database, after}

module _ {R : Type 0} where
  -- All clauses hold for a row.
  abbrev pub holds : List (R → Bool) → R → Bool
  holds [] row = true
  holds (p ∷ ps) row = p row && holds ps row

  abbrev pub take_some : Option ℕ → List R → List R
  take_some none xs = xs
  take_some (some n) xs = take n xs

  abbrev pub drop_some : Option ℕ → List R → List R
  drop_some none xs = xs
  drop_some (some n) xs = drop n xs

  abbrev pub Ordered : (R → ℕ) → (asc : Bool) → List R → Type 0
  Ordered key asc [] = Unit
  Ordered key asc (x ∷ xs) = All (λ y. after asc (key x) (key y) ≡ true) xs × Ordered key asc xs

  abbrev pub selected : (Bool → List R) → Select R → List R
  selected all_rows s =
      take_some s.limit (drop_some s.offset (keep_if (holds s.clauses) (all_rows s.asc)))

-- WHERE, ORDER BY, OFFSET and LIMIT, an inner join with the keys of such a selection, and COUNT. The
-- rows of the table in either order have different keys.
pub record TableLaws {R : Type 0} (db : Database R) : Type 0 where
  pub all_rows : (asc : Bool) → List R
  pub all_rows-Ordered : (asc : Bool) → Ordered db.key asc (all_rows asc)
  pub rows-plain : (s : Select R) → db.rows (plain s) ≡ selected all_rows s
  pub rows-joined :
      (s : Select R) (clauses : List (R → Bool))
      → db.rows (joined s clauses) ≡ keep_if (holds clauses) (selected all_rows s)
  pub count_lem :
      (clauses : List (R → Bool)) (asc : Bool)
      → db.count clauses ≡ length (keep_if (holds clauses) (all_rows asc))

module _ {R : Type 0} where
  pub keep_if-append :
      (ps qs : List (R → Bool)) (xs : List R)
      → keep_if (holds (ps ++ qs)) xs ≡ keep_if (holds qs) (keep_if (holds ps) xs)
  keep_if-append ps qs [] = refl
  keep_if-append ps qs (x ∷ xs) =
      let rest = keep_if-append ps qs xs in
      elim (Bool-cases (holds ps x)) [
        | inl yes_ ↦ rw (holds-append ps qs x, yes_) (one (holds qs x) rest)
        | inr no_ ↦ rw (holds-append ps qs x, no_) rest
      ]
    where
      holds-append :
          (ps qs : List (R → Bool)) (x : R) → holds (ps ++ qs) x ≡ (holds ps x && holds qs x)
      holds-append [] qs x = refl
      holds-append (p ∷ ps) qs x = ground (arith, holds-append ps qs x)

      one : (b : Bool) {r s : List R} → r ≡ s → (if b then x ∷ r else r) ≡ (if b then x ∷ s else s)
      one true e = ap (λ l. x ∷ l) e
      one false e = e

  All-keep_if : (P : R → Type 0) (p : R → Bool) (xs : List R) → All P xs → All P (keep_if p xs)
  All-keep_if P p [] h = tt
  All-keep_if P p (x ∷ xs) h = elim (Bool-cases (p x)) [
    | inl kept ↦ rw kept (h.0, All-keep_if P p xs h.1)
    | inr left ↦ rw left (All-keep_if P p xs h.1)
  ]

  All-drop : (P : R → Type 0) (ps xs : List R) → All P (ps ++ xs) → All P xs
  All-drop P [] xs h = h
  All-drop P (p ∷ ps) xs h = All-drop P ps xs h.1

module _ {R : Type 0} (key : R → ℕ) (asc : Bool) where
  pub keep_if-Ordered :
      (p : R → Bool) (xs : List R) → Ordered key asc xs → Ordered key asc (keep_if p xs)
  keep_if-Ordered p [] h = tt
  keep_if-Ordered p (x ∷ xs) h = elim (Bool-cases (p x)) [
    | inl kept ↦
        rw kept
          (All-keep_if (λ y. after asc (key x) (key y) ≡ true) p xs h.0, keep_if-Ordered p xs h.1)
    | inr left ↦ rw left (keep_if-Ordered p xs h.1)
  ]

  -- The clause that a cursor stands for.
  abbrev pub beyond : R → List (R → Bool)
  beyond l = (λ row. after asc (key l) (key row)) ∷ []

  not_before : (a : Bool) (m n : ℕ) → after a m n ≡ true → after a n m ≡ false
  not_before true m n h = ground (arith, h)
  not_before false m n h = ground (arith, h)

  not_self : (a : Bool) (m : ℕ) → after a m m ≡ false
  not_self true m = ground arith
  not_self false m = ground arith

  keep_if-All :
      (l : R) (ys : List R)
      → All (λ y. after asc (key l) (key y) ≡ true) ys
      → keep_if (holds (beyond l)) ys ≡ ys
  keep_if-All l [] h = refl
  keep_if-All l (y ∷ ys) h = rw h.0 (ap (λ s. y ∷ s) (keep_if-All l ys h.1))

  -- What lies beyond a row of an ordered table is what follows it.
  pub keep_if-beyond :
      (ps : List R) (l : R) (ys : List R)
      → Ordered key asc (ps ++ l ∷ ys)
      → keep_if (holds (beyond l)) (ps ++ l ∷ ys) ≡ ys
  keep_if-beyond [] l ys h = rw (not_self asc (key l)) (keep_if-All l ys h.0)
  keep_if-beyond (p ∷ ps) l ys h =
      let later = All-drop (λ y. after asc (key p) (key y) ≡ true) ps (l ∷ ys) h.0 in
      rw (not_before asc (key p) (key l) later.0) (keep_if-beyond ps l ys h.1)
