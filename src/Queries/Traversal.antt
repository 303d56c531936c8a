-- ===== src/Queries/Traversal.antt =====
-- Following the cursors of `GetManyByCursor` from the first page to the last.
use litestar_cqrs_example.Common.{
  ℕ, zero, suc, ◌+◌, ◌-◌, ◌≤◌, ◌<◌, min, String, ◌≡◌, refl, sym, ap, ◌∙◌, inl, inr, Bool, true,
  false, Option, none, some, List, [], ◌∷◌, ◌++◌, arith, ltb, leb, nat_eq, string_eq, Bool-cases,
  length, take, drop, keep_if, is_empty, str_truthy,
}
use mathlib.Core.List.{append_assoc}
use litestar_cqrs_example.Errors.{py, runtime_error, Try, ok, raise}
use litestar_cqrs_example.Queries.{
  Database, Cursors, GetManyByCursor, last, make_stmt, cursor_clauses, paged, perform_cursor,
}
use litestar_cqrs_example.Queries.Table.{
  holds, Ordered, TableLaws, keep_if-append, keep_if-Ordered, beyond, keep_if-beyond,
}

-- A cursor is read back as what it was made of, and is no empty text.
pub record CursorLaws (codec : Cursors) : Type 0 where
  pub decode-encode : (id : ℕ) → codec.decode (codec.encode id) ≡ ok id
  pub encode_truthy : (id : ℕ) → str_truthy (codec.encode id) ≡ true

plus_one : (n : ℕ) → n + 1 ≡ suc n
plus_one n = omega arith

module _ {R : Type 0} where
  abbrev prefixed : List R → Try (List R) → Try (List R)
  prefixed items (ok rest) = ok (items ++ rest)
  prefixed items (raise e) = raise e

  -- A client that asks for a page and goes on with its cursor until there is none.
  unfoldable pub traverse : Database R → Cursors → (fuel : ℕ) → GetManyByCursor R → Try (List R)
  traverse db codec zero q = raise (py runtime_error ("out of fuel" ∷ []))
  traverse db codec (suc fuel) q = elim (perform_cursor db codec q []) [
    | raise e ↦ raise e
    | ok page ↦ elim (str_truthy page.cursor) [
      | true ↦ prefixed page.items (traverse db codec fuel (record q { cursor = some page.cursor }))
      | false ↦ ok page.items
    ]
  ]

  take_long : (n : ℕ) (xs : List R) → length xs ≤ n → take n xs ≡ xs
  take_long zero [] h = refl
  take_long zero (_ ∷ _) h = absurd (omega arith)
  take_long (suc n) [] h = refl
  take_long (suc n) (x ∷ xs) h = ap (λ l. x ∷ l) (take_long n xs (omega arith))

  take-take : (n : ℕ) (xs : List R) → take n (take (suc n) xs) ≡ take n xs
  take-take zero [] = refl
  take-take zero (_ ∷ _) = refl
  take-take (suc n) [] = refl
  take-take (suc n) (x ∷ xs) = ap (λ l. x ∷ l) (take-take n xs)

  take-drop : (n : ℕ) (xs : List R) → take n xs ++ drop n xs ≡ xs
  take-drop zero xs = refl
  take-drop (suc n) [] = refl
  take-drop (suc n) (x ∷ xs) = ap (λ l. x ∷ l) (take-drop n xs)

  length-drop : (n : ℕ) (xs : List R) → length (drop n xs) ≡ length xs - n
  length-drop zero xs = omega arith
  length-drop (suc n) [] = omega arith
  length-drop (suc n) (x ∷ xs) = omega (arith, length-drop n xs)

  length-take : (n : ℕ) (xs : List R) → length (take n xs) ≡ min n (length xs)
  length-take zero xs = omega arith
  length-take (suc n) [] = omega arith
  length-take (suc n) (x ∷ xs) = omega (arith, length-take n xs)

  pub keep_if_true : (xs : List R) → keep_if (holds []) xs ≡ xs
  keep_if_true [] = refl
  keep_if_true (x ∷ xs) = ap (λ l. x ∷ l) (keep_if_true xs)

  -- The last row of a page, and what stands before and behind it.
  last_split :
      (n : ℕ) (ys : List R)
      → n < length ys
      → (qs : List R) × (l : R) × (ys ≡ qs ++ l ∷ drop (suc n) ys) × (last (take (suc n) ys) ≡ ok l)
  unfolding last
  last_split n [] h = absurd (omega arith)
  last_split zero (y ∷ ys) h = ([], y, refl, refl)
  last_split (suc n) (y ∷ []) h = absurd (omega arith)
  last_split (suc n) (y ∷ z ∷ zs) h =
      let (qs, l, e, found) = last_split n (z ∷ zs) (omega arith) in
      (y ∷ qs, l, ap (λ s. y ∷ s) e, found)

module _ {R : Type 0} (db : Database R) (laws : TableLaws db) (codec : Cursors)
    (cursors : CursorLaws codec) where
  -- The rows that a query without further clauses asks for.
  rows_lem :
      (q : GetManyByCursor R) (own : List (R → Bool))
      → db.rows (make_stmt q own [])
        ≡ take (q.limit + 1) (keep_if (holds own) (laws.all_rows q.asc))
  unfolding make_stmt
  rows_lem q own = elim (Bool-cases (is_empty q.loads)) [
    | inl none_loaded ↦
        rw (none_loaded, make_stmt)
          (laws.rows-plain (record {
            clauses = own ++ [];
            asc = q.asc;
            offset = none;
            limit = some (q.limit + 1);
          })
            ∙ ap (take (q.limit + 1)) (
                keep_if-append own [] (laws.all_rows q.asc)
                ∙ keep_if_true (keep_if (holds own) (laws.all_rows q.asc))))
    | inr loaded ↦
        rw (loaded, make_stmt)
          (laws.rows-joined
              (record { clauses = own; asc = q.asc; offset = none; limit = some (q.limit + 1) }) []
            ∙ keep_if_true (take (q.limit + 1) (keep_if (holds own) (laws.all_rows q.asc))))
  ]

  -- A page, where the cursor stands for given clauses.
  perform_lem :
      (q : GetManyByCursor R) (extra : List (R → Bool)) (ys : List R)
      → cursor_clauses db codec q.asc q.cursor ≡ ok extra
      → keep_if (holds (q.clauses ++ extra)) (laws.all_rows q.asc) ≡ ys
      → perform_cursor db codec q [] ≡ paged db codec q.limit (take (q.limit + 1) ys)
  unfolding perform_cursor
  perform_lem q extra ys at_ left =
      rw (at_, perform_cursor)
        (ap (paged db codec q.limit)
          (rows_lem q (q.clauses ++ extra) ∙ ap (take (q.limit + 1)) left))

  -- The last page, and one before it.
  paged_last :
      (n : ℕ) (ys : List R)
      → length ys ≤ n
      → paged db codec n (take (n + 1) ys)
        ≡ ok (record { items = ys; results_per_page = length ys; cursor = "" })
  unfolding paged
  paged_last n ys h =
      let whole : take (n + 1) ys ≡ ys = take_long (n + 1) ys (omega arith) in
      let all_items : take n ys ≡ ys = take_long n ys h in
      let fits : ltb n (length ys) ≡ false = ground arith in rw whole (rw all_items (rw fits refl))

  paged_more :
      (n : ℕ) (ys : List R) (l : R)
      → n < length ys
      → last (take n ys) ≡ ok l
      → paged db codec n (take (n + 1) ys)
        ≡ ok (record {
          items = take n ys;
          results_per_page = length (take n ys);
          cursor = codec.encode (db.key l);
        })
  unfolding paged
  paged_more n ys l h found =
      let items : take n (take (n + 1) ys) ≡ take n ys =
        ap (λ m. take n (take m ys)) (plus_one n) ∙ take-take n ys in
      let more : ltb n (length (take (n + 1) ys)) ≡ true =
        ground (arith, length-take (n + 1) ys, h) in
      rw more (rw (items, found) (rw items refl))

  module _ (clauses : List (R → Bool)) (asc : Bool) where
    abbrev matching : List R
    matching = keep_if (holds clauses) (laws.all_rows asc)

    -- The rows beyond a row that matches are those that follow it.
    beyond_lem :
        (qs : List R) (l : R) (ys : List R)
        → matching ≡ qs ++ l ∷ ys
        → keep_if (holds (clauses ++ beyond db.key asc l)) (laws.all_rows asc) ≡ ys
    beyond_lem qs l ys e =
        keep_if-append clauses (beyond db.key asc l) (laws.all_rows asc)
        ∙ ap (keep_if (holds (beyond db.key asc l))) e
        ∙ keep_if-beyond db.key asc qs l ys (
            moved e (
              keep_if-Ordered db.key asc (holds clauses) (laws.all_rows asc)
                (laws.all_rows-Ordered asc)))
      where
        moved : {xs zs : List R} → xs ≡ zs → Ordered db.key asc xs → Ordered db.key asc zs
        moved same h = rw (← same) h

    cursor_back :
        (l : R)
        → cursor_clauses db codec asc (some (codec.encode (db.key l))) ≡ ok (beyond db.key asc l)
    unfolding cursor_clauses
    cursor_back l = rw (cursors.encode_truthy (db.key l), cursors.decode-encode (db.key l)) refl

    abbrev query_at : List String → ℕ → Option String → GetManyByCursor R
    query_at loads n cursor = record {
      loads = loads;
      clauses = clauses;
      asc = asc;
      limit = suc n;
      cursor = cursor;
    }

    module _ (loads : List String) (n : ℕ) where
      ends :
          (fuel : ℕ) (cursor : Option String) (extra : List (R → Bool)) (ys : List R)
          → cursor_clauses db codec asc cursor ≡ ok extra
          → keep_if (holds (clauses ++ extra)) (laws.all_rows asc) ≡ ys
          → length ys ≤ suc n
          → traverse db codec (suc fuel) (query_at loads n cursor) ≡ ok ys
      unfolding traverse
      ends fuel cursor extra ys at_ left short =
          rw
            (
              perform_lem (query_at loads n cursor) extra ys at_ left ∙ paged_last (suc n) ys short,
              traverse,
            )
            refl

      -- From a cursor on, the client gets what is left.
      traverse_from :
          (fuel : ℕ) (cursor : Option String) (extra : List (R → Bool)) (ps ys : List R)
          → cursor_clauses db codec asc cursor ≡ ok extra
          → keep_if (holds (clauses ++ extra)) (laws.all_rows asc) ≡ ys
          → matching ≡ ps ++ ys
          → length ys ≤ fuel
          → traverse db codec (suc fuel) (query_at loads n cursor) ≡ ok ys
      unfolding traverse
      traverse_from zero cursor extra ps ys at_ left within enough =
          ends zero cursor extra ys at_ left (omega arith)
      traverse_from (suc fuel) cursor extra ps ys at_ left within enough =
          elim (Bool-cases (leb (length ys) (suc n))) [
            | inl short ↦ ends (suc fuel) cursor extra ys at_ left (ground arith)
            | inr long ↦
                let (qs, l, e, found) = last_split n ys (ground arith) in
                let rest = drop (suc n) ys in
                let apart : matching ≡ (ps ++ qs) ++ l ∷ rest =
                  within ∙ ap (λ s. ps ++ s) e ∙ sym (append_assoc ps qs (l ∷ rest)) in
                let page =
                  perform_lem (query_at loads n cursor) extra ys at_ left
                  ∙ paged_more (suc n) ys l (ground arith) found in
                let later =
                  traverse_from fuel (some (codec.encode (db.key l))) (beyond db.key asc l)
                    ((ps ++ qs) ++ l ∷ []) rest (cursor_back l) (beyond_lem (ps ++ qs) l rest apart)
                    (apart ∙ sym (append_assoc (ps ++ qs) (l ∷ []) rest))
                    (omega (arith, length-drop (suc n) ys, enough)) in
                rw (page, traverse)
                  (rw (cursors.encode_truthy (db.key l)) (rw later (ap ok (take-drop (suc n) ys))))
          ]

  -- Whatever it loads, in either order and with any page size but zero, a client that starts without
  -- a cursor and follows the cursors gets every row that matches exactly once, in the order of their
  -- keys, in at most one page more than there are such rows, and then no cursor.
  pub traverse_lem :
      (loads : List String) (clauses : List (R → Bool)) (asc : Bool) (n : ℕ)
      → traverse db codec
          (suc (length (keep_if (holds clauses) (laws.all_rows asc))))
          (record { loads = loads; clauses = clauses; asc = asc; limit = suc n; cursor = none })
        ≡ ok (keep_if (holds clauses) (laws.all_rows asc))
  unfolding cursor_clauses
  traverse_lem loads clauses asc n =
      traverse_from clauses asc loads n (length (keep_if (holds clauses) (laws.all_rows asc))) none
        [] [] (keep_if (holds clauses) (laws.all_rows asc)) refl
        (keep_if-append clauses [] (laws.all_rows asc)
          ∙ keep_if_true (keep_if (holds clauses) (laws.all_rows asc)))
        refl (omega arith)
