-- ===== src/Loads/Names.antt =====
-- src/backend/infra/database/alchemy/tools/sqla_autoloads/tools.py: the names of the tables in the
-- FROM clause of a query.
use litestar_cqrs_example.Common.{
  ℕ, zero, suc, ◌+◌, ◌<◌, String, string_eq, ◌≡◌, refl, sym, ap, ◌∙◌, Bool, Bool-cases, inl, inr,
  true, false, Option, none, some, List, [], ◌∷◌, ◌++◌, contains, if◌then◌else◌, arith,
}
use mathlib.Core.List.{append-nil, append_assoc}

-- An element of a FROM clause: a `Table`, with whether its type is `Table` itself; a `Join`; an `Alias`;
-- or something else.
pub data FromClause : Type 0 where
  table : (is_exact : Bool) (name : String) → FromClause
  join : (left right : FromClause) → FromClause
  aliased : (element : FromClause) → FromClause
  other_clause : FromClause

-- `seen` and `out`
pub record TableNames : Type 0 where
  pub seen : List String
  pub out : List String

abbrev pub note_name : String → TableNames → TableNames
note_name name st =
    if contains st.seen name
    then st
    else record { seen = name ∷ st.seen; out = st.out ++ (name ∷ []) }

-- `while stack`, whose last element is the first of the list, with as many rounds.
unfoldable pub walk : ℕ → List FromClause → TableNames → Option TableNames
walk zero stack st = none
walk (suc n) [] st = some st
walk (suc n) (table is_exact name ∷ stack) st = walk n stack (note_name name st)
walk (suc n) (join left right ∷ stack) st = walk n (right ∷ left ∷ stack) st
walk (suc n) (aliased element ∷ stack) st = walk n (element ∷ stack) st
walk (suc n) (other_clause ∷ stack) st = walk n stack st

abbrev pub size : FromClause → ℕ
size (table is_exact name) = 1
size (join left right) = suc (size left + size right)
size (aliased element) = suc (size element)
size other_clause = 1

-- A round of the loop over the roots
abbrev pub from_root : FromClause → TableNames → Option TableNames
from_root (table true name) st = some (note_name name st)
from_root (table false name) st = some st
from_root other_clause st = some st
from_root root st = walk (suc (size root)) (root ∷ []) st

abbrev pub then_roots : Option TableNames → (TableNames → Option TableNames) → Option TableNames
then_roots none rest = none
then_roots (some st) rest = rest st

unfoldable pub from_roots : List FromClause → TableNames → Option TableNames
unfolding walk
from_roots [] st = some st
from_roots (root ∷ roots) st = then_roots (from_root root st) (from_roots roots)

abbrev pub out_of : Option TableNames → Option (List String)
out_of none = none
out_of (some st) = some st.out

-- `get_table_names`, of `query.get_final_froms()`
unfoldable pub get_table_names : List FromClause → Option (List String)
unfolding from_roots
get_table_names roots = out_of (from_roots roots (record { seen = []; out = [] }))

-- The names of the tables of an element, those on the right first.
abbrev pub tables : FromClause → List String
tables (table is_exact name) = name ∷ []
tables (join left right) = tables right ++ tables left
tables (aliased element) = tables element
tables other_clause = []

abbrev pub tables_of : List FromClause → List String
tables_of [] = []
tables_of (c ∷ cs) = tables c ++ tables_of cs

-- A root whose type is a subclass of `Table` is left out.
abbrev pub root_tables : FromClause → List String
root_tables (table false name) = []
root_tables root = tables root

abbrev pub roots_tables : List FromClause → List String
roots_tables [] = []
roots_tables (c ∷ cs) = root_tables c ++ roots_tables cs

-- The first occurrences of the names that are not seen
abbrev pub first_occurrences : List String → List String → List String
first_occurrences seen [] = []
first_occurrences seen (x ∷ xs) =
    let without = first_occurrences seen xs in
    let with_x = x ∷ first_occurrences (x ∷ seen) xs in if contains seen x then without else with_x

abbrev note_all : List String → TableNames → TableNames
note_all [] st = st
note_all (x ∷ xs) st = note_all xs (note_name x st)

note_all-append :
    (xs ys : List String) (st : TableNames) → note_all (xs ++ ys) st ≡ note_all ys (note_all xs st)
note_all-append [] ys st = refl
note_all-append (x ∷ xs) ys st = note_all-append xs ys (note_name x st)

sizes : List FromClause → ℕ
sizes [] = 0
sizes (c ∷ cs) = size c + sizes cs

-- With more rounds than elements the loop ends, with the names of all the tables noted.
walk_lem :
    (n : ℕ) (stack : List FromClause) (st : TableNames)
    → sizes stack < n
    → walk n stack st ≡ some (note_all (tables_of stack) st)
unfolding walk sizes
walk_lem zero stack st h = absurd (omega (arith, h))
walk_lem (suc n) [] st h = refl
walk_lem (suc n) (table is_exact name ∷ stack) st h =
    walk_lem n stack (note_name name st) (omega (arith, h))
walk_lem (suc n) (join left right ∷ stack) st h =
    walk_lem n (right ∷ left ∷ stack) st (omega (arith, h))
    ∙ ap (λ xs. some (note_all xs st))
        (sym (append_assoc (tables right) (tables left) (tables_of stack)))
walk_lem (suc n) (aliased element ∷ stack) st h = walk_lem n (element ∷ stack) st (omega (arith, h))
walk_lem (suc n) (other_clause ∷ stack) st h = walk_lem n stack st (omega (arith, h))

from_root_lem :
    (root : FromClause) (st : TableNames)
    → from_root root st ≡ some (note_all (root_tables root) st)
unfolding walk sizes
from_root_lem (table true name) st = refl
from_root_lem (table false name) st = refl
from_root_lem other_clause st = refl
from_root_lem (join left right) st =
    walk_lem (suc (size (join left right))) (join left right ∷ []) st (omega arith)
    ∙ ap (λ xs. some (note_all xs st)) (append-nil (tables (join left right)))
from_root_lem (aliased element) st =
    walk_lem (suc (size (aliased element))) (aliased element ∷ []) st (omega arith)
    ∙ ap (λ xs. some (note_all xs st)) (append-nil (tables element))

from_roots_lem :
    (roots : List FromClause) (st : TableNames)
    → from_roots roots st ≡ some (note_all (roots_tables roots) st)
unfolding from_roots
from_roots_lem [] st = refl
from_roots_lem (root ∷ roots) st =
    ap (λ o. then_roots o (from_roots roots)) (from_root_lem root st)
    ∙ from_roots_lem roots (note_all (root_tables root) st)
    ∙ ap some (sym (note_all-append (root_tables root) (roots_tables roots) st))

note_all_lem :
    (xs : List String) (st : TableNames)
    → (note_all xs st).out ≡ st.out ++ first_occurrences st.seen xs
note_all_lem [] st = sym (append-nil st.out)
note_all_lem (x ∷ xs) st =
    let more : TableNames = record { seen = x ∷ st.seen; out = st.out ++ (x ∷ []) } in
    let by_test = λ (b : Bool) (h : contains st.seen x ≡ b).
      ap (λ b. (note_all xs (if b then st else more)).out) h in
    let split = λ (b : Bool) (h : contains st.seen x ≡ b). sym (
      ap
        (λ b.
          st.out
          ++ (if b then first_occurrences st.seen xs else x ∷ first_occurrences (x ∷ st.seen) xs))
        h) in
    elim (Bool-cases (contains st.seen x)) [
      | inl h ↦ by_test true h ∙ note_all_lem xs st ∙ split true h
      | inr h ↦
          by_test false h
          ∙ note_all_lem xs more
          ∙ append_assoc st.out (x ∷ []) (first_occurrences (x ∷ st.seen) xs)
          ∙ split false h
    ]

-- The search always ends within its rounds, and gives once each name of a table that joins and
-- aliases lead to, in the order in which they first occur where the right side of a join comes before
-- its left. Tables inside other elements, such as subqueries, and roots whose type is a subclass of
-- `Table` are left out.
pub get_table_names_lem :
    (roots : List FromClause)
    → get_table_names roots ≡ some (first_occurrences [] (roots_tables roots))
unfolding get_table_names
get_table_names_lem roots =
    ap out_of (from_roots_lem roots (record { seen = []; out = [] }))
    ∙ ap some (note_all_lem (roots_tables roots) (record { seen = []; out = [] }))
