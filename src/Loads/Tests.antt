-- ===== src/Loads/Tests.antt =====
-- The search on a graph of the program's own classes, and the theorems at it.
use litestar_cqrs_example.Common.{String, List, some, true, ◌≡◌, refl, [], ◌∷◌, nat_eq, string_eq}
use litestar_cqrs_example.Loads.{
  Relation, Mapping, get, scan, found, nothing, loop, remaining, bfs_search,
}
use litestar_cqrs_example.Loads.Names.{
  FromClause, table, join, aliased, walk, from_roots, get_table_names, first_occurrences,
  roots_tables, get_table_names_lem,
}
use litestar_cqrs_example.Loads.Correct.{Answer, bfs_search-Answer}

abbrev relation : String → String → Relation
relation key target = record { key = key; target = target }

abbrev entities : Mapping
entities =
    ("User", relation "roles" "Role" ∷ [])
    ∷ ("Role", relation "users" "User" ∷ relation "permissions" "Permission" ∷ [])
    ∷ ("Permission", relation "roles" "Role" ∷ relation "fields" "PermissionField" ∷ [])
    ∷ []

searches :
    (bfs_search entities "User" "fields"
      ≡ found (
          relation "roles" "Role"
          ∷ relation "permissions" "Permission"
          ∷ relation "fields" "PermissionField"
          ∷ []))
    × (bfs_search entities "User" "sessions" ≡ nothing)
unfolding bfs_search loop scan get remaining
searches = (refl, refl)

bfs_search-Answer_example :
    Answer entities "User" "sessions" (bfs_search entities "User" "sessions")
bfs_search-Answer_example = bfs_search-Answer entities "User" "sessions"

-- A join of two tables, one of them a second time under an alias
abbrev clauses : List FromClause
clauses =
    join (join (table true "user") (table true "user_role")) (aliased (table true "user"))
    ∷ table true "role"
    ∷ []

table_names : get_table_names clauses ≡ some ("user" ∷ "user_role" ∷ "role" ∷ [])
unfolding get_table_names from_roots walk
table_names = refl

get_table_names_lem_example :
    get_table_names clauses ≡ some (first_occurrences [] (roots_tables clauses))
get_table_names_lem_example = get_table_names_lem clauses
